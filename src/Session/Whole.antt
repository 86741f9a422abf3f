-- ===== src/Session/Whole.antt =====
-- The whole of processFile (project_3/rcopy.c) over what it hears in a transfer.
use remotecopy.Base.{ℕ, ◌≡◌, refl, sym, ap, subst, ◌∙◌, true, false, some, List, [], ◌∷◌, ◌++◌}
use remotecopy.Base.Chunks.{concat}
use remotecopy.Base.Control.{Event, Outcome, returned, waiting, faulted, Fault}
use remotecopy.Base.Machine.{IsFinal}
use remotecopy.Window.{WindowArray}
use remotecopy.Server.State as Server
use remotecopy.Rcopy.State as Rcopy
use remotecopy.Rcopy.State.{Receiver}
use remotecopy.Rcopy.Args.{arguments_of}
use remotecopy.Rcopy.Process.{
  Arguments, Client, fresh_client, filename, process_file, is_done, switch, receiver_of,
}
use remotecopy.Rcopy.Asking.{filename-longer}
use remotecopy.Rcopy.Termination.{process_file-IsFinal}
use remotecopy.Session.{Place, Site, receiver_at, advance_client, listen}
use remotecopy.Session.Loops.{Steps}
use remotecopy.Session.Refine.{polls_client}
use remotecopy.Session.Copy.{Starts, first_place, first_site, IsTransfer}
use remotecopy.Session.Complete.{IsWorking, Runs-complete}
use remotecopy.Session.ProcessFile.{ClientComes}
use remotecopy.Session.Begin.{IsRequest, response, programs-Come}
use remotecopy.Session.Trail.{Steps-fixed, Steps-polls}
use remotecopy.Session.Heard.{heard, Flushes, ClientTrail, advance_client-rests, Runs-Trail}

silent : false ≡ true → ⊥
silent e = cc

module _ (client : Rcopy.System) (args : Arguments) (r : Receiver) where
  -- A run that has ended in DONE with what `r` holds, and no events left.
  abbrev pub EndsWith : Outcome Client Rcopy.State → Type 0
  EndsWith o =
      (c : Client) × (w : WindowArray) × (o ≡ returned Rcopy.State.done [] c)
      × (c.window ≡ some w)
      × (r ≡ receiver_of client args w c)

  abbrev ToDone : Site → List Event → Type 0
  ToDone = ClientTrail client args.buffer_size (Site.stands Rcopy.State.done r)

  fixed_done :
      (r' : Receiver)
      → advance_client client args.buffer_size (Site.stands Rcopy.State.done r')
        ≡ Site.stands Rcopy.State.done r'
  unfolding advance_client
  fixed_done r' = refl

  fixed_breaks :
      (f : Fault) (r' : Receiver)
      → advance_client client args.buffer_size (Site.breaks f r') ≡ Site.breaks f r'
  unfolding advance_client
  fixed_breaks f r' = refl

  module _ (p : Site) (es : List Event) (t : ToDone p es) where
    abbrev Leads : Site → List Event → Type 0
    Leads q left =
        Steps (advance_client client args.buffer_size) (listen client args.buffer_size) polls_client
          q left p es

    -- A site to which the steps lead, and which is left by no step, is the end of the steps.
    fixed :
        (q q' : Site) (left : List Event)
        → Leads q left
        → q ≡ q'
        → polls_client q' ≡ false
        → advance_client client args.buffer_size q' ≡ q'
        → (Site.stands Rcopy.State.done r ≡ q') × (left ≡ [])
    fixed q q' left h at =
        Steps-fixed (advance_client client args.buffer_size) (listen client args.buffer_size)
          polls_client (Flushes client args.buffer_size)
          (advance_client-rests client args.buffer_size) (Site.stands Rcopy.State.done r)
          (fixed_done r) p es t q' left (subst (λ d. Leads d left) at h)

    comes-EndsWith :
        (o : Outcome Client Rcopy.State)
        → IsFinal is_done (switch client args) o
        → ClientComes client args p es o
        → EndsWith o
    comes-EndsWith (returned Rcopy.State.done left c) n (q, (i, (w, e, at)), h) =
        let (same, none_left) = fixed q _ left h at refl (fixed_done _) in
        (c, w, ap (λ l. returned Rcopy.State.done l c) none_left, e, ap receiver_at same)
    comes-EndsWith (returned Rcopy.State.start left c) n h = absurd (cc)
    comes-EndsWith (returned Rcopy.State.filename left c) n h = absurd (cc)
    comes-EndsWith (returned Rcopy.State.file_okay left c) n h = absurd (cc)
    comes-EndsWith (returned Rcopy.State.in_order left c) n h = absurd (cc)
    comes-EndsWith (returned Rcopy.State.buffering left c) n h = absurd (cc)
    comes-EndsWith (returned Rcopy.State.flush left c) n h = absurd (cc)
    comes-EndsWith (waiting c) n (q, left, (st, oc, gone, polls, _), h) = absurd (
        Steps-polls (advance_client client args.buffer_size) (listen client args.buffer_size)
          polls_client (Flushes client args.buffer_size)
          (advance_client-rests client args.buffer_size) (Site.stands Rcopy.State.done r)
          (fixed_done r) p es t q left h refl polls gone)
    comes-EndsWith (faulted f) n (q, left, (r', at), h) =
        let (same, none_left) = fixed q (Site.breaks f r') left h at refl (fixed_breaks f r') in
        absurd (cc)

module _ (server : Server.System) (client : Rcopy.System) (argv : List (List ℕ))
    (chunks : List (List ℕ)) (w : WindowArray) (request : IsRequest server client argv chunks w)
    (asking : List Event) (c : Client)
    (answered : filename client (arguments_of argv) asking fresh_client
      ≡ returned Rcopy.State.file_okay [] c) where
  abbrev pub transfer :
      IsTransfer server client
        (arguments_of argv).buffer_size
        chunks
        (arguments_of argv).window_size
        w
        1
        (response server ∷ [])
        c.sent
  transfer = (programs-Come server client argv chunks w request [] asking [] c answered).0

  -- Where the child and rcopy come to after the response.
  abbrev pub Ensues : Place → Site → Type 0
  Ensues =
      Starts server client (arguments_of argv).buffer_size chunks (arguments_of argv).window_size w
        1 (response server ∷ []) c.sent transfer

  -- What rcopy hears in such a run, behind the events up to the response.
  abbrev pub events :
      (q : Place) (r : Receiver) → Ensues q (Site.stands Rcopy.State.done r) → List Event
  events q r run =
      asking
      ++ heard server client (arguments_of argv).buffer_size (first_place w (response server ∷ []))
          (first_site w 1 c.sent) q (Site.stands Rcopy.State.done r) run

  -- Under the conditions of `IsRequest`, and if rcopy's filename is left for FILE_OKAY behind some
  -- events: for every run of the transfer in which rcopy comes to DONE, the network losing,
  -- repeating, delaying, reordering and corrupting as it may, process_file over those events and
  -- what rcopy hears in the run, in its order, returns in DONE with no event left, and its
  -- variables hold what rcopy's do at the end of the run.
  pub Runs-process_file :
      (q : Place) (r : Receiver) (run : Ensues q (Site.stands Rcopy.State.done r))
      → EndsWith client
          (arguments_of argv)
          r
          (process_file client (arguments_of argv) (events q r run))
  Runs-process_file q r run =
      let es =
        heard server client (arguments_of argv).buffer_size (first_place w (response server ∷ []))
          (first_site w 1 c.sent) q (Site.stands Rcopy.State.done r) run in
      comes-EndsWith client (arguments_of argv) r _ es
        (Runs-Trail server client (arguments_of argv).buffer_size chunks
          (arguments_of argv).window_size w 1 (response server ∷ []) c.sent transfer q _ run)
        _ (process_file-IsFinal client (arguments_of argv) (asking ++ es))
        ((programs-Come server client argv chunks w request [] (asking ++ es) es c (
          filename-longer client (arguments_of argv) asking es [] Rcopy.State.file_okay c
            answered)).2)

  -- Under the conditions of `IsRequest`, if rcopy's filename is left for FILE_OKAY behind some
  -- events, the checksum satisfies its law, `read` gives each chunk and then the end of the file,
  -- and `write` writes all, then there is a run of the transfer with the child, from its start, in
  -- which rcopy comes to DONE; and process_file, over those events and what rcopy hears in this
  -- run, returns in DONE with a file that is equal to the one that the child reads.
  pub process_file-copies :
      IsWorking server client (arguments_of argv).buffer_size chunks
      → (q : Place) × (r : Receiver) × (run : Ensues q (Site.stands Rcopy.State.done r))
        × (c' : Client) × (process_file client (arguments_of argv) (events q r run)
            ≡ returned Rcopy.State.done [] c')
        × (c'.file ≡ concat chunks)
  process_file-copies working =
      let (q, r, run, whole) =
        Runs-complete server client (arguments_of argv).buffer_size chunks
          (arguments_of argv).window_size w 1 (response server ∷ []) c.sent transfer working in
      let (c', w', e, o, same) = Runs-process_file q r run in
      (q, r, run, c', e, sym (ap (λ r'. r'.file) same) ∙ whole)

-- ===== src/Server/Cleanup.antt =====
-- clean_up of project_3/server.c: the case DONE of process_client's switch is never reached.
use remotecopy.Base.{ℕ, ◌≡◌, refl, false, Option, none, some, List, [], ◌∷◌, All}
use remotecopy.Base.Control.{
  Event, Outcome, returned, waiting, faulted, Result, ok, fault, OutcomeIs, ◌>>=◌,
}
use remotecopy.Base.Machine.{machine_rule}
use remotecopy.Pdu.{Pdu, process_pdu}
use remotecopy.Window.{WindowArray}
use remotecopy.Server.State.{State, System, Sender, Patience}
use remotecopy.Server.Process.{
  Child, is_done, switch, filename, answer_setup, setup_fields, process_client, fresh_child,
  sender_of, of_sender, of_patience, with_window, open_window, after_filename, enough_rounds,
}
use remotecopy.Server.Transfer.{window_open, window_closed, end_of_file}

abbrev Any : Event → Type 0
Any e = Unit {0}

abbrev Uncleaned : Child → Type 0
Uncleaned c = c.cleaned ≡ false

abbrev Keeps : Outcome Child State → Type 0
Keeps = OutcomeIs Any Uncleaned (λ st c. Uncleaned c) (λ f. Unit {0})

All-Any : (es : List Event) → All Any es
All-Any [] = tt
All-Any (e ∷ es) = (tt, All-Any es)

module _ (sys : System) where
  of_sender-Keeps : (c : Child) (o : Outcome Sender State) → Uncleaned c → Keeps (of_sender sys c o)
  of_sender-Keeps c (returned st es s) h = (All-Any es, h)
  of_sender-Keeps c (waiting s) h = h
  of_sender-Keeps c (faulted f) h = tt

  of_patience-Keeps :
      (c : Child) (o : Outcome Patience State) → Uncleaned c → Keeps (of_patience sys c o)
  of_patience-Keeps c (returned st es s) h = (All-Any es, h)
  of_patience-Keeps c (waiting s) h = h
  of_patience-Keeps c (faulted f) h = tt

  with_window-Keeps :
      (o : Option WindowArray) (k : WindowArray → Outcome Child State)
      → ((w : WindowArray) → Keeps (k w))
      → Keeps (with_window sys o k)
  with_window-Keeps none k h = tt
  with_window-Keeps (some w) k h = h w

  answer-Keeps :
      (seq : ℕ) (f : Result (ℕ × ℕ × List ℕ)) (c : Child) (es : List Event)
      → Uncleaned c
      → Keeps (after_filename sys es (f >>= λ x. answer_setup sys seq x c))
  unfolding answer_setup
  answer-Keeps seq (ok (a, b, name)) c es h = (All-Any es, h)
  answer-Keeps seq (fault f) c es h = tt

  filename-Keeps :
      (buf : List ℕ) (c : Child) (es : List Event)
      → Uncleaned c
      → Keeps (after_filename sys es (filename sys buf c))
  unfolding filename
  filename-Keeps buf c es h = by_pdu (process_pdu sys.in_cksum buf)
    where
      by_pdu :
          (o : Option Pdu)
          → Keeps (
              after_filename sys es (elim o [
                | none ↦ ok (State.done, c)
                | some p ↦ setup_fields p.payload >>= λ f. answer_setup sys p.sequence_number f c
              ]))
      by_pdu none = (All-Any es, h)
      by_pdu (some p) = answer-Keeps p.sequence_number (setup_fields p.payload) c es h

  switch-Keeps :
      (buf : List ℕ) (st : State) (es : List Event) (c : Child)
      → is_done st ≡ false
      → All Any es
      → Uncleaned c
      → Keeps (switch sys buf st es c)
  unfolding switch
  switch-Keeps buf State.start es c d g h = (g, h)
  switch-Keeps buf State.filename es c d g h = filename-Keeps buf c es h
  switch-Keeps buf State.window_open es c d g h =
      with_window-Keeps (open_window sys c) _
        λ w. of_sender-Keeps c (window_open sys c.buf_size es (sender_of sys w c)) h
  switch-Keeps buf State.window_closed es c d g h =
      with_window-Keeps c.window _
        λ w. of_patience-Keeps c (window_closed sys c.buf_size es (sender_of sys w c)) h
  switch-Keeps buf State.end_of_file es c d g h =
      with_window-Keeps c.window _
        λ w. of_patience-Keeps c (end_of_file sys c.buf_size es (sender_of sys w c)) h
  switch-Keeps buf State.done es c d g h = absurd (cc)

  -- However process_client's run goes, the case DONE that calls clean_up has not run when it
  -- returns or waits: for every setup packet and all events.
  pub process_client-Uncleaned :
      (buf : List ℕ) (es : List Event)
      → OutcomeIs
          (λ e. Unit {0})
          (λ c. c.cleaned ≡ false)
          (λ st c. c.cleaned ≡ false)
          (λ f. Unit {0})
          (process_client sys buf es)
  unfolding process_client
  process_client-Uncleaned buf es =
      machine_rule is_done (switch sys buf) Any (λ st c. Uncleaned c) Uncleaned (λ f. Unit {0})
        (switch-Keeps buf) (enough_rounds sys es) State.start es fresh_child (All-Any es) refl

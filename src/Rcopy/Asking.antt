-- ===== src/Rcopy/Asking.antt =====
-- filename of project_3/rcopy.c: what it has sent when it is left, and how it goes over more events.
use remotecopy.Base.{
  ℕ, ◌+◌, ◌≡◌, refl, ap, subst, Bool, true, false, none, List, [], ◌∷◌, ◌++◌, ◌∙◌, All, take,
  length, get_or, ltb, ◌==◌, ◌||◌, if◌then◌else◌,
}
use remotecopy.Base.Control.{
  Event, timeout, arrives, Turn, again, leave, crash, Fault, overflow, Outcome, returned, waiting,
  faulted, TurnIs, OutcomeIs, poll_loop, poll_loop_rule,
}
use remotecopy.Base.Longer.{poll_loop-longer, with_more}
use remotecopy.Protocol.{
  filename_response_flag, file_ok, data_packet_flag, recv_flag_location,
  resent_timeout_data_packet_flag,
}
use remotecopy.Pdu.{pdu_header_len}
use remotecopy.Rcopy.State.{State, System}
use remotecopy.Rcopy.Genuine.{Reply}
use remotecopy.Rcopy.Process.{
  Arguments, Client, fresh_client, Asking, max_tries, setup_pdu, ask_turn, ask_again, ask_response,
  ask_answer, filename, of_asking, too_short,
}

-- A part of the loop after which `I` holds.
data Keeps (I : Asking → Type 0) : Turn Asking State → Type 0 where
  goes : {w : Asking} → I w → Keeps I (again w)
  stops : {st : State} {w : Asking} → I w → Keeps I (leave st w)
  breaks : {f : Fault} → Keeps I (crash f)

module _ (I : Asking → Type 0) where
  if-Keeps :
      (b : Bool) (t u : Turn Asking State) → Keeps I t → Keeps I u → Keeps I (if b then t else u)
  if-Keeps true t u h k = h
  if-Keeps false t u h k = k

  Keeps-Is : (t : Turn Asking State) → Keeps I t → TurnIs I (λ st w. I w) (λ f. Unit {0}) t
  Keeps-Is (again w) (Keeps.goes i) = i
  Keeps-Is (leave st w) (Keeps.stops i) = i
  Keeps-Is (crash f) Keeps.breaks = tt

module _ (sys : System) (args : Arguments) (chunks : List (List ℕ)) where
  -- What has been sent are setup packets.
  abbrev pub Asked : List (List ℕ) → Type 0
  Asked = All (Reply sys.in_cksum chunks 0 0)

  abbrev AskedBy : Asking → Type 0
  AskedBy w = Asked w.sent

  ask_turn-Keeps :
      (seq : ℕ) (w : Asking)
      → AskedBy w
      → Keeps AskedBy (ask_turn sys args (setup_pdu sys args seq) w)
  unfolding ask_turn setup_pdu
  ask_turn-Keeps seq w h =
      if-Keeps AskedBy (ltb w.count max_tries) _ _ (Keeps.goes (Reply.setup seq _ refl, h))
        (Keeps.stops h)

  ask_again-Keeps : (w : Asking) → AskedBy w → Keeps AskedBy (ask_again sys args w)
  unfolding ask_again
  ask_again-Keeps w h =
      if-Keeps AskedBy (w.count + 1 == max_tries) _ _ (Keeps.stops h) (Keeps.goes h)

  ask_response-Keeps :
      (buffer : List ℕ) (w : Asking) → AskedBy w → Keeps AskedBy (ask_response sys args buffer w)
  unfolding ask_response
  ask_response-Keeps buffer w h =
      let flag = get_or buffer recv_flag_location 0 in
      if-Keeps AskedBy (ltb (length buffer) pdu_header_len) _ _ Keeps.breaks (
        if-Keeps AskedBy (flag == filename_response_flag) _ _
          (if-Keeps AskedBy (length buffer == pdu_header_len) _ _ Keeps.breaks (
            if-Keeps AskedBy (get_or buffer pdu_header_len 0 == file_ok) _ _ (Keeps.stops h)
              (Keeps.stops h)))
          (if-Keeps AskedBy (flag == data_packet_flag || flag == resent_timeout_data_packet_flag) _
            _ (Keeps.stops h) (Keeps.stops h)))

  ask_answer-Keeps : (e : Event) (w : Asking) → AskedBy w → Keeps AskedBy (ask_answer sys args e w)
  unfolding ask_answer
  ask_answer-Keeps timeout w h = ask_again-Keeps w h
  ask_answer-Keeps (arrives datagram) w h =
      let buffer = take (pdu_header_len + args.buffer_size) datagram in
      if-Keeps AskedBy (sys.in_cksum buffer == 0) _ _ (ask_response-Keeps buffer w h)
        (ask_again-Keeps w h)

  -- What the variables hold when filename is left for the first time.
  pub record HasAsked (c : Client) : Type 0 where
    pub asked : Asked c.sent
    pub number : c.sequence_number ≡ 1
    pub unopened : c.window ≡ none
    pub unwritten : c.file ≡ []

  abbrev OutcomeAsked : Outcome Client State → Type 0
  OutcomeAsked (returned st es c) = HasAsked c
  OutcomeAsked (waiting c) = Unit {0}
  OutcomeAsked (faulted f) = Unit {0}

  of_asking-Asked :
      (o : Outcome Asking State)
      → OutcomeIs (λ e. Unit {0}) AskedBy (λ st w. AskedBy w) (λ f. Unit {0}) o
      → OutcomeAsked (of_asking sys args fresh_client o)
  of_asking-Asked (returned st es w) (g, h) = record {
    asked = h;
    number = refl;
    unopened = refl;
    unwritten = refl;
  }
  of_asking-Asked (waiting w) h = tt
  of_asking-Asked (faulted f) h = tt

  any : (es : List Event) → All (λ e. Unit {0}) es
  any [] = tt
  any (e ∷ es) = (tt, any es)

  unless-Asked :
      (b : Bool) (o : Outcome Client State)
      → OutcomeAsked o
      → OutcomeAsked (if b then faulted overflow else o)
  unless-Asked true o h = tt
  unless-Asked false o h = h

  filename-OutcomeAsked : (es : List Event) → OutcomeAsked (filename sys args es fresh_client)
  unfolding filename
  filename-OutcomeAsked es = unless-Asked (too_short sys args) _ (
      of_asking-Asked _ (
        poll_loop_rule (λ e. Unit {0}) AskedBy AskedBy (λ st w. AskedBy w) (λ f. Unit {0})
          (ask_turn sys args (setup_pdu sys args 0)) (ask_answer sys args)
          (λ w h. Keeps-Is AskedBy _ (ask_turn-Keeps 0 w h))
          (λ e w g h. Keeps-Is AskedBy _ (ask_answer-Keeps e w h)) es
          (record { sent = []; count = 0 }) (any es) tt))

  -- When filename is left, rcopy has sent setup packets only, its sequence number is one, and it has
  -- neither a window nor written anything.
  pub filename-HasAsked :
      (es left : List Event) (st : State) (c : Client)
      → filename sys args es fresh_client ≡ returned st left c
      → HasAsked c
  filename-HasAsked es left st c e = subst OutcomeAsked e (filename-OutcomeAsked es)

abbrev asking_loop : System → Arguments → List Event → Outcome Asking State
asking_loop sys args es =
    poll_loop (ask_turn sys args (setup_pdu sys args 0)) (ask_answer sys args) es
      (record { sent = []; count = 0 })

-- filename over more events than it needs.
pub filename-longer :
    (sys : System) (args : Arguments) (asking more left : List Event) (st : State)
    → (c : Client) → filename sys args asking fresh_client ≡ returned st left c
    → filename sys args (asking ++ more) fresh_client ≡ returned st (left ++ more) c
unfolding filename
filename-longer sys args asking more left st c = by_room (too_short sys args)
  where
    by_loop :
        (o : Outcome Asking State)
        → asking_loop sys args asking ≡ o
        → of_asking sys args fresh_client o ≡ returned st left c
        → of_asking sys args fresh_client (asking_loop sys args (asking ++ more))
          ≡ returned st (left ++ more) c
    by_loop (returned a l w) q e =
        ap (of_asking sys args fresh_client) (
          poll_loop-longer (ask_turn sys args (setup_pdu sys args 0)) (ask_answer sys args) more
            asking _ a l w q)
        ∙ ap (with_more more) e
    by_loop (waiting w) q e = absurd (cc)
    by_loop (faulted f) q e = absurd (cc)

    by_room :
        (b : Bool)
        → (if b
            then faulted overflow
            else of_asking sys args fresh_client (asking_loop sys args asking))
          ≡ returned st left c
        → (if b
            then faulted overflow
            else of_asking sys args fresh_client (asking_loop sys args (asking ++ more)))
          ≡ returned st (left ++ more) c
    by_room true e = absurd (cc)
    by_room false e = by_loop (asking_loop sys args asking) refl e

-- ===== src/Session/Begin.antt =====
-- How project_3/rcopy.c and a child of project_3/server.c come to a transfer: from the arguments of
-- rcopy over the setup packet to IN_ORDER and WINDOW_OPEN.
mod Tests
use remotecopy.Base.{
  ℕ, ◌+◌, ◌≤◌, ◌<◌, ◌^◌, ◌≡◌, ◌≢◌, refl, sym, ap, subst, ◌∙◌, true, none, some, List, [], ◌∷◌, All,
  take, length, arith,
}
use remotecopy.Base.Control.{Event, returned, ok}
use remotecopy.Base.Atoi.{atoi-lt}
use remotecopy.Protocol.{filename_response_flag, file_ok}
use remotecopy.Pdu.{create_pdu, IsChecksum}
use remotecopy.Window.{WindowArray, make_window}
use remotecopy.Server.State as Server
use remotecopy.Server.Parent.{setup_buffer_length}
use remotecopy.Server.Process.{Child, fresh_child, process_client, response_byte, response_state}
use remotecopy.Server.Process as Child
use remotecopy.Server.Invariant.{Transmission}
use remotecopy.Server.Turns.{IsReading}
use remotecopy.Rcopy.State as Rcopy
use remotecopy.Rcopy.Process.{Client, fresh_client, setup_pdu, process_file}
use remotecopy.Rcopy.Process as Asking
use remotecopy.Rcopy.Args.{arguments_of, check_args, check_args-bounds}
use remotecopy.Rcopy.Asking.{HasAsked, filename-HasAsked}
use remotecopy.Setup.{check_args-filename}
use remotecopy.Session.{Site}
use remotecopy.Session.Copy.{IsTransfer, first_place, first_site}
use remotecopy.Session.ProcessClient.{ChildComes, process_client-Comes}
use remotecopy.Session.ProcessFile.{ClientComes, process_file-Comes}

-- What the server answers to the setup packet of a file that it has opened.
abbrev pub response : Server.System → List ℕ
response server = create_pdu server.in_cksum 0 filename_response_flag (file_ok ∷ [])

module _ (server : Server.System) (client : Rcopy.System) (argv : List (List ℕ))
    (chunks : List (List ℕ)) (w : WindowArray) where
  -- The conditions on the two programs: `check_args` accepts the arguments, and the server opens the
  -- file and reads its chunks.
  pub record IsRequest : Type 0 where
    pub accepted : check_args argv ≡ none
    pub law : IsChecksum client.in_cksum
    pub same : server.in_cksum ≡ client.in_cksum
    pub whole : All (λ b. b ≢ 0) (arguments_of argv).from_file
    pub found : server.open_input (arguments_of argv).from_file ≡ true
    pub writable : client.open_output ≡ true
    pub reading : IsReading server (arguments_of argv).buffer_size chunks
    pub made : make_window (arguments_of argv).window_size ≡ some w
    pub positive : 0 < (arguments_of argv).window_size
    pub small : length chunks + (arguments_of argv).window_size + 1 < 2 ^ 31

  module _ (r : IsRequest) where
    -- The child, once it has answered.
    abbrev answered : Child
    answered = record fresh_child {
      window_size = (arguments_of argv).window_size;
      buf_size = (arguments_of argv).buffer_size;
      sent = response server ∷ [];
    }

    child_answers :
        Child.filename server
          (take setup_buffer_length (setup_pdu client (arguments_of argv) 0))
          fresh_child
        ≡ ok (Server.State.window_open, answered)
    child_answers =
        (check_args-filename client server argv fresh_child r.accepted r.law r.same r.whole).1
          r.found

    child-Comes :
        (es : List Event)
        → ChildComes server
            (arguments_of argv).buffer_size
            (first_place w (response server ∷ []))
            es
            (process_client server
              (take setup_buffer_length (setup_pdu client (arguments_of argv) 0))
              es)
    child-Comes es =
        process_client-Comes server (arguments_of argv).buffer_size _ es answered w child_answers
          refl r.made

    client-IsTransfer :
        (c : Client)
        → HasAsked client (arguments_of argv) chunks c
        → IsTransfer server client
            (arguments_of argv).buffer_size
            chunks
            (arguments_of argv).window_size
            w
            1
            (response server ∷ [])
            c.sent
    client-IsTransfer c h =
        let bounds = check_args-bounds argv r.accepted in
        record {
          reading = r.reading;
          same = sym r.same;
          fits = omega (arith, bounds);
          filled = omega (arith, bounds);
          made = r.made;
          positive = r.positive;
          small = r.small;
          number = omega arith;
          sendings = (Transmission.response 0 file_ok refl, tt);
          asked = h.asked;
        }

    client-Comes :
        (es left : List Event) (c : Client)
        → HasAsked client (arguments_of argv) chunks c
        → Asking.filename client (arguments_of argv) es fresh_client
          ≡ returned Rcopy.State.file_okay left c
        → ClientComes client
            (arguments_of argv)
            (first_site w 1 c.sent)
            left
            (process_file client (arguments_of argv) es)
    client-Comes es left c h e =
        subst
          (λ n.
            ClientComes client (arguments_of argv)
              (Site.stands Rcopy.State.in_order
                (record { window = w; file = []; sequence_number = n; sent = c.sent }))
              left (process_file client (arguments_of argv) es))
          h.number
          (subst
            (λ f.
              ClientComes client (arguments_of argv)
                (Site.stands Rcopy.State.in_order (record {
                  window = w;
                  file = f;
                  sequence_number = c.sequence_number;
                  sent = c.sent;
                }))
                left (process_file client (arguments_of argv) es))
            h.unwritten
            (process_file-Comes client (arguments_of argv) es left c w e r.writable
              (rw h.unopened r.made)))

    -- Under the conditions of `IsRequest`, for any lists of events, if rcopy's filename is left for
    -- FILE_OKAY, then the conditions of a transfer hold of what the two programs have sent by then;
    -- the run of process_client on the setup packet is a sequence of the child's steps in that
    -- transfer, from its start; and the run of process_file on the events that filename leaves is a
    -- sequence of rcopy's. Events are heard in their order and at places that poll. A run that
    -- returns is at the place for which its state is left, with what its variables hold; one that
    -- waits is at a poll and has heard all events; and one that is at a fault comes to the fault.
    -- `IsRequest` says that checkArgs accepts the arguments, that the two use one checksum, which
    -- satisfies its law, that the name has no NUL, that the server opens the file and reads its
    -- chunks in order or fails, that rcopy can open its own file, that the window can be made and
    -- is not of size zero, and that file and window stay below 2 ^ 31 packets.
    pub programs-Come :
        (es es' left : List Event) (c : Client)
        → Asking.filename client (arguments_of argv) es' fresh_client
          ≡ returned Rcopy.State.file_okay left c
        → IsTransfer server client
            (arguments_of argv).buffer_size
            chunks
            (arguments_of argv).window_size
            w
            1
            (response server ∷ [])
            c.sent
          × ChildComes server
              (arguments_of argv).buffer_size
              (first_place w (response server ∷ []))
              es
              (process_client server
                (take setup_buffer_length (setup_pdu client (arguments_of argv) 0))
                es)
          × ClientComes client
              (arguments_of argv)
              (first_site w 1 c.sent)
              left
              (process_file client (arguments_of argv) es')
    programs-Come es es' left c e =
        let h = filename-HasAsked client (arguments_of argv) chunks es' left _ c e in
        (client-IsTransfer c h, child-Comes es, client-Comes es' left c h e)

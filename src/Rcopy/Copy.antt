-- ===== src/Rcopy/Copy.antt =====
-- The copy that project_3/rcopy.c writes in a run against a genuine server.
use remotecopy.Base.{ℕ, ◌≤◌, ◌≡◌, refl, ap, subst, List, ◌∷◌, get_or, length, htonl, arith, All}
use remotecopy.Base.Chunks.{concat, Prefix}
use remotecopy.Protocol.{eof_ack_flag, rr_flag, srej_flag, filename_flag, recv_flag_location}
use remotecopy.Pdu.{create_pdu}
use remotecopy.Window.{packet_pdu_size}
use remotecopy.Rcopy.State.{State, System, Receiver}
use remotecopy.Rcopy.Transfer.{room}
use remotecopy.Rcopy.Genuine.{Reply}
use remotecopy.Rcopy.Turns.{IsStopped, InState}
use remotecopy.Rcopy.Runs.{Reaches, stopped, Reaches-InState}

pub flag-create_pdu :
    (in_cksum : List ℕ → ℕ) (seq flag : ℕ) (payload : List ℕ)
    → get_or (create_pdu in_cksum seq flag payload) recv_flag_location 0 ≡ flag
unfolding create_pdu
flag-create_pdu in_cksum seq flag payload = refl

-- Only an EOF ACK carries its flag, and it is sent for the whole file only.
pub acknowledged :
    (in_cksum : List ℕ → ℕ) (chunks : List (List ℕ)) (limit accepted : ℕ) (d : List ℕ)
    → Reply in_cksum chunks limit accepted d
    → get_or d recv_flag_location 0 ≡ eof_ack_flag
    → length chunks ≤ accepted
acknowledged in_cksum chunks limit accepted d (Reply.setup seq payload q) e = absurd (
    omega (
      arith,
      flag-create_pdu in_cksum seq filename_flag payload,
      ap (λ x. get_or x recv_flag_location 0) q,
    ))
acknowledged in_cksum chunks limit accepted d (Reply.rr seq n k l q) e = absurd (
    omega (
      arith,
      flag-create_pdu in_cksum seq rr_flag (htonl n),
      ap (λ x. get_or x recv_flag_location 0) q,
    ))
acknowledged in_cksum chunks limit accepted d (Reply.srej seq n k l q) e = absurd (
    omega (
      arith,
      flag-create_pdu in_cksum seq srej_flag (htonl n),
      ap (λ x. get_or x recv_flag_location 0) q,
    ))
acknowledged in_cksum chunks limit accepted d (Reply.eof_ack seq b k l q) e = l

module _ (sys : System) (buffer_size : ℕ) (chunks : List (List ℕ)) (limit wide begun : ℕ)
    (fits : room sys buffer_size ≤ packet_pdu_size) (top : limit ≤ length chunks) (first : Receiver)
    (ready : InState sys buffer_size chunks limit wide begun State.in_order first) where
  -- In every state that a receiver comes to from a first one that is ready for IN_ORDER, the output
  -- file holds a prefix of the file that is copied, provided that each datagram it hears is
  -- corrupted, has a number below its window, or is a genuine packet of the file within its window
  -- that the server has sent. A datagram with its header fits a slot of the window, and the server
  -- has sent no more than the file.
  pub Reaches-Prefix :
      (st : State) (r : Receiver)
      → Reaches sys buffer_size chunks limit wide begun first st r
      → Prefix r.file (concat chunks)
  Reaches-Prefix st r run =
      (stopped sys buffer_size chunks limit wide begun st r (
        Reaches-InState sys buffer_size chunks limit wide begun fits top first ready st r run)).file

  -- Once the newest datagram that a receiver has sent carries the flag of an EOF ACK, the output
  -- file is equal to the file that is copied, in every state that the receiver comes to; what it
  -- hears is as for `Reaches-Prefix`.
  pub Reaches-eof_ack :
      (st : State) (r : Receiver) (d : List ℕ) (ds : List (List ℕ))
      → Reaches sys buffer_size chunks limit wide begun first st r
      → r.sent ≡ d ∷ ds
      → get_or d recv_flag_location 0 ≡ eof_ack_flag
      → r.file ≡ concat chunks
  Reaches-eof_ack st r d ds run q e = s.whole (
      acknowledged sys.in_cksum chunks limit s.accepted d
        (subst (All (Reply sys.in_cksum chunks limit s.accepted)) q s.replies).0 e)
    where
      s : IsStopped sys chunks limit begun r
      s =
          stopped sys buffer_size chunks limit wide begun st r
            (Reaches-InState sys buffer_size chunks limit wide begun fits top first ready st r run)

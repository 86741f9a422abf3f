-- ===== src/Session/Copy.antt =====
-- The copy that a transfer between project_3/server.c and project_3/rcopy.c writes.
use mathlib.Core.List.{Memᴰ}
use remotecopy.Base.{
  ℕ, ◌+◌, ◌≤◌, ◌<◌, ◌^◌, ◌≡◌, refl, ◌⊎◌, inl, inr, some, List, [], get_or, length, arith, All,
}
use remotecopy.Base.Chunks.{concat, Prefix}
use remotecopy.Protocol.{recv_flag_location, eof_ack_flag}
use remotecopy.Window.{WindowArray, make_window}
use remotecopy.Server.State as Server
use remotecopy.Server.Invariant.{Transmission}
use remotecopy.Server.Turns.{IsReading}
use remotecopy.Server.Start.{first-IsWithin}
use remotecopy.Rcopy.State as Rcopy
use remotecopy.Rcopy.Genuine.{Reply}
use remotecopy.Rcopy.Turns.{IsStopped}
use remotecopy.Rcopy.Start.{first-InState}
use remotecopy.Rcopy.Copy.{acknowledged}
use remotecopy.Session.{Place, Site, sender_at, receiver_at, Runs}
use remotecopy.Session.Sending.{Within, InPlace-Within}
use remotecopy.Session.Receiving.{InSite, InSite-stopped, InSite-later, Onward, onward}
use remotecopy.Session.Together.{Together, Runs-Together, All-Memᴰ}

-- Where a transfer starts, once the file name has been answered: at the test of window_open and in
-- IN_ORDER, with a window that has just been made.
abbrev pub first_place : WindowArray → List (List ℕ) → Place
first_place w sent = Place.tests_open (record { window = w; offset = 0; sent = sent })

abbrev pub first_site : WindowArray → ℕ → List (List ℕ) → Site
first_site w seq sent =
    Site.stands Rcopy.State.in_order
      (record { window = w; file = []; sequence_number = seq; sent = sent })

-- The conditions on a transfer. `sent` and `requests` are what the two have sent before it.
pub record IsTransfer (server : Server.System) (client : Rcopy.System) (buffer_size : ℕ)
    (chunks : List (List ℕ)) (size : ℕ) (w : WindowArray) (seq : ℕ) (sent requests : List (List ℕ))
    : Type 0 where
  pub reading : IsReading server buffer_size chunks
  pub same : client.in_cksum ≡ server.in_cksum
  pub fits : buffer_size ≤ 1400
  pub filled : 1 ≤ buffer_size
  pub made : make_window size ≡ some w
  pub positive : 0 < size
  pub small : length chunks + size + 1 < 2 ^ 31
  pub number : seq < 2 ^ 32
  pub sendings : All (Transmission server.in_cksum chunks size 0 0) sent
  pub asked : All (Reply client.in_cksum chunks 0 0) requests

module _ (server : Server.System) (client : Rcopy.System) (buffer_size : ℕ) (chunks : List (List ℕ))
    (size : ℕ) (w : WindowArray) (seq : ℕ) (sent requests : List (List ℕ))
    (t : IsTransfer server client buffer_size chunks size w seq sent requests) where
  abbrev pub Starts : Place → Site → Type 0
  Starts = Runs server client buffer_size (first_place w sent) (first_site w seq requests)

  start :
      Together server client buffer_size chunks t.reading size
        (first_place w sent)
        (first_site w seq requests)
  start = record {
    base = 0;
    accepted = begun.0;
    placed = first-IsWithin server chunks begun.0 size w sent t.made t.positive t.small t.sendings;
    sited =
        InSite-later client buffer_size chunks size 0 w.current begun.0 (omega arith)
          (first_site w seq requests) begun.2;
  }
    where
      begun : Onward client buffer_size chunks size 0 0 (first_site w seq requests)
      begun = onward client buffer_size chunks size 0 0 Rcopy.State.in_order _ (
          first-InState client buffer_size chunks 0 size seq w requests t.made t.positive t.small
            t.number t.asked)

  pub together :
      (q : Place) (d : Site)
      → Starts q d
      → Together server client buffer_size chunks t.reading size q d
  together q d run =
      Runs-Together server client buffer_size chunks t.reading size t.fits t.filled t.same
        (first_place w sent) (first_site w seq requests) start q d run

  ended :
      (q : Place) (d : Site) (run : Starts q d)
      → (v : IsStopped client chunks
          (sender_at q).window.current
          (together q d run).accepted
          (receiver_at d))
        × (v.accepted ≡ (together q d run).accepted)
  ended q d run =
      InSite-stopped client buffer_size chunks size (sender_at q).window.current
        (together q d run).accepted d (together q d run).sited

  -- Wherever a child of the server and rcopy come to in a transfer, taking their steps in any
  -- order, what rcopy has written is a prefix of the file that the child reads. The network may
  -- lose, repeat, delay, reorder and corrupt what the two send; a corrupted datagram fails its
  -- checksum, and the response to the file name does not come during the transfer. `IsTransfer` has
  -- the other conditions: `read` gives the chunks of the file in order or fails; both use the same
  -- checksum and start with a window that has just been made, of the same size, which is not zero;
  -- the buffer size is from 1 to 1400; file and window together stay below 2 ^ 31 packets; rcopy's
  -- sequence number fits 32 bits; and what the two have sent before is what they may send before
  -- the transfer.
  pub Runs-Prefix :
      (q : Place) (d : Site) → Starts q d → Prefix (receiver_at d).file (concat chunks)
  Runs-Prefix q d run = (ended q d run).0.file

  -- Wherever the two come to in a transfer, under the conditions of `Runs-Prefix`: if any datagram
  -- that rcopy has sent carries the flag of an EOF ACK, then the file that rcopy has written is
  -- equal to the file that the child reads.
  pub Runs-eof_ack :
      (q : Place) (d : Site) (a : List ℕ)
      → Starts q d
      → Memᴰ a (receiver_at d).sent
      → get_or a recv_flag_location 0 ≡ eof_ack_flag
      → (receiver_at d).file ≡ concat chunks
  Runs-eof_ack q d a run m e =
      let v = (ended q d run).0 in
      v.whole (
        acknowledged client.in_cksum chunks (sender_at q).window.current v.accepted a
          (All-Memᴰ (Reply client.in_cksum chunks (sender_at q).window.current v.accepted) a
            (receiver_at d).sent v.replies m)
          e)

  -- Wherever the two come to in a transfer, under the conditions of `Runs-Prefix`, rcopy has come
  -- to no fault, and unless it is in DONE, the number that it expects is not below the child's
  -- window and not beyond the chunks that the child has read.
  pub Runs-stands :
      (q : Place) (d : Site)
      → Starts q d
      → (st : Rcopy.State) × (r : Rcopy.Receiver) × (d ≡ Site.stands st r)
        × ((st ≡ Rcopy.State.done)
            ⊎ (((sender_at q).window.lower ≤ r.window.current)
                × (r.window.current ≤ (sender_at q).window.current)))
  Runs-stands q d run = by_site d (u.sited)
    where
      u : Together server client buffer_size chunks t.reading size q d
      u = together q d run

      v : Within server buffer_size chunks t.reading size u.base u.accepted (sender_at q)
      v = InPlace-Within server buffer_size chunks t.reading size u.base u.accepted q u.placed

      by_site :
          (c : Site)
          → InSite client buffer_size chunks size (sender_at q).window.current u.accepted c
          → (st : Rcopy.State) × (r : Rcopy.Receiver) × (c ≡ Site.stands st r)
            × ((st ≡ Rcopy.State.done)
                ⊎ (((sender_at q).window.lower ≤ r.window.current)
                    × (r.window.current ≤ (sender_at q).window.current)))
      by_site (Site.stands Rcopy.State.in_order r) ((k, _), e) =
          (_, r, refl, inr (omega (arith, v.1.upto), k.reached))
      by_site (Site.stands Rcopy.State.buffering r) ((k, _), e) =
          (_, r, refl, inr (omega (arith, v.1.upto), k.reached))
      by_site (Site.stands Rcopy.State.flush r) (k, e) =
          (_, r, refl, inr (omega (arith, v.1.upto), k.reached))
      by_site (Site.stands Rcopy.State.done r) k = (_, r, refl, inl refl)
      by_site (Site.stands Rcopy.State.start r) k = absurd k.0
      by_site (Site.stands Rcopy.State.filename r) k = absurd k.0
      by_site (Site.stands Rcopy.State.file_okay r) k = absurd k.0
      by_site (Site.breaks f r) k = absurd k

-- ===== src/Server/Start.antt =====
-- window_open (project_3/server.c) before its first packet: the window that it makes.
use remotecopy.Base.{
  ℕ, ◌+◌, ◌<◌, ◌^◌, ◌≡◌, sym, ap, inl, none, some, List, take, length, arith, All,
}
use remotecopy.Base.Chunks.{concat}
use remotecopy.Window.{WindowArray, make_window}
use remotecopy.Window.Slot.{IsWindow, stored, make_window-IsWindow, make_window-stored}
use remotecopy.Server.State.{System}
use remotecopy.Server.Invariant.{Transmission}
use remotecopy.Server.Turns.{IsWithin}

-- The edges of a window that has just been made.
pub make_window-edges :
    (size : ℕ) (w : WindowArray)
    → make_window size ≡ some w
    → (w.lower ≡ 0) × (w.current ≡ 0) × (w.upper ≡ size)
unfolding make_window
make_window-edges size w e = ground arith

-- The sender that window_open starts with satisfies the sender's invariant, for every window size
-- that is not zero, when file and window together stay below 2 ^ 31 packets and each datagram that
-- has been sent is one that a sender may send before it has read a chunk.
pub first-IsWithin :
    (sys : System) (chunks : List (List ℕ)) (bound size : ℕ)
    → (w : WindowArray) (sent : List (List ℕ)) → make_window size ≡ some w
    → 0 < size
    → length chunks + size + 1 < 2 ^ 31
    → All (Transmission sys.in_cksum chunks size 0 0) sent
    → IsWithin sys chunks 0 bound size none (record { window = w; offset = 0; sent = sent })
first-IsWithin sys chunks bound size w sent e pos small sendings =
    start (make_window-edges size w e) (make_window-IsWindow size w pos e)
  where
    empty : (n : ℕ) → stored w n ≡ some none
    empty n = make_window-stored size n w pos e

    start :
        (w.lower ≡ 0) × (w.current ≡ 0) × (w.upper ≡ size)
        → IsWindow w × (w.window_size ≡ size)
        → IsWithin sys chunks 0 bound size none (record { window = w; offset = 0; sent = sent })
    start (lower, current, upper) (window, wide) = record {
      serving = record {
        window = record {
          window = window;
          upper = omega arith;
          lower = omega arith;
          reach = omega arith;
          read = omega arith;
          small = omega arith;
          held = λ n c l u q. absurd (omega arith);
          next = λ room. empty w.current;
          free = λ n l u. empty n;
          ends = inl (λ i. none);
        };
        offset = sym (ap (λ n. length (concat (take n chunks))) current);
        sent = rw (edge, lower, current) sendings;
      };
      from = omega arith;
      upto = omega arith;
      wide = wide;
    }
      where
        edge : w.lower + w.window_size ≡ size
        edge = omega arith

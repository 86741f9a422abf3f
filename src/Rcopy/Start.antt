-- ===== src/Rcopy/Start.antt =====
-- in_order (project_3/rcopy.c) before its first packet: the window that it makes.
use remotecopy.Base.{
  ℕ, ◌+◌, ◌<◌, ◌^◌, ◌≡◌, sym, ap, ◌∙◌, subst, inl, none, some, List, [], take, length, arith, All,
}
use remotecopy.Base.Chunks.{concat}
use remotecopy.Window.{WindowArray, make_window}
use remotecopy.Window.Slot.{IsWindow, stored, make_window-IsWindow, make_window-stored}
use remotecopy.Rcopy.State.{State, System}
use remotecopy.Rcopy.Genuine.{Reply}
use remotecopy.Rcopy.Turns.{InState}

-- The edges of a window that has just been made.
make_window-edges :
    (size : ℕ) (w : WindowArray)
    → make_window size ≡ some w
    → (w.lower ≡ 0) × (w.current ≡ 0) × (w.highest ≡ 0) × (w.upper ≡ size)
unfolding make_window
make_window-edges size w e = ground arith

-- The receiver that in_order starts with satisfies the condition of IN_ORDER, for every window size
-- that is not zero, when file and window together stay below 2 ^ 31 packets, the sequence number
-- fits 32 bits, and each datagram that has been sent is one that a receiver may send before it has
-- accepted a chunk.
pub first-InState :
    (sys : System) (buffer_size : ℕ) (chunks : List (List ℕ)) (limit size seq : ℕ)
    → (w : WindowArray) (sent : List (List ℕ)) → make_window size ≡ some w
    → 0 < size
    → length chunks + size + 1 < 2 ^ 31
    → seq < 2 ^ 32
    → All (Reply sys.in_cksum chunks limit 0) sent
    → InState sys buffer_size chunks limit size 0 State.in_order
        (record { window = w; file = []; sequence_number = seq; sent = sent })
first-InState sys buffer_size chunks limit size seq w sent e pos small fits replies =
    rw_edges (make_window-edges size w e) (make_window-IsWindow size w pos e)
  where
    empty : (n : ℕ) → stored w n ≡ some none
    empty n = make_window-stored size n w pos e

    rw_edges :
        (w.lower ≡ 0) × (w.current ≡ 0) × (w.highest ≡ 0) × (w.upper ≡ size)
        → IsWindow w × (w.window_size ≡ size)
        → InState sys buffer_size chunks limit size 0 State.in_order
            (record { window = w; file = []; sequence_number = seq; sent = sent })
    rw_edges (lower, current, highest, upper) (window, wide) = (
      record {
        window = window;
        lower = lower ∙ sym current;
        upper = omega arith;
        width = wide;
        from = omega arith;
        current = omega arith;
        reached = omega arith;
        highest = omega arith;
        near = omega arith;
        small = omega arith;
        number = fits;
        file = ap (λ n. concat (take n chunks)) (sym current);
        replies = subst (λ n. All (Reply sys.in_cksum chunks limit n) sent) (sym current) replies;
        held = λ n l u. inl (empty n);
      },
      λ n l u. empty n,
    )

-- ===== src/Rcopy/Later.antt =====
-- The receiver's invariant (project_3/rcopy.c) while the server goes on sending.
use remotecopy.Base.{ℕ, ◌≤◌, ◌≡◌, refl, inl, inr, List, arith}
use remotecopy.Rcopy.State.{System, Receiver}
use remotecopy.Rcopy.Transfer.{room}
use remotecopy.Rcopy.Genuine.{Genuine-mono, All-Reply-mono}
use remotecopy.Rcopy.Invariant.{IsReceiving, Held}
use remotecopy.Rcopy.Turns.{IsStopped}

module _ (sys : System) (buffer_size : ℕ) (chunks : List (List ℕ)) (l l' wide b : ℕ)
    (h : l ≤ l') where
  -- The receiver's invariant holds from where it stands, for a server that has sent more.
  pub IsReceiving-mono :
      (r : Receiver)
      → IsReceiving sys (room sys buffer_size) chunks l wide b r
      → IsReceiving sys (room sys buffer_size) chunks l' wide r.window.current r
  IsReceiving-mono r v = record {
    window = v.window;
    lower = v.lower;
    upper = v.upper;
    width = v.width;
    from = omega arith;
    current = v.current;
    reached = omega (arith, v.reached);
    highest = v.highest;
    near = v.near;
    small = v.small;
    number = v.number;
    file = v.file;
    replies =
        All-Reply-mono sys.in_cksum chunks l l' r.window.current r.window.current h (omega arith)
          r.sent v.replies;
    held = λ n lo up. held n (v.held n lo up);
  }
    where
      held :
          (n : ℕ)
          → Held (room sys buffer_size) chunks l r.window n
          → Held (room sys buffer_size) chunks l' r.window n
      held n (inl e) = inl e
      held n (inr (p, e, k, q)) = inr (
        p,
        e,
        k,
        record {
          size = q.size;
          fits = q.fits;
          parts = q.parts;
          parsed = q.parsed;
          number = q.number;
          genuine = Genuine-mono chunks l l' h q.parts q.genuine;
        },
      )

  pub IsStopped-mono :
      (r : Receiver) (v : IsStopped sys chunks l b r)
      → (v' : IsStopped sys chunks l' b r) × (v'.accepted ≡ v.accepted)
  IsStopped-mono r v = (
    record {
      accepted = v.accepted;
      from = v.from;
      reached = omega (arith, v.reached);
      whole = v.whole;
      file = v.file;
      replies =
          All-Reply-mono sys.in_cksum chunks l l' v.accepted v.accepted h (omega arith) r.sent
            v.replies;
    },
    refl,
  )

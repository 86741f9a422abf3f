-- ===== src/Server/Sockets/Tests.antt =====
-- The sockets of parent and child on a system that gives descriptor 3 while it is free.
use remotecopy.Base.{ℕ, ◌≡◌, refl, some, List, [], ◌∷◌, arith, false}
use remotecopy.Posix.{pure, ◌>>=◌}
use remotecopy.Posix.Example.{system, inherited, law}
use remotecopy.Posix.Descriptors.{newest}
use remotecopy.Networks.Order.{Ends}
use remotecopy.PollSet.{PollSet}
use remotecopy.PollSet.Alone.{AsksOnly}
use remotecopy.Server.Parent.{Rates, listening, open_child}
use remotecopy.Server.Sockets.{child-AsksOnly}

abbrev rates : Rates
rates = record { below_zero = λ text. false; at_least_one = λ text. false }

-- server 0
abbrev argv : List (List ℕ)
argv = (115 ∷ []) ∷ (48 ∷ []) ∷ []

-- The static variables of pollLib.c at the start of the program.
abbrev empty_set : PollSet
empty_set = record {
  poll_file_descriptors = [];
  max_file_descriptor = 0;
  current_poll_set_size = 0;
}

child-AsksOnly_example :
    Ends {A = ℕ × PollSet}
      (λ c made. AsksOnly (c.0) (c.1) × (newest system made ≡ some (c.0)))
      8
      ((listening system rates argv empty_set >>= λ c.
          open_child system (c.0) >>= λ s. pure (s, c.1))
        [])
child-AsksOnly_example =
    child-AsksOnly system rates argv inherited law empty_set [] (omega arith) (3, omega arith, refl)

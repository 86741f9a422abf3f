-- ===== src/Rcopy/Sockets/Tests.antt =====
-- Nine attempts without an answer, on a system that gives descriptor 3 while it is free.
use remotecopy.Base.{refl, [], arith}
use remotecopy.Posix.{◌>>=◌}
use remotecopy.Posix.Example.{system, inherited, law}
use remotecopy.Networks.Order.{Ends}
use remotecopy.PollSet.{PollSet}
use remotecopy.Rcopy.Args.{start}
use remotecopy.Rcopy.Sockets.{ask_sockets}
use remotecopy.Rcopy.Sockets.Reopening.{HasReopened, sockets-AsksOnly}

-- The static variables of pollLib.c at the start of the program.
abbrev empty_set : PollSet
empty_set = record {
  poll_file_descriptors = [];
  max_file_descriptor = 0;
  current_poll_set_size = 0;
}

sockets-AsksOnly_example :
    Ends
      (HasReopened system [] inherited law 9 [])
      29
      ((start system [] empty_set >>= λ c. ask_sockets system [] 9 0 c) [])
sockets-AsksOnly_example =
    sockets-AsksOnly system [] inherited law 9 empty_set [] (omega arith) (omega arith)
      (3, omega arith, refl)

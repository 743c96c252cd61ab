-- ===== src/Tests/Programs.antt =====
-- Programs against concrete replies.
use study_linux_kernel.Base.{refl, List, [], ◌∷◌, arith}
use study_linux_kernel.Sys.Calls.{Reply, made, answer, arrival, open_file}
use study_linux_kernel.Sys.Monad.{World}
use study_linux_kernel.Sys.Loops.{Ends}
use study_linux_kernel.Socket.StreamServer
use study_linux_kernel.Socket.StreamServer.Echo
use study_linux_kernel.FileIo.Copy
use study_linux_kernel.FileIo.Copy.Complete

abbrev start : List Reply → World
start replies = record { replies = replies; trace = []; errno = 0 }

-- A socket, bound and listening, one connection that says "hi" and goes.
abbrev one_client : World
one_client = start (
    answer 3
    ∷ answer 0
    ∷ answer 0
    ∷ answer 4
    ∷ arrival (b'h' ∷ b'i' ∷ [])
    ∷ answer 2
    ∷ answer 0
    ∷ [])

main-Leaves_example :
    Ends (λ _ _. ⊥) Echo.stops (StreamServer.main (λ _. 8080) 8 ((b'8' ∷ []) ∷ []) one_client)
main-Leaves_example =
    Echo.main-Leaves (λ _. 8080) 8 ((b'8' ∷ []) ∷ []) one_client (omega arith) refl

-- Both files are open, "ab" is read and written, and the file ends.
abbrev two_files : World
two_files = record {
  replies = arrival (b'a' ∷ b'b' ∷ []) ∷ answer 2 ∷ arrival [] ∷ answer 0 ∷ answer 0 ∷ [];
  trace =
      made (open_file [] "O_WRONLY") (answer 4) ∷ made (open_file [] "O_RDONLY") (answer 3) ∷ [];
  errno = 0;
}

copy_all-Finished_example : Ends (λ _ _. ⊥) (Complete.stops 3 4) (Copy.copy_all 6 3 4 two_files)
copy_all-Finished_example =
    Complete.copy_all-Finished 3 4 6 two_files (omega arith) (refl, refl, refl)

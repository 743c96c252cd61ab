-- ===== src/Pipe/Filter.antt =====
-- study-linux-kernel/ipc-pipe/pipe-filter.cpp
pub mod Ends
use Prim.Native.String.{String}
use study_linux_kernel.Base.{ℕ, zero, suc, ◌==◌, [], ◌∷◌, Option, none, some, if◌then◌else◌}
use study_linux_kernel.Sys.Calls.{pipe, fork, wait, dup2, execute, close}
use study_linux_kernel.Sys.Monad.{M, pure, ◌>>=◌, ◌>>◌, exit, sys, number, run, say}
use study_linux_kernel.SocketPair.{pair_at}

-- `execlp`, which returns where it fails only: a reply to it is such a failure.
unfoldable pub replace : String → M (Unit {0})
replace program = do run (execute program); say "child it's done...\n" []; exit 0

-- `if (dup2(...) == -1)`: a line is printed, and the child goes on.
unfoldable pub bound_out : Option ℕ → M (Unit {0})
bound_out none = say "child bound write end of pipe to stdout failed...\n" []
bound_out (some _) = pure tt

unfoldable pub bound_in : Option ℕ → M (Unit {0})
bound_in none = say "child bound read end of pipe to stdin failed...\n" []
bound_in (some _) = pure tt

unfoldable pub lister_closed : Option ℕ → M (Unit {0})
lister_closed none = do say "child close pipe write end failure...\n" []; exit 1
lister_closed (some _) = replace "ls"

-- `src` and `dst` are `pfd[0]` and `pfd[1]`.
unfoldable pub lister : ℕ → Option ℕ → M (Unit {0})
lister dst none = do say "child close pipe read end failure...\n" []; exit 1
lister dst (some _) =
    if dst == 1
    then replace "ls"
    else (do bound ← number (dup2 dst 1); bound_out bound; number (close dst) >>= lister_closed)

unfoldable pub counter_closed : Option ℕ → M (Unit {0})
counter_closed none = do say "child close pipe read end failure...\n" []; exit 1
counter_closed (some _) = replace "wc -l"

unfoldable pub counter : ℕ → Option ℕ → M (Unit {0})
counter src none = do say "child close pipe write end failure...\n" []; exit 1
counter src (some _) =
    if src == 0
    then replace "wc -l"
    else (do bound ← number (dup2 src 0); bound_in bound; number (close src) >>= counter_closed)

-- The parent behind both forks.
unfoldable pub both_closed : Option ℕ → M (Unit {0})
both_closed none = do say "parent close pipe write end failure...\n" []; exit 1
both_closed (some _) = do run wait; say "parent it's done...\n" []; exit 0

unfoldable pub one_closed : ℕ → Option ℕ → M (Unit {0})
one_closed dst none = do say "parent close pipe read end failure...\n" []; exit 1
one_closed dst (some _) = number (close dst) >>= both_closed

unfoldable pub second : ℕ → ℕ → Option ℕ → M (Unit {0})
second src dst none = do say "fork failure...\n" []; exit 1
second src dst (some zero) = number (close dst) >>= counter src
second src dst (some (suc pid)) = number (close src) >>= one_closed dst

unfoldable pub first : ℕ → ℕ → Option ℕ → M (Unit {0})
first src dst none = do say "fork failure...\n" []; exit 1
first src dst (some zero) = number (close src) >>= lister dst
first src dst (some (suc pid)) = number fork >>= second src dst

unfoldable pub after_pipe : ℕ → ℕ → Option ℕ → M (Unit {0})
after_pipe src dst none = do say "mkpipe failure...\n" []; exit 1
after_pipe src dst (some _) = number fork >>= first src dst

-- The two ends of the pipe are the descriptors that the reply to `pipe` names readable and writable.
unfoldable pub main : M (Unit {0})
main = do
  ends ← sys pipe
  after_pipe (pair_at 0 ends.readable) (pair_at 0 ends.writable) ends.result

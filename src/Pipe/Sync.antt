-- ===== src/Pipe/Sync.antt =====
-- study-linux-kernel/ipc-pipe/multiprocess-sync.cpp; pipe-multiprocess-sync.cpp beside it holds the same
-- code with `nullptr` for `NULL`.
pub mod Seen
pub mod Sleeping
pub mod Ready
use Prim.Native.String.{String}
use study_linux_kernel.Base.{ℕ, zero, suc, ◌==◌, List, [], ◌∷◌, Option, none, some, if◌then◌else◌}
use study_linux_kernel.Base.Run.{null_pointer}
use study_linux_kernel.Sys.Calls.{
  Text, Arg, int, str, pipe, fork, sleep, getpid, read, close, other,
}
use study_linux_kernel.Sys.Monad.{M, pure, ◌>>=◌, ◌>>◌, exit, undefined, sys, number, run, say}
use study_linux_kernel.SocketPair.{pid_of, pair_at}
use study_linux_kernel.Pipe.Primer.{is_help}

-- `localtime` breaks a time down or gives NULL, `strftime` gives what it stores, which is empty where
-- it returns 0, and `atoi` reads a number.
module _ (localtime : ℕ → Option ℕ) (strftime : ℕ → String → ℕ → Text) (atoi : Text → ℕ) where
  abbrev buf_size : ℕ
  buf_size = 2014

  -- `(s == 0) ? NULL : buf`
  unfoldable pub stored : Text → Option Text
  stored [] = none
  stored (b ∷ bs) = some (b ∷ bs)

  unfoldable pub format_time : String → Option ℕ → Option Text
  format_time format none = none
  format_time format (some tm) = stored (strftime buf_size format tm)

  -- `currTime`, for a format that is not NULL.
  unfoldable pub curr_time : String → M (Option Text)
  curr_time format = do t ← number (other "time"); pure (format_time format (localtime (pid_of t)))

  -- A NULL pointer is no string to print.
  unfoldable pub said : String → Option Text → List Arg → M (Unit {0})
  said format none args = undefined null_pointer
  said format (some time) args = say format (str time ∷ args)

  -- `case 0` for the argument `arg`, number `i`, behind its `close(pfd[0])`, and behind `close(pfd[1])`.
  unfoldable pub child_done : Option ℕ → M (Unit {0})
  child_done none = do say "child close pipe write end failure...\n" []; exit 1
  child_done (some _) = do say "child it's done...\n" []; exit 0

  unfoldable pub announce : ℕ → ℕ → Option Text → M (Unit {0})
  announce i dst time = do
    pid ← number getpid
    said "%s child %d (PID=%ld) closing pipe\n" time (int i ∷ int (pid_of pid) ∷ [])
    number (close dst) >>= child_done

  unfoldable pub child_works : ℕ → Text → ℕ → Option ℕ → M (Unit {0})
  child_works i arg dst none = do say "child close pipe read end failure...\n" []; exit 1
  child_works i arg dst (some _) = do run (sleep (atoi arg)); curr_time "%T" >>= announce i dst

  unfoldable pub child : ℕ → Text → ℕ → ℕ → M (Unit {0})
  child i arg src dst = number (close src) >>= child_works i arg dst

  -- The parent behind the loop, one call after the other.
  unfoldable pub ready : Option ℕ → M (Unit {0})
  ready none = do say "parent close pipe read end failed...\n" []; exit 1
  ready (some _) = do time ← curr_time "%T"; said "%s parent ready to go...\n" time []; exit 0

  unfoldable pub after_read : ℕ → Option ℕ → M (Unit {0})
  after_read src (some zero) = number (close src) >>= ready
  after_read src got = do say "parent read failed...\n" []; exit 1

  unfoldable pub after_close : ℕ → Option ℕ → M (Unit {0})
  after_close src none = do say "parent close pipe write end failure...\n" []; exit 1
  after_close src (some _) = number (read src 1) >>= after_read src

  unfoldable pub wait_for_all : ℕ → ℕ → M (Unit {0})
  wait_for_all src dst = number (close dst) >>= after_close src

  -- The `switch` in the loop; `later` is the rest of the loop, for the parent.
  unfoldable pub branch : ℕ → Text → ℕ → ℕ → M (Unit {0}) → Option ℕ → M (Unit {0})
  branch i arg src dst later none = do say "fork failure...\n" []; exit 1
  branch i arg src dst later (some zero) = child i arg src dst
  branch i arg src dst later (some (suc pid)) = later

  unfoldable pub spawn : ℕ → List Text → ℕ → ℕ → M (Unit {0})
  spawn i [] src dst = wait_for_all src dst
  spawn i (arg ∷ args) src dst =
      let later : M (Unit {0}) = spawn (suc i) args src dst in
      number fork >>= branch i arg src dst later

  unfoldable pub after_pipe : List Text → ℕ → ℕ → Option ℕ → M (Unit {0})
  after_pipe args src dst none = do say "mkpipe failure...\n" []; exit 1
  after_pipe args src dst (some _) = spawn 1 args src dst

  unfoldable pub usage : M (Unit {0})
  usage = do say "%s sleep-time...\n" []; exit 1

  -- `argv` holds the arguments behind the program's name. The two ends of the pipe are the
  -- descriptors that the reply to `pipe` names readable and writable.
  unfoldable pub main : List Text → M (Unit {0})
  main [] = usage
  main (arg ∷ args) = if is_help arg then usage else (do
    run (other "setbuf stdout NULL")
    ends ← sys pipe
    after_pipe (arg ∷ args) (pair_at 0 ends.readable) (pair_at 0 ends.writable) ends.result)

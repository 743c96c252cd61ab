-- ===== src/Fifo/Server.antt =====
-- study-linux-kernel/ipc-pipe/fifo-server.cpp
use study_linux_kernel.Base.{ℕ, suc, [], ◌∷◌, Option, none, some, ◌==◌, if◌then◌else◌, length}
use study_linux_kernel.Sys.Calls.{Text, str, mkfifo, open_file, read, write, close, other}
use study_linux_kernel.Sys.Monad.{
  M, pure, ◌>>=◌, ◌>>◌, exit, number, input, run, say, lift, get_errno,
}
use study_linux_kernel.Sys.Loops.{Next, again, loop}
use study_linux_kernel.Inotify.Buffer.{word}
use study_linux_kernel.Pipe.Primer.{differs}
use study_linux_kernel.Fifo.{server_pipe_path, path_of, response}

-- `decimal` prints a number; `old` is what `resp.msg` holds in each round before it is written.
module _ (decimal : ℕ → Text) (old : ℕ → Text) where
  unfoldable pub after_close : ℕ → Text → Option ℕ → M (Next ℕ (Unit {0}))
  after_close n path none = do say "close FIFO %s failed...\n" (str path ∷ []); pure (again (suc n))
  after_close n path (some _) = pure (again (suc n))

  unfoldable pub after_write : ℕ → Text → ℕ → Option ℕ → M (Next ℕ (Unit {0}))
  after_write n path fd put = do
    if differs put 16 then say "Error writing to FIFO %s\n" (str path ∷ []) else pure tt
    number (close fd) >>= after_close n path

  unfoldable pub after_open : ℕ → Text → Text → Option ℕ → M (Next ℕ (Unit {0}))
  after_open n path msg none = do say "open %s failed...\n" (str path ∷ []); pure (again (suc n))
  after_open n path msg (some fd) = do
    resp ← lift (response (old n) msg)
    number (write fd resp) >>= after_write n path fd

  unfoldable pub answer : ℕ → Text → M (Next ℕ (Unit {0}))
  answer n bytes = do
    (pid, msg) ← lift (word bytes)
    path ← lift (path_of decimal pid)
    number (open_file path "O_WRONLY") >>= after_open n path msg

  unfoldable pub discard : ℕ → M (Next ℕ (Unit {0}))
  discard n = do say "Error reading request; discarding...\n" []; pure (again (suc n))

  unfoldable pub on_request : ℕ → Option Text → M (Next ℕ (Unit {0}))
  on_request n none = discard n
  on_request n (some bytes) = if length bytes == 20 then answer n bytes else discard n

  unfoldable pub round : ℕ → ℕ → M (Next ℕ (Unit {0}))
  round fd n = input 20 (read fd 20) >>= on_request n

  unfoldable pub after_signal : ℕ → ℕ → Option ℕ → M (Unit {0})
  after_signal fuel fd none = do say "signal SIGPIPE to SIG_IGN failed...\n" []; exit 1
  after_signal fuel fd (some _) = loop fuel (round fd) 0

  -- What the second `open` returns is not looked at.
  unfoldable pub after_server : ℕ → Option ℕ → M (Unit {0})
  after_server fuel none = do say "open %s failed...\n" (str server_pipe_path ∷ []); exit 1
  after_server fuel (some fd) = do
    run (open_file server_pipe_path "O_WRONLY")
    number (other "signal SIGPIPE SIG_IGN") >>= after_signal fuel fd

  unfoldable pub open_server : ℕ → M (Unit {0})
  open_server fuel = number (open_file server_pipe_path "O_RDONLY") >>= after_server fuel

  -- `EEXIST` is 17.
  unfoldable pub after_mkfifo : ℕ → Option ℕ → M (Unit {0})
  after_mkfifo fuel none = do
    e ← get_errno
    if e == 17
        then open_server fuel
        else (do say "mkfifo %s failed...\n" (str server_pipe_path ∷ []); exit 1)
  after_mkfifo fuel (some _) = open_server fuel

  unfoldable pub main : ℕ → M (Unit {0})
  main fuel = do run (other "umask 0"); number (mkfifo server_pipe_path) >>= after_mkfifo fuel

-- ===== src/Fifo/Client.antt =====
-- study-linux-kernel/ipc-pipe/fifo-client.cpp
use study_linux_kernel.Base.{ℕ, List, [], ◌∷◌, Option, none, some, ◌==◌, if◌then◌else◌, length}
use study_linux_kernel.Sys.Calls.{
  Text, str, getpid, mkfifo, unlink, open_file, read, write, close, other,
}
use study_linux_kernel.Sys.Monad.{
  M, pure, ◌>>=◌, ◌>>◌, exit, number, input, run, say, lift, string_in, get_errno,
}
use study_linux_kernel.Pipe.Primer.{differs, is_help}
use study_linux_kernel.SocketPair.{pid_of}
use study_linux_kernel.Fifo.{server_pipe_path, request, path_of}

-- The end of the process once `removeFifo` is registered with `atexit`.
unfoldable pub leave : Text → ℕ → M (Unit {0})
leave path status = do run (unlink path); exit status

-- Behind `close(client_fd)`, and behind `close(server_fd)`.
unfoldable pub report : Text → Option ℕ → M (Unit {0})
report path none = say "close FIFO %s failed...\n" (str path ∷ [])
report path (some _) = pure tt

unfoldable pub print_msg : Text → Option Text → M (Unit {0})
print_msg path none = say "Error writing to FIFO %s\n" (str path ∷ [])
print_msg path (some bytes) =
    if length bytes == 16
    then (do msg ← lift (string_in 16 bytes); say "%s\n" (str msg ∷ []))
    else say "Error writing to FIFO %s\n" (str path ∷ [])

unfoldable pub on_response : Text → ℕ → Option Text → M (Unit {0})
on_response path fd bytes = do
  print_msg path bytes
  closed ← number (close fd)
  report path closed
  leave path 0

unfoldable pub after_open : Text → Option ℕ → M (Unit {0})
after_open path none = do say "open %s failed...\n" (str path ∷ []); leave path 1
after_open path (some fd) = input 16 (read fd 16) >>= on_response path fd

unfoldable pub after_close : Text → Option ℕ → M (Unit {0})
after_close path closed = do
  report server_pipe_path closed
  number (open_file path "O_RDONLY") >>= after_open path

unfoldable pub after_write : Text → ℕ → Option ℕ → M (Unit {0})
after_write path fd put =
    if differs put 20
    then (do say "Error writing request; discarding...\n" []; leave path 1)
    else (number (close fd) >>= after_close path)

unfoldable pub send_request : Text → Text → ℕ → Option ℕ → M (Unit {0})
send_request path msg fd pid = number (write fd (request (pid_of pid) msg)) >>= after_write path fd

unfoldable pub after_server : Text → Text → Option ℕ → M (Unit {0})
after_server path msg none = do say "open %s failed...\n" (str server_pipe_path ∷ []); leave path 1
after_server path msg (some fd) = number getpid >>= send_request path msg fd

unfoldable pub after_atexit : Text → Text → Option ℕ → M (Unit {0})
after_atexit path msg none = exit 1
after_atexit path msg (some _) =
    number (open_file server_pipe_path "O_WRONLY") >>= after_server path msg

unfoldable pub register : Text → Text → M (Unit {0})
register path msg = number (other "atexit removeFifo") >>= after_atexit path msg

-- `EEXIST` is 17.
unfoldable pub after_mkfifo : Text → Text → Option ℕ → M (Unit {0})
after_mkfifo path msg none = do
  e ← get_errno
  if e == 17 then register path msg else (do say "mkfifo %s failed...\n" (str path ∷ []); exit 1)
after_mkfifo path msg (some _) = register path msg

unfoldable pub after_getpid : (ℕ → Text) → Text → Option ℕ → M (Unit {0})
after_getpid decimal msg pid = do
  path ← lift (path_of decimal (pid_of pid))
  number (mkfifo path) >>= after_mkfifo path msg

unfoldable pub usage : M (Unit {0})
usage = do say "%s MSG\n" []; exit 1

-- `argv` holds the arguments behind the program's name.
unfoldable pub main : (ℕ → Text) → List Text → M (Unit {0})
main decimal (msg ∷ []) =
    if is_help msg
    then usage
    else (do run (other "umask 0"); number getpid >>= after_getpid decimal msg)
main decimal argv = usage

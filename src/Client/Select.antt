-- ===== src/Client/Select.antt =====
-- study-linux-kernel/socket/socket-client-tcp-select.c
pub mod Forwarding
use study_linux_kernel.Base.{
  ℕ, zero, suc, List, [], ◌∷◌, Option, none, some, Bool, true, false, ◌&&◌, ltb, if◌then◌else◌,
  length, mem,
}
use study_linux_kernel.Sys.Calls.{
  Text, Reply, int, str, error, inet, socket, connect, sigaction, fcntl, select, read, send, recv,
  close,
}
use study_linux_kernel.Sys.Monad.{
  M, pure, ◌>>=◌, ◌>>◌, exit, sys, number, input, run, say, lift, string_in,
}
use study_linux_kernel.Sys.Loops.{Next, again, finish, loop}
use study_linux_kernel.Socket.Worker.{is_quit}

unfoldable pub send_line : ℕ → Text → M Bool
send_line sock line = do
  sent ← number (send sock line)
  elim sent [
    | none ↦ do say "Error: send failed: %s\n" (error ∷ []); pure false
    | some _ ↦ pure false
  ]

-- The new value of `bDisconnect` behind a `read` from the terminal.
unfoldable pub from_terminal : ℕ → List ℕ → Option Text → M Bool
from_terminal sock writable none = pure false
from_terminal sock writable (some line) =
    if is_quit line
    then pure true
    else if ltb 0 (length line) && mem sock writable
    then send_line sock line
    else pure false

unfoldable pub terminal_part : ℕ → Reply → M Bool
terminal_part sock ready =
    if mem 0 ready.readable
    then input 1024 (read 0 1024) >>= from_terminal sock ready.writable
    else pure false

-- `bDisconnect` behind a `recv`; what came is printed as a C string.
unfoldable pub from_peer : Bool → Option Text → M Bool
from_peer quit none = do say "Error: recv failed: %s\n" (error ∷ []); pure true
from_peer quit (some []) = do say "Error: recv failed: %s\n" (error ∷ []); pure true
from_peer quit (some (b ∷ msg)) = do
  text ← lift (string_in 1024 (b ∷ msg))
  say "recv %d bytes msg: %s\n" (int (length (b ∷ msg)) ∷ str text ∷ [])
  pure quit

unfoldable pub peer_part : ℕ → Reply → Bool → M Bool
peer_part sock ready quit =
    if mem sock ready.readable then input 1024 (recv sock 1024) >>= from_peer quit else pure quit

unfoldable pub leave_if : Bool → M (Next (Unit {0}) (Unit {0}))
leave_if quit =
    if quit then (do say "\ngoodbye. %s\n" (error ∷ []); pure (finish tt)) else pure (again tt)

unfoldable pub exchange : ℕ → Reply → M (Next (Unit {0}) (Unit {0}))
exchange sock ready = do
  quit ← terminal_part sock ready
  quit' ← peer_part sock ready quit
  leave_if quit'

unfoldable pub round : ℕ → Unit {0} → M (Next (Unit {0}) (Unit {0}))
round sock _ = do
  ready ← sys (select (0 ∷ sock ∷ []) (sock ∷ []))
  elim ready.result [
    | none ↦ pure (finish tt)
    | some zero ↦ pure (finish tt)
    | some (suc n) ↦ exchange sock ready
  ]

unfoldable pub stay : ℕ → ℕ → M (Unit {0})
stay fuel sock = do loop fuel (round sock) tt; run (close sock); exit 0

-- The lines behind `connect`.
unfoldable pub converse : ℕ → ℕ → M (Unit {0})
converse fuel sock = do
  run (sigaction 13 "SIG_IGN")
  run (fcntl sock "F_GETFL")
  run (fcntl sock "F_SETFL O_NONBLOCK")
  run (fcntl 0 "F_GETFL")
  run (fcntl 0 "F_SETFL O_NONBLOCK")
  stay fuel sock

-- `argv` holds the arguments behind the program's name.
unfoldable pub main : (Text → ℕ) → ℕ → List Text → M (Unit {0})
main atoi fuel (ip ∷ port ∷ []) = do
  sock ← number (socket "AF_INET SOCK_STREAM")
  elim sock [
    | none ↦ exit 1
    | some fd ↦ do
      connected ← number (connect fd (inet ip (atoi port)))
      elim connected [
        | none ↦ do say "Error: connect failed: %s\n" (error ∷ []); exit 1
        | some _ ↦ converse fuel fd
      ]
  ]
main atoi fuel argv = do say "Usage: socket-client-tcp-select [ip] [port]\n" []; exit 1

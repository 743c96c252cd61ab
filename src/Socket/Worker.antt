-- ===== src/Socket/Worker.antt =====
-- A connection's loop in study-linux-kernel/socket/socket-server-tcp-mt.c, lines 24 to 60. The loop
-- of study-linux-kernel/socket/socket-server-tcp-mp.c, lines 24 to 60, differs only in the line that
-- it prints behind a `send`, which is a parameter, with the number of the thread or of the socket.
pub mod Relay
use Prim.Native.String.{String}
use study_linux_kernel.Base.{
  ℕ, List, [], ◌∷◌, Option, none, some, Bool, ◌&&◌, ◌==◌, if◌then◌else◌, length,
}
use study_linux_kernel.Sys.Calls.{Text, int, str, error, recv, send, read, lock, unlock}
use study_linux_kernel.Sys.Monad.{M, pure, ◌>>=◌, ◌>>◌, number, input, run, say, lift, string_in}
use study_linux_kernel.Sys.Loops.{Next, again, finish}

-- `_n_read == 2 && szMsg[0] == 'q'`
abbrev pub is_quit : Text → Bool
is_quit [] = Bool.false
is_quit (b ∷ bs) = length (b ∷ bs) == 2 && b == b'q'

-- The line from the terminal goes to the peer as a C string.
unfoldable pub forward : String → ℕ → ℕ → Text → M (Next (Unit {0}) (Unit {0}))
forward format self sock line = do
  msg ← lift (string_in 1024 line)
  sent ← number (send sock msg)
  elim sent [
    | none ↦ do say "Error: send failed: %s\n" (error ∷ []); pure (finish tt)
    | some n ↦ do say format (int self ∷ int n ∷ str msg ∷ []); pure (again tt)
  ]

-- What the terminal gave: nothing or an error, the order to quit, or a line to send.
unfoldable pub respond : String → ℕ → ℕ → Option Text → M (Next (Unit {0}) (Unit {0}))
respond format self sock none = pure (again tt)
respond format self sock (some []) = pure (again tt)
respond format self sock (some (b ∷ bs)) =
    if is_quit (b ∷ bs) then pure (finish tt) else forward format self sock (b ∷ bs)

-- What came from the peer is printed as a C string, and the terminal is asked under the mutex.
unfoldable pub ask : String → ℕ → ℕ → Text → M (Next (Unit {0}) (Unit {0}))
unfolding respond
ask format self sock msg = do
  text ← lift (string_in 1024 msg)
  say "recv %d bytes msg: %s\n" (int (length msg) ∷ str text ∷ [])
  run lock
  say "\n%d >:" (int sock ∷ [])
  line ← input 1024 (read 0 1024)
  run unlock
  respond format self sock line

unfoldable pub talk : String → ℕ → ℕ → Unit {0} → M (Next (Unit {0}) (Unit {0}))
talk format self sock _ = do
  msg ← input 1024 (recv sock 1024)
  elim msg [
    | none ↦ do say "Error: recv failed: %s\n" (error ∷ []); pure (finish tt)
    | some bytes ↦ ask format self sock bytes
  ]

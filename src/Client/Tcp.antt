-- ===== src/Client/Tcp.antt =====
-- study-linux-kernel/socket/socket-client-tcp.c
pub mod Asking
use study_linux_kernel.Base.{
  ℕ, List, [], ◌∷◌, ◌++◌, Option, none, some, if◌then◌else◌, length, drop, replicate,
}
use study_linux_kernel.Sys.Calls.{
  Text, int, str, error, inet, socket, connect, sigaction, read, send, recv, close,
}
use study_linux_kernel.Sys.Monad.{
  M, pure, ◌>>=◌, ◌>>◌, exit, number, input, run, say, lift, string_in,
}
use study_linux_kernel.Sys.Loops.{Next, again, finish, loop}
use study_linux_kernel.Socket.Worker.{is_quit}

-- `bytes` stored over what is in the array.
abbrev pub over : Text → Text → Text
over bytes array = bytes ++ drop (length bytes) array

-- The array behind `recv`: the line, its first `n` bytes cleared, and the answer over it.
abbrev pub array_of : ℕ → Text → Text → Text
array_of n line bytes = over bytes (over (replicate n 0) line)

-- The answer to a line is printed as a C string.
unfoldable pub on_answer : ℕ → Text → Option Text → M (Next (Unit {0}) (Unit {0}))
on_answer n line none = do say "Error: recv failed: %s\n" (error ∷ []); pure (again tt)
on_answer n line (some bytes) = do
  msg ← lift (string_in 1024 (array_of n line bytes))
  say "recv %ld bytes msg: %s\n" (int (length bytes) ∷ str msg ∷ [])
  pure (again tt)

unfoldable pub hear : ℕ → ℕ → Text → M (Next (Unit {0}) (Unit {0}))
hear sock n line = input 1024 (recv sock 1024) >>= on_answer n line

unfoldable pub ask : ℕ → Text → M (Next (Unit {0}) (Unit {0}))
ask sock line = do
  msg ← lift (string_in 1024 line)
  sent ← number (send sock msg)
  elim sent [
    | none ↦ do say "Error: send failed: %s\n" (error ∷ []); pure (finish tt)
    | some n ↦ do say "send %ld bytes msg: %s\n" (int n ∷ str msg ∷ []); hear sock n line
  ]

unfoldable pub on_line : ℕ → Option Text → M (Next (Unit {0}) (Unit {0}))
on_line sock none = pure (again tt)
on_line sock (some []) = pure (again tt)
on_line sock (some (b ∷ bs)) =
    if is_quit (b ∷ bs) then (do say "\ngoodbye." []; pure (finish tt)) else ask sock (b ∷ bs)

unfoldable pub round : ℕ → Unit {0} → M (Next (Unit {0}) (Unit {0}))
round sock _ = do say "\n>:" []; line ← input 1024 (read 0 1024); on_line sock line

unfoldable pub stay : ℕ → ℕ → M (Unit {0})
stay fuel sock = do loop fuel (round sock) tt; run (close sock); exit 0

unfoldable pub start : (Text → ℕ) → ℕ → Text → Text → ℕ → M (Unit {0})
start atoi fuel ip port sock = do
  connected ← number (connect sock (inet ip (atoi port)))
  elim connected [
    | none ↦ do say "Error: connect failed: %s\n" (error ∷ []); exit 1
    | some _ ↦ do run (sigaction 13 "SIG_IGN"); stay fuel sock
  ]

-- `argv` holds the arguments behind the program's name.
unfoldable pub main : (Text → ℕ) → ℕ → List Text → M (Unit {0})
main atoi fuel (ip ∷ port ∷ []) = do
  sock ← number (socket "AF_INET SOCK_STREAM")
  elim sock [ none ↦ exit 1 | some fd ↦ start atoi fuel ip port fd ]
main atoi fuel argv = do say "Usage: socket-client-tcp [ip] [port]\n" []; exit 1

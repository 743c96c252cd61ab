-- ===== src/Client/Stream.antt =====
-- study-linux-kernel/socket/socket_stream_base_client_v1.c
pub mod Endless
use study_linux_kernel.Base.{
  ℕ, zero, suc, List, [], ◌∷◌, Option, none, some, length, ◌==◌, if◌then◌else◌,
}
use study_linux_kernel.Base.Run.{out_of_bounds}
use study_linux_kernel.Sys.Calls.{
  Text, str, error, inet, socket, connect, sigaction, read, send, recv, close,
}
use study_linux_kernel.Sys.Monad.{
  M, pure, ◌>>=◌, ◌>>◌, exit, number, input, run, say, undefined, lift, string_in, get_errno,
}
use study_linux_kernel.Sys.Loops.{Next, again, finish, loop}
use study_linux_kernel.Client.Tcp.{over}

-- The answer, stored over the line.
unfoldable pub hear : ℕ → Text → M (Next (Unit {0}) (Unit {0}))
hear sock line = do
  reply ← input 1024 (recv sock 1024)
  elim reply [
    | none ↦ do say "call recv failed:%s\n" (error ∷ []); pure (again tt)
    | some [] ↦ do say "remote closed:%s.\n" (error ∷ []); pure (again tt)
    | some (b ∷ bytes) ↦ do
      msg ← lift (string_in 1024 (over (b ∷ bytes) line))
      say "recv succeed:%s\n" (str msg ∷ [])
      pure (again tt)
  ]

-- EPIPE: the peer has closed the connection, and the kernel has raised SIGPIPE.
abbrev pub epipe : ℕ
epipe = 32

-- The handler of SIGPIPE. `abort` kills the process by SIGABRT, which is recorded as status 134.
unfoldable pub sighandler : {A : Type 0} → M A
sighandler = do say "recv signal SIGPIPE\n" []; exit 134

-- Behind a failed `send`; the handler runs before `send` returns.
unfoldable pub on_failure : ℕ → Text → ℕ → M (Next (Unit {0}) (Unit {0}))
on_failure sock line errno =
    if errno == epipe
    then sighandler
    else (do say "call send failed:%s\n" (error ∷ []); hear sock line)

unfoldable pub tell : ℕ → Text → M (Next (Unit {0}) (Unit {0}))
tell sock line = do
  sent ← number (send sock line)
  elim sent [
    | none ↦ get_errno >>= on_failure sock line
    | some zero ↦ do say "call send failed:%s\n" (error ∷ []); hear sock line
    | some (suc n) ↦ do
      msg ← lift (string_in 1024 line)
      say "send succeed:%s\n" (str msg ∷ [])
      hear sock line
  ]

-- A failed `read` is reported, and then sent with the length -1, which is the largest `size_t`.
unfoldable pub on_line : ℕ → Option Text → M (Next (Unit {0}) (Unit {0}))
on_line sock none = do say "call read failed:%s\n" (error ∷ []); undefined out_of_bounds
on_line sock (some []) = do say "call read failed:%s\n" (error ∷ []); tell sock []
on_line sock (some (b ∷ bs)) = tell sock (b ∷ bs)

unfoldable pub round : ℕ → Unit {0} → M (Next (Unit {0}) (Unit {0}))
round sock _ = do
  say "please input any character: " []
  line ← input 1024 (read 0 1024)
  on_line sock line

-- `exit:`
unfoldable pub leave : ℕ → M (Unit {0})
leave sock = do run (close sock); exit 0

unfoldable pub stay : ℕ → ℕ → M (Unit {0})
stay fuel sock = do loop fuel (round sock) tt; leave sock

unfoldable pub proces_sigpipe_signal : M (Option ℕ)
proces_sigpipe_signal = number (sigaction 13 "SA_RESTART sighandler")

-- `argv` holds the arguments behind the program's name.
unfoldable pub main : (Text → ℕ) → ℕ → List Text → M (Unit {0})
unfolding proces_sigpipe_signal leave
main atoi fuel (ip ∷ port ∷ []) = do
  installed ← proces_sigpipe_signal
  elim installed [
    | none ↦ do say "procee SIGPIPE failed.\n" []; exit 1
    | some _ ↦ do
      sock ← number (socket "AF_INET SOCK_STREAM IPPROTO_TCP")
      elim sock [
        | none ↦ do say "call socket failed:%s\n" (error ∷ []); exit 1
        | some fd ↦ do
          connected ← number (connect fd (inet ip (atoi port)))
          elim connected [
            | none ↦ do say "call connect failed:%s\n" (error ∷ []); leave fd
            | some _ ↦ do say "connect to %s:%s\n" (str ip ∷ str port ∷ []); stay fuel fd
          ]
      ]
  ]
main atoi fuel argv = do say "invalid input parameter.\n\nUsage: %s [IP] [port]\n" []; exit 1

-- ===== src/Client/Local.antt =====
-- study-linux-kernel/socket/socket_unixdomain_stream_client.c
pub mod Dialogue
use study_linux_kernel.Base.{
  ℕ, zero, suc, List, [], ◌∷◌, Option, none, some, take, c_string, ◌==◌, if◌then◌else◌,
}
use study_linux_kernel.Base.Run.{null_pointer}
use study_linux_kernel.Sys.Calls.{
  Text, str, error, local, socket, connect, sigaction, read, write, close,
}
use study_linux_kernel.Sys.Monad.{
  M, pure, ◌>>=◌, ◌>>◌, exit, number, input, run, say, undefined, lift, string_in, get_errno,
}
use study_linux_kernel.Client.Stream.{epipe}
use study_linux_kernel.Sys.Loops.{Next, again, finish, loop}

-- `occur error`, and out of the loop.
unfoldable pub give_up : M (Next (Unit {0}) (Unit {0}))
give_up = do say "occur error : %s\n" (error ∷ []); pure (finish tt)

unfoldable pub on_reply : Option Text → M (Next (Unit {0}) (Unit {0}))
on_reply none = give_up
on_reply (some []) = give_up
on_reply (some (b ∷ bs)) = do
  msg ← lift (string_in 1024 (b ∷ bs))
  say "recv msg: %s\n" (str msg ∷ [])
  pure (again tt)

unfoldable pub hear : ℕ → M (Next (Unit {0}) (Unit {0}))
hear sock = do reply ← input 1024 (read sock 1024); on_reply reply

-- The handler of SIGPIPE, which the kernel raises where `write` fails with EPIPE.
unfoldable pub sighandler : {A : Type 0} → M A
sighandler = do say "recv signal SIGPIPE\n" []; exit 134

-- Behind a failed `write`.
unfoldable pub on_failure : ℕ → M (Next (Unit {0}) (Unit {0}))
on_failure errno = if errno == epipe then sighandler else give_up

unfoldable pub on_line : ℕ → Option Text → M (Next (Unit {0}) (Unit {0}))
on_line sock none = pure (again tt)
on_line sock (some []) = pure (again tt)
on_line sock (some (b ∷ bs)) = do
  put ← number (write sock (b ∷ bs))
  elim put [ none ↦ get_errno >>= on_failure | some zero ↦ give_up | some (suc n) ↦ hear sock ]

unfoldable pub round : ℕ → Unit {0} → M (Next (Unit {0}) (Unit {0}))
round sock _ = do say "please input msg: " []; line ← input 1024 (read 0 1024); on_line sock line

-- `exit:`
unfoldable pub leave : ℕ → M (Unit {0})
leave sock = do say "exit: %s\n" (error ∷ []); run (close sock); exit 0

unfoldable pub stay : ℕ → ℕ → M (Unit {0})
stay fuel sock = do loop fuel (round sock) tt; leave sock

-- `strncpy` takes 107 bytes of the path.
unfoldable pub main : ℕ → List Text → M (Unit {0})
unfolding leave
main fuel argv = do
  installed ← number (sigaction 13 "SA_RESTART sighandler")
  elim installed [
    | none ↦ exit 1
    | some _ ↦ do
      sock ← number (socket "AF_UNIX SOCK_STREAM")
      elim sock [
        | none ↦ exit 1
        | some fd ↦ elim argv [
          | [] ↦ undefined null_pointer
          | path ∷ _ ↦ do
            connected ← number (connect fd (local (take 107 (c_string path))))
            elim connected [ none ↦ leave fd | some _ ↦ stay fuel fd ]
        ]
      ]
  ]

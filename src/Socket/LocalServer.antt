-- ===== src/Socket/LocalServer.antt =====
-- study-linux-kernel/socket/socket_unixdomain_stream_server.c
pub mod Leaving
use study_linux_kernel.Base.{ℕ, List, [], ◌∷◌, Option, none, some, take, c_string}
use study_linux_kernel.Base.Run.{null_pointer}
use study_linux_kernel.Sys.Calls.{
  Text, int, str, error, local, unlink, socket, bind, listen, accept, read, write, close,
}
use study_linux_kernel.Sys.Monad.{
  M, pure, ◌>>=◌, ◌>>◌, exit, number, input, run, say, undefined, lift, string_in,
}
use study_linux_kernel.Sys.Loops.{Next, again, finish, loop}

-- What was read from a connection; both `break`s leave it open.
unfoldable pub answer_line : ℕ → Option Text → M (Next (Unit {0}) (Unit {0}))
answer_line clt none = do say "occur error: %s\n" (error ∷ []); pure (finish tt)
answer_line clt (some []) = do say "remote closed.\n" []; pure (finish tt)
answer_line clt (some (b ∷ bs)) = do
  msg ← lift (string_in 1024 (b ∷ bs))
  say "recv msg: %s\n" (str msg ∷ [])
  run (write clt (b ∷ bs))
  run (close clt)
  pure (again tt)

unfoldable pub round : ℕ → Unit {0} → M (Next (Unit {0}) (Unit {0}))
round svr _ = do
  clt ← number (accept svr)
  elim clt [
    | none ↦ pure (again tt)
    | some fd ↦ do
      say "accept a connection:%d \n" (int fd ∷ [])
      msg ← input 1024 (read fd 1024)
      answer_line fd msg
  ]

-- `exit:`
unfoldable pub leave : ℕ → M (Unit {0})
leave svr = do run (close svr); exit 0

unfoldable pub serve_all : ℕ → ℕ → M (Unit {0})
serve_all fuel svr = do loop fuel (round svr) tt; leave svr

unfoldable pub start : ℕ → ℕ → Text → M (Unit {0})
unfolding leave
start fuel svr path = do
  bound ← number (bind svr (local (take 107 (c_string path))))
  elim bound [
    | none ↦ leave svr
    | some _ ↦ do
      listening ← number (listen svr 4)
      elim listening [
        | none ↦ leave svr
        | some _ ↦ do say "listening to %s\n" (str path ∷ []); serve_all fuel svr
      ]
  ]

-- `argv` holds the arguments behind the program's name; `unlink(NULL)` fails.
unfoldable pub main : ℕ → List Text → M (Unit {0})
main fuel [] = do
  run (unlink [])
  svr ← number (socket "AF_UNIX SOCK_STREAM")
  elim svr [ none ↦ exit 1 | some fd ↦ undefined null_pointer ]
main fuel (path ∷ argv) = do
  run (unlink path)
  svr ← number (socket "AF_UNIX SOCK_STREAM")
  elim svr [ none ↦ exit 1 | some fd ↦ start fuel fd path ]

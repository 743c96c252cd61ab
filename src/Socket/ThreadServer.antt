-- ===== src/Socket/ThreadServer.antt =====
-- study-linux-kernel/socket/socket-server-tcp-mt.c: a thread for each connection; the threads share
-- the terminal under a mutex.
pub mod Race
use study_linux_kernel.Base.{
  ℕ, zero, suc, List, [], ◌∷◌, Option, none, some, Bool, ◌&&◌, ◌==◌, if◌then◌else◌, length,
}
use study_linux_kernel.Base.Run.{indeterminate}
use study_linux_kernel.Sys.Calls.{
  Text, int, str, peer, error, any_host, socket, bind, listen, accept, recv, send, close, read,
  lock, unlock, spawn, sigaction, other,
}
use study_linux_kernel.Sys.Monad.{
  M, pure, ◌>>=◌, ◌>>◌, exit, sys, number, input, run, say, lift, string_in, undefined,
}
use study_linux_kernel.Sys.Loops.{Next, again, finish, loop}
use study_linux_kernel.Socket.Worker.{talk}

-- `_thread_func`, on the socket that it finds behind its pointer.
unfoldable pub thread_func : ℕ → ℕ → ℕ → M (Unit {0})
thread_func fuel self sock = do
  loop fuel (talk "[%lu] send %d bytes msg: %s\n" self sock) tt
  say "\n[%lu] goodbye\n" (int self ∷ [])
  run (close sock)

-- Behind `pthread_create`, which answers an error by a positive number, so that the test `0 >` never
-- finds one: `pthread_detach` then gets a `thread` that was never set.
unfoldable pub after_create : Option ℕ → M (Next (Unit {0}) (Unit {0}))
after_create none = pure (again tt)
after_create (some zero) = do run (other "pthread_detach"); pure (again tt)
after_create (some (suc n)) = undefined indeterminate

-- A round of the accepting loop.
unfoldable pub admit : ℕ → Unit {0} → M (Next (Unit {0}) (Unit {0}))
admit sock _ = do
  clt ← sys (accept sock)
  elim clt.result [
    | none ↦ pure (again tt)
    | some fd ↦ do
      say "accept %s connect\n" (peer clt.sender ∷ [])
      number (spawn fd) >>= after_create
  ]

-- `argc` is 2, so `argc == 3` fails and the backlog is 4.
unfoldable pub start : ℕ → ℕ → ℕ → Text → M (Unit {0})
start fuel sock port text = do
  bound ← number (bind sock (any_host port))
  elim bound [
    | none ↦ do say "Error: bind failed: %s\n" (error ∷ []); exit 1
    | some _ ↦ do
      listening ← number (listen sock 4)
      elim listening [
        | none ↦ do say "Error: listen failed: %s\n" (error ∷ []); exit 1
        | some _ ↦ do
          run (sigaction 13 "SIG_IGN")
          say "listen to: 0.0.0.0:%s\n" (str text ∷ [])
          loop fuel (admit sock) tt
          run (close sock)
          exit 0
      ]
  ]

-- `argv` holds the arguments behind the program's name.
unfoldable pub main : (Text → ℕ) → ℕ → List Text → M (Unit {0})
main atoi fuel (port ∷ []) = do
  sock ← number (socket "AF_INET SOCK_STREAM")
  elim sock [ none ↦ exit 1 | some fd ↦ start fuel fd (atoi port) port ]
main atoi fuel argv = do
  say "Usage: socket-server-tcp-mt [port] [backlog:options,default 4]\n" []
  exit 1

-- ===== src/Socket/ForkServer.antt =====
-- study-linux-kernel/socket/socket-server-tcp-mp.c: a process for each connection.
pub mod Leak
use study_linux_kernel.Base.{ℕ, zero, suc, List, [], ◌∷◌, Option, none, some}
use study_linux_kernel.Sys.Calls.{
  Text, int, str, peer, error, any_host, socket, bind, listen, accept, close, fork, sigaction,
}
use study_linux_kernel.Sys.Monad.{M, pure, ◌>>=◌, ◌>>◌, exit, sys, number, run, say}
use study_linux_kernel.Sys.Loops.{Next, again, finish, loop}
use study_linux_kernel.Socket.Worker.{talk}

-- A process of its own serves the connection; the mutex is not shared between processes.
unfoldable pub process_connection : ℕ → ℕ → M ℕ
process_connection fuel sock = do
  loop fuel (talk "[%d] send %d bytes msg: %s\n" sock sock) tt
  say "\n[%d] goodbye\n" (int sock ∷ [])
  run (close sock)
  pure 0

-- The `switch` on what `fork` returned; the child works on its copy of `sock_client`.
unfoldable pub after_fork : ℕ → ℕ → Option ℕ → M (Next (Unit {0}) (Unit {0}))
after_fork fuel clt none = do say "Error: fork failed: %s\n" (error ∷ []); pure (again tt)
after_fork fuel clt (some zero) = do status ← process_connection fuel clt; exit status
after_fork fuel clt (some (suc pid)) = pure (again tt)

-- A round of the accepting loop.
unfoldable pub admit : ℕ → ℕ → Unit {0} → M (Next (Unit {0}) (Unit {0}))
admit fuel sock _ = do
  clt ← sys (accept sock)
  elim clt.result [
    | none ↦ pure (again tt)
    | some fd ↦ do
      say "accept %s connect\n" (peer clt.sender ∷ [])
      pid ← number fork
      after_fork fuel fd pid
  ]

-- `argc` is 2, so `argc == 3` fails and the backlog is 4.
unfoldable pub start : ℕ → ℕ → ℕ → Text → M (Unit {0})
start fuel sock port text = do
  bound ← number (bind sock (any_host port))
  elim bound [
    | none ↦ do say "Error: bind failed: %s\n" (error ∷ []); exit 1
    | some _ ↦ do
      listening ← number (listen sock 4)
      elim listening [
        | none ↦ do say "Error: listen failed: %s\n" (error ∷ []); exit 1
        | some _ ↦ do
          run (sigaction 13 "SIG_IGN")
          say "listen to: 0.0.0.0:%s\n" (str text ∷ [])
          loop fuel (admit fuel sock) tt
          run (close sock)
          exit 0
      ]
  ]

-- `argv` holds the arguments behind the program's name.
unfoldable pub main : (Text → ℕ) → ℕ → List Text → M (Unit {0})
main atoi fuel (port ∷ []) = do
  sock ← number (socket "AF_INET SOCK_STREAM")
  elim sock [ none ↦ exit 1 | some fd ↦ start fuel fd (atoi port) port ]
main atoi fuel argv = do
  say "Usage: socket-server-tcp-mp [port] [backlog:options,default 4]\n" []
  exit 1

-- ===== src/Broadcast.antt =====
-- study-linux-kernel/socket/socket-server-tcp-select.cpp: what is typed at the terminal goes to the
-- accepted connections.
pub mod Serving
use study_linux_kernel.Base.{
  ℕ, zero, suc, ◌+◌, List, [], ◌∷◌, ◌++◌, Option, none, some, Bool, true, false, ◌||◌, ◌==◌,
  if◌then◌else◌, length, take, mem, c_string,
}
use study_linux_kernel.Sys.Calls.{
  Text, Reply, received, any_host, int, str, error, socket, bind, listen, send, recv, read, close,
  lock, unlock, spawn, sleep, fcntl, sigaction,
}
use study_linux_kernel.Sys.Monad.{
  M, pure, ◌>>=◌, ◌>>◌, exit, sys, number, input, run, say, lift, string_in,
}
use study_linux_kernel.Sys.Loops.{Next, again, loop}
use study_linux_kernel.SelectServer.{
  Server, insert_all, fd_index, accept_round, serve_locked, round_of,
}

-- A message, and how often it is still to be sent.
abbrev pub Queue : Type 0
Queue = List (ℕ × Text)

-- Behind a `send` of a message that is to be sent `n + 1` times.
unfoldable pub after_send : ℕ → Text → Option ℕ → M (Bool × ℕ)
after_send n text none = do say "Error: send failed: %s\n" (error ∷ []); pure (true, suc n)
after_send n text (some k) = do
  say "send %d bytes msg: %s\n" (int k ∷ str text ∷ [])
  pure (false, n)

unfoldable pub send_last : ℕ → ℕ → Text → M (Bool × ℕ)
send_last fd zero text = pure (false, zero)
send_last fd (suc n) text = number (send fd text) >>= after_send n text

-- The loop over `queMsgs` from its end, for one descriptor: whether a `send` failed, which ends it,
-- and the queue.
unfoldable pub send_all : ℕ → Queue → M (Bool × Queue)
send_all fd [] = pure (false, [])
send_all fd ((left, text) ∷ queue) = do
  r ← send_all fd queue
  one ← (if r.0 then pure (true, left) else send_last fd left text)
  pure (one.0, (one.1, text) ∷ r.1)

unfoldable pub on_received : Option Text → M Bool
on_received none = do say "Error: recv failed: %s\n" (error ∷ []); pure true
on_received (some []) = do say "Error: recv failed: %s\n" (error ∷ []); pure true
on_received (some (b ∷ bs)) = do
  msg ← lift (string_in 1024 (b ∷ bs))
  say "recv msg %d bytes: %s\n" (int (length (b ∷ bs)) ∷ str msg ∷ [])
  pure false

-- One descriptor of the set.
unfoldable pub serve_one : Reply → ℕ → Queue → M (Bool × Queue)
serve_one ready fd queue = do
  lift (fd_index fd)
  wrote ← (if mem fd ready.writable then send_all fd queue else pure (false, queue))
  got ← (if mem fd ready.readable then input 1024 (recv fd 1024) >>= on_received else pure false)
  pure (wrote.0 || got, wrote.1)

unfoldable pub line_of : Option Text → Text
line_of none = []
line_of (some bytes) = c_string bytes

-- A line of the terminal, in 1024 zeroed bytes and one more. The number that `read` returns is not
-- looked at. The line is for as many as `size` says without the lock: what the accepting thread
-- inserted by then comes with the reply of `read`.
unfoldable pub take_line : Bool → Server Queue → M Queue
take_line false s = pure s.queue
take_line true s = do
  r ← sys (read 0 1024)
  pure (s.queue ++ ((length (insert_all r.readable s.fds), line_of (received 1024 r)) ∷ []))

-- The messages that need no more sending go.
unfoldable pub purge : Queue → Queue
purge [] = []
purge ((zero, text) ∷ queue) = purge queue
purge ((suc n, text) ∷ queue) = (suc n, text) ∷ purge queue

unfoldable pub on_ready : Reply → Server Queue → M (Next (Server Queue) (Unit {0}))
on_ready ready s = do
  queue ← take_line (mem 0 ready.readable) s
  s' ← serve_locked serve_one ready s.fds queue
  pure (again (record s' { queue = purge s'.queue }))

unfoldable pub thread_func : ℕ → M (Unit {0})
thread_func fuel =
    loop fuel (λ s. round_of (0 ∷ []) on_ready s.fds s.queue) (record { fds = []; queue = [] })

-- `argc` is 2, so `argc == 3` fails and the backlog is 4.
unfoldable pub start : ℕ → ℕ → ℕ → Text → M (Unit {0})
start fuel sock port text = do
  bound ← number (bind sock (any_host port))
  elim bound [
    | none ↦ do say "Error: bind failed: %s\n" (error ∷ []); exit 1
    | some _ ↦ do
      listening ← number (listen sock 4)
      elim listening [
        | none ↦ do say "Error: listen failed: %s\n" (error ∷ []); exit 1
        | some _ ↦ do
          run (sigaction 13 "SIG_IGN")
          run (fcntl 0 "F_GETFL")
          run (fcntl 0 "F_SETFL O_NONBLOCK")
          say "listen to: 0.0.0.0:%s\n" (str text ∷ [])
          thread ← number (spawn sock)
          elim thread [
            | none ↦ do
              say "Error: pthread_create failed: %s\n" (error ∷ [])
              run (close sock)
              exit 0
            | some _ ↦ loop fuel (accept_round sock) []
          ]
      ]
  ]

unfoldable pub main : (Text → ℕ) → ℕ → List Text → M (Unit {0})
main atoi fuel (port ∷ []) = do
  sock ← number (socket "AF_INET SOCK_STREAM")
  elim sock [ none ↦ exit 1 | some fd ↦ start fuel fd (atoi port) port ]
main atoi fuel argv = do
  say "Usage: socket-server-tcp-select [port] [backlog:options,default 4]\n" []
  exit 1

-- ===== src/Http/Server.antt =====
-- The threads of study-linux-kernel/socket/socket-server-http-select.cpp.
pub mod Known
pub mod Serving
use study_linux_kernel.Base.{
  ℕ, zero, suc, ◌+◌, List, [], ◌∷◌, ◌++◌, Option, none, some, Bool, true, false, ◌||◌, ◌==◌,
  if◌then◌else◌, length, take, mem, c_string,
}
use study_linux_kernel.Sys.Calls.{
  Text, Reply, Address, any_host, int, str, error, socket, bind, listen, send, recv, close,
  getpeername, lock, unlock, spawn, sleep, fcntl, sigaction, other,
}
use study_linux_kernel.Sys.Monad.{
  M, pure, ◌>>=◌, ◌>>◌, exit, sys, number, input, run, say, lift, string_in,
}
use study_linux_kernel.Sys.Loops.{Next, again, loop}
use study_linux_kernel.SelectServer.{Server, fd_index, accept_round, serve_locked, round_of}
use study_linux_kernel.Http.Response.{respond}

-- An answer that waits for its descriptor to be writable.
abbrev pub Messages : Type 0
Messages = List (ℕ × Text)

-- Behind a `send`: a failed one leaves its message and the rest, and otherwise the loop goes on.
unfoldable pub after_send : Messages → M (Bool × Messages) → Option ℕ → M (Bool × Messages)
after_send messages later none = do
  say "Error: send failed: %s\n" (error ∷ [])
  pure (false, messages)
after_send messages later (some _) = do r ← later; pure (true, r.1)

-- The loop over `listMsgs` for one descriptor: `bClosed`, and the messages that are left. A failed
-- `send` ends it.
unfoldable pub send_all : ℕ → Messages → M (Bool × Messages)
send_all fd [] = pure (false, [])
send_all fd ((to, text) ∷ more) =
    let later : M (Bool × Messages) = send_all fd more in
    if to == fd
    then number (send to (c_string text)) >>= after_send ((to, text) ∷ more) later
    else (do r ← later; pure (r.0, (to, text) ∷ r.1))

module _ (decimal : ℕ → Text) (file_at : Text → Option Text) (inet_ntoa : Address → Text)
    (port_text : Address → Text) where
  -- `snprintf(szHost, 21, "%s:%d", ...)`, where `getpeername` returns 0.
  unfoldable pub host_text : Option ℕ → Address → Text
  host_text none a = []
  host_text (some zero) a = take 20 (inet_ntoa a ++ (b':' ∷ port_text a))
  host_text (some (suc n)) a = []

  unfoldable pub get_remote_host : ℕ → M Text
  get_remote_host fd = do r ← sys (getpeername fd); pure (host_text r.result r.sender)

  -- What `recv` gave: the end of the connection, or a request.
  unfoldable pub on_received : ℕ → Messages → Option Text → M (Bool × Messages)
  on_received fd messages none = do
    say "Error: recv failed: %s\n" (error ∷ [])
    pure (true, messages)
  on_received fd messages (some []) = do
    say "Error: recv failed: %s\n" (error ∷ [])
    pure (true, messages)
  on_received fd messages (some (b ∷ bs)) = do
    msg ← lift (string_in 4096 (b ∷ bs))
    say "recv msg %d bytes: %s\n" (int (length (b ∷ bs)) ∷ str msg ∷ [])
    host ← get_remote_host fd
    response ← lift (respond decimal file_at msg host)
    pure (false, messages ++ ((fd, response) ∷ []))

  unfoldable pub receive : ℕ → Messages → M (Bool × Messages)
  receive fd messages = input 4096 (recv fd 4096) >>= on_received fd messages

  -- One descriptor of the set.
  unfoldable pub serve_one : Reply → ℕ → Messages → M (Bool × Messages)
  serve_one ready fd messages = do
    lift (fd_index fd)
    wrote ← (if mem fd ready.writable then send_all fd messages else pure (false, messages))
    got ← (if mem fd ready.readable then receive fd wrote.1 else pure (false, wrote.1))
    pure (wrote.0 || got.0, got.1)

  unfoldable pub on_ready : Reply → Server Messages → M (Next (Server Messages) (Unit {0}))
  on_ready ready s = do s' ← serve_locked serve_one ready s.fds s.queue; pure (again s')

  unfoldable pub thread_func : ℕ → M (Unit {0})
  thread_func fuel =
      loop fuel (λ s. round_of [] on_ready s.fds s.queue) (record { fds = []; queue = [] })

-- `argc` is 2, so `argc == 3` fails and the backlog is 4.
unfoldable pub start : ℕ → ℕ → ℕ → Text → M (Unit {0})
start fuel sock port text = do
  run (other "setsockopt SO_REUSEPORT")
  bound ← number (bind sock (any_host port))
  elim bound [
    | none ↦ do say "Error: bind failed: %s\n" (error ∷ []); exit 1
    | some _ ↦ do
      listening ← number (listen sock 4)
      elim listening [
        | none ↦ do say "Error: listen failed: %s\n" (error ∷ []); exit 1
        | some _ ↦ do
          run (sigaction 13 "SIG_IGN")
          run (fcntl 0 "F_GETFL")
          run (fcntl 0 "F_SETFL O_NONBLOCK")
          say "listen to: 0.0.0.0:%s\n" (str text ∷ [])
          thread ← number (spawn sock)
          elim thread [
            | none ↦ do
              say "Error: pthread_create failed: %s\n" (error ∷ [])
              run (close sock)
              exit 0
            | some _ ↦ loop fuel (accept_round sock) []
          ]
      ]
  ]

unfoldable pub main : (Text → ℕ) → ℕ → List Text → M (Unit {0})
main atoi fuel (port ∷ []) = do
  sock ← number (socket "AF_INET SOCK_STREAM")
  elim sock [ none ↦ exit 1 | some fd ↦ start fuel fd (atoi port) port ]
main atoi fuel argv = do
  say "Usage: socket-server-http-select [port] [backlog:options,default 4]\n" []
  exit 1

-- ===== src/Socket/StreamServer.antt =====
-- study-linux-kernel/socket/socket_stream_base_server_v1.c: an echo server that serves one
-- connection after another.
pub mod Echo
use study_linux_kernel.Base.{
  ℕ, ◌+◌, List, [], ◌∷◌, Option, none, some, Bool, true, false, ◌==◌, if◌then◌else◌, length, take,
}
use study_linux_kernel.Sys.Calls.{
  Text, Address, int, peer, str, error, any_host, socket, bind, listen, accept, recv, send, close,
}
use study_linux_kernel.Sys.Monad.{
  M, pure, ◌>>=◌, ◌>>◌, exit, sys, number, input, run, say, lift, string_in,
}
use study_linux_kernel.Sys.Loops.{Next, again, finish, loop}

-- The answer to one message: lines 64 to 72. What was echoed is printed as a C string.
unfoldable pub reply_to : ℕ → Option Text → M (Unit {0})
reply_to clt none = say "call recv failed:%s\n" (error ∷ [])
reply_to clt (some []) = say "remote closed.\n" []
reply_to clt (some (b ∷ msg)) = do
  sent ← number (send clt (b ∷ msg))
  elim sent [
    | none ↦ say "call send failed:%s\n" (error ∷ [])
    | some n ↦ do text ← lift (string_in 1024 (b ∷ msg)); say "send succeed:%s\n" (str text ∷ [])
  ]

-- A connection that was accepted.
unfoldable pub serve : ℕ → Address → M (Unit {0})
unfolding reply_to
serve clt from = do
  say "accept connect from %s\n" (peer from ∷ [])
  msg ← input 1024 (recv clt 1024)
  reply_to clt msg
  run (close clt)

unfoldable pub round : ℕ → Unit {0} → M (Next (Unit {0}) (Unit {0}))
unfolding serve
round svr _ = do
  clt ← sys (accept svr)
  elim clt.result [
    | none ↦ do say "call accept failed:%s\n" (error ∷ []); pure (again tt)
    | some fd ↦ do serve fd clt.sender; pure (again tt)
  ]

-- `exit:`
unfoldable pub leave : ℕ → M (Unit {0})
leave svr = do run (close svr); exit 0

-- The loop, and the label behind it.
unfoldable pub serve_all : ℕ → ℕ → M (Unit {0})
unfolding leave
serve_all fuel svr = do loop fuel (round svr) tt; leave svr

unfoldable pub serve_port : ℕ → ℕ → ℕ → M (Unit {0})
unfolding leave
serve_port fuel svr port = do
  bound ← number (bind svr (any_host port))
  elim bound [
    | none ↦ do say "call bind failed:%s\n" (error ∷ []); leave svr
    | some _ ↦ do
      listening ← number (listen svr 4)
      elim listening [
        | none ↦ do say "call listen failed:%s\n" (error ∷ []); leave svr
        | some _ ↦ do say "listening to %s....\n" (int port ∷ []); serve_all fuel svr
      ]
  ]

-- `argv` holds the arguments behind the program's name; `atoi` is a parameter.
unfoldable pub main : (Text → ℕ) → ℕ → List Text → M (Unit {0})
unfolding serve_port
main atoi fuel (port ∷ []) = do
  svr ← number (socket "AF_INET SOCK_STREAM IPPROTO_TCP")
  elim svr [
    | none ↦ do say "call socket failed:%s\n" (error ∷ []); exit 1
    | some fd ↦ serve_port fuel fd (atoi port)
  ]
main atoi fuel argv = do say "invalid input parameter.\n\nUsage: %s [port]\n" []; exit 1

-- ===== src/Client/Chat.antt =====
-- study-linux-kernel/socket/chatroom_client.c
pub mod Typing
use study_linux_kernel.Base.{
  ℕ, zero, suc, ◌-◌, List, [], ◌∷◌, ◌++◌, Option, none, some, Bool, if◌then◌else◌, length, take,
  mem, c_string,
}
use study_linux_kernel.Base.Run.{Run, ok, fault, indeterminate, out_of_bounds}
use study_linux_kernel.Sys.Calls.{
  Text, Address, Reply, inet, str, error, socket, select, fcntl, fgets, sendto, recv,
}
use study_linux_kernel.Sys.Monad.{M, pure, ◌>>=◌, ◌>>◌, exit, sys, number, input, run, say, lift}
use study_linux_kernel.Sys.Loops.{Next, again, finish, loop}
use study_linux_kernel.Chatroom.{ended, die}

-- `msg[len - 1] = '\0'`, and the `len` bytes that are sent.
unfoldable pub cut_end : Text → Run Text
cut_end [] = fault out_of_bounds
cut_end (b ∷ bs) = ok (take (length bs) (b ∷ bs) ++ (0 ∷ []))

-- What `fgets` stored; where it stored nothing `msg` has no value.
unfoldable pub message_of : Option Text → Run Text
message_of none = fault indeterminate
message_of (some line) = cut_end (c_string line)

unfoldable pub after_sendto : Option ℕ → M (Unit {0})
after_sendto none = die
after_sendto (some _) = pure tt

unfoldable pub send_line : ℕ → Address → M (Unit {0})
send_line sock server = do
  line ← input 1023 (fgets 0 1024)
  msg ← lift (message_of line)
  sent ← number (sendto sock msg server)
  after_sendto sent

unfoldable pub on_message : Option Text → M (Unit {0})
on_message none = die
on_message (some bytes) = do msg ← lift (ended bytes); say "%s\n" (str msg ∷ [])

unfoldable pub on_ready : ℕ → Address → List ℕ → M (Next (Unit {0}) (Unit {0}))
on_ready sock server readable = do
  (if mem 0 readable then send_line sock server else pure tt)
  (if mem sock readable then input 1024 (recv sock 1024) >>= on_message else pure tt)
  pure (again tt)

unfoldable pub on_selected : ℕ → Address → List ℕ → Option ℕ → M (Next (Unit {0}) (Unit {0}))
on_selected sock server readable none = pure (finish tt)
on_selected sock server readable (some zero) = pure (finish tt)
on_selected sock server readable (some (suc n)) = on_ready sock server readable

unfoldable pub round : ℕ → Address → Unit {0} → M (Next (Unit {0}) (Unit {0}))
round sock server _ = do
  ready ← sys (select (0 ∷ sock ∷ []) (sock ∷ []))
  on_selected sock server ready.readable ready.result

unfoldable pub converse : ℕ → ℕ → Address → M (Unit {0})
converse fuel sock server = do
  run (fcntl sock "F_GETFL")
  run (fcntl sock "F_SETFL O_NONBLOCK")
  run (fcntl 0 "F_GETFL")
  run (fcntl 0 "F_SETFL O_NONBLOCK")
  loop fuel (round sock server) tt
  exit 0

-- `argv` holds the arguments behind the program's name.
unfoldable pub main : (Text → ℕ) → ℕ → List Text → M (Unit {0})
main atoi fuel (ip ∷ port ∷ []) = do
  sock ← number (socket "AF_INET SOCK_DGRAM")
  elim sock [ none ↦ die | some fd ↦ converse fuel fd (inet ip (atoi port)) ]
main atoi fuel argv = do say "Usage: %s <server_ip> <server_port>\n" []; exit 1

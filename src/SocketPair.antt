-- ===== src/SocketPair.antt =====
-- study-linux-kernel/socket/socket_unixdomain_pair.c, as built there: with SWITCH_TO_DGRAM.
pub mod Parent
pub mod Child
pub mod Shouting
use study_linux_kernel.Base.{
  ℕ, zero, suc, ◌+◌, ◌-◌, List, [], ◌∷◌, Option, none, some, Bool, ◌&&◌, ◌||◌, ◌==◌, ltb, leb,
  if◌then◌else◌, length, has_nul,
}
use study_linux_kernel.Base.Run
use study_linux_kernel.Base.Run.{Run, ok, fault, out_of_bounds}
use study_linux_kernel.Sys.Calls.{
  Text, Reply, int, str, error, read, write, close, fork, getpid, socketpair,
}
use study_linux_kernel.Sys.Monad.{
  M, pure, ◌>>=◌, ◌>>◌, exit, sys, number, input, run, say, lift, string_in,
}
use study_linux_kernel.Sys.Loops.{Next, again, finish, loop}

-- `isalpha` and `toupper` in the C locale. They get a `char`, which is negative for a byte from 128 on;
-- C leaves that undefined but for EOF, and libc documents that it leaves such a byte as it is.
unfoldable pub is_alpha : ℕ → Bool
is_alpha c = (leb 65 c && leb c 90) || (leb 97 c && leb c 122)

unfoldable pub to_upper : ℕ → ℕ
to_upper c = if leb 97 c && leb c 122 then c - 32 else c

-- The bytes before the first NUL are raised, those from there on stay.
unfoldable pub uppered : Text → Text
unfolding is_alpha
uppered [] = []
uppered (b ∷ bs) = if b == 0 then b ∷ bs else (if is_alpha b then to_upper b else b) ∷ uppered bs

-- `strhelper_toupper` on an array of `size` bytes that was zeroed before `bytes` were stored in it.
unfoldable pub strhelper_toupper : ℕ → Text → Run Text
strhelper_toupper size bytes =
    if ltb (length bytes) size || has_nul bytes then ok (uppered bytes) else fault out_of_bounds

-- `write(...) <= 0`
unfoldable pub goes_on : Option ℕ → M (Next (Unit {0}) (Unit {0})) → M (Next (Unit {0}) (Unit {0}))
goes_on none later = pure (finish tt)
goes_on (some zero) later = pure (finish tt)
goes_on (some (suc n)) later = later

-- `getpid` does not fail.
unfoldable pub pid_of : Option ℕ → ℕ
pid_of none = 0
pid_of (some pid) = pid

-- What a process prints of a message that it received.
unfoldable pub show_line : ℕ → Text → M (Unit {0})
show_line pid bytes = do
  line ← lift (string_in 1024 bytes)
  say "[%d]recv msg: %s\n" (int pid ∷ str line ∷ [])

-- A process behind its loop.
unfoldable pub leave : ℕ → ℕ → M (Unit {0})
leave pid sock = do say "[%d] close socket: %s" (int pid ∷ error ∷ []); run (close sock); exit 0

-- The child's loop.
unfoldable pub on_answer : ℕ → Option Text → M (Next (Unit {0}) (Unit {0}))
on_answer pid none = pure (finish tt)
on_answer pid (some []) = pure (finish tt)
on_answer pid (some (b ∷ bs)) = do show_line pid (b ∷ bs); pure (again tt)

unfoldable pub after_ask : ℕ → ℕ → Option ℕ → M (Next (Unit {0}) (Unit {0}))
after_ask pid sock put = goes_on put (input 1024 (read sock 1024) >>= on_answer pid)

unfoldable pub on_typed : ℕ → ℕ → Option Text → M (Next (Unit {0}) (Unit {0}))
on_typed pid sock none = pure (again tt)
on_typed pid sock (some []) = pure (again tt)
on_typed pid sock (some (b ∷ bs)) = number (write sock (b ∷ bs)) >>= after_ask pid sock

unfoldable pub ask_round : ℕ → ℕ → Unit {0} → M (Next (Unit {0}) (Unit {0}))
ask_round pid sock _ = do
  say "[%d]please input message:" (int pid ∷ [])
  typed ← input 1024 (read 0 1024)
  on_typed pid sock typed

unfoldable pub ask_all : ℕ → ℕ → Option ℕ → M (Unit {0})
ask_all fuel sock pid = do loop fuel (ask_round (pid_of pid) sock) tt; leave (pid_of pid) sock

-- `case 0`; `a` and `b` are `sock_pair[0]` and `sock_pair[1]`.
unfoldable pub child : ℕ → ℕ → ℕ → M (Unit {0})
child fuel a b = do run (close a); number getpid >>= ask_all fuel b

-- The parent's loop.
unfoldable pub on_message : ℕ → ℕ → Option Text → M (Next (Unit {0}) (Unit {0}))
on_message pid sock none = pure (finish tt)
on_message pid sock (some []) = pure (finish tt)
on_message pid sock (some (b ∷ bs)) = do
  show_line pid (b ∷ bs)
  raised ← lift (strhelper_toupper 1024 (b ∷ bs))
  number (write sock raised) >>= λ put. goes_on put (pure (again tt))

unfoldable pub answer_round : ℕ → ℕ → Unit {0} → M (Next (Unit {0}) (Unit {0}))
answer_round pid sock _ = input 1024 (read sock 1024) >>= on_message pid sock

unfoldable pub answer_all : ℕ → ℕ → Option ℕ → M (Unit {0})
answer_all fuel sock pid = do loop fuel (answer_round (pid_of pid) sock) tt; leave (pid_of pid) sock

unfoldable pub parent : ℕ → ℕ → ℕ → M (Unit {0})
parent fuel a b = do run (close b); number getpid >>= answer_all fuel a

-- The `switch` on what `fork` returned; without a child the process goes on as a parent.
unfoldable pub branch : ℕ → ℕ → ℕ → Option ℕ → M (Unit {0})
branch fuel a b none = do say "occur error: %s\n" (error ∷ []); parent fuel a b
branch fuel a b (some zero) = child fuel a b
branch fuel a b (some (suc pid)) = parent fuel a b

-- `sock_pair[i]`; what the call does not store stays 0.
unfoldable pub pair_at : ℕ → List ℕ → ℕ
pair_at i [] = 0
pair_at zero (fd ∷ fds) = fd
pair_at (suc i) (fd ∷ fds) = pair_at i fds

unfoldable pub after_pair : ℕ → List ℕ → Option ℕ → M (Unit {0})
after_pair fuel fds none = exit 1
after_pair fuel fds (some _) = number fork >>= branch fuel (pair_at 0 fds) (pair_at 1 fds)

-- The two sockets are the descriptors that the reply to `socketpair` names.
unfoldable pub main : ℕ → M (Unit {0})
main fuel = do r ← sys (socketpair "AF_UNIX SOCK_DGRAM"); after_pair fuel r.readable r.result

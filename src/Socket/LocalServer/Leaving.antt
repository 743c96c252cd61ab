-- ===== src/Socket/LocalServer/Leaving.antt =====
-- How study-linux-kernel/socket/socket_unixdomain_stream_server.c stops.
use study_linux_kernel.Base.{ℕ, ◌<◌, ◌≤◌, ◌≡◌, [], ◌∷◌, none, some, length, arith, ◌⊎◌}
use study_linux_kernel.Base.Run.{Fault, out_of_bounds}
use study_linux_kernel.Sys.Calls.{Trace, Call, made, printed, read, write, received}
use study_linux_kernel.Sys.Monad.{World, string_in}
use study_linux_kernel.Sys.Loops.{Stops, Ends, Round, loop, loop-Ends}
use study_linux_kernel.Sys.Traces.{Always, Unterminated, typed, held}
use study_linux_kernel.Socket.LocalServer.{answer_line, round}

-- A connection is read and written only while it and the listening socket are all that is open, and
-- what is written to it is what was read last.
abbrev pub Answers : ℕ → Call → Trace → Type 0
Answers svr (read fd n) past = held past ≡ fd ∷ svr ∷ []
Answers svr (write fd bytes) past = (held past ≡ fd ∷ svr ∷ []) × (typed past ≡ some bytes)
Answers svr c past = Unit {0}

-- The newest call is a `read` that found nothing or failed, and its connection is still open.
abbrev pub Dangling : ℕ → Trace → Type 0
Dangling svr [] = ⊥
Dangling svr (printed format args ∷ past) = Dangling svr past
Dangling svr (made (read fd n) r ∷ past) =
    (held past ≡ fd ∷ svr ∷ []) × ((received n r ≡ none) ⊎ (received n r ≡ some []))
Dangling svr (made c r ∷ past) = ⊥

pub record Serves (svr : ℕ) (w : World) : Type 0 where
  pub echo : Always (Answers svr) w.trace
  pub sockets : held w.trace ≡ svr ∷ []

-- Behind the loop.
pub record Dropped (svr : ℕ) (w : World) : Type 0 where
  pub echo : Always (Answers svr) w.trace
  pub dangling : Dangling svr w.trace

-- What was read has no end inside the array that it is printed from.
pub record Overreads (svr : ℕ) (e : Fault) (w : World) : Type 0 where
  pub kind : e ≡ out_of_bounds
  pub echo : Always (Answers svr) w.trace
  pub endless : Unterminated (typed w.trace)

abbrev pub stops : ℕ → Stops
stops svr = record {
  status = λ _ _. ⊥;
  waits = λ w. Always (Answers svr) w.trace × (length (held w.trace) ≤ 2);
  faults = Overreads svr;
}

round-Serves :
    (svr : ℕ) (w : World)
    → Serves svr w
    → Ends (Round (λ _. Serves svr) (λ _. Dropped svr) w) (stops svr) (round svr tt w)
unfolding round answer_line string_in
round-Serves svr w h = ground arith

-- The accepting loop serves one connection at a time: it reads and writes only while that connection
-- and the listening socket are all that is open, and what it writes to the connection is what it read
-- last. With fuel above the number of replies it is left only behind a `read` that found nothing or
-- failed, whose connection is then still open; or it waits in a call, with at most two sockets open;
-- or it prints a message past the end of its array, which it does only where the `read` stored 1024
-- bytes without a NUL.
pub loop-Dropped :
    (svr fuel : ℕ) (w : World)
    → length w.replies < fuel
    → Serves svr w
    → Ends (λ _. Dropped svr) (stops svr) (loop fuel (round svr) tt w)
loop-Dropped svr fuel w f h =
    loop-Ends (λ _. Serves svr) (λ _. Dropped svr) (stops svr) (round svr) (λ _. round-Serves svr)
      fuel tt w f h

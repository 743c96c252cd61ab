-- ===== src/Socket/StreamServer/Echo.antt =====
-- What the server of study-linux-kernel/socket/socket_stream_base_server_v1.c keeps.
use study_linux_kernel.Base.{ℕ, ◌<◌, ◌≤◌, ◌≡◌, List, [], ◌∷◌, length, arith}
use study_linux_kernel.Base.Run.{Fault, out_of_bounds}
use study_linux_kernel.Sys.Calls.{Text}
use study_linux_kernel.Sys.Monad.{World, string_in}
use study_linux_kernel.Sys.Loops.{Stops, Ends, Round, loop, loop-Ends, bind-Ends}
use study_linux_kernel.Sys.Traces.{Always, Echoes, Unterminated, newest, held}
use study_linux_kernel.Socket.StreamServer.{round, leave, serve_all, main}

-- Between two connections.
pub record Serves (svr : ℕ) (w : World) : Type 0 where
  pub sockets : held w.trace ≡ svr ∷ []
  pub echo : Always Echoes w.trace

-- In a call.
pub record Waits (w : World) : Type 0 where
  pub few : length (held w.trace) ≤ 2
  pub echo : Always Echoes w.trace

pub record Leaves (n : ℕ) (w : World) : Type 0 where
  pub closed : held w.trace ≡ []
  pub echo : Always Echoes w.trace

-- The message was received and echoed, and is then read past the end of its array.
pub record Overreads (e : Fault) (w : World) : Type 0 where
  pub kind : e ≡ out_of_bounds
  pub few : length (held w.trace) ≡ 2
  pub echo : Always Echoes w.trace
  pub endless : Unterminated (newest w.trace)

abbrev pub stops : Stops
stops = record { status = Leaves; waits = Waits; faults = Overreads }

round-Serves :
    (svr : ℕ) (w : World)
    → Serves svr w
    → Ends (Round (λ _. Serves svr) (λ _ _. ⊥) w) stops (round svr tt w)
unfolding round string_in
round-Serves svr w h = ground arith

serve_all-Leaves :
    (svr fuel : ℕ) (w : World)
    → length w.replies < fuel
    → Serves svr w
    → Ends (λ _ _. ⊥) stops (serve_all fuel svr w)
unfolding serve_all
serve_all-Leaves svr fuel w f h =
    bind-Ends (λ _ _. ⊥) (λ _ _. ⊥) stops (loop fuel (round svr) tt) (λ _. leave svr) w
      (loop-Ends (λ _. Serves svr) (λ _ _. ⊥) stops (round svr) (λ _. round-Serves svr) fuel tt w f
        h)
      (λ _ w' n. absurd n)

-- Whatever the environment answers, with fuel above the number of replies the server ends, waits in
-- a call, or prints a message that it has just echoed past the end of its array; it does the last
-- only where the newest `recv` stored 1024 bytes without a NUL. Every `send` repeats what was
-- received last on that connection. In any call at most the listening socket and one connection are
-- open, and when the process ends no socket is.
pub main-Leaves :
    (atoi : Text → ℕ) (fuel : ℕ) (argv : List Text) (w : World)
    → length w.replies < fuel
    → w.trace ≡ []
    → Ends (λ _ _. ⊥) stops (main atoi fuel argv w)
unfolding main
main-Leaves atoi fuel [] w f e = ground arith
main-Leaves atoi fuel (port ∷ p ∷ argv) w f e = ground arith
main-Leaves atoi fuel (port ∷ []) w f e = grind (arith, serve_all-Leaves)

-- ===== src/Client/Tcp/Asking.antt =====
-- The dialogue of study-linux-kernel/socket/socket-client-tcp.c.
use study_linux_kernel.Base.{
  ℕ, ◌<◌, ◌≡◌, refl, ◌⊎◌, inl, inr, List, [], ◌∷◌, Option, none, some, ◌||◌, Bool-cases, ltb,
  length, has_nul, arith,
}
use study_linux_kernel.Base.Run.{Fault, out_of_bounds}
use study_linux_kernel.Sys.Calls.{Text, close}
use study_linux_kernel.Sys.Monad.{World, run, exit, string_in, ◌>>◌}
use study_linux_kernel.Sys.Loops.{Stops, Ends, Round, loop, loop-Ends, bind-Ends}
use study_linux_kernel.Sys.Traces.{Always, Unterminated, typed, held}
use study_linux_kernel.Socket.Worker.Relay.{Relays}
use study_linux_kernel.Client.Tcp.{
  array_of, on_answer, hear, ask, on_line, round, stay, start, main,
}

record Talks (sock : ℕ) (w : World) : Type 0 where
  relayed : Always Relays w.trace
  open_sock : held w.trace ≡ sock ∷ []

-- Ended with 0, or with 1 before there was a connection.
pub record Left (n : ℕ) (w : World) : Type 0 where
  pub relayed : Always Relays w.trace
  pub closed : n ≡ 0 → held w.trace ≡ []

-- The line, or the array that the answer was stored in over it, has no end.
pub record Overruns (e : Fault) (w : World) : Type 0 where
  pub kind : e ≡ out_of_bounds
  pub relayed : Always Relays w.trace
  pub endless :
      Unterminated (typed w.trace)
      ⊎ ((n : ℕ) × (line : Text) × (bytes : Text) × Unterminated (some (array_of n line bytes)))

abbrev pub stops : Stops
stops = record { status = Left; waits = λ w. Always Relays w.trace; faults = Overruns }

on_answer-Talks :
    (sock n : ℕ) (line : Text) (answer : Option Text) (w₀ w : World)
    → length w.replies < length w₀.replies
    → Talks sock w
    → Ends (Round (λ _. Talks sock) (λ _. Talks sock) w₀) stops (on_answer n line answer w)
unfolding on_answer string_in
on_answer-Talks sock n line none w₀ w less h = ground arith
on_answer-Talks sock n line (some bytes) w₀ w less h =
    let array = array_of n line bytes in
    elim (Bool-cases (ltb (length array) 1024 || has_nul array)) [
      | inl ends ↦ rw ends (record { relayed = h.relayed; open_sock = h.open_sock }, less)
      | inr endless ↦ rw endless (record {
        kind = refl;
        relayed = h.relayed;
        endless = inr (n, line, bytes, ground arith);
      })
    ]

hear-Talks :
    (sock n : ℕ) (line : Text) (w₀ w : World)
    → length w.replies < length w₀.replies
    → Talks sock w
    → Ends (Round (λ _. Talks sock) (λ _. Talks sock) w₀) stops (hear sock n line w)
unfolding hear
hear-Talks sock n line w₀ w less h = grind (arith, on_answer-Talks)

ask-Talks :
    (sock : ℕ) (line : Text) (w₀ w : World)
    → length w.replies < length w₀.replies
    → Talks sock w
    → typed w.trace ≡ some line
    → Ends (Round (λ _. Talks sock) (λ _. Talks sock) w₀) stops (ask sock line w)
unfolding ask string_in
ask-Talks sock line w₀ w less h t = grind (arith, hear-Talks)

on_line-Talks :
    (sock : ℕ) (line : Option Text) (w₀ w : World)
    → length w.replies < length w₀.replies
    → Talks sock w
    → typed w.trace ≡ line
    → Ends (Round (λ _. Talks sock) (λ _. Talks sock) w₀) stops (on_line sock line w)
unfolding on_line
on_line-Talks sock line w₀ w less h t = grind (arith, ask-Talks)

round-Talks :
    (sock : ℕ) (w : World)
    → Talks sock w
    → Ends (Round (λ _. Talks sock) (λ _. Talks sock) w) stops (round sock tt w)
unfolding round
round-Talks sock w h = grind (arith, on_line-Talks)

stay-Left :
    (sock fuel : ℕ) (w : World)
    → length w.replies < fuel
    → Always Relays w.trace
    → held w.trace ≡ sock ∷ []
    → Ends (λ _ _. ⊥) stops (stay fuel sock w)
unfolding stay
stay-Left sock fuel w f r o =
    bind-Ends (λ _. Talks sock) (λ _ _. ⊥) stops (loop fuel (round sock) tt)
      (λ _. run (close sock) >> exit 0) w
      (loop-Ends (λ _. Talks sock) (λ _. Talks sock) stops (round sock) (λ _. round-Talks sock) fuel
        tt w f (record { relayed = r; open_sock = o }))
      (λ _ v k. ground arith)

start-Left :
    (atoi : Text → ℕ) (fuel : ℕ) (ip port : Text) (sock : ℕ) (w : World)
    → length w.replies < fuel
    → Always Relays w.trace
    → held w.trace ≡ sock ∷ []
    → Ends (λ _ _. ⊥) stops (start atoi fuel ip port sock w)
unfolding start
start-Left atoi fuel ip port sock w f r o = grind (arith, stay-Left)

-- Whatever the environment answers, the client ends or waits in a call, and is out of fuel nowhere.
-- Each `send` carries the C string of the line that was read last from the terminal, a line
-- or an answer that leaves no NUL in the array is the only fault, and where the client ends with 0 its socket is closed.
pub main-Left :
    (atoi : Text → ℕ) (fuel : ℕ) (argv : List Text) (w : World)
    → length w.replies < fuel
    → w.trace ≡ []
    → Ends (λ _ _. ⊥) stops (main atoi fuel argv w)
unfolding main
main-Left atoi fuel [] w f e = ground arith
main-Left atoi fuel (ip ∷ []) w f e = ground arith
main-Left atoi fuel (ip ∷ port ∷ x ∷ argv) w f e = ground arith
main-Left atoi fuel (ip ∷ port ∷ []) w f e = grind (arith, start-Left)

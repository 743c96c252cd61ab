-- ===== src/Client/Local/Dialogue.antt =====
-- The dialogue of study-linux-kernel/socket/socket_unixdomain_stream_client.c.
use study_linux_kernel.Base.{ℕ, ◌<◌, ◌≡◌, ◌⊎◌, List, [], ◌∷◌, Option, some, length, arith}
use study_linux_kernel.Base.Run.{null_pointer, out_of_bounds}
use study_linux_kernel.Sys.Calls.{Text, Trace, Call, write}
use study_linux_kernel.Sys.Monad.{World, string_in}
use study_linux_kernel.Sys.Loops.{Stops, Ends, Round, loop, loop-Ends, bind-Ends}
use study_linux_kernel.Sys.Traces.{Always, Unterminated, typed, held}
use study_linux_kernel.Client.Local.{
  give_up, sighandler, on_failure, on_reply, hear, on_line, round, leave, stay, main,
}

-- A `write` carries the bytes of the `read` before it.
abbrev pub Repeats : Call → Trace → Type 0
Repeats (write fd line) past = typed past ≡ some line
Repeats c past = Unit {0}

record Talks (sock : ℕ) (w : World) : Type 0 where
  lines : Always Repeats w.trace
  open_sock : held w.trace ≡ sock ∷ []

pub record Gone (n : ℕ) (w : World) : Type 0 where
  pub lines : Always Repeats w.trace
  pub closed : n ≡ 0 → held w.trace ≡ []

abbrev pub stops : Stops
stops = record {
  status = Gone;
  waits = λ w. Always Repeats w.trace;
  faults = λ e w. (e ≡ null_pointer) ⊎ ((e ≡ out_of_bounds) × Unterminated (typed w.trace));
}

hear-Talks :
    (sock : ℕ) (w₀ w : World)
    → length w.replies < length w₀.replies
    → Talks sock w
    → Ends (Round (λ _. Talks sock) (λ _. Talks sock) w₀) stops (hear sock w)
unfolding hear on_reply give_up string_in
hear-Talks sock w₀ w less h = ground arith

on_line-Talks :
    (sock : ℕ) (line : Option Text) (w₀ w : World)
    → length w.replies < length w₀.replies
    → Talks sock w
    → typed w.trace ≡ line
    → Ends (Round (λ _. Talks sock) (λ _. Talks sock) w₀) stops (on_line sock line w)
unfolding on_line on_failure sighandler give_up
on_line-Talks sock line w₀ w less h t = grind (arith, hear-Talks)

round-Talks :
    (sock : ℕ) (w : World)
    → Talks sock w
    → Ends (Round (λ _. Talks sock) (λ _. Talks sock) w) stops (round sock tt w)
unfolding round
round-Talks sock w h = grind (arith, on_line-Talks)

stay-Gone :
    (sock fuel : ℕ) (w : World)
    → length w.replies < fuel
    → Always Repeats w.trace
    → held w.trace ≡ sock ∷ []
    → Ends (λ _ _. ⊥) stops (stay fuel sock w)
unfolding stay leave
stay-Gone sock fuel w f r o =
    bind-Ends (λ _. Talks sock) (λ _ _. ⊥) stops (loop fuel (round sock) tt) (λ _. leave sock) w
      (loop-Ends (λ _. Talks sock) (λ _. Talks sock) stops (round sock) (λ _. round-Talks sock) fuel
        tt w f (record { lines = r; open_sock = o }))
      (λ _ v k. ground arith)

-- Whatever the environment answers, the client ends or waits in a call, and is out of fuel nowhere.
-- Each `write` carries the bytes that the `read` before it stored, and where the client ends with 0
-- its socket is closed. A missing argument is used as NULL, and an answer of 1024 bytes without a NUL
-- is read past the end of its array; nothing else is undefined.
pub main-Gone :
    (fuel : ℕ) (argv : List Text) (w : World)
    → length w.replies < fuel
    → w.trace ≡ []
    → Ends (λ _ _. ⊥) stops (main fuel argv w)
unfolding main leave
main-Gone fuel argv w f e = grind (arith, stay-Gone)

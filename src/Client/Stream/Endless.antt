-- ===== src/Client/Stream/Endless.antt =====
-- The loop of study-linux-kernel/socket/socket_stream_base_client_v1.c, which nothing leaves.
use study_linux_kernel.Base.{ℕ, ◌<◌, ◌≡◌, ◌⊎◌, [], ◌∷◌, Option, none, some, length, arith}
use study_linux_kernel.Base.Run.{Fault, out_of_bounds}
use study_linux_kernel.Sys.Calls.{Text, Trace, Call, made, printed, send}
use study_linux_kernel.Sys.Monad.{World, string_in}
use study_linux_kernel.Sys.Loops.{Stops, Ends, Round, loop, loop-Ends, bind-Ends}
use study_linux_kernel.Sys.Traces.{or_empty, Always, Unterminated, heard, typed, held}
use study_linux_kernel.Client.Stream.{
  epipe, sighandler, on_failure, hear, tell, on_line, round, leave, stay,
}
use study_linux_kernel.Client.Tcp.{over}

-- A line is sent as it was read.
abbrev pub Repeats : Call → Trace → Type 0
Repeats (send fd line) past = typed past ≡ some line
Repeats c past = Unit {0}

record Talks (sock : ℕ) (w : World) : Type 0 where
  lines : Always Repeats w.trace
  open_sock : held w.trace ≡ sock ∷ []

-- The newest call is a `send` that failed with EPIPE.
abbrev pub Refused : Trace → Type 0
Refused [] = ⊥
Refused (printed format args ∷ past) = Refused past
Refused (made (send fd line) r ∷ past) = (r.result ≡ none) × (r.errno ≡ epipe)
Refused (made c r ∷ past) = ⊥

-- The handler has aborted the process.
pub record Aborts (n : ℕ) (w : World) : Type 0 where
  pub status : n ≡ 134
  pub lines : Always Repeats w.trace
  pub refused : Refused w.trace

-- The newest `read` failed, or a line that was sent, or the answer stored over it, is read past the end
-- of the array.
pub record Breaks (sock : ℕ) (e : Fault) (w : World) : Type 0 where
  pub kind : e ≡ out_of_bounds
  pub lines : Always Repeats w.trace
  pub cause :
      (typed w.trace ≡ none)
      ⊎ (Unterminated (typed w.trace)
          ⊎ Unterminated (some (over (or_empty (heard sock w.trace)) (or_empty (typed w.trace)))))

abbrev pub stops : ℕ → Stops
stops sock = record { status = Aborts; waits = λ w. Always Repeats w.trace; faults = Breaks sock }

hear-Talks :
    (sock : ℕ) (line : Text) (w₀ w : World)
    → length w.replies < length w₀.replies
    → Talks sock w
    → typed w.trace ≡ some line
    → Ends (Round (λ _. Talks sock) (λ _ _. ⊥) w₀) (stops sock) (hear sock line w)
unfolding hear string_in
hear-Talks sock line w₀ w less h t = ground arith

tell-Talks :
    (sock : ℕ) (line : Text) (w₀ w : World)
    → length w.replies < length w₀.replies
    → Talks sock w
    → typed w.trace ≡ some line
    → Ends (Round (λ _. Talks sock) (λ _ _. ⊥) w₀) (stops sock) (tell sock line w)
unfolding tell on_failure sighandler string_in
tell-Talks sock line w₀ w less h t = grind (arith, hear-Talks)

on_line-Talks :
    (sock : ℕ) (line : Option Text) (w₀ w : World)
    → length w.replies < length w₀.replies
    → Talks sock w
    → typed w.trace ≡ line
    → Ends (Round (λ _. Talks sock) (λ _ _. ⊥) w₀) (stops sock) (on_line sock line w)
unfolding on_line
on_line-Talks sock line w₀ w less h t = grind (arith, tell-Talks)

round-Talks :
    (sock : ℕ) (w : World)
    → Talks sock w
    → Ends (Round (λ _. Talks sock) (λ _ _. ⊥) w) (stops sock) (round sock tt w)
unfolding round
round-Talks sock w h = grind (arith, on_line-Talks)

-- Behind `connect`, with fuel above the number of replies, the client waits in a call, is aborted by its
-- handler, or reads past the end of its array; it leaves its loop in no other way, so it never closes
-- its socket. It is aborted only behind a `send` that failed with EPIPE. It reads past the end only
-- where the newest `read` failed, whose -1 it sends as a length, or where the line that was read, or
-- what the answer leaves of it, fills the array without a NUL. Until then each `send` carries what
-- was read last from the terminal.
pub stay-Waits :
    (sock fuel : ℕ) (w : World)
    → length w.replies < fuel
    → Always Repeats w.trace
    → held w.trace ≡ sock ∷ []
    → Ends (λ _ _. ⊥) (stops sock) (stay fuel sock w)
unfolding stay
stay-Waits sock fuel w f r o =
    bind-Ends (λ _ _. ⊥) (λ _ _. ⊥) (stops sock) (loop fuel (round sock) tt) (λ _. leave sock) w
      (loop-Ends (λ _. Talks sock) (λ _ _. ⊥) (stops sock) (round sock) (λ _. round-Talks sock) fuel
        tt w f (record { lines = r; open_sock = o }))
      (λ _ v k. absurd k)

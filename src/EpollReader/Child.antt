-- ===== src/EpollReader/Child.antt =====
-- The writer of study-linux-kernel/io-model/terminal-io-epoll-et.c.
use study_linux_kernel.Base.{ℕ, ◌<◌, ◌≡◌, [], ◌∷◌, Option, none, Bool, length, arith}
use study_linux_kernel.Sys.Calls.{Text, Trace, made, printed, write}
use study_linux_kernel.Sys.Monad.{World}
use study_linux_kernel.Sys.Loops.{Stops, Ends, Round, loop, loop-Ends, bind-Ends}
use study_linux_kernel.Sys.Traces.{Always, typed}
use study_linux_kernel.Client.Local.Dialogue.{Repeats}
use study_linux_kernel.EpollReader.{forward, on_ready, listen_round, leave_child, listen_all}

-- The newest `write` has failed.
abbrev pub Refused : Trace → Type 0
Refused [] = ⊥
Refused (printed format args ∷ past) = Refused past
Refused (made (write fd bytes) r ∷ past) = r.result ≡ none
Refused (made c r ∷ past) = Refused past

pub record Left (n : ℕ) (w : World) : Type 0 where
  pub lines : Always Repeats w.trace
  pub refused : Refused w.trace
  pub status : n ≡ 0

abbrev pub stops : Stops
stops = record { status = Left; waits = λ w. Always Repeats w.trace; faults = λ _ _. ⊥ }

abbrev Kept : Unit {0} → World → Type 0
Kept _ w = Always Repeats w.trace

abbrev Over : Unit {0} → World → Type 0
Over _ w = Always Repeats w.trace × Refused w.trace

forward-Kept :
    (dst : ℕ) (line : Option Text) (w₀ w : World)
    → length w.replies < length w₀.replies
    → Always Repeats w.trace
    → typed w.trace ≡ line
    → Ends (Round Kept Over w₀) stops (forward dst line w)
unfolding forward
forward-Kept dst line w₀ w less h t = ground arith

on_ready-Kept :
    (dst : ℕ) (readable : Bool) (w₀ w : World)
    → length w.replies < length w₀.replies
    → Always Repeats w.trace
    → Ends (Round Kept Over w₀) stops (on_ready dst readable w)
unfolding on_ready
on_ready-Kept dst readable w₀ w less h = grind (arith, forward-Kept)

listen_round-Kept :
    (dst : ℕ) (w : World)
    → Always Repeats w.trace
    → Ends (Round Kept Over w) stops (listen_round dst tt w)
unfolding listen_round
listen_round-Kept dst w h = grind (arith, on_ready-Kept)

-- Whatever the environment answers, the child ends or waits in a call, and is out of fuel nowhere.
-- Each `write` carries the bytes that the `read` before it stored; the child ends only behind a
-- `write` that failed, with 0.
pub listen_all-Left :
    (dst fuel : ℕ) (w : World)
    → length w.replies < fuel
    → Always Repeats w.trace
    → Ends (λ _ _. ⊥) stops (listen_all fuel dst w)
unfolding listen_all leave_child
listen_all-Left dst fuel w f h =
    bind-Ends Over (λ _ _. ⊥) stops (loop fuel (listen_round dst) tt) (λ _. leave_child dst) w
      (loop-Ends Kept Over stops (listen_round dst) (λ _. listen_round-Kept dst) fuel tt w f h)
      (λ _ v k. ground arith)

-- ===== src/Terminal/Padded.antt =====
-- What the programs of terminal-io-poll.c and terminal-io-select.c write.
use study_linux_kernel.Base.{
  ℕ, ◌≡◌, ◌<◌, refl, ap, ◌≤◌, has_nul, c_string, arith, List, [], ◌∷◌, some, length,
}
use study_linux_kernel.Sys.Calls.{Call, Trace, Reply, Text, fcntl, poll, select, write}
use study_linux_kernel.Sys.Monad.{World, M, answered, done, ◌>>◌, run, string_in}
use study_linux_kernel.Sys.Loops.{Never, Next, again, loop}
use study_linux_kernel.Sys.Traces.{Always, typed, or_empty}
use study_linux_kernel.Sys.Loops.{Stops, Ends, Round, loop-Ends, bind-Ends}
use study_linux_kernel.Sys.Steps.{sys-Ends, run-Ends}
use study_linux_kernel.Terminal.Padding.{padded, set_nonblocking}
use study_linux_kernel.Terminal.Poll
use study_linux_kernel.Terminal.Select

-- A `write` goes to the standard output and carries the whole array that the last `read` has filled.
abbrev pub Whole : Call → Trace → Type 0
Whole (write fd m) past = (fd ≡ 1) × (m ≡ padded (or_empty (typed past)))
Whole c past = Unit {0}

abbrev pub stops : Stops
stops = record {
  status = λ n w. (n ≡ 1) × Always Whole w.trace;
  waits = λ w. Always Whole w.trace;
  faults = λ e w. Always Whole w.trace;
}

abbrev Kept : Unit {0} → World → Type 0
Kept _ w = Always Whole w.trace

poll_ready-Whole :
    (r : Reply) (w₀ w : World)
    → length w.replies < length w₀.replies
    → Always Whole w.trace
    → Ends (Round Kept Never w₀) stops (Poll.on_ready r.result r.readable w)
unfolding Poll.on_ready Poll.on_bytes
poll_ready-Whole r w₀ w less h = ground arith

put_nothing : (w : World) → Select.put [] w ≡ done (again tt) w
unfolding Select.put string_in has_nul c_string
put_nothing w = refl

put-Whole :
    (bytes : Text) (w₀ w : World)
    → length w.replies < length w₀.replies
    → Always Whole w.trace
    → typed w.trace ≡ some bytes
    → Ends (Round Kept Never w₀) stops (Select.put bytes w)
unfolding Select.put
put-Whole bytes w₀ w less h t = ground arith

select_ready-Whole :
    (r : Reply) (w₀ w : World)
    → length w.replies < length w₀.replies
    → Always Whole w.trace
    → Ends (Round Kept Never w₀) stops (Select.on_ready r.result r.readable w)
unfolding Select.on_ready Select.on_bytes
select_ready-Whole r w₀ w less h = grind (arith, put_nothing, put-Whole)

poll_round-Whole : (w : World) → Kept tt w → Ends (Round Kept Never w) stops (Poll.round tt w)
unfolding Poll.round
poll_round-Whole w h = sys-Ends (Round Kept Never w) stops (poll (0 ∷ [])) _ w h (λ r rest e.
    poll_ready-Whole r w _ (omega (arith, ap (λ (l : List Reply). length l) e)) (tt, h))

select_round-Whole : (w : World) → Kept tt w → Ends (Round Kept Never w) stops (Select.round tt w)
unfolding Select.round
select_round-Whole w h = sys-Ends (Round Kept Never w) stops (select (0 ∷ []) []) _ w h (λ r rest e.
    select_ready-Whole r w _ (omega (arith, ap (λ (l : List Reply). length l) e)) (tt, h))

-- What both programs do: `round` is the one or the other.
looping :
    (round : Unit {0} → M (Next (Unit {0}) (Unit {0})))
    → ((w : World) → Kept tt w → Ends (Round Kept Never w) stops (round tt w))
    → (fuel : ℕ) (w : World) → length w.replies < fuel
    → w.trace ≡ []
    → Ends Never stops ((set_nonblocking >> loop fuel round tt) w)
unfolding set_nonblocking
looping round keep fuel w f e =
    bind-Ends (λ _ v. Kept tt v × (length v.replies ≤ length w.replies)) Never stops set_nonblocking
      (λ _. loop fuel round tt) w
      (run-Ends (λ _ v. Kept tt v × (length v.replies ≤ length w.replies)) stops (fcntl 0 "F_GETFL")
        (run (fcntl 0 "F_SETFL O_NONBLOCK")) w (rw e tt)
        (λ r rest d.
          sys-Ends (λ _ v. Kept tt v × (length v.replies ≤ length w.replies)) stops
            (fcntl 0 "F_SETFL O_NONBLOCK") (λ _ v. done tt v)
            (answered (fcntl 0 "F_GETFL") r rest w) (rw e (tt, tt))
            (λ q more c. (
              rw e (tt, (tt, tt)),
              omega
                  (arith, ap (λ (l : List Reply). length l) d, ap (λ (l : List Reply). length l) c),
            ))))
      (λ _ v k. loop-Ends Kept Never stops round (λ _. keep) fuel tt v (omega (arith, f, k.1)) k.0)

-- With fuel above the number of replies and no history, both programs are out of fuel nowhere and end with
-- status 1 only, and each `write` that they make goes to the standard output and carries the whole array,
-- the bytes that were read before and NULs up to its size.
pub main-Whole :
    (fuel : ℕ) (w : World)
    → length w.replies < fuel
    → w.trace ≡ []
    → Ends Never stops (Poll.main fuel w) × Ends Never stops (Select.main fuel w)
unfolding Poll.main Select.main
main-Whole fuel w f e = (
  looping Poll.round poll_round-Whole fuel w f e,
  looping Select.round select_round-Whole fuel w f e,
)

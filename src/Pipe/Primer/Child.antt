-- ===== src/Pipe/Primer/Child.antt =====
-- What the child of study-linux-kernel/ipc-pipe/pipe-primer.c writes.
use study_linux_kernel.Base.{
  ℕ, ◌<◌, ◌≡◌, [], ◌∷◌, ◌++◌, Option, none, some, length, take_all, arith, append-nil,
}
use study_linux_kernel.Sys.Calls.{Text}
use study_linux_kernel.Sys.Monad.{World}
use study_linux_kernel.Sys.Loops.{Stops, Ends, Round, loop, loop-Ends, bind-Ends}
use study_linux_kernel.Sys.Traces.{
  or_empty, taken, stored, IsPrefix, IsPrefix-take, IsPrefix-append, IsPrefix-nil,
}
use study_linux_kernel.Pipe.Primer.{copy_out, on_bytes, round, leave, copy_all}

module _ (src : ℕ) where
  -- Between two rounds the output is the input.
  abbrev pub Copied : World → Type 0
  Copied w = stored 1 w.trace ≡ taken src w.trace

  -- With 0 all of the input and a line feed are written; with 1 a call has failed.
  pub record Flushed (n : ℕ) (w : World) : Type 0 where
    pub output : n ≡ 0 → IsPrefix (stored 1 w.trace) (taken src w.trace ++ (10 ∷ []))
    pub input_first : n ≡ 0 → IsPrefix (taken src w.trace) (stored 1 w.trace)

  abbrev pub stops : Stops
  stops = record { status = Flushed; waits = λ w. Unit {0}; faults = λ _ _. ⊥ }

  copy_out-Copied :
      (bytes : Text) (w₀ w : World)
      → length w.replies < length w₀.replies
      → stored 1 w.trace ++ bytes ≡ taken src w.trace
      → Ends (Round (λ _. Copied) (λ _. Copied) w₀) stops (copy_out bytes w)
  unfolding copy_out
  copy_out-Copied bytes w₀ w less h = grind (arith, take_all)

  on_bytes-Copied :
      (bytes : Option Text) (w₀ w : World)
      → length w.replies < length w₀.replies
      → stored 1 w.trace ++ or_empty bytes ≡ taken src w.trace
      → Ends (Round (λ _. Copied) (λ _. Copied) w₀) stops (on_bytes bytes w)
  unfolding on_bytes
  on_bytes-Copied none w₀ w less h = ground arith
  on_bytes-Copied (some []) w₀ w less h = rw append-nil at h
  on_bytes-Copied (some (b ∷ bs)) w₀ w less h = copy_out-Copied (b ∷ bs) w₀ w less h

  round-Copied :
      (w : World) → Copied w → Ends (Round (λ _. Copied) (λ _. Copied) w) stops (round src tt w)
  unfolding round
  round-Copied w h = grind (arith, on_bytes-Copied)

  leave-Flushed : (w : World) → Copied w → Ends (λ _ _. ⊥) stops (leave src w)
  unfolding leave
  leave-Flushed w h = grind (arith, IsPrefix-append, IsPrefix-take, IsPrefix-nil)

  -- From a state in which nothing was read from the pipe or written, and whatever the environment
  -- answers, the child ends or waits in a call, and is out of fuel nowhere. Where it ends with 0 its
  -- output is all that it read from the pipe, in order, and behind that at most a line feed.
  pub copy_all-Flushed :
      (fuel : ℕ) (w : World)
      → length w.replies < fuel
      → (stored 1 w.trace ≡ []) × (taken src w.trace ≡ [])
      → Ends (λ _ _. ⊥) stops (copy_all fuel src w)
  unfolding copy_all
  copy_all-Flushed fuel w f h =
      bind-Ends (λ _. Copied) (λ _ _. ⊥) stops (loop fuel (round src) tt) (λ _. leave src) w
        (loop-Ends (λ _. Copied) (λ _. Copied) stops (round src) (λ _. round-Copied) fuel tt w f
          (ground arith))
        (λ _. leave-Flushed)

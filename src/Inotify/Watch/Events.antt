-- ===== src/Inotify/Watch/Events.antt =====
-- `handle_events` of study-linux-kernel/monitoring-files/inotify.c.
use study_linux_kernel.Base.{
  ℕ, ◌+◌, ◌<◌, ◌≤◌, ◌≡◌, ◌≢◌, refl, ◌⊎◌, inl, inr, [], ◌∷◌, none, some, length, arith, false,
  has_nul, Bool-cases,
}
use study_linux_kernel.Base.Run.{Fault, buffer_overflow, null_pointer, out_of_bounds, indeterminate}
use study_linux_kernel.Sys.Calls.{Text, Trace, made, printed, received}
use study_linux_kernel.Sys.Monad.{World, pure}
use study_linux_kernel.Sys.Loops.{Stops, Ends, Round, loop-Ends, bind-Ends, then-Ends, Next, again}
use study_linux_kernel.Inotify.Buffer.{InotifyEvent, name_of, walk}
use study_linux_kernel.Inotify.Progress.{IsTorn, IsEventIn, walk-Ends}
use study_linux_kernel.Sys.Traces.{typed}
use study_linux_kernel.Inotify.Watch.{
  Watches, say_directory, show_flags, show_string, show_name, show_event, show_buffer, eagain,
  drain, handle_events,
}

-- The newest call found no event, or said EAGAIN.
abbrev pub Drained : Trace → Type 0
Drained [] = ⊥
Drained (printed format args ∷ past) = ⊥
Drained (made c r ∷ past) =
    ((received 4096 r ≡ none) × (r.errno ≡ eagain)) ⊎ (received 4096 r ≡ some [])

-- The newest call failed for another reason.
abbrev pub Failed : Trace → Type 0
Failed [] = ⊥
Failed (printed format args ∷ past) = Failed past
Failed (made c r ∷ past) = (received 4096 r ≡ none) × (r.errno ≢ eagain)

-- The bytes end inside an event, or an event in them has a name without a NUL, which is printed.
abbrev pub Cause : Fault → Text → Type 0
Cause indeterminate bytes = IsTorn bytes
Cause out_of_bounds bytes =
    (e : InotifyEvent) × IsEventIn bytes e × (0 < length e.name) × (has_nul e.name ≡ false)
Cause buffer_overflow bytes = ⊥
Cause null_pointer bytes = ⊥

-- The newest `read` stored bytes with such a cause.
abbrev pub Caused : Fault → World → Type 0
Caused f w = (bytes : Text) × (typed w.trace ≡ some bytes) × Cause f bytes

abbrev pub stops : Stops
stops = record { status = λ n w. (n ≡ 1) × Failed w.trace; waits = λ w. Unit {0}; faults = Caused }

-- To print takes no reply and leaves the bytes of the newest `read` what they were.
record Printing (n : ℕ) (bytes : Text) (w : World) : Type 0 where
  few : length w.replies ≤ n
  last : typed w.trace ≡ some bytes

module _ (n : ℕ) (bytes : Text) where
  abbrev P : World → Type 0
  P = Printing n bytes

  say_directory-Ends :
      (wd : ℕ) (watches : Watches) (w : World)
      → P w
      → Ends (λ _. P) stops (say_directory wd watches w)
  unfolding say_directory
  say_directory-Ends wd [] w h = h
  say_directory-Ends wd ((v, path) ∷ watches) w h = ground (arith, say_directory-Ends wd watches w)

  show_flags-Ends : (e : InotifyEvent) (w : World) → P w → Ends (λ _. P) stops (show_flags e w)
  unfolding show_flags
  show_flags-Ends e w h = ground arith

  show_string-Ends :
      (e : InotifyEvent) (name : Text) (w : World)
      → e.name ≡ name
      → IsEventIn bytes e
      → P w
      → Ends (λ _. P) stops (show_string e name w)
  unfolding show_string name_of
  show_string-Ends e [] w s i h = h
  show_string-Ends e (b ∷ bs) w s i h = elim (Bool-cases (has_nul e.name)) [
    | inl ends ↦ rw ends (record { few = h.few; last = h.last })
    | inr endless ↦ rw endless (bytes, h.last, (e, i, rw s (omega arith), endless))
  ]

  show_name-Ends :
      (e : InotifyEvent) (w : World) → IsEventIn bytes e → P w → Ends (λ _. P) stops (show_name e w)
  unfolding show_name
  show_name-Ends e w i h =
      then-Ends P stops (show_string e e.name) _ w (show_string-Ends e e.name w refl i h)
        (λ w' h'. ground arith)

  show_event-Ends :
      (watches : Watches) (e : InotifyEvent) (w : World)
      → IsEventIn bytes e
      → P w
      → Ends (λ _. P) stops (show_event watches e w)
  unfolding show_event
  show_event-Ends watches e w i h =
      then-Ends P stops (show_flags e) _ w (show_flags-Ends e w h) (λ w' h'.
        then-Ends P stops (say_directory e.wd watches) (show_name e) w'
          (say_directory-Ends e.wd watches w' h') (λ w'' h''. show_name-Ends e w'' i h''))

-- The events of one `read`.
abbrev AfterRound : World → Next (Unit {0}) (Unit {0}) → World → Type 0
AfterRound = Round (λ _ _. Unit {0}) (λ _ w'. Drained w'.trace)

show_buffer-Ends :
    (watches : Watches) (bytes : Text) (w₀ w : World)
    → length w.replies < length w₀.replies
    → typed w.trace ≡ some bytes
    → Ends (AfterRound w₀) stops (show_buffer watches bytes w)
unfolding show_buffer
show_buffer-Ends watches bytes w₀ w less last =
    let n = length w.replies in
    bind-Ends (λ _. Printing n bytes) (AfterRound w₀) stops
      (walk (length bytes + 1) (show_event watches) bytes) (λ _. pure (again tt)) w
      (walk-Ends (Printing n bytes) stops (show_event watches) bytes
        (show_event-Ends n bytes watches) (λ v torn h. (bytes, h.last, torn)) w
        (record { few = omega arith; last = last }))
      (λ _ w' h. (tt, omega (arith, h.few)))

drain-Ends :
    (watches : Watches) (fd : ℕ) (w : World) → Ends (AfterRound w) stops (drain watches fd tt w)
unfolding drain
drain-Ends watches fd w = grind (arith, show_buffer-Ends)

-- `handle_events` takes all that the descriptor has: with fuel above the number of replies it comes
-- back only from a `read` that said EAGAIN or found nothing, ends the process with status 1 only on
-- a `read` that failed with another error, and otherwise waits in a call or faults. It faults only
-- where the newest `read` stored bytes that end inside an event, or that have an event whose name,
-- which is printed, has bytes but no NUL.
pub handle_events-Drained :
    (fuel : ℕ) (watches : Watches) (fd : ℕ) (w : World)
    → length w.replies < fuel
    → Ends (λ _ w'. Drained w'.trace) stops (handle_events fuel watches fd w)
unfolding handle_events
handle_events-Drained fuel watches fd w f =
    loop-Ends (λ _ _. Unit {0}) (λ _ w'. Drained w'.trace) stops (drain watches fd)
      (λ _ v _. drain-Ends watches fd v) fuel tt w f tt

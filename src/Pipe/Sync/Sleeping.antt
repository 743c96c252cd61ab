-- ===== src/Pipe/Sync/Sleeping.antt =====
-- What a child of study-linux-kernel/ipc-pipe/multiprocess-sync.cpp does.
use Prim.Native.String.{String}
use study_linux_kernel.Base.{
  ℕ, ◌≡◌, refl, List, [], ◌∷◌, Option, none, some, true, false, ◌⊎◌, inl, inr, arith,
}
use study_linux_kernel.Sys.Calls.{Text, Arg, Trace, int, sleep, getpid, close, other}
use study_linux_kernel.Sys.Monad.{
  World, Outcome, done, exited, blocked, faulted, unfinished, answered, ◌>>=◌,
}
use study_linux_kernel.Sys.Loops.{Never, Stops, Ends, bind-Ends}
use study_linux_kernel.Sys.Steps.{number-Ends, run-Ends}
use study_linux_kernel.Sys.Exchange.{history}
use study_linux_kernel.SocketPair.{pid_of}
use study_linux_kernel.Pipe.Sync.{curr_time, said, child_done, announce, child_works, child}
use study_linux_kernel.Pipe.Sync.Seen.{closes, refused, slept, let_go}

module _ (localtime : ℕ → Option ℕ) (strftime : ℕ → String → ℕ → Text) (atoi : Text → ℕ)
    (src dst : ℕ) where
  -- It has slept as long as its argument says, or could not close the end to read from.
  abbrev pub Woke : Text → Trace → Type 0
  Woke arg t = (slept (atoi arg) t ≡ true) ⊎ (refused src t ≡ true)

  module _ (arg : Text) where
    abbrev asleep : Stops
    asleep = record {
      status = λ n w. Woke arg w.trace;
      waits = λ w. closes dst w.trace ≡ true → Woke arg w.trace;
      faults = λ _ w. closes dst w.trace ≡ true → Woke arg w.trace;
    }

    child_done-Woke :
        (o : Option ℕ) (w : World)
        → slept (atoi arg) w.trace ≡ true
        → Ends Never asleep (child_done localtime strftime atoi o w)
    unfolding child_done
    child_done-Woke none w h = inl h
    child_done-Woke (some n) w h = inl h

    said-Woke :
        (format : String) (time : Option Text) (args : List Arg) (w : World)
        → slept (atoi arg) w.trace ≡ true
        → Ends
            (λ _ v. slept (atoi arg) v.trace ≡ true)
            asleep
            (said localtime strftime atoi format time args w)
    unfolding said
    said-Woke format none args w h = λ _. inl h
    said-Woke format (some time) args w h = h

    announce-Woke :
        (i : ℕ) (time : Option Text) (w : World)
        → slept (atoi arg) w.trace ≡ true
        → Ends Never asleep (announce localtime strftime atoi i dst time w)
    unfolding announce
    announce-Woke i time w h =
        number-Ends Never asleep getpid _ w (λ _. inl h)
          (λ r rest e.
            bind-Ends (λ _ v. slept (atoi arg) v.trace ≡ true) Never asleep
              (said localtime strftime atoi "%s child %d (PID=%ld) closing pipe\n" time
                (int i ∷ int (pid_of r.result) ∷ []))
              _ (answered getpid r rest w)
              (said-Woke "%s child %d (PID=%ld) closing pipe\n" time
                (int i ∷ int (pid_of r.result) ∷ []) (answered getpid r rest w) h)
              (λ _ v k.
                number-Ends Never asleep (close dst) (child_done localtime strftime atoi) v
                  (λ _. inl k) (λ q more d. child_done-Woke q.result _ k)))

    child_works-Woke :
        (i : ℕ) (o : Option ℕ) (w : World)
        → closes dst w.trace ≡ false
        → (o ≡ none → refused src w.trace ≡ true)
        → Ends Never asleep (child_works localtime strftime atoi i arg dst o w)
    unfolding child_works curr_time
    child_works-Woke i none w h r = inr (r refl)
    child_works-Woke i (some n) w h r =
        run-Ends Never asleep (sleep (atoi arg))
          (curr_time localtime strftime atoi "%T" >>= announce localtime strftime atoi i dst) w
          (λ c. absurd (cc))
          (λ q rest e.
            bind-Ends (λ _ v. slept (atoi arg) v.trace ≡ true) Never asleep
              (curr_time localtime strftime atoi "%T") _ (answered (sleep (atoi arg)) q rest w)
              (number-Ends (λ _ v. slept (atoi arg) v.trace ≡ true) asleep (other "time") _
                (answered (sleep (atoi arg)) q rest w) (λ _. inl (ground arith))
                (λ p more d. ground arith))
              (λ time v k. announce-Woke i time v k))

    child-Woke :
        (i : ℕ) (w : World)
        → w.trace ≡ []
        → ¬ (src ≡ dst)
        → Ends Never asleep (child localtime strftime atoi i arg src dst w)
    unfolding child
    child-Woke i w h apart =
        number-Ends Never asleep (close src) (child_works localtime strftime atoi i arg dst) w
          (rw h (λ c. absurd (ground arith)))
          (λ r rest e.
            child_works-Woke i r.result _ (rw h (ground (arith, apart)))
              (λ n. rw (h, n) (ground arith)))

  woken_up :
      (arg : Text) (o : Outcome (Unit {0}))
      → Ends Never (asleep arg) o
      → let_go dst o ≡ true
      → Woke arg (history o)
  woken_up arg (done a w) e g = absurd e
  woken_up arg (exited n w) e g = e
  woken_up arg (blocked c w) e g = e g
  woken_up arg (faulted x w) e g = e g
  woken_up arg (unfinished w) e g = absurd e

  -- A child that has let go of the end to write to has slept before, or could not close the end to
  -- read from.
  pub child-let_go :
      (arg : Text) (i : ℕ) (w : World)
      → w.trace ≡ []
      → ¬ (src ≡ dst)
      → let_go dst (child localtime strftime atoi i arg src dst w) ≡ true
      → Woke arg (history (child localtime strftime atoi i arg src dst w))
  child-let_go arg i w h apart =
      woken_up arg (child localtime strftime atoi i arg src dst w) (child-Woke arg i w h apart)

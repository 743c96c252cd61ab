-- ===== src/Pipe/Sync/Ready.antt =====
-- The parent of study-linux-kernel/ipc-pipe/multiprocess-sync.cpp and its children together.
use Prim.Native.String.{String}
use mathlib.Core.Path.{subst}
use study_linux_kernel.Base.{
  ℕ, zero, suc, ◌+◌, ◌≡◌, refl, List, [], ◌∷◌, Option, none, some, true, false, ◌⊎◌, inl, inr,
  length, arith,
}
use study_linux_kernel.Sys.Calls.{Text, Arg, Trace, int, fork, sleep, getpid, read, close, other}
use study_linux_kernel.Sys.Monad.{World, M, Outcome, exited, exit, answered, ◌>>=◌, ◌>>◌}
use study_linux_kernel.Sys.Loops.{Never, Stops, Ends, bind-Ends}
use study_linux_kernel.Sys.Steps.{number-Ends, run-Ends}
use study_linux_kernel.Sys.Exchange.{history}
use study_linux_kernel.SocketPair.{pid_of}
use study_linux_kernel.Pipe.Sync.{
  curr_time, said, child_done, announce, child_works, child, ready, after_read, after_close,
  wait_for_all, branch, spawn,
}
use study_linux_kernel.Pipe.Sync.Seen.{
  let_go, eof_seen, is_eof, is_child, one_more, children, EachOf, EachOf-map,
}
use study_linux_kernel.Pipe.Sync.Sleeping.{Woke, child-let_go}

module _ (localtime : ℕ → Option ℕ) (strftime : ℕ → String → ℕ → Text) (atoi : Text → ℕ)
    (src dst : ℕ) where
  module _ (all : List Text) where
    -- An exit with status 0 is a child's, or comes after the end of the input, with a child for each
    -- argument.
    abbrev pub Awaited : Trace → Type 0
    Awaited t = (is_child t ≡ true) ⊎ ((eof_seen src t ≡ true) × (children t ≡ length all))

    abbrev pub waiting : Stops
    waiting = record {
      status = λ n w. n ≡ 0 → Awaited w.trace;
      waits = λ w. Unit {0};
      faults = λ _ w. Unit {0};
    }

    said-Awaited :
        (format : String) (time : Option Text) (args : List Arg) (w : World)
        → Awaited w.trace
        → Ends (λ _ v. Awaited v.trace) waiting (said localtime strftime atoi format time args w)
    unfolding said
    said-Awaited format none args w h = tt
    said-Awaited format (some time) args w h = h

    ready-Awaited :
        (o : Option ℕ) (w : World)
        → Awaited w.trace
        → Ends Never waiting (ready localtime strftime atoi o w)
    unfolding ready curr_time
    ready-Awaited none w h = λ _. h
    ready-Awaited (some n) w h =
        bind-Ends (λ _ v. Awaited v.trace) Never waiting (curr_time localtime strftime atoi "%T")
          (λ time. said localtime strftime atoi "%s parent ready to go...\n" time [] >> exit 0) w
          (number-Ends (λ _ v. Awaited v.trace) waiting (other "time") _ w tt (λ r rest e. h))
          (λ time v k.
            bind-Ends (λ _ u. Awaited u.trace) Never waiting
              (said localtime strftime atoi "%s parent ready to go...\n" time []) (λ _. exit 0) v
              (said-Awaited "%s parent ready to go...\n" time [] v k) (λ _ u a _. a))

    -- The child's part, where nothing is waited for.
    child_done-Awaited :
        (o : Option ℕ) (w : World)
        → Awaited w.trace
        → Ends Never waiting (child_done localtime strftime atoi o w)
    unfolding child_done
    child_done-Awaited none w h = λ _. h
    child_done-Awaited (some n) w h = λ _. h

    announce-Awaited :
        (i : ℕ) (time : Option Text) (w : World)
        → Awaited w.trace
        → Ends Never waiting (announce localtime strftime atoi i dst time w)
    unfolding announce
    announce-Awaited i time w h = number-Ends Never waiting getpid _ w tt (λ r rest e.
        bind-Ends (λ _ v. Awaited v.trace) Never waiting
          (said localtime strftime atoi "%s child %d (PID=%ld) closing pipe\n" time
            (int i ∷ int (pid_of r.result) ∷ []))
          _ (answered getpid r rest w)
          (said-Awaited "%s child %d (PID=%ld) closing pipe\n" time
            (int i ∷ int (pid_of r.result) ∷ []) (answered getpid r rest w) h)
          (λ _ v k.
            number-Ends Never waiting (close dst) (child_done localtime strftime atoi) v tt
              (λ q more d. child_done-Awaited q.result _ k)))

    child_works-Awaited :
        (i : ℕ) (arg : Text) (o : Option ℕ) (w : World)
        → Awaited w.trace
        → Ends Never waiting (child_works localtime strftime atoi i arg dst o w)
    unfolding child_works curr_time
    child_works-Awaited i arg none w h = λ _. h
    child_works-Awaited i arg (some n) w h =
        run-Ends Never waiting (sleep (atoi arg))
          (curr_time localtime strftime atoi "%T" >>= announce localtime strftime atoi i dst) w tt
          (λ q rest e.
            bind-Ends (λ _ v. Awaited v.trace) Never waiting
              (curr_time localtime strftime atoi "%T") _ (answered (sleep (atoi arg)) q rest w)
              (number-Ends (λ _ v. Awaited v.trace) waiting (other "time") _
                (answered (sleep (atoi arg)) q rest w) tt (λ p more d. h))
              (λ time v k. announce-Awaited i time v k))

    child-Awaited :
        (i : ℕ) (arg : Text) (w : World)
        → Awaited w.trace
        → Ends Never waiting (child localtime strftime atoi i arg src dst w)
    unfolding child
    child-Awaited i arg w h =
        number-Ends Never waiting (close src) (child_works localtime strftime atoi i arg dst) w tt
          (λ r rest e. child_works-Awaited i arg r.result _ h)

    after_read-Awaited :
        (got : Option ℕ) (w : World)
        → (is_eof got ≡ true → Awaited w.trace)
        → Ends Never waiting (after_read localtime strftime atoi src got w)
    unfolding after_read
    after_read-Awaited none w h = λ z. absurd (omega (arith, z))
    after_read-Awaited (some zero) w h =
        number-Ends Never waiting (close src) (ready localtime strftime atoi) w tt
          (λ r rest e. ready-Awaited r.result _ (h refl))
    after_read-Awaited (some (suc n)) w h = λ z. absurd (omega (arith, z))

    after_close-Awaited :
        (o : Option ℕ) (w : World)
        → children w.trace ≡ length all
        → Ends Never waiting (after_close localtime strftime atoi src o w)
    unfolding after_close
    after_close-Awaited none w h = λ z. absurd (omega (arith, z))
    after_close-Awaited (some n) w h =
        number-Ends Never waiting (read src 1) (after_read localtime strftime atoi src) w tt
          (λ r rest e. after_read-Awaited r.result _ (λ z. inr (ground (arith, z), h)))

    branch-Awaited :
        (i : ℕ) (arg : Text) (o : Option ℕ) (before left : ℕ) (later : M (Unit {0})) (w : World)
        → before + suc left ≡ length all
        → children w.trace ≡ one_more o before
        → (is_eof o ≡ true → is_child w.trace ≡ true)
        → ((v : World) → children v.trace + left ≡ length all → Ends Never waiting (later v))
        → Ends Never waiting (branch localtime strftime atoi i arg src dst later o w)
    unfolding branch
    branch-Awaited i arg none before left later w n c z next = λ e. absurd (omega (arith, e))
    branch-Awaited i arg (some zero) before left later w n c z next =
        child-Awaited i arg w (inl (z refl))
    branch-Awaited i arg (some (suc pid)) before left later w n c z next =
        next w (omega (arith, n, c))

    spawn-Awaited :
        (i : ℕ) (args : List Text) (w : World)
        → children w.trace + length args ≡ length all
        → Ends Never waiting (spawn localtime strftime atoi i args src dst w)
    unfolding spawn wait_for_all
    spawn-Awaited i [] w h =
        number-Ends Never waiting (close dst) (after_close localtime strftime atoi src) w tt
          (λ r rest e. after_close-Awaited r.result _ (omega (arith, h)))
    spawn-Awaited i (arg ∷ args) w h =
        number-Ends Never waiting fork
          (branch localtime strftime atoi i arg src dst
            (spawn localtime strftime atoi (suc i) args src dst))
          w tt
          (λ r rest e.
            branch-Awaited i arg r.result (children w.trace) (length args)
              (spawn localtime strftime atoi (suc i) args src dst) _ h refl (λ z. ground (arith, z))
              (λ v. spawn-Awaited (suc i) args v))

  -- Two ends of a pipe with different numbers, and runs from no history: one of the loop and what
  -- follows it that is a parent's and exits with status 0, and one of a child for each argument.
  -- Where the end of the input is seen only once every child has let go of the end to write to,
  -- there is a child for each argument, and each has come back from its sleep, for as long as its
  -- argument says, or could not close the end to read from.
  pub ready_last :
      (args : List Text) (kids : ℕ → World) (w v : World)
      → w.trace ≡ []
      → ((i : ℕ) → (kids i).trace ≡ [])
      → ¬ (src ≡ dst)
      → spawn localtime strftime atoi 1 args src dst w ≡ exited 0 v
      → is_child v.trace ≡ false
      → (eof_seen src v.trace ≡ true
          → EachOf
              (λ i arg. let_go dst (child localtime strftime atoi i arg src dst (kids i)) ≡ true)
              1
              args)
      → (children v.trace ≡ length args)
        × EachOf
            (λ i arg.
              Woke localtime strftime atoi src dst arg
                (history (child localtime strftime atoi i arg src dst (kids i))))
            1
            args
  ready_last args kids w v e k apart run_ends not_child eof =
      let awaited : Awaited args v.trace =
        (subst (λ (o : Outcome (Unit {0})). Ends Never (waiting args) o) run_ends
            (spawn-Awaited args 1 args w (rw e (omega arith))))
          refl in
      elim awaited [
        | inl c ↦ absurd (cc)
        | inr p ↦ (
          p.1,
          EachOf-map _ _ 1 args
              (λ i arg g. child-let_go localtime strftime atoi src dst arg i (kids i) (k i) apart g)
              (eof p.0),
        )
      ]

-- ===== src/Pipe/Filter/Ends.antt =====
-- The ends of the pipe in study-linux-kernel/ipc-pipe/pipe-filter.cpp.
use Prim.Native.String.{String}
use study_linux_kernel.Base.{
  ℕ, zero, suc, ◌≡◌, refl, List, [], ◌∷◌, Option, none, some, Bool, true, false, ◌==◌, ◌||◌, ◌&&◌,
  ◌⊎◌, inl, inr, arith,
}
use study_linux_kernel.Sys.Calls.{Arg, Trace, made, printed, fork, wait, dup2, execute, close}
use study_linux_kernel.Sys.Monad.{World, M, number, answered, ◌>>=◌, ◌>>◌}
use study_linux_kernel.Sys.Traces.{Always}
use study_linux_kernel.Sys.Loops.{Never}
use study_linux_kernel.Sys.Discipline.{Rule, Keeps, number-Keeps, run-Keeps, if-Keeps}
use study_linux_kernel.Pipe.Filter.{
  replace, bound_out, bound_in, lister_closed, lister, counter_closed, counter, both_closed,
  one_closed, second, first, after_pipe,
}

abbrev worked : Option ℕ → Bool
worked none = false
worked (some _) = true

-- A `close` of the descriptor has succeeded.
abbrev pub shut : ℕ → Trace → Bool
shut fd [] = false
shut fd (printed format args ∷ past) = shut fd past
shut fd (made (close f) r ∷ past) = (f == fd && worked r.result) || shut fd past
shut fd (made c r ∷ past) = shut fd past

module _ (src dst : ℕ) where
  -- A program starts with no end of the pipe left but the one that has the number of its standard input
  -- or output, and the parent waits with none.
  abbrev pub Allowed : Rule
  Allowed (execute p) past =
      ((p ≡ "ls") × (shut src past ≡ true) × ((dst ≡ 1) ⊎ (shut dst past ≡ true)))
      ⊎ ((p ≡ "wc -l") × (shut dst past ≡ true) × ((src ≡ 0) ⊎ (shut src past ≡ true)))
  Allowed wait past = (shut src past ≡ true) × (shut dst past ≡ true)
  Allowed c past = Unit {0}

  abbrev Fine : M (Unit {0}) → World → Type 0
  Fine m w = Keeps Allowed Never (m w)

  abbrev Good : World → Type 0
  Good w = Always Allowed w.trace

  replace-Fine :
      (program : String) (w : World)
      → Allowed (execute program) w.trace
      → Good w
      → Fine (replace program) w
  unfolding replace
  replace-Fine program w a g = run-Keeps Allowed Never (execute program) _ w a g (λ r rest. (a, g))

  shut_now :
      (fd : ℕ) (o : Option ℕ) (past : Trace)
      → worked o ≡ true
      → (fd == fd && worked o) || shut fd past ≡ true
  shut_now fd o past e = ground (arith, e)

  shut_still : (b : Bool) (fd : ℕ) (past : Trace) → shut fd past ≡ true → b || shut fd past ≡ true
  shut_still true fd past e = refl
  shut_still false fd past e = e

  lister_closed-Fine :
      (o : Option ℕ) (w : World)
      → shut src w.trace ≡ true
      → (worked o ≡ true → shut dst w.trace ≡ true)
      → Good w
      → Fine (lister_closed o) w
  unfolding lister_closed
  lister_closed-Fine none w s d g = g
  lister_closed-Fine (some n) w s d g = replace-Fine "ls" w (inl (refl, s, inr (d refl))) g

  bound_out-Fine :
      (o : Option ℕ) (k : M (Unit {0})) (w : World)
      → Fine k w
      → ((args : List Arg) (format : String)
          → Fine k (record w { trace = printed format args ∷ w.trace }))
      → Fine (bound_out o >> k) w
  unfolding bound_out
  bound_out-Fine none k w h later = later [] "child bound write end of pipe to stdout failed...\n"
  bound_out-Fine (some n) k w h later = h

  bound_in-Fine :
      (o : Option ℕ) (k : M (Unit {0})) (w : World)
      → Fine k w
      → ((args : List Arg) (format : String)
          → Fine k (record w { trace = printed format args ∷ w.trace }))
      → Fine (bound_in o >> k) w
  unfolding bound_in
  bound_in-Fine none k w h later = later [] "child bound read end of pipe to stdin failed...\n"
  bound_in-Fine (some n) k w h later = h

  close_out :
      (w : World) → shut src w.trace ≡ true → Good w → Fine (number (close dst) >>= lister_closed) w
  close_out w s g = number-Keeps Allowed Never (close dst) lister_closed w tt g (λ q more.
      lister_closed-Fine q.result _ (shut_still _ src w.trace s) (shut_now dst q.result w.trace)
        (tt, g))

  lister-Fine :
      (o : Option ℕ) (w : World)
      → (worked o ≡ true → shut src w.trace ≡ true)
      → Good w
      → Fine (lister dst o) w
  unfolding lister
  lister-Fine none w s g = g
  lister-Fine (some n) w s g =
      if-Keeps Allowed Never (dst == 1) (replace "ls") _ w
        (λ e. replace-Fine "ls" w (inl (refl, s refl, inl (ground (arith, e)))) g)
        (λ e.
          number-Keeps Allowed Never (dup2 dst 1)
            (λ bound. bound_out bound >> (number (close dst) >>= lister_closed)) w tt g
            (λ r rest.
              bound_out-Fine r.result (number (close dst) >>= lister_closed)
                (answered (dup2 dst 1) r rest w) (close_out _ (s refl) (tt, g))
                (λ args format. close_out _ (s refl) (tt, g))))

  counter_closed-Fine :
      (o : Option ℕ) (w : World)
      → shut dst w.trace ≡ true
      → (worked o ≡ true → shut src w.trace ≡ true)
      → Good w
      → Fine (counter_closed o) w
  unfolding counter_closed
  counter_closed-Fine none w d s g = g
  counter_closed-Fine (some n) w d s g = replace-Fine "wc -l" w (inr (refl, d, inr (s refl))) g

  close_in :
      (w : World)
      → shut dst w.trace ≡ true
      → Good w
      → Fine (number (close src) >>= counter_closed) w
  close_in w d g = number-Keeps Allowed Never (close src) counter_closed w tt g (λ q more.
      counter_closed-Fine q.result _ (shut_still _ dst w.trace d) (shut_now src q.result w.trace)
        (tt, g))

  counter-Fine :
      (o : Option ℕ) (w : World)
      → (worked o ≡ true → shut dst w.trace ≡ true)
      → Good w
      → Fine (counter src o) w
  unfolding counter
  counter-Fine none w d g = g
  counter-Fine (some n) w d g =
      if-Keeps Allowed Never (src == 0) (replace "wc -l") _ w
        (λ e. replace-Fine "wc -l" w (inr (refl, d refl, inl (ground (arith, e)))) g)
        (λ e.
          number-Keeps Allowed Never (dup2 src 0)
            (λ bound. bound_in bound >> (number (close src) >>= counter_closed)) w tt g
            (λ r rest.
              bound_in-Fine r.result (number (close src) >>= counter_closed)
                (answered (dup2 src 0) r rest w) (close_in _ (d refl) (tt, g))
                (λ args format. close_in _ (d refl) (tt, g))))

  both_closed-Fine :
      (o : Option ℕ) (w : World)
      → shut src w.trace ≡ true
      → (worked o ≡ true → shut dst w.trace ≡ true)
      → Good w
      → Fine (both_closed o) w
  unfolding both_closed
  both_closed-Fine none w s d g = g
  both_closed-Fine (some n) w s d g =
      run-Keeps Allowed Never wait _ w (s, d refl) g (λ r rest. ((s, d refl), g))

  one_closed-Fine :
      (o : Option ℕ) (w : World)
      → (worked o ≡ true → shut src w.trace ≡ true)
      → Good w
      → Fine (one_closed dst o) w
  unfolding one_closed
  one_closed-Fine none w s g = g
  one_closed-Fine (some n) w s g =
      number-Keeps Allowed Never (close dst) both_closed w tt g (λ q more.
        both_closed-Fine q.result _ (shut_still _ src w.trace (s refl))
          (shut_now dst q.result w.trace) (tt, g))

  second-Fine : (o : Option ℕ) (w : World) → Good w → Fine (second src dst o) w
  unfolding second
  second-Fine none w g = g
  second-Fine (some zero) w g =
      number-Keeps Allowed Never (close dst) (counter src) w tt g
        (λ q more. counter-Fine q.result _ (shut_now dst q.result w.trace) (tt, g))
  second-Fine (some (suc pid)) w g =
      number-Keeps Allowed Never (close src) (one_closed dst) w tt g
        (λ q more. one_closed-Fine q.result _ (shut_now src q.result w.trace) (tt, g))

  first-Fine : (o : Option ℕ) (w : World) → Good w → Fine (first src dst o) w
  unfolding first
  first-Fine none w g = g
  first-Fine (some zero) w g =
      number-Keeps Allowed Never (close src) (lister dst) w tt g
        (λ q more. lister-Fine q.result _ (shut_now src q.result w.trace) (tt, g))
  first-Fine (some (suc pid)) w g =
      number-Keeps Allowed Never fork (second src dst) w tt g
        (λ r rest. second-Fine r.result _ (tt, g))

  -- Behind a history that obeys the rule, in the parent and in both children: a program is started
  -- only when the end of the pipe that it does not use is closed, and the other one too, unless it
  -- has the number of the standard descriptor that it stands for; and the parent waits only when
  -- both are closed.
  pub after_pipe-Keeps :
      (o : Option ℕ) (w : World)
      → Always Allowed w.trace
      → Keeps Allowed Never (after_pipe src dst o w)
  unfolding after_pipe
  after_pipe-Keeps none w g = g
  after_pipe-Keeps (some n) w g =
      number-Keeps Allowed Never fork (first src dst) w tt g
        (λ r rest. first-Fine r.result _ (tt, g))

-- ===== src/Sys/Discipline.antt =====
-- Rules on the calls that a program makes, which say of each, the one that it waits in included, what
-- history it may be made behind.
use study_linux_kernel.Base.{ℕ, ◌≡◌, refl, List, [], ◌∷◌, Option, Bool, true, false, if◌then◌else◌}
use study_linux_kernel.Sys.Calls.{Call, Reply, Trace}
use study_linux_kernel.Sys.Traces.{Always}
use study_linux_kernel.Sys.Monad.{
  World, Outcome, done, exited, blocked, faulted, unfinished, M, number, run, answered, ◌>>=◌, ◌>>◌,
}

abbrev pub Rule : Type 1
Rule = Call → Trace → Type 0

module _ (Q : Rule) where
  -- A run that is out of fuel never satisfies it.
  abbrev pub Keeps : {A : Type 0} → (A → World → Type 0) → Outcome A → Type 0
  Keeps P (done a w) = P a w × Always Q w.trace
  Keeps P (exited n w) = Always Q w.trace
  Keeps P (blocked c w) = Q c w.trace × Always Q w.trace
  Keeps P (faulted e w) = Always Q w.trace
  Keeps P (unfinished w) = ⊥

  pub number-Keeps :
      {A : Type 0} (P : A → World → Type 0) (c : Call) (f : Option ℕ → M A) (w : World)
      → Q c w.trace
      → Always Q w.trace
      → ((r : Reply) (rest : List Reply) → Keeps P (f r.result (answered c r rest w)))
      → Keeps P ((number c >>= f) w)
  number-Keeps {A} P c f w = go w.replies w.trace w.errno
    where
      go :
          (rs : List Reply) (t : Trace) (e : ℕ)
          → Q c t
          → Always Q t
          → ((r : Reply) (rest : List Reply)
              → Keeps P
                  (f r.result (answered c r rest (record { replies = rs; trace = t; errno = e }))))
          → Keeps P ((number c >>= f) (record { replies = rs; trace = t; errno = e }))
      go [] t e q o next = (q, o)
      go (r ∷ rest) t e q o next = next r rest

  pub run-Keeps :
      {A : Type 0} (P : A → World → Type 0) (c : Call) (f : M A) (w : World)
      → Q c w.trace
      → Always Q w.trace
      → ((r : Reply) (rest : List Reply) → Keeps P (f (answered c r rest w)))
      → Keeps P ((run c >> f) w)
  run-Keeps {A} P c f w = go w.replies w.trace w.errno
    where
      go :
          (rs : List Reply) (t : Trace) (e : ℕ)
          → Q c t
          → Always Q t
          → ((r : Reply) (rest : List Reply)
              → Keeps P (f (answered c r rest (record { replies = rs; trace = t; errno = e }))))
          → Keeps P ((run c >> f) (record { replies = rs; trace = t; errno = e }))
      go [] t e q o next = (q, o)
      go (r ∷ rest) t e q o next = next r rest

  pub if-Keeps :
      {A : Type 0} (P : A → World → Type 0) (b : Bool) (m k : M A) (w : World)
      → (b ≡ true → Keeps P (m w))
      → (b ≡ false → Keeps P (k w))
      → Keeps P ((if b then m else k) w)
  if-Keeps P true m k w x y = x refl
  if-Keeps P false m k w x y = y refl

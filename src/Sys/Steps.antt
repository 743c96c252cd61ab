-- ===== src/Sys/Steps.antt =====
-- The rules for a run that begins with a call: it waits there, or goes on with a reply.
use study_linux_kernel.Base.{ℕ, ◌≡◌, refl, List, [], ◌∷◌, Option}
use study_linux_kernel.Base.Run.{Run, ok, fault, Fault}
use study_linux_kernel.Sys.Calls.{Call, Reply, Text, Trace, received}
use study_linux_kernel.Sys.Monad.{
  World, Outcome, done, exited, blocked, faulted, unfinished, M, sys, number, input, run, lift,
  answered, ◌>>=◌, ◌>>◌,
}
use study_linux_kernel.Sys.Loops.{Stops, Ends}

module _ {A : Type 0} (P : A → World → Type 0) (h : Stops) (c : Call) where
  -- What is to be shown behind the call, whatever its reply.
  abbrev pub Answered : World → (Reply → World → Type 0) → Type 0
  Answered w Then =
      (r : Reply) (rest : List Reply) → w.replies ≡ r ∷ rest → Then r (answered c r rest w)

  pub sys-Ends :
      (f : Reply → M A) (w : World)
      → h.waits w
      → Answered w (λ r v. Ends P h (f r v))
      → Ends P h ((sys c >>= f) w)
  sys-Ends f w = go w.replies w.trace w.errno
    where
      go :
          (rs : List Reply) (t : Trace) (e : ℕ)
          → h.waits (record { replies = rs; trace = t; errno = e })
          → Answered (record { replies = rs; trace = t; errno = e }) (λ r v. Ends P h (f r v))
          → Ends P h ((sys c >>= f) (record { replies = rs; trace = t; errno = e }))
      go [] t e wait next = wait
      go (r ∷ rest) t e wait next = next r rest refl

  pub number-Ends :
      (f : Option ℕ → M A) (w : World)
      → h.waits w
      → Answered w (λ r v. Ends P h (f r.result v))
      → Ends P h ((number c >>= f) w)
  number-Ends f w = go w.replies w.trace w.errno
    where
      go :
          (rs : List Reply) (t : Trace) (e : ℕ)
          → h.waits (record { replies = rs; trace = t; errno = e })
          → Answered
              (record { replies = rs; trace = t; errno = e })
              (λ r v. Ends P h (f r.result v))
          → Ends P h ((number c >>= f) (record { replies = rs; trace = t; errno = e }))
      go [] t e wait next = wait
      go (r ∷ rest) t e wait next = next r rest refl

  pub input-Ends :
      (n : ℕ) (f : Option Text → M A) (w : World)
      → h.waits w
      → Answered w (λ r v. Ends P h (f (received n r) v))
      → Ends P h ((input n c >>= f) w)
  input-Ends n f w = go w.replies w.trace w.errno
    where
      go :
          (rs : List Reply) (t : Trace) (e : ℕ)
          → h.waits (record { replies = rs; trace = t; errno = e })
          → Answered
              (record { replies = rs; trace = t; errno = e })
              (λ r v. Ends P h (f (received n r) v))
          → Ends P h ((input n c >>= f) (record { replies = rs; trace = t; errno = e }))
      go [] t e wait next = wait
      go (r ∷ rest) t e wait next = next r rest refl

  pub run-Ends :
      (f : M A) (w : World)
      → h.waits w
      → Answered w (λ r v. Ends P h (f v))
      → Ends P h ((run c >> f) w)
  run-Ends f w = go w.replies w.trace w.errno
    where
      go :
          (rs : List Reply) (t : Trace) (e : ℕ)
          → h.waits (record { replies = rs; trace = t; errno = e })
          → Answered (record { replies = rs; trace = t; errno = e }) (λ r v. Ends P h (f v))
          → Ends P h ((run c >> f) (record { replies = rs; trace = t; errno = e }))
      go [] t e wait next = wait
      go (r ∷ rest) t e wait next = next r rest refl

pub call-Ends :
    (P : Reply → World → Type 0) (h : Stops) (c : Call) (w : World)
    → h.waits w
    → Answered P h c w P
    → Ends P h (sys c w)
call-Ends P h c w = go w.replies w.trace w.errno
  where
    go :
        (rs : List Reply) (t : Trace) (e : ℕ)
        → h.waits (record { replies = rs; trace = t; errno = e })
        → Answered P h c (record { replies = rs; trace = t; errno = e }) P
        → Ends P h (sys c (record { replies = rs; trace = t; errno = e }))
    go [] t e wait next = wait
    go (r ∷ rest) t e wait next = next r rest refl

pub Ends-weaken :
    {A : Type 0} (P R : A → World → Type 0) (h : Stops) (o : Outcome A)
    → ((a : A) (w : World) → P a w → R a w)
    → Ends P h o
    → Ends R h o
Ends-weaken P R h (done a w) f e = f a w e
Ends-weaken P R h (exited n w) f e = e
Ends-weaken P R h (blocked c w) f e = e
Ends-weaken P R h (faulted x w) f e = e
Ends-weaken P R h (unfinished w) f e = e

-- What a computation of the program's own data made.
pub lift-made :
    {A : Type 0} (P : A → World → Type 0) (h : Stops) (r : Run A) (w : World)
    → ((a : A) → r ≡ ok a → P a w)
    → ((e : Fault) → h.faults e w)
    → Ends P h (lift r w)
lift-made P h (ok a) w f g = f a refl
lift-made P h (fault e) w f g = g e

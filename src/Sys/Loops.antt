-- ===== src/Sys/Loops.antt =====
-- Loops of programs on fuel, and the rule by which they are proved.
use study_linux_kernel.Base.{ℕ, zero, suc, ◌<◌, Bool, true, false, if◌then◌else◌, arith, length}
use study_linux_kernel.Base.Run.{Run, ok, fault, Fault}
use study_linux_kernel.Sys.Monad.{
  World, Outcome, done, exited, blocked, faulted, unfinished, M, lift, ◌>>=◌, ◌>>◌,
}

-- A round goes on with a new state, or ends the loop: `continue`, or `break`.
pub data Next (S A : Type 0) : Type 0 where
  again : S → Next S A
  finish : A → Next S A

after : {S A : Type 0} → (S → M A) → Outcome (Next S A) → Outcome A
after k (done (again s) w) = k s w
after k (done (finish a) w) = done a w
after k (exited n w) = exited n w
after k (blocked c w) = blocked c w
after k (faulted e w) = faulted e w
after k (unfinished w) = unfinished w

unfoldable pub loop : {S A : Type 0} → ℕ → (S → M (Next S A)) → S → M A
unfolding after
loop zero body s w = unfinished w
loop (suc fuel) body s w = after (loop fuel body) (body s w)

-- What should hold where a run stops: with a status, in a call that is not answered, at a fault.
pub record Stops : Type 1 where
  pub status : ℕ → World → Type 0
  pub waits : World → Type 0
  pub faults : Fault → World → Type 0

-- A run that is out of fuel never satisfies it.
abbrev pub Ends : {A : Type 0} → (A → World → Type 0) → Stops → Outcome A → Type 0
Ends P h (done a w) = P a w
Ends P h (exited n w) = h.status n w
Ends P h (blocked c w) = h.waits w
Ends P h (faulted e w) = h.faults e w
Ends P h (unfinished w) = ⊥

-- A program that comes back to no caller.
abbrev pub Never : Unit {0} → World → Type 0
Never _ w = ⊥

-- After a round that goes on the invariant holds and a reply has been used up.
abbrev pub Round :
    {S A : Type 0} → (S → World → Type 0) → (A → World → Type 0) → World → Next S A → World → Type 0
Round I P w (again s) w' = I s w' × (length w'.replies < length w.replies)
Round I P w (finish a) w' = P a w'

module _ {S A : Type 0} (I : S → World → Type 0) (P : A → World → Type 0) (h : Stops) where
  after-Ends :
      (k : S → M A) (w : World) (o : Outcome (Next S A))
      → ((s : S) (w' : World) → I s w' → length w'.replies < length w.replies → Ends P h (k s w'))
      → Ends (Round I P w) h o
      → Ends P h (after k o)
  unfolding after
  after-Ends k w (done (again s) w') next e = next s w' e.0 e.1
  after-Ends k w (done (finish a) w') next e = e
  after-Ends k w (exited n w') next e = e
  after-Ends k w (blocked c w') next e = e
  after-Ends k w (faulted f w') next e = e
  after-Ends k w (unfinished w') next e = e

  -- With more fuel than replies a loop ends, and keeps what each of its rounds keeps.
  pub loop-Ends :
      (body : S → M (Next S A))
      → ((s : S) (w : World) → I s w → Ends (Round I P w) h (body s w))
      → (fuel : ℕ) (s : S) (w : World) → length w.replies < fuel
      → I s w
      → Ends P h (loop fuel body s w)
  unfolding loop
  loop-Ends body keep zero s w f i = absurd (omega arith)
  loop-Ends body keep (suc fuel) s w f i =
      after-Ends (loop fuel body) w (body s w)
        (λ s' w' i' less. loop-Ends body keep fuel s' w' (omega arith) i') (keep s w i)

-- A run behind another starts from what that one leaves.
pub bind-Ends :
    {A C : Type 0} (Q : C → World → Type 0) (P : A → World → Type 0) (h : Stops) (m : M C)
    (f : C → M A) (w : World)
    → Ends Q h (m w)
    → ((c : C) (w' : World) → Q c w' → Ends P h (f c w'))
    → Ends P h ((m >>= f) w)
bind-Ends {A} {C} Q P h m f w e k = go (m w) e
  where
    go :
        (o : Outcome C)
        → Ends Q h o
        → Ends P h (elim o [
          | done a w' ↦ f a w'
          | exited n w' ↦ exited n w'
          | blocked c w' ↦ blocked c w'
          | faulted x w' ↦ faulted x w'
          | unfinished w' ↦ unfinished w'
        ])
    go (done a w') e = k a w' e
    go (exited n w') e = e
    go (blocked c w') e = e
    go (faulted x w') e = e
    go (unfinished w') e = e

-- What is kept by two runs is kept by one behind the other.
pub then-Ends :
    {A : Type 0} (P : World → Type 0) (h : Stops) (m : M (Unit {0})) (k : M A) (w : World)
    → Ends (λ _. P) h (m w)
    → ((w' : World) → P w' → Ends (λ _. P) h (k w'))
    → Ends (λ _. P) h ((m >> k) w)
then-Ends P h m k w e next = bind-Ends (λ _. P) (λ _. P) h m (λ _. k) w e (λ _. next)

-- A computation of the program's own data changes nothing else.
pub lift-Ends :
    {A : Type 0} (P : World → Type 0) (h : Stops) (r : Run A) (w : World)
    → P w
    → ((e : Fault) → h.faults e w)
    → Ends (λ _. P) h (lift r w)
lift-Ends P h (ok a) w p f = p
lift-Ends P h (fault e) w p f = f e

pub if-Ends :
    {A : Type 0} (P : A → World → Type 0) (h : Stops) (b : Bool) (m k : M A) (w : World)
    → Ends P h (m w)
    → Ends P h (k w)
    → Ends P h ((if b then m else k) w)
if-Ends P h true m k w x y = x
if-Ends P h false m k w x y = y

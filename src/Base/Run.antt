-- ===== src/Base/Run.antt =====
-- Runs that may do what C leaves undefined. A run stops at the first such fault.

-- A copy past the end of an array, a use of NULL, an index that was not allocated, and a read of
-- memory that was never written.
pub data Fault : Type 0 where
  buffer_overflow null_pointer out_of_bounds indeterminate : Fault

pub data Run {ℓ} (A : Type ℓ) : Type ℓ where
  ok : A → Run A
  fault : Fault → Run A

infixl 5 ◌>>=◌
abbrev pub ◌>>=◌ {ℓ κ} : {A : Type ℓ} {B : Type κ} → Run A → (A → Run B) → Run B
ok a >>= f = f a
fault e >>= f = fault e

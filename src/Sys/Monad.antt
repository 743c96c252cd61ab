-- ===== src/Sys/Monad.antt =====
-- Programs: a run takes the replies that the environment has ready, and records what it does.
use Prim.Native.String.{String}
use study_linux_kernel.Base.{
  ℕ, List, [], ◌∷◌, Option, none, some, ◌||◌, ltb, if◌then◌else◌, length, has_nul, c_string,
}
use study_linux_kernel.Base.Run.{Fault, Run, ok, fault, out_of_bounds}
use study_linux_kernel.Sys.Calls.{Call, Reply, made, printed, Trace, Arg, Text, received}

pub record World : Type 0 where
  pub replies : List Reply
  pub trace : Trace
  pub errno : ℕ

-- A value, the end of the process with a status, a call that is not answered, something that C
-- leaves undefined, or a loop that has used up its fuel.
pub data Outcome {ℓ} (A : Type ℓ) : Type ℓ where
  done : A → World → Outcome A
  exited : ℕ → World → Outcome A
  blocked : Call → World → Outcome A
  faulted : Fault → World → Outcome A
  unfinished : World → Outcome A

abbrev pub M : Type 0 → Type 0
M A = World → Outcome A

abbrev pub pure : {A : Type 0} → A → M A
pure a w = done a w

infixl 5 ◌>>=◌ ◌>>◌
abbrev pub ◌>>=◌ : {A B : Type 0} → M A → (A → M B) → M B
◌>>=◌ m f w = elim (m w) [
  | done a w' ↦ f a w'
  | exited n w' ↦ exited n w'
  | blocked c w' ↦ blocked c w'
  | faulted e w' ↦ faulted e w'
  | unfinished w' ↦ unfinished w'
]

abbrev pub ◌>>◌ : {B : Type 0} → M (Unit {0}) → M B → M B
m >> k = m >>= λ _. k

-- `exit(n)`, and `return n` from `main`.
abbrev pub exit : {A : Type 0} → ℕ → M A
exit n w = exited n w

abbrev pub undefined : {A : Type 0} → Fault → M A
undefined e w = faulted e w

-- A computation of the program's own data.
abbrev pub lift : {A : Type 0} → Run A → M A
lift (ok a) w = done a w
lift (fault e) w = faulted e w

-- A failed call sets `errno`.
abbrev pub errno_after : Reply → ℕ → ℕ
errno_after r e = elim r.result [ none ↦ r.errno | some _ ↦ e ]

abbrev pub answered : Call → Reply → List Reply → World → World
answered c r rest w = record {
  replies = rest;
  trace = made c r ∷ w.trace;
  errno = errno_after r w.errno;
}

abbrev pub sys : Call → M Reply
sys c w = elim w.replies [ [] ↦ blocked c w | r ∷ rest ↦ done r (answered c r rest w) ]

-- A call used for its number, for the bytes that it stores, and for its effect alone.
abbrev pub number : Call → M (Option ℕ)
number c = sys c >>= λ r. pure r.result

abbrev pub input : ℕ → Call → M (Option Text)
input n c = sys c >>= λ r. pure (received n r)

abbrev pub run : Call → M (Unit {0})
run c = sys c >>= λ _. pure tt

-- `fprintf` and `printf`.
abbrev pub say : String → List Arg → M (Unit {0})
say format args w = done tt (record w { trace = printed format args ∷ w.trace })

abbrev pub get_errno : M ℕ
get_errno w = done w.errno w

-- The C string in an array of `size` bytes that was zeroed before `bytes` were stored in it: its
-- length is taken by reading up to the first NUL, past the end where there is none.
unfoldable pub string_in : ℕ → Text → Run Text
string_in size bytes =
    if ltb (length bytes) size || has_nul bytes then ok (c_string bytes) else fault out_of_bounds

-- ===== src/Base/Bytes.antt =====
-- Bytes and C strings. A C string is the list of its bytes before the terminating NUL.
use Prim.Native.Nat.{ℕ, ◌+◌, ◌/◌, ◌%◌}
use Prim.Native.Char.{code}
use Prim.Native.String.{String}
use mathlib.Core.Path.{◌≡◌, refl}
use mathlib.Core.List.{List, [], ◌∷◌, ◌++◌}
use mathlib.Core.Logic.{◌↔◌, inl, inr}
use mathlib.Core.Bool.{Bool, true, false, ◌&&◌, ◌||◌}
use native.Mathlib.Omega.{arith}
use study_linux_kernel.Base.Tests.{◌==◌, ltb, if◌then◌else◌, Bool-cases}

-- `strcmp(s, t) == 0`
unfoldable pub str_eq : List ℕ → List ℕ → Bool
str_eq [] [] = true
str_eq [] (y ∷ t) = false
str_eq (x ∷ s) [] = false
str_eq (x ∷ s) (y ∷ t) = x == y && str_eq s t

pub str_eq_iff : (s t : List ℕ) → (str_eq s t ≡ true) ↔ (s ≡ t)
unfolding str_eq
str_eq_iff [] [] = ground arith
str_eq_iff [] (y ∷ t) = ground arith
str_eq_iff (x ∷ s) [] = ground arith
str_eq_iff (x ∷ s) (y ∷ t) = ground (arith, str_eq_iff s t)

pub str_eq_refl : (s : List ℕ) → str_eq s s ≡ true
str_eq_refl s = (str_eq_iff s s).1 refl

-- The bytes before the first NUL.
unfoldable pub c_string : List ℕ → List ℕ
c_string [] = []
c_string (b ∷ bs) = if b == 0 then [] else b ∷ c_string bs

unfoldable pub has_nul : List ℕ → Bool
has_nul [] = false
has_nul (b ∷ bs) = b == 0 || has_nul bs

c_string_end : (b : ℕ) (bs : List ℕ) → (b == 0) ≡ true → c_string (b ∷ bs) ≡ []
unfolding c_string
c_string_end b bs e = rw e refl

c_string_byte : (b : ℕ) (bs : List ℕ) → (b == 0) ≡ false → c_string (b ∷ bs) ≡ b ∷ c_string bs
unfolding c_string
c_string_byte b bs e = rw e refl

c_string_nil : (t : List ℕ) → c_string (0 ∷ t) ≡ []
unfolding c_string
c_string_nil t = refl

-- A string with its NUL, whatever stands behind it.
pub c_string_ended : (s t : List ℕ) → c_string (c_string s ++ (0 ∷ t)) ≡ c_string s
c_string_ended [] t = unfold c_string in refl
c_string_ended (b ∷ bs) t = elim (Bool-cases (b == 0)) [
  | inl e ↦ rw (c_string_end b bs e) (c_string_nil t)
  | inr e ↦
      rw (c_string_byte b bs e, c_string_byte b (c_string bs ++ (0 ∷ t)) e, c_string_ended bs t)
        refl
]

pub c_string_idem : (s : List ℕ) → c_string (c_string s) ≡ c_string s
c_string_idem [] = unfold c_string in refl
c_string_idem (b ∷ bs) = elim (Bool-cases (b == 0)) [
  | inl e ↦ rw (c_string_end b bs e) (unfold c_string in refl)
  | inr e ↦ rw (c_string_byte b bs e, c_string_byte b (c_string bs) e, c_string_idem bs) refl
]

pub has_nul_ended : (s t : List ℕ) → has_nul (s ++ (0 ∷ t)) ≡ true
unfolding has_nul
has_nul_ended [] t = refl
has_nul_ended (b ∷ bs) t = ground (arith, has_nul_ended bs t)

pub has_nul-c_string : (s : List ℕ) → has_nul (c_string s) ≡ false
unfolding has_nul c_string
has_nul-c_string [] = refl
has_nul-c_string (b ∷ bs) = ground (arith, has_nul-c_string bs)

unfoldable pub starts_with : List ℕ → List ℕ → Bool
starts_with [] t = true
starts_with (x ∷ s) [] = false
starts_with (x ∷ s) (y ∷ t) = x == y && starts_with s t

-- `strstr(t, s) != NULL`
unfoldable pub occurs_in : List ℕ → List ℕ → Bool
occurs_in s [] = starts_with s []
occurs_in s (y ∷ t) = starts_with s (y ∷ t) || occurs_in s t

-- A bit of a mask, given as its value.
unfoldable pub has_bit : ℕ → ℕ → Bool
has_bit mask bit = (mask / bit) % 2 == 1

unfoldable pub mem : ℕ → List ℕ → Bool
mem x [] = false
mem x (y ∷ ys) = x == y || mem x ys

-- The bytes of a literal in UTF-8, for code points of up to 16 bits, in front of others.
unfoldable pub utf8_char : ℕ → List ℕ → List ℕ
utf8_char c rest =
    if ltb c 128
    then c ∷ rest
    else if ltb c 2048
    then (192 + c / 64) ∷ (128 + c % 64) ∷ rest
    else (224 + c / 4096) ∷ (128 + c / 64 % 64) ∷ (128 + c % 64) ∷ rest

unfoldable pub utf8 : String → List ℕ
unfolding utf8_char
utf8 String.[] = []
utf8 (String.◌∷◌ c s) = utf8_char (code c) (utf8 s)

utf8_example : utf8 "a 欢" ≡ b'a' ∷ b' ' ∷ 230 ∷ 172 ∷ 162 ∷ []
unfolding utf8
utf8_example = refl

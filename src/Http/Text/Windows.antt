-- ===== src/Http/Text/Windows.antt =====
-- The window of `splitstr`: the last bytes that the loop has read.
use study_linux_kernel.Base.{
  ℕ, ◌<◌, ◌≤◌, ◌≡◌, refl, ap, ◌∙◌, [], ◌∷◌, ◌++◌, append_assoc, Bool-cases, inl, inr, ltb, length,
  length-append, drop, min, arith,
}
use study_linux_kernel.Sys.Calls.{Text}
use study_linux_kernel.Http.Text.{slide}

-- Two ways to write a text as a front and a back: the longer back ends in the shorter.
pub longer_back :
    (x y u v : Text)
    → x ++ u ≡ y ++ v
    → length v ≤ length u
    → (b : Text) × (u ≡ b ++ v) × (y ≡ x ++ b)
longer_back [] y u v e le = (y, e, refl)
longer_back (c ∷ x) [] u v e le =
    absurd (omega (arith, ap (λ (t : Text). length t) e, length-append x u))
longer_back (c ∷ x) (d ∷ y) u v e le =
    let tails : x ++ u ≡ y ++ v = cc in
    let same : d ≡ c = cc in let (b, eu, ey) = longer_back x y u v tails le in (b, eu, cc)

-- The window holds the last `width` bytes, or all where there are fewer.
pub record Seen (width : ℕ) (before window : Text) : Type 0 where
  pub start : Text
  pub splits : before ≡ start ++ window
  pub full : length window ≡ min width (length before)

slide_short :
    (width ch : ℕ) (before window : Text)
    → length window < width
    → Seen width before window
    → Seen width (before ++ (ch ∷ [])) (window ++ (ch ∷ []))
slide_short width ch before window short h = record {
  start = h.start;
  splits = ap (λ (t : Text). t ++ (ch ∷ [])) h.splits ∙ append_assoc h.start window (ch ∷ []);
  full = omega (arith, h.full, length-append window (ch ∷ []), length-append before (ch ∷ []));
}

slide_full :
    (width ch : ℕ) (before window : Text)
    → 0 < width
    → width ≤ length window
    → Seen width before window
    → Seen width (before ++ (ch ∷ [])) (drop 1 window ++ (ch ∷ []))
slide_full width ch before [] pos long h = absurd (omega arith)
slide_full width ch before (b ∷ window) pos long h = record {
  start = h.start ++ (b ∷ []);
  splits = unfold drop in ap (λ (t : Text). t ++ (ch ∷ [])) h.splits ∙ (simp append_assoc);
  full =
      unfold drop in
      omega (arith, h.full, length-append window (ch ∷ []), length-append before (ch ∷ []));
}

pub slide-Seen :
    (width ch : ℕ) (before window : Text)
    → 0 < width
    → Seen width before window
    → Seen width (before ++ (ch ∷ [])) (slide width window ch)
unfolding slide
slide-Seen width ch before window pos h = elim (Bool-cases (ltb (length window) width)) [
  | inl short ↦ rw short (slide_short width ch before window (ground arith) h)
  | inr long ↦ rw long (slide_full width ch before window pos (ground arith) h)
]

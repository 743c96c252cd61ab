-- ===== src/SelectServer/Watching.antt =====
-- The first argument of `select` in study-linux-kernel/socket/socket-server-http-select.cpp and
-- socket-server-tcp-select.cpp.
use study_linux_kernel.Base.{
  ℕ, suc, ◌+◌, ◌-◌, ◌<◌, ◌≤◌, ◌≡◌, List, [], ◌∷◌, true, false, ◌==◌, ltb, Bool-cases, inl, inr, ◌⊎◌,
  if◌then◌else◌, mem, arith, sym, ◌∙◌,
}
use study_linux_kernel.SelectServer.{Fds, insert_fd, max_fd}

-- Strictly ascending, from `low` on.
abbrev pub AscendFrom : ℕ → Fds → Type 0
AscendFrom low [] = Unit {0}
AscendFrom low (fd ∷ fds) = (low ≤ fd) × AscendFrom (suc fd) fds

pub AscendFrom-lower : (low up : ℕ) (fds : Fds) → low ≤ up → AscendFrom up fds → AscendFrom low fds
AscendFrom-lower low up [] h a = tt
AscendFrom-lower low up (fd ∷ fds) h a = (omega (arith, a.0), a.1)

pub insert_fd-AscendFrom :
    (low fd : ℕ) (fds : Fds) → low ≤ fd → AscendFrom low fds → AscendFrom low (insert_fd fd fds)
unfolding insert_fd
insert_fd-AscendFrom low fd [] h a = (h, tt)
insert_fd-AscendFrom low fd (x ∷ xs) h a = elim (Bool-cases (ltb fd x)) [
  | inl b ↦ rw b (h, (ground arith, a.1))
  | inr b ↦ elim (Bool-cases (fd == x)) [
    | inl c ↦ rw (b, c) a
    | inr c ↦ rw (b, c) (a.0, insert_fd-AscendFrom (suc x) fd xs (ground arith) a.1)
  ]
]

pub mem-above : (low fd : ℕ) (fds : Fds) → AscendFrom low fds → mem fd fds ≡ true → low ≤ fd
unfolding mem
mem-above low fd [] a i = absurd (cc)
mem-above low fd (x ∷ xs) a i = elim (Bool-cases (fd == x)) [
  | inl b ↦ ground (arith, a.0)
  | inr b ↦ omega (arith, a.0, mem-above (suc x) fd xs a.1 (ground arith))
]

max_fd-above : (fds : Fds) (m : ℕ) → m ≤ max_fd m fds
unfolding max_fd
max_fd-above [] m = omega arith
max_fd-above (x ∷ xs) m = elim (Bool-cases (ltb m x)) [
  | inl b ↦ rw b (ground (arith, max_fd-above xs (x + 1)))
  | inr b ↦ rw b (max_fd-above xs m)
]

mem_later : (x y : ℕ) (xs : List ℕ) → mem x xs ≡ true → mem x (y ∷ xs) ≡ true
unfolding mem
mem_later x y xs h = ground arith

-- Above the bound `m` of what comes before: watched, or just at the bound that is reached, which
-- is `m` or comes from the descriptor below.
abbrev Placed : ℕ → Fds → ℕ → Type 0
Placed m fds fd =
    (fd < max_fd m fds) ⊎ ((max_fd m fds ≡ fd) × ((fd ≡ m) ⊎ (mem (fd - 1) fds ≡ true)))

reached : (m r : ℕ) → m ≤ r → (m < r) ⊎ (r ≡ m)
reached m r h = elim (Bool-cases (ltb m r)) [
  | inl b ↦ inl (ground arith)
  | inr b ↦ inr (ground arith)
]

Placed-here : (x fd m : ℕ) (xs : Fds) → fd ≡ x → m ≤ x → Placed m (x ∷ xs) fd
unfolding max_fd
Placed-here x fd m xs e h = elim (Bool-cases (ltb m x)) [
  | inl b ↦ rw b (inl (omega (arith, max_fd-above xs (x + 1))))
  | inr b ↦
      let same : fd ≡ m = ground arith in
      elim (reached m (max_fd m xs) (max_fd-above xs m)) [
        | inl c ↦ rw b (inl (omega arith))
        | inr c ↦ rw b (inr (c ∙ sym same, inl same))
      ]
]

Placed-later :
    (x m fd : ℕ) (xs : Fds) → Placed (if ltb m x then x + 1 else m) xs fd → Placed m (x ∷ xs) fd
unfolding max_fd
Placed-later x m fd xs (inl h) = inl h
Placed-later x m fd xs (inr (h, inl same)) = elim (Bool-cases (ltb m x)) [
  | inl b ↦ inr (h, inr (unfold mem in ground arith))
  | inr b ↦ inr (h, inl (ground arith))
]
Placed-later x m fd xs (inr (h, inr i)) = inr (h, inr (mem_later (fd - 1) x xs i))

max_fd-Placed :
    (fds : Fds) (m last fd : ℕ)
    → m ≤ suc last
    → AscendFrom (suc last) fds
    → mem fd fds ≡ true
    → Placed m fds fd
unfolding mem
max_fd-Placed [] m last fd h a i = absurd (cc)
max_fd-Placed (x ∷ xs) m last fd h a i = elim (Bool-cases (fd == x)) [
  | inl b ↦ let same : fd ≡ x = ground arith in Placed-here x fd m xs same (omega (arith, a.0))
  | inr b ↦ Placed-later x m fd xs (
      max_fd-Placed xs (if ltb m x then x + 1 else m) x fd (ground (arith, a.0)) a.1 (ground arith))
]

pair_gap : (fd : ℕ) → 0 < fd → max_fd 0 (fd ∷ suc fd ∷ []) ≡ suc fd
unfolding max_fd
pair_gap fd h =
    let first : ltb 0 fd ≡ true = ground arith in
    let second : ltb (fd + 1) (suc fd) ≡ false = ground arith in rw (first, second) (omega arith)

-- Of accepted descriptors above 0 in ascending order, `select` looks at each, except possibly at one
-- that is equal to the bound it is called with, and that happens only where the descriptor just below
-- it is accepted too; and where a descriptor and the next number are all that is accepted, it does
-- happen: the bound is the larger of them.
pub max_fd_lem :
    (fds : Fds) (fd : ℕ)
    → AscendFrom 1 fds
    → mem fd fds ≡ true
    → ((fd < max_fd 0 fds) ⊎ ((max_fd 0 fds ≡ fd) × (mem (fd - 1) fds ≡ true)))
      × (max_fd 0 (fd ∷ suc fd ∷ []) ≡ suc fd)
max_fd_lem fds fd a i = (
  elim (max_fd-Placed fds 0 0 fd (omega arith) a i) [
    | inl h ↦ inl h
    | inr (h, inl none_below) ↦ absurd (omega (arith, mem-above 1 fd fds a i))
    | inr (h, inr j) ↦ inr (h, j)
  ],
  pair_gap fd (omega (arith, mem-above 1 fd fds a i)),
)

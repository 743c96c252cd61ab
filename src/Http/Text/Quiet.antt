-- ===== src/Http/Text/Quiet.antt =====
-- The bytes at which `splitstr` has no separator behind it, and those at which it has one.
use study_linux_kernel.Base.{
  ℕ, suc, ◌<◌, ◌≡◌, refl, ap, sym, ◌∙◌, [], ◌∷◌, ◌++◌, append-nil, append_assoc, Bool, true, false,
  ◌&&◌, Bool-cases, inl, inr, ltb, ◌==◌, length, length-append, str_eq, str_eq_iff, str_eq_refl,
  arith,
}
use study_linux_kernel.Sys.Calls.{Text}
use study_linux_kernel.Http.Text.{Split, found, cut, push_char, slide, split_loop, spent}
use study_linux_kernel.Http.Text.Windows.{longer_back, Seen, slide-Seen}
use study_linux_kernel.Http.Text.Rejoining.{length_eq}

abbrev pub Lacks : ℕ → Text → Type 0
Lacks z [] = Unit {0}
Lacks z (ch ∷ s) = ((ch == z) ≡ false) × Lacks z s

pub Lacks-append : (z : ℕ) (s t : Text) → Lacks z s → Lacks z t → Lacks z (s ++ t)
Lacks-append z [] t h k = k
Lacks-append z (ch ∷ s) t h k = (h.0, Lacks-append z s t h.1 k)

last_byte : (b : Text) (ch z : ℕ) → ch ∷ [] ≡ b ++ (z ∷ []) → ch ≡ z
last_byte [] ch z e = cc
last_byte (x ∷ []) ch z e = absurd (ground arith)
last_byte (x ∷ y ∷ b) ch z e = absurd (ground arith)

and_false : (b : Bool) → b && false ≡ false
and_false true = refl
and_false false = refl

-- A separator with its last byte `z`, which stands nowhere else in it.
abbrev pub ended_by : Text → ℕ → Text
ended_by init z = init ++ (z ∷ [])

module _ (source init : Text) (z : ℕ) where
  -- Behind another byte the window is not the separator.
  pub Seen-ne :
      (x w : Text) (ch : ℕ)
      → (ch == z) ≡ false
      → Seen (length (ended_by init z)) (x ++ (ch ∷ [])) w
      → str_eq w (ended_by init z) ≡ false
  Seen-ne x w ch other h = elim (Bool-cases (str_eq w (ended_by init z))) [
    | inr ne ↦ ne
    | inl same ↦
        let e : w ≡ (ended_by init z) = (str_eq_iff w (ended_by init z)).0 same in
        let ends : x ++ (ch ∷ []) ≡ (h.start ++ init) ++ (z ∷ []) =
          h.splits ∙ ap (λ (t : Text). h.start ++ t) e ∙ sym (append_assoc h.start init (z ∷ [])) in
        let (b, last, _) = longer_back x (h.start ++ init) (ch ∷ []) (z ∷ []) ends (omega arith) in
        let same_byte : ch ≡ z = last_byte b ch z last in ground arith
  ]

  -- Behind the separator it is.
  pub Seen-eq :
      (x w : Text)
      → Seen (length (ended_by init z)) (x ++ (ended_by init z)) w
      → w ≡ (ended_by init z)
  Seen-eq x w h =
      let (b, e, _) = longer_back x h.start (ended_by init z) w h.splits (omega (arith, h.full)) in
      no_front b e (
        omega
          (arith, h.full, length_eq _ _ e, length-append b w, length-append x (ended_by init z)))
    where
      no_front : (b : Text) → (ended_by init z) ≡ b ++ w → length b ≡ 0 → w ≡ (ended_by init z)
      no_front [] e n = sym e
      no_front (x ∷ b) e n = absurd (omega arith)

  pub split_loop_cons :
      (i : ℕ) (s : Split) (ch : ℕ) (rest : Text)
      → spent s.n_match ≡ false
      → split_loop source (ended_by init z) i s (ch ∷ rest)
        ≡ split_loop source
            (ended_by init z)
            (suc i)
            (push_char source (ended_by init z) i ch s)
            rest
  unfolding split_loop
  split_loop_cons i s ch rest h = rw h

  cut_quiet :
      (i : ℕ) (s : Split)
      → str_eq s.window (ended_by init z) ≡ false
      → cut source (ended_by init z) i s ≡ s
  unfolding cut
  cut_quiet i s h = rw (h, and_false) refl

  pub push_quiet :
      (i ch : ℕ) (s : Split)
      → str_eq s.window (ended_by init z) ≡ false
      → push_char source (ended_by init z) i ch s
        ≡ record s { window = slide (length (ended_by init z)) s.window ch }
  unfolding push_char
  push_quiet i ch s h = rw (cut_quiet i s h)

  pub push_found :
      (i ch : ℕ) (s : Split)
      → s.window ≡ (ended_by init z)
      → push_char source (ended_by init z) i ch s
        ≡ record (found source (length (ended_by init z)) i s) {
          window = slide (length (ended_by init z)) s.window ch;
        }
  unfolding push_char cut
  push_found i ch s h =
      let full : ltb (length s.window) (length (ended_by init z)) ≡ false = rw h (ground arith) in
      let same : str_eq s.window (ended_by init z) ≡ true = rw h (str_eq_refl (ended_by init z)) in
      rw (full, same)

  pub width : 0 < length (ended_by init z)
  width = omega (arith, length-append init (z ∷ []))

  -- The loop over bytes at which no window can end in the separator.
  pub record Quiet (before r : Text) (s : Split) (t : Text) : Type 0 where
    pub window : Text
    pub seen : Seen (length (ended_by init z)) (before ++ t) window
    pub other : str_eq window (ended_by init z) ≡ false
    pub goes_on :
        split_loop source (ended_by init z) (length before) s (t ++ r)
        ≡ split_loop source
            (ended_by init z)
            (length (before ++ t))
            (record s { window = window })
            r

  pub quiet :
      (t r before : Text) (s : Split)
      → Seen (length (ended_by init z)) before s.window
      → str_eq s.window (ended_by init z) ≡ false
      → Lacks z t
      → spent s.n_match ≡ false
      → Quiet before r s t
  quiet [] r before s seen other lacks more = record {
    window = s.window;
    seen = rw append-nil seen;
    other = other;
    goes_on = rw append-nil refl;
  }
  quiet (ch ∷ t) r before s seen other lacks more =
      let w = slide (length (ended_by init z)) s.window ch in
      let seen' = slide-Seen (length (ended_by init z)) ch before s.window width seen in
      let q =
        quiet t r (before ++ (ch ∷ [])) (record s { window = w }) seen'
          (Seen-ne before w ch lacks.0 seen') lacks.1 more in
      let n : length (before ++ (ch ∷ [])) ≡ suc (length before) =
        omega (arith, length-append before (ch ∷ [])) in
      let one : (before ++ (ch ∷ [])) ++ t ≡ before ++ (ch ∷ t) = append_assoc before (ch ∷ []) t in
      record {
        window = q.window;
        seen = rw one at q.seen;
        other = q.other;
        goes_on =
            split_loop_cons (length before) s ch (t ++ r) more
            ∙ ap
                (λ (s' : Split).
                  split_loop source (ended_by init z) (suc (length before)) s' (t ++ r))
                (push_quiet (length before) ch s other)
            ∙ (rw (n, one) at q.goes_on);
      }

-- ===== src/Http/Text/Uncut.antt =====
-- Where `splitstr` of study-linux-kernel/socket/socket-server-http-select.cpp cuts nothing.
use study_linux_kernel.Base.{
  ℕ, suc, ◌≡◌, refl, ap, sym, ◌∙◌, [], ◌∷◌, ◌++◌, append_assoc, none, false, Bool-cases, inl, inr,
  length, length-append, str_eq, str_eq_iff, arith,
}
use study_linux_kernel.Sys.Calls.{Text}
use study_linux_kernel.Http.Text.{Split, slide, split_loop, splitstr, spent}
use study_linux_kernel.Http.Text.Windows.{Seen, slide-Seen}
use study_linux_kernel.Http.Text.Rejoining.{last_piece}
use study_linux_kernel.Http.Text.Quiet.{ended_by, split_loop_cons, push_quiet, width}

-- The separator does not stand here with a byte behind it.
abbrev pub NotHere : Text → Text → Type 0
NotHere sep u = (ch : ℕ) (r : Text) → u ≡ sep ++ (ch ∷ r) → ⊥

abbrev pub Clear : Text → Text → Type 0
Clear sep [] = NotHere sep []
Clear sep (x ∷ u) = NotHere sep (x ∷ u) × Clear sep u

Clear-never : (sep b : Text) (ch : ℕ) (r : Text) → Clear sep (b ++ (sep ++ (ch ∷ r))) → ⊥
Clear-never sep [] ch r c = here (sep ++ (ch ∷ r)) refl c
  where
    here : (u : Text) → u ≡ sep ++ (ch ∷ r) → Clear sep u → ⊥
    here [] e c = c ch r e
    here (x ∷ u) e c = c.0 ch r e
Clear-never sep (x ∷ b) ch r c = Clear-never sep b ch r c.1

module _ (source init : Text) (z : ℕ) where
  not_due :
      (before : Text) (s : Split) (ch : ℕ) (rest : Text)
      → source ≡ before ++ (ch ∷ rest)
      → Clear (ended_by init z) source
      → Seen (length (ended_by init z)) before s.window
      → str_eq s.window (ended_by init z) ≡ false
  not_due before s ch rest whole clear seen =
      elim (Bool-cases (str_eq s.window (ended_by init z))) [
        | inr b ↦ b
        | inl b ↦
            let e : s.window ≡ ended_by init z = (str_eq_iff s.window (ended_by init z)).0 b in
            let text : source ≡ seen.start ++ (ended_by init z ++ (ch ∷ rest)) =
              whole
              ∙ ap (λ (u : Text). u ++ (ch ∷ rest))
                  (seen.splits ∙ ap (λ (u : Text). seen.start ++ u) e)
              ∙ append_assoc seen.start (ended_by init z) (ch ∷ rest) in
            absurd (Clear-never (ended_by init z) seen.start ch rest (rw text at clear))
      ]

  uncut_loop :
      (t before : Text) (s : Split)
      → source ≡ before ++ t
      → Clear (ended_by init z) source
      → Seen (length (ended_by init z)) before s.window
      → spent s.n_match ≡ false
      → (w : Text) × (split_loop source (ended_by init z) (length before) s t
          ≡ record s { window = w })
  uncut_loop [] before s whole clear seen more = (s.window, unfold split_loop in refl)
  uncut_loop (ch ∷ t) before s whole clear seen more =
      let w' = slide (length (ended_by init z)) s.window ch in
      let n : length (before ++ (ch ∷ [])) ≡ suc (length before) =
        omega (arith, length-append before (ch ∷ [])) in
      let (w, rest) =
        uncut_loop t (before ++ (ch ∷ [])) (record s { window = w' })
          (whole ∙ sym (append_assoc before (ch ∷ []) t)) clear
          (slide-Seen (length (ended_by init z)) ch before s.window (width source init z) seen)
          more in
      (
        w,
        split_loop_cons source init z (length before) s ch t more
            ∙ (rw
                (push_quiet source init z (length before) ch s
                  (not_due before s ch t whole clear seen))
                (rw n at rest)),
      )

  pub splitstr_uncut :
      Clear (ended_by init z) source → splitstr source (ended_by init z) none ≡ source ∷ []
  unfolding splitstr
  splitstr_uncut clear =
      let (w, stop) =
        uncut_loop source [] (record { results = []; poslast = 0; window = []; n_match = none })
          refl clear (record { start = []; splits = refl; full = omega arith }) refl in
      rw stop (ap (λ (p : Text). p ∷ []) (last_piece [] source source 0 refl refl))

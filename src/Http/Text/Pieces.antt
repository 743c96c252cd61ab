-- ===== src/Http/Text/Pieces.antt =====
-- `splitstr` finds the pieces that a text was put together from.
use study_linux_kernel.Base.{
  ℕ, suc, ◌+◌, ◌-◌, ◌%◌, ◌<◌, ◌≡◌, refl, ap, sym, ◌∙◌, List, [], ◌∷◌, ◌++◌, append-nil,
  append_assoc, Option, none, some, true, false, ◌==◌, length, length-append, str_eq, arith,
}
use study_linux_kernel.Sys.Calls.{Text}
use study_linux_kernel.Http.Text.{
  Split, substr, found, spend, slide, split_loop, splitstr, spent, size_mod,
}
use study_linux_kernel.Http.Text.Windows.{Seen, slide-Seen}
use study_linux_kernel.Http.Text.Quiet.{
  Lacks, Lacks-append, ended_by, Seen-ne, Seen-eq, split_loop_cons, push_quiet, push_found, width,
  quiet,
}
use study_linux_kernel.Http.Text.Rejoining.{piece, last_piece, join, length_eq}

-- The separator in front of each further piece.
abbrev pub behind : Text → ℕ → List Text → Text
behind init z [] = []
behind init z (p ∷ ps) = ended_by init z ++ (p ++ behind init z ps)

-- The last byte may be `z`.
abbrev pub LacksBefore : ℕ → Text → Type 0
LacksBefore z [] = Unit {0}
LacksBefore z (x ∷ []) = Unit {0}
LacksBefore z (x ∷ y ∷ s) = ((x == z) ≡ false) × LacksBefore z (y ∷ s)

-- A first piece and those behind it: no other is empty, and none has the last byte of the
-- separator, except that the last piece may end in that byte behind another.
abbrev pub ArePieces : ℕ → Text → List Text → Type 0
ArePieces z t [] = LacksBefore z t
ArePieces z t ([] ∷ ps) = ⊥
ArePieces z t ((ch ∷ p) ∷ ps) = Lacks z t × ((ch == z) ≡ false) × ArePieces z p ps

module _ (source init : Text) (z : ℕ) where
  -- Inside a piece: the results are whole pieces, `cur` is read of the next, and no cut is due.
  pub record Inside (before cur : Text) (s : Split) : Type 0 where
    pub front : Text
    pub splits : before ≡ front ++ cur
    pub place : s.poslast ≡ length front
    pub seen : Seen (length (ended_by init z)) before s.window
    pub other : str_eq s.window (ended_by init z) ≡ false

  -- Over the rest `t` of a piece, the separator, and the first byte of the next piece.
  record Next (before cur t r : Text) (ch : ℕ) (s : Split) : Type 0 where
    after : Split
    results : after.results ≡ s.results ++ ((cur ++ t) ∷ [])
    left : after.n_match ≡ spend s.n_match
    inside : Inside ((before ++ (t ++ (ended_by init z))) ++ (ch ∷ [])) (ch ∷ []) after
    goes_on :
        split_loop source (ended_by init z) (length before) s (t ++ ((ended_by init z) ++ (ch ∷ r)))
        ≡ split_loop source
            (ended_by init z)
            (length ((before ++ (t ++ (ended_by init z))) ++ (ch ∷ [])))
            after
            r

  new_piece :
      (before cur t more : Text) (s : Split) (inside : Inside before cur s)
      → source ≡ before ++ (t ++ ((ended_by init z) ++ more))
      → length source < size_mod
      → substr source s.poslast (
          (length (before ++ (t ++ (ended_by init z)))
            + size_mod
            - s.poslast
            - length (ended_by init z))
          % size_mod)
        ≡ cur ++ t
  new_piece before cur t more s inside whole fits =
      let f = inside.front in
      let text : source ≡ f ++ (((cur ++ t) ++ (ended_by init z)) ++ more) =
        whole
        ∙ ap (λ (u : Text). u ++ (t ++ ((ended_by init z) ++ more))) inside.splits
        ∙ (simp append_assoc) in
      let n : length (before ++ (t ++ (ended_by init z)))
          ≡ length f + (length (cur ++ t) + length (ended_by init z)) =
        omega (
          arith,
          length-append before (t ++ (ended_by init z)),
          length-append t (ended_by init z),
          length_eq _ _ inside.splits,
          length-append f cur,
          length-append cur t,
        ) in
      rw (inside.place, n)
        (piece (ended_by init z) (width source init z) f (cur ++ t) more source text fits)

  next_piece :
      (before cur t r : Text) (ch : ℕ) (s : Split)
      → Inside before cur s
      → Lacks z (t ++ init)
      → (ch == z) ≡ false
      → spent s.n_match ≡ false
      → source ≡ before ++ (t ++ ((ended_by init z) ++ (ch ∷ r)))
      → length source < size_mod
      → Next before cur t r ch s
  unfolding found
  next_piece before cur t r ch s inside lacks other more whole fits =
      let q =
        quiet source init z (t ++ init) (z ∷ ch ∷ r) before s inside.seen inside.other lacks more in
      let s₁ : Split = record s { window = q.window } in
      let b₁ : Text = before ++ (t ++ init) in
      let b₂ : Text = before ++ (t ++ (ended_by init z)) in
      let s₂ : Split = record s { window = slide (length (ended_by init z)) q.window z } in
      let same : b₁ ++ (z ∷ []) ≡ b₂ = simp append_assoc in
      let seen₂ : Seen (length (ended_by init z)) b₂ s₂.window =
        rw same at
          (slide-Seen (length (ended_by init z)) z b₁ q.window (width source init z) q.seen) in
      let due : s₂.window ≡ (ended_by init z) =
        Seen-eq source init z (before ++ t) s₂.window
          (rw (← append_assoc before t (ended_by init z)) at seen₂) in
      let after : Split = record (found source (length (ended_by init z)) (length b₂) s₂) {
        window = slide (length (ended_by init z)) s₂.window ch;
      } in
      let seen₃ =
        slide-Seen (length (ended_by init z)) ch b₂ s₂.window (width source init z) seen₂ in
      let text : t ++ ((ended_by init z) ++ (ch ∷ r)) ≡ (t ++ init) ++ (z ∷ ch ∷ r) =
        simp append_assoc in
      let n₂ : suc (length b₁) ≡ length b₂ =
        omega (arith, length-append b₁ (z ∷ []), length_eq _ _ same) in
      let n₃ : suc (length b₂) ≡ length (b₂ ++ (ch ∷ [])) =
        omega (arith, length-append b₂ (ch ∷ [])) in
      record {
        after = after;
        results =
            ap (λ (p : Text). s.results ++ (p ∷ []))
              (new_piece before cur t (ch ∷ r) s inside whole fits);
        left = refl;
        inside = record {
          front = b₂;
          splits = refl;
          place = refl;
          seen = seen₃;
          other = Seen-ne source init z b₂ after.window ch other seen₃;
        };
        goes_on =
            ap (λ (u : Text). split_loop source (ended_by init z) (length before) s u) text
            ∙ q.goes_on
            ∙ split_loop_cons source init z (length b₁) s₁ z (ch ∷ r) more
            ∙ (rw (push_quiet source init z (length b₁) z s₁ q.other, n₂) refl)
            ∙ split_loop_cons source init z (length b₂) s₂ ch r more
            ∙ (rw (push_found source init z (length b₂) ch s₂ due, n₃) refl);
      }

  -- The lines of `splitstr` behind its loop.
  abbrev finished : Split → List Text
  finished s = s.results ++ (substr source s.poslast (length source - s.poslast) ∷ [])

  rest_piece :
      (before cur t : Text) (s : Split) (inside : Inside before cur s)
      → source ≡ before ++ t
      → finished s ≡ s.results ++ ((cur ++ t) ∷ [])
  rest_piece before cur t s inside whole =
      let text : source ≡ inside.front ++ (cur ++ t) =
        whole ∙ ap (λ (u : Text). u ++ t) inside.splits ∙ append_assoc inside.front cur t in
      ap (λ (p : Text). s.results ++ (p ∷ []))
        (last_piece inside.front (cur ++ t) source s.poslast text inside.place)

  -- The loop over the last piece.
  quiet_end :
      (t before : Text) (s : Split)
      → Seen (length (ended_by init z)) before s.window
      → str_eq s.window (ended_by init z) ≡ false
      → LacksBefore z t
      → spent s.n_match ≡ false
      → (w : Text) × (split_loop source (ended_by init z) (length before) s t
          ≡ record s { window = w })
  quiet_end [] before s seen other lacks more = (s.window, unfold split_loop in refl)
  quiet_end (x ∷ []) before s seen other lacks more = (
    slide (length (ended_by init z)) s.window x,
    split_loop_cons source init z (length before) s x [] more
        ∙ (unfold split_loop in push_quiet source init z (length before) x s other),
  )
  quiet_end (x ∷ y ∷ t) before s seen other lacks more =
      let w = slide (length (ended_by init z)) s.window x in
      let seen' =
        slide-Seen (length (ended_by init z)) x before s.window (width source init z) seen in
      let (w', rest) =
        quiet_end (y ∷ t) (before ++ (x ∷ [])) (record s { window = w }) seen'
          (Seen-ne source init z before w x lacks.0 seen') lacks.1 more in
      let n : length (before ++ (x ∷ [])) ≡ suc (length before) =
        omega (arith, length-append before (x ∷ [])) in
      (
        w',
        split_loop_cons source init z (length before) s x (y ∷ t) more
            ∙ (rw (push_quiet source init z (length before) x s other) (rw n at rest)),
      )

  all_pieces :
      (ps : List Text) (before cur t : Text) (s : Split)
      → Inside before cur s
      → Lacks z init
      → ArePieces z t ps
      → s.n_match ≡ none
      → source ≡ before ++ (t ++ behind init z ps)
      → length source < size_mod
      → finished (split_loop source (ended_by init z) (length before) s (t ++ behind init z ps))
        ≡ s.results ++ ((cur ++ t) ∷ ps)
  all_pieces [] before cur t s inside hi hp un whole fits =
      let (w, stop) = quiet_end t before s inside.seen inside.other hp (rw un refl) in
      rw (append-nil t, stop)
        (rest_piece before cur t s inside (whole ∙ ap (λ (u : Text). before ++ u) (append-nil t)))
  all_pieces ([] ∷ ps) before cur t s inside hi hp un whole fits = absurd hp
  all_pieces ((ch ∷ p) ∷ ps) before cur t s inside hi hp un whole fits =
      let n =
        next_piece before cur t (p ++ behind init z ps) ch s inside (Lacks-append z t init hp.0 hi)
          hp.1 (rw un refl) whole fits in
      let before' : Text = (before ++ (t ++ (ended_by init z))) ++ (ch ∷ []) in
      let whole' : source ≡ before' ++ (p ++ behind init z ps) = whole ∙ (simp append_assoc) in
      let rest =
        all_pieces ps before' (ch ∷ []) p n.after n.inside hi hp.2
          (n.left ∙ (unfold spend in rw un refl)) whole' fits in
      rw n.goes_on (
        rest
        ∙ ap (λ (rs : List Text). rs ++ ((ch ∷ p) ∷ ps)) n.results
        ∙ append_assoc s.results ((cur ++ t) ∷ []) ((ch ∷ p) ∷ ps))

  abbrev begin : Option ℕ → Split
  begin n = record { results = []; poslast = 0; window = []; n_match = n }

  begin-Inside : (n : Option ℕ) → Inside [] [] (begin n)
  begin-Inside n = record {
    front = [];
    splits = refl;
    place = refl;
    seen = record { start = []; splits = refl; full = omega arith };
    other = empty_window init;
  }
    where
      empty_window : (i : Text) → str_eq [] (i ++ (z ∷ [])) ≡ false
      empty_window [] = unfold str_eq in refl
      empty_window (x ∷ i) = unfold str_eq in refl

  -- A text without the last byte of the separator is one piece, whatever the number of cuts.
  pub splitstr_whole :
      (n : Option ℕ)
      → spent n ≡ false
      → Lacks z source
      → splitstr source (ended_by init z) n ≡ source ∷ []
  unfolding splitstr
  splitstr_whole n more lacks =
      let q =
        quiet source init z source [] [] (begin n) (begin-Inside n).seen (begin-Inside n).other
          lacks more in
      let stop : split_loop source (ended_by init z) 0 (begin n) source
          ≡ record (begin n) { window = q.window } =
        ap (λ (u : Text). split_loop source (ended_by init z) 0 (begin n) u)
          (sym (append-nil source))
        ∙ q.goes_on
        ∙ (unfold split_loop in refl) in
      rw stop (rest_piece [] [] source (begin n) (begin-Inside n) refl)

  -- With one cut, what stands behind the first separator is the second piece.
  pub splitstr_once :
      (t r : Text) (ch : ℕ)
      → source ≡ t ++ ((ended_by init z) ++ (ch ∷ r))
      → length source < size_mod
      → Lacks z init
      → Lacks z t
      → (ch == z) ≡ false
      → splitstr source (ended_by init z) (some 1) ≡ t ∷ (ch ∷ r) ∷ []
  unfolding splitstr
  splitstr_once t r ch whole fits hi ht other =
      let n =
        next_piece [] [] t r ch (begin (some 1)) (begin-Inside (some 1))
          (Lacks-append z t init ht hi) other refl whole fits in
      let over : spent n.after.n_match ≡ true = rw n.left (unfold spend in refl) in
      let stop = once_over _ n.after r over in
      let start : split_loop source (ended_by init z) 0 (begin (some 1)) source ≡ n.after =
        ap (λ (u : Text). split_loop source (ended_by init z) 0 (begin (some 1)) u) whole
        ∙ n.goes_on
        ∙ stop in
      rw start (
        rest_piece ((t ++ (ended_by init z)) ++ (ch ∷ [])) (ch ∷ []) r n.after n.inside
          (whole ∙ (simp append_assoc))
        ∙ ap (λ (rs : List Text). rs ++ ((ch ∷ r) ∷ [])) n.results)
    where
      once_over :
          (i : ℕ) (s : Split) (u : Text)
          → spent s.n_match ≡ true
          → split_loop source (ended_by init z) i s u ≡ s
      once_over i s [] h = unfold split_loop in refl
      once_over i s (x ∷ u) h = unfold split_loop in rw h

module _ (init : Text) (z : ℕ) where
  -- `join` in the form in which the loop reads it.
  pub join-behind :
      (t : Text) (ps : List Text) → join (ended_by init z) (t ∷ ps) ≡ t ++ behind init z ps
  unfolding join
  join-behind t [] = sym (append-nil t)
  join-behind t (p ∷ ps) = ap (λ (u : Text). t ++ (ended_by init z ++ u)) (join-behind p ps)

  -- Pieces that were joined are found again by `splitstr` with no limit, where the last byte of the
  -- separator stands nowhere else in it and in no piece, except at the end of the last one, and no
  -- piece but the first is empty or starts with that byte.
  pub splitstr-join :
      (t : Text) (ps : List Text)
      → Lacks z init
      → ArePieces z t ps
      → length (join (ended_by init z) (t ∷ ps)) < size_mod
      → splitstr (join (ended_by init z) (t ∷ ps)) (ended_by init z) none ≡ t ∷ ps
  unfolding splitstr
  splitstr-join t ps hi hp fits =
      let source = t ++ behind init z ps in
      let whole : join (ended_by init z) (t ∷ ps) ≡ source = join-behind t ps in
      rw whole (
        all_pieces source init z ps [] [] t (begin source init z none)
          (begin-Inside source init z none) hi hp refl refl (rw whole at fits))

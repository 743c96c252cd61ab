-- ===== src/Http/Text/Rejoining.antt =====
-- The pieces of `splitstr` spell its text.
use study_linux_kernel.Base.{
  ℕ, suc, ◌+◌, ◌-◌, ◌%◌, ◌<◌, ◌≡◌, refl, ap, sym, ◌∙◌, List, [], ◌∷◌, ◌++◌, append-nil,
  append_assoc, Option, not, ◌&&◌, Bool-cases, inl, inr, ◌⊎◌, ltb, leb, length, length-append,
  take_all, take-append, drop-append, str_eq, str_eq_iff, arith,
}
use study_linux_kernel.Sys.Calls.{Text}
use study_linux_kernel.Http.Text.{
  Split, substr, found, cut, push_char, slide, split_loop, splitstr, spent, size_mod,
}
use study_linux_kernel.Http.Text.Windows.{longer_back, Seen, slide-Seen}

-- Pieces with the separator behind each, and between them.
unfoldable pub spell : Text → List Text → Text
spell sep [] = []
spell sep (r ∷ rs) = r ++ (sep ++ spell sep rs)

unfoldable pub join : Text → List Text → Text
join sep [] = []
join sep (r ∷ []) = r
join sep (r ∷ q ∷ rs) = r ++ (sep ++ join sep (q ∷ rs))

pub spell-append :
    (sep : Text) (rs : List Text) (r : Text)
    → spell sep (rs ++ (r ∷ [])) ≡ spell sep rs ++ (r ++ sep)
unfolding spell
spell-append sep [] r = simp append-nil
spell-append sep (q ∷ rs) r = simp (spell-append sep rs r, append_assoc)

pub join-spell :
    (sep : Text) (rs : List Text) (l : Text) → join sep (rs ++ (l ∷ [])) ≡ spell sep rs ++ l
unfolding spell join
join-spell sep [] l = refl
join-spell sep (r ∷ []) l = simp (append_assoc, append-nil)
join-spell sep (r ∷ q ∷ rs) l = simp (join-spell sep (q ∷ rs) l, append_assoc)

-- No proper front of the separator is a back of it, as in " ", ":", CR LF, but not CR LF CR LF.
abbrev pub Unbordered : Text → Type 0
Unbordered sep = (u v w : Text) → sep ≡ u ++ v → sep ≡ w ++ u → (u ≡ []) ⊎ (v ≡ [])

-- The text that was read is spelled by the results and what stands behind them.
pub record Cuts (sep before : Text) (s : Split) : Type 0 where
  pub cur : Text
  pub spells : before ≡ spell sep s.results ++ cur
  pub place : s.poslast ≡ length (spell sep s.results)
  pub seen : Seen (length sep) before s.window
  pub apart :
      (spell sep s.results ≡ [])
      ⊎ ((p : Text) × (spell sep s.results ≡ p ++ sep) × (0 < length cur))

pub length_eq : (x y : Text) → x ≡ y → length x ≡ length y
length_eq x y e = ap (λ (t : Text). length t) e

module _ (sep : Text) (pos : 0 < length sep) where
  -- A separator that overlaps with the one before would have a border.
  no_overlap :
      (before : Text) (s : Split) (c : Cuts sep before s)
      → Unbordered sep
      → before ≡ c.seen.start ++ sep
      → length c.cur < length sep
      → ⊥
  no_overlap before s c un ends less =
      let (b, es, ep) =
        longer_back c.seen.start (spell sep s.results) sep c.cur (sym ends ∙ c.spells)
          (omega arith) in
      elim c.apart [
        | inl none_yet ↦ omega (
          arith,
          length_eq _ _ es,
          length_eq _ _ (sym none_yet ∙ ep),
          length-append b c.cur,
          length-append c.seen.start b,
        )
        | inr (p, ends', some_cur) ↦
            let (w, ew, _) =
              longer_back p c.seen.start sep b (sym ends' ∙ ep)
                (omega (arith, length_eq _ _ es, length-append b c.cur)) in
            elim (un b c.cur w es ew) [
              | inl e ↦ omega (arith, length_eq _ _ es, length_eq _ _ e, length-append b c.cur)
              | inr e ↦ omega (arith, length_eq _ _ e)
            ]
      ]

  -- Where the window is the separator, the current piece ends in it.
  whole_sep :
      (before : Text) (s : Split) (c : Cuts sep before s)
      → Unbordered sep
      → s.window ≡ sep
      → (b : Text) × (c.cur ≡ b ++ sep)
  whole_sep before s c un w =
      let ends : before ≡ c.seen.start ++ sep =
        c.seen.splits ∙ ap (λ (t : Text). c.seen.start ++ t) w in
      elim (Bool-cases (leb (length sep) (length c.cur))) [
        | inl fits ↦
            let (b, e, _) =
              longer_back (spell sep s.results) c.seen.start c.cur sep (sym c.spells ∙ ends)
                (ground arith) in
            (b, e)
        | inr short ↦ absurd (no_overlap before s c un ends (ground arith))
      ]

  -- `substr` between the last cut and the separator.
  pub piece :
      (p b rest : Text) (source : Text)
      → source ≡ p ++ ((b ++ sep) ++ rest)
      → length source < size_mod
      → substr source
          (length p)
          (((length p + (length b + length sep)) + size_mod - length p - length sep) % size_mod)
        ≡ b
  unfolding substr
  piece p b rest source e fits =
      let small : length b < size_mod = omega (
        arith,
        length_eq _ _ e,
        length-append p ((b ++ sep) ++ rest),
        length-append (b ++ sep) rest,
        length-append b sep,
      ) in
      let n : ((length p + (length b + length sep)) + size_mod - length p - length sep) % size_mod
          ≡ length b =
        omega arith in
      rw (n, e, drop-append p ((b ++ sep) ++ rest), append_assoc b sep rest)
        (take-append b (sep ++ rest))

  -- No cut: the piece grows.
  grown :
      (before : Text) (ch : ℕ) (s : Split)
      → Cuts sep before s
      → Cuts sep (before ++ (ch ∷ [])) (record s { window = slide (length sep) s.window ch })
  grown before ch s c = record {
    cur = c.cur ++ (ch ∷ []);
    spells =
        ap (λ (t : Text). t ++ (ch ∷ [])) c.spells
        ∙ append_assoc (spell sep s.results) c.cur (ch ∷ []);
    place = c.place;
    seen = slide-Seen (length sep) ch before s.window pos c.seen;
    apart = elim c.apart [
      | inl e ↦ inl e
      | inr (p, e, _) ↦ inr (p, e, omega (arith, length-append c.cur (ch ∷ [])))
    ];
  }

  -- A cut: the piece ends before the separator, and a new one begins.
  cut_here :
      (before rest b : Text) (source : Text) (ch : ℕ) (s : Split) (c : Cuts sep before s)
      → source ≡ before ++ (ch ∷ rest)
      → length source < size_mod
      → c.cur ≡ b ++ sep
      → Cuts sep (before ++ (ch ∷ [])) (record (found source (length sep) (length before) s) {
        window = slide (length sep) s.window ch;
      })
  unfolding found
  cut_here before rest b source ch s c whole fits e =
      let p = spell sep s.results in
      let read : before ≡ p ++ (b ++ sep) = c.spells ∙ ap (λ (t : Text). p ++ t) e in
      let n : length before ≡ length p + (length b + length sep) =
        omega (arith, length_eq _ _ read, length-append p (b ++ sep), length-append b sep) in
      let back : source ≡ p ++ ((b ++ sep) ++ (ch ∷ rest)) =
        rw (whole, read) (append_assoc p (b ++ sep) (ch ∷ rest)) in
      let new : substr source s.poslast
            ((length before + size_mod - s.poslast - length sep) % size_mod)
          ≡ b =
        rw (c.place, n) (piece p b (ch ∷ rest) source back fits) in
      let spelled : spell sep (
            s.results
            ++ (substr source s.poslast
                  ((length before + size_mod - s.poslast - length sep) % size_mod)
                ∷ []))
          ≡ before =
        rw new (spell-append sep s.results b ∙ sym read) in
      record {
        cur = ch ∷ [];
        spells = ap (λ (t : Text). t ++ (ch ∷ [])) (sym spelled);
        place = ap (λ (t : Text). length t) (sym spelled);
        seen = slide-Seen (length sep) ch before s.window pos c.seen;
        apart = inr (p ++ b, spelled ∙ read ∙ sym (append_assoc p b sep), omega arith);
      }

  push_char-Cuts :
      (before rest : Text) (source : Text) (ch : ℕ) (s : Split)
      → Unbordered sep
      → length source < size_mod
      → source ≡ before ++ (ch ∷ rest)
      → Cuts sep before s
      → Cuts sep (before ++ (ch ∷ [])) (push_char source sep (length before) ch s)
  unfolding push_char cut
  push_char-Cuts before rest source ch s un fits whole c =
      elim (Bool-cases (not (ltb (length s.window) (length sep)) && str_eq s.window sep)) [
        | inl t ↦
            let w : s.window ≡ sep = ground (arith, str_eq_iff s.window sep) in
            let (b, e) = whole_sep before s c un w in
            rw t (cut_here before rest b source ch s c whole fits e)
        | inr t ↦ rw t (grown before ch s c)
      ]

  -- Where the loop stops, some part of the text has been read.
  split_loop-Cuts :
      (source : Text) (rest before : Text) (s : Split)
      → Unbordered sep
      → length source < size_mod
      → source ≡ before ++ rest
      → Cuts sep before s
      → (before' : Text) × (rest' : Text) × (source ≡ before' ++ rest')
        × Cuts sep before' (split_loop source sep (length before) s rest)
  unfolding split_loop
  split_loop-Cuts source [] before s un fits whole c = (before, [], whole, c)
  split_loop-Cuts source (ch ∷ rest) before s un fits whole c =
      let n : length (before ++ (ch ∷ [])) ≡ suc (length before) =
        omega (arith, length-append before (ch ∷ [])) in
      let go = rw n at (
        split_loop-Cuts source rest (before ++ (ch ∷ []))
          (push_char source sep (length before) ch s) un fits
          (whole ∙ sym (append_assoc before (ch ∷ []) rest))
          (push_char-Cuts before rest source ch s un fits whole c)) in
      elim (Bool-cases (spent s.n_match)) [
        | inl t ↦ rw t (before, ch ∷ rest, whole, c)
        | inr t ↦ rw t go
      ]

pub last_piece :
    (p r source : Text) (poslast : ℕ)
    → source ≡ p ++ r
    → poslast ≡ length p
    → substr source poslast (length source - poslast) ≡ r
unfolding substr
last_piece p r source poslast e place =
    rw (place, e, drop-append p r) (take_all _ r (omega (arith, length-append p r)))

-- The pieces of a text put together again with the separator between them are the text, for any
-- number of cuts and every separator without a border.
pub join-splitstr :
    (source sep : Text) (n_match : Option ℕ)
    → 0 < length sep
    → Unbordered sep
    → length source < size_mod
    → join sep (splitstr source sep n_match) ≡ source
unfolding splitstr spell
join-splitstr source sep n_match pos un fits =
    let s₀ : Split = record { results = []; poslast = 0; window = []; n_match = n_match } in
    let c₀ : Cuts sep [] s₀ = record {
      cur = [];
      spells = refl;
      place = refl;
      seen = record { start = []; splits = refl; full = omega arith };
      apart = inl refl;
    } in
    let (before, rest, whole, c) = split_loop-Cuts sep pos source source [] s₀ un fits refl c₀ in
    let s = split_loop source sep 0 s₀ source in
    let read : source ≡ spell sep s.results ++ (c.cur ++ rest) =
      whole
      ∙ ap (λ (t : Text). t ++ rest) c.spells
      ∙ append_assoc (spell sep s.results) c.cur rest in
    join-spell sep s.results (substr source s.poslast (length source - s.poslast))
    ∙ ap (λ (t : Text). spell sep s.results ++ t)
        (last_piece (spell sep s.results) (c.cur ++ rest) source s.poslast read c.place)
    ∙ sym read

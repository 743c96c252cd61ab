-- ===== src/Http/Text/Trimming.antt =====
-- What `strip` leaves.
use study_linux_kernel.Base.{
  ℕ, suc, ◌+◌, ◌-◌, ◌<◌, ◌≤◌, ◌≡◌, refl, [], ◌∷◌, ◌++◌, append_assoc, none, some, true, false, ◌==◌,
  if◌then◌else◌, length, length-append, take, drop, take-append, drop-append, take_all, length-drop,
  ◌∙◌, arith,
}
use native.Mathlib.Nat.{zero-add}
use study_linux_kernel.Sys.Calls.{Text}
use study_linux_kernel.Http.Text.{
  substr, is_empty_char, Edges, note, find_edges, count_of, start_of, strip_ends, strip,
}

abbrev pub AreEmpty : Text → Type 0
AreEmpty [] = Unit {0}
AreEmpty (ch ∷ s) = (is_empty_char ch ≡ true) × AreEmpty s

note_empty : (i ch : ℕ) (e : Edges) → is_empty_char ch ≡ true → note i ch e ≡ e
unfolding note
note_empty i ch e h = rw h

add_none : (i : ℕ) → i + 0 ≡ i
add_none i = omega arith

add_shift : (i n : ℕ) → suc i + n ≡ i + suc n
add_shift i n = omega arith

find_edges_cons :
    (i ch : ℕ) (e : Edges) (rest : Text)
    → find_edges i e (ch ∷ rest) ≡ find_edges (suc i) (note i ch e) rest
unfolding find_edges
find_edges_cons i ch e rest = refl

find_edges_empty :
    (p rest : Text) (i : ℕ) (e : Edges)
    → AreEmpty p
    → find_edges i e (p ++ rest) ≡ find_edges (i + length p) e rest
find_edges_empty [] rest i e h = rw add_none
find_edges_empty (ch ∷ p) rest i e h =
    rw (find_edges_cons, note_empty i ch e h.0, find_edges_empty p rest (suc i) e h.1, add_shift)

find_edges_blank : (q : Text) (i : ℕ) (e : Edges) → AreEmpty q → find_edges i e q ≡ e
find_edges_blank [] i e h = unfold find_edges in refl
find_edges_blank (ch ∷ q) i e h =
    rw (find_edges_cons, note_empty i ch e h.0) (find_edges_blank q (suc i) e h.1)

-- Behind the start, only the end changes.
find_edges_started :
    (m rest : Text) (i start : ℕ) (e : Edges)
    → e.start ≡ some start
    → (e' : Edges) × (e'.start ≡ some start)
      × (find_edges i e (m ++ rest) ≡ find_edges (i + length m) e' rest)
find_edges_started [] rest i start e h = (e, h, rw add_none)
find_edges_started (ch ∷ m) rest i start e h =
    let kept : (note i ch e).start ≡ some start = unfold note in ground arith in
    let (e', h', eq) = find_edges_started m rest (suc i) start (note i ch e) kept in
    (e', h', rw (find_edges_cons, eq, add_shift))

-- The length as the edges have it, in a text whose indices fit in an `int`.
between :
    (p mid q : Text) (finish : ℕ)
    → length p + length mid ≡ suc finish
    → substr (p ++ (mid ++ q)) (length p) (count_of (some finish) (length p)) ≡ mid
unfolding substr count_of
between p mid q finish h =
    let all : finish + 1 - length p ≡ length mid = omega arith in
    rw (drop-append p (mid ++ q), all) (take-append mid q)

drop_blank_end :
    (source : Text) (start : ℕ)
    → 0 < start
    → start ≤ length source
    → length source < 2147483648
    → substr source start (count_of none start) ≡ drop start source
unfolding substr count_of
drop_blank_end source start pos le fits =
    take_all _ (drop start source) (omega (arith, length-drop start source))

abbrev no_edges : Edges
no_edges = record { start = none; end_at = none }

-- The edges of a text with two bytes that are not blank.
edges_two :
    (p m q : Text) (a b : ℕ)
    → AreEmpty p
    → AreEmpty q
    → is_empty_char a ≡ false
    → is_empty_char b ≡ false
    → find_edges 0 no_edges (p ++ (a ∷ (m ++ (b ∷ q))))
      ≡ record { start = some (length p); end_at = some (length p + suc (length m)) }
edges_two p m q a b hp hq ha hb =
    let here : Edges = record no_edges { start = some (length p) } in
    let first : note (length p) a no_edges ≡ here = unfold note in rw ha in
    let (e, h, eq) = find_edges_started m (b ∷ q) (suc (length p)) (length p) here refl in
    let last : note (suc (length p) + length m) b e
        ≡ record { start = some (length p); end_at = some (suc (length p) + length m) } =
      unfold note in ground arith in
    rw (
      find_edges_empty p (a ∷ (m ++ (b ∷ q))) 0 no_edges hp,
      zero-add,
      find_edges_cons,
      first,
      eq,
      find_edges_cons,
      last,
      find_edges_blank q _ _ hq,
      add_shift,
    )

-- The edges of a text with one such byte.
edges_one :
    (p q : Text) (a : ℕ)
    → AreEmpty p
    → AreEmpty q
    → is_empty_char a ≡ false
    → find_edges 0 no_edges (p ++ (a ∷ q)) ≡ record { start = some (length p); end_at = none }
edges_one p q a hp hq ha =
    let first : note (length p) a no_edges ≡ record no_edges { start = some (length p) } =
      unfold note in rw ha in
    rw (
      find_edges_empty p (a ∷ q) 0 no_edges hp,
      zero-add,
      find_edges_cons,
      first,
      find_edges_blank q (suc (length p)) (record no_edges { start = some (length p) }) hq,
    )

from_one :
    (p s : Text)
    → length (p ++ s) < 2147483648
    → substr (p ++ s) (length p) (count_of none (length p)) ≡ (if length p == 0 then [] else s)
from_one [] s fits = unfold substr in unfold count_of in unfold take in refl
from_one (x ∷ p) s fits =
    drop_blank_end (x ∷ (p ++ s)) (suc (length p)) (omega arith) (omega (arith, length-append p s))
      fits
    ∙ drop-append (x ∷ p) s
    ∙ (ground arith)

-- What `strip` does at the ends of a text whose indices fit in an `int`, for any blank `p` and `q`.
-- A text with at least two bytes that are not blank, of which `a` is the first and `b` the last,
-- becomes what stands from `a` to `b`. A text with one such byte loses that byte where nothing stands
-- before it, and otherwise keeps the blanks behind it. A blank text becomes empty.
pub strip_lem :
    (p m q : Text) (a b : ℕ)
    → AreEmpty p
    → AreEmpty q
    → is_empty_char a ≡ false
    → is_empty_char b ≡ false
    → length p + length q < 2147483647
    → (strip (p ++ (a ∷ (m ++ (b ∷ q)))) true ≡ a ∷ (m ++ (b ∷ [])))
      × (strip (p ++ (a ∷ q)) true ≡ (if length p == 0 then [] else a ∷ q))
      × (strip p true ≡ [])
unfolding strip strip_ends start_of
strip_lem p m q a b hp hq ha hb fits = (
  rw (edges_two p m q a b hp hq ha hb) (
      rw append_assoc at (
        between p (a ∷ (m ++ (b ∷ []))) q (length p + suc (length m))
          (omega (arith, length-append m (b ∷ []))))),
  rw (edges_one p q a hp hq ha) (from_one p (a ∷ q) (omega (arith, length-append p (a ∷ q)))),
  rw (find_edges_blank p 0 no_edges hp) (unfold substr in unfold count_of in unfold take in refl),
)

-- ===== src/Http/Request/Collecting.antt =====
-- What the loop over the lines of a request collects.
use study_linux_kernel.Base.{
  ℕ, ◌<◌, ◌≡◌, refl, ◌∙◌, List, [], ◌∷◌, ◌++◌, append_assoc, Option, none, some, Bool, true, false,
  Bool-cases, inl, inr, ◌⊎◌, if◌then◌else◌, length, length-append, str_eq, str_eq_iff, arith,
}
use study_linux_kernel.Sys.Calls.{Text}
use study_linux_kernel.Http.Text.{strip, splitstr, is_empty_char}
use study_linux_kernel.Http.Text.Trimming.{AreEmpty, strip_lem}
use study_linux_kernel.Http.Text.Quiet.{Lacks}
use study_linux_kernel.Http.Text.Pieces.{splitstr_once}
use study_linux_kernel.Http.Request.{
  Fields, crlf, find, insert, insert_pair, add_stripped, add_line, add_lines,
}

-- A text that `strip` leaves alone: it starts with `first` and ends with `last`, which are not blank.
pub record Word : Type 0 where
  pub first : ℕ
  pub inner : Text
  pub last : ℕ

abbrev pub text_of : Word → Text
text_of w = w.first ∷ (w.inner ++ (w.last ∷ []))

pub record IsWord (w : Word) : Type 0 where
  pub first_solid : is_empty_char w.first ≡ false
  pub last_solid : is_empty_char w.last ≡ false
  pub short : length w.inner < 2147483000

-- With the blanks `p` in front of it, too.
strip_word :
    (p : Text) (w : Word)
    → AreEmpty p
    → length p < 100
    → IsWord w
    → strip (p ++ text_of w) true ≡ text_of w
strip_word p w hp short h =
    (strip_lem p w.inner [] w.first w.last hp tt h.first_solid h.last_solid (omega arith)).0

-- A line "name: value".
pub record Line : Type 0 where
  pub name : Word
  pub value : Word

abbrev pub line_of : Line → Text
line_of l = text_of l.name ++ (b':' ∷ b' ' ∷ text_of l.value)

pub record IsLine (l : Line) : Type 0 where
  pub name : IsWord l.name
  pub value : IsWord l.value
  pub short : length (line_of l) < 2147483000
  pub colon_free : Lacks b':' (text_of l.name)
  pub feed_free : Lacks 10 (line_of l)

-- The first value that the lines give under a name.
unfoldable pub first_value : Text → List Line → Option Text
first_value k [] = none
first_value k (l ∷ ls) =
    let later = first_value k ls in
    if str_eq (text_of l.name) k then some (text_of l.value) else later

abbrev pub AreLines : List Line → Type 0
AreLines [] = Unit {0}
AreLines (l ∷ ls) = IsLine l × AreLines ls

abbrev pub lines_of : List Line → List Text
lines_of [] = []
lines_of (l ∷ ls) = line_of l ∷ lines_of ls

line_word : Line → Word
line_word l = record {
  first = l.name.first;
  inner = l.name.inner ++ (l.name.last ∷ b':' ∷ b' ' ∷ l.value.first ∷ l.value.inner);
  last = l.value.last;
}

line_word_text : (l : Line) → text_of (line_word l) ≡ line_of l
unfolding line_word
line_word_text l = simp append_assoc

strip_line : (l : Line) → IsLine l → strip (line_of l) true ≡ line_of l
strip_line l h =
    let w : IsWord (line_word l) =
      unfold line_word in
      record {
        first_solid = h.name.first_solid;
        last_solid = h.value.last_solid;
        short = omega (
          arith,
          h.short,
          length-append l.name.inner (l.name.last ∷ b':' ∷ b' ' ∷ l.value.first ∷ l.value.inner),
          length-append (l.name.inner ++ (l.name.last ∷ [])) (b':' ∷ b' ' ∷ text_of l.value),
          length-append l.name.inner (l.name.last ∷ []),
          length-append l.value.inner (l.value.last ∷ []),
        );
      } in
    rw line_word_text at (strip_word [] (line_word l) tt (omega arith) w)

split_line :
    (l : Line)
    → IsLine l
    → splitstr (line_of l) (b':' ∷ []) (some 1) ≡ text_of l.name ∷ (b' ' ∷ text_of l.value) ∷ []
split_line l h =
    splitstr_once (line_of l) [] b':' (text_of l.name) (text_of l.value) b' ' refl
      (omega (arith, h.short)) tt h.colon_free refl

add_stripped_lem :
    (l : Line) (m : Fields)
    → IsLine l
    → add_stripped (line_of l) m ≡ some (insert (text_of l.name) (text_of l.value) m)
unfolding add_stripped insert_pair
add_stripped_lem l m h = rw (
  split_line l h,
  strip_word [] l.name tt (omega arith) h.name,
  strip_word (b' ' ∷ []) l.value (unfold is_empty_char in (refl, tt)) (omega arith) h.value,
)

add_line_lem :
    (l : Line) (m : Fields)
    → IsLine l
    → add_line (line_of l) m ≡ some (insert (text_of l.name) (text_of l.value) m)
unfolding add_line
add_line_lem l m h = rw (strip_line l h) (add_stripped_lem l m h)

find-append :
    (k j v : Text) (m : Fields)
    → find k m ≡ none
    → find k (m ++ ((j, v) ∷ [])) ≡ (if str_eq j k then some v else none)
unfolding find
find-append k j v [] h = refl
find-append k j v ((i, w) ∷ m) h = ground (arith, find-append k j v m)

find-append_found :
    (k : Text) (x : Text) (m n : Fields) → find k m ≡ some x → find k (m ++ n) ≡ some x
unfolding find
find-append_found k x [] n h = cc
find-append_found k x ((i, w) ∷ m) n h = ground (arith, find-append_found k x m n)

abbrev pub or_else : Option Text → Option Text → Option Text
or_else none later = later
or_else (some v) later = some v

Option-cases : (o : Option Text) → (o ≡ none) ⊎ ((v : Text) × (o ≡ some v))
Option-cases none = inl refl
Option-cases (some v) = inr (v, refl)

insert_new : (j v : Text) (m : Fields) → find j m ≡ none → insert j v m ≡ m ++ ((j, v) ∷ [])
unfolding insert
insert_new j v m h = rw (h, insert)

insert_known : (j v x : Text) (m : Fields) → find j m ≡ some x → insert j v m ≡ m
unfolding insert
insert_known j v x m h = rw (h, insert)

find-insert_new :
    (k j v : Text) (m : Fields)
    → find j m ≡ none
    → find k (insert j v m) ≡ or_else (find k m) (if str_eq j k then some v else none)
find-insert_new k j v m new = elim (Option-cases (find k m)) [
  | inl e ↦ rw (insert_new j v m new, e) (find-append k j v m e)
  | inr (x, e) ↦ rw (insert_new j v m new, e) (find-append_found k x m ((j, v) ∷ []) e)
]

find-insert_known :
    (k j v x : Text) (m : Fields)
    → find j m ≡ some x
    → find k (insert j v m) ≡ or_else (find k m) (if str_eq j k then some v else none)
find-insert_known k j v x m old = elim (Option-cases (find k m)) [
  | inr (y, e) ↦ rw (insert_known j v x m old, e)
  | inl e ↦ elim (Bool-cases (str_eq j k)) [
    | inr ne ↦ rw (insert_known j v x m old, e, ne)
    | inl same ↦
        let jk : j ≡ k = (str_eq_iff j k).0 same in
        absurd (let h : find k m ≡ some x = rw jk at old in cc)
  ]
]

find-insert :
    (k j v : Text) (m : Fields)
    → find k (insert j v m) ≡ or_else (find k m) (if str_eq j k then some v else none)
find-insert k j v m = elim (Option-cases (find j m)) [
  | inl new ↦ find-insert_new k j v m new
  | inr (x, old) ↦ find-insert_known k j v x m old
]

add_lines_cons :
    (val : Text) (vals : List Text) (m m' : Fields)
    → add_line val m ≡ some m'
    → add_lines (val ∷ vals) m ≡ add_lines vals m'
unfolding add_lines
add_lines_cons val vals m m' h = rw (h, add_lines)

-- The blank line at the end is passed over.
add_line_blank : (m : Fields) → add_line crlf m ≡ some m
unfolding add_line add_stripped
add_line_blank m =
    let blank : AreEmpty crlf = unfold is_empty_char in (refl, (refl, tt)) in
    let solid : is_empty_char b'x' ≡ false = unfold is_empty_char in refl in
    rw ((strip_lem crlf [] [] b'x' b'x' blank tt solid solid (omega arith)).2)

or_else_step :
    (a b : Option Text) (c : Bool) (v : Text)
    → or_else (or_else a (if c then some v else none)) b ≡ or_else a (if c then some v else b)
or_else_step (some x) b c v = refl
or_else_step none b true v = refl
or_else_step none b false v = refl

or_else-none : (a : Option Text) → a ≡ or_else a none
or_else-none none = refl
or_else-none (some v) = refl

-- What the loop over the lines collects.
pub add_lines_lem :
    (ls : List Line) (m : Fields)
    → AreLines ls
    → (m' : Fields) × (add_lines (lines_of ls ++ (crlf ∷ [])) m ≡ some m')
      × ((k : Text) → find k m' ≡ or_else (find k m) (first_value k ls))
unfolding first_value
add_lines_lem [] m h = (
  m,
  add_lines_cons crlf [] m m (add_line_blank m) ∙ (unfold add_lines in refl),
  λ k. or_else-none (find k m),
)
add_lines_lem (l ∷ ls) m h =
    let m₁ = insert (text_of l.name) (text_of l.value) m in
    let (m', run, reads) = add_lines_lem ls m₁ h.1 in
    (
      m',
      add_lines_cons (line_of l) (lines_of ls ++ (crlf ∷ [])) m m₁ (add_line_lem l m h.0) ∙ run,
      λ k.
          reads k
          ∙ (rw find-insert refl)
          ∙ or_else_step (find k m) (first_value k ls) (str_eq (text_of l.name) k)
              (text_of l.value),
    )

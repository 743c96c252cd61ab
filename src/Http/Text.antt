-- ===== src/Http/Text.antt =====
-- `strip` and `splitstr` of study-linux-kernel/socket/socket-server-http-select.cpp. A `std::string`
-- is the list of its bytes.
pub mod Trimming
pub mod Windows
pub mod Rejoining
pub mod Quiet
pub mod Pieces
pub mod Uncut
use study_linux_kernel.Base.{
  ℕ, zero, suc, ◌+◌, ◌-◌, ◌%◌, List, [], ◌∷◌, ◌++◌, Option, none, some, Bool, true, false, not,
  ◌&&◌, ◌||◌, ◌==◌, ltb, if◌then◌else◌, length, take, drop, str_eq,
}
use study_linux_kernel.Sys.Calls.{Text}

-- A negative `int` that is passed as `size_t`, and a `size_t` below 0: modulo 2^64.
abbrev pub size_mod : ℕ
size_mod = 18446744073709551616

-- `substr` from a position inside the text.
unfoldable pub substr : Text → ℕ → ℕ → Text
substr s pos count = take count (drop pos s)

unfoldable pub is_empty_char : ℕ → Bool
is_empty_char ch = ch == b' ' || ch == 10 || ch == 13 || ch == 9

-- `start` and `end`, where `none` is -1.
pub record Edges : Type 0 where
  pub start : Option ℕ
  pub end_at : Option ℕ

-- The body of the loop over the two ends.
unfoldable pub note : ℕ → ℕ → Edges → Edges
note i ch e =
    if is_empty_char ch
    then e
    else elim e.start [ none ↦ record e { start = some i } | some _ ↦ record e { end_at = some i } ]

-- The index, an `int` in the source, is an unbounded number here.
unfoldable pub find_edges : ℕ → Edges → Text → Edges
find_edges i e [] = e
find_edges i e (ch ∷ rest) = find_edges (suc i) (note i ch e) rest

-- `end - start + 1`
unfoldable pub count_of : Option ℕ → ℕ → ℕ
count_of none start = (size_mod - start) % size_mod
count_of (some finish) start = finish + 1 - start

unfoldable pub start_of : Option ℕ → ℕ
start_of none = 0
start_of (some i) = i

unfoldable pub strip_ends : Text → Text
strip_ends source =
    let e = find_edges 0 (record { start = none; end_at = none }) source in
    substr source (start_of e.start) (count_of e.end_at (start_of e.start))

unfoldable pub strip_all : Text → Text
strip_all [] = []
strip_all (ch ∷ rest) = let kept = strip_all rest in if is_empty_char ch then kept else ch ∷ kept

-- `bEnd` says that only the ends are meant.
unfoldable pub strip : Text → Bool → Text
strip source true = strip_ends source
strip source false = strip_all source

-- The variables of `splitstr`; `nMatch` is `none` where it is negative.
pub record Split : Type 0 where
  pub results : List Text
  pub poslast : ℕ
  pub window : Text
  pub n_match : Option ℕ

unfoldable pub spend : Option ℕ → Option ℕ
spend none = none
spend (some n) = some (n - 1)

-- The window holds the separator: the text before it is a result.
unfoldable pub found : Text → ℕ → ℕ → Split → Split
found source width i s = record s {
  results =
      s.results ++ (substr source s.poslast ((i + size_mod - s.poslast - width) % size_mod) ∷ []);
  poslast = i;
  n_match = spend s.n_match;
}

-- `pop_front` where the window is full, and `push_back`.
unfoldable pub slide : ℕ → Text → ℕ → Text
slide width window ch = (if ltb (length window) width then window else drop 1 window) ++ (ch ∷ [])

-- A full window is compared with the separator.
unfoldable pub cut : Text → Text → ℕ → Split → Split
cut source sep i s =
    if not (ltb (length s.window) (length sep)) && str_eq s.window sep
    then found source (length sep) i s
    else s

-- The body of the loop at index `i`, for a separator that is not empty.
unfoldable pub push_char : Text → Text → ℕ → ℕ → Split → Split
push_char source sep i ch s = record (cut source sep i s) {
  window = slide (length sep) s.window ch;
}

abbrev pub spent : Option ℕ → Bool
spent none = false
spent (some n) = n == 0

unfoldable pub split_loop : Text → Text → ℕ → Split → Text → Split
split_loop source sep i s [] = s
split_loop source sep i s (ch ∷ rest) =
    let later = split_loop source sep (suc i) (push_char source sep i ch s) rest in
    if spent s.n_match then s else later

-- The results; `splitstr` puts them into its first argument and returns their number.
unfoldable pub splitstr : Text → Text → Option ℕ → List Text
splitstr source sep n_match =
    let s =
      split_loop source sep 0 (record { results = []; poslast = 0; window = []; n_match = n_match })
        source in
    s.results ++ (substr source s.poslast (length source - s.poslast) ∷ [])

-- ===== src/HashTable/Placed.antt =====
-- What a table of study-linux-kernel/dll/common_hashtable_dll.c means: the value under each key,
-- and where the entries stand.
use study_linux_kernel.Base.{
  ℕ, zero, suc, ◌+◌, ◌≤◌, ◌<◌, ◌≡◌, refl, ◌≢◌, ◌∙◌, List, [], ◌∷◌, Bool, true, false, Option, none,
  some, arith, if◌then◌else◌, str_eq, length, get_or, set, length-set, get_or_beyond, get_or-set,
}
use study_linux_kernel.HashTable.Hash.{hash_size, hash_func}
use study_linux_kernel.HashTable.Table.{
  Chain, Table, init_loop, hash_table_init, get_chain, hash_table_get,
}

abbrev pub to_nat : Bool → ℕ
to_nat true = 1
to_nat false = 0

abbrev pub pointer : Option ℕ → ℕ
pointer none = 0
pointer (some v) = v

unfoldable pub find : List ℕ → Chain → Option ℕ
find key [] = none
find key (node ∷ rest) = if str_eq node.key key then some node.value else find key rest

unfoldable pub count : List ℕ → Chain → ℕ
count key [] = 0
count key (node ∷ rest) = to_nat (str_eq node.key key) + count key rest

-- The value under a key.
unfoldable pub view : Table → List ℕ → Option ℕ
view t key = find key (get_or t.buckets (hash_func key) [])

-- There are 1024 buckets, and a key occurs at most once, in its own bucket only.
pub record IsPlaced (t : Table) : Type 0 where
  pub width : length t.buckets ≡ hash_size
  pub once : (key : List ℕ) (i : ℕ) → count key (get_or t.buckets i []) ≤ 1
  pub home : (key : List ℕ) (i : ℕ) → hash_func key ≢ i → count key (get_or t.buckets i []) ≡ 0

pub get_chain-find : (key : List ℕ) (c : Chain) → get_chain key c ≡ pointer (find key c)
unfolding get_chain find
get_chain-find key [] = refl
get_chain-find key (node ∷ rest) = ground (arith, get_chain-find key rest)

-- `get` reads the value under the key, and NULL for a missing one.
pub get-view : (t : Table) (key : List ℕ) → hash_table_get t key ≡ pointer (view t key)
unfolding hash_table_get view
get-view t key = get_chain-find key _

pub find-eq-none : (key : List ℕ) (c : Chain) → count key c ≡ 0 → find key c ≡ none
unfolding find count
find-eq-none key [] h = refl
find-eq-none key (node ∷ rest) h = ground (arith, find-eq-none key rest)

pub count-eq-zero : (key : List ℕ) (c : Chain) → find key c ≡ none → count key c ≡ 0
unfolding find count
count-eq-zero key [] h = refl
count-eq-zero key (node ∷ rest) h = ground (arith, count-eq-zero key rest)

length-init_loop :
    (n i : ℕ) (buckets : List Chain) → length (init_loop n i buckets) ≡ length buckets
unfolding init_loop
length-init_loop zero i buckets = refl
length-init_loop (suc n) i buckets =
    length-init_loop n (suc i) (set buckets i []) ∙ length-set buckets i []

init_loop_before :
    (n i j : ℕ) (buckets : List Chain)
    → j < i
    → i + n ≤ length buckets
    → get_or (init_loop n i buckets) j [] ≡ get_or buckets j []
unfolding init_loop
init_loop_before zero i j buckets h w = refl
init_loop_before (suc n) i j buckets h w = ground (
  arith,
  init_loop_before n (suc i) j (set buckets i []),
  length-set buckets i [],
  get_or-set buckets i j [] [],
)

pub init_loop_clears :
    (n i j : ℕ) (buckets : List Chain)
    → i ≤ j
    → i + n ≡ length buckets
    → get_or (init_loop n i buckets) j [] ≡ []
unfolding init_loop
init_loop_clears zero i j buckets h w = get_or_beyond buckets j [] (omega arith)
init_loop_clears (suc n) i j buckets h w = ground (
  arith,
  init_loop_clears n (suc i) j (set buckets i []),
  init_loop_before n (suc i) j (set buckets i []),
  length-set buckets i [],
  get_or-set buckets i j [] [],
)

-- Whatever a table of 1024 buckets held, `hash_table_init` leaves it well placed and with no value
-- under any key.
pub init-IsPlaced :
    (t : Table)
    → length t.buckets ≡ hash_size
    → IsPlaced (hash_table_init t) × ((key : List ℕ) → view (hash_table_init t) key ≡ none)
unfolding hash_table_init view find count
init-IsPlaced t w =
    let clear : (j : ℕ) → get_or (hash_table_init t).buckets j [] ≡ [] =
      λ j. init_loop_clears hash_size 0 j t.buckets (omega arith) (omega arith) in
    (
      record {
        width = length-init_loop hash_size 0 t.buckets ∙ w;
        once = λ key i. rw (clear i) (omega arith);
        home = λ key i _. rw (clear i);
      },
      λ key. rw (clear (hash_func key)),
    )

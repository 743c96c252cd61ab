-- ===== src/HashTable/Chains.antt =====
-- One chain under `hash_table_put` of study-linux-kernel/dll/common_hashtable_dll.c.
use study_linux_kernel.Base.{
  ℕ, ◌+◌, ◌≤◌, ◌<◌, ◌≡◌, refl, inl, inr, List, [], ◌∷◌, Bool, true, false, not, ◌&&◌, ◌||◌, none,
  some, arith, ltb, if◌then◌else◌, Bool-cases, str_eq, str_eq_iff, length,
}
use study_linux_kernel.HashTable.Hash.{max_key_len}
use study_linux_kernel.Base.Run.{Run, ok, fault, buffer_overflow}
use study_linux_kernel.HashTable.Table.{Node, Chain, hash_node_create, put_chain, put_bucket}
use study_linux_kernel.HashTable.Placed.{to_nat, find, count}

-- `key` is in the chain.
unfoldable pub has : List ℕ → Chain → Bool
has key [] = false
has key (node ∷ rest) = str_eq node.key key || has key rest

-- The first node of `key` gets the value, or `new` comes behind the last node.
unfoldable pub assign : List ℕ → ℕ → Chain → Chain → Chain
assign key value new [] = new
assign key value new (node ∷ rest) =
    if str_eq node.key key
    then record node { value = value } ∷ rest
    else node ∷ assign key value new rest

-- What becomes of a chain: a new key needs memory, and a key that fits its array.
unfoldable pub stored : Bool → List ℕ → ℕ → Chain → Run Chain
stored memory key value c =
    if has key c
    then ok (assign key value [] c)
    else if not memory
    then ok c
    else if ltb (length key) max_key_len
    then ok (assign key value (record { key = key; value = value } ∷ []) c)
    else fault buffer_overflow

-- The loop of `put`, which stops one node before the end, is a search of the whole chain.
put_chain-stored :
    (memory : Bool) (key : List ℕ) (value : ℕ) (node : Node) (rest : Chain)
    → put_chain memory key value node rest ≡ stored memory key value (node ∷ rest)
unfolding put_chain hash_node_create stored has assign
put_chain-stored true key value node [] = ground arith
put_chain-stored false key value node [] = ground arith
put_chain-stored memory key value node (next ∷ rest) =
    rw (put_chain-stored memory key value next rest) (ground arith)

pub put_bucket-stored :
    (memory : Bool) (key : List ℕ) (value : ℕ) (c : Chain)
    → put_bucket memory key value c ≡ stored memory key value c
unfolding put_bucket hash_node_create stored has assign
put_bucket-stored true key value [] = refl
put_bucket-stored false key value [] = refl
put_bucket-stored memory key value (node ∷ rest) = put_chain-stored memory key value node rest

-- A chain keeps its other keys, and no key comes twice.
module _ (key q : List ℕ) (value : ℕ) where
  find-assign_old :
      (c new : Chain)
      → has key c ≡ true
      → find q (assign key value new c) ≡ (if str_eq key q then some value else find q c)
  unfolding find has assign
  find-assign_old [] new h = cc
  find-assign_old (node ∷ rest) new h = ground (
    arith,
    find-assign_old rest new,
    str_eq_iff node.key key,
    str_eq_iff node.key q,
    str_eq_iff key q,
  )

  find-assign_new :
      (c : Chain)
      → has key c ≡ false
      → find q (assign key value (record { key = key; value = value } ∷ []) c)
        ≡ (if str_eq key q then some value else find q c)
  unfolding find has assign
  find-assign_new [] h = refl
  find-assign_new (node ∷ rest) h = ground (
    arith,
    find-assign_new rest,
    str_eq_iff node.key key,
    str_eq_iff node.key q,
    str_eq_iff key q,
  )

  count-assign_old :
      (c new : Chain) → has key c ≡ true → count q (assign key value new c) ≡ count q c
  unfolding count has assign
  count-assign_old [] new h = cc
  count-assign_old (node ∷ rest) new h = ground (arith, count-assign_old rest new)

  count-assign_new :
      (c : Chain)
      → has key c ≡ false
      → count q (assign key value (record { key = key; value = value } ∷ []) c)
        ≡ count q c + to_nat (str_eq key q)
  unfolding count has assign
  count-assign_new [] h = omega arith
  count-assign_new (node ∷ rest) h = ground (arith, count-assign_new rest)

count_absent : (key : List ℕ) (c : Chain) → has key c ≡ false → count key c ≡ 0
unfolding count has
count_absent key [] h = refl
count_absent key (node ∷ rest) h = ground (arith, count_absent key rest)

-- What a chain becomes, whichever way it is stored.
pub record Replaces (written : Bool) (key : List ℕ) (value : ℕ) (c c' : Chain) : Type 0 where
  pub reads : (q : List ℕ) → find q c' ≡ (if str_eq key q && written then some value else find q c)
  pub once : (q : List ℕ) → count q c ≤ 1 → count q c' ≤ 1
  pub apart : (q : List ℕ) → str_eq key q ≡ false → count q c' ≡ count q c

-- A new key, with and without memory.
stored-Replaces_new :
    (memory : Bool) (key : List ℕ) (value : ℕ) (c : Chain)
    → length key < max_key_len
    → has key c ≡ false
    → (c' : Chain) × (stored memory key value c ≡ ok c') × Replaces memory key value c c'
unfolding stored
stored-Replaces_new false key value c short new =
    (c, ground arith, record { reads = λ q. ground arith; once = λ q h. h; apart = λ q _. refl })
stored-Replaces_new true key value c short new = (
  assign key value (record { key = key; value = value } ∷ []) c,
  ground arith,
  record {
    reads = λ q. ground (arith, find-assign_new key q value c new);
    once = λ q h.
        ground
          (arith, count-assign_new key q value c new, count_absent key c new, str_eq_iff key q);
    apart = λ q h. ground (arith, count-assign_new key q value c new);
  },
)

pub stored-Replaces :
    (memory : Bool) (key : List ℕ) (value : ℕ) (c : Chain)
    → length key < max_key_len
    → (c' : Chain) × (stored memory key value c ≡ ok c')
      × Replaces (memory || has key c) key value c c'
unfolding stored
stored-Replaces memory key value c short = elim (Bool-cases (has key c)) [
  | inl old ↦ (
    assign key value [] c,
    ground arith,
    record {
      reads = λ q. ground (arith, find-assign_old key q value c []);
      once = λ q h. rw (count-assign_old key q value c [] old) h;
      apart = λ q _. count-assign_old key q value c [] old;
    },
  )
  | inr new ↦
      let (c', run, r) = stored-Replaces_new memory key value c short new in
      (c', run, rw new (ground arith))
]

pub has-find : (key : List ℕ) (c : Chain) → find key c ≡ none → has key c ≡ false
unfolding find has
has-find key [] h = refl
has-find key (node ∷ rest) h = ground (arith, has-find key rest)

pub find-has : (key : List ℕ) (c : Chain) (v : ℕ) → find key c ≡ some v → has key c ≡ true
unfolding find has
find-has key [] v h = cc
find-has key (node ∷ rest) v h = ground (arith, find-has key rest v)

-- A new key that does not fit its array is written past the end.
pub stored_overflow :
    (key : List ℕ) (value : ℕ) (c : Chain)
    → has key c ≡ false
    → max_key_len ≤ length key
    → stored true key value c ≡ fault buffer_overflow
unfolding stored
stored_overflow key value c new long = ground arith

-- ===== src/HashTable/Table.antt =====
-- The node, the table, and `hash_node_create`, `hash_table_init`, `hash_table_put` and
-- `hash_table_get` of study-linux-kernel/dll/common_hashtable_dll.c.
-- A chain is the list of its nodes, and NULL the empty list; a write through `node` gives the list
-- with that node changed. A pointer value is its address, and 0 is NULL.
use study_linux_kernel.Base.{
  ℕ, zero, suc, List, [], ◌∷◌, Bool, true, false, ltb, if◌then◌else◌, str_eq, length, get_or, set,
}
use study_linux_kernel.Base.Run.{Run, ok, fault, buffer_overflow, ◌>>=◌}
use study_linux_kernel.HashTable.Hash.{hash_size, max_key_len, hash_func}

pub record Node : Type 0 where
  pub key : List ℕ
  pub value : ℕ

abbrev pub Chain : Type 0
Chain = List Node

pub record Table : Type 0 where
  pub buckets : List Chain

-- The flag says whether `malloc` has memory. `strcpy` writes the key and its NUL.
unfoldable pub hash_node_create : Bool → List ℕ → ℕ → Run Chain
hash_node_create false key value = ok []
hash_node_create true key value =
    if ltb (length key) max_key_len
    then ok (record { key = key; value = value } ∷ [])
    else fault buffer_overflow

-- The loop of `hash_table_init`: `n` rounds are left from index `i` on.
unfoldable pub init_loop : ℕ → ℕ → List Chain → List Chain
init_loop zero i buckets = buckets
init_loop (suc n) i buckets = init_loop n (suc i) (set buckets i [])

unfoldable pub hash_table_init : Table → Table
hash_table_init t = record { buckets = init_loop hash_size 0 t.buckets }

-- `put` from `node`, with `rest` behind it: the loop, and the last node after it.
unfoldable pub put_chain : Bool → List ℕ → ℕ → Node → Chain → Run Chain
put_chain memory key value node [] =
    if str_eq node.key key
    then ok (record node { value = value } ∷ [])
    else (hash_node_create memory key value >>= λ new. ok (node ∷ new))
put_chain memory key value node (next ∷ rest) =
    let onward = put_chain memory key value next rest in
    if str_eq node.key key
    then ok (record node { value = value } ∷ next ∷ rest)
    else (onward >>= λ tail. ok (node ∷ tail))

unfoldable pub put_bucket : Bool → List ℕ → ℕ → Chain → Run Chain
put_bucket memory key value [] = hash_node_create memory key value
put_bucket memory key value (node ∷ rest) = put_chain memory key value node rest

unfoldable pub hash_table_put : Bool → Table → List ℕ → ℕ → Run Table
hash_table_put memory t key value =
    let hash = hash_func key in
    put_bucket memory key value (get_or t.buckets hash []) >>= λ chain.
    ok (record { buckets = set t.buckets hash chain })

-- The loop of `hash_table_get`; a missing key gives NULL.
unfoldable pub get_chain : List ℕ → Chain → ℕ
get_chain key [] = 0
get_chain key (node ∷ rest) = if str_eq node.key key then node.value else get_chain key rest

unfoldable pub hash_table_get : Table → List ℕ → ℕ
hash_table_get t key = get_chain key (get_or t.buckets (hash_func key) [])

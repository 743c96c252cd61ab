-- ===== src/HashTable/Iterator.antt =====
-- The cursor of study-linux-kernel/dll/common_hashtable_dll.c: `hash_table_next_node`, `_begin`,
-- `_end`, `_next` and `_current_value`. The index -1 is `none`. `current` is the chain from the
-- current node on, and NULL is the empty list; a read through NULL is a fault.
use study_linux_kernel.Base.{
  ℕ, zero, suc, ◌-◌, List, [], ◌∷◌, Bool, true, false, Option, none, some, leb, if◌then◌else◌,
  get_or, take,
}
use study_linux_kernel.HashTable.Hash.{hash_size, max_key_len}
use study_linux_kernel.Base.Run.{Run, ok, fault, null_pointer}
use study_linux_kernel.HashTable.Table.{Chain, Table}

-- `hash_table_context`
pub record Context : Type 0 where
  pub bucket_index : Option ℕ
  pub current : Chain

-- The loop of `hash_table_next_node`: `n` buckets are left from index `i` on.
unfoldable pub scan : ℕ → ℕ → List Chain → Option ℕ
scan zero i buckets = none
scan (suc n) i buckets =
    let later = scan n (suc i) buckets in elim (get_or buckets i []) [ [] ↦ later | _ ∷ _ ↦ some i ]

unfoldable pub hash_table_next_node : Table → ℕ → Option ℕ
hash_table_next_node t start =
    if leb hash_size start then none else scan (hash_size - start) start t.buckets

-- `begin` allocates the context, unchecked: with no memory it writes through NULL.
unfoldable pub hash_table_begin : Bool → Table → Run Context
hash_table_begin false t = fault null_pointer
hash_table_begin true t =
    let index = hash_table_next_node t 0 in
    ok (record {
      bucket_index = index;
      current = elim index [ none ↦ [] | some i ↦ get_or t.buckets i [] ];
    })

-- The answer, and the context, which is freed with the answer TRUE.
unfoldable pub hash_table_end : Context → Bool × Option Context
hash_table_end c = elim c.current [ [] ↦ (true, none) | _ ∷ _ ↦ (false, some c) ]

-- The context that `next` enters at a bucket.
unfoldable pub enter : Table → Option ℕ → Context
enter t none = record { bucket_index = none; current = [] }
enter t (some i) = record {
  bucket_index = some i;
  current = if leb hash_size i then [] else get_or t.buckets i [];
}

-- `bucket_index + 1`, where -1 + 1 is 0.
abbrev pub next_index : Option ℕ → ℕ
next_index none = 0
next_index (some i) = suc i

unfoldable pub advance : Table → Option ℕ → Chain → Run Context
advance t index [] = fault null_pointer
advance t index (node ∷ []) = ok (enter t (hash_table_next_node t (next_index index)))
advance t index (node ∷ next ∷ rest) = ok (record { bucket_index = index; current = next ∷ rest })

unfoldable pub hash_table_next : Table → Context → Run Context
hash_table_next t c = advance t c.bucket_index c.current

-- `strncpy` copies at most MAX_KEY_LEN bytes of the key.
unfoldable pub hash_table_current_value : Context → Run (List ℕ × ℕ)
hash_table_current_value c = elim c.current [
  | [] ↦ fault null_pointer
  | node ∷ _ ↦ ok (take max_key_len node.key, node.value)
]

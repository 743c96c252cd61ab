-- ===== src/Tests/HashTables.antt =====
-- The hash table of study-linux-kernel/dll/common_hashtable_dll.c on concrete tables.
use study_linux_kernel.Base.{
  ℕ, ◌+◌, ◌*◌, ◌%◌, ◌≡◌, refl, List, [], ◌∷◌, true, false, ◌&&◌, none, some, arith, if◌then◌else◌,
  str_eq, length, replicate, length-replicate,
}
use study_linux_kernel.Base.Run.{ok, fault, null_pointer}
use study_linux_kernel.HashTable.Hash.{hash_size, hash_func}
use study_linux_kernel.HashTable.Table.{Table, hash_table_init, hash_table_put, hash_table_get}
use study_linux_kernel.HashTable.Iterator.{Context, hash_table_begin}
use study_linux_kernel.HashTable.Placed.{IsPlaced, view, init-IsPlaced}
use study_linux_kernel.HashTable.Put.{writes, put-view, get-put}
use study_linux_kernel.HashTable.Traversal.{traverse, entries, traverse-entries}

-- The hash of "ab", and of a byte that is a negative `char`.
hash_ab : hash_func (b'a' ∷ b'b' ∷ []) ≡ (97 * 31 + 98) % 1024
unfolding hash_func
hash_ab = refl

hash_high : hash_func (255 ∷ []) ≡ 1023
unfolding hash_func
hash_high = refl

raw : Table
raw = record { buckets = replicate hash_size [] }

raw_width : length raw.buckets ≡ hash_size
unfolding raw
raw_width = length-replicate hash_size []

raw-IsPlaced :
    IsPlaced (hash_table_init raw) × ((key : List ℕ) → view (hash_table_init raw) key ≡ none)
raw-IsPlaced = init-IsPlaced raw raw_width

abbrev key : List ℕ
key = b'1' ∷ b':' ∷ b'9' ∷ []

put-view_example :
    (t' : Table) × (hash_table_put true (hash_table_init raw) key 5 ≡ ok t')
    × IsPlaced t'
    × ((q : List ℕ)
        → view t' q ≡ (
            if str_eq key q && writes true (hash_table_init raw) key
            then some 5
            else view (hash_table_init raw) q))
put-view_example = put-view (hash_table_init raw) key 5 raw-IsPlaced.0 true (omega arith)

get-put_example :
    (t' : Table) × (hash_table_put true (hash_table_init raw) key 5 ≡ ok t')
    × ((q : List ℕ)
        → hash_table_get t' q
          ≡ (if str_eq key q then 5 else hash_table_get (hash_table_init raw) q))
unfolding writes
get-put_example = get-put (hash_table_init raw) key 5 raw-IsPlaced.0 true (omega arith) refl

filled : Table
filled = put-view_example.0

traverse-entries_example :
    (hash_table_begin false filled ≡ fault null_pointer)
    × (c : Context) × (hash_table_begin true filled ≡ ok c)
    × (traverse (length (entries filled.buckets) + 1) filled c ≡ some (ok (entries filled.buckets)))
unfolding filled
traverse-entries_example =
    traverse-entries filled (length (entries filled.buckets) + 1) put-view_example.2.width
      (omega arith)

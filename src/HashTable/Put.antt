-- ===== src/HashTable/Put.antt =====
-- What `hash_table_put` of study-linux-kernel/dll/common_hashtable_dll.c does to the table.
use study_linux_kernel.Base.{
  ℕ, ◌==◌, ◌≤◌, ◌<◌, ◌≡◌, ◌∙◌, List, [], Bool, true, ◌&&◌, ◌||◌, none, some, arith, if◌then◌else◌,
  str_eq, str_eq_iff, length, get_or, set, length-set, get_or-set,
}
use study_linux_kernel.HashTable.Hash.{max_key_len, hash_func, hash_func-lt}
use study_linux_kernel.Base.Run.{ok, fault, buffer_overflow}
use study_linux_kernel.HashTable.Table.{Chain, Table, hash_table_put, hash_table_get}
use study_linux_kernel.HashTable.Placed.{view, IsPlaced, get-view}
use study_linux_kernel.HashTable.Chains.{
  put_bucket-stored, Replaces, stored-Replaces, stored_overflow, has, has-find,
}

-- The chain of a key.
abbrev home : Table → List ℕ → Chain
home t key = get_or t.buckets (hash_func key) []

-- `put` writes unless the key is new and there is no memory.
unfoldable pub writes : Bool → Table → List ℕ → Bool
writes memory t key = memory || has key (home t key)

module _ (t : Table) (key : List ℕ) (value : ℕ) (p : IsPlaced t) where
  -- The table with the home chain of `key` replaced.
  inside : hash_func key < length t.buckets
  inside = omega (arith, hash_func-lt key, p.width)

  bucket-set :
      (c' : Chain) (i : ℕ)
      → get_or (set t.buckets (hash_func key) c') i []
        ≡ (if hash_func key == i then c' else get_or t.buckets i [])
  bucket-set c' i = get_or-set t.buckets (hash_func key) i c' [] inside

  put-Placed_of :
      (written : Bool) (c' : Chain)
      → Replaces written key value (home t key) c'
      → let t' : Table = record { buckets = set t.buckets (hash_func key) c' } in
        IsPlaced t'
        × ((q : List ℕ) → view t' q ≡ (if str_eq key q && written then some value else view t q))
  unfolding view
  put-Placed_of written c' r = (
    record {
      width = length-set t.buckets _ c' ∙ p.width;
      once = λ q i.
          rw (bucket-set c' i) (ground (arith, r.once q, p.once q i, p.once q (hash_func key)));
      home = λ q i n.
          rw (bucket-set c' i)
            (ground (arith, r.apart q, p.home q i, p.home q (hash_func key), str_eq_iff key q));
    },
    λ q. rw (bucket-set c' (hash_func q)) (ground (arith, r.reads q, str_eq_iff key q)),
  )

  -- With room for the key `put` succeeds, keeps the table well placed, and changes the value under
  -- the key alone; only a new key with no memory changes nothing.
  pub put-view :
      (memory : Bool)
      → length key < max_key_len
      → (t' : Table) × (hash_table_put memory t key value ≡ ok t')
        × IsPlaced t'
        × ((q : List ℕ)
            → view t' q ≡ (if str_eq key q && writes memory t key then some value else view t q))
  unfolding hash_table_put writes
  put-view memory short =
      let (c', run, r) = stored-Replaces memory key value (home t key) short in
      let (placed, reads) = put-Placed_of (memory || has key (home t key)) c' r in
      (
        record { buckets = set t.buckets (hash_func key) c' },
        rw (put_bucket-stored, run),
        placed,
        reads,
      )

  -- A `get` after a `put` that had memory, or that met the key, finds the value under that key and
  -- what stood before under every other.
  pub get-put :
      (memory : Bool)
      → length key < max_key_len
      → writes memory t key ≡ true
      → (t' : Table) × (hash_table_put memory t key value ≡ ok t')
        × ((q : List ℕ)
            → hash_table_get t' q ≡ (if str_eq key q then value else hash_table_get t q))
  get-put memory short w =
      let (t', run, _, reads) = put-view memory short in
      (t', run, λ q. rw (get-view, get-view) (ground (arith, reads q)))

-- A new key of 128 bytes or more, with memory for its node, is copied past the end of the node's
-- array.
pub put_overflow :
    (t : Table) (key : List ℕ) (value : ℕ)
    → view t key ≡ none
    → max_key_len ≤ length key
    → hash_table_put true t key value ≡ fault buffer_overflow
unfolding hash_table_put view
put_overflow t key value new long =
    rw (
      put_bucket-stored,
      stored_overflow key value (home t key) (has-find key (home t key) new) long,
    )

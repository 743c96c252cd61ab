-- ===== src/HashTable/Traversal.antt =====
-- The loop `for (it = begin(); !end(it); next(it)) use current_value(it)` that the iterator of
-- study-linux-kernel/dll/common_hashtable_dll.c is made for, and that chatroom_server.c runs.
pub mod Growth
use study_linux_kernel.Base.{
  ℕ, zero, suc, ◌+◌, ◌-◌, ◌<◌, ◌≡◌, refl, ◌∙◌, ap, ◌⊎◌, inl, inr, List, [], ◌∷◌, ◌++◌, true, false,
  Option, none, some, arith, leb, length, get_or, take,
}
use study_linux_kernel.HashTable.Hash.{hash_size, max_key_len}
use study_linux_kernel.Base.Run.{Run, ok, fault, null_pointer}
use study_linux_kernel.HashTable.Table.{Node, Chain, Table}
use study_linux_kernel.HashTable.Iterator.{
  Context, scan, hash_table_next_node, hash_table_begin, hash_table_end, enter, advance,
  hash_table_next, hash_table_current_value,
}

abbrev pub Entry : Type 0
Entry = List ℕ × ℕ

-- The rest of the loop after `next`, and the body's entry in front of the rest.
unfoldable pub onward :
    (Context → Option (Run (List Entry))) → Run Context → Option (Run (List Entry))
onward k (ok c) = k c
onward k (fault e) = some (fault e)

unfoldable pub visit : Run Entry → Option (Run (List Entry)) → Option (Run (List Entry))
visit (fault e) rest = some (fault e)
visit (ok x) none = none
visit (ok x) (some (fault e)) = some (fault e)
visit (ok x) (some (ok xs)) = some (ok (x ∷ xs))

-- The entries in the order of the loop; `none` says that the fuel ran out.
unfoldable pub traverse : ℕ → Table → Context → Option (Run (List Entry))
unfolding onward visit
traverse zero t c = none
traverse (suc fuel) t c = elim (hash_table_end c).0 [
  | true ↦ some (ok [])
  | false ↦ visit (hash_table_current_value c) (onward (traverse fuel t) (hash_table_next t c))
]

-- What the loop should show: each chain in turn, a key as far as `strncpy` copies it.
pub shown : Chain → List Entry
shown [] = []
shown (node ∷ rest) = (take max_key_len node.key, node.value) ∷ shown rest

pub entries : List Chain → List Entry
entries [] = []
entries (c ∷ buckets) = shown c ++ entries buckets

-- The entries of `n` buckets from index `i` on.
entries_from : ℕ → ℕ → List Chain → List Entry
entries_from zero i buckets = []
entries_from (suc n) i buckets = shown (get_or buckets i []) ++ entries_from n (suc i) buckets

entries_from-suc :
    (n i : ℕ) (c : Chain) (buckets : List Chain)
    → entries_from n (suc i) (c ∷ buckets) ≡ entries_from n i buckets
unfolding entries_from get_or
entries_from-suc zero i c buckets = refl
entries_from-suc (suc n) i c buckets = rw (entries_from-suc n (suc i) c buckets)

entries_from-entries :
    (buckets : List Chain) → entries_from (length buckets) 0 buckets ≡ entries buckets
unfolding entries_from entries get_or
entries_from-entries [] = refl
entries_from-entries (c ∷ buckets) =
    rw (entries_from-suc (length buckets) 0 c buckets, entries_from-entries buckets)

-- What `scan` finds: nothing, and nothing is left, or the first bucket that is not empty.
data Scanned (n i : ℕ) (buckets : List Chain) : Type 0 where
  nothing : scan n i buckets ≡ none → entries_from n i buckets ≡ [] → Scanned n i buckets
  found :
      (j m : ℕ) (node : Node) (rest : Chain)
      → scan n i buckets ≡ some j
      → j + suc m ≡ i + n
      → get_or buckets j [] ≡ node ∷ rest
      → entries_from n i buckets ≡ shown (node ∷ rest) ++ entries_from m (suc j) buckets
      → Scanned n i buckets

Chain-cases : (c : Chain) → (c ≡ []) ⊎ ((node : Node) × (rest : Chain) × (c ≡ node ∷ rest))
Chain-cases [] = inl refl
Chain-cases (node ∷ rest) = inr (node, rest, refl)

scan-Scanned : (n i : ℕ) (buckets : List Chain) → Scanned n i buckets
unfolding scan entries_from shown
scan-Scanned zero i buckets = nothing refl refl
scan-Scanned (suc n) i buckets = elim (Chain-cases (get_or buckets i [])) [
  | inr (node, rest, e) ↦ found i n node rest (rw (e, scan)) refl e (rw (e, entries_from))
  | inl e ↦ later e (scan-Scanned n (suc i) buckets)
]
  where
    later : get_or buckets i [] ≡ [] → Scanned n (suc i) buckets → Scanned (suc n) i buckets
    later e (nothing s z) = nothing (rw (e, scan) s) (rw (e, entries_from) z)
    later e (found j m node rest s w b z) =
        found j m node rest (rw (e, scan) s) (omega arith) b (rw (e, entries_from) z)

-- The context that stands at `node`, in bucket `i`.
cursor_at : ℕ → Node → Chain → Context
cursor_at i node rest = record { bucket_index = some i; current = node ∷ rest }

abbrev size : ℕ → ℕ → Chain → List Chain → ℕ
size m i c buckets = length (shown c ++ entries_from m (suc i) buckets)

next_node-scan :
    (t : Table) (i n : ℕ) → i + n ≡ hash_size → hash_table_next_node t i ≡ scan n i t.buckets
unfolding hash_table_next_node scan
next_node-scan t i zero w = ground arith
next_node-scan t i (suc n) w =
    let left : hash_size - i ≡ suc n = omega arith in rw left (ground arith)

-- The loop ends at NULL.
traverse_null :
    (fuel : ℕ) (t : Table) (index : Option ℕ)
    → 0 < fuel
    → traverse fuel t (record { bucket_index = index; current = [] }) ≡ some (ok [])
unfolding traverse hash_table_end
traverse_null zero t index f = absurd (omega arith)
traverse_null (suc fuel) t index f = refl

enter-cursor_at :
    (t : Table) (j : ℕ) (node : Node) (rest : Chain)
    → j < hash_size
    → get_or t.buckets j [] ≡ node ∷ rest
    → enter t (some j) ≡ cursor_at j node rest
unfolding enter cursor_at
enter-cursor_at t j node rest h b = ground arith

-- The rest of the loop from the end of a chain, given the loop at the head of the next one.
traverse_later :
    (fuel : ℕ) (t : Table) (i m : ℕ)
    → i + m ≡ hash_size
    → length (entries_from m i t.buckets) < fuel
    → ((j k : ℕ) (node : Node) (rest : Chain)
        → j + suc k ≡ hash_size
        → size k j (node ∷ rest) t.buckets < fuel
        → traverse fuel t (cursor_at j node rest)
          ≡ some (ok (shown (node ∷ rest) ++ entries_from k (suc j) t.buckets)))
    → traverse fuel t (enter t (hash_table_next_node t i)) ≡ some (ok (entries_from m i t.buckets))
unfolding enter
traverse_later fuel t i m w f ih = go (scan-Scanned m i t.buckets)
  where
    go :
        Scanned m i t.buckets
        → traverse fuel t (enter t (hash_table_next_node t i))
          ≡ some (ok (entries_from m i t.buckets))
    go (nothing s z) = rw (next_node-scan t i m w, s, z) (traverse_null fuel t none (omega arith))
    go (found j k node rest s w' b z) =
        rw (next_node-scan t i m w, s, z, enter-cursor_at t j node rest (omega arith) b)
          (ih j k node rest (omega arith) (rw z at f))

-- From a node in bucket `i` the loop shows what is left of its chain, then the later buckets.
traverse-cursor_at :
    (fuel : ℕ) (t : Table) (i m : ℕ) (node : Node) (rest : Chain)
    → i + suc m ≡ hash_size
    → size m i (node ∷ rest) t.buckets < fuel
    → traverse fuel t (cursor_at i node rest)
      ≡ some (ok (shown (node ∷ rest) ++ entries_from m (suc i) t.buckets))
unfolding traverse hash_table_end hash_table_current_value hash_table_next advance cursor_at shown
traverse-cursor_at zero t i m node rest w f = absurd (omega arith)
traverse-cursor_at (suc fuel) t i m node (next ∷ rest) w f =
    rw (traverse-cursor_at fuel t i m next rest w (omega arith))
traverse-cursor_at (suc fuel) t i m node [] w f = rw (
    traverse_later fuel t (suc i) m (omega arith) (omega arith)
      (λ j k n r. traverse-cursor_at fuel t j k n r))

-- `begin` enters the first bucket that is not empty, as `next` would.
begin-enter : (t : Table) → hash_table_begin true t ≡ ok (enter t (hash_table_next_node t 0))
unfolding hash_table_begin enter
begin-enter t = go (scan-Scanned hash_size 0 t.buckets)
  where
    first : hash_table_next_node t 0 ≡ scan hash_size 0 t.buckets
    first = next_node-scan t 0 hash_size (omega arith)

    go :
        Scanned hash_size 0 t.buckets
        → hash_table_begin true t ≡ ok (enter t (hash_table_next_node t 0))
    go (nothing s z) = rw (first, s)
    go (found j k node rest s w b z) =
        let inside : leb hash_size j ≡ false = ground arith in rw (first, s, inside)

-- The loop from the cursor that there is memory for.
pub traverse_from_begin :
    (t : Table) (fuel : ℕ)
    → length t.buckets ≡ hash_size
    → length (entries t.buckets) < fuel
    → (c : Context) × (hash_table_begin true t ≡ ok c)
      × (traverse fuel t c ≡ some (ok (entries t.buckets)))
traverse_from_begin t fuel w f =
    let all : entries_from hash_size 0 t.buckets ≡ entries t.buckets =
      rw (← w) (entries_from-entries t.buckets) in
    (
      enter t (hash_table_next_node t 0),
      begin-enter t,
      traverse_later fuel t 0 hash_size (omega arith) (rw all f)
            (λ j k n r. traverse-cursor_at fuel t j k n r)
          ∙ ap (λ es. some (ok es)) all,
    )

-- For a table of 1024 buckets: without memory for the cursor, `hash_table_begin` writes through NULL.
-- With memory it gives a cursor, and the loop of `hash_table_end`, `hash_table_current_value` and
-- `hash_table_next` from there, which collects what it is shown, faults nowhere, ends with fuel above
-- the number of entries, and is shown every entry of every bucket once, in the order of the buckets.
pub traverse-entries :
    (t : Table) (fuel : ℕ)
    → length t.buckets ≡ hash_size
    → length (entries t.buckets) < fuel
    → (hash_table_begin false t ≡ fault null_pointer)
      × (c : Context) × (hash_table_begin true t ≡ ok c)
      × (traverse fuel t c ≡ some (ok (entries t.buckets)))
unfolding hash_table_begin
traverse-entries t fuel w f =
    let (c, start, all) = traverse_from_begin t fuel w f in (refl, c, start, all)

-- ===== src/HashTable/Traversal/Growth.antt =====
-- The entries of a table of study-linux-kernel/dll/common_hashtable_dll.c behind `hash_table_init` and
-- `hash_table_put`.
use study_linux_kernel.Base.{
  ℕ, zero, suc, ◌≤◌, ◌≡◌, refl, List, [], ◌∷◌, ◌++◌, Bool, Bool-cases, ◌⊎◌, inl, inr, arith, str_eq,
  length, length-append, get_or, set,
}
use study_linux_kernel.Base.Run
use study_linux_kernel.Base.Run.{Run, ok, fault}
use study_linux_kernel.HashTable.Hash.{hash_size, hash_func}
use study_linux_kernel.HashTable.Table.{Chain, Table, put_bucket, hash_table_init, hash_table_put}
use study_linux_kernel.HashTable.Placed.{init_loop_clears}
use study_linux_kernel.HashTable.Chains.{assign, stored, put_bucket-stored}
use study_linux_kernel.HashTable.Traversal.{Entry, shown, entries}

-- Every value has the property.
abbrev pub Every : (ℕ → Type 0) → List Entry → Type 0
Every P [] = Unit {0}
Every P (e ∷ es) = P e.1 × Every P es

pub Every-weaken :
    (P R : ℕ → Type 0) (es : List Entry) → ((v : ℕ) → P v → R v) → Every P es → Every R es
Every-weaken P R [] f h = tt
Every-weaken P R (e ∷ es) f h = (f e.1 h.0, Every-weaken P R es f h.1)

module _ (P : ℕ → Type 0) where
  Every-append : (xs ys : List Entry) → Every P xs → Every P ys → Every P (xs ++ ys)
  Every-append [] ys h k = k
  Every-append (x ∷ xs) ys h k = (h.0, Every-append xs ys h.1 k)

  Every-split : (xs ys : List Entry) → Every P (xs ++ ys) → Every P xs × Every P ys
  Every-split [] ys h = (tt, h)
  Every-split (x ∷ xs) ys h = let (k, l) = Every-split xs ys h.1 in ((h.0, k), l)

  -- A chain with at most one node more.
  record Grows (c c' : Chain) : Type 0 where
    values : Every P (shown c')
    size : length (shown c') ≤ suc (length (shown c))

  shown_nil : shown [] ≡ []
  unfolding shown
  shown_nil = refl

  assign-Grows :
      (key : List ℕ) (value : ℕ) (new c : Chain)
      → P value
      → Every P (shown new)
      → length (shown new) ≤ 1
      → Every P (shown c)
      → Grows c (assign key value new c)
  unfolding assign shown
  assign-Grows key value new [] p e s h = record { values = e; size = omega (arith, s) }
  assign-Grows key value new (node ∷ rest) p e s h = elim (Bool-cases (str_eq node.key key)) [
    | inl b ↦ rw b (record { values = (p, h.1); size = omega arith })
    | inr b ↦
        let g = assign-Grows key value new rest p e s h.1 in
        rw b (record { values = (h.0, g.values); size = omega (arith, g.size) })
  ]

  one_node :
      (key : List ℕ) (value : ℕ)
      → P value
      → Every P (shown (record { key = key; value = value } ∷ []))
  unfolding shown
  one_node key value p = (p, tt)

  one_size :
      (key : List ℕ) (value : ℕ) → length (shown (record { key = key; value = value } ∷ [])) ≤ 1
  unfolding shown
  one_size key value = omega arith

  stored-cases :
      (memory : Bool) (key : List ℕ) (value : ℕ) (c c' : Chain)
      → stored memory key value c ≡ ok c'
      → (c' ≡ assign key value [] c)
        ⊎ ((c' ≡ c) ⊎ (c' ≡ assign key value (record { key = key; value = value } ∷ []) c))
  unfolding stored
  stored-cases memory key value c c' e = ground arith

  stored-Grows :
      (memory : Bool) (key : List ℕ) (value : ℕ) (c c' : Chain)
      → P value
      → Every P (shown c)
      → stored memory key value c ≡ ok c'
      → Grows c c'
  unfolding shown
  stored-Grows memory key value c c' p h e = elim (stored-cases memory key value c c' e) [
    | inl a ↦ rw a (assign-Grows key value [] c p tt (omega arith) h)
    | inr (inl a) ↦ rw a (record { values = h; size = omega arith })
    | inr (inr a) ↦
        rw a (assign-Grows key value _ c p (one_node key value p) (one_size key value) h)
  ]

  Every-entries_at :
      (buckets : List Chain) (i : ℕ)
      → Every P (entries buckets)
      → Every P (shown (get_or buckets i []))
  unfolding entries get_or shown
  Every-entries_at [] i h = tt
  Every-entries_at (c ∷ buckets) zero h = (Every-split (shown c) (entries buckets) h).0
  Every-entries_at (c ∷ buckets) (suc i) h =
      Every-entries_at buckets i (Every-split (shown c) (entries buckets) h).1

  -- A table with at most one entry more.
  record Longer (old new : List Chain) : Type 0 where
    values : Every P (entries new)
    size : length (entries new) ≤ suc (length (entries old))

  set-Longer :
      (buckets : List Chain) (i : ℕ) (c' : Chain)
      → Every P (entries buckets)
      → Grows (get_or buckets i []) c'
      → Longer buckets (set buckets i c')
  unfolding entries get_or set
  set-Longer [] i c' h g = record { values = tt; size = omega arith }
  set-Longer (c ∷ buckets) zero c' h g = record {
    values =
        Every-append (shown c') (entries buckets) g.values
          (Every-split (shown c) (entries buckets) h).1;
    size = omega (
      arith,
      g.size,
      length-append (shown c') (entries buckets),
      length-append (shown c) (entries buckets),
    );
  }
  set-Longer (c ∷ buckets) (suc i) c' h g =
      let l = set-Longer buckets i c' (Every-split (shown c) (entries buckets) h).1 g in
      record {
        values =
            Every-append (shown c) (entries (set buckets i c'))
              (Every-split (shown c) (entries buckets) h).0 l.values;
        size = omega (
          arith,
          l.size,
          length-append (shown c) (entries (set buckets i c')),
          length-append (shown c) (entries buckets),
        );
      }

  put_bucket-cases :
      (memory : Bool) (t t' : Table) (key : List ℕ) (value : ℕ)
      → hash_table_put memory t key value ≡ ok t'
      → (c' : Chain) × (put_bucket memory key value (get_or t.buckets (hash_func key) []) ≡ ok c')
        × (t' ≡ record { buckets = set t.buckets (hash_func key) c' })
  unfolding hash_table_put
  put_bucket-cases memory t t' key value e = go _ refl e
    where
      go :
          (r : Run Chain)
          → put_bucket memory key value (get_or t.buckets (hash_func key) []) ≡ r
          → (Run.◌>>=◌ r (λ chain. ok (record { buckets = set t.buckets (hash_func key) chain })))
            ≡ ok t'
          → (c' : Chain) × (put_bucket memory key value (get_or t.buckets (hash_func key) [])
              ≡ ok c')
            × (t' ≡ record { buckets = set t.buckets (hash_func key) c' })
      go (ok c') s d = (c', s, ground arith)
      go (fault x) s d = absurd (ground arith)

  -- `hash_table_put` keeps what every value has, where the new value has it, and makes at most one entry
  -- more.
  pub put-Longer :
      (memory : Bool) (t t' : Table) (key : List ℕ) (value : ℕ)
      → P value
      → Every P (entries t.buckets)
      → hash_table_put memory t key value ≡ ok t'
      → Every P (entries t'.buckets)
        × (length (entries t'.buckets) ≤ suc (length (entries t.buckets)))
  put-Longer memory t t' key value p h e =
      let (c', run, new) = put_bucket-cases memory t t' key value e in
      let grown =
        stored-Grows memory key value (get_or t.buckets (hash_func key) []) c' p
          (Every-entries_at t.buckets (hash_func key) h) (rw put_bucket-stored at run) in
      let l = set-Longer t.buckets (hash_func key) c' h grown in rw new (l.values, l.size)

entries_nil : (buckets : List Chain) → ((i : ℕ) → get_or buckets i [] ≡ []) → entries buckets ≡ []
unfolding entries get_or shown
entries_nil [] h = refl
entries_nil (c ∷ buckets) h =
    let e : c ≡ [] = h 0 in rw (e, entries_nil buckets (λ i. h (suc i))) refl

-- Behind `hash_table_init` a table of 1024 buckets has no entry.
pub entries-init :
    (t : Table) → length t.buckets ≡ hash_size → entries (hash_table_init t).buckets ≡ []
unfolding hash_table_init
entries-init t w =
    entries_nil _ (λ j. init_loop_clears hash_size 0 j t.buckets (omega arith) (omega arith))

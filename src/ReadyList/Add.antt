-- ===== src/ReadyList/Add.antt =====
-- `add_fd_to_list` of study-linux-kernel/io-model/terminal-io-epoll-et.c.
use study_linux_kernel.Base.{
  ℕ, zero, suc, ◌+◌, ◌-◌, ◌≤◌, ◌≡◌, refl, sym, List, [], ◌∷◌, ◌++◌, Bool, true, false, ◌||◌,
  Bool-cases, inl, inr, none, some, arith, leb, ◌==◌, if◌then◌else◌, length, length-append, take,
  replicate,
}
use study_linux_kernel.Base.Run.{ok, fault, out_of_bounds}
use study_linux_kernel.ReadyList.Defs.{
  Event, Cells, ReadyFds, store, copy_front, grown, append_event, grow_and_append, add_new, add_to,
  add_fd_to_list, fd_exist_list,
}
use study_linux_kernel.ReadyList.Content.{
  Holds, written, contains, length-written, written-append, store-append, snoc,
  fd_exist_list-contains,
}

take-append_front : (front back : Cells) → take (length front) (front ++ back) ≡ front
unfolding take
take-append_front [] back = refl
take-append_front (c ∷ front) back = rw (take-append_front front back)

-- Room for one more: the event comes behind the others.
append_event-Holds :
    (es : List Event) (spare : ℕ) (l : ReadyFds) (e : Event)
    → Holds es (suc spare) l
    → (l' : ReadyFds) × (append_event l e ≡ ok (some (length es + 1), l'))
      × Holds (es ++ e ∷ []) spare l'
unfolding append_event written replicate
append_event-Holds es spare l e h =
    let stored = store-append (written es) (replicate spare none) none e in
    (
      record l { size = l.size + 1; ep_events = written es ++ some e ∷ replicate spare none },
      rw (h.cells, h.size, rw length-written at stored),
      record {
        size = omega (arith, length-append es (e ∷ []));
        capacity = omega (arith, length-append es (e ∷ []));
        cells = rw (written-append, snoc);
      },
    )

copy_front-append :
    (width n : ℕ) (front back : Cells)
    → n ≡ length front
    → n ≤ width
    → copy_front width n (front ++ back) ≡ ok (front ++ replicate (width - n) none)
unfolding copy_front
copy_front-append width n front back e w =
    let kept : take n (front ++ back) ≡ front = rw e (take-append_front front back) in
    rw kept (ground (arith, length-append front back))

-- The array is full and there is memory: a larger array takes its place.
grow-Holds :
    (es : List Event) (l : ReadyFds)
    → Holds es 0 l
    → (spare : ℕ) × (copy_front (grown l) l.size l.ep_events
        ≡ ok (written es ++ replicate (suc spare) none))
      × (grown l ≡ length es + suc spare)
unfolding grown
grow-Holds es l h =
    let wider : length es + suc (grown l - length es - 1) ≡ grown l = ground arith in
    let gap : grown l - l.size ≡ suc (grown l - length es - 1) = omega (arith, h.size) in
    let copied =
      copy_front-append (grown l) l.size (written es) (replicate 0 none)
        (omega (arith, length-written es)) (omega arith) in
    (grown l - length es - 1, rw h.cells (rw gap at copied), sym wider)

-- With memory a descriptor that is not in the list comes behind the others, whether or not the
-- array has to grow.
add_new-Holds :
    (es : List Event) (spare : ℕ) (l : ReadyFds) (e : Event)
    → Holds es spare l
    → (spare' : ℕ) × (l' : ReadyFds) × (add_new true l e ≡ ok (some (length es + 1), l'))
      × Holds (es ++ e ∷ []) spare' l'
unfolding add_new grow_and_append
add_new-Holds es (suc spare) l e h =
    let (l', run, held) = append_event-Holds es spare l e h in
    let room : leb l.capacity l.size ≡ false = ground arith in (spare, l', rw room run, held)
add_new-Holds es zero l e h =
    let (spare, copied, wide) = grow-Holds es l h in
    let (l', run, held) =
      append_event-Holds es spare
        (record l { capacity = grown l; ep_events = written es ++ replicate (suc spare) none }) e
        (record { size = h.size; capacity = wide; cells = refl }) in
    let full : leb l.capacity l.size ≡ true = ground arith in
    (spare, l', rw (full, copied) run, held)

-- A set of events, kept in the order of arrival.
unfoldable pub insert : Event → List Event → List Event
insert e es = if contains e.fd es then es else es ++ e ∷ []

unfoldable pub answer : Event → List Event → ℕ
answer e es = if contains e.fd es then 0 else length es + 1

-- With memory `add_fd_to_list` adds the event to the set of events by descriptor: a known descriptor
-- is answered 0 and a new one the new length, no index is outside the array and no cell is read that
-- was never written. That the first growth of an empty list passes NULL to `memcpy`, to copy no
-- bytes, is not counted as a fault here.
pub add-Holds :
    (es : List Event) (spare : ℕ) (l : ReadyFds) (e : Event)
    → Holds es spare l
    → (spare' : ℕ) × (l' : ReadyFds) × (add_fd_to_list true (some l) e
        ≡ ok (some (answer e es), some l'))
      × Holds (insert e es) spare' l'
unfolding add_fd_to_list add_to insert answer
add-Holds es spare l e h = elim (Bool-cases (contains e.fd es)) [
  | inl known ↦ (spare, l, rw (fd_exist_list-contains es spare l e h, known), rw known h)
  | inr new ↦
      let (spare', l', run, held) = add_new-Holds es spare l e h in
      (spare', l', rw (fd_exist_list-contains es spare l e h, new, run), rw new held)
]

-- The list stays a set: no descriptor comes twice.
abbrev pub Distinct : List Event → Type 0
Distinct [] = Unit {0}
Distinct (e ∷ es) = (contains e.fd es ≡ false) × Distinct es

contains-append :
    (fd : ℕ) (es : List Event) (e : Event)
    → contains fd (es ++ e ∷ []) ≡ contains fd es || e.fd == fd
unfolding contains
contains-append fd [] e = ground arith
contains-append fd (f ∷ es) e = rw (contains-append fd es e) (ground arith)

Distinct-append :
    (es : List Event) (e : Event) → Distinct es → contains e.fd es ≡ false → Distinct (es ++ e ∷ [])
unfolding contains
Distinct-append [] e d n = (refl, tt)
Distinct-append (f ∷ es) e d n =
    (rw (contains-append f.fd es e) (ground arith), Distinct-append es e d.1 (ground arith))

pub insert-Distinct : (e : Event) (es : List Event) → Distinct es → Distinct (insert e es)
unfolding insert
insert-Distinct e es d = elim (Bool-cases (contains e.fd es)) [
  | inl known ↦ rw known d
  | inr new ↦ rw new (Distinct-append es e d new)
]

store_beyond :
    (cells : Cells) (i : ℕ) (e : Event) → length cells ≤ i → store cells i e ≡ fault out_of_bounds
unfolding store
store_beyond cells i e h = ground arith

-- A full list without memory answers -1 but keeps the raised capacity, so the next new descriptor is
-- written behind the end of the old array.
pub add_after_failure :
    (es : List Event) (l : ReadyFds) (e f : Event) (memory : Bool)
    → Holds es 0 l
    → contains e.fd es ≡ false
    → contains f.fd es ≡ false
    → (l' : ReadyFds) × (add_fd_to_list false (some l) e ≡ ok (none, some l'))
      × (add_fd_to_list memory (some l') f ≡ fault out_of_bounds)
unfolding add_fd_to_list add_to add_new grow_and_append grown append_event replicate fd_exist_list
add_after_failure es l e f memory h ne nf =
    let l' : ReadyFds = record l { capacity = grown l } in
    let known : (g : Event) → fd_exist_list l g ≡ ok (contains g.fd es) =
      λ g. fd_exist_list-contains es 0 l g h in
    let full : leb l.capacity l.size ≡ true = ground arith in
    let room : leb (grown l) l.size ≡ false = ground arith in
    let outside : length l.ep_events ≤ l.size =
      rw h.cells (omega (arith, length-append (written es) [], length-written es, h.size)) in
    (l', rw (known e, ne, full), rw (known f, nf, room, store_beyond l.ep_events l.size f outside))

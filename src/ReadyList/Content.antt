-- ===== src/ReadyList/Content.antt =====
-- What the array of study-linux-kernel/io-model/terminal-io-epoll-et.c holds, and the two loops
-- over it.
use study_linux_kernel.Base.{
  ℕ, zero, suc, ◌+◌, ◌≤◌, ◌≡◌, refl, ap, List, [], ◌∷◌, ◌++◌, Bool, false, ◌||◌, Option, none, some,
  arith, ◌==◌, if◌then◌else◌, length, length-append, set, replicate,
}
use native.Mathlib.Nat.{add-zero, zero-add, suc-add}
use study_linux_kernel.Base.Run.{ok, fault, out_of_bounds, indeterminate}
use study_linux_kernel.ReadyList.Defs.{
  Event, Cells, ReadyFds, at, store, exist_loop, fd_exist_list, remove_loop,
}

unfoldable pub written : List Event → Cells
written [] = []
written (e ∷ es) = some e ∷ written es

unfoldable pub contains : ℕ → List Event → Bool
contains fd [] = false
contains fd (e ∷ es) = e.fd == fd || contains fd es

-- The events `es`, then cells that were never written, up to the capacity.
pub record Holds (es : List Event) (spare : ℕ) (l : ReadyFds) : Type 0 where
  pub size : l.size ≡ length es
  pub capacity : l.capacity ≡ length es + spare
  pub cells : l.ep_events ≡ written es ++ replicate spare none

pub length-written : (es : List Event) → length (written es) ≡ length es
unfolding written
length-written [] = refl
length-written (e ∷ es) = ap suc (length-written es)

pub written-append : (es fs : List Event) → written (es ++ fs) ≡ written es ++ written fs
unfolding written
written-append [] fs = refl
written-append (e ∷ es) fs = rw (written-append es fs)

pub at-written :
    (front back : Cells) (e : Event) → at (front ++ some e ∷ back) (length front) ≡ ok e
unfolding at
at-written [] back e = refl
at-written (none ∷ front) back e = at-written front back e
at-written (some f ∷ front) back e = at-written front back e

pub at_unwritten :
    (front back : Cells) → at (front ++ none ∷ back) (length front) ≡ fault indeterminate
unfolding at
at_unwritten [] back = refl
at_unwritten (none ∷ front) back = at_unwritten front back
at_unwritten (some f ∷ front) back = at_unwritten front back

at_beyond : (cells : Cells) (i : ℕ) → length cells ≤ i → at cells i ≡ fault out_of_bounds
unfolding at
at_beyond [] i h = refl
at_beyond (cell ∷ cells) zero h = absurd (omega arith)
at_beyond (none ∷ cells) (suc i) h = at_beyond cells i (omega arith)
at_beyond (some e ∷ cells) (suc i) h = at_beyond cells i (omega arith)

set-append :
    (front back : Cells) (cell new : Option Event)
    → set (front ++ cell ∷ back) (length front) new ≡ front ++ new ∷ back
unfolding set
set-append [] back cell new = refl
set-append (f ∷ front) back cell new = rw (set-append front back cell new)

pub store-append :
    (front back : Cells) (cell : Option Event) (e : Event)
    → store (front ++ cell ∷ back) (length front) e ≡ ok (front ++ some e ∷ back)
unfolding store
store-append front back cell e =
    rw (set-append front back cell (some e)) (ground (arith, length-append front (cell ∷ back)))

-- Moves a cell from the head of the rest to the end of the front.
pub snoc :
    (front back : Cells) (cell : Option Event) → (front ++ cell ∷ []) ++ back ≡ front ++ cell ∷ back
snoc [] back cell = refl
snoc (f ∷ front) back cell = rw (snoc front back cell)

length-snoc :
    (front : Cells) (cell : Option Event) → length (front ++ cell ∷ []) ≡ suc (length front)
length-snoc front cell = omega (arith, length-append front (cell ∷ []))

exist_loop-contains :
    (fd : ℕ) (es : List Event) (front back : Cells)
    → exist_loop (length es) (length front) (front ++ (written es ++ back)) fd ≡ ok (contains fd es)
unfolding exist_loop written contains
exist_loop-contains fd [] front back = refl
exist_loop-contains fd (e ∷ es) front back =
    let ih = exist_loop-contains fd es (front ++ some e ∷ []) back in
    let later = rw (snoc, length-snoc) at ih in
    rw (at-written front (written es ++ back) e, later) (ground arith)

-- The search of `es` and then of the rest, from the cells themselves.
pub exist_loop-append :
    (fd n : ℕ) (es : List Event) (front back : Cells)
    → contains fd es ≡ false
    → exist_loop (length es + n) (length front) (front ++ (written es ++ back)) fd
      ≡ exist_loop n (length front + length es) (front ++ (written es ++ back)) fd
unfolding exist_loop written contains
exist_loop-append fd n [] front back new = simp (add-zero, zero-add)
exist_loop-append fd n (e ∷ es) front back new =
    let ih = exist_loop-append fd n es (front ++ some e ∷ []) back (ground arith) in
    let later = rw (snoc, length-snoc) at ih in
    let shifted : length front + suc (length es) ≡ suc (length front) + length es = omega arith in
    rw (suc-add, at-written front (written es ++ back) e, shifted) (ground (arith, later))

pub fd_exist_list-contains :
    (es : List Event) (spare : ℕ) (l : ReadyFds) (e : Event)
    → Holds es spare l
    → fd_exist_list l e ≡ ok (contains e.fd es)
unfolding fd_exist_list
fd_exist_list-contains es spare l e h =
    rw (h.size, h.cells) (exist_loop-contains e.fd es [] (replicate spare none))

-- What the loop of `remove` copies: a hole stands where an event was passed over.
unfoldable pub kept : ℕ → List Event → Cells
kept fd [] = []
kept fd (e ∷ es) = (if e.fd == fd then none else some e) ∷ kept fd es

-- One round: the cell of the new array stays a hole, or takes the event.
remove_step :
    (fd : ℕ) (e : Event) (temp back : Cells) (i : ℕ)
    → i ≡ length temp
    → (if e.fd == fd then ok (temp ++ none ∷ back) else store (temp ++ none ∷ back) i e)
      ≡ ok (temp ++ (if e.fd == fd then none else some e) ∷ back)
remove_step fd e temp back i w = rw (w, store-append temp back none e) (ground arith)

pub remove_loop-kept :
    (fd : ℕ) (es : List Event) (front temp back blank : Cells)
    → length front ≡ length temp
    → remove_loop
        (length es)
        (length front)
        (temp ++ (replicate (length es) none ++ blank))
        (front ++ (written es ++ back))
        fd
      ≡ ok (temp ++ (kept fd es ++ blank))
unfolding remove_loop written kept replicate
remove_loop-kept fd [] front temp back blank w = refl
remove_loop-kept fd (e ∷ es) front temp back blank w =
    let cell : Option Event = if e.fd == fd then none else some e in
    let ih =
      remove_loop-kept fd es (front ++ some e ∷ []) (temp ++ cell ∷ []) back blank
        (omega (arith, length-snoc front (some e), length-snoc temp cell)) in
    let later = simp (snoc, length-snoc) at ih in
    rw
      (
        at-written front (written es ++ back) e,
        remove_step fd e temp (replicate (length es) none ++ blank) (length front) w,
      )
      later

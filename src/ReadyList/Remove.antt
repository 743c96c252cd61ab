-- ===== src/ReadyList/Remove.antt =====
-- `remove_file_descriptor` of study-linux-kernel/io-model/terminal-io-epoll-et.c.
use study_linux_kernel.Base.{
  ℕ, suc, ◌+◌, ◌-◌, ◌≡◌, refl, ◌∙◌, List, [], ◌∷◌, ◌++◌, append_assoc, true, false, ◌||◌, Option,
  none, some, arith, ◌==◌, if◌then◌else◌, length, length-append, replicate, replicate-add,
}
use native.Mathlib.Nat.{zero-add}
use study_linux_kernel.Base.Run.{ok, fault, indeterminate}
use study_linux_kernel.ReadyList.Defs.{
  Event, Cells, ReadyFds, exist_loop, fd_exist_list, shrink, remove_loop, remove_known,
  remove_file_descriptor,
}
use study_linux_kernel.ReadyList.Content.{
  Holds, written, contains, kept, at_unwritten, length-written, fd_exist_list-contains,
  remove_loop-kept, exist_loop-append, snoc,
}

-- The array after `remove`: every other event keeps its index, and the removed one leaves a hole.
pub remove-kept :
    (es : List Event) (spare : ℕ) (l : ReadyFds) (e : Event)
    → Holds es spare l
    → contains e.fd es ≡ true
    → remove_file_descriptor true l e ≡ ok (some 0, shrink l (kept e.fd es ++ replicate spare none))
unfolding remove_file_descriptor remove_known
remove-kept es spare l e h known =
    let loop = remove_loop-kept e.fd es [] [] (replicate spare none) (replicate spare none) refl in
    let run : remove_loop l.size 0 (replicate l.capacity none) l.ep_events e.fd
        ≡ ok (kept e.fd es ++ replicate spare none) =
      rw (h.size, h.cells, h.capacity, replicate-add {A = Option Event} (length es) spare none)
        loop in
    rw (fd_exist_list-contains es spare l e h, known, run)

kept-append : (fd : ℕ) (es fs : List Event) → kept fd (es ++ fs) ≡ kept fd es ++ kept fd fs
unfolding kept
kept-append fd [] fs = refl
kept-append fd (e ∷ es) fs = rw (kept-append fd es fs)

kept-written : (fd : ℕ) (es : List Event) → contains fd es ≡ false → kept fd es ≡ written es
unfolding kept written contains
kept-written fd [] n = refl
kept-written fd (e ∷ es) n = ground (arith, kept-written fd es)

kept_hole :
    (e : Event) (es fs : List Event)
    → contains e.fd es ≡ false
    → contains e.fd fs ≡ false
    → kept e.fd (es ++ e ∷ fs) ≡ written es ++ none ∷ written fs
unfolding kept
kept_hole e es fs n m =
    rw (kept-append e.fd es (e ∷ fs), kept-written e.fd es n, kept-written e.fd fs m) (ground arith)

contains-append :
    (fd : ℕ) (es fs : List Event) → contains fd (es ++ fs) ≡ contains fd es || contains fd fs
unfolding contains
contains-append fd [] fs = refl
contains-append fd (e ∷ es) fs = rw (contains-append fd es fs) (ground arith)

contains_self : (e : Event) (es fs : List Event) → contains e.fd (es ++ e ∷ fs) ≡ true
unfolding contains
contains_self e es fs = rw (contains-append e.fd es (e ∷ fs)) (ground arith)

-- With memory the event behind all others is removed: the list holds the others, and the read
-- position goes back to the start where it would be the new end.
pub remove_last :
    (es : List Event) (spare : ℕ) (l : ReadyFds) (e : Event)
    → Holds (es ++ e ∷ []) spare l
    → contains e.fd es ≡ false
    → (l' : ReadyFds) × (remove_file_descriptor true l e ≡ ok (some 0, l'))
      × Holds es (suc spare) l'
      × (l'.curpos ≡ (if l.curpos == length es then 0 else l.curpos))
unfolding shrink replicate written contains
remove_last es spare l e h n =
    let fewer : l.size - 1 ≡ length es = omega (arith, h.size, length-append es (e ∷ [])) in
    (
      shrink l (kept e.fd (es ++ e ∷ []) ++ replicate spare none),
      remove-kept (es ++ e ∷ []) spare l e h (contains_self e es []),
      record {
        size = fewer;
        capacity = omega (arith, h.capacity, length-append es (e ∷ []));
        cells = rw (kept_hole e es [] n refl) (snoc (written es) (replicate spare none) none);
      },
      rw fewer,
    )

search_hole :
    (fd n : ℕ) (es : List Event) (back : Cells)
    → contains fd es ≡ false
    → exist_loop (length es + suc n) 0 (written es ++ none ∷ back) fd ≡ fault indeterminate
unfolding exist_loop
search_hole fd n es back new =
    let hole = rw length-written at (at_unwritten (written es) back) in
    exist_loop-append fd (suc n) es [] (none ∷ back) new ∙ rw (zero-add, hole)

-- Where other events stand behind the removed one, they keep their cells and the removed one leaves a
-- hole, a cell that was never written. The size is lowered by one all the same, so the hole is within
-- it and the last event's cell is the first one outside; the capacity stays; and the next search for
-- a descriptor that does not stand before the hole reads memory that was never written.
pub remove_inside :
    (es fs : List Event) (spare : ℕ) (l : ReadyFds) (e g f : Event)
    → Holds (es ++ e ∷ g ∷ fs) spare l
    → contains e.fd es ≡ false
    → contains e.fd (g ∷ fs) ≡ false
    → contains f.fd es ≡ false
    → (l' : ReadyFds) × (remove_file_descriptor true l e ≡ ok (some 0, l'))
      × (l'.size ≡ length es + length (g ∷ fs))
      × (l'.capacity ≡ l.capacity)
      × (l'.ep_events ≡ written es ++ none ∷ (written (g ∷ fs) ++ replicate spare none))
      × (fd_exist_list l' f ≡ fault indeterminate)
unfolding shrink fd_exist_list
remove_inside es fs spare l e g f h n m new =
    let others = g ∷ fs in
    let fewer : l.size - 1 ≡ length es + suc (length fs) =
      omega (arith, h.size, length-append es (e ∷ others)) in
    (
      shrink l (kept e.fd (es ++ e ∷ others) ++ replicate spare none),
      remove-kept (es ++ e ∷ others) spare l e h (contains_self e es others),
      fewer,
      refl,
      rw (kept_hole e es others n m, append_assoc) refl,
      rw (fewer, kept_hole e es others n m, append_assoc)
          (search_hole f.fd (length fs) es (written others ++ replicate spare none) new),
    )

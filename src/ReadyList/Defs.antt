-- ===== src/ReadyList/Defs.antt =====
-- `ready_io_fds`, `fd_exist_list`, `add_fd_to_list`, `get_cur_file_descriptor` and
-- `remove_file_descriptor` of study-linux-kernel/io-model/terminal-io-epoll-et.c.
-- The array is the list of its allocated cells, and `none` is a cell that was never written; NULL is
-- the empty array. The `int` fields are unbounded numbers. The flag of an operation says whether
-- its `malloc` has memory.
use study_linux_kernel.Base.{
  ℕ, zero, suc, ◌+◌, ◌-◌, ◌*◌, List, [], ◌∷◌, ◌++◌, Bool, true, false, ◌&&◌, ◌||◌, Option, none,
  some, ltb, leb, ◌==◌, if◌then◌else◌, length, set, take, replicate,
}
use study_linux_kernel.Base.Run.{Run, ok, fault, out_of_bounds, indeterminate, ◌>>=◌}

-- `struct epoll_event`
pub record Event : Type 0 where
  pub events : ℕ
  pub fd : ℕ

abbrev pub Cells : Type 0
Cells = List (Option Event)

pub record ReadyFds : Type 0 where
  pub size : ℕ
  pub capacity : ℕ
  pub curpos : ℕ
  pub ep_events : Cells

-- `ep_events[i]`
unfoldable pub at : Cells → ℕ → Run Event
at [] i = fault out_of_bounds
at (none ∷ cells) zero = fault indeterminate
at (some e ∷ cells) zero = ok e
at (cell ∷ cells) (suc i) = at cells i

-- `memcpy(&cells[i], e, sizeof(struct epoll_event))`
unfoldable pub store : Cells → ℕ → Event → Run Cells
store cells i e = if ltb i (length cells) then ok (set cells i (some e)) else fault out_of_bounds

-- The loop of `fd_exist_list`: `n` rounds are left from index `i` on.
unfoldable pub exist_loop : ℕ → ℕ → Cells → ℕ → Run Bool
exist_loop zero i cells fd = ok false
exist_loop (suc n) i cells fd =
    let later = exist_loop n (suc i) cells fd in
    at cells i >>= λ e. if e.fd == fd then ok true else later

unfoldable pub fd_exist_list : ReadyFds → Event → Run Bool
fd_exist_list l e = exist_loop l.size 0 l.ep_events e.fd

-- `memcpy(temp_fds, cells, n events)`, into a fresh array of `width` cells. A copy of no events from
-- NULL, the first of a list, is taken to do nothing, which C leaves undefined.
unfoldable pub copy_front : ℕ → ℕ → Cells → Run Cells
copy_front width n cells =
    if leb n (length cells) && leb n width
    then ok (take n cells ++ replicate (width - n) none)
    else fault out_of_bounds

-- The capacity that `add` sets when the array is full; 0 becomes 1 before it is doubled.
unfoldable pub grown : ReadyFds → ℕ
grown l = (if l.capacity == 0 && l.size == 0 then 1 else l.capacity) * 2

-- The end of `add`: the event is written behind the last one.
unfoldable pub append_event : ReadyFds → Event → Run (Option ℕ × ReadyFds)
append_event l e = store l.ep_events l.size e >>= λ cells.
    ok (some (l.size + 1), record l { size = l.size + 1; ep_events = cells })

-- The array is full: `malloc` may fail after the capacity has been raised.
unfoldable pub grow_and_append : Bool → ReadyFds → Event → Run (Option ℕ × ReadyFds)
grow_and_append false l e = ok (none, record l { capacity = grown l })
grow_and_append true l e = copy_front (grown l) l.size l.ep_events >>= λ cells.
    append_event (record l { capacity = grown l; ep_events = cells }) e

unfoldable pub add_new : Bool → ReadyFds → Event → Run (Option ℕ × ReadyFds)
add_new memory l e = if leb l.capacity l.size then grow_and_append memory l e else append_event l e

-- `add` behind its guard. The answer -1 is `none`.
unfoldable pub add_to : Bool → ReadyFds → Event → Run (Option ℕ × ReadyFds)
add_to memory l e =
    fd_exist_list l e >>= λ known. if known then ok (some 0, l) else add_new memory l e

-- The list is a pointer, which the guard tests for NULL.
unfoldable pub add_fd_to_list : Bool → Option ReadyFds → Event → Run (Option ℕ × Option ReadyFds)
add_fd_to_list memory none e = ok (none, none)
add_fd_to_list memory (some l) e = add_to memory l e >>= λ r. ok (r.0, some r.1)

-- The index of the event that is returned, or NULL.
unfoldable pub get_cur_file_descriptor : Option ReadyFds → Option ℕ × Option ReadyFds
get_cur_file_descriptor none = (none, none)
get_cur_file_descriptor (some l) =
    if ltb l.size 1 || leb l.size l.curpos
    then (none, some l)
    else (some l.curpos, some (record l { curpos = l.curpos + 1 }))

-- The copy loop of `remove`: an event of `fd` is passed over, and every other keeps its index.
unfoldable pub remove_loop : ℕ → ℕ → Cells → Cells → ℕ → Run Cells
remove_loop zero i temp cells fd = ok temp
remove_loop (suc n) i temp cells fd = at cells i >>= λ e.
    (if e.fd == fd then ok temp else store temp i e) >>= λ temp'.
    remove_loop n (suc i) temp' cells fd

-- The last lines of `remove`; the second `memcpy` copies the new array onto itself, which C leaves
-- undefined and which is taken to change nothing.
unfoldable pub shrink : ReadyFds → Cells → ReadyFds
shrink l cells =
    let size' = l.size - 1 in
    record l { size = size'; curpos = if l.curpos == size' then 0 else l.curpos; ep_events = cells }

unfoldable pub remove_known : Bool → ReadyFds → ℕ → Run (Option ℕ × ReadyFds)
remove_known false l fd = ok (none, l)
remove_known true l fd =
    remove_loop l.size 0 (replicate l.capacity none) l.ep_events fd >>= λ cells.
    ok (some 0, shrink l cells)

-- The answers 1 (not in the list), -1 (`none`) and 0.
unfoldable pub remove_file_descriptor : Bool → ReadyFds → Event → Run (Option ℕ × ReadyFds)
remove_file_descriptor memory l e =
    fd_exist_list l e >>= λ known. if known then remove_known memory l e.fd else ok (some 1, l)

-- ===== src/EpollReader.antt =====
-- The processes of study-linux-kernel/io-model/terminal-io-epoll-et.c: the child sends what the
-- terminal gives into a pipe, the parent reads the pipe over the list of ReadyList.
pub mod Parent
pub mod Child
use study_linux_kernel.Base.{
  ℕ, zero, suc, ◌+◌, List, [], ◌∷◌, Option, none, some, Bool, ◌==◌, ltb, if◌then◌else◌, length, mem,
  take,
}
use study_linux_kernel.Base.Run
use study_linux_kernel.Base.Run.{Run, ok, out_of_bounds}
use study_linux_kernel.Sys.Calls.{
  Text, Reply, int, error, pipe, fork, select, fcntl, read, write, close, epoll_create, epoll_add,
  epoll_wait, received,
}
use study_linux_kernel.Sys.Monad.{
  M, unfinished, pure, ◌>>=◌, ◌>>◌, exit, sys, number, input, run, say, lift, undefined,
}
use study_linux_kernel.Sys.Loops.{Next, again, finish, loop}
use study_linux_kernel.ReadyList.Defs.{Event, ReadyFds, at, add_to, remove_file_descriptor}

-- The child: a line goes into the pipe, and a failed `write` ends the loop.
unfoldable pub forward : ℕ → Option Text → M (Next (Unit {0}) (Unit {0}))
forward dst none = pure (again tt)
forward dst (some []) = pure (again tt)
forward dst (some (b ∷ bs)) = do
  say "pid[%d] read number of byte: %ld, error:%s\n" (int (length (b ∷ bs)) ∷ error ∷ [])
  put ← number (write dst (b ∷ bs))
  elim put [ none ↦ pure (finish tt) | some _ ↦ pure (again tt) ]

unfoldable pub on_ready : ℕ → Bool → M (Next (Unit {0}) (Unit {0}))
on_ready dst readable = do
  run (fcntl 0 "F_GETFL")
  run (fcntl 0 "F_SETFL O_NONBLOCK")
  if readable then input 512 (read 0 512) >>= forward dst else pure (again tt)

unfoldable pub listen_round : ℕ → Unit {0} → M (Next (Unit {0}) (Unit {0}))
listen_round dst _ = do
  ready ← sys (select (0 ∷ []) [])
  elim ready.result [
    | none ↦ pure (again tt)
    | some zero ↦ pure (again tt)
    | some (suc n) ↦ on_ready dst (mem 0 ready.readable)
  ]

unfoldable pub leave_child : ℕ → M (Unit {0})
leave_child dst = do say "%d: exit.\n" []; run (close dst); exit 0

unfoldable pub listen_all : ℕ → ℕ → M (Unit {0})
listen_all fuel dst = do loop fuel (listen_round dst) tt; leave_child dst

unfoldable pub child : ℕ → ℕ → ℕ → M (Unit {0})
child fuel src dst = do
  closed ← number (close src)
  elim closed [ none ↦ exit 1 | some _ ↦ listen_all fuel dst ]

-- The parent: `add_fd_to_list` for each event; its answer is not used.
unfoldable pub add_all : Bool → List Event → ReadyFds → Run ReadyFds
add_all memory [] l = ok l
add_all memory (e ∷ es) l = Run.◌>>=◌ (add_to memory l e) (λ r. add_all memory es r.1)

-- What `read` answered for an event. A failure that is not EAGAIN is written with the length -1.
unfoldable pub on_read : Bool → ReadyFds → Event → Reply → M ReadyFds
on_read memory l e r = elim (received 4 r) [
  | none ↦
      if r.errno == 11
      then (lift (remove_file_descriptor memory l e) >>= λ x. pure x.1)
      else undefined out_of_bounds
  | some bytes ↦ do run (write 2 bytes); pure l
]

unfoldable pub read_event : Bool → ReadyFds → Event → M ReadyFds
read_event memory l e = do
  r ← sys (read e.fd 4)
  say "\npid[%d] fd[%d] read number of byte: %d\n" (int e.fd ∷ [])
  on_read memory l e r

-- `ready_fds.ep_events[i]`, read and perhaps removed.
unfoldable pub read_at : Bool → ℕ → ReadyFds → M ReadyFds
read_at memory i l = lift (at l.ep_events i) >>= read_event memory l

-- The loop over the list, from index `i` on.
unfoldable pub read_each : Bool → ℕ → ℕ → ReadyFds → M ReadyFds
read_each memory zero i l w = unfinished w
read_each memory (suc n) i l w =
    let later = λ (l' : ReadyFds). read_each memory n (suc i) l' in
    (if ltb i l.size then read_at memory i l >>= later else pure l) w

-- The events (EPOLLIN) that `epoll_wait` has stored, into the list.
abbrev pub events_of : Reply → List Event
events_of ready = take 8 (map_events ready.readable)
  where
    map_events : List ℕ → List Event
    map_events [] = []
    map_events (fd ∷ fds) = record { events = 1; fd = fd } ∷ map_events fds

unfoldable pub serve : Bool → Reply → ReadyFds → M (Next ReadyFds (Unit {0}))
serve memory ready l = do
  l' ← lift (add_all memory (events_of ready) l)
  l'' ← read_each memory (l'.size + 1) 0 l'
  pure (again l'')

-- No time limit (-1) where the list is empty, and no waiting (0) where it is not.
abbrev pub timeout_for : ReadyFds → Option ℕ
timeout_for l = if l.size == 0 then none else some 0

unfoldable pub round : Bool → ℕ → ReadyFds → M (Next ReadyFds (Unit {0}))
round memory epoll l = do
  ready ← sys (epoll_wait epoll (timeout_for l))
  elim ready.result [ none ↦ pure (finish tt) | some _ ↦ serve memory ready l ]

abbrev pub no_events : ReadyFds
no_events = record { size = 0; capacity = 0; curpos = 0; ep_events = [] }

unfoldable pub watch : Bool → ℕ → ℕ → M (Unit {0})
watch memory fuel epoll = do loop fuel (round memory epoll) no_events; exit 0

unfoldable pub parent : Bool → ℕ → ℕ → ℕ → M (Unit {0})
parent memory fuel src dst = do
  closed ← number (close dst)
  elim closed [
    | none ↦ exit 1
    | some _ ↦ do
      epoll ← number epoll_create
      elim epoll [
        | none ↦ exit 1
        | some ep ↦ do
          run (fcntl src "F_GETFL")
          run (fcntl src "F_SETFL O_NONBLOCK")
          added ← number (epoll_add ep src)
          elim added [ none ↦ exit 1 | some _ ↦ watch memory fuel ep ]
      ]
  ]

-- The `switch` on what `fork` returned.
unfoldable pub branch : Bool → ℕ → ℕ → ℕ → Option ℕ → M (Unit {0})
branch memory fuel src dst none = exit 1
branch memory fuel src dst (some zero) = child fuel src dst
branch memory fuel src dst (some (suc pid)) = parent memory fuel src dst

-- The two ends of the pipe are the descriptors that the reply to `pipe` names readable and writable.
unfoldable pub main : Bool → ℕ → M (Unit {0})
main memory fuel = do
  ends ← sys pipe
  elim ends.result [
    | none ↦ exit 1
    | some _ ↦ elim ends.readable [
      | [] ↦ exit 1
      | src ∷ _ ↦ elim ends.writable [
        | [] ↦ exit 1
        | dst ∷ _ ↦ do pid ← number fork; branch memory fuel src dst pid
      ]
    ]
  ]

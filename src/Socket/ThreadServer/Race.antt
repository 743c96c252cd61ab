-- ===== src/Socket/ThreadServer/Race.antt =====
-- The variable `sock_client` of study-linux-kernel/socket/socket-server-tcp-mt.c. Each round of the
-- accepting loop stores the new connection in it and hands its address to a new thread, which reads
-- it when the scheduler lets it run. The variable lives in one place, so a later round may have
-- stored another connection, or the -1 of a failed `accept`, by then.
use study_linux_kernel.Base.{
  ℕ, zero, suc, ◌≡◌, refl, List, [], ◌∷◌, Option, none, some, Bool, true, false,
}

-- The accepted connections, the variable (-1 is `none`), how many threads were created and have not
-- read it yet, and what threads have read.
pub record Server : Type 0 where
  pub accepted : List ℕ
  pub sock_client : Option ℕ
  pub waiting : ℕ
  pub serving : List (Option ℕ)

-- A round of the accepting loop: what `accept` answers, and whether `pthread_create` makes a thread.
unfoldable pub take_connection : Option ℕ → Bool → Server → Server
take_connection none created s = record s { sock_client = none }
take_connection (some fd) false s = record s { accepted = fd ∷ s.accepted; sock_client = some fd }
take_connection (some fd) true s = record s {
  accepted = fd ∷ s.accepted;
  sock_client = some fd;
  waiting = suc s.waiting;
}

-- The first line of `_thread_func` in some waiting thread.
unfoldable pub begin_thread : Server → Server
begin_thread s = elim s.waiting [
  | zero ↦ s
  | suc n ↦ record s { waiting = n; serving = s.sock_client ∷ s.serving }
]

pub data Step (s : Server) : Server → Type 0 where
  accept_next : (fd : Option ℕ) (created : Bool) → Step s (take_connection fd created s)
  thread_reads : Step s (begin_thread s)

pub data Reach (s : Server) : Server → Type 0 where
  here : Reach s s
  next : {t u : Server} → Reach s t → Step t u → Reach s u

abbrev pub idle : Server
idle = record { accepted = []; sock_client = none; waiting = 0; serving = [] }

-- For any two connections there is a schedule on which both threads serve the second one, and the
-- first is served by none.
pub race_loses_connection :
    (first second : ℕ)
    → (s : Server) × Reach idle s
      × (s.accepted ≡ second ∷ first ∷ [])
      × (s.waiting ≡ 0)
      × (s.serving ≡ some second ∷ some second ∷ [])
unfolding take_connection begin_thread
race_loses_connection first second = (
  begin_thread
      (begin_thread (take_connection (some second) true (take_connection (some first) true idle))),
  next
      (next (next (next here (accept_next (some first) true)) (accept_next (some second) true))
        thread_reads)
      thread_reads,
  refl,
  refl,
  refl,
)

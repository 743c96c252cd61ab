-- ===== src/SelectServer.antt =====
-- What study-linux-kernel/socket/socket-server-http-select.cpp and socket-server-tcp-select.cpp
-- share: the set of accepted descriptors, which one thread fills and another one serves.
pub mod Watching
pub mod Safety
pub mod Serving
pub mod Rounds
use study_linux_kernel.Base.{
  ℕ, zero, suc, ◌+◌, List, [], ◌∷◌, ◌++◌, Option, none, some, Bool, true, false, ◌==◌, ltb,
  if◌then◌else◌,
}
use study_linux_kernel.Base.Run
use study_linux_kernel.Base.Run.{Run, ok, fault, out_of_bounds}
use study_linux_kernel.Sys.Calls.{Reply, peer, accept, select, fcntl, lock, unlock, sleep, close}
use study_linux_kernel.Sys.Monad.{M, pure, ◌>>=◌, ◌>>◌, sys, run, say, lift}
use study_linux_kernel.Sys.Loops.{Next, again}

-- `std::set<int>`: in ascending order, each once.
abbrev pub Fds : Type 0
Fds = List ℕ

unfoldable pub insert_fd : ℕ → Fds → Fds
insert_fd fd [] = fd ∷ []
insert_fd fd (x ∷ xs) =
    let later = insert_fd fd xs in
    if ltb fd x then fd ∷ x ∷ xs else if fd == x then x ∷ xs else x ∷ later

unfoldable pub erase_fd : ℕ → Fds → Fds
erase_fd fd [] = []
erase_fd fd (x ∷ xs) = let later = erase_fd fd xs in if fd == x then xs else x ∷ later

unfoldable pub insert_all : List ℕ → Fds → Fds
insert_all [] fds = fds
insert_all (fd ∷ more) fds = insert_all more (insert_fd fd fds)

unfoldable pub erase_all : List ℕ → Fds → Fds
erase_all [] fds = fds
erase_all (fd ∷ more) fds = erase_all more (erase_fd fd fds)

-- `FD_SET` and `FD_ISSET` index an array of 1024 bits.
unfoldable pub fd_index : ℕ → Run (Unit {0})
fd_index fd = if ltb fd 1024 then ok tt else fault out_of_bounds

unfoldable pub set_all : Fds → Run (Unit {0})
set_all [] = ok tt
set_all (fd ∷ fds) = Run.◌>>=◌ (fd_index fd) (λ _. set_all fds)

unfoldable pub max_fd : ℕ → Fds → ℕ
max_fd maxfd [] = maxfd
max_fd maxfd (fd ∷ fds) = max_fd (if ltb maxfd fd then fd + 1 else maxfd) fds

-- `select` looks at the descriptors below its first argument.
unfoldable pub below : ℕ → List ℕ → List ℕ
below n [] = []
below n (fd ∷ fds) = let later = below n fds in if ltb fd n then fd ∷ later else later

-- The sets and the call; `extra` is read besides the accepted ones.
unfoldable pub watch : List ℕ → Fds → M Reply
watch extra fds = do
  lift (set_all fds)
  sys (select (below (max_fd 0 fds) (extra ++ fds)) (below (max_fd 0 fds) fds))

-- The accepting thread: what the serving thread erased arrives with the lock.
unfoldable pub admit : ℕ → Reply → Fds → M (Next Fds (Unit {0}))
admit client r fds = do
  run (fcntl client "F_GETFL")
  run (fcntl client "F_SETFL O_NONBLOCK")
  locked ← sys lock
  run unlock
  say "accept %s connect\n" (peer r.sender ∷ [])
  pure (again (insert_fd client (erase_all locked.readable fds)))

unfoldable pub accept_round : ℕ → Fds → M (Next Fds (Unit {0}))
accept_round sock fds = do
  r ← sys (accept sock)
  elim r.result [ none ↦ pure (again fds) | some client ↦ admit client r fds ]

-- The set as the serving thread sees it, and the messages that it is to send.
pub record Server (Q : Type 0) : Type 0 where
  pub fds : Fds
  pub queue : Q

-- `serve_one` serves one descriptor: `bClosed`, and the messages.
module _ {Q : Type 0} (serve_one : Reply → ℕ → Q → M (Bool × Q)) where
  -- `bClosed` removes the descriptor, and otherwise the iterator goes on.
  unfoldable pub keep_or_close : Bool → ℕ → M (Server Q) → M (Server Q)
  keep_or_close true fd later = do run (close fd); later
  keep_or_close false fd later = do rest ← later; pure (record rest { fds = fd ∷ rest.fds })

  -- The loop over the set.
  unfoldable pub serve_each : Reply → Fds → Q → M (Server Q)
  serve_each ready [] queue = pure (record { fds = []; queue = queue })
  serve_each ready (fd ∷ fds) queue =
      let later : Q → M (Server Q) = serve_each ready fds in
      (do one ← serve_one ready fd queue; keep_or_close one.0 fd (later one.1))

  -- What the accepting thread inserted arrives with the lock.
  unfoldable pub serve_locked : Reply → Fds → Q → M (Server Q)
  serve_locked ready fds queue = do
    locked ← sys lock
    s ← serve_each ready (insert_all locked.readable fds) queue
    run unlock
    pure s

module _ {Q : Type 0} (extra : List ℕ)
    (on_ready : Reply → Server Q → M (Next (Server Q) (Unit {0}))) where
  unfoldable pub on_selected : Reply → Server Q → Option ℕ → M (Next (Server Q) (Unit {0}))
  on_selected ready s none = pure (again s)
  on_selected ready s (some zero) = pure (again s)
  on_selected ready s (some (suc n)) = on_ready ready s

  -- One round of the serving thread. With an empty set it sleeps, and looks again.
  unfoldable pub round_of : Fds → Q → M (Next (Server Q) (Unit {0}))
  round_of [] queue = do
    r ← sys (sleep 0)
    pure (again (record { fds = insert_all r.readable []; queue = queue }))
  round_of (fd ∷ fds) queue = do
    ready ← watch extra (fd ∷ fds)
    on_selected ready (record { fds = fd ∷ fds; queue = queue }) ready.result

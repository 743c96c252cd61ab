-- ===== src/SelectServer/Safety.antt =====
-- How the serving threads of study-linux-kernel/socket/socket-server-http-select.cpp and
-- socket-server-tcp-select.cpp use the accepted descriptors, and the rule for them.
use study_linux_kernel.Base.{
  ℕ, suc, ◌≡◌, refl, List, [], ◌∷◌, ◌++◌, true, false, ◌==◌, ◌⊎◌, mem, arith,
}
use study_linux_kernel.Sys.Calls.{
  Call, Event, Text, Trace, made, printed, lock, sleep, close, send, recv, getpeername,
}
use study_linux_kernel.Sys.Loops.{Stops}
use study_linux_kernel.Sys.Traces.{Always, locked}
use study_linux_kernel.SelectServer.{Fds, insert_fd, erase_fd, insert_all}
use study_linux_kernel.SelectServer.Watching.{
  AscendFrom, AscendFrom-lower, insert_fd-AscendFrom, mem-above,
}

-- What was accepted, as it arrived at the serving thread, and was not closed since.
abbrev pub live : Trace → Fds
live [] = []
live (printed format args ∷ past) = live past
live (made lock r ∷ past) = insert_all r.readable (live past)
live (made (sleep n) r ∷ past) = insert_all r.readable (live past)
live (made (close fd) r ∷ past) = erase_fd fd (live past)
live (made c r ∷ past) = live past

-- An event of a history.
abbrev pub Happened : Event → Trace → Type 0
Happened x [] = ⊥
Happened x (y ∷ past) = (x ≡ y) ⊎ Happened x past

-- A call on an accepted descriptor that was not closed, by the thread that has the mutex.
abbrev pub Owned : ℕ → Trace → Type 0
Owned fd past = (mem fd (live past) ≡ true) × (locked past ≡ true)

-- `Says` is what may be sent.
abbrev pub Uses : (ℕ → Text → Trace → Type 0) → Call → Trace → Type 0
Uses Says (send fd text) past = Owned fd past × Says fd text past
Uses Says (recv fd n) past = Owned fd past
Uses Says (getpeername fd) past = Owned fd past
Uses Says (close fd) past = Owned fd past
Uses Says c past = Unit {0}

-- The thread does not end, and keeps to that wherever it waits or faults.
abbrev pub stops : (ℕ → Text → Trace → Type 0) → Stops
stops Says = record {
  status = λ n w. ⊥;
  waits = λ w. Always (Uses Says) w.trace;
  faults = λ _ w. Always (Uses Says) w.trace;
}

pub insert_all-AscendFrom :
    (new : List ℕ) (fds : Fds) → AscendFrom 0 fds → AscendFrom 0 (insert_all new fds)
unfolding insert_all
insert_all-AscendFrom [] fds a = a
insert_all-AscendFrom (fd ∷ new) fds a =
    insert_all-AscendFrom new (insert_fd fd fds) (insert_fd-AscendFrom 0 fd fds (omega arith) a)

pub mem-middle : (fd : ℕ) (before fds : Fds) → mem fd (before ++ (fd ∷ fds)) ≡ true
unfolding mem
mem-middle fd [] fds = ground arith
mem-middle fd (x ∷ before) fds = ground (arith, mem-middle fd before fds)

pub erase_fd-middle :
    (low fd : ℕ) (before fds : Fds)
    → AscendFrom low (before ++ (fd ∷ fds))
    → erase_fd fd (before ++ (fd ∷ fds)) ≡ before ++ fds
unfolding erase_fd
erase_fd-middle low fd [] fds a = let same : (fd == fd) ≡ true = ground arith in rw same refl
erase_fd-middle low fd (x ∷ before) fds a =
    let other : (fd == x) ≡ false =
      ground (arith, mem-above (suc x) fd (before ++ (fd ∷ fds)) a.1 (mem-middle fd before fds)) in
    rw (other, erase_fd-middle (suc x) fd before fds a.1) refl

pub AscendFrom-middle :
    (low fd : ℕ) (before fds : Fds)
    → AscendFrom low (before ++ (fd ∷ fds))
    → AscendFrom low (before ++ fds)
AscendFrom-middle low fd [] fds a = AscendFrom-lower low (suc fd) fds (omega (arith, a.0)) a.1
AscendFrom-middle low fd (x ∷ before) fds a = (a.0, AscendFrom-middle (suc x) fd before fds a.1)

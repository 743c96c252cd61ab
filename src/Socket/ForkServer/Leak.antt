-- ===== src/Socket/ForkServer/Leak.antt =====
-- The accepting process of study-linux-kernel/socket/socket-server-tcp-mp.c and its descriptors.
use Prim.Native.String.{String}
use study_linux_kernel.Base.{ℕ, ◌<◌, ◌≡◌, ◌⊎◌, List, [], ◌∷◌, ◌++◌, some, length}
use study_linux_kernel.Sys.Calls.{Trace, made, printed, accept, fork}
use study_linux_kernel.Sys.Monad.{World}
use study_linux_kernel.Sys.Loops.{Stops}
use study_linux_kernel.Sys.Traces.{add, held}

-- The connections that `accept` has answered, the newest first.
abbrev pub connections : Trace → List ℕ
connections [] = []
connections (printed format args ∷ past) = connections past
connections (made (accept fd) r ∷ past) = add r.result (connections past)
connections (made c r ∷ past) = connections past

-- A `fork` has answered 0, so the run is a child's.
abbrev pub IsChild : Trace → Type 0
IsChild [] = ⊥
IsChild (printed format args ∷ past) = IsChild past
IsChild (made fork r ∷ past) = (r.result ≡ some 0) ⊎ IsChild past
IsChild (made c r ∷ past) = IsChild past

module _ (old : List ℕ) where
  abbrev pub KeepsAll : World → Type 0
  KeepsAll w = held w.trace ≡ connections w.trace ++ old

  abbrev pub stops : Stops
  stops = record {
    status = λ n w. IsChild w.trace;
    waits = λ w. IsChild w.trace ⊎ KeepsAll w;
    faults = λ e w. IsChild w.trace;
  }

  abbrev Child : Unit {0} → World → Type 0
  Child _ w = IsChild w.trace

  -- Between two rounds of the parent.
  record Accepts (fuel : ℕ) (w : World) : Type 0 where
    keeps : KeepsAll w
    few : length w.replies < fuel

-- ===== src/Pipe/Sync/Seen.antt =====
-- What a history of a process of study-linux-kernel/ipc-pipe/multiprocess-sync.cpp shows.
use study_linux_kernel.Base.{
  ℕ, zero, suc, List, [], ◌∷◌, Option, none, some, Bool, true, false, ◌==◌, ◌||◌, ◌&&◌,
}
use study_linux_kernel.Sys.Calls.{Text, Trace, made, printed, fork, sleep, read, close}
use study_linux_kernel.Sys.Monad.{Outcome, exited}
use study_linux_kernel.Sys.Exchange.{history}

abbrev pub closes : ℕ → Trace → Bool
closes fd [] = false
closes fd (printed format args ∷ past) = closes fd past
closes fd (made (close f) r ∷ past) = f == fd || closes fd past
closes fd (made c r ∷ past) = closes fd past

abbrev failed : Option ℕ → Bool
failed none = true
failed (some _) = false

-- A `close` of the descriptor has failed.
abbrev pub refused : ℕ → Trace → Bool
refused fd [] = false
refused fd (printed format args ∷ past) = refused fd past
refused fd (made (close f) r ∷ past) = (f == fd && failed r.result) || refused fd past
refused fd (made c r ∷ past) = refused fd past

abbrev pub slept : ℕ → Trace → Bool
slept n [] = false
slept n (printed format args ∷ past) = slept n past
slept n (made (sleep m) r ∷ past) = m == n || slept n past
slept n (made c r ∷ past) = slept n past

-- A process holds a descriptor until it closes it or ends.
abbrev pub let_go : ℕ → Outcome (Unit {0}) → Bool
let_go fd (exited n w) = true
let_go fd o = closes fd (history o)

abbrev pub is_eof : Option ℕ → Bool
is_eof (some zero) = true
is_eof got = false

-- A `read` has found the end of the input.
abbrev pub eof_seen : ℕ → Trace → Bool
eof_seen fd [] = false
eof_seen fd (printed format args ∷ past) = eof_seen fd past
eof_seen fd (made (read f n) r ∷ past) = (f == fd && is_eof r.result) || eof_seen fd past
eof_seen fd (made c r ∷ past) = eof_seen fd past

-- The run is that of a child: `fork` has returned 0.
abbrev pub is_child : Trace → Bool
is_child [] = false
is_child (printed format args ∷ past) = is_child past
is_child (made fork r ∷ past) = is_eof r.result || is_child past
is_child (made c r ∷ past) = is_child past

abbrev pub one_more : Option ℕ → ℕ → ℕ
one_more (some (suc pid)) n = suc n
one_more o n = n

-- The children that there are.
abbrev pub children : Trace → ℕ
children [] = 0
children (printed format args ∷ past) = children past
children (made fork r ∷ past) = one_more r.result (children past)
children (made c r ∷ past) = children past

-- Of each argument, with the number that the source gives it.
abbrev pub EachOf : (ℕ → Text → Type 0) → ℕ → List Text → Type 0
EachOf P i [] = Unit {0}
EachOf P i (arg ∷ args) = P i arg × EachOf P (suc i) args

pub EachOf-map :
    (P R : ℕ → Text → Type 0) (i : ℕ) (args : List Text)
    → ((j : ℕ) (arg : Text) → P j arg → R j arg)
    → EachOf P i args
    → EachOf R i args
EachOf-map P R i [] f e = tt
EachOf-map P R i (arg ∷ args) f e = (f i arg e.0, EachOf-map P R (suc i) args f e.1)

-- ===== src/Chatroom/Registry.antt =====
-- The registry of study-linux-kernel/socket/chatroom_server.c and the sockets in a history.
use study_linux_kernel.Base.{
  ℕ, ◌≤◌, ◌≡◌, refl, List, [], ◌∷◌, Option, none, some, true, length, mem, arith,
}
use study_linux_kernel.Sys.Calls.{Call, Trace, made, printed, sendto, connect}
use study_linux_kernel.Sys.Monad.{World}
use study_linux_kernel.Sys.Loops.{Stops, Ends}
use study_linux_kernel.Sys.Traces.{Always}
use study_linux_kernel.HashTable.Placed.{IsPlaced}
use study_linux_kernel.HashTable.Traversal.{entries}
use study_linux_kernel.HashTable.Traversal.Growth.{Every}
use study_linux_kernel.Chatroom.{Chat, die}

abbrev pub once_connected : ℕ → Option ℕ → List ℕ → List ℕ
once_connected fd none fds = fds
once_connected fd (some _) fds = fd ∷ fds

-- The sockets that were connected, the newest first.
abbrev pub connected : Trace → List ℕ
connected [] = []
connected (printed format args ∷ past) = connected past
connected (made (connect fd to) r ∷ past) = once_connected fd r.result (connected past)
connected (made c r ∷ past) = connected past

-- A message leaves only on a socket that was connected to a client.
abbrev pub Connected : Call → Trace → Type 0
Connected (sendto fd message to) past = mem fd (connected past) ≡ true
Connected c past = Unit {0}

abbrev pub Kept : Trace → Type 0
Kept t = Always Connected t × (length (connected t) ≤ 100)

abbrev pub stops : Stops
stops = record {
  status = λ n w. (n ≡ 1) × Kept w.trace;
  waits = λ w. Kept w.trace;
  faults = λ e w. Kept w.trace;
}

-- The registry: the table is well placed, it has no more entries than there are clients, and their values
-- are connected sockets.
pub record Room (chat : Chat) (fds : List ℕ) : Type 0 where
  pub placed : IsPlaced chat.table
  pub clients : length chat.client_fds ≡ length fds
  pub few : length fds ≤ 100
  pub size : length (entries chat.table.buckets) ≤ length fds
  pub known : Every (λ fd. mem fd fds ≡ true) (entries chat.table.buckets)

-- The history, with at most `n` replies left.
pub record Told (fds : List ℕ) (n : ℕ) (w : World) : Type 0 where
  pub same : connected w.trace ≡ fds
  pub sends : Always Connected w.trace
  pub left : length w.replies ≤ n

abbrev pub InRoom : ℕ → Chat → World → Type 0
InRoom n chat w = (fds : List ℕ) × Room chat fds × Told fds n w

pub Told-Kept : (fds : List ℕ) (n : ℕ) (w : World) → length fds ≤ 100 → Told fds n w → Kept w.trace
Told-Kept fds n w few h = (h.sends, rw h.same few)

pub die-Kept :
    {A : Type 0} (P : A → World → Type 0) (w : World) → Kept w.trace → Ends P stops (die w)
unfolding die
die-Kept P w h = (refl, h)

pub mem_first : (x : ℕ) (xs : List ℕ) → mem x (x ∷ xs) ≡ true
unfolding mem
mem_first x xs = ground arith

pub mem_behind : (x y : ℕ) (xs : List ℕ) → mem x xs ≡ true → mem x (y ∷ xs) ≡ true
unfolding mem
mem_behind x y xs h = ground arith

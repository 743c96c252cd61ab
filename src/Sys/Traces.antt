-- ===== src/Sys/Traces.antt =====
-- What a history of calls shows.
use study_linux_kernel.Base.{
  ℕ, zero, suc, ◌≡◌, refl, ◌++◌, List, [], ◌∷◌, Bool, true, false, Option, none, some, ◌==◌,
  if◌then◌else◌, take, ◌≤◌, length, has_nul,
}
use study_linux_kernel.Sys.Calls.{
  Call, Reply, made, printed, Trace, Text, received, open_file, close, socket, accept, recv, send,
  epoll_create, read, write, lock, unlock,
}

abbrev pub or_empty : Option Text → Text
or_empty none = []
or_empty (some bytes) = bytes

-- At each call `P` holds of the call and of what came before.
abbrev pub Always : (Call → Trace → Type 0) → Trace → Type 0
Always P [] = Unit {0}
Always P (made c r ∷ past) = P c past × Always P past
Always P (printed format args ∷ past) = Always P past

-- The descriptors that calls have returned and that were not closed since.
abbrev pub add : Option ℕ → List ℕ → List ℕ
add none fds = fds
add (some fd) fds = fd ∷ fds

abbrev pub drop_fd : ℕ → List ℕ → List ℕ
drop_fd fd [] = []
drop_fd fd (f ∷ fds) = if f == fd then fds else f ∷ drop_fd fd fds

abbrev pub held_after : Call → Reply → List ℕ → List ℕ
held_after (open_file path flags) r fds = add r.result fds
held_after (socket kind) r fds = add r.result fds
held_after (accept fd) r fds = add r.result fds
held_after epoll_create r fds = add r.result fds
held_after (close fd) r fds = drop_fd fd fds
held_after c r fds = fds

abbrev pub held : Trace → List ℕ
held [] = []
held (made c r ∷ past) = held_after c r (held past)
held (printed format args ∷ past) = held past

-- What the newest `recv` on a descriptor stored.
abbrev pub heard : ℕ → Trace → Option Text
heard fd [] = none
heard fd (printed format args ∷ past) = heard fd past
heard fd (made (recv f n) r ∷ past) = if f == fd then received n r else heard fd past
heard fd (made c r ∷ past) = heard fd past

-- Bytes that fill an array of 1024 and leave no NUL in it, so that a C string there has no end.
abbrev pub Unterminated : Option Text → Type 0
Unterminated none = ⊥
Unterminated (some bytes) = (1024 ≤ length bytes) × (has_nul bytes ≡ false)

-- What the newest `recv` on any descriptor stored.
abbrev pub newest : Trace → Option Text
newest [] = none
newest (printed format args ∷ past) = newest past
newest (made (recv f n) r ∷ past) = received n r
newest (made c r ∷ past) = newest past

-- A `send` repeats what was last received from the same peer.
abbrev pub Echoes : Call → Trace → Type 0
Echoes (send fd bytes) past = heard fd past ≡ some bytes
Echoes c past = Unit {0}

-- The bytes that `read` has stored from a descriptor, in order.
abbrev pub taken : ℕ → Trace → Text
taken fd [] = []
taken fd (printed format args ∷ past) = taken fd past
taken fd (made (read f n) r ∷ past) =
    let before = taken fd past in if f == fd then before ++ or_empty (received n r) else before
taken fd (made c r ∷ past) = taken fd past

-- The bytes that the kernel has accepted from `write` to a descriptor, in order.
abbrev pub accepted : Text → Reply → Text
accepted bytes r = elim r.result [ none ↦ [] | some k ↦ take k bytes ]

abbrev pub stored : ℕ → Trace → Text
stored fd [] = []
stored fd (printed format args ∷ past) = stored fd past
stored fd (made (write f bytes) r ∷ past) =
    let before = stored fd past in if f == fd then before ++ accepted bytes r else before
stored fd (made c r ∷ past) = stored fd past

-- `xs` begins `ys`.
abbrev pub IsPrefix : Text → Text → Type 0
IsPrefix [] ys = Unit {0}
IsPrefix (x ∷ xs) [] = ⊥
IsPrefix (x ∷ xs) (y ∷ ys) = (x ≡ y) × IsPrefix xs ys

pub IsPrefix-refl : (xs : Text) → IsPrefix xs xs
IsPrefix-refl [] = tt
IsPrefix-refl (x ∷ xs) = (refl, IsPrefix-refl xs)

pub IsPrefix-take : (k : ℕ) (ys : Text) → IsPrefix (take k ys) ys
unfolding take
IsPrefix-take zero ys = tt
IsPrefix-take (suc k) [] = tt
IsPrefix-take (suc k) (y ∷ ys) = (refl, IsPrefix-take k ys)

pub IsPrefix-append : (xs ys zs : Text) → IsPrefix ys zs → IsPrefix (xs ++ ys) (xs ++ zs)
IsPrefix-append [] ys zs h = h
IsPrefix-append (x ∷ xs) ys zs h = (refl, IsPrefix-append xs ys zs h)

pub IsPrefix-nil : (xs zs : Text) → IsPrefix xs (xs ++ zs)
IsPrefix-nil [] zs = tt
IsPrefix-nil (x ∷ xs) zs = (refl, IsPrefix-nil xs zs)

-- Whether the process holds its mutex, and what it may do with and without it: it takes a free
-- mutex and gives back one that it has, and does nothing while it has it but read the terminal.
abbrev pub locked : Trace → Bool
locked [] = false
locked (printed format args ∷ past) = locked past
locked (made lock r ∷ past) = true
locked (made unlock r ∷ past) = false
locked (made c r ∷ past) = locked past

abbrev pub Guarded : Call → Trace → Type 0
Guarded unlock past = locked past ≡ true
Guarded (read fd n) past = locked past ≡ true
Guarded c past = locked past ≡ false

-- What the newest `read` from the terminal stored.
abbrev pub typed : Trace → Option Text
typed [] = none
typed (printed format args ∷ past) = typed past
typed (made (read fd n) r ∷ past) = received n r
typed (made c r ∷ past) = typed past

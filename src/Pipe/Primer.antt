-- ===== src/Pipe/Primer.antt =====
-- study-linux-kernel/ipc-pipe/pipe-primer.c
pub mod Child
use study_linux_kernel.Base.{
  ℕ, zero, suc, List, [], ◌∷◌, Option, none, some, Bool, not, ◌==◌, if◌then◌else◌, length, str_eq,
  c_string,
}
use study_linux_kernel.Sys.Calls.{Text, int, pipe, fork, wait, read, write, close}
use study_linux_kernel.Sys.Monad.{M, pure, ◌>>=◌, ◌>>◌, exit, sys, number, input, run, say}
use study_linux_kernel.Sys.Loops.{Next, again, finish, loop}

-- `write(...) != n`
abbrev pub differs : Option ℕ → ℕ → Bool
differs none n = Bool.true
differs (some k) n = not (k == n)

unfoldable pub copy_out : Text → M (Next (Unit {0}) (Unit {0}))
copy_out bytes = do
  say "child recv %ld byte of data from the pipe.\n" (int (length bytes) ∷ [])
  put ← number (write 1 bytes)
  if differs put (length bytes)
      then (do say "child pipe write failure...\n" []; exit 1)
      else pure (again tt)

-- The body of the child's loop, on what `read` gave.
unfoldable pub on_bytes : Option Text → M (Next (Unit {0}) (Unit {0}))
on_bytes none = do say "child pipe read failure...." []; exit 1
on_bytes (some []) = pure (finish tt)
on_bytes (some (b ∷ bs)) = copy_out (b ∷ bs)

unfoldable pub round : ℕ → Unit {0} → M (Next (Unit {0}) (Unit {0}))
round src _ = do bytes ← input 32 (read src 32); on_bytes bytes

-- The child behind its loop.
unfoldable pub leave : ℕ → M (Unit {0})
leave src = do
  run (write 1 (10 ∷ []))
  closed ← number (close src)
  elim closed [
    | none ↦ do say "child close pipe read end failure...\n" []; exit 1
    | some _ ↦ do say "child it's done...\n" []; exit 0
  ]

unfoldable pub copy_all : ℕ → ℕ → M (Unit {0})
copy_all fuel src = do loop fuel (round src) tt; leave src

unfoldable pub child : ℕ → ℕ → ℕ → M (Unit {0})
child fuel src dst = do
  closed ← number (close dst)
  elim closed [
    | none ↦ do say "child close pipe write end failure...\n" []; exit 1
    | some _ ↦ copy_all fuel src
  ]

-- The parent behind its `write`.
unfoldable pub finish_parent : ℕ → M (Unit {0})
finish_parent dst = do
  closed ← number (close dst)
  elim closed [
    | none ↦ do say "parent close pipe write end failed...\n" []; exit 1
    | some _ ↦ do run wait; say "parent it's done...\n" []; exit 0
  ]

unfoldable pub parent : ℕ → ℕ → Text → M (Unit {0})
unfolding finish_parent
parent src dst text = do
  closed ← number (close src)
  elim closed [
    | none ↦ do say "parent close pipe read end failure...\n" []; exit 1
    | some _ ↦ do
      put ← number (write dst (c_string text))
      if differs put (length (c_string text))
          then (do say "parent write failed...\n" []; exit 1)
          else finish_parent dst
  ]

-- `strcmp(text, "--help") == 0`
abbrev pub is_help : Text → Bool
is_help text = str_eq text (b'-' ∷ b'-' ∷ b'h' ∷ b'e' ∷ b'l' ∷ b'p' ∷ [])

-- The `switch` on what `fork` returned.
unfoldable pub branch : ℕ → ℕ → ℕ → Text → Option ℕ → M (Unit {0})
branch fuel src dst text none = do say "fork failure...\n" []; exit 1
branch fuel src dst text (some zero) = child fuel src dst
branch fuel src dst text (some (suc pid)) = parent src dst text

-- `argv` holds the arguments behind the program's name. The two ends of the pipe are the
-- descriptors that the reply to `pipe` names readable and writable.
unfoldable pub main : ℕ → List Text → M (Unit {0})
main fuel (text ∷ []) = if is_help text then (do say "%s string\n" []; exit 1) else (do
  ends ← sys pipe
  elim ends.result [
    | none ↦ do say "mkpipe failure...\n" []; exit 1
    | some _ ↦ elim ends.readable [
      | [] ↦ exit 1
      | src ∷ _ ↦ elim ends.writable [
        | [] ↦ exit 1
        | dst ∷ _ ↦ do pid ← number fork; branch fuel src dst text pid
      ]
    ]
  ])
main fuel argv = do say "%s string\n" []; exit 1

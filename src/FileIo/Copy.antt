-- ===== src/FileIo/Copy.antt =====
-- study-linux-kernel/file-io/copy.c: copies a file in chunks of 1024 bytes.
pub mod Complete
use study_linux_kernel.Base.{ℕ, List, [], ◌∷◌, Option, none, some, Bool, ltb, if◌then◌else◌, length}
use study_linux_kernel.Sys.Calls.{Text, str, open_file, read, write, close}
use study_linux_kernel.Sys.Monad.{M, pure, ◌>>=◌, ◌>>◌, exit, number, input, run, say}
use study_linux_kernel.Sys.Loops.{Next, again, finish, loop}

-- `write(fddst, buffer, numread) < numread`, where -1 is less too.
abbrev pub short : Option ℕ → ℕ → Bool
short none n = Bool.true
short (some k) n = ltb k n

-- The loop's test and body on what `read` returned; the loop ends with the last `numread`.
unfoldable pub copy_chunk : ℕ → Option Text → M (Next (Unit {0}) (Option Text))
copy_chunk dst none = pure (finish none)
copy_chunk dst (some []) = pure (finish (some []))
copy_chunk dst (some (b ∷ bs)) = do
  put ← number (write dst (b ∷ bs))
  if short put (length (b ∷ bs))
      then (do say "The specified buffer length not written.\n" []; pure (finish (some (b ∷ bs))))
      else pure (again tt)

unfoldable pub round : ℕ → ℕ → Unit {0} → M (Next (Unit {0}) (Option Text))
unfolding copy_chunk
round src dst _ = do numread ← input 1024 (read src 1024); copy_chunk dst numread

-- The lines behind the loop.
unfoldable pub conclude : ℕ → ℕ → Option Text → M (Unit {0})
conclude src dst numread = do
  elim numread [ none ↦ say "The specified buffer length not written.\n" [] | some _ ↦ pure tt ]
  run (close src)
  run (close dst)
  exit 0

unfoldable pub copy_all : ℕ → ℕ → ℕ → M (Unit {0})
unfolding conclude
copy_all fuel src dst = do numread ← loop fuel (round src dst) tt; conclude src dst numread

-- `argv` holds the arguments behind the program's name.
unfoldable pub main : ℕ → List Text → M (Unit {0})
main fuel (from ∷ to ∷ _) = do
  src ← number (open_file from "O_RDONLY")
  elim src [
    | none ↦ do say "open file [%s] failed.\n" (str from ∷ []); exit 1
    | some fdsrc ↦ do
      dst ← number (open_file to "O_WRONLY|O_CREAT|O_TRUNC")
      elim dst [
        | none ↦ do say "create file [%s] failed.\n" (str to ∷ []); exit 1
        | some fddst ↦ copy_all fuel fdsrc fddst
      ]
  ]
main fuel argv = do say "Usage: %s [src] [dst]\n" []; exit 1

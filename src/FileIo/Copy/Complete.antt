-- ===== src/FileIo/Copy/Complete.antt =====
-- That study-linux-kernel/file-io/copy.c copies.
use study_linux_kernel.Base.{
  ℕ, ◌<◌, ◌≡◌, [], ◌∷◌, ◌++◌, Bool, true, not, ◌&&◌, Option, none, some, length, take_all, arith,
  append-nil,
}
use study_linux_kernel.Sys.Calls.{Text, Trace, made, printed, write}
use study_linux_kernel.Sys.Monad.{World}
use study_linux_kernel.Sys.Loops.{Stops, Ends, Round, loop, loop-Ends, bind-Ends}
use study_linux_kernel.Sys.Traces.{
  or_empty, taken, stored, IsPrefix, IsPrefix-refl, IsPrefix-take, IsPrefix-append, IsPrefix-nil,
  held,
}
use study_linux_kernel.FileIo.Copy.{short, copy_chunk, round, conclude, copy_all}

-- No `write` so far took less than it was given.
abbrev pub full_writes : Trace → Bool
full_writes [] = true
full_writes (printed format args ∷ past) = full_writes past
full_writes (made (write fd bytes) r ∷ past) =
    not (short r.result (length bytes)) && full_writes past
full_writes (made c r ∷ past) = full_writes past

module _ (src dst : ℕ) where
  abbrev Begins : World → Type 0
  Begins w = IsPrefix (stored dst w.trace) (taken src w.trace)

  abbrev Full : World → Type 0
  Full w = full_writes w.trace ≡ true → stored dst w.trace ≡ taken src w.trace

  -- Between two rounds.
  record Copied (w : World) : Type 0 where
    same : stored dst w.trace ≡ taken src w.trace
    files : held w.trace ≡ dst ∷ src ∷ []

  -- At the end of the loop.
  record Partly (w : World) : Type 0 where
    begins : Begins w
    all : Full w
    files : held w.trace ≡ dst ∷ src ∷ []

  -- At the end of the process.
  pub record Finished (n : ℕ) (w : World) : Type 0 where
    pub status : n ≡ 0
    pub begins : IsPrefix (stored dst w.trace) (taken src w.trace)
    pub all : full_writes w.trace ≡ true → stored dst w.trace ≡ taken src w.trace
    pub closed : held w.trace ≡ []

  abbrev pub stops : Stops
  stops = record { status = Finished; waits = Begins; faults = λ _ _. ⊥ }

  -- The chunk has been read, and is not yet written.
  chunk-Copied :
      (numread : Option Text) (w₀ w : World)
      → length w.replies < length w₀.replies
      → stored dst w.trace ++ or_empty numread ≡ taken src w.trace
      → held w.trace ≡ dst ∷ src ∷ []
      → Ends (Round (λ _. Copied) (λ _. Partly) w₀) stops (copy_chunk dst numread w)
  unfolding copy_chunk
  chunk-Copied none w₀ w less same files =
      let eq : stored dst w.trace ≡ taken src w.trace = rw append-nil at same in
      record {
        begins = rw (← eq) (IsPrefix-refl (stored dst w.trace));
        all = λ _. eq;
        files = files;
      }
  chunk-Copied (some []) w₀ w less same files =
      let eq : stored dst w.trace ≡ taken src w.trace = rw append-nil at same in
      record {
        begins = rw (← eq) (IsPrefix-refl (stored dst w.trace));
        all = λ _. eq;
        files = files;
      }
  chunk-Copied (some (b ∷ bs)) w₀ w less same files =
      grind
        (arith, IsPrefix-append, IsPrefix-take, IsPrefix-refl, take_all, append-nil, IsPrefix-nil)

  round-Copied :
      (w : World) → Copied w → Ends (Round (λ _. Copied) (λ _. Partly) w) stops (round src dst tt w)
  unfolding round
  round-Copied w h = grind (arith, chunk-Copied, append-nil, IsPrefix-nil, IsPrefix-refl)

  conclude-Finished :
      (numread : Option Text) (w : World)
      → Partly w
      → Ends (λ _ _. ⊥) stops (conclude src dst numread w)
  unfolding conclude
  conclude-Finished none w h = ground arith
  conclude-Finished (some bs) w h = ground arith

  -- From two open files, of which nothing was read or written, and whatever the environment
  -- answers, the copy ends or waits in a
  -- call, and is out of fuel nowhere. In every call and at the end what the target has taken begins
  -- what was read, at the end it is all that was read unless a `write` took less than it was given,
  -- both files are closed, and the status is 0.
  pub copy_all-Finished :
      (fuel : ℕ) (w : World)
      → length w.replies < fuel
      → (stored dst w.trace ≡ []) × (taken src w.trace ≡ []) × (held w.trace ≡ dst ∷ src ∷ [])
      → Ends (λ _ _. ⊥) stops (copy_all fuel src dst w)
  unfolding copy_all
  copy_all-Finished fuel w f h =
      bind-Ends (λ _. Partly) (λ _ _. ⊥) stops (loop fuel (round src dst) tt) (conclude src dst) w
        (loop-Ends (λ _. Copied) (λ _. Partly) stops (round src dst) (λ _. round-Copied) fuel tt w f
          (ground arith))
        conclude-Finished

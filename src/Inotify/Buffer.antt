-- ===== src/Inotify/Buffer.antt =====
-- The walk over the bytes that a `read` from an inotify descriptor stores: `for (ptr = buf; ptr <
-- buf + len; ptr += sizeof(struct inotify_event) + event->len)`, as
-- study-linux-kernel/monitoring-files/inotify.c and monitoring_dir.c write it.
use study_linux_kernel.Base.{
  ℕ, zero, suc, ◌+◌, ◌*◌, [], ◌∷◌, leb, if◌then◌else◌, length, take, drop, has_nul, c_string,
}
use study_linux_kernel.Base.Run.{Run, ok, fault, indeterminate, out_of_bounds, ◌>>=◌}
use study_linux_kernel.Sys.Calls.{Text}
use study_linux_kernel.Sys.Monad
use study_linux_kernel.Sys.Monad.{World, M, unfinished}

-- `struct inotify_event`; `name` has `len` bytes.
pub record InotifyEvent : Type 0 where
  pub wd : ℕ
  pub mask : ℕ
  pub cookie : ℕ
  pub name : Text

-- A field of 32 bits, the low byte first. Behind what `read` stored stands what was there before.
unfoldable pub word : Text → Run (ℕ × Text)
word (a ∷ b ∷ c ∷ d ∷ rest) = ok (a + 256 * (b + 256 * (c + 256 * d)), rest)
word _ = fault indeterminate

-- The event at `ptr`, and the bytes at the next value of `ptr`.
unfoldable pub event_at : Text → Run (InotifyEvent × Text)
unfolding word
event_at ptr = do
  (wd, p) ← word ptr
  (mask, q) ← word p
  (cookie, r) ← word q
  (len, s) ← word r
  if leb len (length s)
      then ok (record { wd = wd; mask = mask; cookie = cookie; name = take len s }, drop len s)
      else fault indeterminate

-- The C string at `event->name`. Without a NUL in its bytes, or with no bytes at all, it would be
-- whatever stands behind the event.
unfoldable pub name_of : InotifyEvent → Run Text
name_of event = if has_nul event.name then ok (c_string event.name) else fault out_of_bounds

-- The loop with a body for each event; each round moves `ptr` by 16 bytes at least.
unfoldable pub walk : ℕ → (InotifyEvent → M (Unit {0})) → Text → M (Unit {0})
walk zero handle ptr w = unfinished w
walk (suc fuel) handle [] w = Monad.pure tt w
walk (suc fuel) handle (b ∷ ptr) w =
    let next = λ (p : Text). walk fuel handle p in
    (Monad.◌>>=◌ (Monad.lift (event_at (b ∷ ptr))) (λ r. Monad.◌>>◌ (handle r.0) (next r.1))) w

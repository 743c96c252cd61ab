-- ===== src/Inotify/Encoding.antt =====
-- The buffer as the kernel fills it, and the walk over it.
use study_linux_kernel.Base.{
  ℕ, zero, suc, ◌+◌, ◌*◌, ◌/◌, ◌%◌, ◌<◌, ◌≡◌, refl, List, [], ◌∷◌, ◌++◌, append_assoc, length,
  length-append, take-append, drop-append, arith,
}
use mathlib.Core.Path.{fun_ext}
use study_linux_kernel.Base.Run.{ok}
use study_linux_kernel.Sys.Calls.{Text}
use study_linux_kernel.Sys.Monad
use study_linux_kernel.Sys.Monad.{World, M}
use study_linux_kernel.Inotify.Buffer.{InotifyEvent, word, event_at, walk}

-- A number of 32 bits in four bytes, the low byte first.
unfoldable pub bytes_of : ℕ → Text
bytes_of n = n % 256 ∷ n / 256 % 256 ∷ n / 65536 % 256 ∷ n / 16777216 % 256 ∷ []

unfoldable pub encode : InotifyEvent → Text
encode e =
    bytes_of e.wd
    ++ (bytes_of e.mask ++ (bytes_of e.cookie ++ (bytes_of (length e.name) ++ e.name)))

unfoldable pub encode_all : List InotifyEvent → Text
encode_all [] = []
encode_all (e ∷ es) = encode e ++ encode_all es

-- The fields fit in their 32 bits.
pub record Fits (e : InotifyEvent) : Type 0 where
  pub wd : e.wd < 4294967296
  pub mask : e.mask < 4294967296
  pub cookie : e.cookie < 4294967296
  pub len : length e.name < 4294967296

abbrev pub AllFit : List InotifyEvent → Type 0
AllFit [] = Unit {0}
AllFit (e ∷ es) = Fits e × AllFit es

pub word-bytes_of :
    (n : ℕ) (rest : Text) → n < 4294967296 → word (bytes_of n ++ rest) ≡ ok (n, rest)
unfolding word bytes_of
word-bytes_of n rest h =
    let whole : n % 256
          + 256 * (n / 256 % 256 + 256 * (n / 65536 % 256 + 256 * (n / 16777216 % 256)))
        ≡ n =
      omega arith in
    rw whole

event_at-encode :
    (e : InotifyEvent) (rest : Text) → Fits e → event_at (encode e ++ rest) ≡ ok (e, rest)
unfolding encode event_at
event_at-encode e rest h =
    let name = e.name ++ rest in
    let len = bytes_of (length e.name) ++ name in
    let cookie = bytes_of e.cookie ++ len in
    simp append_assoc (
      rw
        (
          word-bytes_of e.wd (bytes_of e.mask ++ cookie) h.wd,
          word-bytes_of e.mask cookie h.mask,
          word-bytes_of e.cookie len h.cookie,
          word-bytes_of (length e.name) name h.len,
          take-append e.name rest,
          drop-append e.name rest,
        )
        (ground (arith, length-append e.name rest)))

walk-event_at :
    (fuel : ℕ) (handle : InotifyEvent → M (Unit {0})) (bytes : Text) (e : InotifyEvent)
    (rest : Text) (w : World)
    → event_at bytes ≡ ok (e, rest)
    → walk (suc fuel) handle bytes w ≡ (Monad.◌>>◌ (handle e) (walk fuel handle rest)) w
unfolding walk
walk-event_at fuel handle [] e rest w h = absurd (unfold event_at in cc)
walk-event_at fuel handle (b ∷ bytes) e rest w h = rw h

-- Each event in turn.
unfoldable pub for_each : (InotifyEvent → M (Unit {0})) → List InotifyEvent → M (Unit {0})
for_each handle [] = Monad.pure tt
for_each handle (e ∷ es) = Monad.◌>>◌ (handle e) (for_each handle es)

-- Over a buffer that holds whole events, the loop runs its body on each of them in order, misses
-- none, and reads nothing behind them, for every body and with fuel above the number of events.
pub walk-encode_all :
    (handle : InotifyEvent → M (Unit {0})) (es : List InotifyEvent) (fuel : ℕ)
    → AllFit es
    → length es < fuel
    → (w : World) → walk fuel handle (encode_all es) w ≡ for_each handle es w
unfolding walk encode_all for_each
walk-encode_all handle es zero h f w = absurd (omega arith)
walk-encode_all handle [] (suc fuel) h f w = refl
walk-encode_all handle (e ∷ es) (suc fuel) h f w =
    rw
      (walk-event_at fuel handle (encode e ++ encode_all es) e (encode_all es) w
        (event_at-encode e (encode_all es) h.0))
      (rw (fun_ext (walk-encode_all handle es fuel h.1 (omega arith))))

-- ===== src/Inotify/Progress.antt =====
-- The walk of Inotify.Buffer over any bytes at all.
use study_linux_kernel.Base.{
  ℕ, zero, suc, ◌+◌, ◌<◌, ◌≤◌, ◌≡◌, refl, [], ◌∷◌, Bool-cases, inl, inr, ◌⊎◌, leb, length,
  length-drop, take, drop, arith,
}
use study_linux_kernel.Base.Run.{ok, fault, indeterminate}
use study_linux_kernel.Sys.Calls.{Text}
use study_linux_kernel.Sys.Monad.{World, M}
use study_linux_kernel.Sys.Loops.{Stops, Ends, bind-Ends}
use study_linux_kernel.Inotify.Buffer.{InotifyEvent, word, event_at, walk}

-- A field takes four bytes, or is not all there.
word-cases :
    (p : Text)
    → (word p ≡ fault indeterminate)
      ⊎ ((n : ℕ) × (rest : Text) × (word p ≡ ok (n, rest)) × (length rest + 4 ≡ length p))
unfolding word
word-cases [] = inl refl
word-cases (a ∷ []) = inl refl
word-cases (a ∷ b ∷ []) = inl refl
word-cases (a ∷ b ∷ c ∷ []) = inl refl
word-cases (a ∷ b ∷ c ∷ d ∷ rest) = inr (_, rest, refl, omega arith)

-- An event takes 16 bytes at least, or is not all there.
event_at-cases :
    (p : Text)
    → (event_at p ≡ fault indeterminate)
      ⊎ ((e : InotifyEvent) × (rest : Text) × (event_at p ≡ ok (e, rest))
          × (length rest + 16 ≤ length p))
unfolding event_at
event_at-cases p = elim (word-cases p) [
  | inl f ↦ inl (rw f)
  | inr (wd, q, e₁, l₁) ↦ elim (word-cases q) [
    | inl f ↦ inl (rw (e₁, f))
    | inr (mask, r, e₂, l₂) ↦ elim (word-cases r) [
      | inl f ↦ inl (rw (e₁, e₂, f))
      | inr (cookie, s, e₃, l₃) ↦ elim (word-cases s) [
        | inl f ↦ inl (rw (e₁, e₂, e₃, f))
        | inr (len, t, e₄, l₄) ↦ elim (Bool-cases (leb len (length t))) [
          | inl fits ↦ inr (
            record { wd = wd; mask = mask; cookie = cookie; name = take len t },
            drop len t,
            rw (e₁, e₂, e₃, e₄, fits),
            omega (arith, length-drop len t),
          )
          | inr short ↦ inl (rw (e₁, e₂, e₃, e₄, short))
        ]
      ]
    ]
  ]
]

-- `ptr` comes up in the walk over `bytes`.
pub data Reached (bytes : Text) : Text → Type 0 where
  start : Reached bytes bytes
  next :
      {ptr rest : Text} {e : InotifyEvent}
      → Reached bytes ptr
      → event_at ptr ≡ ok (e, rest)
      → Reached bytes rest

-- `e` is one of the events in `bytes`.
pub record IsEventIn (bytes : Text) (e : InotifyEvent) : Type 0 where
  pub ptr : Text
  pub rest : Text
  pub reached : Reached bytes ptr
  pub stands : event_at ptr ≡ ok (e, rest)

-- `bytes` end inside an event.
pub record IsTorn (bytes : Text) : Type 0 where
  pub ptr : Text
  pub reached : Reached bytes ptr
  pub torn : event_at ptr ≡ fault indeterminate

-- Whatever the bytes are, the loop ends within as many rounds as there are bytes, and keeps what
-- its body keeps at each event of them; the only fault of its own is to read an event that is not
-- all there.
walk_on-Ends :
    (P : World → Type 0) (h : Stops) (handle : InotifyEvent → M (Unit {0})) (all : Text)
    → ((e : InotifyEvent) (w : World) → IsEventIn all e → P w → Ends (λ _. P) h (handle e w))
    → ((w : World) → IsTorn all → P w → h.faults indeterminate w)
    → (fuel : ℕ) (bytes : Text) (w : World) → length bytes < fuel
    → Reached all bytes
    → P w
    → Ends (λ _. P) h (walk fuel handle bytes w)
unfolding walk
walk_on-Ends P h handle all keep torn zero bytes w f r p = absurd (omega arith)
walk_on-Ends P h handle all keep torn (suc fuel) [] w f r p = p
walk_on-Ends P h handle all keep torn (suc fuel) (b ∷ bytes) w f r p =
    elim (event_at-cases (b ∷ bytes)) [
      | inl bad ↦ rw bad (torn w (record { ptr = b ∷ bytes; reached = r; torn = bad }) p)
      | inr (e, rest, good, shorter) ↦ rw good (
          bind-Ends (λ _. P) (λ _. P) h (handle e) (λ _. walk fuel handle rest) w
            (keep e w (record { ptr = b ∷ bytes; rest = rest; reached = r; stands = good }) p)
            (λ _ w' p'.
              walk_on-Ends P h handle all keep torn fuel rest w' (omega arith) (next r good) p'))
    ]

pub walk-Ends :
    (P : World → Type 0) (h : Stops) (handle : InotifyEvent → M (Unit {0})) (bytes : Text)
    → ((e : InotifyEvent) (w : World) → IsEventIn bytes e → P w → Ends (λ _. P) h (handle e w))
    → ((w : World) → IsTorn bytes → P w → h.faults indeterminate w)
    → (w : World) → P w
    → Ends (λ _. P) h (walk (length bytes + 1) handle bytes w)
walk-Ends P h handle bytes keep torn w p =
    walk_on-Ends P h handle bytes keep torn (length bytes + 1) bytes w (omega arith) start p

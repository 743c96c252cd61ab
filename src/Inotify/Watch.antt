-- ===== src/Inotify/Watch.antt =====
-- study-linux-kernel/monitoring-files/inotify.c: prints what happens in the directories that its
-- arguments name.
pub mod Events
use study_linux_kernel.Base.{
  ℕ, zero, suc, ◌+◌, List, [], ◌∷◌, Option, none, some, Bool, true, false, ◌==◌, if◌then◌else◌,
  length, has_bit, mem, replicate,
}
use study_linux_kernel.Sys.Calls.{
  Text, Arg, str, error, read, close, poll, inotify_init, inotify_add_watch, other, received,
}
use study_linux_kernel.Sys.Monad.{M, pure, ◌>>=◌, ◌>>◌, exit, sys, number, input, run, say, lift}
use study_linux_kernel.Sys.Loops.{Next, again, finish, loop}
use study_linux_kernel.Inotify.Buffer.{InotifyEvent, name_of, walk}

-- A watch descriptor with the argument that it was made for: `wd[i]` and `argv[i]` for 1 ≤ i < argc.
abbrev pub Watches : Type 0
Watches = List (ℕ × Text)

-- The loop over `wd`, up to the first that is the event's.
unfoldable pub say_directory : ℕ → Watches → M (Unit {0})
say_directory wd [] = pure tt
say_directory wd ((w, path) ∷ watches) =
    let later = say_directory wd watches in if w == wd then say "%s/" (str path ∷ []) else later

abbrev pub say_if : Bool → M (Unit {0}) → M (Unit {0})
say_if b m = if b then m else pure tt

unfoldable pub show_flags : InotifyEvent → M (Unit {0})
show_flags event = do
  say_if (has_bit event.mask 0x20) (say "IN_OPEN: " [])
  say_if (has_bit event.mask 0x10) (say "IN_CLOSE_NOWRITE: " [])
  say_if (has_bit event.mask 0x8) (say "IN_CLOSE_WRITE: " [])
  say_if (has_bit event.mask 0x100) (say "IN_CREATE: " [])

-- `if (event->len)`
unfoldable pub show_string : InotifyEvent → Text → M (Unit {0})
show_string event [] = pure tt
show_string event (_ ∷ _) = do name ← lift (name_of event); say "%s" (str name ∷ [])

unfoldable pub show_name : InotifyEvent → M (Unit {0})
show_name event = do
  show_string event event.name
  if has_bit event.mask 0x40000000 then say " [directory]\n" [] else say " [file]\n" []

-- The body for one event.
unfoldable pub show_event : Watches → InotifyEvent → M (Unit {0})
show_event watches event = do show_flags event; say_directory event.wd watches; show_name event

-- EAGAIN and EINTR.
abbrev pub eagain : ℕ
eagain = 11

abbrev pub eintr : ℕ
eintr = 4

-- The events that one `read` has stored.
unfoldable pub show_buffer : Watches → Text → M (Next (Unit {0}) (Unit {0}))
show_buffer watches bytes = do walk (length bytes + 1) (show_event watches) bytes; pure (again tt)

-- A round of `handle_events`: the answer of `read`, with `errno` where it is -1.
unfoldable pub drain : Watches → ℕ → Unit {0} → M (Next (Unit {0}) (Unit {0}))
drain watches fd _ = do
  r ← sys (read fd 4096)
  elim (received 4096 r) [
    | none ↦ if r.errno == eagain then pure (finish tt) else (do say "read" (error ∷ []); exit 1)
    | some [] ↦ pure (finish tt)
    | some (b ∷ bytes) ↦ show_buffer watches (b ∷ bytes)
  ]

unfoldable pub handle_events : ℕ → Watches → ℕ → M (Unit {0})
handle_events fuel watches fd = loop fuel (drain watches fd) tt

-- The loop over the arguments; `wd` fills up in their order.
unfoldable pub add_watches : ℕ → List Text → M Watches
add_watches fd [] = pure []
add_watches fd (path ∷ argv) = do
  wd ← number (inotify_add_watch fd path "IN_OPEN | IN_CLOSE | IN_CREATE")
  elim wd [
    | none ↦ do say "Cannot watch '%s': %s\n" (str path ∷ error ∷ []); exit 1
    | some w ↦ do watches ← add_watches fd argv; pure ((w, path) ∷ watches)
  ]

-- `while (read(STDIN_FILENO, &buf, 1) > 0 && buf != '\n')`
unfoldable pub skip_line : Unit {0} → M (Next (Unit {0}) (Unit {0}))
skip_line _ = do
  key ← input 1 (read 0 1)
  elim key [
    | none ↦ pure (finish tt)
    | some [] ↦ pure (finish tt)
    | some (b ∷ _) ↦ if b == 10 then pure (finish tt) else pure (again tt)
  ]

-- The body for a `poll` that found descriptors.
unfoldable pub dispatch : ℕ → Watches → ℕ → List ℕ → M (Next (Unit {0}) (Unit {0}))
dispatch fuel watches fd ready =
    if mem 0 ready
    then (do loop fuel skip_line tt; pure (finish tt))
    else if mem fd ready
    then (do handle_events fuel watches fd; pure (again tt))
    else pure (again tt)

unfoldable pub listen_round : ℕ → Watches → ℕ → Unit {0} → M (Next (Unit {0}) (Unit {0}))
listen_round fuel watches fd _ = do
  r ← sys (poll (0 ∷ fd ∷ []))
  elim r.result [
    | none ↦ if r.errno == eintr then pure (again tt) else (do say "poll" (error ∷ []); exit 1)
    | some zero ↦ pure (again tt)
    | some (suc n) ↦ dispatch fuel watches fd r.readable
  ]

unfoldable pub listen_all : ℕ → Watches → ℕ → M (Unit {0})
listen_all fuel watches fd = do
  say "Listening for events.\n" []
  loop fuel (listen_round fuel watches fd) tt
  say "Listening for events stopped.\n" []
  run (close fd)
  exit 0

-- `argv` holds the arguments behind the program's name; the flag says whether `calloc` has memory.
unfoldable pub main : Bool → ℕ → List Text → M (Unit {0})
main memory fuel [] = do say "Usage: %s PATH [PATH ...]\n" []; exit 1
main memory fuel (path ∷ argv) = do
  say "Press ENTER key to terminate.\n" []
  fd ← number inotify_init
  elim fd [
    | none ↦ do say "inotify_init1" (error ∷ []); exit 1
    | some fd ↦
        if memory
        then (do watches ← add_watches fd (path ∷ argv); listen_all fuel watches fd)
        else (do say "calloc" (error ∷ []); exit 1)
  ]

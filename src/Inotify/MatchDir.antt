-- ===== src/Inotify/MatchDir.antt =====
-- study-linux-kernel/monitoring-files/monitoring_dir.c: runs a command on each file of a directory
-- whose name holds a given text, when something happens to it.
pub mod Command
use study_linux_kernel.Base.{
  ℕ, zero, suc, ◌+◌, List, [], ◌∷◌, ◌++◌, Option, none, some, Bool, ◌==◌, ltb, if◌then◌else◌,
  length, has_bit, mem, occurs_in,
}
use study_linux_kernel.Base.Run.{Run, ok, fault, buffer_overflow}
use study_linux_kernel.Sys.Calls.{
  Text, str, error, read, close, poll, inotify_init, inotify_add_watch, popen, fgets, pclose,
  received,
}
use study_linux_kernel.Sys.Monad.{M, pure, ◌>>=◌, ◌>>◌, exit, sys, number, input, run, say, lift}
use study_linux_kernel.Sys.Loops.{Next, again, finish, loop}
use study_linux_kernel.Inotify.Buffer.{InotifyEvent, name_of, walk}
use study_linux_kernel.Inotify.Watch.{say_if, eagain, eintr}

-- "rm -f"
abbrev pub default_command : Text
default_command = b'r' ∷ b'm' ∷ b' ' ∷ b'-' ∷ b'f' ∷ []

-- `cmd != NULL ? cmd : "rm -f"`
abbrev pub command_or_default : Option Text → Text
command_or_default none = default_command
command_or_default (some cmd) = cmd

-- `sprintf(command, "%s ./%s", cmd, filename)` into 128 bytes, its NUL included.
unfoldable pub command_line : Option Text → Text → Run Text
command_line cmd filename =
    let line = command_or_default cmd ++ (b' ' ∷ b'.' ∷ b'/' ∷ filename) in
    if ltb (length line) 128 then ok line else fault buffer_overflow

-- The loop over the command's output; a NULL from `fgets` is a failed call.
unfoldable pub print_output : ℕ → Unit {0} → M (Next (Unit {0}) (Unit {0}))
print_output fp _ = do
  buffer ← input 511 (fgets fp 512)
  elim buffer [ none ↦ pure (finish tt) | some text ↦ do say "%s" (str text ∷ []); pure (again tt) ]

-- The command runs, and its output is printed until there is no more.
unfoldable pub show_output : ℕ → ℕ → M (Unit {0})
show_output fuel fp = do loop fuel (print_output fp) tt; run (pclose fp)

abbrev pub show_if_opened : ℕ → Option ℕ → M (Unit {0})
show_if_opened fuel none = pure tt
show_if_opened fuel (some fp) = show_output fuel fp

unfoldable pub run_command : ℕ → Text → M (Unit {0})
run_command fuel command = do
  say "[matched] run `%s`\n" (str command ∷ [])
  fp ← number (popen command)
  show_if_opened fuel fp

unfoldable pub matched_condition_call : ℕ → Text → Option Text → M (Unit {0})
matched_condition_call fuel filename cmd = do
  command ← lift (command_line cmd filename)
  run_command fuel command

unfoldable pub call_if_named : ℕ → Text → Option Text → Text → M (Unit {0})
call_if_named fuel filename cmd name =
    if occurs_in filename name then matched_condition_call fuel name cmd else pure tt

-- No directory, and the name holds the text.
unfoldable pub call_if_matched : ℕ → Text → Option Text → InotifyEvent → M (Unit {0})
call_if_matched fuel filename cmd event =
    if has_bit event.mask 0x40000000
    then pure tt
    else lift (name_of event) >>= call_if_named fuel filename cmd

-- The body for one event.
unfoldable pub match_event : ℕ → Text → Option Text → InotifyEvent → M (Unit {0})
match_event fuel filename cmd event = do
  say_if (has_bit event.mask 0x200) (say "IN_DELETE: " [])
  say_if (has_bit event.mask 0x100) (say "IN_CREATE: " [])
  call_if_matched fuel filename cmd event

-- The events that one `read` has stored.
unfoldable pub match_buffer : ℕ → Text → Option Text → Text → M (Next (Unit {0}) (Unit {0}))
match_buffer fuel filename cmd bytes = do
  walk (length bytes + 1) (match_event fuel filename cmd) bytes
  pure (again tt)

-- A round of `handle_events`: the answer of `read`, with `errno` where it is -1.
unfoldable pub drain : ℕ → Text → Option Text → ℕ → Unit {0} → M (Next (Unit {0}) (Unit {0}))
drain fuel filename cmd fd _ = do
  r ← sys (read fd 4096)
  elim (received 4096 r) [
    | none ↦ if r.errno == eagain then pure (finish tt) else (do say "read" (error ∷ []); exit 1)
    | some [] ↦ pure (finish tt)
    | some (b ∷ bytes) ↦ match_buffer fuel filename cmd (b ∷ bytes)
  ]

unfoldable pub handle_events : ℕ → Text → Option Text → ℕ → M (Unit {0})
handle_events fuel filename cmd fd = loop fuel (drain fuel filename cmd fd) tt

unfoldable pub listen_round : ℕ → Text → Option Text → ℕ → Unit {0} → M (Next (Unit {0}) (Unit {0}))
listen_round fuel filename cmd fd _ = do
  r ← sys (poll (fd ∷ []))
  elim r.result [
    | none ↦ if r.errno == eintr then pure (again tt) else (do say "poll" (error ∷ []); exit 1)
    | some zero ↦ pure (again tt)
    | some (suc n) ↦
        if mem fd r.readable
        then (do handle_events fuel filename cmd fd; pure (again tt))
        else pure (again tt)
  ]

-- The watch, and the loop behind it, which no `break` leaves.
unfoldable pub listen_all : ℕ → Text → Text → Option Text → ℕ → M (Unit {0})
listen_all fuel path filename cmd fd = do
  wd ← number (inotify_add_watch fd path "IN_DELETE | IN_CREATE | IN_MODIFY")
  elim wd [
    | none ↦ do say "Cannot watch '%s': %s\n" (error ∷ []); exit 1
    | some w ↦ do
      say "watch %s\nListening for events.\n" (str path ∷ [])
      loop fuel (listen_round fuel filename cmd fd) tt
      say "Listening for events stopped.\n" []
      run (close fd)
      exit 0
  ]

-- `argv[3]`, which is NULL behind the last argument.
abbrev pub third_argument : List Text → Option Text
third_argument [] = none
third_argument (cmd ∷ _) = some cmd

-- `argv` holds the arguments behind the program's name.
unfoldable pub main : ℕ → List Text → M (Unit {0})
main fuel (path ∷ filename ∷ rest) = do
  say "Press ENTER key to terminate.\n" []
  fd ← number inotify_init
  elim fd [
    | none ↦ do say "inotify_init1" (error ∷ []); exit 1
    | some fd ↦ listen_all fuel path filename (third_argument rest) fd
  ]
main fuel argv = do say "Usage: %s PATH FILENAME COMMAND\n" []; exit 1

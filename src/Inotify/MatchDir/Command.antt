-- ===== src/Inotify/MatchDir/Command.antt =====
-- The commands that study-linux-kernel/monitoring-files/monitoring_dir.c runs.
use study_linux_kernel.Base.{
  ℕ, ◌+◌, ◌<◌, ◌≤◌, ◌≡◌, refl, inl, inr, [], ◌∷◌, ◌++◌, Option, none, some, true, false, Bool-cases,
  ltb, if◌then◌else◌, length, length-append, has_bit, has_nul, occurs_in, c_string, arith,
}
use study_linux_kernel.Base.Run.{
  Fault, ok, fault, indeterminate, null_pointer, buffer_overflow, out_of_bounds,
}
use study_linux_kernel.Sys.Calls.{Text, Trace, Call, popen, str}
use study_linux_kernel.Sys.Monad.{World, pure, number, say, ◌>>=◌}
use study_linux_kernel.Sys.Loops.{Stops, Ends, Round, loop, loop-Ends, bind-Ends, then-Ends, again}
use study_linux_kernel.Sys.Traces.{Always, typed}
use study_linux_kernel.Inotify.Buffer.{InotifyEvent, name_of, walk}
use study_linux_kernel.Inotify.Progress.{IsTorn, IsEventIn, walk-Ends}
use study_linux_kernel.Inotify.Watch.{say_if}
use study_linux_kernel.Inotify.MatchDir.{
  command_or_default, command_line, print_output, show_output, show_if_opened, run_command,
  call_if_named, call_if_matched, matched_condition_call, match_event, match_buffer, drain,
  handle_events,
}

-- The text that the shell is given for a file.
abbrev pub line_for : Option Text → Text → Text
line_for cmd name = command_or_default cmd ++ (b' ' ∷ b'.' ∷ b'/' ∷ name)

-- With a command of `k` bytes the line fits its 128 bytes exactly for names of up to 124 - k bytes;
-- a longer name is written past the end.
pub command_line-overflow :
    (cmd : Option Text) (name : Text)
    → command_line cmd name ≡ (
        if ltb (length (command_or_default cmd) + length name) 125
        then ok (line_for cmd name)
        else fault buffer_overflow)
unfolding command_line
command_line-overflow cmd name =
    let name_part : Text = b' ' ∷ b'.' ∷ b'/' ∷ name in
    ground (arith, length-append (command_or_default cmd) name_part)

-- The given command, on a file of the directory whose name holds `filename`.
unfoldable pub IsCommand : Text → Option Text → Text → Type 0
IsCommand filename cmd command =
    (name : Text) × (command ≡ line_for cmd name) × (occurs_in filename name ≡ true)

for_file :
    (filename : Text) (cmd : Option Text) (name : Text)
    → occurs_in filename name ≡ true
    → IsCommand filename cmd (line_for cmd name)
unfolding IsCommand
for_file filename cmd name o = (name, refl, o)

module _ (filename : Text) (cmd : Option Text) where
  abbrev pub Runs : Call → Trace → Type 0
  Runs (popen command) past = IsCommand filename cmd command
  Runs c past = Unit {0}

  -- The bytes end inside an event, or an event in them that is no directory has a name without a NUL,
  -- or holds `filename` in a name whose command does not fit the array.
  abbrev pub Cause : Fault → Text → Type 0
  Cause indeterminate bytes = IsTorn bytes
  Cause out_of_bounds bytes =
      (e : InotifyEvent) × IsEventIn bytes e
      × (has_bit e.mask 0x40000000 ≡ false)
      × (has_nul e.name ≡ false)
  Cause buffer_overflow bytes =
      (e : InotifyEvent) × IsEventIn bytes e
      × (has_bit e.mask 0x40000000 ≡ false)
      × (occurs_in filename (c_string e.name) ≡ true)
      × (125 ≤ length (command_or_default cmd) + length (c_string e.name))
  Cause null_pointer bytes = ⊥

  -- The newest `read` stored bytes with such a cause.
  pub record Caused (f : Fault) (w : World) : Type 0 where
    pub bytes : Text
    pub last : typed w.trace ≡ some bytes
    pub cause : Cause f bytes
    pub runs : Always Runs w.trace

  -- All commands so far were such, at most `n` replies are left, and the bytes are those of the newest
  -- `read`.
  record Matches (n : ℕ) (bytes : Text) (w : World) : Type 0 where
    fewer : length w.replies ≤ n
    last : typed w.trace ≡ some bytes
    runs : Always Runs w.trace

  abbrev pub stops : Stops
  stops = record {
    status = λ n w. (n ≡ 1) × Always Runs w.trace;
    waits = λ w. Always Runs w.trace;
    faults = Caused;
  }

  print_output-Matches :
      (n fp : ℕ) (bytes : Text) (w : World)
      → Matches n bytes w
      → Ends (Round (λ _. Matches n bytes) (λ _. Matches n bytes) w) stops (print_output fp tt w)
  unfolding print_output
  print_output-Matches n fp bytes w h = ground arith

  show_output-Matches :
      (fuel n fp : ℕ) (bytes : Text) (w : World)
      → n < fuel
      → Matches n bytes w
      → Ends (λ _. Matches n bytes) stops (show_output fuel fp w)
  unfolding show_output
  show_output-Matches fuel n fp bytes w f h =
      then-Ends (Matches n bytes) stops (loop fuel (print_output fp) tt) _ w
        (loop-Ends (λ _. Matches n bytes) (λ _. Matches n bytes) stops (print_output fp)
          (λ _. print_output-Matches n fp bytes) fuel tt w (omega arith) h)
        (λ w' h'. ground arith)

  show_if_opened-Matches :
      (fuel n : ℕ) (bytes : Text) (fp : Option ℕ) (w : World)
      → n < fuel
      → Matches n bytes w
      → Ends (λ _. Matches n bytes) stops (show_if_opened fuel fp w)
  show_if_opened-Matches fuel n bytes none w f h = h
  show_if_opened-Matches fuel n bytes (some fp) w f h = show_output-Matches fuel n fp bytes w f h

  popen-Matches :
      (n : ℕ) (bytes command : Text) (w : World)
      → IsCommand filename cmd command
      → Matches n bytes w
      → Ends (λ _. Matches n bytes) stops (number (popen command) w)
  popen-Matches n bytes command w r h = ground arith

  run_command-Matches :
      (fuel n : ℕ) (bytes command : Text) (w : World)
      → n < fuel
      → IsCommand filename cmd command
      → Matches n bytes w
      → Ends (λ _. Matches n bytes) stops (run_command fuel command w)
  unfolding run_command
  run_command-Matches fuel n bytes command w f r h =
      then-Ends (Matches n bytes) stops (say "[matched] run `%s`\n" (str command ∷ []))
        (number (popen command) >>= show_if_opened fuel) w (ground arith)
        (λ v m.
          bind-Ends (λ _. Matches n bytes) (λ _. Matches n bytes) stops (number (popen command))
            (show_if_opened fuel) v (popen-Matches n bytes command v r m)
            (λ fp v' m'. show_if_opened-Matches fuel n bytes fp v' f m'))

  matched_condition_call-Matches :
      (fuel n : ℕ) (bytes : Text) (e : InotifyEvent) (w : World)
      → n < fuel
      → IsEventIn bytes e
      → has_bit e.mask 0x40000000 ≡ false
      → occurs_in filename (c_string e.name) ≡ true
      → Matches n bytes w
      → Ends (λ _. Matches n bytes) stops (matched_condition_call fuel (c_string e.name) cmd w)
  unfolding matched_condition_call
  matched_condition_call-Matches fuel n bytes e w f i d o h =
      let name = c_string e.name in
      elim (Bool-cases (ltb (length (command_or_default cmd) + length name) 125)) [
        | inl fits ↦
            rw (command_line-overflow, fits)
              (run_command-Matches fuel n bytes (line_for cmd name) w f
                (for_file filename cmd name o) h)
        | inr long ↦
            rw (command_line-overflow, long)
              (record {
                bytes = bytes;
                last = h.last;
                cause = (e, i, d, o, ground arith);
                runs = h.runs;
              })
      ]

  call_if_named-Matches :
      (fuel n : ℕ) (bytes : Text) (e : InotifyEvent) (w : World)
      → n < fuel
      → IsEventIn bytes e
      → has_bit e.mask 0x40000000 ≡ false
      → Matches n bytes w
      → Ends (λ _. Matches n bytes) stops (call_if_named fuel filename cmd (c_string e.name) w)
  unfolding call_if_named
  call_if_named-Matches fuel n bytes e w f i d h =
      elim (Bool-cases (occurs_in filename (c_string e.name))) [
        | inl b ↦ rw b (matched_condition_call-Matches fuel n bytes e w f i d b h)
        | inr b ↦ rw b h
      ]

  call_if_matched-Matches :
      (fuel n : ℕ) (bytes : Text) (e : InotifyEvent) (w : World)
      → n < fuel
      → IsEventIn bytes e
      → Matches n bytes w
      → Ends (λ _. Matches n bytes) stops (call_if_matched fuel filename cmd e w)
  unfolding call_if_matched name_of
  call_if_matched-Matches fuel n bytes e w f i h = elim (Bool-cases (has_bit e.mask 0x40000000)) [
    | inl dir ↦ rw dir h
    | inr file ↦ elim (Bool-cases (has_nul e.name)) [
      | inl b ↦ rw (file, b) (call_if_named-Matches fuel n bytes e w f i file h)
      | inr b ↦
          rw (file, b)
            (record { bytes = bytes; last = h.last; cause = (e, i, file, b); runs = h.runs })
    ]
  ]

  match_event-Matches :
      (fuel n : ℕ) (bytes : Text) (e : InotifyEvent) (w : World)
      → n < fuel
      → IsEventIn bytes e
      → Matches n bytes w
      → Ends (λ _. Matches n bytes) stops (match_event fuel filename cmd e w)
  unfolding match_event
  match_event-Matches fuel n bytes e w f i h =
      then-Ends (Matches n bytes) stops (say_if (has_bit e.mask 0x200) (say "IN_DELETE: " [])) _ w
        (ground arith)
        (λ v m.
          then-Ends (Matches n bytes) stops (say_if (has_bit e.mask 0x100) (say "IN_CREATE: " []))
            (call_if_matched fuel filename cmd e) v (ground arith)
            (λ v' m'. call_if_matched-Matches fuel n bytes e v' f i m'))

  match_buffer-Matches :
      (fuel : ℕ) (bytes : Text) (w₀ w : World)
      → length w.replies < length w₀.replies
      → length w.replies < fuel
      → typed w.trace ≡ some bytes
      → Always Runs w.trace
      → Ends
          (Round
            (λ _ v. Always Runs v.trace × (length v.replies < fuel))
            (λ _ v. Always Runs v.trace)
            w₀)
          stops
          (match_buffer fuel filename cmd bytes w)
  unfolding match_buffer
  match_buffer-Matches fuel bytes w₀ w less f last h =
      let n = length w.replies in
      bind-Ends (λ _. Matches n bytes) _ stops
        (walk (length bytes + 1) (match_event fuel filename cmd) bytes) (λ _. pure (again tt)) w
        (walk-Ends (Matches n bytes) stops (match_event fuel filename cmd) bytes
          (λ e v i. match_event-Matches fuel n bytes e v f i)
          (λ v torn m. record { bytes = bytes; last = m.last; cause = torn; runs = m.runs }) w
          (record { fewer = omega arith; last = last; runs = h }))
        (λ _ v m. ground arith)

  drain-Matches :
      (fuel fd : ℕ) (w : World)
      → Always Runs w.trace × (length w.replies < fuel)
      → Ends
          (Round
            (λ _ v. Always Runs v.trace × (length v.replies < fuel))
            (λ _ v. Always Runs v.trace)
            w)
          stops
          (drain fuel filename cmd fd tt w)
  unfolding drain
  drain-Matches fuel fd w h = grind (arith, match_buffer-Matches)

  -- With fuel above the number of replies, and whatever bytes and replies come, `handle_events` comes
  -- back, ends with status 1, waits in a call or faults, and every command that it has run until then
  -- is the given one on a name that holds `filename`. It faults only where the newest `read` stored
  -- bytes that end inside an event, or that have an event of no directory whose name has no NUL, or
  -- whose name holds `filename` and is, with the command, 125 bytes or longer.
  pub handle_events-Runs :
      (fuel fd : ℕ) (w : World)
      → length w.replies < fuel
      → Always Runs w.trace
      → Ends (λ _ v. Always Runs v.trace) stops (handle_events fuel filename cmd fd w)
  unfolding handle_events
  handle_events-Runs fuel fd w f h =
      loop-Ends (λ _ v. Always Runs v.trace × (length v.replies < fuel))
        (λ _ v. Always Runs v.trace) stops (drain fuel filename cmd fd) (λ _. drain-Matches fuel fd)
        fuel tt w f (h, f)

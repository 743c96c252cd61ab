-- ===== src/Fifo/Leaving.antt =====
-- How the client of study-linux-kernel/ipc-pipe/fifo-client.cpp leaves.
use study_linux_kernel.Base.{
  ℕ, ◌≡◌, refl, List, [], ◌∷◌, Option, none, some, Bool, true, false, ◌==◌, ◌⊎◌, inl, inr, length,
}
use study_linux_kernel.Sys.Calls.{
  Text, Trace, made, printed, getpid, mkfifo, unlink, open_file, read, write, close, other,
  received,
}
use study_linux_kernel.Sys.Monad.{World, number, lift, string_in, answered, ◌>>=◌, ◌>>◌}
use study_linux_kernel.Sys.Loops.{Never, Stops, Ends, bind-Ends, lift-Ends, if-Ends}
use study_linux_kernel.Sys.Steps.{number-Ends, input-Ends, run-Ends}
use study_linux_kernel.Pipe.Primer.{differs, is_help}
use study_linux_kernel.SocketPair.{pid_of}
use study_linux_kernel.Fifo.{server_pipe_path, request, path_of}
use study_linux_kernel.Fifo.Client.{
  leave, report, print_msg, on_response, after_open, after_close, after_write, send_request,
  after_server, after_atexit, register, after_mkfifo, after_getpid, main, usage,
}

-- Whether a file has been tried to open.
abbrev pub came_to_open : Trace → Bool
came_to_open [] = false
came_to_open (printed format args ∷ past) = came_to_open past
came_to_open (made (open_file path flags) r ∷ past) = true
came_to_open (made c r ∷ past) = came_to_open past

-- The name of the FIFO that was made.
abbrev pub fifo_of : Trace → Option Text
fifo_of [] = none
fifo_of (printed format args ∷ past) = fifo_of past
fifo_of (made (mkfifo path) r ∷ past) = some path
fifo_of (made c r ∷ past) = fifo_of past

-- The last thing done is to remove what stands at `path`.
abbrev pub Removes : Text → Trace → Type 0
Removes path [] = ⊥
Removes path (printed format args ∷ past) = ⊥
Removes path (made (unlink p) r ∷ past) = p ≡ path
Removes path (made c r ∷ past) = ⊥

-- No file was tried to open, or the FIFO that was made is removed last.
abbrev pub Cleared : Trace → Type 0
Cleared t = (came_to_open t ≡ false) ⊎ ((path : Text) × (fifo_of t ≡ some path) × Removes path t)

abbrev pub exits : Stops
exits = record { status = λ n w. Cleared w.trace; waits = λ w. Unit {0}; faults = λ _ w. Unit {0} }

module _ (path : Text) where
  abbrev Named : World → Type 0
  Named w = fifo_of w.trace ≡ some path

  leave-Cleared : (status : ℕ) (w : World) → Named w → Ends Never exits (leave path status w)
  unfolding leave
  leave-Cleared status w h =
      run-Ends Never exits (unlink path) _ w tt (λ r rest e. inr (path, h, refl))

  report-Named :
      (p : Text) (closed : Option ℕ) (w : World)
      → Named w
      → Ends (λ _. Named) exits (report p closed w)
  unfolding report
  report-Named p none w h = h
  report-Named p (some n) w h = h

  print_msg-Named :
      (bytes : Option Text) (w : World) → Named w → Ends (λ _. Named) exits (print_msg path bytes w)
  unfolding print_msg
  print_msg-Named none w h = h
  print_msg-Named (some bytes) w h =
      if-Ends (λ _. Named) exits (length bytes == 16) _ _ w
        (bind-Ends (λ _. Named) (λ _. Named) exits (lift (string_in 16 bytes)) _ w
          (lift-Ends Named exits (string_in 16 bytes) w h (λ _. tt)) (λ msg v k. k))
        h

  on_response-Cleared :
      (fd : ℕ) (bytes : Option Text) (w : World)
      → Named w
      → Ends Never exits (on_response path fd bytes w)
  unfolding on_response
  on_response-Cleared fd bytes w h =
      bind-Ends (λ _. Named) Never exits (print_msg path bytes) _ w (print_msg-Named bytes w h)
        (λ _ v k.
          number-Ends Never exits (close fd) (λ closed. report path closed >> leave path 0) v tt
            (λ r rest e.
              bind-Ends (λ _. Named) Never exits (report path r.result) _
                (answered (close fd) r rest v) (report-Named path r.result _ k)
                (λ _. leave-Cleared 0)))

  after_open-Cleared : (o : Option ℕ) (w : World) → Named w → Ends Never exits (after_open path o w)
  unfolding after_open
  after_open-Cleared none w h = leave-Cleared 1 _ h
  after_open-Cleared (some fd) w h =
      input-Ends Never exits (read fd 16) 16 (on_response path fd) w tt
        (λ r rest e. on_response-Cleared fd (received 16 r) _ h)

  after_close-Cleared :
      (closed : Option ℕ) (w : World) → Named w → Ends Never exits (after_close path closed w)
  unfolding after_close
  after_close-Cleared closed w h =
      bind-Ends (λ _. Named) Never exits (report server_pipe_path closed) _ w
        (report-Named server_pipe_path closed w h)
        (λ _ v k.
          number-Ends Never exits (open_file path "O_RDONLY") (after_open path) v tt
            (λ r rest e. after_open-Cleared r.result _ k))

  after_write-Cleared :
      (fd : ℕ) (put : Option ℕ) (w : World) → Named w → Ends Never exits (after_write path fd put w)
  unfolding after_write
  after_write-Cleared fd put w h =
      if-Ends Never exits (differs put 20) _ _ w (leave-Cleared 1 _ h) (
        number-Ends Never exits (close fd) (after_close path) w tt
          (λ r rest e. after_close-Cleared r.result _ h))

  after_server-Cleared :
      (msg : Text) (o : Option ℕ) (w : World)
      → Named w
      → Ends Never exits (after_server path msg o w)
  unfolding after_server send_request
  after_server-Cleared msg none w h = leave-Cleared 1 _ h
  after_server-Cleared msg (some fd) w h =
      number-Ends Never exits getpid (send_request path msg fd) w tt (λ r rest e.
        number-Ends Never exits (write fd (request (pid_of r.result) msg)) (after_write path fd) _
          tt (λ q more d. after_write-Cleared fd q.result _ h))

  after_atexit-Cleared :
      (msg : Text) (o : Option ℕ) (w : World)
      → came_to_open w.trace ≡ false
      → Named w
      → Ends Never exits (after_atexit path msg o w)
  unfolding after_atexit
  after_atexit-Cleared msg none w none_yet h = inl none_yet
  after_atexit-Cleared msg (some n) w none_yet h =
      number-Ends Never exits (open_file server_pipe_path "O_WRONLY") (after_server path msg) w tt
        (λ r rest e. after_server-Cleared msg r.result _ h)

  register-Cleared :
      (msg : Text) (w : World)
      → came_to_open w.trace ≡ false
      → Named w
      → Ends Never exits (register path msg w)
  unfolding register
  register-Cleared msg w none_yet h =
      number-Ends Never exits (other "atexit removeFifo") (after_atexit path msg) w tt
        (λ r rest e. after_atexit-Cleared msg r.result _ none_yet h)

  after_mkfifo-Cleared :
      (msg : Text) (o : Option ℕ) (w : World)
      → came_to_open w.trace ≡ false
      → Named w
      → Ends Never exits (after_mkfifo path msg o w)
  unfolding after_mkfifo
  after_mkfifo-Cleared msg none w none_yet h =
      if-Ends Never exits (w.errno == 17) _ _ w (register-Cleared msg w none_yet h) (inl none_yet)
  after_mkfifo-Cleared msg (some n) w none_yet h = register-Cleared msg w none_yet h

after_getpid-Cleared :
    (decimal : ℕ → Text) (msg : Text) (pid : Option ℕ) (w : World)
    → came_to_open w.trace ≡ false
    → Ends Never exits (after_getpid decimal msg pid w)
unfolding after_getpid
after_getpid-Cleared decimal msg pid w h =
    bind-Ends (λ _ v. came_to_open v.trace ≡ false) Never exits
      (lift (path_of decimal (pid_of pid))) _ w
      (lift-Ends (λ v. came_to_open v.trace ≡ false) exits (path_of decimal (pid_of pid)) w h
        (λ _. tt))
      (λ path v k.
        number-Ends Never exits (mkfifo path) (after_mkfifo path msg) v tt
          (λ r rest e. after_mkfifo-Cleared path msg r.result _ k refl))

-- With no history, the client never returns but by an exit, and wherever it exits it has tried to open
-- no file yet, or the last thing it did is to remove the FIFO by the name that it made it with.
pub main-Cleared :
    (decimal : ℕ → Text) (argv : List Text) (w : World)
    → w.trace ≡ []
    → Ends Never exits (main decimal argv w)
unfolding main usage
main-Cleared decimal [] w h = inl (rw h refl)
main-Cleared decimal (msg ∷ []) w h = if-Ends Never exits (is_help msg) _ _ w (inl (rw h refl)) (
    run-Ends Never exits (other "umask 0") (number getpid >>= after_getpid decimal msg) w tt
      (λ r rest e.
        number-Ends Never exits getpid (after_getpid decimal msg)
          (answered (other "umask 0") r rest w) tt
          (λ q more d. after_getpid-Cleared decimal msg q.result _ (rw h refl))))
main-Cleared decimal (msg ∷ next ∷ more) w h = inl (rw h refl)

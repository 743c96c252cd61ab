-- ===== src/Terminal/Epoll/Passing.antt =====
-- What the parent of study-linux-kernel/io-model/terminal-io-epoll.c passes on.
use study_linux_kernel.Base.{
  ℕ, ◌<◌, ◌≤◌, ◌≡◌, refl, ap, List, [], ◌∷◌, append-nil, Option, none, some, length, take, arith,
}
use study_linux_kernel.Sys.Calls.{
  Text, Trace, Reply, printed, received, read, write, close, epoll_create, epoll_add, epoll_wait,
}
use study_linux_kernel.Sys.Monad.{World, done, input, exit, run, answered, ◌>>=◌, ◌>>◌}
use study_linux_kernel.Sys.Loops.{Ends, Round, loop, loop-Ends, bind-Ends}
use study_linux_kernel.Sys.Steps.{sys-Ends, number-Ends, input-Ends, run-Ends}
use study_linux_kernel.Sys.Exchange.{
  got_on, any_fd, handed, filled, filled_append, Begins, Begins-eq, Begins-append, Begins-refl,
  append_some, everywhere,
}
use study_linux_kernel.Terminal.Epoll.{
  on_bytes, read_each, on_ready, wait_round, leave_parent, after_add, after_create, after_close,
  parent,
}

-- What the parent reads it hands to `write` at once, but empty input.
abbrev pub Passes : Trace → Type 0
Passes t = Begins (handed t) (filled (got_on any_fd t))

abbrev Level : Unit {0} → World → Type 0
Level _ w = handed w.trace ≡ filled (got_on any_fd w.trace)

abbrev Passed : Unit {0} → World → Type 0
Passed _ w = Passes w.trace

-- With at most `n` replies left.
abbrev Few : ℕ → World → Type 0
Few n w = Level tt w × (length w.replies ≤ n)

on_bytes-Few :
    (n : ℕ) (got : Option Text) (before : List Text) (w : World)
    → length w.replies ≤ n
    → handed w.trace ≡ filled before
    → got_on any_fd w.trace ≡ append_some before got
    → Ends (λ _. Few n) (everywhere Passes) (on_bytes got w)
unfolding on_bytes
on_bytes-Few n none before w f h g = (rw (h, g) refl, f)
on_bytes-Few n (some []) before w f h g = (rw (h, g, filled_append, append-nil) refl, f)
on_bytes-Few n (some (b ∷ bs)) before w f h g =
    sys-Ends (λ _. Few n) (everywhere Passes) (write 2 (b ∷ bs)) (λ r v. done tt v)
      (record w { trace = printed ">>>主进程收到管道数据: " [] ∷ w.trace })
      (rw (h, g, filled_append) (Begins-append _ _ _ (Begins-refl (filled before))))
      (λ r rest e.
        (rw (h, g, filled_append) refl, omega (arith, f, ap (λ (l : List Reply). length l) e)))

read_each-Few :
    (n : ℕ) (fds : List ℕ) (w : World)
    → Few n w
    → Ends (λ _. Few n) (everywhere Passes) (read_each fds w)
unfolding read_each
read_each-Few n [] w h = h
read_each-Few n (fd ∷ fds) w h =
    bind-Ends (λ _. Few n) (λ _. Few n) (everywhere Passes) (input 1024 (read fd 1024) >>= on_bytes)
      _ w
      (input-Ends (λ _. Few n) (everywhere Passes) (read fd 1024) 1024 on_bytes w
        (Begins-eq _ _ h.0)
        (λ r rest e.
          on_bytes-Few n (received 1024 r) (got_on any_fd w.trace) _
            (omega (arith, h.1, ap (λ (l : List Reply). length l) e)) h.0 refl))
      (λ _. read_each-Few n fds)

on_ready-Level :
    (o : Option ℕ) (fds : List ℕ) (w₀ w : World)
    → length w.replies < length w₀.replies
    → Level tt w
    → Ends (Round Level Passed w₀) (everywhere Passes) (on_ready o fds w)
unfolding on_ready
on_ready-Level none fds w₀ w less h = Begins-eq _ _ h
on_ready-Level (some n) fds w₀ w less h =
    bind-Ends (λ _. Few (length w.replies)) (Round Level Passed w₀) (everywhere Passes)
      (read_each (take 8 fds)) _ w
      (read_each-Few (length w.replies) (take 8 fds) w (h, omega arith))
      (λ _ v k. (k.0, omega (arith, less, k.1)))

wait_round-Level :
    (ep : ℕ) (w : World)
    → Level tt w
    → Ends (Round Level Passed w) (everywhere Passes) (wait_round ep tt w)
unfolding wait_round
wait_round-Level ep w h =
    sys-Ends (Round Level Passed w) (everywhere Passes) (epoll_wait ep none) _
      (record w { trace = printed ">>>主进程epoll等待管道读取端数据...\n" [] ∷ w.trace }) (Begins-eq _ _ h)
      (λ r rest e.
        on_ready-Level r.result r.readable w _ (omega (arith, ap (λ (l : List Reply). length l) e))
          h)

leave_parent-Passes :
    (ep src : ℕ) (w : World)
    → Passes w.trace
    → Ends Passed (everywhere Passes) (leave_parent ep src w)
unfolding leave_parent
leave_parent-Passes ep src w h =
    let v : World = record w { trace = printed ">>>主进程关闭epoll实例并关闭管道读取端\n" [] ∷ w.trace } in
    run-Ends Passed (everywhere Passes) (close ep) (run (close src) >> exit 0) v h (λ r rest e.
      run-Ends Passed (everywhere Passes) (close src) (exit 0) (answered (close ep) r rest v) h
        (λ q more d. h))

after_add-Passes :
    (fuel src ep : ℕ) (o : Option ℕ) (w : World)
    → length w.replies < fuel
    → Level tt w
    → Ends Passed (everywhere Passes) (after_add fuel src ep o w)
unfolding after_add
after_add-Passes fuel src ep none w f h = Begins-eq _ _ h
after_add-Passes fuel src ep (some n) w f h =
    let v : World = record w { trace = printed ">>>主进程将管道读取端加入epoll兴趣列表\n" [] ∷ w.trace } in
    bind-Ends Passed Passed (everywhere Passes) (loop fuel (wait_round ep) tt) _ v
      (loop-Ends Level Passed (everywhere Passes) (wait_round ep) (λ _. wait_round-Level ep) fuel tt
        v f h)
      (λ _. leave_parent-Passes ep src)

after_create-Passes :
    (fuel src : ℕ) (o : Option ℕ) (w : World)
    → length w.replies < fuel
    → Level tt w
    → Ends Passed (everywhere Passes) (after_create fuel src o w)
unfolding after_create
after_create-Passes fuel src none w f h = Begins-eq _ _ h
after_create-Passes fuel src (some ep) w f h =
    number-Ends Passed (everywhere Passes) (epoll_add ep src) (after_add fuel src ep)
      (record w { trace = printed ">>>主进程创建epoll实例\n" [] ∷ w.trace }) (Begins-eq _ _ h)
      (λ r rest e.
        after_add-Passes fuel src ep r.result _
          (omega (arith, f, ap (λ (l : List Reply). length l) e)) h)

after_close-Passes :
    (fuel src : ℕ) (o : Option ℕ) (w : World)
    → length w.replies < fuel
    → Level tt w
    → Ends Passed (everywhere Passes) (after_close fuel src o w)
unfolding after_close
after_close-Passes fuel src none w f h = Begins-eq _ _ h
after_close-Passes fuel src (some n) w f h =
    number-Ends Passed (everywhere Passes) epoll_create (after_create fuel src)
      (record w { trace = printed ">>>主进程关闭管道写入端\n" [] ∷ w.trace }) (Begins-eq _ _ h)
      (λ r rest e.
        after_create-Passes fuel src r.result _
          (omega (arith, f, ap (λ (l : List Reply). length l) e)) h)

-- With fuel above the number of replies, and wherever it stops, the parent has handed on what it read,
-- but empty input and perhaps the last.
pub parent-Passes :
    (fuel src dst : ℕ) (w : World)
    → length w.replies < fuel
    → w.trace ≡ []
    → Ends Passed (everywhere Passes) (parent fuel src dst w)
unfolding parent
parent-Passes fuel src dst w f e =
    number-Ends Passed (everywhere Passes) (close dst) (after_close fuel src) w (rw e tt)
      (λ r rest d.
        after_close-Passes fuel src r.result _
          (omega (arith, f, ap (λ (l : List Reply). length l) d)) (rw e refl))

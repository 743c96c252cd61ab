-- ===== src/Terminal/Epoll/Typing.antt =====
-- What the child of study-linux-kernel/io-model/terminal-io-epoll.c passes on.
use study_linux_kernel.Base.{
  ℕ, ◌<◌, ◌≡◌, refl, ap, sym, ◌∙◌, List, [], ◌∷◌, ◌++◌, Option, none, some, length, arith,
}
use study_linux_kernel.Sys.Calls.{Text, Reply, printed, received, read, write, close}
use study_linux_kernel.Sys.Monad.{World, exit}
use study_linux_kernel.Sys.Loops.{Ends, Round, loop, loop-Ends, bind-Ends}
use study_linux_kernel.Sys.Steps.{number-Ends, input-Ends, run-Ends}
use study_linux_kernel.Sys.Exchange.{
  sent_on, got_on, any_fd, Begins-eq, Begins-one_more, append_some, left_by, everywhere,
}
use study_linux_kernel.Datagram.EchoServer.Repeating.{Repeats}
use study_linux_kernel.Terminal.Epoll.{
  after_write, on_typed, type_round, leave_child, type_all, child,
}

abbrev Even : Unit {0} → World → Type 0
Even _ w = sent_on any_fd w.trace ≡ got_on any_fd w.trace

abbrev Kept : Unit {0} → World → Type 0
Kept _ w = Repeats w.trace

after_write-Even :
    (o : Option ℕ) (m : Text) (before : List Text) (w₀ w : World)
    → length w.replies < length w₀.replies
    → sent_on any_fd w.trace ≡ append_some before (left_by m o)
    → got_on any_fd w.trace ≡ before ++ (m ∷ [])
    → Ends (Round Even Kept w₀) (everywhere Repeats) (after_write o w)
unfolding after_write
after_write-Even none m before w₀ w less s g = rw g (Begins-one_more _ before m s)
after_write-Even (some n) m before w₀ w less s g = (s ∙ sym g, less)

on_typed-Even :
    (dst : ℕ) (got : Option Text) (w₀ w : World)
    → length w.replies < length w₀.replies
    → got_on any_fd w.trace ≡ append_some (sent_on any_fd w.trace) got
    → Ends (Round Even Kept w₀) (everywhere Repeats) (on_typed dst got w)
unfolding on_typed
on_typed-Even dst none w₀ w less h = Begins-eq _ _ (sym h)
on_typed-Even dst (some m) w₀ w less h =
    number-Ends (Round Even Kept w₀) (everywhere Repeats) (write dst m) after_write w
      (rw h (Begins-one_more _ _ m refl))
      (λ r rest e.
        after_write-Even r.result m (sent_on any_fd w.trace) w₀ _
          (omega (arith, less, ap (λ (l : List Reply). length l) e)) refl h)

type_round-Even :
    (dst : ℕ) (w : World)
    → Even tt w
    → Ends (Round Even Kept w) (everywhere Repeats) (type_round dst tt w)
unfolding type_round
type_round-Even dst w h =
    input-Ends (Round Even Kept w) (everywhere Repeats) (read 0 1024) 1024 (on_typed dst)
      (record w { trace = printed ">>>子进程开始从终端读入字符\n" [] ∷ w.trace }) (Begins-eq _ _ h)
      (λ r rest e.
        on_typed-Even dst (received 1024 r) w _ (omega (arith, ap (λ (l : List Reply). length l) e))
          (ap (λ (ms : List Text). append_some ms (received 1024 r)) (sym h)))

leave_child-Repeats :
    (dst : ℕ) (w : World) → Repeats w.trace → Ends Kept (everywhere Repeats) (leave_child dst w)
unfolding leave_child
leave_child-Repeats dst w h =
    run-Ends Kept (everywhere Repeats) (close dst) (exit 0)
      (record w { trace = printed ">>>子进程关闭管道写入端并退出进程\n" [] ∷ w.trace }) h (λ r rest e. h)

type_all-Repeats :
    (fuel dst : ℕ) (o : Option ℕ) (w : World)
    → length w.replies < fuel
    → Even tt w
    → Ends Kept (everywhere Repeats) (type_all fuel dst o w)
unfolding type_all
type_all-Repeats fuel dst none w f h = Begins-eq _ _ h
type_all-Repeats fuel dst (some n) w f h =
    let v : World = record w { trace = printed ">>>子进程关闭管道读取端\n" [] ∷ w.trace } in
    bind-Ends Kept Kept (everywhere Repeats) (loop fuel (type_round dst) tt) _ v
      (loop-Ends Even Kept (everywhere Repeats) (type_round dst) (λ _. type_round-Even dst) fuel tt
        v f h)
      (λ _. leave_child-Repeats dst)

-- With fuel above the number of replies, and wherever it stops, the child has written what it read, in
-- that order, but perhaps the last.
pub child-Repeats :
    (fuel src dst : ℕ) (w : World)
    → length w.replies < fuel
    → w.trace ≡ []
    → Ends Kept (everywhere Repeats) (child fuel src dst w)
unfolding child
child-Repeats fuel src dst w f e =
    number-Ends Kept (everywhere Repeats) (close src) (type_all fuel dst)
      (record w { trace = printed ">>>子进程创建成功\n" [] ∷ w.trace }) (rw e tt)
      (λ r rest d.
        type_all-Repeats fuel dst r.result _ (omega (arith, f, ap (λ (l : List Reply). length l) d))
          (rw e refl))

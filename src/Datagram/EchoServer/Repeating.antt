-- ===== src/Datagram/EchoServer/Repeating.antt =====
-- What the server of study-linux-kernel/socket/echo_dgram_server.c sends.
use study_linux_kernel.Base.{
  ℕ, ◌<◌, ◌≡◌, refl, ap, sym, ◌∙◌, List, [], ◌∷◌, ◌++◌, Option, none, some, length, arith,
}
use study_linux_kernel.Sys.Calls.{
  Text, Address, Trace, Reply, received, any_host, socket, bind, recvfrom, sendto, close,
}
use study_linux_kernel.Sys.Monad.{World}
use study_linux_kernel.Sys.Loops.{Ends, Round, loop, loop-Ends, bind-Ends}
use study_linux_kernel.Sys.Steps.{sys-Ends, number-Ends, run-Ends}
use study_linux_kernel.Sys.Exchange.{
  sent_on, got_on, any_fd, Begins, Begins-eq, Begins-one_more, append_some, left_by, everywhere,
}
use study_linux_kernel.Datagram.EchoServer.{
  after_sendto, on_message, round, leave, echo_all, after_bind, after_socket, main,
}

abbrev pub Repeats : Trace → Type 0
Repeats t = Begins (sent_on any_fd t) (got_on any_fd t)

abbrev Even : Unit {0} → World → Type 0
Even _ w = sent_on any_fd w.trace ≡ got_on any_fd w.trace

abbrev Kept : Unit {0} → World → Type 0
Kept _ w = Repeats w.trace

after_sendto-Even :
    (o : Option ℕ) (m : Text) (before : List Text) (w₀ w : World)
    → length w.replies < length w₀.replies
    → sent_on any_fd w.trace ≡ append_some before (left_by m o)
    → got_on any_fd w.trace ≡ before ++ (m ∷ [])
    → Ends (Round Even Kept w₀) (everywhere Repeats) (after_sendto o w)
unfolding after_sendto
after_sendto-Even none m before w₀ w less s g = rw g (Begins-one_more _ before m s)
after_sendto-Even (some n) m before w₀ w less s g = (s ∙ sym g, less)

on_message-Even :
    (sock : ℕ) (from : Address) (got : Option Text) (w₀ w : World)
    → length w.replies < length w₀.replies
    → got_on any_fd w.trace ≡ append_some (sent_on any_fd w.trace) got
    → Ends (Round Even Kept w₀) (everywhere Repeats) (on_message sock from got w)
unfolding on_message
on_message-Even sock from none w₀ w less h = Begins-eq _ _ (sym h)
on_message-Even sock from (some m) w₀ w less h =
    number-Ends (Round Even Kept w₀) (everywhere Repeats) (sendto sock m from) after_sendto w
      (rw h (Begins-one_more _ _ m refl))
      (λ r rest e.
        after_sendto-Even r.result m (sent_on any_fd w.trace) w₀ _
          (omega (arith, less, ap (λ (l : List Reply). length l) e)) refl h)

round-Even :
    (sock : ℕ) (w : World)
    → Even tt w
    → Ends (Round Even Kept w) (everywhere Repeats) (round sock tt w)
unfolding round
round-Even sock w h =
    sys-Ends (Round Even Kept w) (everywhere Repeats) (recvfrom sock 1024) _ w (Begins-eq _ _ h)
      (λ r rest e.
        on_message-Even sock r.sender (received 1024 r) w _
          (omega (arith, ap (λ (l : List Reply). length l) e))
          (ap (λ (ms : List Text). append_some ms (received 1024 r)) (sym h)))

leave-Repeats :
    (sock : ℕ) (w : World) → Repeats w.trace → Ends Kept (everywhere Repeats) (leave sock w)
unfolding leave
leave-Repeats sock w h = run-Ends Kept (everywhere Repeats) (close sock) _ w h (λ r rest e. h)

echo_all-Repeats :
    (fuel sock : ℕ) (w : World)
    → length w.replies < fuel
    → Even tt w
    → Ends Kept (everywhere Repeats) (echo_all fuel sock w)
unfolding echo_all
echo_all-Repeats fuel sock w f h =
    bind-Ends Kept Kept (everywhere Repeats) (loop fuel (round sock) tt) _ w
      (loop-Ends Even Kept (everywhere Repeats) (round sock) (λ _. round-Even sock) fuel tt w f h)
      (λ _. leave-Repeats sock)

after_bind-Repeats :
    (fuel sock : ℕ) (o : Option ℕ) (w : World)
    → length w.replies < fuel
    → Even tt w
    → Ends Kept (everywhere Repeats) (after_bind fuel sock o w)
unfolding after_bind
after_bind-Repeats fuel sock none w f h = leave-Repeats sock w (Begins-eq _ _ h)
after_bind-Repeats fuel sock (some n) w f h = echo_all-Repeats fuel sock w f h

after_socket-Repeats :
    (fuel port : ℕ) (o : Option ℕ) (w : World)
    → length w.replies < fuel
    → Even tt w
    → Ends Kept (everywhere Repeats) (after_socket fuel port o w)
unfolding after_socket
after_socket-Repeats fuel port none w f h = Begins-eq _ _ h
after_socket-Repeats fuel port (some sock) w f h =
    number-Ends Kept (everywhere Repeats) (bind sock (any_host port)) _ w (Begins-eq _ _ h)
      (λ r rest e.
        after_bind-Repeats fuel sock r.result _
          (omega (arith, f, ap (λ (l : List Reply). length l) e)) h)

-- With fuel above the number of replies, and no history, the server is out of fuel nowhere, and
-- wherever it stops it has sent the messages that it received,
-- in order, but perhaps the last.
pub main-Repeats :
    (atoi : Text → ℕ) (fuel : ℕ) (argv : List Text) (w : World)
    → length w.replies < fuel
    → w.trace ≡ []
    → Ends Kept (everywhere Repeats) (main atoi fuel argv w)
unfolding main
main-Repeats atoi fuel [] w f e = rw e tt
main-Repeats atoi fuel (port ∷ more) w f e =
    number-Ends Kept (everywhere Repeats) (socket "AF_INET SOCK_DGRAM") _ w (rw e tt) (λ r rest d.
      after_socket-Repeats fuel (atoi port) r.result _
        (omega (arith, f, ap (λ (l : List Reply). length l) d)) (rw e refl))

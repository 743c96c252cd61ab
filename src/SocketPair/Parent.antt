-- ===== src/SocketPair/Parent.antt =====
-- What the parent of study-linux-kernel/socket/socket_unixdomain_pair.c sends.
use study_linux_kernel.Base.{
  ℕ, zero, suc, ◌<◌, ◌≡◌, refl, ap, List, [], ◌∷◌, ◌++◌, Option, none, some, Bool, true, length,
  arith,
}
use study_linux_kernel.Base.Run.{ok}
use study_linux_kernel.Sys.Calls.{
  Text, Trace, Reply, printed, int, error, received, read, write, close, getpid,
}
use study_linux_kernel.Sys.Monad.{World, string_in, lift, number, pure, exit, answered, ◌>>=◌}
use study_linux_kernel.Sys.Loops.{Ends, Round, again, loop, loop-Ends, bind-Ends, lift-Ends}
use study_linux_kernel.Sys.Steps.{number-Ends, input-Ends, run-Ends, lift-made}
use study_linux_kernel.Sys.Exchange.{
  sent_on, got_on, got_on_read, sent_on_write, Begins, Begins-eq, Begins-append, Begins-refl, each,
  each-append, append_some, left_by, everywhere,
}
use study_linux_kernel.SocketPair.{
  uppered, strhelper_toupper, goes_on, pid_of, show_line, leave, on_message, answer_round,
  answer_all, parent,
}

strhelper_toupper-made : (n : ℕ) (s m : Text) → strhelper_toupper n s ≡ ok m → m ≡ uppered s
unfolding strhelper_toupper
strhelper_toupper-made n s m e = ground arith

-- The parent, whose socket `own` tells from the other descriptors.
module _ (own : ℕ → Bool) where
  -- What was received goes back raised, in its order, but perhaps the last.
  abbrev pub Answers : Trace → Type 0
  Answers t = Begins (sent_on own t) (each uppered (got_on own t))

  abbrev Even : Unit {0} → World → Type 0
  Even _ w = sent_on own w.trace ≡ each uppered (got_on own w.trace)

  abbrev Kept : Unit {0} → World → Type 0
  Kept _ w = Answers w.trace

  -- With one message more received than sent.
  record Owing (before : List Text) (m : Text) (w : World) : Type 0 where
    sent : sent_on own w.trace ≡ each uppered before
    got : got_on own w.trace ≡ before ++ (m ∷ [])

  Owing-Answers : (before : List Text) (m : Text) (w : World) → Owing before m w → Answers w.trace
  Owing-Answers before m w h =
      rw (h.sent, h.got, each-append) (Begins-append _ _ _ (Begins-refl (each uppered before)))

  goes_on-Even :
      (before : List Text) (m : Text) (o : Option ℕ) (w₀ w : World)
      → length w.replies < length w₀.replies
      → sent_on own w.trace ≡ append_some (each uppered before) (left_by (uppered m) o)
      → got_on own w.trace ≡ before ++ (m ∷ [])
      → Ends (Round Even Kept w₀) (everywhere Answers) (goes_on o (pure (again tt)) w)
  unfolding goes_on
  goes_on-Even before m none w₀ w less s g = Owing-Answers before m w (record { sent = s; got = g })
  goes_on-Even before m (some zero) w₀ w less s g = Begins-eq _ _ (rw (s, g, each-append) refl)
  goes_on-Even before m (some (suc n)) w₀ w less s g = (rw (s, g, each-append) refl, less)

  show_line-Owing :
      (before : List Text) (pid : ℕ) (m : Text) (w : World)
      → Owing before m w
      → Ends
          (λ _ v. Owing before m v × (v.replies ≡ w.replies))
          (everywhere Answers)
          (show_line pid m w)
  unfolding show_line
  show_line-Owing before pid m w h =
      bind-Ends (λ _ v. Owing before m v × (v.replies ≡ w.replies)) _ (everywhere Answers)
        (lift (string_in 1024 m)) _ w
        (lift-Ends (λ v. Owing before m v × (v.replies ≡ w.replies)) (everywhere Answers)
          (string_in 1024 m) w (h, refl) (λ _. Owing-Answers before m w h))
        (λ line v k. (record { sent = k.0.sent; got = k.0.got }, k.1))

  module _ (sock : ℕ) (mine : own sock ≡ true) where
    send_raised-Even :
        (before : List Text) (m : Text) (w₀ w : World)
        → length w.replies < length w₀.replies
        → Owing before m w
        → Ends (Round Even Kept w₀) (everywhere Answers) (
            (lift (strhelper_toupper 1024 m) >>= λ raised.
            number (write sock raised) >>= λ put. goes_on put (pure (again tt)))
              w)
    send_raised-Even before m w₀ w less h =
        bind-Ends
          (λ raised v.
            Owing before m v × (length v.replies < length w₀.replies) × (raised ≡ uppered m))
          _ (everywhere Answers) (lift (strhelper_toupper 1024 m)) _ w
          (lift-made _ (everywhere Answers) (strhelper_toupper 1024 m) w
            (λ raised e. (h, less, strhelper_toupper-made 1024 m raised e))
            (λ _. Owing-Answers before m w h))
          (λ raised v k.
            number-Ends _ (everywhere Answers) (write sock raised) _ v
              (Owing-Answers before m v k.0)
              (λ r rest e.
                goes_on-Even before m r.result w₀ _
                  (omega (arith, k.1, ap (λ (l : List Reply). length l) e))
                  (rw (sent_on_write own sock raised r v.trace mine, k.0.sent, k.2) refl) k.0.got))

    on_message-Even :
        (pid : ℕ) (before : List Text) (got : Option Text) (w₀ w : World)
        → length w.replies < length w₀.replies
        → sent_on own w.trace ≡ each uppered before
        → got_on own w.trace ≡ append_some before got
        → Ends (Round Even Kept w₀) (everywhere Answers) (on_message pid sock got w)
    unfolding on_message
    on_message-Even pid before none w₀ w less s g = Begins-eq _ _ (rw (s, g) refl)
    on_message-Even pid before (some []) w₀ w less s g =
        Owing-Answers before [] w (record { sent = s; got = g })
    on_message-Even pid before (some (b ∷ bs)) w₀ w less s g =
        bind-Ends (λ _ v. Owing before (b ∷ bs) v × (v.replies ≡ w.replies)) _ (everywhere Answers)
          (show_line pid (b ∷ bs)) _ w
          (show_line-Owing before pid (b ∷ bs) w (record { sent = s; got = g }))
          (λ _ v k. send_raised-Even before (b ∷ bs) w₀ v (rw k.1 less) k.0)

    answer_round-Even :
        (pid : ℕ) (w : World)
        → Even tt w
        → Ends (Round Even Kept w) (everywhere Answers) (answer_round pid sock tt w)
    unfolding answer_round
    answer_round-Even pid w h =
        input-Ends _ (everywhere Answers) (read sock 1024) 1024 _ w (Begins-eq _ _ h) (λ r rest e.
          on_message-Even pid (got_on own w.trace) (received 1024 r) w _
            (omega (arith, ap (λ (l : List Reply). length l) e)) h
            (got_on_read own sock 1024 r w.trace mine))

    leave-Answers :
        (pid fd : ℕ) (w : World) → Answers w.trace → Ends Kept (everywhere Answers) (leave pid fd w)
    unfolding leave
    leave-Answers pid fd w h =
        run-Ends Kept (everywhere Answers) (close fd) (exit 0)
          (record w { trace = printed "[%d] close socket: %s" (int pid ∷ error ∷ []) ∷ w.trace }) h
          (λ r rest e. h)

    answer_all-Answers :
        (fuel : ℕ) (pid : Option ℕ) (w : World)
        → length w.replies < fuel
        → Even tt w
        → Ends Kept (everywhere Answers) (answer_all fuel sock pid w)
    unfolding answer_all
    answer_all-Answers fuel pid w f h =
        bind-Ends Kept Kept (everywhere Answers) (loop fuel (answer_round (pid_of pid) sock) tt) _ w
          (loop-Ends Even Kept (everywhere Answers) (answer_round (pid_of pid) sock)
            (λ _. answer_round-Even (pid_of pid)) fuel tt w f h)
          (λ _. leave-Answers (pid_of pid) sock)

    -- With fuel above the number of replies, and wherever it stops, the parent has sent what it received,
    -- raised and in that order, but perhaps the last.
    pub parent-Answers :
        (fuel b : ℕ) (w : World)
        → length w.replies < fuel
        → w.trace ≡ []
        → Ends Kept (everywhere Answers) (parent fuel sock b w)
    unfolding parent
    parent-Answers fuel b w f e =
        run-Ends Kept (everywhere Answers) (close b) _ w (rw e tt) (λ r rest d.
          number-Ends Kept (everywhere Answers) getpid (answer_all fuel sock)
            (answered (close b) r rest w) (rw e tt)
            (λ q more c.
              answer_all-Answers fuel q.result _
                (omega (
                  arith,
                  f,
                  ap (λ (l : List Reply). length l) d,
                  ap (λ (l : List Reply). length l) c,
                ))
                (rw e refl)))

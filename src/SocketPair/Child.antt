-- ===== src/SocketPair/Child.antt =====
-- What the child of study-linux-kernel/socket/socket_unixdomain_pair.c sends and shows.
use study_linux_kernel.Base.{
  ℕ, zero, suc, ◌<◌, ◌≡◌, refl, ap, List, [], ◌∷◌, ◌++◌, append-nil, Option, none, some, Bool, true,
  false, ◌==◌, length, c_string, arith,
}
use study_linux_kernel.Sys.Calls.{
  Text, Trace, Reply, printed, int, error, received, read, write, close, getpid,
}
use study_linux_kernel.Sys.Monad.{World, string_in, lift, exit, answered}
use study_linux_kernel.Sys.Loops.{Ends, Round, loop, loop-Ends, bind-Ends}
use study_linux_kernel.Sys.Steps.{number-Ends, input-Ends, run-Ends, lift-made}
use study_linux_kernel.Sys.Exchange.{
  sent_on, got_on, got_on_read, got_on_other, sent_on_write, shown, filled, filled_append, Begins,
  Begins-eq, Begins-append, Begins-refl, each, each-append, append_some, left_by, everywhere,
}
use study_linux_kernel.Datagram.EchoClient.Talking.{string_in-made}
use study_linux_kernel.SocketPair.{
  goes_on, pid_of, show_line, leave, on_answer, after_ask, on_typed, ask_round, ask_all, child,
}

abbrev pub keyboard : ℕ → Bool
keyboard f = f == 0

-- The child, whose socket `own` tells from the other descriptors.
module _ (own : ℕ → Bool) where
  -- What was typed goes out in its order, but empty input and perhaps the last, and what comes back is
  -- shown as it comes.
  abbrev pub Talks : Trace → Type 0
  Talks t =
      Begins (sent_on own t) (filled (got_on keyboard t))
      × Begins (shown t) (each c_string (got_on own t))

  abbrev Settled : Unit {0} → World → Type 0
  Settled _ w =
      (sent_on own w.trace ≡ filled (got_on keyboard w.trace))
      × (shown w.trace ≡ each c_string (got_on own w.trace))

  abbrev Said : Unit {0} → World → Type 0
  Said _ w = Talks w.trace

  Settled-Talks : (w : World) → Settled tt w → Talks w.trace
  Settled-Talks w h = (Begins-eq _ _ h.0, Begins-eq _ _ h.1)

  -- With one message more received than shown.
  record Unshown (heard : List Text) (m : Text) (w : World) : Type 0 where
    sent : sent_on own w.trace ≡ filled (got_on keyboard w.trace)
    shows : shown w.trace ≡ each c_string heard
    got : got_on own w.trace ≡ heard ++ (m ∷ [])

  Unshown-Talks : (heard : List Text) (m : Text) (w : World) → Unshown heard m w → Talks w.trace
  Unshown-Talks heard m w h = (
    Begins-eq _ _ h.sent,
    rw (h.shows, h.got, each-append) (Begins-append _ _ _ (Begins-refl (each c_string heard))),
  )

  show_line-Settled :
      (heard : List Text) (pid : ℕ) (m : Text) (w₀ w : World)
      → length w.replies < length w₀.replies
      → Unshown heard m w
      → Ends
          (λ _ v. Settled tt v × (length v.replies < length w₀.replies))
          (everywhere Talks)
          (show_line pid m w)
  unfolding show_line
  show_line-Settled heard pid m w₀ w less h =
      bind-Ends
        (λ line v. Unshown heard m v × (length v.replies < length w₀.replies) × (line ≡ c_string m))
        _ (everywhere Talks) (lift (string_in 1024 m)) _ w
        (lift-made _ (everywhere Talks) (string_in 1024 m) w
          (λ line e. (h, less, string_in-made 1024 m line e)) (λ _. Unshown-Talks heard m w h))
        (λ line v k. ((k.0.sent, rw (k.0.shows, k.0.got, each-append, k.2) refl), k.1))

  on_answer-Settled :
      (pid : ℕ) (heard : List Text) (got : Option Text) (w₀ w : World)
      → length w.replies < length w₀.replies
      → sent_on own w.trace ≡ filled (got_on keyboard w.trace)
      → shown w.trace ≡ each c_string heard
      → got_on own w.trace ≡ append_some heard got
      → Ends (Round Settled Said w₀) (everywhere Talks) (on_answer pid got w)
  unfolding on_answer
  on_answer-Settled pid heard none w₀ w less s d g = Settled-Talks w (s, rw (d, g) refl)
  on_answer-Settled pid heard (some []) w₀ w less s d g =
      Unshown-Talks heard [] w (record { sent = s; shows = d; got = g })
  on_answer-Settled pid heard (some (b ∷ bs)) w₀ w less s d g =
      bind-Ends (λ _ v. Settled tt v × (length v.replies < length w₀.replies)) _ (everywhere Talks)
        (show_line pid (b ∷ bs)) _ w
        (show_line-Settled heard pid (b ∷ bs) w₀ w less (record { sent = s; shows = d; got = g }))
        (λ _ v k. k)

  module _ (sock : ℕ) (mine : own sock ≡ true) (apart : own 0 ≡ false)
      (off : keyboard sock ≡ false) where
    after_ask-Settled :
        (pid b : ℕ) (bs : Text) (typed : List Text) (o : Option ℕ) (w₀ w : World)
        → length w.replies < length w₀.replies
        → sent_on own w.trace ≡ append_some (filled typed) (left_by (b ∷ bs) o)
        → got_on keyboard w.trace ≡ typed ++ ((b ∷ bs) ∷ [])
        → shown w.trace ≡ each c_string (got_on own w.trace)
        → Ends (Round Settled Said w₀) (everywhere Talks) (after_ask pid sock o w)
    unfolding after_ask goes_on
    after_ask-Settled pid b bs typed none w₀ w less s g d = (
      rw (s, g, filled_append) (Begins-append _ _ _ (Begins-refl (filled typed))),
      Begins-eq _ _ d,
    )
    after_ask-Settled pid b bs typed (some zero) w₀ w less s g d =
        Settled-Talks w (rw (s, g, filled_append) refl, d)
    after_ask-Settled pid b bs typed (some (suc n)) w₀ w less s g d =
        input-Ends _ (everywhere Talks) (read sock 1024) 1024 (on_answer pid) w
          (Settled-Talks w (rw (s, g, filled_append) refl, d))
          (λ r rest e.
            on_answer-Settled pid (got_on own w.trace) (received 1024 r) w₀ _
              (omega (arith, less, ap (λ (l : List Reply). length l) e))
              (rw (got_on_other keyboard sock 1024 r w.trace off, g, filled_append) s) d
              (got_on_read own sock 1024 r w.trace mine))

    on_typed-Settled :
        (pid : ℕ) (typed : List Text) (got : Option Text) (w₀ w : World)
        → length w.replies < length w₀.replies
        → sent_on own w.trace ≡ filled typed
        → got_on keyboard w.trace ≡ append_some typed got
        → shown w.trace ≡ each c_string (got_on own w.trace)
        → Ends (Round Settled Said w₀) (everywhere Talks) (on_typed pid sock got w)
    unfolding on_typed
    on_typed-Settled pid typed none w₀ w less s g d = ((rw (s, g) refl, d), less)
    on_typed-Settled pid typed (some []) w₀ w less s g d =
        ((rw (s, g, filled_append, append-nil) refl, d), less)
    on_typed-Settled pid typed (some (b ∷ bs)) w₀ w less s g d =
        number-Ends _ (everywhere Talks) (write sock (b ∷ bs)) (after_ask pid sock) w
          (
            rw (s, g, filled_append) (Begins-append _ _ _ (Begins-refl (filled typed))),
            Begins-eq _ _ d,
          )
          (λ r rest e.
            after_ask-Settled pid b bs typed r.result w₀ _
              (omega (arith, less, ap (λ (l : List Reply). length l) e))
              (rw (sent_on_write own sock (b ∷ bs) r w.trace mine, s) refl) g d)

    ask_round-Settled :
        (pid : ℕ) (w : World)
        → Settled tt w
        → Ends (Round Settled Said w) (everywhere Talks) (ask_round pid sock tt w)
    unfolding ask_round
    ask_round-Settled pid w h =
        input-Ends _ (everywhere Talks) (read 0 1024) 1024 (on_typed pid sock)
          (record w { trace = printed "[%d]please input message:" (int pid ∷ []) ∷ w.trace })
          (Settled-Talks w h)
          (λ r rest e.
            on_typed-Settled pid (got_on keyboard w.trace) (received 1024 r) w _
              (omega (arith, ap (λ (l : List Reply). length l) e)) h.0 refl
              (rw (got_on_other own 0 1024 r w.trace apart) h.1))

    leave-Talks :
        (pid fd : ℕ) (w : World) → Talks w.trace → Ends Said (everywhere Talks) (leave pid fd w)
    unfolding leave
    leave-Talks pid fd w h =
        run-Ends Said (everywhere Talks) (close fd) (exit 0)
          (record w { trace = printed "[%d] close socket: %s" (int pid ∷ error ∷ []) ∷ w.trace }) h
          (λ r rest e. h)

    ask_all-Talks :
        (fuel : ℕ) (pid : Option ℕ) (w : World)
        → length w.replies < fuel
        → Settled tt w
        → Ends Said (everywhere Talks) (ask_all fuel sock pid w)
    unfolding ask_all
    ask_all-Talks fuel pid w f h =
        bind-Ends Said Said (everywhere Talks) (loop fuel (ask_round (pid_of pid) sock) tt) _ w
          (loop-Ends Settled Said (everywhere Talks) (ask_round (pid_of pid) sock)
            (λ _. ask_round-Settled (pid_of pid)) fuel tt w f h)
          (λ _. leave-Talks (pid_of pid) sock)

    -- With fuel above the number of replies, and wherever it stops, the child has sent what was typed,
    -- but empty input and perhaps the last, and shown what it received, each in its order.
    pub child-Talks :
        (fuel a : ℕ) (w : World)
        → length w.replies < fuel
        → w.trace ≡ []
        → Ends Said (everywhere Talks) (child fuel a sock w)
    unfolding child
    child-Talks fuel a w f e =
        run-Ends Said (everywhere Talks) (close a) _ w (rw e (tt, tt)) (λ r rest d.
          number-Ends Said (everywhere Talks) getpid (ask_all fuel sock)
            (answered (close a) r rest w) (rw e (tt, tt))
            (λ q more c.
              ask_all-Talks fuel q.result _
                (omega (
                  arith,
                  f,
                  ap (λ (l : List Reply). length l) d,
                  ap (λ (l : List Reply). length l) c,
                ))
                (rw e refl, rw e refl)))

-- ===== src/Datagram/EchoClient/Talking.antt =====
-- What the client of study-linux-kernel/socket/echo_dgram_client.c sends and shows.
use study_linux_kernel.Base.{
  ℕ, ◌≡◌, refl, ap, sym, ◌∙◌, List, [], ◌∷◌, ◌++◌, append_assoc, Option, none, some, c_string,
  arith,
}
use study_linux_kernel.Base.Run.{ok}
use study_linux_kernel.Sys.Calls.{Text, Trace, received, inet, socket, connect, send, recv, close}
use study_linux_kernel.Sys.Monad.{World, M, string_in, lift}
use study_linux_kernel.Sys.Loops.{Ends, bind-Ends}
use study_linux_kernel.Sys.Steps.{number-Ends, input-Ends, run-Ends, lift-made}
use study_linux_kernel.Sys.Exchange.{
  sent_on, got_on, any_fd, shown, Begins, Begins-eq, Begins-append, Begins-refl, each, each-append,
  append_some, left_by, everywhere,
}
use study_linux_kernel.Datagram.EchoClient.{
  leave, finish_line, on_reply, after_send, talk, after_connect, after_socket, main,
}

-- What a received message is shown as.
pub string_in-made : (n : ℕ) (s m : Text) → string_in n s ≡ ok m → m ≡ c_string s
unfolding string_in
string_in-made n s m e = ground arith

module _ (all : List Text) where
  -- The messages go out in the order of the arguments, and what comes back is shown as it comes.
  abbrev pub Talks : Trace → Type 0
  Talks t =
      Begins (sent_on any_fd t) (each c_string all)
      × Begins (shown t) (each c_string (got_on any_fd t))

  abbrev Kept : Unit {0} → World → Type 0
  Kept _ w = Talks w.trace

  -- The messages before the ones that the loop is at.
  record Told (before after : List Text) (t : Trace) : Type 0 where
    splits : all ≡ before ++ after
    sent : sent_on any_fd t ≡ each c_string before
    shows : shown t ≡ each c_string (got_on any_fd t)

  sent_so_far :
      (before after : List Text) (t : Trace)
      → all ≡ before ++ after
      → sent_on any_fd t ≡ each c_string before
      → Begins (sent_on any_fd t) (each c_string all)
  sent_so_far before after t p s =
      rw (s, p, each-append) (Begins-append _ _ _ (Begins-refl (each c_string before)))

  Told-Talks : (before after : List Text) (t : Trace) → Told before after t → Talks t
  Told-Talks before after t h = (sent_so_far before after t h.splits h.sent, Begins-eq _ _ h.shows)

  leave-Talks : (sock : ℕ) (w : World) → Talks w.trace → Ends Kept (everywhere Talks) (leave sock w)
  unfolding leave
  leave-Talks sock w h = run-Ends Kept (everywhere Talks) (close sock) _ w h (λ r rest e. h)

  finish_line-Talks :
      (sock : ℕ) (w : World) → Talks w.trace → Ends Kept (everywhere Talks) (finish_line sock w)
  unfolding finish_line
  finish_line-Talks sock w h = leave-Talks sock _ h

  -- Behind a message that was received and is not shown yet.
  record Heard (before : List Text) (bytes : Text) (ms : List Text) (v : World) : Type 0 where
    sent : sent_on any_fd v.trace ≡ each c_string before
    shows : shown v.trace ≡ each c_string ms
    got : got_on any_fd v.trace ≡ ms ++ (bytes ∷ [])

  unshown :
      (ms : List Text) (bytes : Text) (t : Trace)
      → shown t ≡ each c_string ms
      → got_on any_fd t ≡ ms ++ (bytes ∷ [])
      → Begins (shown t) (each c_string (got_on any_fd t))
  unshown ms bytes t d g =
      rw (d, g, each-append) (Begins-append _ _ _ (Begins-refl (each c_string ms)))

  on_reply-Talks :
      (sock : ℕ) (before after : List Text) (later : M (Unit {0})) (got : Option Text)
      (ms : List Text) (w : World)
      → all ≡ before ++ after
      → sent_on any_fd w.trace ≡ each c_string before
      → shown w.trace ≡ each c_string ms
      → got_on any_fd w.trace ≡ append_some ms got
      → ((v : World) → Told before after v.trace → Ends Kept (everywhere Talks) (later v))
      → Ends Kept (everywhere Talks) (on_reply sock later got w)
  unfolding on_reply
  on_reply-Talks sock before after later none ms w p s d g next = finish_line-Talks sock w (
      Told-Talks before after w.trace
        (record { splits = p; sent = s; shows = d ∙ ap (each c_string) (sym g) }))
  on_reply-Talks sock before after later (some bytes) ms w p s d g next =
      bind-Ends (λ m v. Heard before bytes ms v × (m ≡ c_string bytes)) Kept (everywhere Talks)
        (lift (string_in 1024 bytes)) _ w
        (lift-made _ (everywhere Talks) (string_in 1024 bytes) w
          (λ m e. (record { sent = s; shows = d; got = g }, string_in-made 1024 bytes m e))
          (λ _. (sent_so_far before after w.trace p s, unshown ms bytes w.trace d g)))
        (λ m v k. next _ (record {
          splits = p;
          sent = k.0.sent;
          shows = rw (k.0.shows, k.0.got, each-append, k.1) refl;
        }))

  after_send-Talks :
      (sock : ℕ) (before after : List Text) (m : Text) (later : M (Unit {0})) (o : Option ℕ)
      (w : World)
      → all ≡ before ++ (m ∷ after)
      → sent_on any_fd w.trace ≡ append_some (each c_string before) (left_by (c_string m) o)
      → shown w.trace ≡ each c_string (got_on any_fd w.trace)
      → ((v : World)
          → Told (before ++ (m ∷ [])) after v.trace
          → Ends Kept (everywhere Talks) (later v))
      → Ends Kept (everywhere Talks) (after_send sock later o w)
  unfolding after_send
  after_send-Talks sock before after m later none w p s d next =
      finish_line-Talks sock _
        (Told-Talks before (m ∷ after) w.trace (record { splits = p; sent = s; shows = d }))
  after_send-Talks sock before after m later (some n) w p s d next =
      let q : all ≡ (before ++ (m ∷ [])) ++ after = p ∙ sym (append_assoc before (m ∷ []) after) in
      let s' : sent_on any_fd w.trace ≡ each c_string (before ++ (m ∷ [])) =
        s ∙ sym (each-append c_string before (m ∷ [])) in
      input-Ends Kept (everywhere Talks) (recv sock 1024) 1024 (on_reply sock later) w
        (sent_so_far (before ++ (m ∷ [])) after w.trace q s', Begins-eq _ _ d)
        (λ r rest e.
          on_reply-Talks sock (before ++ (m ∷ [])) after later (received 1024 r)
            (got_on any_fd w.trace) _ q s' d refl next)

  talk-Talks :
      (sock : ℕ) (before after : List Text) (w : World)
      → Told before after w.trace
      → Ends Kept (everywhere Talks) (talk sock after w)
  unfolding talk
  talk-Talks sock before [] w h = finish_line-Talks sock w (Told-Talks before [] w.trace h)
  talk-Talks sock before (m ∷ after) w h =
      number-Ends Kept (everywhere Talks) (send sock (c_string m)) _ w
        (Told-Talks before (m ∷ after) w.trace h)
        (λ r rest e.
          after_send-Talks sock before after m (talk sock after) r.result _ h.splits
            (ap (λ (ms : List Text). append_some ms (left_by (c_string m) r.result)) h.sent) h.shows
            (λ v. talk-Talks sock (before ++ (m ∷ [])) after v))

  after_connect-Talks :
      (sock : ℕ) (o : Option ℕ) (w : World)
      → Told [] all w.trace
      → Ends Kept (everywhere Talks) (after_connect sock all o w)
  unfolding after_connect
  after_connect-Talks sock none w h = leave-Talks sock w (Told-Talks [] all w.trace h)
  after_connect-Talks sock (some n) w h = talk-Talks sock [] all w h

  after_socket-Talks :
      (host : Text) (port : ℕ) (o : Option ℕ) (w : World)
      → Told [] all w.trace
      → Ends Kept (everywhere Talks) (after_socket host port all o w)
  unfolding after_socket
  after_socket-Talks host port none w h = Told-Talks [] all w.trace h
  after_socket-Talks host port (some sock) w h =
      number-Ends Kept (everywhere Talks) (connect sock (inet host port)) _ w
        (Told-Talks [] all w.trace h)
        (λ r rest e.
          after_connect-Talks sock r.result _
            (record { splits = refl; sent = h.sent; shows = h.shows }))

-- With no history, and wherever the client stops, it has sent arguments in their order, each up to its
-- NUL, and shown what it received in that order, each up to its first NUL.
pub main-Talks :
    (atoi : Text → ℕ) (host port m : Text) (ms : List Text) (w : World)
    → w.trace ≡ []
    → Ends
        (λ _ v. Talks (m ∷ ms) v.trace)
        (everywhere (Talks (m ∷ ms)))
        (main atoi (host ∷ port ∷ m ∷ ms) w)
unfolding main
main-Talks atoi host port m ms w e =
    number-Ends _ (everywhere (Talks (m ∷ ms))) (socket "AF_INET SOCK_DGRAM") _ w (rw e (tt, tt))
      (λ r rest d.
        after_socket-Talks (m ∷ ms) host (atoi port) r.result _
          (record { splits = refl; sent = rw e refl; shows = rw e refl }))

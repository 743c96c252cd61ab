-- ===== src/Client/Chat/Typing.antt =====
-- What the client of study-linux-kernel/socket/chatroom_client.c sends.
use study_linux_kernel.Base.{
  ℕ, zero, suc, ◌<◌, ◌≤◌, ◌≡◌, ap, List, [], ◌∷◌, Option, none, some, length, mem, if◌then◌else◌,
  arith,
}
use study_linux_kernel.Base.Run.{ok}
use study_linux_kernel.Sys.Calls.{
  Call, Text, Trace, Reply, Address, made, printed, received, fgets, sendto, select, recv,
}
use study_linux_kernel.Sys.Monad.{World, answered, lift, pure, input, ◌>>=◌}
use study_linux_kernel.Sys.Loops.{
  Stops, Ends, Next, again, finish, Round, loop, loop-Ends, bind-Ends, if-Ends, lift-Ends,
}
use study_linux_kernel.Sys.Steps.{sys-Ends, number-Ends, input-Ends, lift-made, Ends-weaken}
use study_linux_kernel.Sys.Traces.{Always}
use study_linux_kernel.Chatroom.{ended, die}
use study_linux_kernel.Client.Chat.{
  message_of, after_sendto, send_line, on_message, on_ready, on_selected, round,
}

-- What the newest `fgets` stored.
abbrev pub entered : Trace → Option Text
entered [] = none
entered (printed format args ∷ past) = entered past
entered (made (fgets fd n) r ∷ past) = received 1023 r
entered (made c r ∷ past) = entered past

-- A message is made from the line that was entered last.
abbrev pub Types : Call → Trace → Type 0
Types (sendto fd msg to) past = message_of (entered past) ≡ ok msg
Types c past = Unit {0}

abbrev pub stops : Stops
stops = record {
  status = λ n w. Always Types w.trace;
  waits = λ w. Always Types w.trace;
  faults = λ _ w. Always Types w.trace;
}

-- At most `n` replies are left.
record Chats (n : ℕ) (w : World) : Type 0 where
  few : length w.replies ≤ n
  typed : Always Types w.trace

made-Chats :
    (n : ℕ) (c : Call) (w : World) (r : Reply) (rest : List Reply)
    → Chats n w
    → w.replies ≡ r ∷ rest
    → Types c w.trace
    → Chats n (answered c r rest w)
made-Chats n c w r rest h e t = record {
  few = omega (arith, h.few, ap (λ (l : List Reply). length l) e);
  typed = (t, h.typed);
}

abbrev Still : ℕ → Unit {0} → World → Type 0
Still n _ = Chats n

after_sendto-Still :
    (n : ℕ) (o : Option ℕ) (v : World) → Chats n v → Ends (Still n) stops (after_sendto o v)
unfolding after_sendto die
after_sendto-Still n none v g = g.typed
after_sendto-Still n (some k) v g = g

send_line-Still :
    (n sock : ℕ) (server : Address) (w : World)
    → Chats n w
    → Ends (Still n) stops (send_line sock server w)
unfolding send_line
send_line-Still n sock server w h =
    input-Ends (Still n) stops (fgets 0 1024) 1023 _ w h.typed (λ r rest e.
      bind-Ends (λ msg v. Chats n v × (message_of (entered v.trace) ≡ ok msg)) (Still n) stops
        (lift (message_of (received 1023 r))) _ _
        (lift-made _ stops (message_of (received 1023 r)) _
          (λ msg made. (made-Chats n (fgets 0 1024) w r rest h e tt, made)) (λ _. (tt, h.typed)))
        (λ msg v k.
          number-Ends (Still n) stops (sendto sock msg server) _ v k.0.typed (λ r' rest' e'.
            after_sendto-Still n r'.result _
              (made-Chats n (sendto sock msg server) v r' rest' k.0 e' k.1))))

on_message-Still :
    (n : ℕ) (got : Option Text) (w : World) → Chats n w → Ends (Still n) stops (on_message got w)
unfolding on_message die
on_message-Still n none w h = h.typed
on_message-Still n (some bytes) w h =
    bind-Ends (λ _. Chats n) (Still n) stops (lift (ended bytes)) _ w
      (lift-Ends (Chats n) stops (ended bytes) w h (λ _. h.typed))
      (λ msg v k. record { few = k.few; typed = k.typed })

abbrev Goes : ℕ → Next (Unit {0}) (Unit {0}) → World → Type 0
Goes n _ = Chats n

on_ready-Goes :
    (n sock : ℕ) (server : Address) (readable : List ℕ) (w : World)
    → Chats n w
    → Ends (Goes n) stops (on_ready sock server readable w)
unfolding on_ready
on_ready-Goes n sock server readable w h =
    bind-Ends (Still n) (Goes n) stops (if mem 0 readable then send_line sock server else pure tt) _
      w
      (if-Ends (Still n) stops (mem 0 readable) (send_line sock server) (pure tt) w
        (send_line-Still n sock server w h) h)
      (λ _ v k.
        bind-Ends (Still n) (Goes n) stops
          (if mem sock readable then input 1024 (recv sock 1024) >>= on_message else pure tt) _ v
          (if-Ends (Still n) stops (mem sock readable) (input 1024 (recv sock 1024) >>= on_message)
            (pure tt) v
            (input-Ends (Still n) stops (recv sock 1024) 1024 on_message v k.typed (λ r rest e.
              on_message-Still n (received 1024 r) _
                (made-Chats n (recv sock 1024) v r rest k e tt)))
            k)
          (λ _ u g. g))

abbrev Typed : World → Type 0
Typed w = Always Types w.trace

abbrev Turn : World → Next (Unit {0}) (Unit {0}) → World → Type 0
Turn w = Round (λ _. Typed) (λ _. Typed) w

turned :
    (w : World) (n : ℕ) (x : Next (Unit {0}) (Unit {0})) (v : World)
    → n < length w.replies
    → Chats n v
    → Turn w x v
turned w n (again _) v less h = (h.typed, omega (arith, h.few))
turned w n (finish _) v less h = h.typed

on_selected-Turn :
    (n sock : ℕ) (server : Address) (readable : List ℕ) (o : Option ℕ) (w v : World)
    → n < length w.replies
    → Chats n v
    → Ends (Turn w) stops (on_selected sock server readable o v)
unfolding on_selected
on_selected-Turn n sock server readable none w v less h = h.typed
on_selected-Turn n sock server readable (some zero) w v less h = h.typed
on_selected-Turn n sock server readable (some (suc k)) w v less h =
    Ends-weaken (Goes n) (Turn w) stops (on_ready sock server readable v)
      (λ x u. turned w n x u less) (on_ready-Goes n sock server readable v h)

round-Turn :
    (sock : ℕ) (server : Address) (w : World)
    → Typed w
    → Ends (Turn w) stops (round sock server tt w)
unfolding round
round-Turn sock server w h =
    sys-Ends (Turn w) stops (select (0 ∷ sock ∷ []) (sock ∷ [])) _ w h (λ r rest e.
      on_selected-Turn (length rest) sock server r.readable r.result w _
        (omega (arith, ap (λ (l : List Reply). length l) e))
        (record { few = omega arith; typed = (tt, h) }))

-- Whatever the environment answers, the loop of the client ends or waits in a call, or does
-- something that C leaves undefined; it is out of fuel nowhere. Until then each message is made from
-- the line that was entered last, with a NUL in place of its last byte.
pub chat_loop-Types :
    (fuel sock : ℕ) (server : Address) (w : World)
    → length w.replies < fuel
    → Always Types w.trace
    → Ends (λ _ v. Always Types v.trace) stops (loop fuel (round sock server) tt w)
chat_loop-Types fuel sock server w f h =
    loop-Ends (λ _. Typed) (λ _. Typed) stops (round sock server) (λ _. round-Turn sock server) fuel
      tt w f h

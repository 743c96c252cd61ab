-- ===== src/Chatroom/Sending.antt =====
-- The messages that study-linux-kernel/socket/chatroom_server.c passes on and shows.
use study_linux_kernel.Base.{
  ℕ, ◌<◌, ◌≤◌, ◌≡◌, refl, ap, List, [], ◌∷◌, Option, none, some, Bool, true, false, length, mem,
  arith,
}
use study_linux_kernel.Base.Run.{fault, null_pointer}
use study_linux_kernel.Sys.Calls.{Text, Reply, Address, received, sendto, recv}
use study_linux_kernel.Sys.Monad.{World, M, done, lift}
use study_linux_kernel.Sys.Loops.{Ends, bind-Ends, lift-Ends, if-Ends}
use study_linux_kernel.Sys.Steps.{number-Ends, input-Ends}
use study_linux_kernel.HashTable.Table.{Table}
use study_linux_kernel.HashTable.Iterator.{hash_table_begin}
use study_linux_kernel.HashTable.Traversal.{Entry, entries}
use study_linux_kernel.HashTable.Traversal.Growth.{Every}
use study_linux_kernel.Chatroom
use study_linux_kernel.Chatroom.{Chat, ended, die, split_key}
use study_linux_kernel.Chatroom.Repeating.{send_all, repeat_all-entries}
use study_linux_kernel.Chatroom.Registry.{stops, Told, InRoom, Told-Kept, die-Kept}

module _ (inet_ntoa : Address → Text) (port_text : Address → Text)
    (address : Text → Text → Address) where
  after_sendto-Told :
      (fds : List ℕ) (n : ℕ) (o : Option ℕ) (w : World)
      → length fds ≤ 100
      → Told fds n w
      → Ends (λ _. Told fds n) stops (Chatroom.after_sendto inet_ntoa port_text address o w)
  unfolding Chatroom.after_sendto
  after_sendto-Told fds n none w few h = die-Kept (λ _. Told fds n) w (Told-Kept fds n w few h)
  after_sendto-Told fds n (some k) w few h = h

  send_on-Told :
      (message : Text) (fd : ℕ) (parts : Option (Text × Text)) (fds : List ℕ) (n : ℕ) (w : World)
      → length fds ≤ 100
      → mem fd fds ≡ true
      → Told fds n w
      → Ends
          (λ _. Told fds n)
          stops
          (Chatroom.send_on inet_ntoa port_text address message fd parts w)
  unfolding Chatroom.send_on
  send_on-Told message fd none fds n w few i h = Told-Kept fds n w few h
  send_on-Told message fd (some parts) fds n w few i h =
      number-Ends (λ _. Told fds n) stops (sendto fd message (address parts.0 parts.1)) _ w
        (Told-Kept fds n w few h)
        (λ r rest e. after_sendto-Told fds n r.result _ few (record {
          same = h.same;
          sends = (rw h.same i, h.sends);
          left = omega (arith, h.left, ap (λ (l : List Reply). length l) e);
        }))

  send_all-Told :
      (message : Text) (es : List Entry) (fds : List ℕ) (n : ℕ) (w : World)
      → length fds ≤ 100
      → Every (λ fd. mem fd fds ≡ true) es
      → Told fds n w
      → Ends (λ _. Told fds n) stops (send_all inet_ntoa port_text address message es w)
  unfolding send_all Chatroom.repeat_to
  send_all-Told message [] fds n w few i h = h
  send_all-Told message (e ∷ es) fds n w few i h =
      bind-Ends (λ _. Told fds n) (λ _. Told fds n) stops
        (Chatroom.repeat_to inet_ntoa port_text address message e) _ w
        (send_on-Told message e.1 (split_key e.0) fds n w few i.0 h)
        (λ _ v k. send_all-Told message es fds n v few i.1 k)

  begin-fails : (t : Table) → hash_table_begin false t ≡ fault null_pointer
  unfolding hash_table_begin
  begin-fails t = refl

  pub pass_on-InRoom :
      (memory : Bool) (fuel n : ℕ) (message : Text) (chat : Chat) (w : World)
      → 100 < fuel
      → InRoom n chat w
      → Ends
          (InRoom n)
          stops
          (Chatroom.pass_on inet_ntoa port_text address memory fuel message chat w)
  unfolding Chatroom.pass_on
  pass_on-InRoom false fuel n message chat w f (fds, room, told) =
      rw (begin-fails chat.table) (Told-Kept fds n w room.few told)
  pass_on-InRoom true fuel n message chat w f (fds, room, told) =
      let (c, start, all) =
        repeat_all-entries inet_ntoa port_text address chat.table message fuel room.placed.width
          (omega (arith, room.size, room.few, f)) in
      rw start (
        bind-Ends (λ _. Told fds n) (InRoom n) stops
          (Chatroom.repeat_all inet_ntoa port_text address fuel chat.table message c)
          (λ _ v. done chat v) w
          (rw all
            (send_all-Told message (entries chat.table.buckets) fds n w room.few room.known told))
          (λ _ v k. (fds, room, k)))

  after_recv-Told :
      (later : M (Unit {0})) (got : Option Text) (fds : List ℕ) (n : ℕ) (w : World)
      → length fds ≤ 100
      → Told fds n w
      → ((v : World) → Told fds n v → Ends (λ _. Told fds n) stops (later v))
      → Ends (λ _. Told fds n) stops (Chatroom.after_recv inet_ntoa port_text address later got w)
  unfolding Chatroom.after_recv
  after_recv-Told later none fds n w few h next =
      die-Kept (λ _. Told fds n) w (Told-Kept fds n w few h)
  after_recv-Told later (some bytes) fds n w few h next =
      bind-Ends (λ _. Told fds n) (λ _. Told fds n) stops (lift (ended bytes)) _ w
        (lift-Ends (Told fds n) stops (ended bytes) w h (λ _. Told-Kept fds n w few h))
        (λ msg v k. next _ (record { same = k.same; sends = k.sends; left = k.left }))

  pub show_each-Told :
      (readable clients fds : List ℕ) (n : ℕ) (w : World)
      → length fds ≤ 100
      → Told fds n w
      → Ends
          (λ _. Told fds n)
          stops
          (Chatroom.show_each inet_ntoa port_text address readable clients w)
  unfolding Chatroom.show_each
  show_each-Told readable [] fds n w few h = h
  show_each-Told readable (fd ∷ clients) fds n w few h =
      if-Ends (λ _. Told fds n) stops (mem fd readable) _ _ w
        (input-Ends (λ _. Told fds n) stops (recv fd 1024) 1024 _ w (Told-Kept fds n w few h)
          (λ r rest e.
            after_recv-Told (Chatroom.show_each inet_ntoa port_text address readable clients)
              (received 1024 r) fds n _ few
              (record {
                same = h.same;
                sends = (tt, h.sends);
                left = omega (arith, h.left, ap (λ (l : List Reply). length l) e);
              })
              (λ v. show_each-Told readable clients fds n v few)))
        (show_each-Told readable clients fds n w few h)

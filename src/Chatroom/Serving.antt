-- ===== src/Chatroom/Serving.antt =====
-- The whole server of study-linux-kernel/socket/chatroom_server.c.
use study_linux_kernel.Base.{
  ℕ, ◌<◌, ◌≡◌, refl, ap, List, [], ◌∷◌, Option, none, some, Bool, if◌then◌else◌, length, mem, arith,
}
use study_linux_kernel.Sys.Calls.{
  Text, Reply, Address, printed, received, any_host, int, socket, bind, select, recvfrom,
}
use study_linux_kernel.Sys.Monad.{World, done, lift}
use study_linux_kernel.Sys.Loops.{Never, Ends, Round, loop-Ends, bind-Ends, lift-Ends, if-Ends}
use study_linux_kernel.Sys.Steps.{sys-Ends, number-Ends}
use study_linux_kernel.HashTable.Hash.{hash_size}
use study_linux_kernel.HashTable.Table.{Table, hash_table_init}
use study_linux_kernel.HashTable.Placed.{init-IsPlaced}
use study_linux_kernel.HashTable.Traversal.Growth.{entries-init}
use study_linux_kernel.Chatroom
use study_linux_kernel.Chatroom.{Chat, ended, die, split_key}
use study_linux_kernel.Chatroom.Registry.{stops, Told, InRoom, Told-Kept, die-Kept}
use study_linux_kernel.Chatroom.Sending.{pass_on-InRoom, show_each-Told}
use study_linux_kernel.Chatroom.Admitting.{join-InRoom}

module _ (inet_ntoa : Address → Text) (port_text : Address → Text)
    (address : Text → Text → Address) where
  after_recvfrom-InRoom :
      (memory : Bool) (fuel n : ℕ) (chat : Chat) (from : Address) (got : Option Text) (w : World)
      → 100 < fuel
      → InRoom n chat w
      → Ends
          (InRoom n)
          stops
          (Chatroom.after_recvfrom inet_ntoa port_text address memory fuel chat from got w)
  unfolding Chatroom.after_recvfrom
  after_recvfrom-InRoom memory fuel n chat from none w f (fds, room, told) =
      die-Kept (InRoom n) w (Told-Kept fds n w room.few told)
  after_recvfrom-InRoom memory fuel n chat from (some bytes) w f (fds, room, told) =
      bind-Ends (λ _. InRoom n chat) (InRoom n) stops (lift (ended bytes)) _ w
        (lift-Ends (InRoom n chat) stops (ended bytes) w (fds, room, told)
          (λ _. Told-Kept fds n w room.few told))
        (λ msg v h.
          bind-Ends (InRoom n) (InRoom n) stops
            (Chatroom.join inet_ntoa port_text address memory chat from) _ v
            (join-InRoom inet_ntoa port_text address memory chat from n v h)
            (λ chat' u.
              pass_on-InRoom inet_ntoa port_text address memory fuel n
                (Chatroom.message_of inet_ntoa port_text address from msg) chat' u f))

  take_message-InRoom :
      (memory : Bool) (fuel sock n : ℕ) (chat : Chat) (w : World)
      → 100 < fuel
      → InRoom n chat w
      → Ends
          (InRoom n)
          stops
          (Chatroom.take_message inet_ntoa port_text address memory fuel sock chat w)
  unfolding Chatroom.take_message
  take_message-InRoom memory fuel sock n chat w f (fds, room, told) =
      sys-Ends (InRoom n) stops (recvfrom sock 1024) _ w (Told-Kept fds n w room.few told)
        (λ r rest e. after_recvfrom-InRoom memory fuel n chat r.sender (received 1024 r) _ f (
          fds,
          room,
          record {
            same = told.same;
            sends = (tt, told.sends);
            left = omega (arith, told.left, ap (λ (l : List Reply). length l) e);
          },
        ))

  abbrev Between : Chat → World → Type 0
  Between chat w = InRoom (length w.replies) chat w

  on_ready-Between :
      (memory : Bool) (fuel sock n : ℕ) (chat : Chat) (readable : List ℕ) (w₀ w : World)
      → 100 < fuel
      → n < length w₀.replies
      → InRoom n chat w
      → Ends
          (Round Between Never w₀)
          stops
          (Chatroom.on_ready inet_ntoa port_text address memory fuel sock chat readable w)
  unfolding Chatroom.on_ready
  on_ready-Between memory fuel sock n chat readable w₀ w f less h =
      bind-Ends (InRoom n) (Round Between Never w₀) stops
        (if mem sock readable
          then Chatroom.take_message inet_ntoa port_text address memory fuel sock chat
          else (λ v. done chat v))
        _ w
        (if-Ends (InRoom n) stops (mem sock readable) _ _ w
          (take_message-InRoom memory fuel sock n chat w f h) h)
        (λ chat' v k.
          bind-Ends (λ _. Told k.0 n) (Round Between Never w₀) stops
            (Chatroom.show_each inet_ntoa port_text address readable chat'.client_fds) _ v
            (show_each-Told inet_ntoa port_text address readable chat'.client_fds k.0 n v k.1.few
              k.2)
            (λ _ u t. (
              (k.0, k.1, record { same = t.same; sends = t.sends; left = omega arith }),
              omega (arith, less, t.left),
            )))

  after_select-Between :
      (memory : Bool) (fuel sock n : ℕ) (chat : Chat) (readable : List ℕ) (o : Option ℕ)
      (w₀ w : World)
      → 100 < fuel
      → n < length w₀.replies
      → InRoom n chat w
      → Ends
          (Round Between Never w₀)
          stops
          (Chatroom.after_select inet_ntoa port_text address memory fuel sock chat readable o w)
  unfolding Chatroom.after_select
  after_select-Between memory fuel sock n chat readable none w₀ w f less (fds, room, told) =
      die-Kept (Round Between Never w₀) w (Told-Kept fds n w room.few told)
  after_select-Between memory fuel sock n chat readable (some k) w₀ w f less h =
      on_ready-Between memory fuel sock n chat readable w₀ w f less h

  round-Between :
      (memory : Bool) (fuel sock : ℕ)
      → 100 < fuel
      → (chat : Chat) (w : World) → Between chat w
      → Ends
          (Round Between Never w)
          stops
          (Chatroom.round inet_ntoa port_text address memory fuel sock chat w)
  unfolding Chatroom.round
  round-Between memory fuel sock f chat w (fds, room, told) =
      sys-Ends (Round Between Never w) stops (select (sock ∷ chat.client_fds) []) _ w
        (Told-Kept fds (length w.replies) w room.few told)
        (λ r rest e.
          after_select-Between memory fuel sock (length rest) chat r.readable r.result w _ f
            (omega (arith, ap (λ (l : List Reply). length l) e))
            (fds, room, record { same = told.same; sends = (tt, told.sends); left = omega arith }))

  after_bind-Kept :
      (memory : Bool) (fuel port sock : ℕ) (stack : Table) (o : Option ℕ) (w : World)
      → 100 < fuel
      → length w.replies < fuel
      → length stack.buckets ≡ hash_size
      → Told [] (length w.replies) w
      → Ends Never stops
          (Chatroom.after_bind inet_ntoa port_text address memory fuel stack port sock o w)
  unfolding Chatroom.after_bind
  after_bind-Kept memory fuel port sock stack none w f g width told =
      die-Kept Never w (Told-Kept [] (length w.replies) w (omega arith) told)
  after_bind-Kept memory fuel port sock stack (some k) w f g width told =
      let empty = entries-init stack width in
      loop-Ends Between Never stops (Chatroom.round inet_ntoa port_text address memory fuel sock)
        (round-Between memory fuel sock f) fuel
        (record { table = hash_table_init stack; client_fds = [] })
        (record w { trace = printed "Chat server started on port %d\n" (int port ∷ []) ∷ w.trace })
        g
        (
          [],
          record {
            placed = (init-IsPlaced stack width).0;
            clients = refl;
            few = omega arith;
            size = rw empty (omega arith);
            known = rw empty tt;
          },
          record { same = told.same; sends = told.sends; left = told.left },
        )

  with_socket-Kept :
      (memory : Bool) (fuel port : ℕ) (stack : Table) (o : Option ℕ) (w : World)
      → 100 < fuel
      → length w.replies < fuel
      → length stack.buckets ≡ hash_size
      → Told [] (length w.replies) w
      → Ends Never stops
          (Chatroom.with_socket inet_ntoa port_text address memory fuel stack port o w)
  unfolding Chatroom.with_socket
  with_socket-Kept memory fuel port stack none w f g width told =
      die-Kept Never w (Told-Kept [] (length w.replies) w (omega arith) told)
  with_socket-Kept memory fuel port stack (some sock) w f g width told =
      number-Ends Never stops (bind sock (any_host port)) _ w
        (Told-Kept [] (length w.replies) w (omega arith) told)
        (λ r rest e.
          after_bind-Kept memory fuel port sock stack r.result _ f
            (omega (arith, g, ap (λ (l : List Reply). length l) e)) width
            (record { same = told.same; sends = (tt, told.sends); left = omega arith }))

  -- From no history, whatever memory the table of 1024 buckets is made in, with fuel above the number
  -- of replies and above 100, and whatever the environment answers, the server is out of fuel nowhere
  -- and ends with status 1 only. Wherever it stops, waits or does something that C leaves undefined, it
  -- has connected at most 100 sockets, and each message has gone out on a socket that was connected to a
  -- client before.
  pub main-Kept :
      (atoi : Text → ℕ) (memory : Bool) (fuel : ℕ) (stack : Table) (argv : List Text) (w : World)
      → w.trace ≡ []
      → 100 < fuel
      → length w.replies < fuel
      → length stack.buckets ≡ hash_size
      → Ends Never stops (Chatroom.main inet_ntoa port_text address atoi memory fuel stack argv w)
  unfolding Chatroom.main
  main-Kept atoi memory fuel stack [] w e f g width = (refl, rw e (tt, omega arith))
  main-Kept atoi memory fuel stack (port ∷ []) w e f g width =
      number-Ends Never stops (socket "AF_INET SOCK_DGRAM") _ w (rw e (tt, omega arith))
        (λ r rest d.
          with_socket-Kept memory fuel (atoi port) stack r.result _ f
            (omega (arith, g, ap (λ (l : List Reply). length l) d)) width
            (record { same = rw e refl; sends = rw e (tt, tt); left = omega arith }))
  main-Kept atoi memory fuel stack (port ∷ next ∷ more) w e f g width =
      (refl, rw e (tt, omega arith))

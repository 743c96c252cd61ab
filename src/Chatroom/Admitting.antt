-- ===== src/Chatroom/Admitting.antt =====
-- A client that joins the server of study-linux-kernel/socket/chatroom_server.c.
use study_linux_kernel.Base.{
  ℕ, suc, ◌≤◌, ◌≡◌, ap, List, [], ◌∷◌, Option, none, some, Bool, Bool-cases, inl, inr, true, ◌==◌,
  ltb, length, length-append, mem, arith,
}
use study_linux_kernel.Sys.Calls.{Text, Reply, Address, socket, connect}
use study_linux_kernel.Sys.Monad.{World}
use study_linux_kernel.Sys.Loops.{Ends, if-Ends}
use study_linux_kernel.Sys.Steps.{number-Ends}
use study_linux_kernel.HashTable.Table.{Table, hash_table_get}
use study_linux_kernel.HashTable.Placed.{IsPlaced}
use study_linux_kernel.HashTable.Put.{put-view}
use study_linux_kernel.HashTable.Traversal.{entries}
use study_linux_kernel.HashTable.Traversal.Growth.{Every, Every-weaken, put-Longer}
use study_linux_kernel.Chatroom
use study_linux_kernel.Chatroom.{Chat, ended, die, split_key}
use study_linux_kernel.Chatroom.Joining.{key-short}
use study_linux_kernel.Chatroom.Registry.{
  once_connected, stops, Room, Told, InRoom, Told-Kept, die-Kept, mem_first, mem_behind,
}

module _ (inet_ntoa : Address → Text) (port_text : Address → Text)
    (address : Text → Text → Address) where
  after_connect-InRoom :
      (table : Table) (chat : Chat) (fd n : ℕ) (o : Option ℕ) (fds : List ℕ) (w : World)
      → Room chat fds
      → suc (length fds) ≤ 100
      → IsPlaced table
      → Every (λ v. mem v (fd ∷ fds) ≡ true) (entries table.buckets)
      → length (entries table.buckets) ≤ suc (length fds)
      → Told (once_connected fd o fds) n w
      → Ends (InRoom n) stops (Chatroom.after_connect inet_ntoa port_text address table chat fd o w)
  unfolding Chatroom.after_connect
  after_connect-InRoom table chat fd n none fds w room free placed known size told =
      die-Kept (InRoom n) w (Told-Kept fds n w room.few told)
  after_connect-InRoom table chat fd n (some k) fds w room free placed known size told = (
    fd ∷ fds,
    record {
      placed = placed;
      clients = omega (arith, room.clients, length-append chat.client_fds (fd ∷ []));
      few = free;
      size = size;
      known = known;
    },
    told,
  )

  after_socket-InRoom :
      (memory : Bool) (chat : Chat) (from : Address) (n : ℕ) (o : Option ℕ) (fds : List ℕ)
      (w : World)
      → Room chat fds
      → suc (length fds) ≤ 100
      → Told fds n w
      → Ends
          (InRoom n)
          stops
          (Chatroom.after_socket inet_ntoa port_text address memory chat from o w)
  unfolding Chatroom.after_socket
  after_socket-InRoom memory chat from n none fds w room free told =
      die-Kept (InRoom n) w (Told-Kept fds n w room.few told)
  after_socket-InRoom memory chat from n (some fd) fds w room free told =
      let key : Text = Chatroom.key_of inet_ntoa port_text address from in
      let (table, run, placed, _) =
        put-view chat.table key fd room.placed memory
          (key-short inet_ntoa port_text address from) in
      let kept =
        Every-weaken _ (λ v. mem v (fd ∷ fds) ≡ true) (entries chat.table.buckets)
          (λ v. mem_behind v fd fds) room.known in
      let (known, size) =
        put-Longer (λ v. mem v (fd ∷ fds) ≡ true) memory chat.table table key fd (mem_first fd fds)
          kept run in
      rw run (
        number-Ends (InRoom n) stops (connect fd from) _ w (Told-Kept fds n w room.few told)
          (λ r rest e.
            after_connect-InRoom table chat fd n r.result fds _ room free placed known
              (omega (arith, size, room.size))
              (record {
                same = ap (once_connected fd r.result) told.same;
                sends = (tt, told.sends);
                left = omega (arith, told.left, ap (λ (l : List Reply). length l) e);
              })))

  -- A client that joins leaves the registry sound.
  pub join-InRoom :
      (memory : Bool) (chat : Chat) (from : Address) (n : ℕ) (w : World)
      → InRoom n chat w
      → Ends (InRoom n) stops (Chatroom.join inet_ntoa port_text address memory chat from w)
  unfolding Chatroom.join Chatroom.admit
  join-InRoom memory chat from n w (fds, room, told) =
      elim (Bool-cases (ltb (length chat.client_fds) 100)) [
        | inr full ↦ rw full (fds, room, told)
        | inl free ↦ rw free (
            if-Ends (InRoom n) stops
              (hash_table_get chat.table (Chatroom.key_of inet_ntoa port_text address from) == 0) _
              _ w
              (number-Ends (InRoom n) stops (socket "AF_INET SOCK_DGRAM") _ w
                (Told-Kept fds n w room.few told)
                (λ r rest e.
                  after_socket-InRoom memory chat from n r.result fds _ room
                    (ground (arith, room.clients))
                    (record {
                      same = told.same;
                      sends = (tt, told.sends);
                      left = omega (arith, told.left, ap (λ (l : List Reply). length l) e);
                    })))
              (fds, room, told))
      ]

-- ===== src/Chatroom/Joining.antt =====
-- The registry of clients in study-linux-kernel/socket/chatroom_server.c.
use study_linux_kernel.Base.{
  ℕ, zero, suc, ◌<◌, ◌≤◌, ◌≡◌, refl, List, [], ◌∷◌, ◌++◌, some, Bool, true, ltb, if◌then◌else◌,
  length, take, str_eq, str_eq_iff, arith,
}
use study_linux_kernel.Sys.Calls.{Text, Reply, Address, Trace, made, socket, connect}
use study_linux_kernel.Sys.Monad.{World, done, M}
use study_linux_kernel.HashTable.Hash.{max_key_len}
use study_linux_kernel.HashTable.Table.{Table, hash_table_get}
use study_linux_kernel.HashTable.Placed.{IsPlaced}
use study_linux_kernel.HashTable.Put.{get-put, writes}
use study_linux_kernel.Chatroom.{Chat, key_of, after_connect, after_socket, admit, join}

-- A key is shorter than the array of a node.
take_short : (n : ℕ) (xs : Text) → length (take n xs) ≤ n
unfolding take
take_short zero xs = omega arith
take_short (suc n) [] = omega arith
take_short (suc n) (x ∷ xs) = omega (arith, take_short n xs)

module _ (inet_ntoa : Address → Text) (port_text : Address → Text)
    (address : Text → Text → Address) where
  abbrev key : Address → Text
  key = key_of inet_ntoa port_text address

  abbrev enter : Bool → Chat → Address → M Chat
  enter = join inet_ntoa port_text address

  pub key-short : (from : Address) → length (key from) < max_key_len
  unfolding key_of
  key-short from = omega (arith, take_short 31 (inet_ntoa from ++ (b':' ∷ port_text from)))

  -- Where there is memory, a client that was entered is known: where a new address gets a socket other
  -- than 0 and is connected, the table then gives that socket under its key and under no other key
  -- another value than before. A second `join` of that address makes no call and changes nothing, so
  -- no further socket is opened for it.
  pub join_again :
      (chat : Chat) (from : Address) (s c : Reply) (rest : List Reply) (past : Trace) (e fd n : ℕ)
      → IsPlaced chat.table
      → length chat.client_fds < 100
      → hash_table_get chat.table (key from) ≡ 0
      → s.result ≡ some (suc fd)
      → c.result ≡ some n
      → (t : Table) × (let chat' : Chat = record {
        table = t;
        client_fds = chat.client_fds ++ (suc fd ∷ []);
      } in
          (enter true chat from (record { replies = s ∷ c ∷ rest; trace = past; errno = e })
            ≡ done chat' (record {
              replies = rest;
              trace = made (connect (suc fd) from) c ∷ made (socket "AF_INET SOCK_DGRAM") s ∷ past;
              errno = e;
            }))
          × ((q : Text)
              → hash_table_get t q
                ≡ (if str_eq (key from) q then suc fd else hash_table_get chat.table q))
          × ((w : World) → enter true chat' from w ≡ done chat' w))
  unfolding join admit after_socket after_connect writes
  join_again chat from s c rest past e fd n p room new x y =
      let free : ltb (length chat.client_fds) 100 ≡ true = ground arith in
      let same : str_eq (key from) (key from) ≡ true =
        ground (arith, str_eq_iff (key from) (key from)) in
      let (t, run, reads) = get-put chat.table (key from) (suc fd) p true (key-short from) refl in
      let known : hash_table_get t (key from) ≡ suc fd = rw (reads (key from), same) refl in
      (t, (rw (free, new, x, run, y) refl, reads, λ w. rw known (ground arith)))

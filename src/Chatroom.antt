-- ===== src/Chatroom.antt =====
-- study-linux-kernel/socket/chatroom_server.c: a datagram server that repeats each message to every
-- client, over the table of HashTable. libc's text of an address, of a port, and the ways back are
-- parameters.
pub mod Joining
pub mod Repeating
pub mod Registry
pub mod Sending
pub mod Admitting
pub mod Serving
use study_linux_kernel.Base.{
  ℕ, zero, suc, ◌+◌, List, [], ◌∷◌, ◌++◌, Option, none, some, Bool, true, false, ◌&&◌, ◌==◌, ltb,
  if◌then◌else◌, length, take, mem, c_string,
}
use study_linux_kernel.Base.Run.{Run, ok, fault, null_pointer, buffer_overflow}
use study_linux_kernel.Sys.Calls.{
  Text, Reply, Address, any_host, int, str, error, socket, bind, select, recvfrom, sendto, recv,
  connect, received,
}
use study_linux_kernel.Sys.Monad.{
  M, unfinished, pure, ◌>>=◌, ◌>>◌, exit, sys, number, input, say, lift,
}
use study_linux_kernel.Sys.Loops.{Next, again, loop}
use study_linux_kernel.HashTable.Table.{Table, hash_table_init, hash_table_put, hash_table_get}
use study_linux_kernel.HashTable.Iterator.{
  Context, hash_table_begin, hash_table_end, hash_table_next, hash_table_current_value,
}

-- The table, and `client_fds` as far as it is used, the newest last.
pub record Chat : Type 0 where
  pub table : Table
  pub client_fds : List ℕ

-- `msg[len] = '\0'` behind 1024 bytes at most.
unfoldable pub ended : Text → Run Text
ended msg = if ltb (length msg) 1024 then ok (c_string msg) else fault buffer_overflow

-- `perror`, and the end with 1.
unfoldable pub die : {A : Type 0} → M A
die = do say "%s" (error ∷ []); exit 1

-- The two parts of a key at its last colon, as `strrchr` finds it.
unfoldable pub split_key : Text → Option (Text × Text)
split_key [] = none
split_key (b ∷ bs) = elim (split_key bs) [
  | some parts ↦ some (b ∷ parts.0, parts.1)
  | none ↦ if b == b':' then some ([], bs) else none
]

module _ (inet_ntoa : Address → Text) (port_text : Address → Text)
    (address : Text → Text → Address) where
  -- `snprintf(client_addr_ip, 32, "%s:%d", ...)`
  unfoldable pub key_of : Address → Text
  key_of from = take 31 (inet_ntoa from ++ (b':' ∷ port_text from))

  -- A new socket for a new client. With no socket the process ends, and what was put is lost.
  unfoldable pub after_connect : Table → Chat → ℕ → Option ℕ → M Chat
  after_connect table chat fd none = die
  after_connect table chat fd (some _) =
      pure (record { table = table; client_fds = chat.client_fds ++ (fd ∷ []) })

  unfoldable pub after_socket : Bool → Chat → Address → Option ℕ → M Chat
  after_socket memory chat from none = die
  after_socket memory chat from (some fd) = do
    table ← lift (hash_table_put memory chat.table (key_of from) fd)
    number (connect fd from) >>= after_connect table chat fd

  unfoldable pub admit : Bool → Chat → Address → M Chat
  admit memory chat from = number (socket "AF_INET SOCK_DGRAM") >>= after_socket memory chat from

  -- A client is new where there is room and its key has no value.
  unfoldable pub join : Bool → Chat → Address → M Chat
  join memory chat from =
      if ltb (length chat.client_fds) 100 && (hash_table_get chat.table (key_of from) == 0)
      then admit memory chat from
      else pure chat

  -- The message of one client to one entry of the table.
  unfoldable pub after_sendto : Option ℕ → M (Unit {0})
  after_sendto none = die
  after_sendto (some _) = pure tt

  unfoldable pub send_on : Text → ℕ → Option (Text × Text) → M (Unit {0})
  send_on message fd none = lift (fault null_pointer)
  send_on message fd (some parts) =
      number (sendto fd message (address parts.0 parts.1)) >>= after_sendto

  unfoldable pub repeat_to : Text → Text × ℕ → M (Unit {0})
  repeat_to message entry = send_on message entry.1 (split_key entry.0)

  -- The loop over the cursor.
  unfoldable pub repeat_all : ℕ → Table → Text → Context → M (Unit {0})
  repeat_all zero t message c w = unfinished w
  repeat_all (suc fuel) t message c w =
      let later = λ (c' : Context). repeat_all fuel t message c' in
      let turn : M (Unit {0}) = elim (hash_table_end c).0 [
        | true ↦ pure tt
        | false ↦ do
          entry ← lift (hash_table_current_value c)
          repeat_to message entry
          c' ← lift (hash_table_next t c)
          later c'
      ] in
      turn w

  -- "IP> message"
  unfoldable pub message_of : Address → Text → Text
  message_of from msg = inet_ntoa from ++ (b'>' ∷ b' ' ∷ msg)

  -- The message at the server's socket.
  unfoldable pub pass_on : Bool → ℕ → Text → Chat → M Chat
  pass_on memory fuel message chat = do
    c ← lift (hash_table_begin memory chat.table)
    repeat_all fuel chat.table message c
    pure chat

  unfoldable pub after_recvfrom : Bool → ℕ → Chat → Address → Option Text → M Chat
  after_recvfrom memory fuel chat from none = die
  after_recvfrom memory fuel chat from (some bytes) = do
    msg ← lift (ended bytes)
    chat' ← join memory chat from
    pass_on memory fuel (message_of from msg) chat'

  unfoldable pub take_message : Bool → ℕ → ℕ → Chat → M Chat
  take_message memory fuel sock chat = do
    r ← sys (recvfrom sock 1024)
    after_recvfrom memory fuel chat r.sender (received 1024 r)

  -- The messages at the clients' sockets.
  unfoldable pub after_recv : M (Unit {0}) → Option Text → M (Unit {0})
  after_recv later none = die
  after_recv later (some bytes) = do
    msg ← lift (ended bytes)
    say "Received message from client: %s\n" (str msg ∷ [])
    later

  unfoldable pub show_each : List ℕ → List ℕ → M (Unit {0})
  show_each readable [] = pure tt
  show_each readable (fd ∷ fds) =
      let later = show_each readable fds in
      if mem fd readable then (input 1024 (recv fd 1024) >>= after_recv later) else later

  unfoldable pub on_ready : Bool → ℕ → ℕ → Chat → List ℕ → M (Next Chat (Unit {0}))
  on_ready memory fuel sock chat readable = do
    chat' ← (if mem sock readable then take_message memory fuel sock chat else pure chat)
    show_each readable chat'.client_fds
    pure (again chat')

  unfoldable pub after_select : Bool → ℕ → ℕ → Chat → List ℕ → Option ℕ → M (Next Chat (Unit {0}))
  after_select memory fuel sock chat readable none = die
  after_select memory fuel sock chat readable (some _) = on_ready memory fuel sock chat readable

  unfoldable pub round : Bool → ℕ → ℕ → Chat → M (Next Chat (Unit {0}))
  round memory fuel sock chat = do
    r ← sys (select (sock ∷ chat.client_fds) [])
    after_select memory fuel sock chat r.readable r.result

  -- `stack` is what the memory of the table holds before `hash_table_init`.
  unfoldable pub after_bind : Bool → ℕ → Table → ℕ → ℕ → Option ℕ → M (Unit {0})
  after_bind memory fuel stack port sock none = die
  after_bind memory fuel stack port sock (some _) = do
    say "Chat server started on port %d\n" (int port ∷ [])
    loop fuel (round memory fuel sock) (record { table = hash_table_init stack; client_fds = [] })

  unfoldable pub with_socket : Bool → ℕ → Table → ℕ → Option ℕ → M (Unit {0})
  with_socket memory fuel stack port none = die
  with_socket memory fuel stack port (some sock) =
      number (bind sock (any_host port)) >>= after_bind memory fuel stack port sock

  unfoldable pub main : (Text → ℕ) → Bool → ℕ → Table → List Text → M (Unit {0})
  main atoi memory fuel stack (port ∷ []) =
      number (socket "AF_INET SOCK_DGRAM") >>= with_socket memory fuel stack (atoi port)
  main atoi memory fuel stack argv = do say "Usage: %s <port>\n" []; exit 1

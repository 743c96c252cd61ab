-- ===== src/Tests/Chats.antt =====
-- The chat room on concrete tables. Every address is "1", every port "9".
use study_linux_kernel.Base.{
  ℕ, ◌+◌, ◌≡◌, refl, [], ◌∷◌, true, arith, if◌then◌else◌, str_eq, none, length, replicate,
  length-replicate,
}
use study_linux_kernel.Base.Run.{ok}
use study_linux_kernel.Sys.Calls.{
  Text, Address, any_host, inet, answer, arrival, made, socket, connect,
}
use study_linux_kernel.Sys.Monad.{World, Outcome, done}
use study_linux_kernel.HashTable.Hash.{hash_size}
use study_linux_kernel.HashTable.Table.{Table, hash_table_init, hash_table_get}
use study_linux_kernel.HashTable.Iterator.{Context, hash_table_begin}
use study_linux_kernel.HashTable.Placed.{IsPlaced, init-IsPlaced, get-view, view}
use study_linux_kernel.HashTable.Put.{put-view}
use study_linux_kernel.HashTable.Traversal.{entries}
use study_linux_kernel.Sys.Loops.{Never, Ends}
use study_linux_kernel.Chatroom
use study_linux_kernel.Chatroom.Serving
use study_linux_kernel.Chatroom.Registry
use study_linux_kernel.Chatroom.{Chat, key_of, join, repeat_all}
use study_linux_kernel.Chatroom.Joining
use study_linux_kernel.Chatroom.Repeating
use study_linux_kernel.Chatroom.Repeating.{send_all}

abbrev one : Address → Text
one from = b'1' ∷ []

abbrev nine : Address → Text
nine from = b'9' ∷ []

abbrev back : Text → Text → Address
back ip port = inet ip 9

memory_of : Table
memory_of = record { buckets = replicate hash_size [] }

memory_of_width : length memory_of.buckets ≡ hash_size
unfolding memory_of
memory_of_width = length-replicate hash_size []

abbrev empty : Table
empty = hash_table_init memory_of

empty-IsPlaced : IsPlaced empty × ((key : Text) → view empty key ≡ none)
empty-IsPlaced = init-IsPlaced memory_of memory_of_width

empty_get : (key : Text) → hash_table_get empty key ≡ 0
empty_get key = rw (get-view, empty-IsPlaced.1 key) refl

abbrev enter : Chat → World → Outcome Chat
enter chat = join one nine back true chat (any_host 9)

join_again_example :
    (t : Table) × ((enter
          (record { table = empty; client_fds = [] })
          (record { replies = answer 4 ∷ answer 0 ∷ []; trace = []; errno = 0 })
        ≡ done
            (record { table = t; client_fds = 4 ∷ [] })
            (record {
              replies = [];
              trace =
                  made (connect 4 (any_host 9)) (answer 0)
                  ∷ made (socket "AF_INET SOCK_DGRAM") (answer 4)
                  ∷ [];
              errno = 0;
            }))
      × ((q : Text)
          → hash_table_get t q
            ≡ (if str_eq (key_of one nine back (any_host 9)) q then 4 else hash_table_get empty q))
      × ((w : World)
          → enter (record { table = t; client_fds = 4 ∷ [] }) w
            ≡ done (record { table = t; client_fds = 4 ∷ [] }) w))
join_again_example =
    Joining.join_again one nine back (record { table = empty; client_fds = [] }) (any_host 9)
      (answer 4) (answer 0) [] [] 0 3 0 empty-IsPlaced.0 (omega arith)
      (empty_get (key_of one nine back (any_host 9))) refl refl

-- The table with one client.
abbrev client : Text
client = b'1' ∷ b':' ∷ b'9' ∷ []

filled : Table
filled = (put-view empty client 4 empty-IsPlaced.0 true (omega arith)).0

filled_width : length filled.buckets ≡ hash_size
unfolding filled
filled_width = (put-view empty client 4 empty-IsPlaced.0 true (omega arith)).2.width

repeat_all-entries_example :
    (c : Context) × (hash_table_begin true filled ≡ ok c)
    × ((w : World)
        → repeat_all one nine back (length (entries filled.buckets) + 1) filled (b'h' ∷ []) c w
          ≡ send_all one nine back (b'h' ∷ []) (entries filled.buckets) w)
repeat_all-entries_example =
    Repeating.repeat_all-entries one nine back filled (b'h' ∷ [])
      (length (entries filled.buckets) + 1) filled_width (omega arith)

-- A client says "hi", joins, and gets its own message.
abbrev first_message : World
first_message = record {
  replies =
      answer 3
      ∷ answer 0
      ∷ record (answer 1) { readable = 3 ∷ [] }
      ∷ record (arrival (b'h' ∷ b'i' ∷ [])) { sender = any_host 9 }
      ∷ answer 4
      ∷ answer 0
      ∷ answer 5
      ∷ [];
  trace = [];
  errno = 0;
}

abbrev port_9 : Text → ℕ
port_9 text = 9

main-Kept_example :
    Ends Never Registry.stops
      (Chatroom.main one nine back port_9 true 101 memory_of ((b'9' ∷ []) ∷ []) first_message)
main-Kept_example =
    Serving.main-Kept one nine back port_9 true 101 memory_of ((b'9' ∷ []) ∷ []) first_message refl
      (omega arith) (omega arith) memory_of_width

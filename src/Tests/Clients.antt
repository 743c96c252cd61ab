-- ===== src/Tests/Clients.antt =====
-- The clients, the server on a path and the pipe against concrete replies.
use study_linux_kernel.Base.{true, refl, List, [], ◌∷◌, arith}
use study_linux_kernel.Sys.Calls.{Text, Reply, made, answer, failure, arrival, socket}
use study_linux_kernel.Sys.Monad.{World}
use study_linux_kernel.Sys.Loops.{Ends, loop}
use study_linux_kernel.Client.Select
use study_linux_kernel.Client.Select.Forwarding
use study_linux_kernel.Client.Tcp
use study_linux_kernel.Client.Tcp.Asking
use study_linux_kernel.Client.Stream
use study_linux_kernel.Client.Stream.Endless
use study_linux_kernel.Client.Local
use study_linux_kernel.Client.Local.Dialogue
use study_linux_kernel.Socket.LocalServer
use study_linux_kernel.Socket.LocalServer.Leaving
use study_linux_kernel.EpollReader
use study_linux_kernel.EpollReader.Parent as Reader
use study_linux_kernel.Pipe.Primer
use study_linux_kernel.Pipe.Primer.Child

abbrev hi : Text
hi = b'h' ∷ b'i' ∷ []

abbrev path : Text
path = b's' ∷ []

-- A socket is open as descriptor 3.
abbrev open_3 : List Reply → World
open_3 replies = record {
  replies = replies;
  trace = made (socket "AF_INET") (answer 3) ∷ [];
  errno = 0;
}

abbrev fresh : List Reply → World
fresh replies = record { replies = replies; trace = []; errno = 0 }

-- The terminal has "hi", the peer can be written to, and then `select` fails.
abbrev one_line : World
one_line = open_3 (
    answer 0
    ∷ answer 0
    ∷ answer 0
    ∷ answer 0
    ∷ answer 0
    ∷ record (answer 2) { readable = 0 ∷ []; writable = 3 ∷ [] }
    ∷ arrival hi
    ∷ answer 2
    ∷ failure 4
    ∷ answer 0
    ∷ [])

converse-Left_example : Ends (λ _ _. ⊥) (Forwarding.stops 3) (Select.converse 11 3 one_line)
converse-Left_example = Forwarding.converse-Left 3 11 one_line (omega arith) (tt, tt) refl

abbrev tcp_line : World
tcp_line = fresh (
    answer 3
    ∷ answer 0
    ∷ answer 0
    ∷ arrival hi
    ∷ answer 2
    ∷ arrival hi
    ∷ arrival (b'q' ∷ 10 ∷ [])
    ∷ answer 0
    ∷ [])

asking_example : Ends (λ _ _. ⊥) Asking.stops (Tcp.main (λ _. 80) 9 (path ∷ path ∷ []) tcp_line)
asking_example = Asking.main-Left (λ _. 80) 9 (path ∷ path ∷ []) tcp_line (omega arith) refl

abbrev stream_line : World
stream_line = open_3 (arrival hi ∷ answer 2 ∷ arrival hi ∷ [])

stay-Waits_example : Ends (λ _ _. ⊥) (Endless.stops 3) (Stream.stay 4 3 stream_line)
stay-Waits_example = Endless.stay-Waits 3 4 stream_line (omega arith) (tt, tt) refl

abbrev local_line : World
local_line = fresh (
    answer 0
    ∷ answer 3
    ∷ answer 0
    ∷ arrival hi
    ∷ answer 2
    ∷ arrival hi
    ∷ arrival hi
    ∷ failure 32
    ∷ answer 0
    ∷ [])

dialogue_example : Ends (λ _ _. ⊥) Dialogue.stops (Local.main 10 (path ∷ []) local_line)
dialogue_example = Dialogue.main-Gone 10 (path ∷ []) local_line (omega arith) refl

-- One connection that says "hi", and one that says nothing.
abbrev two_clients : World
two_clients = open_3 (answer 4 ∷ arrival hi ∷ answer 2 ∷ answer 0 ∷ answer 4 ∷ arrival [] ∷ [])

loop-Dropped_example :
    Ends (λ _. Leaving.Dropped 3) (Leaving.stops 3) (loop 7 (LocalServer.round 3) tt two_clients)
loop-Dropped_example =
    Leaving.loop-Dropped 3 7 two_clients (omega arith) (record { echo = (tt, tt); sockets = refl })

abbrev piped : World
piped = fresh (arrival hi ∷ answer 2 ∷ arrival [] ∷ answer 1 ∷ answer 0 ∷ [])

child_example : Ends (λ _ _. ⊥) (Child.stops 5) (Primer.copy_all 6 5 piped)
child_example = Child.copy_all-Flushed 5 6 piped (omega arith) (refl, refl)

-- A line is forwarded, and the pipe takes no other.
abbrev two_lines : World
two_lines = fresh (
    record (answer 1) { readable = 0 ∷ [] }
    ∷ answer 0
    ∷ answer 0
    ∷ arrival hi
    ∷ answer 2
    ∷ record (answer 1) { readable = 0 ∷ [] }
    ∷ answer 0
    ∷ answer 0
    ∷ arrival hi
    ∷ failure 32
    ∷ answer 0
    ∷ [])

-- The pipe has "hi", then nothing.
abbrev pipe_ready : World
pipe_ready =
    fresh
      (record (answer 1) { readable = 3 ∷ [] } ∷ arrival hi ∷ answer 2 ∷ answer 0 ∷ failure 11 ∷ [])

watch-Kept_example : Ends (λ _ _. ⊥) Reader.stops (EpollReader.watch true 6 5 pipe_ready)
watch-Kept_example = Reader.watch-Kept true 6 5 pipe_ready (omega arith) tt

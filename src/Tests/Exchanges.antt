-- ===== src/Tests/Exchanges.antt =====
-- Two processes that talk to each other, against concrete replies.
use study_linux_kernel.Base.{refl, List, [], ◌∷◌, ℕ, arith, c_string, take}
use study_linux_kernel.Sys.Calls.{Text, Reply, answer, arrival}
use study_linux_kernel.Sys.Monad.{World, string_in}
use study_linux_kernel.Sys.Loops.{loop}
use study_linux_kernel.Sys.Exchange.{
  Begins, any_fd, got_on, handed, joined, shown, filled, each, history,
}
use study_linux_kernel.Datagram.EchoServer
use study_linux_kernel.Datagram.EchoClient
use study_linux_kernel.Datagram.Echoing
use study_linux_kernel.Datagram.BaseServer
use study_linux_kernel.Datagram.LocalServer
use study_linux_kernel.Datagram.Returning
use study_linux_kernel.SocketPair
use study_linux_kernel.SocketPair.{uppered}
use study_linux_kernel.SocketPair.Child.{keyboard}
use study_linux_kernel.SocketPair.Shouting
use study_linux_kernel.Terminal.Epoll
use study_linux_kernel.Terminal.Epoll.Relaying

abbrev hi : Text
hi = b'h' ∷ b'i' ∷ []

abbrev fresh : List Reply → World
fresh rs = record { replies = rs; trace = []; errno = 0 }

abbrev seven : Text → ℕ
seven text = 7

-- The client has sent "hi" and heard it; the server waits for the next message.
abbrev echo_client : World
echo_client = fresh (answer 3 ∷ answer 0 ∷ answer 2 ∷ arrival hi ∷ answer 0 ∷ [])

abbrev echo_server : World
echo_server = fresh (answer 4 ∷ answer 0 ∷ arrival hi ∷ answer 2 ∷ [])

echo_exchange_example :
    Begins
      (shown (history (EchoClient.main seven ([] ∷ [] ∷ hi ∷ []) echo_client)))
      (each c_string (hi ∷ []))
unfolding EchoClient.main EchoClient.after_socket EchoClient.after_connect EchoClient.talk
    EchoClient.after_send EchoClient.on_reply EchoClient.finish_line EchoClient.leave
    EchoServer.main EchoServer.after_socket EchoServer.after_bind EchoServer.echo_all
    EchoServer.round EchoServer.on_message EchoServer.after_sendto string_in take loop c_string
echo_exchange_example =
    Echoing.echo_exchange seven [] [] hi [] ([] ∷ []) 5 echo_client echo_server refl refl
      (omega arith) (refl, tt) (refl, tt)

-- "hi" was typed, sent to the parent and came back.
abbrev typing_child : World
typing_child = fresh (answer 0 ∷ answer 9 ∷ arrival hi ∷ answer 2 ∷ arrival (b'H' ∷ b'I' ∷ []) ∷ [])

abbrev raising_parent : World
raising_parent = fresh (answer 0 ∷ answer 8 ∷ arrival hi ∷ answer 2 ∷ [])

shouting_example : Begins (shown (history (SocketPair.child 6 3 4 typing_child))) (
    each c_string
      (each uppered (filled (got_on keyboard (history (SocketPair.child 6 3 4 typing_child))))))
unfolding SocketPair.child SocketPair.ask_all loop SocketPair.ask_round SocketPair.on_typed take
    SocketPair.after_ask SocketPair.goes_on SocketPair.on_answer SocketPair.show_line string_in
    SocketPair.parent SocketPair.answer_all SocketPair.answer_round SocketPair.on_message
    SocketPair.strhelper_toupper uppered SocketPair.to_upper
shouting_example =
    Shouting.shouting 3 4 6 typing_child raising_parent refl refl (omega arith) (omega arith)
      (ground arith) (refl, tt) (refl, tt)

-- "hi" was typed and written to the pipe, and the parent has read it.
abbrev pipe_child : World
pipe_child = fresh (answer 0 ∷ arrival hi ∷ answer 2 ∷ [])

abbrev pipe_parent : World
pipe_parent = fresh (
    answer 0
    ∷ answer 5
    ∷ answer 0
    ∷ record (answer 1) { readable = 3 ∷ [] }
    ∷ arrival hi
    ∷ answer 2
    ∷ [])

relaying_example :
    Begins
      (joined (handed (history (Epoll.parent 7 3 4 pipe_parent))))
      (joined (got_on any_fd (history (Epoll.child 7 3 4 pipe_child))))
unfolding Epoll.parent Epoll.child Epoll.after_close Epoll.after_create Epoll.after_add loop
    Epoll.wait_round Epoll.on_ready Epoll.read_each take Epoll.on_bytes Epoll.type_all
    Epoll.type_round Epoll.on_typed Epoll.after_write
relaying_example =
    Relaying.relaying 7 3 4 pipe_child pipe_parent refl refl (omega arith) (omega arith)
      (refl, (refl, tt))

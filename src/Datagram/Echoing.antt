-- ===== src/Datagram/Echoing.antt =====
-- The client of study-linux-kernel/socket/echo_dgram_client.c at the server of echo_dgram_server.c.
use study_linux_kernel.Base.{ℕ, ◌<◌, ◌≡◌, refl, List, [], ◌∷◌, length, c_string, c_string_idem}
use study_linux_kernel.Sys.Calls.{Text}
use study_linux_kernel.Sys.Monad.{World}
use study_linux_kernel.Sys.Exchange.{
  sent_on, got_on, any_fd, shown, Begins, Begins-trans, Begins-each, each, history, history-Ends,
}
use study_linux_kernel.Datagram.EchoServer
use study_linux_kernel.Datagram.EchoServer.Repeating.{Repeats, main-Repeats}
use study_linux_kernel.Datagram.EchoClient
use study_linux_kernel.Datagram.EchoClient.Talking.{Talks, main-Talks}

each_idem : (ms : List Text) → each c_string (each c_string ms) ≡ each c_string ms
each_idem [] = refl
each_idem (m ∷ ms) = rw (c_string_idem m, each_idem ms) refl

-- From no history, with fuel above the number of the server's replies, for a client with an
-- address, a port and messages as its arguments, and where each process receives only what the
-- other has sent, whole and in its order: wherever the two have come, the client has shown the
-- first of its messages, in their order.
pub echo_exchange :
    (atoi : Text → ℕ) (host port m : Text) (ms argv : List Text) (fuel : ℕ) (wc ws : World)
    → wc.trace ≡ []
    → ws.trace ≡ []
    → length ws.replies < fuel
    → Begins
        (got_on any_fd (history (EchoClient.main atoi (host ∷ port ∷ m ∷ ms) wc)))
        (sent_on any_fd (history (EchoServer.main atoi fuel argv ws)))
    → Begins
        (got_on any_fd (history (EchoServer.main atoi fuel argv ws)))
        (sent_on any_fd (history (EchoClient.main atoi (host ∷ port ∷ m ∷ ms) wc)))
    → Begins
        (shown (history (EchoClient.main atoi (host ∷ port ∷ m ∷ ms) wc)))
        (each c_string (m ∷ ms))
echo_exchange atoi host port m ms argv fuel wc ws ec es f back forth =
    let client = history (EchoClient.main atoi (host ∷ port ∷ m ∷ ms) wc) in
    let server = history (EchoServer.main atoi fuel argv ws) in
    let talks =
      history-Ends (Talks (m ∷ ms)) (EchoClient.main atoi (host ∷ port ∷ m ∷ ms) wc)
        (main-Talks atoi host port m ms wc ec) in
    let repeats =
      history-Ends Repeats (EchoServer.main atoi fuel argv ws)
        (main-Repeats atoi fuel argv ws f es) in
    let whole : Begins (got_on any_fd client) (each c_string (m ∷ ms)) =
      Begins-trans _ _ _ back (Begins-trans _ _ _ repeats (Begins-trans _ _ _ forth talks.0)) in
    Begins-trans _ _ _ talks.1 (rw each_idem at (Begins-each c_string _ _ whole))

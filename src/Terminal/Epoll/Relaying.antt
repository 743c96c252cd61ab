-- ===== src/Terminal/Epoll/Relaying.antt =====
-- The two processes of study-linux-kernel/io-model/terminal-io-epoll.c together.
use study_linux_kernel.Base.{ℕ, ◌<◌, ◌≡◌, [], length}
use study_linux_kernel.Sys.Monad.{World}
use study_linux_kernel.Sys.Exchange.{
  sent_on, got_on, any_fd, handed, joined, joined-filled, Begins-joined, Begins, Begins-trans,
  history, history-Ends,
}
use study_linux_kernel.Datagram.EchoServer.Repeating.{Repeats}
use study_linux_kernel.Terminal.Epoll.{child, parent}
use study_linux_kernel.Terminal.Epoll.Typing.{child-Repeats}
use study_linux_kernel.Terminal.Epoll.Passing.{Passes, parent-Passes}

-- From no history, with fuel above the number of replies of each process, and where the parent
-- reads from the pipe a first part of the bytes that the child has written there: wherever the two
-- have come, the bytes that the parent has handed to `write` are a first part of those that the
-- child has read from the terminal.
pub relaying :
    (fuel src dst : ℕ) (wc wp : World)
    → wc.trace ≡ []
    → wp.trace ≡ []
    → length wc.replies < fuel
    → length wp.replies < fuel
    → Begins
        (joined (got_on any_fd (history (parent fuel src dst wp))))
        (joined (sent_on any_fd (history (child fuel src dst wc))))
    → Begins
        (joined (handed (history (parent fuel src dst wp))))
        (joined (got_on any_fd (history (child fuel src dst wc))))
relaying fuel src dst wc wp ec ep fc fp piped =
    let repeats =
      history-Ends Repeats (child fuel src dst wc) (child-Repeats fuel src dst wc fc ec) in
    let passes =
      history-Ends Passes (parent fuel src dst wp) (parent-Passes fuel src dst wp fp ep) in
    let out = rw joined-filled at (Begins-joined _ _ passes) in
    Begins-trans _ _ _ out (Begins-trans _ _ _ piped (Begins-joined _ _ repeats))

-- ===== src/SocketPair/Shouting.antt =====
-- The two processes of study-linux-kernel/socket/socket_unixdomain_pair.c together.
use study_linux_kernel.Base.{ℕ, ◌<◌, ◌≡◌, [], Bool, ◌==◌, length, c_string, arith}
use study_linux_kernel.Sys.Monad.{World}
use study_linux_kernel.Sys.Exchange.{
  sent_on, got_on, shown, filled, Begins, Begins-trans, Begins-each, each, history, history-Ends,
}
use study_linux_kernel.SocketPair.{uppered, child, parent}
use study_linux_kernel.SocketPair.Parent.{Answers, parent-Answers}
use study_linux_kernel.SocketPair.Child.{keyboard, Talks, child-Talks}

abbrev pub on : ℕ → ℕ → Bool
on fd f = f == fd

-- From no history, with fuel above the number of replies of each process, where the child's socket
-- is not descriptor 0, and each process receives on its socket only what the other has sent, whole
-- and in its order: wherever the two have come, the child has shown the first of the messages
-- typed, those that are not empty, raised and up to their first NUL.
pub shouting :
    (a b fuel : ℕ) (wc wp : World)
    → wc.trace ≡ []
    → wp.trace ≡ []
    → length wc.replies < fuel
    → length wp.replies < fuel
    → ¬ (b ≡ 0)
    → Begins
        (got_on (on b) (history (child fuel a b wc)))
        (sent_on (on a) (history (parent fuel a b wp)))
    → Begins
        (got_on (on a) (history (parent fuel a b wp)))
        (sent_on (on b) (history (child fuel a b wc)))
    → Begins
        (shown (history (child fuel a b wc)))
        (each c_string (each uppered (filled (got_on keyboard (history (child fuel a b wc))))))
shouting a b fuel wc wp ec ep fc fp apart back forth =
    let talks =
      history-Ends (Talks (on b)) (child fuel a b wc)
        (child-Talks (on b) b (ground arith) (ground arith) (ground arith) fuel a wc fc ec) in
    let answers =
      history-Ends (Answers (on a)) (parent fuel a b wp)
        (parent-Answers (on a) a (ground arith) fuel b wp fp ep) in
    let answered =
      Begins-trans _ _ _ answers (Begins-each uppered _ _ (Begins-trans _ _ _ forth talks.0)) in
    Begins-trans _ _ _ talks.1 (Begins-each c_string _ _ (Begins-trans _ _ _ back answered))

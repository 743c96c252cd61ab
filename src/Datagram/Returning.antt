-- ===== src/Datagram/Returning.antt =====
-- Where the datagram servers of study-linux-kernel/socket/ send: echo_dgram_server.c,
-- socket_dgram_base_server_v1.c and socket_unixdomain_dgram_server.c.
use study_linux_kernel.Base.{ℕ, ◌<◌, ◌≡◌, [], ◌∷◌, Option, none, some, length}
use study_linux_kernel.Sys.Calls.{
  Call, Text, Trace, Address, made, printed, received, recvfrom, sendto,
}
use study_linux_kernel.Sys.Monad.{World, M}
use study_linux_kernel.Sys.Loops.{Stops, Next, Ends, Round}
use study_linux_kernel.Sys.Traces.{Always}
use study_linux_kernel.Datagram.EchoServer
use study_linux_kernel.Datagram.BaseServer
use study_linux_kernel.Datagram.Names
use study_linux_kernel.Datagram.LocalServer

-- The newest message received, with its sender.
abbrev with_sender : Option Text → Address → Option (Text × Address)
with_sender none from = none
with_sender (some m) from = some (m, from)

abbrev pub last_from : Trace → Option (Text × Address)
last_from [] = none
last_from (printed format args ∷ past) = last_from past
last_from (made (recvfrom fd n) r ∷ past) = with_sender (received n r) r.sender
last_from (made c r ∷ past) = last_from past

-- A message goes back whole to the one that it came from, before the next is received.
abbrev pub Back : Call → Trace → Type 0
Back (sendto fd m to) past = last_from past ≡ some (m, to)
Back c past = Unit {0}

abbrev pub stops : Stops
stops = record {
  status = λ n w. Always Back w.trace;
  waits = λ w. Always Back w.trace;
  faults = λ e w. Always Back w.trace;
}

abbrev Kept : Unit {0} → World → Type 0
Kept _ w = Always Back w.trace

-- What each server does with a message.
abbrev Answering : (ℕ → Address → Option Text → M (Next (Unit {0}) (Unit {0}))) → Type 0
Answering on_message =
    (sock : ℕ) (from : Address) (got : Option Text) (w₀ w : World)
    → length w.replies < length w₀.replies
    → Always Back w.trace
    → last_from w.trace ≡ with_sender got from
    → Ends (Round Kept Kept w₀) stops (on_message sock from got w)

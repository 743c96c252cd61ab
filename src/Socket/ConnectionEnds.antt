-- ===== src/Socket/ConnectionEnds.antt =====
-- The end of a connection in study-linux-kernel/socket/socket-server-tcp-mt.c and
-- study-linux-kernel/socket/socket-server-tcp-mp.c.
use Prim.Native.String.{String}
use study_linux_kernel.Base.{ℕ, ◌<◌, ◌≡◌, [], false, length, arith}
use study_linux_kernel.Sys.Monad.{World}
use study_linux_kernel.Sys.Loops.{Ends, loop, loop-Ends, bind-Ends}
use study_linux_kernel.Sys.Traces.{Always, Guarded, locked, held}
use study_linux_kernel.Socket.Worker.{talk}
use study_linux_kernel.Socket.Worker.Relay.{Relays, Talks, stops, talk-Talks}
use study_linux_kernel.Socket.ThreadServer.{thread_func}
use study_linux_kernel.Socket.ForkServer.{process_connection}

abbrev thread_line : String
thread_line = "[%lu] send %d bytes msg: %s\n"

abbrev process_line : String
process_line = "[%d] send %d bytes msg: %s\n"

-- The connection was closed, and nothing else is open.
pub record Closed (w : World) : Type 0 where
  pub free : locked w.trace ≡ false
  pub guarded : Always Guarded w.trace
  pub relayed : Always Relays w.trace
  pub closed : held w.trace ≡ []

-- A thread with fuel above the number of replies ends, waits in a call, or reads past the end of its
-- array; it does the last only where the last that it received from its peer, or the last line from
-- the terminal, is 1024 bytes without a NUL, and then the mutex is free. It takes the mutex only when it is free of it and gives it back before it does anything but read the
-- terminal; it sends only the C string of the last line that it read there; when it ends, its
-- connection is closed and the mutex free.
pub thread_func-Closed :
    (self sock fuel : ℕ) (w : World)
    → length w.replies < fuel
    → Talks sock w
    → Ends (λ _. Closed) (stops sock) (thread_func fuel self sock w)
unfolding thread_func
thread_func-Closed self sock fuel w f h =
    bind-Ends (λ _. Talks sock) (λ _. Closed) (stops sock)
      (loop fuel (talk thread_line self sock) tt) _ w
      (loop-Ends (λ _. Talks sock) (λ _. Talks sock) (stops sock) (talk thread_line self sock)
        (λ _. talk-Talks thread_line self sock) fuel tt w f h)
      (λ _ w' t. ground arith)

-- The same of the process that serves a connection, which ends with the answer 0.
pub process_connection-Closed :
    (sock fuel : ℕ) (w : World)
    → length w.replies < fuel
    → Talks sock w
    → Ends (λ n w'. (n ≡ 0) × Closed w') (stops sock) (process_connection fuel sock w)
unfolding process_connection
process_connection-Closed sock fuel w f h =
    bind-Ends (λ _. Talks sock) (λ n w'. (n ≡ 0) × Closed w') (stops sock)
      (loop fuel (talk process_line sock sock) tt) _ w
      (loop-Ends (λ _. Talks sock) (λ _. Talks sock) (stops sock) (talk process_line sock sock)
        (λ _. talk-Talks process_line sock sock) fuel tt w f h)
      (λ _ w' t. ground arith)

-- ===== src/Datagram/Asking.antt =====
-- What the datagram clients of study-linux-kernel/socket/ send: socket_dgram_base_client_v1.c and
-- socket_unixdomain_dgram_client.c.
use study_linux_kernel.Base.{
  ℕ, ◌<◌, ◌≡◌, refl, ap, List, [], ◌∷◌, Option, none, some, length, arith, c_string,
}
use study_linux_kernel.Sys.Calls.{
  Call, Text, Trace, Reply, printed, str, error, received, socket, bind, sendto, close,
}
use study_linux_kernel.Sys.Monad.{World, exit}
use study_linux_kernel.Sys.Loops.{Stops, Ends, Round, loop, loop-Ends, bind-Ends}
use study_linux_kernel.Sys.Steps.{number-Ends, run-Ends}
use study_linux_kernel.Sys.Traces.{Always}
use study_linux_kernel.Datagram.Names
use study_linux_kernel.Datagram.LocalClient
use study_linux_kernel.Sys.Traces.{typed}
use study_linux_kernel.Sys.Steps.{input-Ends}
use study_linux_kernel.Datagram.BaseClient
use study_linux_kernel.Sys.Calls.{inet, connect, send, read}

-- A message is the line that was typed last, and not empty.
abbrev pub IsLine : Text → Option Text → Type 0
IsLine [] got = ⊥
IsLine (b ∷ bs) got = got ≡ some (b ∷ bs)

abbrev pub Asks : Call → Trace → Type 0
Asks (send fd m) past = IsLine m (typed past)
Asks (sendto fd m to) past = IsLine m (typed past)
Asks c past = Unit {0}

abbrev pub stops : Stops
stops = record {
  status = λ n w. Always Asks w.trace;
  waits = λ w. Always Asks w.trace;
  faults = λ e w. Always Asks w.trace;
}

abbrev Kept : Unit {0} → World → Type 0
Kept _ w = Always Asks w.trace

base_typed-Asks :
    (sock port : ℕ) (host : Text) (got : Option Text) (w₀ w : World)
    → length w.replies < length w₀.replies
    → Always Asks w.trace
    → typed w.trace ≡ got
    → Ends (Round Kept Kept w₀) stops (BaseClient.on_typed sock host port got w)
unfolding BaseClient.on_typed BaseClient.after_send BaseClient.on_reply BaseClient.retry
base_typed-Asks sock port host none w₀ w less h e = ground arith
base_typed-Asks sock port host (some []) w₀ w less h e = ground arith
base_typed-Asks sock port host (some (b ∷ bs)) w₀ w less h e = ground arith

local_typed-Asks :
    (sock : ℕ) (server : Text) (got : Option Text) (w₀ w : World)
    → length w.replies < length w₀.replies
    → Always Asks w.trace
    → typed w.trace ≡ got
    → Ends (Round Kept Kept w₀) stops (LocalClient.on_typed sock server got w)
unfolding LocalClient.on_typed LocalClient.after_sendto LocalClient.hear LocalClient.on_reply
local_typed-Asks sock server none w₀ w less h e = ground arith
local_typed-Asks sock server (some []) w₀ w less h e = ground arith
local_typed-Asks sock server (some (b ∷ bs)) w₀ w less h e = ground arith

module _ (fuel : ℕ) where
  base_round-Asks :
      (sock port : ℕ) (host : Text) (w : World)
      → Kept tt w
      → Ends (Round Kept Kept w) stops (BaseClient.round sock host port tt w)
  unfolding BaseClient.round
  base_round-Asks sock port host w h =
      input-Ends (Round Kept Kept w) stops (read 0 1024) 1024 (BaseClient.on_typed sock host port)
        (record w { trace = printed "please input any character: " [] ∷ w.trace }) h
        (λ r rest e.
          base_typed-Asks sock port host (received 1024 r) w _
            (omega (arith, ap (λ (l : List Reply). length l) e)) (tt, h) refl)

  local_round-Asks :
      (sock : ℕ) (server : Text) (w : World)
      → Kept tt w
      → Ends (Round Kept Kept w) stops (LocalClient.round sock server tt w)
  unfolding LocalClient.round
  local_round-Asks sock server w h =
      input-Ends (Round Kept Kept w) stops (read 0 1024) 1024 (LocalClient.on_typed sock server)
        (record w { trace = printed "Please input msg:" [] ∷ w.trace }) h
        (λ r rest e.
          local_typed-Asks sock server (received 1024 r) w _
            (omega (arith, ap (λ (l : List Reply). length l) e)) (tt, h) refl)

  base_connect-Asks :
      (sock port : ℕ) (host : Text) (o : Option ℕ) (w : World)
      → length w.replies < fuel
      → Kept tt w
      → Ends Kept stops (BaseClient.after_connect fuel sock host port o w)
  unfolding BaseClient.after_connect
  base_connect-Asks sock port host none w f h =
      run-Ends Kept stops (close sock) (exit 1)
        (record w { trace = printed "call connect failed: %s.\n" (error ∷ []) ∷ w.trace }) h
        (λ r rest e. (tt, h))
  base_connect-Asks sock port host (some n) w f h =
      loop-Ends Kept Kept stops (BaseClient.round sock host port)
        (λ _. base_round-Asks sock port host) fuel tt w f h

  base_socket-Asks :
      (port : ℕ) (host : Text) (o : Option ℕ) (w : World)
      → length w.replies < fuel
      → Kept tt w
      → Ends Kept stops (BaseClient.after_socket fuel host port o w)
  unfolding BaseClient.after_socket
  base_socket-Asks port host none w f h = h
  base_socket-Asks port host (some sock) w f h =
      number-Ends Kept stops (connect sock (inet host port)) _ w h (λ r rest e.
        base_connect-Asks sock port host r.result _
          (omega (arith, f, ap (λ (l : List Reply). length l) e)) (tt, h))

  local_leave-Asks : (sock : ℕ) (w : World) → Kept tt w → Ends Kept stops (Names.leave sock w)
  unfolding Names.leave
  local_leave-Asks sock w h =
      run-Ends Kept stops (close sock) (exit 0)
        (record w { trace = printed "exit: %s\n" (error ∷ []) ∷ w.trace }) h (λ r rest e. (tt, h))

  local_bind-Asks :
      (sock : ℕ) (server text : Text) (o : Option ℕ) (w : World)
      → length w.replies < fuel
      → Kept tt w
      → Ends Kept stops (LocalClient.after_bind fuel sock server text o w)
  unfolding LocalClient.after_bind
  local_bind-Asks sock server text none w f h = local_leave-Asks sock w h
  local_bind-Asks sock server text (some n) w f h =
      let v : World = record w {
        trace = printed "bind to %s...\n" (str (c_string text) ∷ []) ∷ w.trace;
      } in
      bind-Ends Kept Kept stops (loop fuel (LocalClient.round sock server) tt)
        (λ _. Names.leave sock) v
        (loop-Ends Kept Kept stops (LocalClient.round sock server)
          (λ _. local_round-Asks sock server) fuel tt v f h)
        (λ _. local_leave-Asks sock)

  local_socket-Asks :
      (server name text : Text) (o : Option ℕ) (w : World)
      → length w.replies < fuel
      → Kept tt w
      → Ends Kept stops (LocalClient.after_socket fuel server name text o w)
  unfolding LocalClient.after_socket
  local_socket-Asks server name text none w f h = h
  local_socket-Asks server name text (some sock) w f h =
      number-Ends Kept stops (bind sock (Names.path_of name)) _
        (record w { trace = printed "UNIX domain use abstract name.\n" [] ∷ w.trace }) h
        (λ r rest e.
          local_bind-Asks sock server text r.result _
            (omega (arith, f, ap (λ (l : List Reply). length l) e)) (tt, h))

  base_main-Asks :
      (atoi : Text → ℕ) (argv : List Text) (w : World)
      → length w.replies < fuel
      → Kept tt w
      → Ends Kept stops (BaseClient.main atoi fuel argv w)
  unfolding BaseClient.main
  base_main-Asks atoi [] w f h = h
  base_main-Asks atoi (host ∷ []) w f h = h
  base_main-Asks atoi (host ∷ port ∷ []) w f h =
      number-Ends Kept stops (socket "AF_INET SOCK_DGRAM IPPROTO_UDP") _ w h (λ r rest e.
        base_socket-Asks (atoi port) host r.result _
          (omega (arith, f, ap (λ (l : List Reply). length l) e)) (tt, h))
  base_main-Asks atoi (host ∷ port ∷ next ∷ more) w f h = h

  -- From no history, with fuel above the number of replies, and whatever the environment answers, the two
  -- clients are out of fuel nowhere, and each message that they send is the line that was typed last, and
  -- not empty; the client with abstract names from where it has stored its names on.
  pub clients-Asks :
      (atoi : Text → ℕ) (argv : List Text) (server name text : Text) (o : Option ℕ) (w : World)
      → length w.replies < fuel
      → w.trace ≡ []
      → Ends Kept stops (BaseClient.main atoi fuel argv w)
        × Ends Kept stops (LocalClient.after_socket fuel server name text o w)
  clients-Asks atoi argv server name text o w f e =
      (base_main-Asks atoi argv w f (rw e tt), local_socket-Asks server name text o w f (rw e tt))

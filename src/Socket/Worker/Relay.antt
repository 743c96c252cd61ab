-- ===== src/Socket/Worker/Relay.antt =====
-- What a connection's loop keeps in study-linux-kernel/socket/socket-server-tcp-mt.c and -mp.c, and
-- its end.
use Prim.Native.String.{String}
use study_linux_kernel.Base.{ℕ, ◌<◌, ◌≡◌, ◌⊎◌, [], ◌∷◌, some, false, length, arith, c_string}
use study_linux_kernel.Base.Run.{Fault, out_of_bounds}
use study_linux_kernel.Sys.Calls.{Text, Trace, Call, send}
use study_linux_kernel.Sys.Monad.{World, string_in}
use study_linux_kernel.Sys.Loops.{Stops, Ends, Round}
use study_linux_kernel.Sys.Traces.{Always, Guarded, Unterminated, heard, locked, typed, held}
use study_linux_kernel.Socket.Worker.{forward, ask, talk}

-- A `send` carries the C string of the last line from the terminal.
abbrev pub Relays : Call → Trace → Type 0
Relays (send fd bytes) past = (line : Text) × (typed past ≡ some line) × (bytes ≡ c_string line)
Relays c past = Unit {0}

-- The mutex is free, the connection is open, and all calls so far kept the rules.
pub record Talks (sock : ℕ) (w : World) : Type 0 where
  pub free : locked w.trace ≡ false
  pub guarded : Always Guarded w.trace
  pub relayed : Always Relays w.trace
  pub open_sock : held w.trace ≡ sock ∷ []

pub record Waits (w : World) : Type 0 where
  pub guarded : Always Guarded w.trace
  pub relayed : Always Relays w.trace

-- What the peer has sent last, or the last line from the terminal, has no end inside its array.
pub record Overruns (sock : ℕ) (e : Fault) (w : World) : Type 0 where
  pub kind : e ≡ out_of_bounds
  pub guarded : Always Guarded w.trace
  pub free : locked w.trace ≡ false
  pub endless : Unterminated (heard sock w.trace) ⊎ Unterminated (typed w.trace)

abbrev pub stops : ℕ → Stops
stops sock = record { status = λ _ _. ⊥; waits = Waits; faults = Overruns sock }

-- Behind `unlock`.
forward-Talks :
    (format : String) (self sock : ℕ) (line : Text) (w₀ w : World)
    → length w.replies < length w₀.replies
    → Talks sock w
    → typed w.trace ≡ some line
    → Ends
        (Round (λ _. Talks sock) (λ _. Talks sock) w₀)
        (stops sock)
        (forward format self sock line w)
unfolding forward string_in
forward-Talks format self sock line w₀ w less h e = ground arith

ask-Talks :
    (format : String) (self sock : ℕ) (msg : Text) (w₀ w : World)
    → length w.replies < length w₀.replies
    → Talks sock w
    → heard sock w.trace ≡ some msg
    → Ends (Round (λ _. Talks sock) (λ _. Talks sock) w₀) (stops sock) (ask format self sock msg w)
unfolding ask string_in
ask-Talks format self sock msg w₀ w less h m = grind (arith, forward-Talks)

pub talk-Talks :
    (format : String) (self sock : ℕ) (w : World)
    → Talks sock w
    → Ends (Round (λ _. Talks sock) (λ _. Talks sock) w) (stops sock) (talk format self sock tt w)
unfolding talk
talk-Talks format self sock w h = grind (arith, ask-Talks)

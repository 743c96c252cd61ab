-- ===== src/Client/Select/Forwarding.antt =====
-- What study-linux-kernel/socket/socket-client-tcp-select.c sends.
use study_linux_kernel.Base.{
  ℕ, ◌<◌, ◌≤◌, ◌≡◌, List, [], ◌∷◌, Option, none, some, Bool, true, ◌&&◌, Bool-cases, ltb, length,
  mem, arith, inl, inr,
}
use study_linux_kernel.Base.Run.{Fault, out_of_bounds}
use study_linux_kernel.Sys.Calls.{
  Text, Trace, Call, Reply, made, printed, send, select, read, close,
}
use study_linux_kernel.Sys.Monad.{World, string_in, input, run, exit, ◌>>=◌, ◌>>◌}
use study_linux_kernel.Sys.Loops.{Stops, Ends, Round, loop, loop-Ends, bind-Ends, if-Ends}
use study_linux_kernel.Sys.Traces.{Always, Unterminated, heard, typed, held}
use study_linux_kernel.Socket.Worker.{is_quit}
use study_linux_kernel.Client.Select.{
  send_line, from_terminal, terminal_part, from_peer, peer_part, leave_if, exchange, round, stay,
  converse,
}

-- What the newest `select` found writable.
abbrev pub writable_now : Trace → List ℕ
writable_now [] = []
writable_now (printed format args ∷ past) = writable_now past
writable_now (made (select rs ws) r ∷ past) = r.writable
writable_now (made c r ∷ past) = writable_now past

-- A line is sent as it was read from the terminal, and only where `send` does not block.
abbrev pub Forwards : Call → Trace → Type 0
Forwards (send fd line) past = (typed past ≡ some line) × (mem fd (writable_now past) ≡ true)
Forwards c past = Unit {0}

module _ (sock : ℕ) where
  record Talks (w : World) : Type 0 where
    lines : Always Forwards w.trace
    open_sock : held w.trace ≡ sock ∷ []

  -- Within a round, in which at most `n` replies are left.
  record Talking (n : ℕ) (ready : Reply) (w : World) : Type 0 where
    talks : Talks w
    few : length w.replies ≤ n
    ready_now : writable_now w.trace ≡ ready.writable

  pub record Left (n : ℕ) (w : World) : Type 0 where
    pub lines : Always Forwards w.trace
    pub closed : held w.trace ≡ []

  -- What the peer has sent last has no end inside the array that it is printed from.
  pub record Overreads (e : Fault) (w : World) : Type 0 where
    pub kind : e ≡ out_of_bounds
    pub lines : Always Forwards w.trace
    pub endless : Unterminated (heard sock w.trace)

  abbrev pub stops : Stops
  stops = record { status = Left; waits = λ w. Always Forwards w.trace; faults = Overreads }

  abbrev Kept : ℕ → Reply → Bool → World → Type 0
  Kept n ready _ w = Talking n ready w

  send_line-Talking :
      (n : ℕ) (ready : Reply) (line : Text) (w : World)
      → Talking n ready w
      → typed w.trace ≡ some line
      → mem sock ready.writable ≡ true
      → Ends (Kept n ready) stops (send_line sock line w)
  unfolding send_line
  send_line-Talking n ready line w h t m = ground arith

  from_terminal-Talking :
      (n : ℕ) (ready : Reply) (line : Option Text) (w : World)
      → Talking n ready w
      → typed w.trace ≡ line
      → Ends (Kept n ready) stops (from_terminal sock ready.writable line w)
  unfolding from_terminal
  from_terminal-Talking n ready none w h t = h
  from_terminal-Talking n ready (some line) w h t =
      if-Ends (Kept n ready) stops (is_quit line) _ _ w h
        (elim (Bool-cases (ltb 0 (length line) && mem sock ready.writable)) [
          | inl b ↦ rw b (send_line-Talking n ready line w h t (ground arith))
          | inr b ↦ rw b h
        ])

  terminal_part-Talking :
      (n : ℕ) (ready : Reply) (w : World)
      → Talking n ready w
      → Ends (Kept n ready) stops (terminal_part sock ready w)
  unfolding terminal_part
  terminal_part-Talking n ready w h = elim (Bool-cases (mem 0 ready.readable)) [
    | inl b ↦ rw b (
        bind-Ends (λ line v. Talking n ready v × (typed v.trace ≡ line)) (Kept n ready) stops
          (input 1024 (read 0 1024)) (from_terminal sock ready.writable) w (ground arith)
          (λ line v k. from_terminal-Talking n ready line v k.0 k.1))
    | inr b ↦ rw b h
  ]

  peer_part-Talking :
      (n : ℕ) (ready : Reply) (quit : Bool) (w : World)
      → Talking n ready w
      → Ends (Kept n ready) stops (peer_part sock ready quit w)
  unfolding peer_part from_peer string_in
  peer_part-Talking n ready quit w h = ground arith

  exchange-Talks :
      (ready : Reply) (w₀ w : World)
      → Talking (length w.replies) ready w
      → length w.replies < length w₀.replies
      → Ends (Round (λ _. Talks) (λ _. Talks) w₀) stops (exchange sock ready w)
  unfolding exchange leave_if
  exchange-Talks ready w₀ w h less =
      let n = length w.replies in
      bind-Ends (Kept n ready) (Round (λ _. Talks) (λ _. Talks) w₀) stops (terminal_part sock ready)
        (λ quit. peer_part sock ready quit >>= leave_if) w (terminal_part-Talking n ready w h)
        (λ quit v k.
          bind-Ends (Kept n ready) (Round (λ _. Talks) (λ _. Talks) w₀) stops
            (peer_part sock ready quit) leave_if v (peer_part-Talking n ready quit v k)
            (λ quit' v' k'. ground arith))

  round-Talks :
      (w : World) → Talks w → Ends (Round (λ _. Talks) (λ _. Talks) w) stops (round sock tt w)
  unfolding round
  round-Talks w h = grind (arith, exchange-Talks)

  stay-Left :
      (fuel : ℕ) (w : World)
      → length w.replies < fuel
      → Talks w
      → Ends (λ _ _. ⊥) stops (stay fuel sock w)
  unfolding stay
  stay-Left fuel w f h =
      bind-Ends (λ _. Talks) (λ _ _. ⊥) stops (loop fuel (round sock) tt)
        (λ _. run (close sock) >> exit 0) w
        (loop-Ends (λ _. Talks) (λ _. Talks) stops (round sock) (λ _. round-Talks) fuel tt w f h)
        (λ _ v k. ground arith)

  -- Behind `connect`, and whatever the environment answers, with fuel above the number of replies the
  -- client ends with its socket closed, waits in a call, or prints what it received past the end of
  -- its array; it does the last only where the newest `recv` stored 1024 bytes without a NUL. Each
  -- `send` carries what was read last from the terminal, and is made only where the newest `select`
  -- found the socket writable.
  pub converse-Left :
      (fuel : ℕ) (w : World)
      → length w.replies < fuel
      → Always Forwards w.trace
      → held w.trace ≡ sock ∷ []
      → Ends (λ _ _. ⊥) stops (converse fuel sock w)
  unfolding converse
  converse-Left fuel w f l o = grind (arith, stay-Left)

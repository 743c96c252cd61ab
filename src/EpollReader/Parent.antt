-- ===== src/EpollReader/Parent.antt =====
-- The reader of study-linux-kernel/io-model/terminal-io-epoll-et.c.
use study_linux_kernel.Base.{
  ℕ, zero, suc, ◌+◌, ◌<◌, ◌≤◌, ◌≡◌, refl, Option, Bool, Bool-cases, ltb, length, inl, inr, arith,
}
use study_linux_kernel.Base.Run.{Run, ok, fault}
use study_linux_kernel.Sys.Calls.{Reply, read, received}
use study_linux_kernel.Sys.Monad.{World, exit, lift, sys, pure}
use study_linux_kernel.Sys.Loops.{Stops, Ends, Round, loop, loop-Ends, bind-Ends, lift-Ends, again}
use study_linux_kernel.Sys.Traces.{Always, typed}
use study_linux_kernel.Client.Local.Dialogue.{Repeats}
use study_linux_kernel.ReadyList.Defs.{
  Event, ReadyFds, at, shrink, remove_known, remove_file_descriptor,
}
use study_linux_kernel.EpollReader.{
  add_all, events_of, on_read, read_event, read_at, read_each, serve, round, watch, no_events,
}

abbrev pub stops : Stops
stops = record {
  status = λ n w. (n ≡ 0) × Always Repeats w.trace;
  waits = λ w. Always Repeats w.trace;
  faults = λ _ w. Always Repeats w.trace;
}

abbrev NoLonger : ℕ → Run (Option ℕ × ReadyFds) → Type 0
NoLonger n (ok r) = r.1.size ≤ n
NoLonger n (fault e) = Unit {0}

-- `remove` does not lengthen the list.
remove_file_descriptor-NoLonger :
    (memory : Bool) (l : ReadyFds) (e : Event) → NoLonger l.size (remove_file_descriptor memory l e)
unfolding remove_file_descriptor remove_known shrink
remove_file_descriptor-NoLonger memory l e = ground arith

-- At most `n` replies and `k` events are left.
record Reading (n k : ℕ) (l : ReadyFds) (w : World) : Type 0 where
  few : length w.replies ≤ n
  short : l.size ≤ k
  echo : Always Repeats w.trace

on_read-Reading :
    (memory : Bool) (n k : ℕ) (l : ReadyFds) (e : Event) (r : Reply) (w : World)
    → Reading n k l w
    → typed w.trace ≡ received 4 r
    → Ends (Reading n k) stops (on_read memory l e r w)
unfolding on_read
on_read-Reading memory n k l e r w h t = ground (arith, remove_file_descriptor-NoLonger memory l e)

read_event-Reading :
    (memory : Bool) (n k : ℕ) (l : ReadyFds) (e : Event) (w : World)
    → Reading n k l w
    → Ends (Reading n k) stops (read_event memory l e w)
unfolding read_event
read_event-Reading memory n k l e w h =
    bind-Ends (λ r v. Reading n k l v × (typed v.trace ≡ received 4 r)) (Reading n k) stops
      (sys (read e.fd 4)) _ w (ground arith)
      (λ r v k'.
        on_read-Reading memory n k l e r _
          (record { few = k'.0.few; short = k'.0.short; echo = k'.0.echo }) k'.1)

read_at-Reading :
    (memory : Bool) (n k i : ℕ) (l : ReadyFds) (w : World)
    → Reading n k l w
    → Ends (Reading n k) stops (read_at memory i l w)
unfolding read_at
read_at-Reading memory n k i l w h =
    bind-Ends (λ _. Reading n k l) (Reading n k) stops (lift (at l.ep_events i))
      (read_event memory l) w (lift-Ends (Reading n k l) stops (at l.ep_events i) w h (λ _. h.echo))
      (λ e v. read_event-Reading memory n k l e v)

read_each-Reading :
    (memory : Bool) (n k fuel i : ℕ) (l : ReadyFds) (w : World)
    → Reading n k l w
    → i ≤ k
    → k < fuel + i
    → Ends
        (λ l' w'. (length w'.replies ≤ n) × Always Repeats w'.trace)
        stops
        (read_each memory fuel i l w)
unfolding read_each
read_each-Reading memory n k zero i l w h b f = absurd (omega arith)
read_each-Reading memory n k (suc fuel) i l w h le f = elim (Bool-cases (ltb i l.size)) [
  | inl b ↦ rw b (
      bind-Ends (Reading n k) _ stops (read_at memory i l) (read_each memory fuel (suc i)) w
        (read_at-Reading memory n k i l w h)
        (λ l' w' h'.
          read_each-Reading memory n k fuel (suc i) l' w' h' (ground (arith, h.short))
            (omega arith)))
  | inr b ↦ rw b (h.few, h.echo)
]

serve-Kept :
    (memory : Bool) (ready : Reply) (l : ReadyFds) (w₀ w : World)
    → length w.replies < length w₀.replies
    → Always Repeats w.trace
    → Ends
        (Round (λ _ w'. Always Repeats w'.trace) (λ _ w'. Always Repeats w'.trace) w₀)
        stops
        (serve memory ready l w)
unfolding serve
serve-Kept memory ready l w₀ w less h =
    bind-Ends (λ _ v. (length v.replies ≤ length w.replies) × Always Repeats v.trace) _ stops
      (lift (add_all memory (events_of ready) l)) _ w
      (lift-Ends _ stops (add_all memory (events_of ready) l) w (omega arith, h) (λ _. h))
      (λ l' v k.
        bind-Ends (λ _ v'. (length v'.replies ≤ length w.replies) × Always Repeats v'.trace) _ stops
          (read_each memory (l'.size + 1) 0 l') (λ l''. pure (again l'')) v
          (read_each-Reading memory (length w.replies) l'.size (l'.size + 1) 0 l' v
            (record { few = k.0; short = omega arith; echo = k.1 }) (omega arith) (omega arith))
          (λ l'' v' k'. (k'.1, omega (arith, k'.0, less))))

round-Kept :
    (memory : Bool) (epoll : ℕ) (l : ReadyFds) (w : World)
    → Always Repeats w.trace
    → Ends
        (Round (λ _ w'. Always Repeats w'.trace) (λ _ w'. Always Repeats w'.trace) w)
        stops
        (round memory epoll l w)
unfolding round
round-Kept memory epoll l w h = grind (arith, serve-Kept)

-- Whatever the environment answers, and whether there is memory or not, the reader ends with 0 or
-- waits in a call, or does something that C leaves undefined; it is out of fuel nowhere, so neither
-- loop over the list goes on for ever while descriptors are removed from it. Until then each `write`
-- carries the bytes that the `read` before it stored.
pub watch-Kept :
    (memory : Bool) (fuel epoll : ℕ) (w : World)
    → length w.replies < fuel
    → Always Repeats w.trace
    → Ends (λ _ _. ⊥) stops (watch memory fuel epoll w)
unfolding watch
watch-Kept memory fuel epoll w f h =
    bind-Ends (λ _ v. Always Repeats v.trace) (λ _ _. ⊥) stops
      (loop fuel (round memory epoll) no_events) (λ _. exit 0) w
      (loop-Ends (λ _ v. Always Repeats v.trace) (λ _ v. Always Repeats v.trace) stops
        (round memory epoll) (round-Kept memory epoll) fuel no_events w f h)
      (λ _ v k. (refl, k))

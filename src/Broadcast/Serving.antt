-- ===== src/Broadcast/Serving.antt =====
-- The descriptors and the lines of study-linux-kernel/socket/socket-server-tcp-select.cpp.
use study_linux_kernel.Base.{
  ℕ, zero, suc, ◌<◌, ◌≡◌, refl, [], ◌∷◌, ◌++◌, Option, none, some, Bool, true, false, inl, inr,
  if◌then◌else◌, mem, length, append_assoc,
}
use study_linux_kernel.Sys.Calls.{
  Event, Reply, Text, Trace, made, send, recv, read, received, error, int, str,
}
use study_linux_kernel.Sys.Monad.{World, lift, input, pure, answered, string_in, ◌>>=◌}
use study_linux_kernel.Sys.Loops.{Ends, bind-Ends, lift-Ends, if-Ends}
use study_linux_kernel.Sys.Steps.{sys-Ends, number-Ends, input-Ends}
use study_linux_kernel.SelectServer.{Fds, insert_all, fd_index, Server, serve_locked}
use study_linux_kernel.SelectServer.Safety.{Happened, Owned, stops}
use study_linux_kernel.SelectServer.Serving.{
  Serving, Owning, fewer, quiet, quiet-Owned, said-Owned, requeue, serve_locked-Serving,
}
use study_linux_kernel.SelectServer.Rounds.{Goes, thread-Uses}
use study_linux_kernel.Broadcast.{
  Queue, after_send, send_last, send_all, on_received, serve_one, line_of, take_line, purge,
  on_ready, thread_func,
}

-- What a `read` from the terminal stored in a line of 1024 bytes, up to its first NUL; where the
-- `read` failed that is nothing.
abbrev pub Typed : Text → Trace → Type 0
Typed text past =
    (r : Reply) × Happened (made (read 0 1024) r) past × (text ≡ line_of (received 1024 r))

abbrev pub Lines : ℕ → Text → Trace → Type 0
Lines fd sent past = Typed sent past

abbrev Known : Queue → Trace → Type 0
Known [] past = Unit {0}
Known ((left, text) ∷ more) past = Typed text past × Known more past

grow : (q : Queue) (x : Event) (past : Trace) → Known q past → Known q (x ∷ past)
grow [] x past k = tt
grow ((left, text) ∷ more) x past (a, k) = ((a.0, inr a.1, a.2), grow more x past k)

Known-head :
    (kept : Queue) (left : ℕ) (text : Text) (more : Queue) (past : Trace)
    → Known (kept ++ ((left, text) ∷ more)) past
    → Typed text past
Known-head [] left text more past k = k.0
Known-head (_ ∷ kept) left text more past k = Known-head kept left text more past k.1

-- How often a message is still to be sent does not matter.
Known-recount :
    (kept : Queue) (left left' : ℕ) (text : Text) (more : Queue) (past : Trace)
    → Known (kept ++ ((left, text) ∷ more)) past
    → Known (kept ++ ((left', text) ∷ more)) past
Known-recount [] left left' text more past k = k
Known-recount (_ ∷ kept) left left' text more past k =
    (k.0, Known-recount kept left left' text more past k.1)

Known-snoc :
    (q : Queue) (left : ℕ) (text : Text) (past : Trace)
    → Known q past
    → Typed text past
    → Known (q ++ ((left, text) ∷ [])) past
Known-snoc [] left text past k a = (a, tt)
Known-snoc (_ ∷ q) left text past k a = (k.0, Known-snoc q left text past k.1 a)

Known-purge : (q : Queue) (past : Trace) → Known q past → Known (purge q) past
unfolding purge
Known-purge [] past k = tt
Known-purge ((zero, text) ∷ q) past k = Known-purge q past k.1
Known-purge ((suc left, text) ∷ q) past k = (k.0, Known-purge q past k.1)

module _ (n : ℕ) where
  abbrev Locked : Fds → Queue → World → Type 0
  Locked = Owning Lines Known n

  owned :
      (fd : ℕ) (fds : Fds) (q : Queue) (w : World)
      → mem fd fds ≡ true
      → Locked fds q w
      → Owned fd w.trace
  owned fd fds q w i h = (rw h.0.open_fds i, h.1)

  -- The messages before those that the loop is at, and the ones that it leaves.
  abbrev Left : Fds → Queue → Bool × Queue → World → Type 0
  Left fds kept r = Locked fds (kept ++ r.1)

  abbrev Counted : Fds → Queue → Text → Queue → Bool × ℕ → World → Type 0
  Counted fds kept text more r = Locked fds (kept ++ ((r.1, text) ∷ more))

  after_send-Counted :
      (fds : Fds) (kept : Queue) (left : ℕ) (text : Text) (more : Queue) (sent : Option ℕ)
      (v : World)
      → Locked fds (kept ++ ((suc left, text) ∷ more)) v
      → Ends (Counted fds kept text more) (stops Lines) (after_send left text sent v)
  unfolding after_send
  after_send-Counted fds kept left text more none v g =
      said-Owned Lines Known grow "Error: send failed: %s\n" (error ∷ []) fds
        (kept ++ ((suc left, text) ∷ more)) v g
  after_send-Counted fds kept left text more (some k) v g =
      said-Owned Lines Known grow "send %d bytes msg: %s\n" (int k ∷ str text ∷ []) fds _ v (
        requeue Lines Known grow fds _ _ v g
          (Known-recount kept (suc left) left text more v.trace g.0.known))

  send_last-Counted :
      (fd : ℕ) (fds : Fds) (kept : Queue) (left : ℕ) (text : Text) (more : Queue) (w : World)
      → mem fd fds ≡ true
      → Locked fds (kept ++ ((left, text) ∷ more)) w
      → Ends (Counted fds kept text more) (stops Lines) (send_last fd left text w)
  unfolding send_last
  send_last-Counted fd fds kept zero text more w i h = h
  send_last-Counted fd fds kept (suc left) text more w i h =
      number-Ends (Counted fds kept text more) (stops Lines) (send fd text) _ w h.0.safe
        (λ r rest e.
          after_send-Counted fds kept left text more r.result (answered (send fd text) r rest w) (
            quiet-Owned Lines Known grow (send fd text) fds (kept ++ ((suc left, text) ∷ more)) w r
              rest h e refl refl
              (owned fd fds _ w i h, Known-head kept (suc left) text more w.trace h.0.known)))

  send_all-Left :
      (fd : ℕ) (fds : Fds) (kept queue : Queue) (w : World)
      → mem fd fds ≡ true
      → Locked fds (kept ++ queue) w
      → Ends (Left fds kept) (stops Lines) (send_all fd queue w)
  unfolding send_all
  send_all-Left fd fds kept [] w i h = h
  send_all-Left fd fds kept ((left, text) ∷ queue) w i h =
      bind-Ends (Left fds (kept ++ ((left, text) ∷ []))) (Left fds kept) (stops Lines)
        (send_all fd queue) _ w
        (send_all-Left fd fds (kept ++ ((left, text) ∷ [])) queue w i
          (rw (append_assoc kept ((left, text) ∷ []) queue) h))
        (λ r v k.
          let g = rw (append_assoc kept ((left, text) ∷ []) r.1) at k in
          bind-Ends (Counted fds kept text r.1) (Left fds kept) (stops Lines)
            (if r.0 then pure (true, left) else send_last fd left text) _ v
            (if-Ends (Counted fds kept text r.1) (stops Lines) r.0 (pure (true, left))
              (send_last fd left text) v g (send_last-Counted fd fds kept left text r.1 v i g))
            (λ one u l. l))

  abbrev Same : Fds → Queue → Bool → World → Type 0
  Same fds q _ = Locked fds q

  on_received-Same :
      (fds : Fds) (q : Queue) (got : Option Text) (w : World)
      → Locked fds q w
      → Ends (Same fds q) (stops Lines) (on_received got w)
  unfolding on_received
  on_received-Same fds q none w h =
      said-Owned Lines Known grow "Error: recv failed: %s\n" (error ∷ []) fds q w h
  on_received-Same fds q (some []) w h =
      said-Owned Lines Known grow "Error: recv failed: %s\n" (error ∷ []) fds q w h
  on_received-Same fds q (some (b ∷ bs)) w h =
      bind-Ends (λ _. Locked fds q) (Same fds q) (stops Lines) (lift (string_in 1024 (b ∷ bs))) _ w
        (lift-Ends (Locked fds q) (stops Lines) (string_in 1024 (b ∷ bs)) w h (λ _. h.0.safe))
        (λ msg v k. said-Owned Lines Known grow "recv msg %d bytes: %s\n" _ fds q v k)

  serve_one-Left :
      (ready : Reply) (fd : ℕ) (fds : Fds) (q : Queue) (w : World)
      → mem fd fds ≡ true
      → Locked fds q w
      → Ends (Left fds []) (stops Lines) (serve_one ready fd q w)
  unfolding serve_one
  serve_one-Left ready fd fds q w i h =
      bind-Ends (λ _. Locked fds q) (Left fds []) (stops Lines) (lift (fd_index fd)) _ w
        (lift-Ends (Locked fds q) (stops Lines) (fd_index fd) w h (λ _. h.0.safe))
        (λ _ v k.
          bind-Ends (Left fds []) (Left fds []) (stops Lines)
            (if mem fd ready.writable then send_all fd q else pure (false, q)) _ v
            (if-Ends (Left fds []) (stops Lines) (mem fd ready.writable) (send_all fd q)
              (pure (false, q)) v (send_all-Left fd fds [] q v i k) k)
            (λ wrote u g.
              bind-Ends (Same fds wrote.1) (Left fds []) (stops Lines)
                (if mem fd ready.readable
                  then input 1024 (recv fd 1024) >>= on_received
                  else pure false)
                _ u
                (if-Ends (Same fds wrote.1) (stops Lines) (mem fd ready.readable)
                  (input 1024 (recv fd 1024) >>= on_received) (pure false) u
                  (input-Ends (Same fds wrote.1) (stops Lines) (recv fd 1024) 1024 on_received u
                    g.0.safe
                    (λ r rest e. on_received-Same fds wrote.1 (received 1024 r) _ (
                      quiet-Owned Lines Known grow (recv fd 1024) fds wrote.1 u r rest g e refl refl
                        (owned fd fds wrote.1 u i g))))
                  g)
                (λ got z l. l)))

  take_line-Serving :
      (readable : Bool) (s : Server Queue) (w : World)
      → Serving Lines Known n s.fds s.queue w
      → Ends (λ q. Serving Lines Known n s.fds q) (stops Lines) (take_line readable s w)
  unfolding take_line
  take_line-Serving false s w h = h
  take_line-Serving true s w h =
      sys-Ends (λ q. Serving Lines Known n s.fds q) (stops Lines) (read 0 1024) _ w h.safe
        (λ r rest e.
          let g =
            quiet Lines Known grow (read 0 1024) s.fds s.queue w r rest h e
              (fewer w n r rest h.few e) refl tt in
          record {
            open_fds = g.open_fds;
            ascending = g.ascending;
            few = g.few;
            safe = g.safe;
            known =
                Known-snoc s.queue (length (insert_all r.readable s.fds)) _ _ g.known
                  (r, inl refl, refl);
          })

  on_ready-Goes :
      (ready : Reply) (s : Server Queue) (w : World)
      → Serving Lines Known n s.fds s.queue w
      → Ends (Goes Lines Known grow n) (stops Lines) (on_ready ready s w)
  unfolding on_ready
  on_ready-Goes ready s w h =
      bind-Ends (λ q. Serving Lines Known n s.fds q) (Goes Lines Known grow n) (stops Lines)
        (take_line (mem 0 ready.readable) s) _ w (take_line-Serving (mem 0 ready.readable) s w h)
        (λ q v k.
          bind-Ends (λ s' u. Serving Lines Known n s'.fds s'.queue u) (Goes Lines Known grow n)
            (stops Lines) (serve_locked serve_one ready s.fds q) _ v
            (serve_locked-Serving Lines Known n serve_one grow serve_one-Left ready s.fds q v k)
            (λ s' u g. record {
              open_fds = g.open_fds;
              ascending = g.ascending;
              few = g.few;
              safe = g.safe;
              known = Known-purge s'.queue u.trace g.known;
            }))

-- From an empty set and no history, with fuel above the number of replies, the serving thread neither
-- returns nor runs out of fuel; and wherever it waits or faults, it has sent, received and closed only
-- with the mutex and on descriptors that had arrived and were not closed since. Each text that it
-- sent is what one `read` from the terminal stored, up to its first NUL; for a `read` that failed,
-- whose answer the program does not look at, that is the empty text.
pub broadcast-Uses :
    (fuel : ℕ) (w : World)
    → length w.replies < fuel
    → w.trace ≡ []
    → Ends (λ _ _. ⊥) (stops Lines) (thread_func fuel w)
unfolding thread_func
broadcast-Uses fuel w f e =
    thread-Uses Lines Known grow (0 ∷ []) on_ready on_ready-Goes fuel w [] f e tt

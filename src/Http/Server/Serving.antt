-- ===== src/Http/Server/Serving.antt =====
-- The descriptors and the answers of study-linux-kernel/socket/socket-server-http-select.cpp.
use study_linux_kernel.Base.{
  ℕ, ◌<◌, ◌≡◌, refl, sym, ap, ◌∙◌, [], ◌∷◌, ◌++◌, Option, none, some, Bool, true, false, ◌==◌,
  Bool-cases, inl, inr, if◌then◌else◌, mem, length, c_string, append_assoc, arith,
}
use study_linux_kernel.Base.Run.{ok}
use study_linux_kernel.Sys.Calls.{
  Event, Reply, Address, Text, Trace, made, send, recv, getpeername, received, error,
}
use study_linux_kernel.Sys.Monad.{World, M, lift, pure, answered, string_in}
use study_linux_kernel.Sys.Loops.{Ends, bind-Ends, lift-Ends, if-Ends}
use study_linux_kernel.Sys.Steps.{number-Ends, input-Ends, sys-Ends, lift-made}
use study_linux_kernel.SelectServer.{Fds, fd_index, Server, serve_locked}
use study_linux_kernel.SelectServer.Safety.{Happened, Owned, stops}
use study_linux_kernel.SelectServer.Serving.{
  Serving, Owning, quiet-Owned, said-Owned, requeue, serve_locked-Serving,
}
use study_linux_kernel.SelectServer.Rounds.{Goes, thread-Uses}
use study_linux_kernel.Http.Response.{respond}
use study_linux_kernel.Http.Server.Known.{Answers, Known, grow, Known-head, Known-rest, Known-snoc}
use study_linux_kernel.Http.Server.{
  Messages, after_send, send_all, get_remote_host, on_received, receive, serve_one, on_ready,
  thread_func,
}

module _ (decimal : ℕ → Text) (file_at : Text → Option Text) (inet_ntoa : Address → Text)
    (port_text : Address → Text) where
  abbrev Sent : ℕ → Text → Trace → Type 0
  Sent = Answers decimal file_at

  abbrev Waiting : Messages → Trace → Type 0
  Waiting = Known decimal file_at

  more_history : (q : Messages) (x : Event) (past : Trace) → Waiting q past → Waiting q (x ∷ past)
  more_history = grow decimal file_at

  module _ (n : ℕ) where
    abbrev Locked : Fds → Messages → World → Type 0
    Locked = Owning Sent Waiting n

    -- The messages before those that the loop is at, and the ones that it leaves.
    abbrev Left : Fds → Messages → Bool × Messages → World → Type 0
    Left fds kept r = Locked fds (kept ++ r.1)

    owned :
        (fd : ℕ) (fds : Fds) (q : Messages) (w : World)
        → mem fd fds ≡ true
        → Locked fds q w
        → Owned fd w.trace
    owned fd fds q w i h = (rw h.0.open_fds i, h.1)

    after_send-Left :
        (fds : Fds) (kept messages : Messages) (later : M (Bool × Messages)) (r : Option ℕ)
        (w : World)
        → Locked fds (kept ++ messages) w
        → Ends (Left fds kept) (stops Sent) (later w)
        → Ends (Left fds kept) (stops Sent) (after_send messages later r w)
    unfolding after_send
    after_send-Left fds kept messages later none w h next =
        said-Owned Sent Waiting more_history "Error: send failed: %s\n" (error ∷ []) fds
          (kept ++ messages) w h
    after_send-Left fds kept messages later (some k) w h next =
        bind-Ends (Left fds kept) (Left fds kept) (stops Sent) later _ w next (λ r v g. g)

    send_all-Left :
        (fd : ℕ) (fds : Fds) (kept messages : Messages) (w : World)
        → mem fd fds ≡ true
        → Locked fds (kept ++ messages) w
        → Ends (Left fds kept) (stops Sent) (send_all fd messages w)
    unfolding send_all
    send_all-Left fd fds kept [] w i h = h
    send_all-Left fd fds kept ((to, text) ∷ more) w i h = elim (Bool-cases (to == fd)) [
      | inl b ↦
          let same : to ≡ fd = ground arith in
          let j : mem to fds ≡ true = ap (λ (d : ℕ). mem d fds) same ∙ i in
          rw b (
            number-Ends (Left fds kept) (stops Sent) (send to (c_string text)) _ w h.0.safe
              (λ r rest e.
                let v = answered (send to (c_string text)) r rest w in
                let g =
                  quiet-Owned Sent Waiting more_history (send to (c_string text)) fds
                    (kept ++ ((to, text) ∷ more)) w r rest h e refl refl
                    (
                      owned to fds _ w j h,
                      (text, Known-head decimal file_at kept to text more w.trace h.0.known, refl),
                    ) in
                after_send-Left fds kept ((to, text) ∷ more) (send_all fd more) r.result v g (
                  send_all-Left fd fds kept more v i (
                    requeue Sent Waiting more_history fds _ (kept ++ more) v g
                      (Known-rest decimal file_at kept to text more v.trace g.0.known)))))
      | inr b ↦ rw b (
          bind-Ends (Left fds (kept ++ ((to, text) ∷ []))) (Left fds kept) (stops Sent)
            (send_all fd more) _ w
            (send_all-Left fd fds (kept ++ ((to, text) ∷ [])) more w i
              (rw (append_assoc kept ((to, text) ∷ []) more) h))
            (λ r v g. rw (sym (append_assoc kept ((to, text) ∷ []) r.1)) g))
    ]

    -- Inside the service of a descriptor from which something was received.
    abbrev Heard : Fds → Messages → ℕ → Reply → World → Type 0
    Heard fds q fd reply w = Locked fds q w × Happened (made (recv fd 4096) reply) w.trace

    abbrev Queued : Fds → Bool × Messages → World → Type 0
    Queued fds r = Locked fds r.1

    get_remote_host-Heard :
        (fd : ℕ) (fds : Fds) (q : Messages) (reply : Reply) (w : World)
        → mem fd fds ≡ true
        → Heard fds q fd reply w
        → Ends
            (λ _. Heard fds q fd reply)
            (stops Sent)
            (get_remote_host decimal file_at inet_ntoa port_text fd w)
    unfolding get_remote_host
    get_remote_host-Heard fd fds q reply w i h =
        sys-Ends (λ _. Heard fds q fd reply) (stops Sent) (getpeername fd) _ w h.0.0.safe
          (λ r rest e. (
            quiet-Owned Sent Waiting more_history (getpeername fd) fds q w r rest h.0 e refl refl
                (owned fd fds q w i h.0),
            inr h.1,
          ))

    answer-Queued :
        (fd : ℕ) (fds : Fds) (q : Messages) (reply : Reply) (bytes msg host text : Text) (w : World)
        → received 4096 reply ≡ some bytes
        → string_in 4096 bytes ≡ ok msg
        → Heard fds q fd reply w
        → respond decimal file_at msg host ≡ ok text
        → Locked fds (q ++ ((fd, text) ∷ [])) w
    answer-Queued fd fds q reply bytes msg host text w stored ended h made_by =
        requeue Sent Waiting more_history fds q _ w h.0 (
          Known-snoc decimal file_at q fd text w.trace h.0.0.known (record {
            msg = msg;
            host = host;
            reply = reply;
            bytes = bytes;
            heard = h.1;
            stored = stored;
            ended = ended;
            made_by = made_by;
          }))

    on_received-Queued :
        (fd : ℕ) (fds : Fds) (q : Messages) (reply : Reply) (got : Option Text) (w : World)
        → mem fd fds ≡ true
        → received 4096 reply ≡ got
        → Heard fds q fd reply w
        → Ends
            (Queued fds)
            (stops Sent)
            (on_received decimal file_at inet_ntoa port_text fd q got w)
    unfolding on_received
    on_received-Queued fd fds q reply none w i e h =
        said-Owned Sent Waiting more_history "Error: recv failed: %s\n" (error ∷ []) fds q w h.0
    on_received-Queued fd fds q reply (some []) w i e h =
        said-Owned Sent Waiting more_history "Error: recv failed: %s\n" (error ∷ []) fds q w h.0
    on_received-Queued fd fds q reply (some (b ∷ bs)) w i e h =
        bind-Ends (λ msg v. Heard fds q fd reply v × (string_in 4096 (b ∷ bs) ≡ ok msg))
          (Queued fds) (stops Sent) (lift (string_in 4096 (b ∷ bs))) _ w
          (lift-made _ (stops Sent) (string_in 4096 (b ∷ bs)) w (λ msg made. (h, made))
            (λ _. h.0.0.safe))
          (λ msg v k.
            bind-Ends (λ _. Heard fds q fd reply) (Queued fds) (stops Sent)
              (get_remote_host decimal file_at inet_ntoa port_text fd) _ _
              (get_remote_host-Heard fd fds q reply _ i (
                said-Owned Sent Waiting more_history "recv msg %d bytes: %s\n" _ fds q v k.0.0,
                inr k.0.1,
              ))
              (λ host u g.
                bind-Ends (λ text z. Locked fds (q ++ ((fd, text) ∷ [])) z) (Queued fds)
                  (stops Sent) (lift (respond decimal file_at msg host)) _ u
                  (lift-made _ (stops Sent) (respond decimal file_at msg host) u
                    (λ text made.
                      answer-Queued fd fds q reply (b ∷ bs) msg host text u e k.1 g made)
                    (λ _. g.0.0.safe))
                  (λ text z l. l)))

    receive-Queued :
        (fd : ℕ) (fds : Fds) (q : Messages) (w : World)
        → mem fd fds ≡ true
        → Locked fds q w
        → Ends (Queued fds) (stops Sent) (receive decimal file_at inet_ntoa port_text fd q w)
    unfolding receive
    receive-Queued fd fds q w i h =
        input-Ends (Queued fds) (stops Sent) (recv fd 4096) 4096 _ w h.0.safe (λ r rest e.
          on_received-Queued fd fds q r (received 4096 r) _ i refl (
            quiet-Owned Sent Waiting more_history (recv fd 4096) fds q w r rest h e refl refl
                (owned fd fds q w i h),
            inl refl,
          ))

    serve_one-Queued :
        (ready : Reply) (fd : ℕ) (fds : Fds) (q : Messages) (w : World)
        → mem fd fds ≡ true
        → Locked fds q w
        → Ends
            (Queued fds)
            (stops Sent)
            (serve_one decimal file_at inet_ntoa port_text ready fd q w)
    unfolding serve_one
    serve_one-Queued ready fd fds q w i h =
        bind-Ends (λ _. Locked fds q) (Queued fds) (stops Sent) (lift (fd_index fd)) _ w
          (lift-Ends (Locked fds q) (stops Sent) (fd_index fd) w h (λ _. h.0.safe))
          (λ _ v k.
            bind-Ends (Queued fds) (Queued fds) (stops Sent)
              (if mem fd ready.writable then send_all fd q else pure (false, q)) _ v
              (if-Ends (Queued fds) (stops Sent) (mem fd ready.writable) (send_all fd q)
                (pure (false, q)) v (send_all-Left fd fds [] q v i k) k)
              (λ wrote u g.
                bind-Ends (Queued fds) (Queued fds) (stops Sent)
                  (if mem fd ready.readable
                    then receive decimal file_at inet_ntoa port_text fd wrote.1
                    else pure (false, wrote.1))
                  _ u
                  (if-Ends (Queued fds) (stops Sent) (mem fd ready.readable)
                    (receive decimal file_at inet_ntoa port_text fd wrote.1) (pure (false, wrote.1))
                    u (receive-Queued fd fds wrote.1 u i g) g)
                  (λ got z l. l)))

  on_ready-Goes :
      (n : ℕ) (ready : Reply) (s : Server Messages) (w : World)
      → Serving Sent Waiting n s.fds s.queue w
      → Ends
          (Goes Sent Waiting more_history n)
          (stops Sent)
          (on_ready decimal file_at inet_ntoa port_text ready s w)
  unfolding on_ready
  on_ready-Goes n ready s w h =
      bind-Ends (λ s' v. Serving Sent Waiting n s'.fds s'.queue v)
        (Goes Sent Waiting more_history n) (stops Sent)
        (serve_locked (serve_one decimal file_at inet_ntoa port_text) ready s.fds s.queue) _ w
        (serve_locked-Serving Sent Waiting n (serve_one decimal file_at inet_ntoa port_text)
          more_history (serve_one-Queued n) ready s.fds s.queue w h)
        (λ s' v k. k)

  -- From an empty set and no history, with fuel above the number of replies, the serving thread neither
  -- returns nor runs out of fuel; and wherever it waits or faults, it has sent, received, asked for the
  -- peer and closed only with the mutex and on descriptors that had arrived and were not closed
  -- since, and each text that it sent is the answer to a request received on a descriptor of that number.
  pub thread_func-Uses :
      (fuel : ℕ) (w : World)
      → length w.replies < fuel
      → w.trace ≡ []
      → Ends
          (λ _ _. ⊥)
          (stops (Answers decimal file_at))
          (thread_func decimal file_at inet_ntoa port_text fuel w)
  unfolding thread_func
  thread_func-Uses fuel w f e =
      thread-Uses Sent Waiting more_history [] (on_ready decimal file_at inet_ntoa port_text)
        on_ready-Goes fuel w [] f e tt

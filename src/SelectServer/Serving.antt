-- ===== src/SelectServer/Serving.antt =====
-- The rule for a serving thread of study-linux-kernel/socket/socket-server-http-select.cpp or
-- socket-server-tcp-select.cpp: what the service of one descriptor keeps, the thread keeps.
use Prim.Native.String.{String}
use study_linux_kernel.Base.{
  ℕ, ◌≤◌, ◌≡◌, refl, sym, ap, ◌∙◌, List, [], ◌∷◌, ◌++◌, Bool, true, false, mem, length,
  append_assoc, arith,
}
use study_linux_kernel.Sys.Calls.{
  Call, Event, Reply, Text, Trace, made, printed, Arg, lock, unlock, close,
}
use study_linux_kernel.Sys.Monad.{World, M, answered, say}
use study_linux_kernel.Sys.Loops.{Ends, bind-Ends}
use study_linux_kernel.Sys.Steps.{sys-Ends, run-Ends}
use study_linux_kernel.Sys.Traces.{Always, locked}
use study_linux_kernel.SelectServer.{
  Fds, erase_fd, insert_all, Server, keep_or_close, serve_each, serve_locked,
}
use study_linux_kernel.SelectServer.Watching.{AscendFrom}
use study_linux_kernel.SelectServer.Safety.{
  live, Uses, stops, insert_all-AscendFrom, mem-middle, erase_fd-middle, AscendFrom-middle,
}

module _ {Q : Type 0} (Says : ℕ → Text → Trace → Type 0) (Known : Q → Trace → Type 0) (n : ℕ) where
  -- The set is what is open, at most `n` replies are left, and each message may be sent.
  pub record Serving (fds : Fds) (queue : Q) (w : World) : Type 0 where
    pub open_fds : live w.trace ≡ fds
    pub ascending : AscendFrom 0 fds
    pub few : length w.replies ≤ n
    pub safe : Always (Uses Says) w.trace
    pub known : Known queue w.trace

-- The thread has the mutex besides.
abbrev pub Owning :
    {Q : Type 0} → (ℕ → Text → Trace → Type 0) → (Q → Trace → Type 0) → ℕ → Fds → Q → World → Type 0
Owning Says Known n fds queue w = Serving Says Known n fds queue w × (locked w.trace ≡ true)

pub fewer :
    (w : World) (n : ℕ) (r : Reply) (rest : List Reply)
    → length w.replies ≤ n
    → w.replies ≡ r ∷ rest
    → length rest ≤ n
fewer w n r rest h e = omega (arith, ap (λ (l : List Reply). length l) e)

module _ {Q : Type 0} (Says : ℕ → Text → Trace → Type 0) (Known : Q → Trace → Type 0)
    (grow : (q : Q) (x : Event) (past : Trace) → Known q past → Known q (x ∷ past)) where
  -- A call that neither lets descriptors arrive nor closes one.
  pub quiet :
      {n n' : ℕ} (c : Call) (fds : Fds) (q : Q) (w : World) (r : Reply) (rest : List Reply)
      → Serving Says Known n fds q w
      → w.replies ≡ r ∷ rest
      → length rest ≤ n'
      → live (made c r ∷ w.trace) ≡ live w.trace
      → Uses Says c w.trace
      → Serving Says Known n' fds q (answered c r rest w)
  quiet c fds q w r rest h e f same uses = record {
    open_fds = same ∙ h.open_fds;
    ascending = h.ascending;
    few = f;
    safe = (uses, h.safe);
    known = grow q (made c r) w.trace h.known;
  }

  -- A call with which descriptors arrive.
  pub arrived :
      {n n' : ℕ} (c : Call) (fds : Fds) (q : Q) (w : World) (r : Reply) (rest : List Reply)
      → Serving Says Known n fds q w
      → w.replies ≡ r ∷ rest
      → length rest ≤ n'
      → live (made c r ∷ w.trace) ≡ insert_all r.readable (live w.trace)
      → Uses Says c w.trace
      → Serving Says Known n' (insert_all r.readable fds) q (answered c r rest w)
  arrived c fds q w r rest h e f fresh uses = record {
    open_fds = fresh ∙ ap (λ (l : Fds). insert_all r.readable l) h.open_fds;
    ascending = insert_all-AscendFrom r.readable fds h.ascending;
    few = f;
    safe = (uses, h.safe);
    known = grow q (made c r) w.trace h.known;
  }

  -- The same for the thread that has the mutex.
  pub quiet-Owned :
      {n : ℕ} (c : Call) (fds : Fds) (q : Q) (w : World) (r : Reply) (rest : List Reply)
      → Owning Says Known n fds q w
      → w.replies ≡ r ∷ rest
      → live (made c r ∷ w.trace) ≡ live w.trace
      → locked (made c r ∷ w.trace) ≡ locked w.trace
      → Uses Says c w.trace
      → Owning Says Known n fds q (answered c r rest w)
  quiet-Owned {n} c fds q w r rest h e same owned uses =
      (quiet c fds q w r rest h.0 e (fewer w n r rest h.0.few e) same uses, owned ∙ h.1)

  pub said-Owned :
      {n : ℕ} (format : String) (args : List Arg) (fds : Fds) (q : Q) (w : World)
      → Owning Says Known n fds q w
      → Ends (λ _. Owning Says Known n fds q) (stops Says) (say format args w)
  said-Owned format args fds q w h = (
    record {
      open_fds = h.0.open_fds;
      ascending = h.0.ascending;
      few = h.0.few;
      safe = h.0.safe;
      known = grow q (printed format args) w.trace h.0.known;
    },
    h.1,
  )

  -- Other messages that may be sent.
  pub requeue :
      {n : ℕ} (fds : Fds) (q q' : Q) (w : World)
      → Owning Says Known n fds q w
      → Known q' w.trace
      → Owning Says Known n fds q' w
  requeue fds q q' w h k = (
    record {
      open_fds = h.0.open_fds;
      ascending = h.0.ascending;
      few = h.0.few;
      safe = h.0.safe;
      known = k;
    },
    h.1,
  )

module _ {Q : Type 0} (Says : ℕ → Text → Trace → Type 0) (Known : Q → Trace → Type 0) (n : ℕ) where
  abbrev Running : Fds → Q → World → Type 0
  Running = Serving Says Known n

  abbrev Locked : Fds → Q → World → Type 0
  Locked = Owning Says Known n

  module _ (serve_one : Reply → ℕ → Q → M (Bool × Q))
      (grow : (q : Q) (x : Event) (past : Trace) → Known q past → Known q (x ∷ past))
      (keeps : (ready : Reply) (fd : ℕ) (fds : Fds) (q : Q) (w : World)
        → mem fd fds ≡ true
        → Locked fds q w
        → Ends (λ r. Locked fds r.1) (stops Says) (serve_one ready fd q w)) where
    Locked-same : (a b : Fds) (q : Q) (w : World) → a ≡ b → Locked a q w → Locked b q w
    Locked-same a b q w e h = rw (sym e) h

    -- The set is what went before in the loop and what it gives back.
    abbrev Behind : Fds → Server Q → World → Type 0
    Behind before s w = Locked (before ++ s.fds) s.queue w

    closed-Locked :
        (before fds : Fds) (fd : ℕ) (q : Q) (w : World) (r : Reply) (rest : List Reply)
        → Locked (before ++ (fd ∷ fds)) q w
        → w.replies ≡ r ∷ rest
        → Locked (before ++ fds) q (answered (close fd) r rest w)
    closed-Locked before fds fd q w r rest h e = (
      record {
        open_fds =
            ap (λ (l : Fds). erase_fd fd l) h.0.open_fds
            ∙ erase_fd-middle 0 fd before fds h.0.ascending;
        ascending = AscendFrom-middle 0 fd before fds h.0.ascending;
        few = omega (arith, h.0.few, ap (λ (l : List Reply). length l) e);
        safe = ((rw h.0.open_fds (mem-middle fd before fds), h.1), h.0.safe);
        known = grow q (made (close fd) r) w.trace h.0.known;
      },
      h.1,
    )

    keep_or_close-Behind :
        (closing : Bool) (before fds : Fds) (fd : ℕ) (q : Q) (later : M (Server Q)) (w : World)
        → Locked (before ++ (fd ∷ fds)) q w
        → ((b : Fds) (v : World) → Locked (b ++ fds) q v → Ends (Behind b) (stops Says) (later v))
        → Ends (Behind before) (stops Says) (keep_or_close serve_one closing fd later w)
    unfolding keep_or_close
    keep_or_close-Behind true before fds fd q later w h next =
        run-Ends (Behind before) (stops Says) (close fd) later w h.0.safe (λ r rest e.
          next before (answered (close fd) r rest w) (closed-Locked before fds fd q w r rest h e))
    keep_or_close-Behind false before fds fd q later w h next =
        bind-Ends (Behind (before ++ (fd ∷ []))) (Behind before) (stops Says) later _ w
          (next (before ++ (fd ∷ [])) w
            (Locked-same _ _ q w (sym (append_assoc before (fd ∷ []) fds)) h))
          (λ s v k. Locked-same _ _ s.queue v (append_assoc before (fd ∷ []) s.fds) k)

    serve_each-Behind :
        (ready : Reply) (before fds : Fds) (q : Q) (w : World)
        → Locked (before ++ fds) q w
        → Ends (Behind before) (stops Says) (serve_each serve_one ready fds q w)
    unfolding serve_each
    serve_each-Behind ready before [] q w h = h
    serve_each-Behind ready before (fd ∷ fds) q w h =
        bind-Ends (λ r. Locked (before ++ (fd ∷ fds)) r.1) (Behind before) (stops Says)
          (serve_one ready fd q) _ w
          (keeps ready fd (before ++ (fd ∷ fds)) q w (mem-middle fd before fds) h)
          (λ r v k.
            keep_or_close-Behind r.0 before fds fd r.1 (serve_each serve_one ready fds r.1) v k
              (λ b u. serve_each-Behind ready b fds r.1 u))

    Kept : Server Q → World → Type 0
    Kept s = Running s.fds s.queue

    pub serve_locked-Serving :
        (ready : Reply) (fds : Fds) (q : Q) (w : World)
        → Running fds q w
        → Ends (λ s. Running s.fds s.queue) (stops Says) (serve_locked serve_one ready fds q w)
    unfolding serve_locked
    serve_locked-Serving ready fds q w h =
        sys-Ends (λ s. Running s.fds s.queue) (stops Says) lock _ w h.safe
          (λ r rest e.
            bind-Ends (Behind []) (λ s. Running s.fds s.queue) (stops Says)
              (serve_each serve_one ready (insert_all r.readable fds) q) _ _
              (serve_each-Behind ready [] (insert_all r.readable fds) q (answered lock r rest w) (
                arrived Says Known grow lock fds q w r rest h e (fewer w n r rest h.few e) refl tt,
                refl,
              ))
              (λ s v k.
                run-Ends (λ s. Running s.fds s.queue) (stops Says) unlock _ v k.0.safe
                  (λ r' rest' e'.
                    quiet Says Known grow unlock s.fds s.queue v r' rest' k.0 e'
                      (fewer v n r' rest' k.0.few e') refl tt)))

-- ===== src/SelectServer/Rounds.antt =====
-- The rounds of a serving thread: `round_of` with a handler that keeps what `Serving` says.
use study_linux_kernel.Base.{
  ℕ, zero, suc, ◌<◌, ◌≡◌, refl, ap, List, [], ◌∷◌, ◌++◌, Option, none, some, length, arith,
}
use study_linux_kernel.Sys.Calls.{Call, Event, Reply, Text, Trace, select, sleep}
use study_linux_kernel.Sys.Monad.{World, M, lift}
use study_linux_kernel.Sys.Loops.{
  Ends, Next, again, finish, Round, loop, loop-Ends, bind-Ends, lift-Ends,
}
use study_linux_kernel.Sys.Steps.{sys-Ends, call-Ends, Ends-weaken}
use study_linux_kernel.SelectServer.{
  Fds, insert_all, set_all, max_fd, below, watch, Server, on_selected, round_of,
}
use study_linux_kernel.SelectServer.Safety.{stops}
use study_linux_kernel.SelectServer.Serving.{Serving, quiet, arrived}

module _ {Q : Type 0} (Says : ℕ → Text → Trace → Type 0) (Known : Q → Trace → Type 0)
    (grow : (q : Q) (x : Event) (past : Trace) → Known q past → Known q (x ∷ past)) where
  -- What a handler leaves, where `n` replies were left to it.
  abbrev pub Goes : ℕ → Next (Server Q) (Unit {0}) → World → Type 0
  Goes n (again s) w = Serving Says Known n s.fds s.queue w
  Goes n (finish _) w = ⊥

  module _ (extra : List ℕ) (on_ready : Reply → Server Q → M (Next (Server Q) (Unit {0})))
      (keeps : (n : ℕ) (ready : Reply) (s : Server Q) (w : World)
        → Serving Says Known n s.fds s.queue w
        → Ends (Goes n) (stops Says) (on_ready ready s w)) where
    -- The state between two rounds.
    Between : Server Q → World → Type 0
    Between s w = Serving Says Known (length w.replies) s.fds s.queue w

    Never : Unit {0} → World → Type 0
    Never _ _ = ⊥

    -- Fewer replies are left than at the start.
    abbrev Fewer : World → Fds → Q → World → Type 0
    Fewer w fds q v = (n : ℕ) × (n < length w.replies) × Serving Says Known n fds q v

    next-Round :
        (w : World) (n : ℕ) (x : Next (Server Q) (Unit {0})) (v : World)
        → n < length w.replies
        → Goes n x v
        → Round Between Never w x v
    unfolding Between Never
    next-Round w n (again s) v less h = (
      record {
        open_fds = h.open_fds;
        ascending = h.ascending;
        few = omega arith;
        safe = h.safe;
        known = h.known;
      },
      omega (arith, h.few),
    )
    next-Round w n (finish a) v less h = absurd (h)

    abbrev Still : World → Fds → Q → World → Type 0
    Still w fds q v =
        Between (record { fds = fds; queue = q }) v × (length v.replies ≡ length w.replies)

    abbrev looked : Fds → Call
    looked fds = select (below (max_fd 0 fds) (extra ++ fds)) (below (max_fd 0 fds) fds)

    watch-Fewer :
        (fds : Fds) (q : Q) (w : World)
        → Between (record { fds = fds; queue = q }) w
        → Ends (λ _. Fewer w fds q) (stops Says) (watch extra fds w)
    unfolding watch Between
    watch-Fewer fds q w h =
        bind-Ends (λ _. Still w fds q) (λ _. Fewer w fds q) (stops Says) (lift (set_all fds)) _ w
          (lift-Ends (Still w fds q) (stops Says) (set_all fds) w (h, refl) (λ _. h.safe))
          (λ _ v k.
            call-Ends (λ _. Fewer w fds q) (stops Says) (looked fds) v k.0.safe
              (λ r rest e. (
                length rest,
                omega (arith, k.1, ap (λ (l : List Reply). length l) e),
                quiet Says Known grow (looked fds) fds q v r rest k.0 e (omega arith) refl tt,
              )))

    on_selected-Round :
        (ready : Reply) (s : Server Q) (r : Option ℕ) (w v : World)
        → Fewer w s.fds s.queue v
        → Ends (Round Between Never w) (stops Says) (on_selected extra on_ready ready s r v)
    unfolding on_selected
    on_selected-Round ready s none w v (n, less, h) = next-Round w n (again s) v less h
    on_selected-Round ready s (some zero) w v (n, less, h) = next-Round w n (again s) v less h
    on_selected-Round ready s (some (suc k)) w v (n, less, h) =
        Ends-weaken (Goes n) (Round Between Never w) (stops Says) (on_ready ready s v)
          (λ x u. next-Round w n x u less) (keeps n ready s v h)

    round_of-Round :
        (fds : Fds) (q : Q) (w : World)
        → Between (record { fds = fds; queue = q }) w
        → Ends (Round Between Never w) (stops Says) (round_of extra on_ready fds q w)
    unfolding round_of Between
    round_of-Round [] q w h =
        sys-Ends (Round Between Never w) (stops Says) (sleep 0) _ w h.safe (λ r rest e.
          let fewer : length rest < length w.replies =
            omega (arith, ap (λ (l : List Reply). length l) e) in
          next-Round w (length rest) (again (record { fds = insert_all r.readable []; queue = q }))
            _ fewer (arrived Says Known grow (sleep 0) [] q w r rest h e (omega arith) refl tt))
    round_of-Round (fd ∷ fds) q w h =
        bind-Ends (λ _. Fewer w (fd ∷ fds) q) (Round Between Never w) (stops Says)
          (watch extra (fd ∷ fds)) _ w (watch-Fewer (fd ∷ fds) q w h)
          (λ ready v k.
            on_selected-Round ready (record { fds = fd ∷ fds; queue = q }) ready.result w v k)

    -- With fuel above the number of replies the thread does not end, and wherever it waits or faults it
    -- has kept to `Uses`.
    pub thread-Uses :
        (fuel : ℕ) (w : World) (q : Q)
        → length w.replies < fuel
        → w.trace ≡ []
        → Known q []
        → Ends
            (λ _ _. ⊥)
            (stops Says)
            (loop fuel
              (λ s. round_of extra on_ready s.fds s.queue)
              (record { fds = []; queue = q })
              w)
    unfolding Between Never
    thread-Uses fuel w q f e known =
        loop-Ends Between Never (stops Says) (λ s. round_of extra on_ready s.fds s.queue)
          (λ s v h. round_of-Round s.fds s.queue v h) fuel (record { fds = []; queue = q }) w f
          (record {
            open_fds = rw e refl;
            ascending = tt;
            few = omega arith;
            safe = rw e tt;
            known = rw e known;
          })

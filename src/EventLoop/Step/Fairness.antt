-- ===== src/EventLoop/Step/Fairness.antt =====
-- Which handles an iteration of src/event_loop.rs runs.
use tokioloop.Base.{false, List, [], ◌∷◌, ◌++◌, subst, ◌≡◌, Bool-cases, inl, inr}
use tokioloop.Deps.{Deps}
use tokioloop.Handle.{Handle, cancelled}
use tokioloop.World.{World}
use mathlib.Core.List.{Memᴰ, Sublistᴰ}
use tokioloop.EventLoop.Timers.{drain_due}
use tokioloop.EventLoop.Step.Handled.{Handled}
use tokioloop.EventLoop.Step.{StepInput, Stepped, run_all}

module _ (D : Deps) (run : Handle → World D → World D) where
  -- No handle that runs cancels `h`.
  abbrev pub Spares : Handle → Type 0
  Spares h =
      (k : Handle) (w : World D) → cancelled w.flags h ≡ false → cancelled (run k w).flags h ≡ false

  pub run_all-runs :
      (h : Handle) (hs : List Handle) (w : World D)
      → Spares h
      → Memᴰ h hs
      → cancelled w.flags h ≡ false
      → Memᴰ h (run_all D run hs w).1
  unfolding run_all
  run_all-runs h [] w spares m live = elim m [ ]
  run_all-runs h (k ∷ hs) w spares (Memᴰ.head e) live =
      let live_k : cancelled w.flags k ≡ false = subst (λ x. cancelled w.flags x ≡ false) e live in
      rw live_k (Memᴰ.head e)
  run_all-runs h (k ∷ hs) w spares (Memᴰ.tail m) live = elim (Bool-cases (cancelled w.flags k)) [
    | inl dropped ↦ rw dropped (run_all-runs h hs w spares m live)
    | inr runs ↦ rw runs (Memᴰ.tail (run_all-runs h hs (run k w) spares m (spares k w live)))
  ]

  -- What an iteration runs, where `next` is what the handling of the events leaves: some of the handles
  -- that were ready when it began, of those of the events and of the timers that are due, in that order;
  -- among them every one that was not cancelled then and that no handle cancels.
  pub record RunsReady (input : StepInput) (w : World D) (next : World D × List Handle)
      (s : Stepped D) : Type 0 where
    pub queue : (new : List Handle) × (next.1 ≡ w.handles_ready ++ new)
    pub ordered : Sublistᴰ s.ran (next.1 ++ (drain_due input.tick_timers w.handles_sched).0)
    pub fair :
        (h : Handle)
        → Spares h
        → Memᴰ h (next.1 ++ (drain_due input.tick_timers w.handles_sched).0)
        → cancelled w.flags h ≡ false
        → Memᴰ h s.ran

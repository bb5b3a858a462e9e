-- ===== src/Tokio/Run/Rules.antt =====
-- Rules for the branches of the task of `_run` of src/tokio_event_loop.rs: what holds of the state in which a
-- branch ends holds after it.
use tokioloop.Base.{Bool, true, false, if◌then◌else◌}
use tokioloop.Deps.{TokioDeps}
use tokioloop.Tokio.Run.{Running, Outcome, waits, goes_on, leaves, check_stop, After}

module _ (T : TokioDeps) where
  -- A receiver that gives nothing: the task leaves if the channel is closed, and else waits.
  pub ends_if :
      (P : Running T → Type 0) (closed : Bool) (s : Running T)
      → P s
      → After T (if closed then leaves s else waits) P
  ends_if P true s h = h
  ends_if P false s h = tt

  pub either_way :
      (P : Running T → Type 0) (b : Bool) (s : Running T)
      → P s
      → After T (if b then leaves s else goes_on s) P
  either_way P true s h = h
  either_way P false s h = h

  pub check_stop-After :
      (P : Running T → Type 0) (o : Outcome T) → After T o P → After T (check_stop T o) P
  check_stop-After P waits h = tt
  check_stop-After P (leaves s) h = h
  check_stop-After P (goes_on s) h = either_way P s.loop.stopping s h

  pub After-map :
      (P Q : Running T → Type 0) (o : Outcome T)
      → ((s : Running T) → P s → Q s)
      → After T o P
      → After T o Q
  After-map P Q waits f h = tt
  After-map P Q (goes_on s) f h = f s h
  After-map P Q (leaves s) f h = f s h

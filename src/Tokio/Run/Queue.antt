-- ===== src/Tokio/Run/Queue.antt =====
-- The task of `_run` of src/tokio_event_loop.rs against a queue: what arrives in each of its turns goes to the
-- end, and what it runs comes from the front.
use tokioloop.Base.{List, [], ◌++◌, false, ◌≡◌, ap, ◌∙◌, sym, subst}
use tokioloop.Deps.{TokioDeps}
use tokioloop.Tokio.Handle.{THandle}
use tokioloop.Tokio.Loop.{TokioLoop}
use tokioloop.Tokio.Run.{Running, Python, start, After, Reaches}
use tokioloop.Tokio.Run.Reaches.{here, turns, others}
use tokioloop.Tokio.Run.Line.{Joined, line, taken_of}
use tokioloop.Tokio.Run.Order.{arrivals, turn-Joined}

module _ (T : TokioDeps) (python : Python T) where
  -- What has arrived on the way to a state, the oldest first.
  unfoldable pub arrived : {s t : Running T} → Reaches T python s t → List THandle
  arrived here = []
  arrived (turns {t = t} branch u r e) = arrived r ++ arrivals T branch t
  arrived (others op r) = arrived r

  -- The abstract queue: what was taken out of it and what is in it are what has arrived.
  record Queued (all : List THandle) (s : Running T) : Type 0 where
    split : line T s ≡ all
    opened : T.mpsc.is_closed s.current_handles ≡ false

  Reaches-Queued :
      (l : TokioLoop T) {s : Running T} (r : Reaches T python (start T l) s) → Queued (arrived r) s
  unfolding start arrived
  Reaches-Queued l here = record {
    split = T.mpsc.messages-unbounded;
    opened = T.mpsc.is_closed-unbounded;
  }
  Reaches-Queued l (turns {t = t} branch u r e) =
      let q = Reaches-Queued l r in
      let j : Joined T (arrivals T branch t) t u =
        subst (λ o. After T o (Joined T (arrivals T branch t) t)) e
          (turn-Joined T python branch t q.opened) in
      record {
        split = j.joined ∙ ap (λ (hs : List THandle). hs ++ arrivals T branch t) q.split;
        opened = j.opened;
      }
  Reaches-Queued l (others op r) =
      let q = Reaches-Queued l r in record { split = q.split; opened = q.opened }

  -- Along every run of the task, with the other threads doing what they like to the loop in between: the
  -- handles that it has taken to run are, in their order, the first of those that have arrived, and the
  -- rest of these, in their order, is what is ready. So the task refines a queue of handles.
  pub Reaches-Fifo :
      (l : TokioLoop T) {s : Running T} (r : Reaches T python (start T l) s)
      → arrived r ≡ taken_of T s.settled ++ T.mpsc.messages s.current_handles
  Reaches-Fifo l r = sym (Reaches-Queued l r).split

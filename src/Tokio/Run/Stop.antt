-- ===== src/Tokio/Run/Stop.antt =====
-- How `_run` of src/tokio_event_loop.rs ends, and what it gets done before.
use mathlib.Core.List.{map-append}
use tokioloop.Base.{
  ℕ, zero, suc, false, not, if◌then◌else◌, List, [], ◌∷◌, ◌++◌, append-nil, append_assoc, length,
  ◌≡◌, ap, ◌∙◌, sym, Bool-cases, inl, inr,
}
use tokioloop.Deps.{TokioDeps}
use tokioloop.Deps.Channel.{head?, tail}
use tokioloop.Tokio.Handle.{THandle, cancelled}
use tokioloop.Tokio.Loop.{TokioLoop}
use tokioloop.Tokio.Run.{
  handled, Running, Outcome, waits, goes_on, leaves, Python, run_handle, select, turn, run,
}
use tokioloop.Tokio.Run.Line.{taken_of}

module _ (T : TokioDeps) where
  abbrev pub next : Outcome T → (Running T → Outcome T) → Outcome T
  next waits f = waits
  next (leaves s) f = leaves s
  next (goes_on s) f = f s

  -- The task goes on, in a state with the property.
  abbrev pub GoesOn : Outcome T → (Running T → Type 0) → Type 0
  GoesOn waits P = ⊥
  GoesOn (leaves s) P = ⊥
  GoesOn (goes_on s) P = P s

  next-GoesOn :
      (P Q : Running T → Type 0) (o : Outcome T) (f : Running T → Outcome T)
      → GoesOn o P
      → ((s : Running T) → P s → GoesOn (f s) Q)
      → GoesOn (next o f) Q
  next-GoesOn P Q waits f h k = absurd h
  next-GoesOn P Q (leaves s) f h k = absurd h
  next-GoesOn P Q (goes_on s) f h k = k s h

  GoesOn-map :
      (P Q : Running T → Type 0) (o : Outcome T)
      → ((s : Running T) → P s → Q s)
      → GoesOn o P
      → GoesOn o Q
  GoesOn-map P Q waits f h = absurd h
  GoesOn-map P Q (leaves s) f h = absurd h
  GoesOn-map P Q (goes_on s) f h = f s h

module _ (T : TokioDeps) (python : Python T) where
  -- No handle that runs makes the loop stop.
  abbrev pub NeverStops : Type 0
  NeverStops =
      (h : THandle) (l : TokioLoop T) → l.stopping ≡ false → (run T python h l).stopping ≡ false

  -- So many turns in a row in which a handle is taken to run.
  unfoldable pub run_ready : ℕ → Running T → Outcome T
  run_ready zero s = goes_on s
  run_ready (suc n) s = next T (turn T python handled s) (run_ready n)

  -- The handles `hs` have been taken to run, in this order; `rest` is ready, and the loop is not
  -- stopping.
  pub record Took (hs rest : List THandle) (s s' : Running T) : Type 0 where
    pub taken : taken_of T s'.settled ≡ taken_of T s.settled ++ hs
    pub ready : T.mpsc.messages s'.current_handles ≡ rest
    pub on : s'.loop.stopping ≡ false

  -- The state after the first ready handle was taken.
  abbrev after : THandle → Running T → Running T
  after h s =
      let dropped = cancelled s.loop.flags h in
      record s {
        loop = if dropped then s.loop else run T python h s.loop;
        current_handles = (T.mpsc.recv s.current_handles).1;
        settled = s.settled ++ ((h, not dropped) ∷ []);
      }

  after-Took :
      (h : THandle) (hs : List THandle) (s : Running T)
      → NeverStops
      → s.loop.stopping ≡ false
      → T.mpsc.messages s.current_handles ≡ h ∷ hs
      → Took (h ∷ []) hs s (after h s)
  after-Took h hs s never on e = record {
    taken = rw map-append;
    ready = T.mpsc.messages-recv s.current_handles ∙ ap tail e;
    on = elim (Bool-cases (cancelled s.loop.flags h)) [
      | inl dead ↦ rw dead on
      | inr live ↦ rw live (never h s.loop on)
    ];
  }

  handled-GoesOn :
      (h : THandle) (hs : List THandle) (s : Running T)
      → NeverStops
      → s.loop.stopping ≡ false
      → T.mpsc.messages s.current_handles ≡ h ∷ hs
      → GoesOn T (turn T python handled s) (Took (h ∷ []) hs s)
  unfolding turn select run_handle
  handled-GoesOn h hs s never on e =
      let first = T.mpsc.recv_head s.current_handles ∙ ap head? e in
      let k = after-Took h hs s never on e in rw first (rw k.on k)

  Took-trans :
      (h : THandle) (hs rest : List THandle) (s t u : Running T)
      → Took (h ∷ []) hs s t
      → Took hs rest t u
      → Took (h ∷ hs) rest s u
  Took-trans h hs rest s t u a b = record {
    taken =
        b.taken
        ∙ ap (λ (m : List THandle). m ++ hs) a.taken
        ∙ append_assoc (taken_of T s.settled) (h ∷ []) hs;
    ready = b.ready;
    on = b.on;
  }

  -- If no handle makes the loop stop when it runs, then from a state that is not stopping, in as many turns
  -- of running handles as handles are ready, the task goes on, and takes all of them to run, in the
  -- order in which they are ready; none is ready then.
  pub run_ready-Took :
      (hs : List THandle) (s : Running T)
      → NeverStops
      → s.loop.stopping ≡ false
      → T.mpsc.messages s.current_handles ≡ hs
      → GoesOn T (run_ready (length hs) s) (Took hs [] s)
  unfolding run_ready
  run_ready-Took [] s never on e = record {
    taken = sym (append-nil (taken_of T s.settled));
    ready = e;
    on = on;
  }
  run_ready-Took (h ∷ hs) s never on e =
      next-GoesOn T (Took (h ∷ []) hs s) (Took (h ∷ hs) [] s) (turn T python handled s)
        (run_ready (length hs)) (handled-GoesOn h hs s never on e)
        (λ u a.
          GoesOn-map T (Took hs [] u) (Took (h ∷ hs) [] s) (run_ready (length hs) u)
            (λ v b. Took-trans h hs [] s u v a b) (run_ready-Took hs u never a.on a.ready))

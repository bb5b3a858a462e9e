-- ===== src/Tokio/Run/Line.antt =====
-- The handles that the task of `_run` of src/tokio_event_loop.rs has taken to run and those that are ready, in
-- a line, and what joins it.
use mathlib.Core.List.{map}
use tokioloop.Base.{
  ℕ, leb, Bool, false, if◌then◌else◌, some, List, [], ◌∷◌, ◌++◌, append-nil, append_assoc, ◌≡◌,
  refl, ap, ap₂, ◌∙◌, sym, arith, Bool-cases, inl, inr,
}
use tokioloop.Deps.{TokioDeps}
use tokioloop.Deps.Channel.{head?, tail}
use tokioloop.Tokio.Handle.{THandle, TokioTimer, cancelled}
use tokioloop.Tokio.Run.{Running, expire}

-- The timers at the front that are due.
abbrev pub due : ℕ → List TokioTimer → List TokioTimer
due now [] = []
due now (t ∷ ts) = if leb t.when now then t ∷ due now ts else []

-- The handles of the timers that are not cancelled.
abbrev pub live : (ℕ → Bool) → List TokioTimer → List THandle
live flags [] = []
live flags (t ∷ ts) = if cancelled flags t.handle then live flags ts else t.handle ∷ live flags ts

pub head?-tail {ℓ} : {A : Type ℓ} (xs : List A) (x : A) → head? xs ≡ some x → xs ≡ x ∷ tail xs
head?-tail [] x h = cc
head?-tail (y ∷ ys) x h = ground arith

module _ (T : TokioDeps) where
  abbrev pub taken_of : List (THandle × Bool) → List THandle
  taken_of = map λ e. e.0

  -- The handles that the task has taken to run, and then those that are ready, in their order.
  abbrev pub line : Running T → List THandle
  line s = taken_of s.settled ++ T.mpsc.messages s.current_handles

  -- The line has grown at its end by `new`, and the task's channel is open.
  pub record Joined (new : List THandle) (s s' : Running T) : Type 0 where
    pub joined : line s' ≡ line s ++ new
    pub opened : T.mpsc.is_closed s'.current_handles ≡ false

  -- `new` has been sent to the task's channel, which is open, and nothing has been taken out of it.
  pub record Sends (new : List THandle) (s s' : Running T) : Type 0 where
    pub ready : T.mpsc.messages s'.current_handles ≡ T.mpsc.messages s.current_handles ++ new
    pub same_settled : s'.settled ≡ s.settled
    pub still_open : T.mpsc.is_closed s'.current_handles ≡ false

  pub Sends-Joined : (new : List THandle) (s s' : Running T) → Sends new s s' → Joined new s s'
  Sends-Joined new s s' k = record {
    joined =
        ap₂ (λ (a : List (THandle × Bool)) (b : List THandle). taken_of a ++ b) k.same_settled
          k.ready
        ∙ sym (append_assoc (taken_of s.settled) (T.mpsc.messages s.current_handles) new);
    opened = k.still_open;
  }

  -- Nothing joins where neither the channel nor what is settled changes.
  pub same-Sends :
      (s s' : Running T)
      → T.mpsc.is_closed s.current_handles ≡ false
      → s'.settled ≡ s.settled
      → s'.current_handles ≡ s.current_handles
      → Sends [] s s'
  same-Sends s s' o e c = record {
    ready = ap T.mpsc.messages c ∙ sym (append-nil (T.mpsc.messages s.current_handles));
    same_settled = e;
    still_open = ap T.mpsc.is_closed c ∙ o;
  }

  pub send-Sends :
      (h : THandle) (s : Running T)
      → T.mpsc.is_closed s.current_handles ≡ false
      → Sends (h ∷ []) s (record s { current_handles = (T.mpsc.send h s.current_handles).1 })
  send-Sends h s o = record {
    ready = T.mpsc.messages-send h s.current_handles o;
    same_settled = refl;
    still_open = T.mpsc.is_closed-send h s.current_handles ∙ o;
  }

  pub Sends-trans :
      (a b : List THandle) (s t u : Running T) → Sends a s t → Sends b t u → Sends (a ++ b) s u
  Sends-trans a b s t u h k = record {
    ready =
        k.ready
        ∙ ap (λ (m : List THandle). m ++ b) h.ready
        ∙ append_assoc (T.mpsc.messages s.current_handles) a b;
    same_settled = k.same_settled ∙ h.same_settled;
    still_open = k.still_open;
  }

  pub expire-Sends :
      (now : ℕ) (ts : List TokioTimer) (s : Running T)
      → T.mpsc.is_closed s.current_handles ≡ false
      → Sends (live s.loop.flags (due now ts)) s (expire T now ts s)
  unfolding expire
  expire-Sends now [] s o = same-Sends s (record s { delayed_tasks = [] }) o refl refl
  expire-Sends now (t ∷ ts) s o = elim (Bool-cases (leb t.when now)) [
    | inr later ↦
        rw (later, due, expire) (same-Sends s (record s { delayed_tasks = t ∷ ts }) o refl refl)
    | inl ripe ↦ elim (Bool-cases (cancelled s.loop.flags t.handle)) [
      | inl dead ↦
          rw (ripe, due, expire)
            (rw dead (
              Sends-trans [] (live s.loop.flags (due now ts)) s
                (record s { expired = s.expired ++ (t.handle ∷ []) })
                (expire T now ts (record s { expired = s.expired ++ (t.handle ∷ []) }))
                (same-Sends s (record s { expired = s.expired ++ (t.handle ∷ []) }) o refl refl)
                (expire-Sends now ts (record s { expired = s.expired ++ (t.handle ∷ []) }) o)))
      | inr alive ↦
          let s1 : Running T = record s {
            current_handles = (T.mpsc.send t.handle s.current_handles).1;
          } in
          let first = send-Sends t.handle s o in
          rw (ripe, due, expire)
            (rw alive (
              Sends-trans (t.handle ∷ []) (live s.loop.flags (due now ts)) s s1 (expire T now ts s1)
                first (expire-Sends now ts s1 first.still_open)))
    ]
  ]

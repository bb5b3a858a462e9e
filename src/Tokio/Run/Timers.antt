-- ===== src/Tokio/Run/Timers.antt =====
-- The timers of the task of `_run` of src/tokio_event_loop.rs: the loop over the heap, against the set of
-- the timers that are due.
use tokioloop.Base.{
  ℕ, ltb, leb, false, Option, none, some, List, [], ◌∷◌, ◌++◌, ◌≡◌, refl, ap, ◌∙◌, sym, subst,
  arith, Bool-cases, inl, inr,
}
use tokioloop.Deps.{TokioDeps}
use tokioloop.Tokio.Handle.{THandle, TokioTimer, cancelled}
use tokioloop.Tokio.Handle.Order.{
  IsOrdered, heap_push-IsOrdered, ripe, unripe, ripe-From, unripe-From, unripe-IsOrdered,
}
use tokioloop.Tokio.Loop.{TokioLoop, ScheduledTask, immediate, delayed}
use tokioloop.Tokio.Run.{
  check_stop, Branch, received, timers, slept, signalled, handled, Running, Outcome, waits, goes_on,
  leaves, Python, receive, expire, run_timers, receive_signal, run_handle, select, start, turn,
  After, Reaches,
}
use tokioloop.Tokio.Run.Reaches.{here, turns, others}
use tokioloop.Tokio.Run.Rules.{ends_if, check_stop-After}
use tokioloop.Tokio.Run.Line.{expire-Sends, live, due, Joined}
use tokioloop.Tokio.Run.Order.{arrivals, turn-Joined}

due-ripe : (now : ℕ) (ts : List TokioTimer) → IsOrdered ts → due now ts ≡ ripe now ts
due-ripe now [] o = refl
due-ripe now (t ∷ ts) o = elim (Bool-cases (leb t.when now)) [
  | inl is_due ↦ rw (is_due, due) (ap (◌∷◌ t) (due-ripe now ts o.1))
  | inr later ↦ rw (later, due) (sym (ripe-From now t.when ts (ground arith) o.0))
]

module _ (T : TokioDeps) where
  expire-unripe :
      (now : ℕ) (ts : List TokioTimer) (s : Running T)
      → IsOrdered ts
      → (expire T now ts s).delayed_tasks ≡ unripe now ts
  unfolding expire
  expire-unripe now [] s o = refl
  expire-unripe now (t ∷ ts) s o = elim (Bool-cases (leb t.when now)) [
    | inl is_due ↦ elim (Bool-cases (cancelled s.loop.flags t.handle)) [
      | inl dead ↦
          rw (is_due, expire)
            (rw dead
              (expire-unripe now ts (record s { expired = s.expired ++ (t.handle ∷ []) }) o.1))
      | inr alive ↦
          rw (is_due, expire)
            (rw alive (
              expire-unripe now ts
                (record s { current_handles = (T.mpsc.send t.handle s.current_handles).1 }) o.1))
    ]
    | inr later ↦
        rw (later, expire) (ap (◌∷◌ t) (sym (unripe-From now t.when ts (ground arith) o.0)))
  ]

  -- The task's channel is open, and its timers are in their order.
  record Sorted (s : Running T) : Type 0 where
    ordered : IsOrdered s.delayed_tasks
    opened : T.mpsc.is_closed s.current_handles ≡ false

  -- The timers that were due at `now`, wherever they stood, are no more in the heap, and those of them that
  -- are not cancelled are ready to run; the others are in it.
  pub record Fired (now : ℕ) (s s' : Running T) : Type 0 where
    pub left : s'.delayed_tasks ≡ unripe now s.delayed_tasks
    pub ready :
        T.mpsc.messages s'.current_handles
        ≡ T.mpsc.messages s.current_handles ++ live s.loop.flags (ripe now s.delayed_tasks)

  -- No timer is due if the branch sleeps.
  abbrev pub Fires : ℕ → ℕ → Running T → Outcome T → Type 0
  Fires current now s waits = ripe current s.delayed_tasks ≡ []
  Fires current now s (goes_on s') = Fired now s s'
  Fires current now s (leaves s') = Fired now s s'

  expire-Fired : (now : ℕ) (s : Running T) → Sorted s → Fired now s (expire T now s.delayed_tasks s)
  expire-Fired now s k =
      let sent = expire-Sends T now s.delayed_tasks s k.opened in
      record {
        left = expire-unripe now s.delayed_tasks s k.ordered;
        ready =
            sent.ready
            ∙ ap
                (λ (ts : List TokioTimer).
                  T.mpsc.messages s.current_handles ++ live s.loop.flags ts)
                (due-ripe now s.delayed_tasks k.ordered);
      }

  run_timers-Fires :
      (current now : ℕ) (ts : List TokioTimer) (s : Running T)
      → s.delayed_tasks ≡ ts
      → Sorted s
      → Fires current now s (run_timers T current now ts s)
  unfolding run_timers
  run_timers-Fires current now [] s e k = ap (ripe current) e
  run_timers-Fires current now (t ∷ ts) s e k =
      let ordered = subst IsOrdered e k.ordered in
      elim (Bool-cases (ltb current t.when)) [
        | inl early ↦ rw early (
            ap (ripe current) e
            ∙ ripe-From current t.when (t ∷ ts) (ground arith) (omega arith, ordered.0))
        | inr fires ↦ rw fires (
            subst (λ (us : List TokioTimer). Fired now s (expire T now us s)) e
              (expire-Fired now s k))
      ]

  -- The timers are in their order.
  abbrev InOrder : Running T → Type 0
  InOrder s = IsOrdered s.delayed_tasks

  receive-InOrder :
      (task : Option ScheduledTask) (s : Running T) → InOrder s → After T (receive T task s) InOrder
  unfolding receive
  receive-InOrder (some (immediate h)) s o = o
  receive-InOrder (some (delayed t)) s o = heap_push-IsOrdered t s.delayed_tasks o
  receive-InOrder none s o = ends_if T InOrder (T.async_channel.is_closed s.loop.scheduler) s o

  run_timers-InOrder :
      (current now : ℕ) (ts : List TokioTimer) (s : Running T)
      → IsOrdered ts
      → After T (run_timers T current now ts s) InOrder
  unfolding run_timers
  run_timers-InOrder current now [] s o = tt
  run_timers-InOrder current now (t ∷ ts) s o = elim (Bool-cases (ltb current t.when)) [
    | inl early ↦ rw early tt
    | inr fires ↦
        rw fires
          (subst IsOrdered (sym (expire-unripe now (t ∷ ts) s o)) (unripe-IsOrdered now (t ∷ ts) o))
  ]

  receive_signal-InOrder :
      (sig : Option ℕ) (s : Running T) → InOrder s → After T (receive_signal T sig s) InOrder
  unfolding receive_signal
  receive_signal-InOrder (some sig) s o = elim (Bool-cases s.loop.sig_listening) [
    | inl on ↦ simp on o
    | inr off ↦ simp off o
  ]
  receive_signal-InOrder none s o =
      ends_if T InOrder (T.async_channel.is_closed s.loop.signal_socket) s o

  run_handle-InOrder :
      (python : Python T) (handle : Option THandle) (s : Running T)
      → InOrder s
      → After T (run_handle T python handle s) InOrder
  unfolding run_handle
  run_handle-InOrder python (some handle) s o = o
  run_handle-InOrder python none s o = ends_if T InOrder (T.mpsc.is_closed s.current_handles) s o

  select-InOrder :
      (python : Python T) (branch : Branch) (s : Running T)
      → InOrder s
      → After T (select T python branch s) InOrder
  unfolding select
  select-InOrder python received s o =
      let (task, rest) = T.async_channel.recv s.loop.scheduler in
      receive-InOrder task (record s { loop = record s.loop { scheduler = rest } }) o
  select-InOrder python (timers current now) s o =
      run_timers-InOrder current now s.delayed_tasks s o
  select-InOrder python slept s o = o
  select-InOrder python signalled s o =
      let (sig, rest) = T.async_channel.recv s.loop.signal_socket in
      receive_signal-InOrder sig (record s { loop = record s.loop { signal_socket = rest } }) o
  select-InOrder python handled s o =
      let (handle, rest) = T.mpsc.recv s.current_handles in
      run_handle-InOrder python handle (record s { current_handles = rest }) o

  After-Sorted :
      (new : List THandle) (s : Running T) (o : Outcome T)
      → After T o InOrder
      → After T o (Joined T new s)
      → After T o Sorted
  After-Sorted new s waits i j = tt
  After-Sorted new s (goes_on u) i j = record { ordered = i; opened = j.opened }
  After-Sorted new s (leaves u) i j = record { ordered = i; opened = j.opened }

  turn-Sorted :
      (python : Python T) (branch : Branch) (s : Running T)
      → Sorted s
      → After T (turn T python branch s) Sorted
  unfolding turn
  turn-Sorted python branch s k =
      After-Sorted (arrivals T branch s) s (turn T python branch s)
        (check_stop-After T InOrder (select T python branch s)
          (select-InOrder python branch s k.ordered))
        (turn-Joined T python branch s k.opened)

  Reaches-Sorted :
      (python : Python T) (l : TokioLoop T) {s : Running T}
      → Reaches T python (start T l) s
      → Sorted s
  unfolding start
  Reaches-Sorted python l here = record { ordered = tt; opened = T.mpsc.is_closed-unbounded }
  Reaches-Sorted python l (turns {t = t} branch u r e) =
      subst (λ o. After T o Sorted) e (turn-Sorted python branch t (Reaches-Sorted python l r))
  Reaches-Sorted python l (others {t = t} op r) =
      let k = Reaches-Sorted python l r in record { ordered = k.ordered; opened = k.opened }

  check_stop-Fires :
      (current now : ℕ) (s : Running T) (o : Outcome T)
      → Fires current now s o
      → Fires current now s (check_stop T o)
  check_stop-Fires current now s waits h = h
  check_stop-Fires current now s (leaves u) h = h
  check_stop-Fires current now s (goes_on u) h = elim (Bool-cases u.loop.stopping) [
    | inl stopping ↦ simp stopping h
    | inr on ↦ simp on h
  ]

  -- However the task got there: if its branch of the timers sleeps, then no timer that it holds is due at the
  -- clock's first reading. If it fires, it makes ready exactly the timers that are due at the second
  -- reading and not cancelled, in the order of the heap, and drops the cancelled ones; exactly those
  -- that are not due stay.
  pub turn-Fires :
      (python : Python T) (l : TokioLoop T) (current now : ℕ) {s : Running T}
      → Reaches T python (start T l) s
      → Fires current now s (turn T python (timers current now) s)
  unfolding turn select
  turn-Fires python l current now {s = s} r =
      check_stop-Fires current now s (run_timers T current now s.delayed_tasks s)
        (run_timers-Fires current now s.delayed_tasks s refl (Reaches-Sorted python l r))

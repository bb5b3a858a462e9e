-- ===== src/Tokio/Run/Ends.antt =====
-- `_stop` and the end of `_run` of src/tokio_event_loop.rs.
use tokioloop.Base.{
  ℕ, ◌==◌, true, ◌||◌, not, Option, none, some, List, [], ◌∷◌, ◌++◌, leb, ltb, ◌≡◌, refl, ap, ◌∙◌,
  Bool-cases, inl, inr,
}
use tokioloop.Deps.{TokioDeps}
use tokioloop.Tokio.Handle.{THandle, TokioTimer, cancelled, PyCall, call_of, call_exc_handler}
use tokioloop.Tokio.Loop.{TokioLoop, ScheduledTask, immediate, delayed, stop}
use tokioloop.Tokio.Run.{
  call_python, Branch, received, timers, slept, signalled, handled, Running, Outcome, waits,
  goes_on, leaves, Python, receive, expire, run_timers, take_signal, receive_signal, run_handle,
  select, turn, check_stop, After, run,
}
use tokioloop.Tokio.Run.Rules.{ends_if, either_way}
use tokioloop.Tokio.Run.Halted.{NoneResumes, Halted, Halted-trans, perform_all-Halted}

module _ (T : TokioDeps) where
  -- The task, when it is stopping, in a state that differs in what it had not accepted.
  abbrev pub HaltedTask : Running T → Running T → Type 0
  HaltedTask s u = Halted T s.loop u.loop

  -- The task does not go on: the branch is not ready, or the task leaves in a state with the property.
  abbrev pub Ends : Outcome T → (Running T → Type 0) → Type 0
  Ends waits P = Unit {0}
  Ends (goes_on s) P = ⊥
  Ends (leaves s) P = P s

  module _ (python : Python T)
      (stays : (c : PyCall) (l : TokioLoop T) → NoneResumes (python c l).0) where
    call_python-Halted :
        (c : PyCall) (l : TokioLoop T) → l.stopping ≡ true → Halted T l (call_python T python c l).1
    unfolding call_python
    call_python-Halted c l s =
        let l1 = record l { called = l.called ++ (c ∷ []) } in
        let k = perform_all-Halted T (python c l).0 l1 (stays c l) s in
        record { stopped = k.stopped; none_new = k.none_new }

    run-Halted : (h : THandle) (l : TokioLoop T) → l.stopping ≡ true → Halted T l (run T python h l)
    unfolding run
    run-Halted h l s =
        let first = call_python T python (call_of h) l in
        let l1 = first.1 in
        let handler = call_exc_handler l1.exc_handler l1.exception_handler in
        let k = call_python-Halted (call_of h) l s in
        elim (Bool-cases first.0) [
          | inl raised ↦ rw raised (
              Halted-trans T l l1 (call_python T python handler l1).1 k
                (call_python-Halted handler l1 k.stopped))
          | inr quiet ↦ rw quiet k
        ]

    expire-loop :
        (now : ℕ) (ts : List TokioTimer) (s : Running T) → (expire T now ts s).loop ≡ s.loop
    unfolding expire
    expire-loop now [] s = refl
    expire-loop now (t ∷ ts) s = elim (Bool-cases (leb t.when now)) [
      | inr later ↦ rw (later, expire) refl
      | inl due ↦ elim (Bool-cases (cancelled s.loop.flags t.handle)) [
        | inl dead ↦
            rw (due, expire)
              (rw dead (expire-loop now ts (record s { expired = s.expired ++ (t.handle ∷ []) })))
        | inr live ↦
            rw (due, expire)
              (rw live (
                expire-loop now ts
                  (record s { current_handles = (T.mpsc.send t.handle s.current_handles).1 })))
      ]
    ]

    run_timers-Halted :
        (current now : ℕ) (ts : List TokioTimer) (s : Running T)
        → s.loop.stopping ≡ true
        → After T (run_timers T current now ts s) (HaltedTask s)
    unfolding run_timers
    run_timers-Halted current now [] s h = tt
    run_timers-Halted current now (t ∷ ts) s h = elim (Bool-cases (ltb current t.when)) [
      | inl early ↦ rw early tt
      | inr due ↦
          let same = expire-loop now (t ∷ ts) s in
          rw due (record {
            stopped = ap (λ (l : TokioLoop T). l.stopping) same ∙ h;
            none_new = ap (λ (l : TokioLoop T). l.accepted) same;
          })
    ]

    module _ (l : TokioLoop T) where
      receive-Halted :
          (k : Option ScheduledTask) (s : Running T)
          → Halted T l s.loop
          → After T (receive T k s) (λ u. Halted T l u.loop)
      unfolding receive
      receive-Halted none s h =
          ends_if T (λ u. Halted T l u.loop) (T.async_channel.is_closed s.loop.scheduler) s h
      receive-Halted (some (immediate a)) s h = h
      receive-Halted (some (delayed t)) s h = h

      take_signal-Halted :
          (sig : ℕ) (m : TokioLoop T) → Halted T l m → Halted T l (take_signal T sig m)
      unfolding take_signal
      take_signal-Halted sig m h = elim (Bool-cases (sig == 2 || sig == 15)) [
        | inl ends ↦ rw ends (record { stopped = refl; none_new = h.none_new })
        | inr goes ↦ rw goes h
      ]

      receive_signal-Halted :
          (sig : Option ℕ) (s : Running T)
          → Halted T l s.loop
          → After T (receive_signal T sig s) (λ u. Halted T l u.loop)
      unfolding receive_signal
      receive_signal-Halted none s h =
          ends_if T (λ u. Halted T l u.loop) (T.async_channel.is_closed s.loop.signal_socket) s h
      receive_signal-Halted (some sig) s h =
          either_way T (λ u. Halted T l u.loop) (not s.loop.sig_listening)
            (record s { loop = take_signal T sig s.loop }) (take_signal-Halted sig s.loop h)

      run_handle-Halted :
          (k : Option THandle) (s : Running T)
          → Halted T l s.loop
          → After T (run_handle T python k s) (λ u. Halted T l u.loop)
      unfolding run_handle
      run_handle-Halted none s h =
          ends_if T (λ u. Halted T l u.loop) (T.mpsc.is_closed s.current_handles) s h
      run_handle-Halted (some a) s h = elim (Bool-cases (cancelled s.loop.flags a)) [
        | inl dead ↦ rw dead h
        | inr live ↦
            rw live
              (Halted-trans T l s.loop (run T python a s.loop) h (run-Halted a s.loop h.stopped))
      ]

    select-Halted :
        (branch : Branch) (s : Running T)
        → s.loop.stopping ≡ true
        → After T (select T python branch s) (HaltedTask s)
    unfolding select
    select-Halted received s h =
        let (k, rest) = T.async_channel.recv s.loop.scheduler in
        receive-Halted s.loop k (record s { loop = record s.loop { scheduler = rest } })
          (record { stopped = h; none_new = refl })
    select-Halted (timers current now) s h = run_timers-Halted current now s.delayed_tasks s h
    select-Halted slept s h = record { stopped = h; none_new = refl }
    select-Halted signalled s h =
        let (sig, rest) = T.async_channel.recv s.loop.signal_socket in
        receive_signal-Halted s.loop sig
          (record s { loop = record s.loop { signal_socket = rest } })
          (record { stopped = h; none_new = refl })
    select-Halted handled s h =
        run_handle-Halted s.loop (T.mpsc.recv s.current_handles).0
          (record s { current_handles = (T.mpsc.recv s.current_handles).1 })
          (record { stopped = h; none_new = refl })

    check_stop-Ends :
        (s : Running T) (o : Outcome T)
        → After T o (HaltedTask s)
        → Ends (check_stop T o) (HaltedTask s)
    check_stop-Ends s waits h = tt
    check_stop-Ends s (leaves u) h = h
    check_stop-Ends s (goes_on u) h = simp h.stopped h

    -- After `_stop`, if no callback sets `_stopping` to false, the task leaves in the next branch that
    -- completes, whichever it is; what that branch runs cannot schedule anything more, nor make the loop go on. A sleep of a millisecond at most
    -- completes by itself, and the task leaves then with its state as it is.
    pub stop-Ends :
        (branch : Branch) (s : Running T)
        → let s1 : Running T = record s { loop = stop T s.loop } in
          Ends (turn T python branch s1) (HaltedTask s1) × (turn T python slept s1 ≡ leaves s1)
    unfolding turn stop select
    stop-Ends branch s =
        let s1 : Running T = record s { loop = stop T s.loop } in
        (check_stop-Ends s1 (select T python branch s1) (select-Halted branch s1 refl), refl)

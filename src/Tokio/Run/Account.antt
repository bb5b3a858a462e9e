-- ===== src/Tokio/Run/Account.antt =====
-- No handle is lost and none runs twice while `_run` of src/tokio_event_loop.rs goes on.
use tokioloop.Base.{
  sum_of, sum_of-append, ℕ, ◌+◌, ◌==◌, ltb, leb, Bool, true, false, ◌||◌, not, Option, none, some,
  List, [], ◌∷◌, ◌++◌, ◌≡◌, refl, ◌∙◌, subst, arith, Bool-cases, inl, inr,
}
use tokioloop.Deps.{TokioDeps}
use tokioloop.Tokio.Handle.{THandle, TokioTimer, cancelled, heap_push, cmp, is_greater}
use tokioloop.Tokio.Loop.{TokioLoop, ScheduledTask, immediate, delayed, handle_of}
use tokioloop.Tokio.Run.{
  Op, Branch, received, timers, slept, signalled, handled, Running, Python, start, receive, expire,
  run_timers, take_signal, receive_signal, run_handle, select, turn, After, Reaches, here, turns,
  others, perform,
}
use tokioloop.Tokio.Run.Count.{
  send-sum, recv-sum, recv-sum_none, weigh, loop_sum, perform-Balanced, run-Balanced,
}
use tokioloop.Tokio.Run.Rules.{ends_if, either_way, check_stop-After}

module _ (T : TokioDeps) where
  -- How often a handle is with the task: with a timer, ready to run, settled, or cancelled in time.
  abbrev pub task_sum : (THandle → Bool) → Running T → ℕ
  task_sum p s =
      sum_of (λ (t : TokioTimer). weigh T p t.handle) s.delayed_tasks
      + sum_of (weigh T p) (T.mpsc.messages s.current_handles)
      + sum_of (λ (e : THandle × Bool). weigh T p e.0) s.settled
      + sum_of (weigh T p) s.expired

  -- By every test `p` on handles, as many of those that the scheduler's channel has accepted pass as of
  -- those that are in it or with the task; and the task's own channel is open.
  pub record Accounts (s : Running T) : Type 0 where
    pub counted :
        (p : THandle → Bool)
        → sum_of (weigh T p) s.loop.accepted ≡ loop_sum T p s.loop + task_sum p s
    pub opened : T.mpsc.is_closed s.current_handles ≡ false

  module _ (p : THandle → Bool) where
    heap_push-sum :
        (t : TokioTimer) (ts : List TokioTimer)
        → sum_of (λ (t : TokioTimer). weigh T p t.handle) (heap_push t ts)
          ≡ weigh T p t.handle + sum_of (λ (t : TokioTimer). weigh T p t.handle) ts
    unfolding heap_push
    heap_push-sum t [] = refl
    heap_push-sum t (x ∷ xs) = elim (Bool-cases (is_greater (cmp t x))) [
      | inl first ↦ rw (first, heap_push) refl
      | inr later ↦ rw (later, heap_push) (omega (arith, heap_push-sum t xs))
    ]

  -- A handle that is sent to the task's open channel is in it.
  send-opened :
      (h : THandle) (c : T.mpsc.Chan THandle)
      → T.mpsc.is_closed c ≡ false
      → (p : THandle → Bool)
      → sum_of (weigh T p) (T.mpsc.messages (T.mpsc.send h c).1)
        ≡ weigh T p h + sum_of (weigh T p) (T.mpsc.messages c)
  send-opened h c o p =
      let taken : (T.mpsc.send h c).0 ≡ true = ground (arith, T.mpsc.send_answer h c) in
      rw taken at (send-sum (weigh T p) T.mpsc h c)

  expire-Accounts :
      (now : ℕ) (ts : List TokioTimer) (s : Running T)
      → Accounts (record s { delayed_tasks = ts })
      → Accounts (expire T now ts s)
  unfolding expire
  expire-Accounts now [] s a = a
  expire-Accounts now (t ∷ ts) s a = elim (Bool-cases (leb t.when now)) [
    | inr later ↦ rw (later, expire) a
    | inl due ↦ elim (Bool-cases (cancelled s.loop.flags t.handle)) [
      | inl dead ↦
          rw (due, expire)
            (rw dead (
              expire-Accounts now ts (record s { expired = s.expired ++ (t.handle ∷ []) })
                (record {
                  counted = λ p.
                      omega
                        (arith, a.counted p, sum_of-append (weigh T p) s.expired (t.handle ∷ []));
                  opened = a.opened;
                })))
      | inr live ↦
          rw (due, expire)
            (rw live (
              expire-Accounts now ts
                (record s { current_handles = (T.mpsc.send t.handle s.current_handles).1 })
                (record {
                  counted = λ p.
                      omega (arith, a.counted p, send-opened t.handle s.current_handles a.opened p);
                  opened = T.mpsc.is_closed-send t.handle s.current_handles ∙ a.opened;
                })))
    ]
  ]

  run_timers-Accounts :
      (current now : ℕ) (ts : List TokioTimer) (s : Running T)
      → Accounts (record s { delayed_tasks = ts })
      → After T (run_timers T current now ts s) Accounts
  unfolding run_timers
  run_timers-Accounts current now [] s a = tt
  run_timers-Accounts current now (t ∷ ts) s a = elim (Bool-cases (ltb current t.when)) [
    | inl early ↦ rw early tt
    | inr due ↦ rw due (expire-Accounts now (t ∷ ts) s a)
  ]

  -- The state with what is left in the scheduler's channel.
  abbrev taken : Running T → Running T
  taken s = record s {
    loop = record s.loop { scheduler = (T.async_channel.recv s.loop.scheduler).1 };
  }

  receive-Accounts :
      (k : Option ScheduledTask) (s : Running T)
      → (T.async_channel.recv s.loop.scheduler).0 ≡ k
      → Accounts s
      → After T (receive T k (taken s)) Accounts
  unfolding receive
  receive-Accounts none s e a =
      let left : Accounts (taken s) = record {
        counted = λ p. omega (
          arith,
          a.counted p,
          recv-sum_none (λ k. weigh T p (handle_of k)) T.async_channel s.loop.scheduler e,
        );
        opened = a.opened;
      } in
      ends_if T Accounts (T.async_channel.is_closed (taken s).loop.scheduler) (taken s) left
  receive-Accounts (some (immediate h)) s e a = record {
    counted = λ p. omega (
      arith,
      a.counted p,
      recv-sum (λ k. weigh T p (handle_of k)) T.async_channel (immediate h) s.loop.scheduler e,
      send-opened h s.current_handles a.opened p,
    );
    opened = T.mpsc.is_closed-send h s.current_handles ∙ a.opened;
  }
  receive-Accounts (some (delayed t)) s e a = record {
    counted = λ p. omega (
      arith,
      a.counted p,
      recv-sum (λ k. weigh T p (handle_of k)) T.async_channel (delayed t) s.loop.scheduler e,
      heap_push-sum p t s.delayed_tasks,
    );
    opened = a.opened;
  }

  take_signal-Accounts :
      (sig : ℕ) (s : Running T)
      → Accounts s
      → Accounts (record s { loop = take_signal T sig s.loop })
  unfolding take_signal
  take_signal-Accounts sig s a = elim (Bool-cases (sig == 2 || sig == 15)) [
    | inl stops ↦ rw stops (record { counted = a.counted; opened = a.opened })
    | inr goes ↦ rw goes a
  ]

  -- The signals have no part in it.
  receive_signal-Accounts :
      (sig : Option ℕ) (s : Running T) → Accounts s → After T (receive_signal T sig s) Accounts
  unfolding receive_signal
  receive_signal-Accounts none s a =
      ends_if T Accounts (T.async_channel.is_closed s.loop.signal_socket) s a
  receive_signal-Accounts (some sig) s a =
      either_way T Accounts (not s.loop.sig_listening)
        (record s { loop = take_signal T sig s.loop }) (take_signal-Accounts sig s a)

  run_handle-Accounts :
      (python : Python T) (k : Option THandle) (s : Running T)
      → (T.mpsc.recv s.current_handles).0 ≡ k
      → Accounts s
      → After T
          (run_handle T python k (record s { current_handles = (T.mpsc.recv s.current_handles).1 }))
          Accounts
  unfolding run_handle
  run_handle-Accounts python none s e a =
      let left : Accounts (record s { current_handles = (T.mpsc.recv s.current_handles).1 }) =
        record {
          counted =
              λ p. omega (arith, a.counted p, recv-sum_none (weigh T p) T.mpsc s.current_handles e);
          opened = T.mpsc.is_closed-recv s.current_handles ∙ a.opened;
        } in
      ends_if T Accounts (T.mpsc.is_closed (T.mpsc.recv s.current_handles).1)
        (record s { current_handles = (T.mpsc.recv s.current_handles).1 }) left
  run_handle-Accounts python (some h) s e a =
      let got = λ (p : THandle → Bool). recv-sum (weigh T p) T.mpsc h s.current_handles e in
      let opened : T.mpsc.is_closed (T.mpsc.recv s.current_handles).1 ≡ false =
        T.mpsc.is_closed-recv s.current_handles ∙ a.opened in
      let settled = λ (p : THandle → Bool) (b : Bool).
        sum_of-append (λ (e : THandle × Bool). weigh T p e.0) s.settled ((h, b) ∷ []) in
      elim (Bool-cases (cancelled s.loop.flags h)) [
        | inl dead ↦ rw dead (record {
          counted = λ p. omega (arith, a.counted p, got p, settled p false);
          opened = opened;
        })
        | inr live ↦ rw live (record {
          counted = λ p.
              omega (arith, a.counted p, got p, settled p true, run-Balanced T p python h s.loop);
          opened = opened;
        })
      ]

  select-Accounts :
      (python : Python T) (branch : Branch) (s : Running T)
      → Accounts s
      → After T (select T python branch s) Accounts
  unfolding select
  select-Accounts python received s a =
      receive-Accounts (T.async_channel.recv s.loop.scheduler).0 s refl a
  select-Accounts python (timers current now) s a =
      run_timers-Accounts current now s.delayed_tasks s a
  select-Accounts python slept s a = a
  select-Accounts python signalled s a =
      receive_signal-Accounts (T.async_channel.recv s.loop.signal_socket).0
        (record s {
          loop = record s.loop { signal_socket = (T.async_channel.recv s.loop.signal_socket).1 };
        })
        (record { counted = a.counted; opened = a.opened })
  select-Accounts python handled s a =
      run_handle-Accounts python (T.mpsc.recv s.current_handles).0 s refl a

  turn-Accounts :
      (python : Python T) (branch : Branch) (s : Running T)
      → Accounts s
      → After T (turn T python branch s) Accounts
  unfolding turn
  turn-Accounts python branch s a =
      check_stop-After T Accounts (select T python branch s) (select-Accounts python branch s a)

  others-Accounts :
      (op : Op) (s : Running T) → Accounts s → Accounts (record s { loop = perform T op s.loop })
  others-Accounts op s a = record {
    counted = λ p. omega (arith, a.counted p, perform-Balanced T p op s.loop);
    opened = a.opened;
  }

  start-Accounts :
      (l : TokioLoop T)
      → ((p : THandle → Bool) → sum_of (weigh T p) l.accepted ≡ loop_sum T p l)
      → Accounts (start T l)
  unfolding start
  start-Accounts l fresh = record {
    counted = λ p. rw T.mpsc.messages-unbounded (omega (arith, fresh p));
    opened = T.mpsc.is_closed-unbounded;
  }

  -- A task that starts on a loop whose channel holds what it has accepted, and goes on with branches in
  -- any order, the other threads doing what they like to the loop in between, and callbacks too: by
  -- every test on handles, as many of those that the channel has accepted pass as of those that are in
  -- it, wait for their time, are ready to run, were settled, or were cancelled in time. So none is
  -- lost and none is settled twice.
  pub run-Accounts :
      (python : Python T) (l : TokioLoop T) {s : Running T}
      → ((p : THandle → Bool) → sum_of (weigh T p) l.accepted ≡ loop_sum T p l)
      → Reaches T python (start T l) s
      → Accounts s
  run-Accounts python l fresh here = start-Accounts l fresh
  run-Accounts python l fresh (turns {t = t} branch u r e) =
      subst (λ o. After T o Accounts) e
        (turn-Accounts python branch t (run-Accounts python l fresh r))
  run-Accounts python l fresh (others {t = t} op r) =
      others-Accounts op t (run-Accounts python l fresh r)

-- ===== src/Tokio/Run/Order.antt =====
-- The order in which `_run` of src/tokio_event_loop.rs runs handles.
use mathlib.Core.List.{map-append}
use tokioloop.Base.{
  ℕ, ltb, Bool, false, not, if◌then◌else◌, Option, none, some, List, [], ◌∷◌, ◌++◌, append-nil,
  append_assoc, ◌≡◌, refl, ap, ◌∙◌, sym, arith, Bool-cases, inl, inr,
}
use tokioloop.Deps.{TokioDeps}
use tokioloop.Deps.Channel.{tail}
use tokioloop.Tokio.Handle.{THandle, TokioTimer, cancelled, heap_push}
use tokioloop.Tokio.Loop.{TokioLoop, ScheduledTask, immediate, delayed}
use tokioloop.Tokio.Run.{
  Branch, received, timers, slept, signalled, handled, Running, Outcome, Python, receive, expire,
  run_timers, take_signal, receive_signal, run_handle, select, turn, After,
}
use tokioloop.Tokio.Run.Rules.{After-map, ends_if, either_way, check_stop-After}
use tokioloop.Tokio.Run.Line.{
  due, live, head?-tail, taken_of, line, Joined, Sends-Joined, same-Sends, send-Sends, expire-Sends,
}

module _ (T : TokioDeps) where
  abbrev arrival : Option ScheduledTask → List THandle
  arrival (some (immediate h)) = h ∷ []
  arrival (some (delayed t)) = []
  arrival none = []

  abbrev expired_at : ℕ → ℕ → (ℕ → Bool) → List TokioTimer → List THandle
  expired_at current now flags [] = []
  expired_at current now flags (t ∷ ts) =
      if ltb current t.when then [] else live flags (due now (t ∷ ts))

  -- What joins the line in a branch.
  abbrev pub arrivals : Branch → Running T → List THandle
  arrivals received s = arrival (T.async_channel.recv s.loop.scheduler).0
  arrivals (timers current now) s = expired_at current now s.loop.flags s.delayed_tasks
  arrivals slept s = []
  arrivals signalled s = []
  arrivals handled s = []

  run_timers-Joined :
      (current now : ℕ) (ts : List TokioTimer) (s : Running T)
      → T.mpsc.is_closed s.current_handles ≡ false
      → After T
          (run_timers T current now ts s)
          (Joined T (expired_at current now s.loop.flags ts) s)
  unfolding run_timers
  run_timers-Joined current now [] s o = tt
  run_timers-Joined current now (t ∷ ts) s o = elim (Bool-cases (ltb current t.when)) [
    | inl early ↦ rw early tt
    | inr ripe ↦
        rw (ripe, run_timers)
          (Sends-Joined T (live s.loop.flags (due now (t ∷ ts))) s (expire T now (t ∷ ts) s)
            (expire-Sends T now (t ∷ ts) s o))
  ]

  same-Joined :
      (s s' : Running T)
      → T.mpsc.is_closed s.current_handles ≡ false
      → s'.settled ≡ s.settled
      → s'.current_handles ≡ s.current_handles
      → Joined T [] s s'
  same-Joined s s' o e c = Sends-Joined T [] s s' (same-Sends T s s' o e c)

  receive-Joined :
      (k : Option ScheduledTask) (s : Running T)
      → T.mpsc.is_closed s.current_handles ≡ false
      → After T (receive T k s) (Joined T (arrival k) s)
  unfolding receive
  receive-Joined none s o =
      ends_if T (Joined T [] s) (T.async_channel.is_closed s.loop.scheduler) s
        (same-Joined s s o refl refl)
  receive-Joined (some (immediate h)) s o =
      Sends-Joined T (h ∷ []) s (record s { current_handles = (T.mpsc.send h s.current_handles).1 })
        (send-Sends T h s o)
  receive-Joined (some (delayed t)) s o =
      same-Joined s (record s { delayed_tasks = heap_push t s.delayed_tasks }) o refl refl

  receive_signal-Joined :
      (sig : Option ℕ) (s : Running T)
      → T.mpsc.is_closed s.current_handles ≡ false
      → After T (receive_signal T sig s) (Joined T [] s)
  unfolding receive_signal
  receive_signal-Joined none s o =
      ends_if T (Joined T [] s) (T.async_channel.is_closed s.loop.signal_socket) s
        (same-Joined s s o refl refl)
  receive_signal-Joined (some sig) s o =
      either_way T (Joined T [] s) (not s.loop.sig_listening)
        (record s { loop = take_signal T sig s.loop })
        (same-Joined s (record s { loop = take_signal T sig s.loop }) o refl refl)

  -- The first handle of the channel goes from there to the end of those that were taken.
  run_handle-Joined :
      (python : Python T) (k : Option THandle) (s : Running T)
      → (T.mpsc.recv s.current_handles).0 ≡ k
      → T.mpsc.is_closed s.current_handles ≡ false
      → After T
          (run_handle T python k (record s { current_handles = (T.mpsc.recv s.current_handles).1 }))
          (Joined T [] s)
  unfolding run_handle
  run_handle-Joined python none s e o =
      elim (Bool-cases (T.mpsc.is_closed (T.mpsc.recv s.current_handles).1)) [
        | inl over ↦ absurd (ground (arith, T.mpsc.is_closed-recv s.current_handles))
        | inr on ↦ rw on tt
      ]
  run_handle-Joined python (some h) s e o =
      let m = T.mpsc.messages s.current_handles in
      let first = head?-tail m h (sym (T.mpsc.recv_head s.current_handles) ∙ e) in
      let b = not (cancelled s.loop.flags h) in
      record {
        joined =
            rw (T.mpsc.messages-recv s.current_handles, map-append)
              (append_assoc (taken_of T s.settled) (h ∷ []) (tail m)
                ∙ ap (λ (x : List THandle). taken_of T s.settled ++ x) (sym first)
                ∙ sym (append-nil (line T s)));
        opened = T.mpsc.is_closed-recv s.current_handles ∙ o;
      }

  -- The loop's own state has no part in the line.
  with_loop-Joined :
      (new : List THandle) (l : TokioLoop T) (s : Running T) (o : Outcome T)
      → After T o (Joined T new (record s { loop = l }))
      → After T o (Joined T new s)
  with_loop-Joined new l s o =
      After-map T (Joined T new (record s { loop = l })) (Joined T new s) o
        (λ u k. record { joined = k.joined; opened = k.opened })

  select-Joined :
      (python : Python T) (branch : Branch) (s : Running T)
      → T.mpsc.is_closed s.current_handles ≡ false
      → After T (select T python branch s) (Joined T (arrivals branch s) s)
  unfolding select
  select-Joined python received s o =
      let (k, rest) = T.async_channel.recv s.loop.scheduler in
      let l = record s.loop { scheduler = rest } in
      let s1 : Running T = record s { loop = l } in
      with_loop-Joined (arrival k) l s (receive T k s1) (receive-Joined k s1 o)
  select-Joined python (timers current now) s o = run_timers-Joined current now s.delayed_tasks s o
  select-Joined python slept s o = same-Joined s s o refl refl
  select-Joined python signalled s o =
      let (sig, rest) = T.async_channel.recv s.loop.signal_socket in
      let l = record s.loop { signal_socket = rest } in
      let s1 : Running T = record s { loop = l } in
      with_loop-Joined [] l s (receive_signal T sig s1) (receive_signal-Joined sig s1 o)
  select-Joined python handled s o =
      run_handle-Joined python (T.mpsc.recv s.current_handles).0 s refl o

  -- In every turn of the task, whichever branch completes: the handles that it has taken to run, followed
  -- by those that are ready, grow at their end by what joins in that branch. That is the handle that
  -- the scheduler's channel has first, if it is an immediate one; or, if the first timer is due at
  -- the first reading of the clock, the handles of the timers at the front that are due at the
  -- second and not cancelled, in their order; or nothing. So ready handles are run or dropped in the
  -- order in which they became ready. The task's channel stays open.
  pub turn-Joined :
      (python : Python T) (branch : Branch) (s : Running T)
      → T.mpsc.is_closed s.current_handles ≡ false
      → After T (turn T python branch s) (Joined T (arrivals branch s) s)
  unfolding turn
  turn-Joined python branch s o =
      check_stop-After T (Joined T (arrivals branch s) s) (select T python branch s)
        (select-Joined python branch s o)

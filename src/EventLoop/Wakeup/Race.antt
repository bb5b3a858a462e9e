-- ===== src/EventLoop/Wakeup/Race.antt =====
-- Whether the loop of src/event_loop.rs sleeps with work in its queue.
use tokioloop.Base.{
  Bool-cases, ℕ, ◌≤◌, ◌<◌, Option, true, false, ◌≡◌, ◌≢◌, ◌⊎◌, inl, inr, refl, arith,
}
use tokioloop.Deps.{Deps}
use tokioloop.World.{wake}
use tokioloop.EventLoop.Schedule.{call_soon, call_soon_threadsafe, push_ready}
use tokioloop.EventLoop.Step.{take_ready}
use tokioloop.EventLoop.Wakeup.{
  working, checked, polling, Shared, sleep, leave, take, call_from, call_in, LockedStep, calls,
  calls_back, sleeps, polls_at_once, wakes_up, takes, FreeStep, locked, checks, sleeps_checked,
  Reaches, stays, goes_on,
}

module _ (D : Deps) where
  -- The loop has seen no wake that was not made; in the poll it is idle, and has no work or a wake to
  -- come.
  pub record IsWakeful (s : Shared D) : Type 0 where
    pub bounded : s.seen ≤ s.world.wakes
    pub idles : s.phase ≡ polling → s.world.idle ≡ true
    pub comes : s.phase ≡ polling → (s.world.counter_ready ≡ 0) ⊎ (s.seen < s.world.wakes)
    pub unchecked : s.phase ≢ checked

  LockedStep-IsWakeful : (s t : Shared D) → LockedStep D s t → IsWakeful s → IsWakeful t
  unfolding call_from call_in sleep leave take call_soon_threadsafe call_soon push_ready wake
      take_ready
  LockedStep-IsWakeful s _ (calls f a c cell _) v = elim (Bool-cases s.world.idle) [
    | inl idle ↦ simp idle (record {
      bounded = omega (arith, v.bounded);
      idles = λ e. refl;
      comes = λ e. inr (omega (arith, v.bounded));
      unchecked = v.unchecked;
    })
    | inr busy ↦ simp busy (record {
      bounded = v.bounded;
      idles = λ e. absurd (ground (arith, v.idles e, busy));
      comes = λ e. absurd (ground (arith, v.idles e, busy));
      unchecked = v.unchecked;
    })
  ]
  LockedStep-IsWakeful s _ (calls_back f a c ctx cell _ p) v = record {
    bounded = v.bounded;
    idles = λ e. v.idles e;
    comes = λ e. absurd (ground (arith, e, p));
    unchecked = v.unchecked;
  }
  LockedStep-IsWakeful s _ (sleeps _ p none_ready) v = record {
    bounded = v.bounded;
    idles = λ e. refl;
    comes = λ e. inl none_ready;
    unchecked = λ e. absurd (ground (arith, e));
  }
  LockedStep-IsWakeful s _ (polls_at_once _ p some_ready) v = record {
    bounded = omega arith;
    idles = λ e. absurd (ground (arith, e));
    comes = λ e. absurd (ground (arith, e));
    unchecked = λ e. absurd (ground (arith, e));
  }
  LockedStep-IsWakeful s _ (wakes_up _ p) v = record {
    bounded = omega arith;
    idles = λ e. absurd (ground (arith, e));
    comes = λ e. absurd (ground (arith, e));
    unchecked = λ e. absurd (ground (arith, e));
  }
  LockedStep-IsWakeful s _ (takes _ p) v = record {
    bounded = v.bounded;
    idles = λ e. absurd (ground (arith, e));
    comes = λ e. absurd (ground (arith, e));
    unchecked = λ e. absurd (ground (arith, e));
  }

  Reaches-IsWakeful : (s t : Shared D) → Reaches D (LockedStep D) s t → IsWakeful s → IsWakeful t
  Reaches-IsWakeful s _ (stays _) v = v
  Reaches-IsWakeful s u (goes_on _ t _ r step) v =
      LockedStep-IsWakeful t u step (Reaches-IsWakeful s t r v)

  -- From a loop that runs its callbacks and has seen no wake that was not made, by steps of the loop and
  -- calls of other threads in any order, under a lock on the interpreter: whenever the loop is in the
  -- poll, it is idle, and its counter of ready work is 0 or a wake is to come that ends the poll.
  pub locked_wakes :
      (s t : Shared D)
      → s.phase ≡ working
      → s.seen ≤ s.world.wakes
      → Reaches D (LockedStep D) s t
      → t.phase ≡ polling
      → (t.world.idle ≡ true) × ((t.world.counter_ready ≡ 0) ⊎ (t.seen < t.world.wakes))
  locked_wakes s t begins bounded r in_poll =
      let v = Reaches-IsWakeful s t r (record {
        bounded = bounded;
        idles = λ e. absurd (ground (arith, e, begins));
        comes = λ e. absurd (ground (arith, e, begins));
        unchecked = λ e. absurd (ground (arith, e, begins));
      }) in
      (v.idles in_poll, v.comes in_poll)

  -- Without such a lock, from every loop that runs its callbacks, is not idle, has nothing ready and has
  -- seen all wakes, the loop and one call of another thread reach a poll with a callback ready and no
  -- wake to come.
  pub free_loses :
      (callback args : ℕ) (context : Option ℕ) (cell : ℕ) (s : Shared D)
      → s.phase ≡ working
      → s.world.idle ≡ false
      → s.world.counter_ready ≡ 0
      → s.seen ≡ s.world.wakes
      → (t : Shared D) × Reaches D (FreeStep D) s t
        × (t.phase ≡ polling)
        × (t.world.counter_ready ≡ 1)
        × (t.seen ≡ t.world.wakes)
  unfolding call_from sleep call_soon_threadsafe push_ready wake
  free_loses callback args context cell s begins busy nothing seen =
      let a = record s { phase = checked } in
      let b = call_from D callback args context cell a in
      let c = sleep D b in
      (
        c,
        goes_on s b c
            (goes_on s a b (goes_on s s a (stays s) (checks s begins nothing))
              (locked a b (calls callback args context cell a)))
            (sleeps_checked b refl),
        refl,
        ground (arith, nothing),
        ground (arith, seen, busy),
      )

-- ===== src/EventLoop/Wakeup.antt =====
-- How the loop of src/event_loop.rs sleeps while other threads give it work: the counter of the ready
-- queue, the flag `idle` and the waker, in `step` and in `call_soon_threadsafe`, as steps of two threads.
pub mod Race
use tokioloop.Base.{ℕ, ◌<◌, Option, true, false, ◌≡◌}
use tokioloop.Deps.{Deps}
use tokioloop.World.{World}
use tokioloop.EventLoop.Schedule.{call_soon, call_soon_threadsafe}
use tokioloop.EventLoop.Step.{take_ready}

-- What the loop's thread is at: running callbacks, past the test of the counter, in the poll, or past it
-- with the queue not yet taken.
pub data Phase : Type 0 where
  working checked polling polled : Phase

-- The loop, and the number of wakes that its polls have seen. A wake that no poll has seen ends the next
-- poll at once.
pub record Shared (D : Deps) : Type 0 where
  pub world : World D
  pub phase : Phase
  pub seen : ℕ

module _ (D : Deps) where
  -- The loop's thread goes into the poll: it is idle.
  unfoldable pub sleep : Shared D → Shared D
  sleep s = record s { phase = polling; world = record (s.world) { idle = true } }

  -- The poll returns, for whatever reason, and the loop is not idle.
  unfoldable pub leave : Shared D → Shared D
  leave s = record s {
    phase = polled;
    seen = s.world.wakes;
    world = record (s.world) { idle = false };
  }

  -- The loop takes the queue.
  unfoldable pub take : Shared D → Shared D
  unfolding take_ready
  take s = record s { phase = working; world = (take_ready D s.world).1 }

  -- `call_soon_threadsafe` of any thread.
  unfoldable pub call_from : ℕ → ℕ → Option ℕ → ℕ → Shared D → Shared D
  unfolding call_soon_threadsafe
  call_from callback args context cell s = record s {
    world = (call_soon_threadsafe D callback args context cell s.world).1;
  }

  -- `call_soon` of a callback.
  unfoldable pub call_in : ℕ → ℕ → Option ℕ → ℕ → ℕ → Shared D → Shared D
  unfolding call_soon
  call_in callback args context ctx cell s = record s {
    world = (call_soon D callback args context ctx cell s.world).1;
  }

  -- The steps where a lock on the interpreter makes the test of the counter and the setting of `idle` one
  -- step, and each call another.
  pub data LockedStep : Shared D → Shared D → Type 0 where
    calls :
        (callback args : ℕ) (context : Option ℕ) (cell : ℕ) (s : Shared D)
        → LockedStep s (call_from callback args context cell s)
    calls_back :
        (callback args : ℕ) (context : Option ℕ) (ctx cell : ℕ) (s : Shared D)
        → s.phase ≡ working
        → LockedStep s (call_in callback args context ctx cell s)
    sleeps : (s : Shared D) → s.phase ≡ working → s.world.counter_ready ≡ 0 → LockedStep s (sleep s)
    -- With work ready the poll is skipped, or does not wait. A wake that a skipped poll leaves counts as
    -- seen here, though it could still end a later poll.
    polls_at_once :
        (s : Shared D)
        → s.phase ≡ working
        → 0 < s.world.counter_ready
        → LockedStep s (record s { phase = polled; seen = s.world.wakes })
    wakes_up : (s : Shared D) → s.phase ≡ polling → LockedStep s (leave s)
    takes : (s : Shared D) → s.phase ≡ polled → LockedStep s (take s)

  -- The steps without such a lock: another thread can call between the test and the setting of `idle`.
  pub data FreeStep : Shared D → Shared D → Type 0 where
    locked : (s t : Shared D) → LockedStep s t → FreeStep s t
    checks :
        (s : Shared D)
        → s.phase ≡ working
        → s.world.counter_ready ≡ 0
        → FreeStep s (record s { phase = checked })
    sleeps_checked : (s : Shared D) → s.phase ≡ checked → FreeStep s (sleep s)

  -- Some steps, one after the other.
  pub data Reaches (R : Shared D → Shared D → Type 0) : Shared D → Shared D → Type 0 where
    stays : (s : Shared D) → Reaches R s s
    goes_on : (s t u : Shared D) → Reaches R s t → R t u → Reaches R s u

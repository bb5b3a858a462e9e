-- ===== src/Examples/Loop.antt =====
-- The theorems on the timers, the ready queue, the signals and the iteration of src/event_loop.rs, at
-- concrete worlds.
use tokioloop.Base.{
  ℕ, true, false, ◌≡◌, refl, none, some, arith, List, [], ◌∷◌, ◌++◌, ◌==◌, if◌then◌else◌,
}
use tokioloop.Deps.{readable}
use tokioloop.Handle.{Handle, Timer, cb_handle_no_args, cancelled}
use tokioloop.World.{World, tcp_stream, tcp_listener}
use tokioloop.Tcp.New.{MadeProtocol, Accepted}
use tokioloop.EventLoop.Timers.{drain_due}
use tokioloop.EventLoop.Timers.Order.{From, IsOrdered, IsDue, handles, drain_due_splits}
use tokioloop.EventLoop.Schedule.Counter.{
  schedules0, calls_soon, perform, IsCounted, perform-IsCounted,
}
use tokioloop.EventLoop.Schedule.Added.{Schedules, perform-Schedules}
use tokioloop.EventLoop.Signals.{read_failed, read_from_sock, sig_handle_all}
use tokioloop.EventLoop.Signals.Delivery.{sig_handle_all_delivers}
use tokioloop.EventLoop.Step.{StepInput, polled}
use tokioloop.EventLoop.Step.Served.{HasProtocol, IsServed, AreAnswered}
use tokioloop.EventLoop.Step.Run.{told_to_stop, IsSound, run_loop, run_loop-IsSound}
use tokioloop.World.{Proceeds}
use tokioloop.EventLoop.Schedule.{call_soon, push_ready}
use tokioloop.EventLoop.Step.{seen}
use tokioloop.EventLoop.Step.Cancel.{Sticks}
use tokioloop.Handle.{cb_handle, cb_handle_one_arg}
use tokioloop.Base.{◌⊎◌, ◌<◌}
use tokioloop.EventLoop.Wakeup.{
  Phase, working, Shared, sleep, call_from, calls, sleeps, FreeStep, Reaches, stays, goes_on,
}
use tokioloop.EventLoop.Wakeup.Race.{locked_wakes, free_loses}
use tokioloop.Examples.Sample.{sample, fresh}

abbrev callback : ℕ → Handle
callback f = cb_handle_no_args f 0 f

abbrev timer : ℕ → ℕ → Timer
timer f when = record { handle = callback f; when = when }

abbrev timers : List Timer
timers = timer 1 100 ∷ timer 2 200 ∷ []

timers-IsOrdered : IsOrdered timers
timers-IsOrdered = omega arith

drain_due_splits_example :
    (due : List Timer) × (timers ≡ due ++ (drain_due 150 timers).1)
    × IsDue 150 due
    × From 151 (drain_due 150 timers).1
    × ((drain_due 150 timers).0 ≡ handles due)
drain_due_splits_example = drain_due_splits 150 timers timers-IsOrdered

-- A callback is ready, two timers are set, descriptor 3 is a listener's, and no listener has a stream.
abbrev busy : World sample
busy = record fresh {
  handles_ready = callback 7 ∷ [];
  counter_ready = 1;
  handles_sched = timers;
  handles_io = λ (j : ℕ).
      if j == 5 then some (tcp_stream readable) else if j == 3 then some (tcp_listener 3) else none;
  tcp_lstreams = λ (j : ℕ). some (λ k. none);
}

busy-IsCounted : IsCounted sample busy
busy-IsCounted = record { counted = refl; ordered = timers-IsOrdered }

perform-Schedules_example :
    Schedules sample
      (schedules0 4 none 11)
      (record busy { idle = true })
      (perform sample (schedules0 4 none 11) (record busy { idle = true }))
perform-Schedules_example =
    perform-Schedules sample (schedules0 4 none 11) (record busy { idle = true })

-- SIGINT and SIGTERM have handlers.
abbrev trapping : World sample
trapping = record fresh {
  sig_handlers = λ (j : ℕ).
      if j == 2 then some (callback 20) else if j == 15 then some (callback 21) else none;
}

sig_handle_all_delivers_example :
    sig_handle_all sample (15 ∷ 2 ∷ []) trapping (callback 7 ∷ [])
    ≡ (record trapping { sig_loop_handled = true }, callback 7 ∷ callback 21 ∷ callback 20 ∷ [])
unfolding cancelled
sig_handle_all_delivers_example =
    sig_handle_all_delivers sample (15 ∷ 2 ∷ []) (callback 21 ∷ callback 20 ∷ []) trapping
      (callback 7 ∷ []) (refl, refl, (refl, refl, tt))

abbrev protocol : MadeProtocol
protocol = record {
  proto_buffered = some false;
  connection_lost = true;
  get_buffer = false;
  buffer_updated = false;
  data_received = true;
  conn_made = some 70;
}

-- A stream with descriptor 9 is accepted.
abbrev arrived : Accepted
arrived = record {
  fd = 9;
  ref = 9;
  protocol = some protocol;
  ssl_close_timeout = none;
  context = 0;
  cell = 12;
}

-- The stream is readable, a connection has come to the listener, and the first timer is due.
abbrev readable_stream : StepInput
readable_stream = record {
  tick = 400;
  poll_result = polled;
  events =
      record {
        token = 5;
        is_readable = true;
        is_writable = false;
        accepted = [];
        answers = read_failed ∷ [];
      }
      ∷ record {
        token = 3;
        is_readable = true;
        is_writable = false;
        accepted = arrived ∷ [];
        answers = read_failed ∷ [];
      }
      ∷ [];
  tick_polled = 410;
  tick_timers = 420;
}

-- Every callback calls `call_soon` with callback 8.
abbrev calls_back : Handle → World sample → World sample
calls_back h w = perform sample (calls_soon 8 0 none 0 8) w

busy-IsServed : IsServed sample busy
busy-IsServed = record { streams = λ j s e. ((λ k. none), refl); encrypts = λ j s e c h. (0, refl) }

arrived-HasProtocol : HasProtocol sample arrived
arrived-HasProtocol = record {
  protocol = protocol;
  made = refl;
  proto_buffered = false;
  tested = refl;
  methods = refl;
  conn_made = 70;
  greets = refl;
}

answered : AreAnswered sample readable_stream.events
unfolding read_from_sock
answered = (
  record { sigs = []; read = refl; protocols = tt },
  (record { sigs = []; read = refl; protocols = (arrived-HasProtocol, tt) }, tt),
)

-- A callback that does not fail calls `call_soon`, which keeps the tables of the listeners.
calls_back-IsSound :
    (h : Handle) (w : World sample)
    → IsSound sample calls_back w
    → IsSound sample calls_back (calls_back h w)
unfolding perform call_soon push_ready
calls_back-IsSound h w (c, v) = (
  perform-IsCounted sample (calls_soon 8 0 none 0 8) w c,
  record { streams = v.streams; encrypts = v.encrypts },
)

run_loop-IsSound_example :
    Proceeds
      (run_loop sample calls_back (readable_stream ∷ readable_stream ∷ []) 50 busy)
      (λ (end, w'). IsSound sample calls_back w' × (end ≡ told_to_stop → w'.stopping ≡ true))
run_loop-IsSound_example =
    run_loop-IsSound sample calls_back (readable_stream ∷ readable_stream ∷ []) 50 busy
      calls_back-IsSound (answered, (answered, tt)) (busy-IsCounted, busy-IsServed)

calls_back-Sticks : Sticks sample calls_back 4
unfolding perform call_soon push_ready
calls_back-Sticks k w e = e

-- Callback 3 with the flag 4 waits behind another.
abbrev waiting : List Handle
waiting = callback 7 ∷ cb_handle 3 1 0 4 ∷ cb_handle_one_arg 3 1 0 4 ∷ []

-- The loop runs its callbacks, with nothing ready.
abbrev quiet : Shared sample
quiet = record { world = fresh; phase = working; seen = 0 }

-- It goes to sleep, and another thread calls.
abbrev called : Shared sample
called = call_from sample 8 0 none 4 (sleep sample quiet)

locked_wakes_example :
    (called.world.idle ≡ true)
    × ((called.world.counter_ready ≡ 0) ⊎ (called.seen < called.world.wakes))
unfolding sleep call_from
locked_wakes_example =
    locked_wakes sample quiet called refl (omega arith)
      (goes_on quiet (sleep sample quiet) called
        (goes_on quiet quiet (sleep sample quiet) (stays quiet) (sleeps quiet refl refl))
        (calls 8 0 none 4 (sleep sample quiet)))
      refl

free_loses_example :
    (t : Shared sample) × Reaches sample (FreeStep sample) quiet t
    × (t.phase ≡ Phase.polling)
    × (t.world.counter_ready ≡ 1)
    × (t.seen ≡ t.world.wakes)
free_loses_example = free_loses sample 8 0 none 4 quiet refl refl refl refl

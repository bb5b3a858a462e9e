-- ===== src/Examples/TokioLoop.antt =====
-- Runs of src/tokio_event_loop.rs.
use tokioloop.Base.{◌++◌, true, false, ◌≡◌, refl, none, [], ◌∷◌, arith}
use tokioloop.Tokio.Handle.{
  PyCall, heap_push, tcb_handle, tcb_handle_no_args, tcb_handle_one_arg, call_object, call_of,
}
use tokioloop.Tokio.Loop.{TokioLoop, delayed, new, stop}
use tokioloop.Tokio.Watch.{remove_reader, remove_writer}
use tokioloop.Tokio.Watch.Entry.{Watches, reads_at, writes_at, add-Watches}
use tokioloop.Tokio.Run.{
  calls_soon, calls_later, adds_writer, cancels, received, timers, slept, handled, Running, leaves,
  Python, call_python, perform, perform_all, run, start, turn, Reaches,
}
use tokioloop.Tokio.Run.Reaches.{here, turns, others}
use tokioloop.Tokio.Run.Account.{Accounts, run-Accounts}
use tokioloop.Tokio.Run.Line.{taken_of}
use tokioloop.Tokio.Run.Queue.{arrived, Reaches-Fifo}
use tokioloop.Tokio.Signals.{got, fine, read_round}
use tokioloop.Tokio.Run.Interrupt.{Stops, run_signals, signals-Stop}
use tokioloop.Tokio.Run.Timers.{Fires, turn-Fires}
use tokioloop.Tokio.Run.Stop.{GoesOn, NeverStops, Took, run_ready, run_ready-Took}
use tokioloop.Tokio.Run.Halted.{NoneResumes}
use tokioloop.Tokio.Run.Ends.{Ends, HaltedTask, stop-Ends}
use tokioloop.Examples.Channels.{crates}

-- A loop on which nothing was called.
abbrev fresh : TokioLoop crates
fresh = new crates 99 50 (λ cell. false)

-- A callback with arguments calls `call_soon` with callback 2, and raises an exception.
abbrev recalls : Python crates
recalls (call_object callback args) l = (calls_soon 2 0 none 50 8 0 ∷ [], true)
recalls _ l = ([], false)

-- A callback to run at once, and a timer that is due at 30 microseconds.
abbrev scheduled : TokioLoop crates
scheduled =
    perform crates (calls_later 30 3 0 50 9 0 0) (perform crates (calls_soon 1 0 none 50 7 0) fresh)

-- The task when it has received the first of the two.
abbrev first_received : Running crates
first_received = record (start crates scheduled) {
  loop = record scheduled {
    scheduler = (false, delayed (record { handle = tcb_handle 3 0 50 9; when = 30 }) ∷ []);
  };
  current_handles = (false, tcb_handle 1 0 50 7 ∷ []);
}

first_received-Reaches : Reaches crates recalls (start crates scheduled) first_received
unfolding turn start perform new
first_received-Reaches = turns received first_received here refl

-- Then another thread cancels it.
run-Accounts_example :
    Accounts crates
      (record first_received { loop = perform crates (cancels 7) first_received.loop })
unfolding perform new
run-Accounts_example =
    run-Accounts crates recalls scheduled (λ p. ground arith)
      (others (cancels 7) first_received-Reaches)

recalls_on : NeverStops crates recalls
unfolding run call_python call_of perform_all perform
recalls_on (tcb_handle callback args context cell) l on = ground (arith, on)
recalls_on (tcb_handle_no_args callback context cell) l on = on
recalls_on (tcb_handle_one_arg callback arg context cell) l on = on

-- The handle is run, which schedules another.
run_ready-Took_example :
    GoesOn crates
      (run_ready crates recalls 1 first_received)
      (Took crates recalls (tcb_handle 1 0 50 7 ∷ []) [] first_received)
unfolding perform new
run_ready-Took_example =
    run_ready-Took crates recalls (tcb_handle 1 0 50 7 ∷ []) first_received recalls_on refl refl

-- The task has received the timer, too.
abbrev both_received : Running crates
both_received = record first_received {
  loop = record first_received.loop { scheduler = (false, []) };
  delayed_tasks = record { handle = tcb_handle 3 0 50 9; when = 30 } ∷ [];
}

both_received-Reaches : Reaches crates recalls (start crates scheduled) both_received
unfolding turn start perform new heap_push
both_received-Reaches = turns received both_received first_received-Reaches refl

turn-Fires_example :
    Fires crates 30 31 both_received (turn crates recalls (timers 30 31) both_received)
turn-Fires_example = turn-Fires crates recalls scheduled 30 31 both_received-Reaches

Reaches-Fifo_example :
    arrived crates recalls both_received-Reaches
    ≡ taken_of crates both_received.settled ++ crates.mpsc.messages both_received.current_handles
Reaches-Fifo_example = Reaches-Fifo crates recalls scheduled both_received-Reaches

-- SIGHUP is in the channel, and the task reads SIGWINCH, SIGTERM and SIGINT.
abbrev interrupted : Running crates
interrupted = record both_received {
  loop = record both_received.loop { sig_listening = true; signal_socket = (false, 1 ∷ []) };
}

signals-Stop_example : Stops crates (
    run_signals crates 3 recalls (record interrupted {
      loop = (read_round crates (got (28 ∷ 15 ∷ 2 ∷ []) fine) interrupted.loop).1;
    }))
signals-Stop_example =
    signals-Stop crates recalls 28 (15 ∷ 2 ∷ []) fine (1 ∷ 28 ∷ []) 15 (2 ∷ []) interrupted refl
      refl refl (refl, (refl, tt)) refl

recalls-NoneResumes : (c : PyCall) (l : TokioLoop crates) → NoneResumes (recalls c l).0
recalls-NoneResumes (call_object callback args) l = (tt, tt)
recalls-NoneResumes _ l = tt

stop-Ends_example :
    let s1 : Running crates = record first_received { loop = stop crates first_received.loop } in
    Ends crates (turn crates recalls handled s1) (HaltedTask crates s1)
    × (turn crates recalls slept s1 ≡ leaves s1)
stop-Ends_example = stop-Ends crates recalls recalls-NoneResumes handled first_received

-- A writer is watched for at descriptor 5, and then a reader.
abbrev writing : TokioLoop crates
writing = perform crates (adds_writer 5 4 0 none 50 20 21 0) fresh

add-Watches_example :
    Watches crates 5 true false writing (reads_at crates 5 3 0 none 50 10 11 0 writing)
    × Watches crates 5 false true writing (writes_at crates 5 3 0 none 50 10 11 0 writing)
    × Watches crates 5 false false writing (remove_reader crates 5 writing).1
    × Watches crates 5 false false writing (remove_writer crates 5 writing).1
add-Watches_example = add-Watches crates 5 3 0 none 50 10 11 0 writing

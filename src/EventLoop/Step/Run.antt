-- ===== src/EventLoop/Step/Run.antt =====
-- The loop `_run` of src/event_loop.rs, one input for each iteration, and what it keeps.
use tokioloop.Base.{
  ◌∙◌, sym, subst, ℕ, ◌%◌, ◌^◌, ltb, if◌then◌else◌, Bool, false, true, List, [], ◌∷◌, ◌++◌, length,
  ◌≡◌, refl, ap, arith, Bool-cases, inl, inr,
}
use tokioloop.Deps.{Deps}
use tokioloop.Handle.{Handle, cancelled, Timer}
use tokioloop.World.{World, Result, ok, starved, ◌>>=◌}
use tokioloop.World.{Returns, Returns->>=, Returns-Ensures, Returns-Proceeds, Proceeds}
use tokioloop.EventLoop.Step.Served.{
  IsServed, AreAnswered, AreAnswered-seen, begin_step-IsServed, handle_events-IsServed,
}
use tokioloop.EventLoop.Timers.{drain_due}
use tokioloop.EventLoop.Timers.Order.{IsOrdered}
use tokioloop.EventLoop.Schedule.Counter.{IsCounted}
use tokioloop.EventLoop.Step.Handled.{Handled, handle_events-Handled}
use tokioloop.EventLoop.Step.{
  StepInput, PollResult, polled, interrupted, failed, handle_events, seen, skips_poll, begin_step,
  end_step, finish_step, run_all, step,
}

-- How `_run` ends: it is told to stop, an interrupt is not for the loop, or the poll fails.
pub data RunEnd : Type 0 where
  told_to_stop foreign_interrupt poll_error : RunEnd

module _ (D : Deps) (run : Handle → World D → World D) where
  -- What follows an iteration; `rest` is the loop from there on. `swap` resets the note of a signal.
  after_poll :
      (ℕ → World D → Result (RunEnd × World D))
      → PollResult
      → ℕ
      → World D
      → Result (RunEnd × World D)
  after_poll rest polled tick_last w = rest tick_last w
  after_poll rest interrupted tick_last w =
      let w' = record w { sig_loop_handled = false } in
      if w.sig_loop_handled then rest tick_last w' else ok (foreign_interrupt, w')
  after_poll rest failed tick_last w = ok (poll_error, w)

  unfoldable pub run_loop : List StepInput → ℕ → World D → Result (RunEnd × World D)
  unfolding after_poll
  run_loop [] tick_last w = starved
  run_loop (input ∷ inputs) tick_last w =
      let iteration = step D run input tick_last w >>= λ s.
      after_poll (run_loop inputs) s.poll_result s.tick_last s.world in
      if w.stopping then ok (told_to_stop, w) else iteration

  run_all-keeps :
      (P : World D → Type 0)
      → ((h : Handle) (w : World D) → P w → P (run h w))
      → (hs : List Handle) (w : World D) → P w
      → P (run_all D run hs w).0
  unfolding run_all
  run_all-keeps P keep [] w p = p
  run_all-keeps P keep (h ∷ hs) w p = elim (Bool-cases (cancelled w.flags h)) [
    | inl dropped ↦ rw dropped (run_all-keeps P keep hs w p)
    | inr live ↦ rw live (run_all-keeps P keep hs (run h w) (keep h w p))
  ]

  -- The count of the ready queue and the timers are right, and every listener is served.
  abbrev pub IsSound : World D → Type 0
  IsSound w = IsCounted D w × IsServed D w

  -- No callback breaks this.
  abbrev Respects : Type 0
  Respects = (h : Handle) (w : World D) → IsSound w → IsSound (run h w)

  begin_step-IsCounted :
      (input : StepInput) (tick_last : ℕ) (w : World D)
      → IsCounted D w
      → IsCounted D (begin_step D input tick_last w)
  unfolding begin_step
  begin_step-IsCounted input tick_last w v = record {
    counted = ground (arith, v.counted);
    ordered = v.ordered;
  }

  IsOrdered-drain : (tick : ℕ) (ts : List Timer) → IsOrdered ts → IsOrdered (drain_due tick ts).1
  unfolding drain_due
  IsOrdered-drain tick [] o = tt
  IsOrdered-drain tick (t ∷ ts) o = elim (Bool-cases (ltb tick t.when)) [
    | inl later ↦ rw later o
    | inr due ↦ rw due (IsOrdered-drain tick ts o.1)
  ]

  end_step-IsSound :
      (input : StepInput) (tick_last : ℕ) (skipped : Bool) (hs : List Handle) (v : World D)
      (next : World D × List Handle)
      → Respects
      → IsCounted D v
      → IsServed D next.0
      → Handled D v hs next
      → IsSound (end_step D run input tick_last skipped next).world
  unfolding end_step finish_step
  end_step-IsSound input tick_last skipped hs v next respects c served k =
      let due = drain_due input.tick_timers next.0.handles_sched in
      let timers : IsOrdered next.0.handles_sched = subst IsOrdered (sym k.sched) c.ordered in
      run_all-keeps IsSound respects (next.1 ++ due.0) (record (next.0) { handles_sched = due.1 })
        (
          record {
            counted =
                k.counter ∙ c.counted ∙ ap (λ (q : List Handle). length q % 2 ^ 64) (sym k.ready);
            ordered = IsOrdered-drain input.tick_timers next.0.handles_sched timers;
          },
          record { streams = served.streams; encrypts = served.encrypts },
        )

  -- An iteration of a loop whose listeners are served returns, if the signal reads of its events end and
  -- every accepted stream gets a protocol: its factory and the test for a `BufferedProtocol` raise no
  -- exception, and it has `connection_made` and the methods that `TCPTransport::new` looks up. If
  -- the counter was the length of the ready queue, as a 64-bit number, and the timers were in order, and
  -- the callbacks keep all this, then so it is afterwards.
  pub step-IsSound :
      (input : StepInput) (tick_last : ℕ) (w : World D)
      → Respects
      → AreAnswered D input.events
      → IsSound w
      → Returns (step D run input tick_last w) (λ s. IsSound s.world)
  unfolding step
  step-IsSound input tick_last w respects answered (c, served) =
      let skipped = skips_poll D input tick_last w in
      let w' = begin_step D input tick_last w in
      let m = handle_events D (seen D input skipped) w' w.handles_ready in
      Returns->>= m (λ n. ok (end_step D run input tick_last skipped n))
        (λ n. IsServed D n.0 × Handled D w' w.handles_ready n) (λ s. IsSound s.world)
        (Returns-Ensures m (λ n. IsServed D n.0) (Handled D w' w.handles_ready)
          (handle_events-IsServed D (seen D input skipped) w' w.handles_ready
            (AreAnswered-seen D input skipped answered)
            (begin_step-IsServed D input tick_last w served))
          (handle_events-Handled D (seen D input skipped) w' w.handles_ready))
        λ next (v, k).
          end_step-IsSound input tick_last skipped w.handles_ready w' next respects
            (begin_step-IsCounted input tick_last w c) v k

  abbrev EndsWell : RunEnd × World D → Type 0
  EndsWell (end, w) = IsSound w × (end ≡ told_to_stop → w.stopping ≡ true)

  with_note : (b : Bool) (w : World D) → IsSound w → IsSound (record w { sig_loop_handled = b })
  with_note b w (c, v) = (
    record { counted = c.counted; ordered = c.ordered },
    record { streams = v.streams; encrypts = v.encrypts },
  )

  after_poll-EndsWell :
      (rest : ℕ → World D → Result (RunEnd × World D)) (r : PollResult) (tick_last : ℕ)
      (w : World D)
      → ((t : ℕ) (v : World D) → IsSound v → Proceeds (rest t v) EndsWell)
      → IsSound w
      → Proceeds (after_poll rest r tick_last w) EndsWell
  unfolding after_poll
  after_poll-EndsWell rest polled tick_last w ih c = ih tick_last w c
  after_poll-EndsWell rest interrupted tick_last w ih c = elim (Bool-cases w.sig_loop_handled) [
    | inl mine ↦
        simp mine (ih tick_last (record w { sig_loop_handled = false }) (with_note false w c))
    | inr foreign ↦ simp foreign (with_note false w c, λ e. cc)
  ]
  after_poll-EndsWell rest failed tick_last w ih c = (c, λ e. cc)

  -- The events of every iteration have signal reads that end, and streams that get a protocol.
  abbrev pub AllAnswered : List StepInput → Type 0
  AllAnswered [] = Unit {0}
  AllAnswered (input ∷ inputs) = AreAnswered D input.events × AllAnswered inputs

  -- If the listeners are served, the counter and the timers are right, every callback returns and keeps
  -- this, the signal reads end, and every accepted stream gets a protocol (its factory and the test for a
  -- `BufferedProtocol` raise no exception, and it has `connection_made` and the methods that
  -- `TCPTransport::new` looks up), `_run` never panics. However it ends, all this holds, and it ends
  -- without an interrupt or a failed poll only because the loop was told to stop.
  pub run_loop-IsSound :
      (inputs : List StepInput) (tick_last : ℕ) (w : World D)
      → Respects
      → AllAnswered inputs
      → IsSound w
      → Proceeds
          (run_loop inputs tick_last w)
          λ (end, w'). IsSound w' × (end ≡ told_to_stop → w'.stopping ≡ true)
  unfolding run_loop
  run_loop-IsSound [] tick_last w respects h c = tt
  run_loop-IsSound (input ∷ inputs) tick_last w respects (answered, h) c =
      elim (Bool-cases w.stopping) [
        | inl told ↦ simp told (c, λ e. refl)
        | inr on ↦ simp on (
            Returns-Proceeds (step D run input tick_last w)
              (λ s. after_poll (run_loop inputs) s.poll_result s.tick_last s.world)
              (λ s. IsSound s.world) EndsWell (step-IsSound input tick_last w respects answered c)
              λ s k.
                after_poll-EndsWell (run_loop inputs) s.poll_result s.tick_last s.world
                  (λ t v d. run_loop-IsSound inputs t v respects h d) k)
      ]

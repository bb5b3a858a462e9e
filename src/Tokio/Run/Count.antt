-- ===== src/Tokio/Run/Count.antt =====
-- No handle is lost and none runs twice in `_run` of src/tokio_event_loop.rs: each that the scheduler's
-- channel has taken is settled once, or waits in one place.
use tokioloop.Base.{
  sum_of, sum_of-append, ℕ, ◌+◌, Bool, true, false, ◌||◌, if◌then◌else◌, Option, none, some, List,
  [], ◌∷◌, ◌++◌, ◌≡◌, refl, ◌∙◌, sym, arith, Bool-cases, inl, inr,
}
use tokioloop.Deps.{TokioDeps}
use tokioloop.Deps.Channel
use tokioloop.Deps.Channel.{head?, tail}
use tokioloop.Tokio.Handle.{call_of, call_exc_handler, PyCall, THandle, tcb_handle}
use tokioloop.Tokio.Loop.{
  TokioLoop, or_else, handle_of, task_of, schedule_handle, call_soon, call_soon_threadsafe,
  call_later, cancel, stop, new_cell,
}
use tokioloop.Tokio.Watch.{add_reader, add_writer, remove_reader, remove_writer}
use tokioloop.Tokio.Signals.{
  SocketAnswer, not_ready, would_block, read_failed, got, fine, minor, critical, read_round,
  take_answer, send_signals, ssock_del,
}
use tokioloop.Tokio.Run.{
  Op, calls_soon, calls_soon_threadsafe, calls_later, schedules, adds_reader, adds_writer,
  removes_reader, removes_writer, cancels, stops, sets_stopping, sets_closed, sets_exc_handler,
  sets_exception_handler, reads_signals, ignores_signals, perform, perform_all, Python, call_python,
  run,
}

module _ {A : Type 0} (weight : A → ℕ) where
  sum_of-head_tail :
      (xs : List A) (x : A)
      → head? xs ≡ some x
      → sum_of weight xs ≡ weight x + sum_of weight (tail xs)
  sum_of-head_tail [] x h = cc
  sum_of-head_tail (y ∷ ys) x h = ground arith

  sum_of-tail_nil : (xs : List A) → head? xs ≡ none → sum_of weight (tail xs) ≡ sum_of weight xs
  sum_of-tail_nil [] h = refl
  sum_of-tail_nil (y ∷ ys) h = cc

  module _ (C : Channel.Channel) where
    open C use {Chan, messages, is_closed, send, recv}

    pub send-sum :
        (a : A) (c : Chan A)
        → sum_of weight (messages (send a c).1)
          ≡ (if (send a c).0 then weight a else 0) + sum_of weight (messages c)
    send-sum a c = elim (Bool-cases (send a c).0) [
      | inl taken ↦
          let open_ : is_closed c ≡ false = ground (arith, C.send_answer a c) in
          rw (taken, C.messages-send a c open_)
            (omega (arith, sum_of-append weight (messages c) (a ∷ [])))
      | inr refused ↦ rw (refused, C.messages-send_closed a c refused) (omega arith)
    ]

    pub recv-sum :
        (a : A) (c : Chan A)
        → (recv c).0 ≡ some a
        → sum_of weight (messages c) ≡ weight a + sum_of weight (messages (recv c).1)
    recv-sum a c h =
        rw (C.messages-recv c) (sum_of-head_tail (messages c) a (sym (C.recv_head c) ∙ h))

    pub recv-sum_none :
        (c : Chan A)
        → (recv c).0 ≡ none
        → sum_of weight (messages (recv c).1) ≡ sum_of weight (messages c)
    recv-sum_none c h =
        rw (C.messages-recv c) (sum_of-tail_nil (messages c) (sym (C.recv_head c) ∙ h))

module _ (T : TokioDeps) (p : THandle → Bool) where
  -- A handle counts if `p` holds of it.
  abbrev pub weigh : THandle → ℕ
  weigh h = if p h then 1 else 0

  -- What has been taken by the scheduler's channel and is still in it.
  abbrev pub loop_sum : TokioLoop T → ℕ
  loop_sum l = sum_of (λ k. weigh (handle_of k)) (T.async_channel.messages l.scheduler)

  -- What the scheduler's channel has gained is what it has accepted.
  abbrev pub Balanced : TokioLoop T → TokioLoop T → Type 0
  Balanced l m = loop_sum m + sum_of weigh l.accepted ≡ loop_sum l + sum_of weigh m.accepted

  task_of-weigh :
      (h : THandle) (delay : Option ℕ) (now : ℕ)
      → weigh (handle_of (task_of T h delay now)) ≡ weigh h
  task_of-weigh h none now = refl
  task_of-weigh h (some d) now = refl

  schedule_handle-Balanced :
      (h : THandle) (delay : Option ℕ) (now : ℕ) (l : TokioLoop T)
      → Balanced l (schedule_handle T h delay now l).1
  unfolding schedule_handle
  schedule_handle-Balanced h delay now l = elim (Bool-cases (l.stopping || l.closed)) [
    | inl over ↦ rw over refl
    | inr on ↦
        let k = task_of T h delay now in
        let sent = send-sum (λ k. weigh (handle_of k)) T.async_channel k l.scheduler in
        rw on (elim (Bool-cases (T.async_channel.send k l.scheduler).0) [
          | inl taken ↦ rw taken (
              omega (
                arith,
                rw taken at sent,
                task_of-weigh h delay now,
                sum_of-append weigh l.accepted (h ∷ []),
              ))
          | inr refused ↦ rw refused (omega (arith, rw refused at sent))
        ])
  ]

  send_signals-Balanced : (bs : List ℕ) (l : TokioLoop T) → Balanced l (send_signals T bs l).1
  unfolding send_signals
  send_signals-Balanced [] l = refl
  send_signals-Balanced (b ∷ bs) l =
      let sent = T.async_channel.send b l.signal_socket in
      elim (Bool-cases sent.0) [
        | inl taken ↦
            rw (taken, send_signals)
              (send_signals-Balanced bs (record l { signal_socket = sent.1 }))
        | inr refused ↦ rw (refused, send_signals) refl
      ]

  take_answer-Balanced : (a : SocketAnswer) (l : TokioLoop T) → Balanced l (take_answer T a l).1
  unfolding take_answer
  take_answer-Balanced not_ready l = refl
  take_answer-Balanced would_block l = refl
  take_answer-Balanced read_failed l = refl
  take_answer-Balanced (got [] checked) l = refl
  take_answer-Balanced (got (b ∷ bs) fine) l = send_signals-Balanced (b ∷ bs) l
  take_answer-Balanced (got (b ∷ bs) minor) l = send_signals-Balanced (b ∷ bs) l
  take_answer-Balanced (got (b ∷ bs) critical) l =
      send_signals-Balanced (b ∷ bs) (record l { stopping = true })

  read_round-Balanced : (a : SocketAnswer) (l : TokioLoop T) → Balanced l (read_round T a l).1
  unfolding read_round
  read_round-Balanced not_ready l = refl
  read_round-Balanced a l = elim (Bool-cases l.sig_listening) [
    | inl on ↦ simp on (take_answer-Balanced a l)
    | inr off ↦ simp off
  ]

  pub perform-Balanced : (op : Op) (l : TokioLoop T) → Balanced l (perform T op l)
  unfolding perform call_soon call_soon_threadsafe call_later add_reader add_writer remove_reader
      remove_writer cancel stop ssock_del
  perform-Balanced (calls_soon callback args context ctx cell now) l =
      schedule_handle-Balanced (tcb_handle callback args (or_else context ctx) cell) none now
        (new_cell T cell l)
  perform-Balanced (calls_soon_threadsafe callback args context ctx cell now) l =
      schedule_handle-Balanced (tcb_handle callback args (or_else context ctx) cell) none now
        (new_cell T cell l)
  perform-Balanced (calls_later delay callback args context cell now now') l =
      schedule_handle-Balanced (tcb_handle callback args context cell) (some delay) now'
        (new_cell T cell l)
  perform-Balanced (schedules handle delay now) l = schedule_handle-Balanced handle delay now l
  perform-Balanced (adds_reader fd callback args context ctx cell cell' now) l =
      let c = or_else context ctx in
      let handle = tcb_handle callback args c cell in
      let l1 = new_cell T cell' (new_cell T cell l) in
      schedule_handle-Balanced handle none now
        (record l1 { io_callbacks = T.insert fd (some handle, none, c) l.io_callbacks })
  perform-Balanced (adds_writer fd callback args context ctx cell cell' now) l =
      let c = or_else context ctx in
      let handle = tcb_handle callback args c cell in
      let l1 = new_cell T cell' (new_cell T cell l) in
      schedule_handle-Balanced handle none now
        (record l1 { io_callbacks = T.insert fd (none, some handle, c) l.io_callbacks })
  perform-Balanced (removes_reader fd) l = refl
  perform-Balanced (removes_writer fd) l = refl
  perform-Balanced (cancels cell) l = refl
  perform-Balanced stops l = refl
  perform-Balanced (sets_stopping b) l = refl
  perform-Balanced (sets_closed b) l = refl
  perform-Balanced (sets_exc_handler handler) l = refl
  perform-Balanced (sets_exception_handler handler) l = refl
  perform-Balanced (reads_signals a) l = read_round-Balanced a l
  perform-Balanced ignores_signals l = refl

  perform_all-Balanced : (ops : List Op) (l : TokioLoop T) → Balanced l (perform_all T ops l)
  unfolding perform_all
  perform_all-Balanced [] l = refl
  perform_all-Balanced (op ∷ ops) l =
      omega (arith, perform-Balanced op l, perform_all-Balanced ops (perform T op l))

  call_python-Balanced :
      (python : Python T) (c : PyCall) (l : TokioLoop T) → Balanced l (call_python T python c l).1
  unfolding call_python
  call_python-Balanced python c l =
      perform_all-Balanced (python c l).0 (record l { called = l.called ++ (c ∷ []) })

  -- What a handle's callback, and the exception handler, add.
  pub run-Balanced :
      (python : Python T) (h : THandle) (l : TokioLoop T) → Balanced l (run T python h l)
  unfolding run
  run-Balanced python h l =
      let called = call_python T python (call_of h) l in
      let l1 = called.1 in
      let handler = call_exc_handler l1.exc_handler l1.exception_handler in
      elim (Bool-cases called.0) [
        | inl raised ↦ rw raised (
            omega (
              arith,
              call_python-Balanced python (call_of h) l,
              call_python-Balanced python handler l1,
            ))
        | inr quiet ↦ rw quiet (call_python-Balanced python (call_of h) l)
      ]

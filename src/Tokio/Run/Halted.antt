-- ===== src/Tokio/Run/Halted.antt =====
-- What Python code can do to a loop of src/tokio_event_loop.rs that is stopping.
use tokioloop.Base.{
  ℕ, true, false, Option, List, [], ◌∷◌, ◌≡◌, refl, ◌∙◌, arith, Bool-cases, inl, inr,
}
use tokioloop.Deps.{TokioDeps}
use tokioloop.Tokio.Handle.{THandle}
use tokioloop.Tokio.Loop.{
  TokioLoop, schedule_handle, call_soon, call_soon_threadsafe, call_later, cancel, stop,
  set_stopping,
}
use tokioloop.Tokio.Watch.{add_reader, add_writer, remove_reader, remove_writer}
use tokioloop.Tokio.Signals.{
  SocketAnswer, not_ready, got, fine, minor, critical, read_round, take_answer, send_signals,
  ssock_del,
}
use tokioloop.Tokio.Run.{Op, reads_signals, sets_stopping, perform, perform_all}

-- An operation does not set `_stopping` to false.
abbrev pub NeverResumes : Op → Type 0
NeverResumes (sets_stopping false) = ⊥
NeverResumes _ = Unit {0}

abbrev pub NoneResumes : List Op → Type 0
NoneResumes [] = Unit {0}
NoneResumes (op ∷ ops) = NeverResumes op × NoneResumes ops

module _ (T : TokioDeps) where
  -- The loop is stopping, and its scheduler has accepted nothing that it had not in `l`.
  pub record Halted (l m : TokioLoop T) : Type 0 where
    pub stopped : m.stopping ≡ true
    pub none_new : m.accepted ≡ l.accepted

  pub Halted-trans : (l m n : TokioLoop T) → Halted l m → Halted m n → Halted l n
  Halted-trans l m n a b = record { stopped = b.stopped; none_new = b.none_new ∙ a.none_new }

  schedule_handle-Halted :
      (h : THandle) (delay : Option ℕ) (now : ℕ) (l : TokioLoop T)
      → l.stopping ≡ true
      → Halted l (schedule_handle T h delay now l).1
  unfolding schedule_handle
  schedule_handle-Halted h delay now l s = simp s (record { stopped = s; none_new = refl })

  send_signals-Halted :
      (bs : List ℕ) (l : TokioLoop T) → l.stopping ≡ true → Halted l (send_signals T bs l).1
  unfolding send_signals
  send_signals-Halted [] l s = record { stopped = s; none_new = refl }
  send_signals-Halted (b ∷ bs) l s =
      let sent = T.async_channel.send b l.signal_socket in
      elim (Bool-cases sent.0) [
        | inl taken ↦
            let rest = send_signals-Halted bs (record l { signal_socket = sent.1 }) s in
            rw (taken, send_signals) (record { stopped = rest.stopped; none_new = rest.none_new })
        | inr refused ↦ rw (refused, send_signals) (record { stopped = s; none_new = refl })
      ]

  take_answer-Halted :
      (a : SocketAnswer) (l : TokioLoop T) → l.stopping ≡ true → Halted l (take_answer T a l).1
  unfolding take_answer
  take_answer-Halted (got [] checked) l s = record { stopped = s; none_new = refl }
  take_answer-Halted (got (b ∷ bs) fine) l s = send_signals-Halted (b ∷ bs) l s
  take_answer-Halted (got (b ∷ bs) minor) l s = send_signals-Halted (b ∷ bs) l s
  take_answer-Halted (got (b ∷ bs) critical) l s =
      let rest = send_signals-Halted (b ∷ bs) (record l { stopping = true }) refl in
      record { stopped = rest.stopped; none_new = rest.none_new }
  take_answer-Halted _ l s = record { stopped = s; none_new = refl }

  read_round-Halted :
      (a : SocketAnswer) (l : TokioLoop T) → l.stopping ≡ true → Halted l (read_round T a l).1
  unfolding read_round
  read_round-Halted not_ready l s = record { stopped = s; none_new = refl }
  read_round-Halted a l s = elim (Bool-cases l.sig_listening) [
    | inl on ↦ simp on (take_answer-Halted a l s)
    | inr off ↦ simp off (record { stopped = s; none_new = refl })
  ]

  -- What an operation, or a callback, does to a loop that is stopping.
  perform-Halted :
      (op : Op) (l : TokioLoop T) → NeverResumes op → l.stopping ≡ true → Halted l (perform T op l)
  unfolding perform call_soon call_soon_threadsafe call_later add_reader add_writer remove_reader
      remove_writer cancel stop ssock_del schedule_handle set_stopping
  perform-Halted (reads_signals a) l k s = read_round-Halted a l s
  perform-Halted (sets_stopping false) l k s = absurd k
  perform-Halted (sets_stopping true) l k s = record { stopped = refl; none_new = refl }
  perform-Halted _ l k s = record { stopped = ground arith; none_new = ground arith }

  pub perform_all-Halted :
      (ops : List Op) (l : TokioLoop T)
      → NoneResumes ops
      → l.stopping ≡ true
      → Halted l (perform_all T ops l)
  unfolding perform_all
  perform_all-Halted [] l n s = record { stopped = s; none_new = refl }
  perform_all-Halted (op ∷ ops) l n s =
      let k = perform-Halted op l n.0 s in
      Halted-trans l (perform T op l) (perform_all T ops (perform T op l)) k
        (perform_all-Halted ops (perform T op l) n.1 k.stopped)

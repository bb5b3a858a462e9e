-- ===== src/EventLoop/Step/Handled.antt =====
-- What the handling of the events of src/event_loop.rs leaves alone.
use tokioloop.Base.{
  ℕ, if◌then◌else◌, Bool, false, true, ◌&&◌, Option, none, some, List, [], ◌∷◌, ◌++◌, append-nil,
  append_assoc, sym, ◌∙◌, ◌≡◌, refl, ap, arith, Bool-cases, inl, inr,
}
use tokioloop.Deps.{Deps}
use tokioloop.Handle.{
  Handle, cb_handle, cb_handle_no_args, tcp_read_handle, tcp_write_handle, udp_read_handle,
  udp_write_handle, cancelled,
}
use tokioloop.World.{
  World, TcpServerRef, PyHandleData, IoHandle, py, signals, tcp_listener, tcp_stream, udp_socket,
  store,
}
use tokioloop.World.{Ensures, Ensures->>=, Ensures-map, Ensures-any}
use tokioloop.EventLoop.Signals.{
  ReadResult, signals_from, is_nonempty, sig_handle_all, sig_handle, sig_found, signals_read,
  read_from_sock, handle_io_signals,
}
use tokioloop.Tcp.New.{Accepted, accept_all, accept_into, new_stream, handle_io_tcpl}
use tokioloop.EventLoop.Step.{Event, handle_event, handle_events, handle_io_py, push_if}

module _ (D : Deps) where
  open D use {get}

  -- Handles are added at the end; the queue, its counter and the timers stay, and no handle is
  -- cancelled.
  pub record Handled (w : World D) (hs : List Handle) (next : World D × List Handle) : Type 0 where
    pub added : (new : List Handle) × (next.1 ≡ hs ++ new)
    pub ready : next.0.handles_ready ≡ w.handles_ready
    pub counter : next.0.counter_ready ≡ w.counter_ready
    pub sched : next.0.handles_sched ≡ w.handles_sched
    pub live : (h : Handle) → cancelled w.flags h ≡ false → cancelled next.0.flags h ≡ false

  Handled-refl : (w : World D) (hs : List Handle) → Handled w hs (w, hs)
  Handled-refl w hs = record {
    added = ([], sym (append-nil hs));
    ready = refl;
    counter = refl;
    sched = refl;
    live = λ h e. e;
  }

  pub Handled-trans :
      (w : World D) (hs : List Handle) (m n : World D × List Handle)
      → Handled w hs m
      → Handled m.0 m.1 n
      → Handled w hs n
  Handled-trans w hs m n a b = record {
    added = (
      a.added.0 ++ b.added.0,
      b.added.1
          ∙ ap (λ (x : List Handle). x ++ b.added.0) a.added.1
          ∙ append_assoc hs a.added.0 b.added.0,
    );
    ready = b.ready ∙ a.ready;
    counter = b.counter ∙ a.counter;
    sched = b.sched ∙ a.sched;
    live = λ h e. b.live h (a.live h e);
  }

  cancelled-new_cell :
      (f : ℕ → Bool) (cell : ℕ) (h : Handle)
      → cancelled f h ≡ false
      → cancelled (store f cell false) h ≡ false
  unfolding cancelled
  cancelled-new_cell f cell (cb_handle _ _ _ k) e = ground arith
  cancelled-new_cell f cell (cb_handle_no_args _ _ k) e = ground arith
  cancelled-new_cell f cell _ e = refl

  Handled-append : (w : World D) (hs new : List Handle) → Handled w hs (w, hs ++ new)
  Handled-append w hs new = record {
    added = (new, refl);
    ready = refl;
    counter = refl;
    sched = refl;
    live = λ h e. e;
  }

  accept_all-Handled :
      (server : TcpServerRef D) (accepted : List Accepted) (set : D.Map (Unit {0})) (w : World D)
      (hs : List Handle)
      → Ensures (accept_all D server accepted set w hs) (Handled w hs)
  unfolding accept_all
  accept_all-Handled server [] set w hs = Handled-refl w hs
  accept_all-Handled server (a ∷ rest) set w hs =
      Ensures->>= (new_stream D server a) _ (λ _. Unit {0}) _ (Ensures-any (new_stream D server a))
        λ made _.
          Ensures-map (accept_all D server rest _ _ _) _ _ (accept_all-Handled server rest _ _ _)
            λ n k.
              Handled-trans w hs (_, hs ++ (made.1 ∷ [])) n
                (record {
                  added = (made.1 ∷ [], refl);
                  ready = refl;
                  counter = refl;
                  sched = refl;
                  live = λ h e. cancelled-new_cell w.flags a.cell h e;
                })
                k

  accept_into-Handled :
      (server : ℕ) (accepted : List Accepted) (w : World D) (hs : List Handle)
      (set : Option (D.Map (Unit {0})))
      → Ensures (accept_into D server accepted w hs set) (Handled w hs)
  unfolding accept_into
  accept_into-Handled server accepted w hs none = tt
  accept_into-Handled server accepted w hs (some set) =
      accept_all-Handled (w.servers server) accepted set w hs

  sig_found-Handled :
      (sig : ℕ) (w : World D) (hs : List Handle) (found : Option Handle)
      → Handled w hs (sig_found D sig w hs found)
  unfolding sig_found
  sig_found-Handled sig w hs none = Handled-refl w hs
  sig_found-Handled sig w hs (some h) = elim (Bool-cases (cancelled w.flags h)) [
    | inl dropped ↦ rw dropped (record {
      added = ([], sym (append-nil hs));
      ready = refl;
      counter = refl;
      sched = refl;
      live = λ k e. e;
    })
    | inr live ↦ rw live (record {
      added = (h ∷ [], refl);
      ready = refl;
      counter = refl;
      sched = refl;
      live = λ k e. e;
    })
  ]

  sig_handle_all-Handled :
      (sigs : List ℕ) (w : World D) (hs : List Handle) → Handled w hs (sig_handle_all D sigs w hs)
  unfolding sig_handle_all sig_handle
  sig_handle_all-Handled [] w hs = Handled-refl w hs
  sig_handle_all-Handled (sig ∷ sigs) w hs =
      let next = sig_found D sig w hs (get sig w.sig_handlers) in
      Handled-trans w hs next _ (sig_found-Handled sig w hs (get sig w.sig_handlers))
        (sig_handle_all-Handled sigs next.0 next.1)

  signals_read-Handled :
      (sigs : Option (List ℕ)) (w : World D) (hs : List Handle)
      → Ensures (signals_read D sigs w hs) (Handled w hs)
  unfolding signals_read
  signals_read-Handled none w hs = tt
  signals_read-Handled (some sigs) w hs =
      elim (Bool-cases (is_nonempty D sigs && w.sig_listening)) [
        | inl deliver ↦ rw (deliver, Ensures) (sig_handle_all-Handled sigs w hs)
        | inr ignore ↦ rw (ignore, Ensures) (Handled-refl w hs)
      ]

  signals_from-Handled :
      (pair : Option (ℕ × ℕ)) (answers : List ReadResult) (w : World D) (hs : List Handle)
      → Ensures (signals_from D pair answers w hs) (Handled w hs)
  unfolding signals_from
  signals_from-Handled none answers w hs = Handled-refl w hs
  signals_from-Handled (some _) answers w hs = signals_read-Handled (read_from_sock answers) w hs

  push_if-added :
      (b : Bool) (o : Option Handle) (hs : List Handle)
      → (new : List Handle) × (push_if b o hs ≡ hs ++ new)
  push_if-added true (some h) hs = (h ∷ [], refl)
  push_if-added true none hs = ([], sym (append-nil hs))
  push_if-added false o hs = ([], sym (append-nil hs))

  handle_io_py-Handled :
      (e : Event) (d : PyHandleData) (w : World D) (hs : List Handle)
      → Handled w hs (w, handle_io_py e d hs)
  unfolding handle_io_py
  handle_io_py-Handled e d w hs =
      let mid = push_if e.is_readable d.cbr hs in
      let (r, re) = push_if-added e.is_readable d.cbr hs in
      let (c, ce) = push_if-added e.is_writable d.cbw mid in
      record {
        added = (r ++ c, ce ∙ ap (λ (x : List Handle). x ++ c) re ∙ append_assoc hs r c);
        ready = refl;
        counter = refl;
        sched = refl;
        live = λ h k. k;
      }

  either-Handled :
      (b c : Bool) (h k : Handle) (w : World D) (hs : List Handle)
      → Handled w hs (w, if b then hs ++ (h ∷ []) else if c then hs ++ (k ∷ []) else hs)
  either-Handled true c h k w hs = Handled-append w hs (h ∷ [])
  either-Handled false true h k w hs = Handled-append w hs (k ∷ [])
  either-Handled false false h k w hs = Handled-refl w hs

  -- An event's handler adds handles at the end, and touches neither the ready queue, nor its counter,
  -- nor the timers, nor cancels a handle.
  handle_event-Handled :
      (e : Event) (entry : Option IoHandle) (w : World D) (hs : List Handle)
      → Ensures (handle_event D e entry w hs) (Handled w hs)
  unfolding handle_event handle_io_signals handle_io_tcpl
  handle_event-Handled e none w hs = Handled-refl w hs
  handle_event-Handled e (some (py d)) w hs = handle_io_py-Handled e d w hs
  handle_event-Handled e (some (tcp_listener server)) w hs =
      accept_into-Handled server e.accepted w hs (get (w.servers server).fd w.tcp_lstreams)
  handle_event-Handled e (some (tcp_stream _)) w hs =
      either-Handled e.is_readable e.is_writable (tcp_read_handle e.token)
        (tcp_write_handle e.token) w hs
  handle_event-Handled e (some (udp_socket _)) w hs =
      either-Handled e.is_readable e.is_writable (udp_read_handle e.token)
        (udp_write_handle e.token) w hs
  handle_event-Handled e (some signals) w hs = signals_from-Handled w.ssock e.answers w hs

  pub handle_events-Handled :
      (es : List Event) (w : World D) (hs : List Handle)
      → Ensures (handle_events D es w hs) (Handled w hs)
  unfolding handle_events
  handle_events-Handled [] w hs = Handled-refl w hs
  handle_events-Handled (e ∷ es) w hs =
      let entry = get e.token w.handles_io in
      Ensures->>= (handle_event D e entry w hs) _ _ _ (handle_event-Handled e entry w hs) λ next k.
        Ensures-map (handle_events D es next.0 next.1) _ _ (handle_events-Handled es next.0 next.1)
          λ n l. Handled-trans w hs next n k l

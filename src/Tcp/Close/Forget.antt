-- ===== src/Tcp/Close/Forget.antt =====
-- What `tcp_stream_close` of src/event_loop.rs leaves of a transport that is closing.
use tokioloop.Base.{ℕ, ◌==◌, if◌then◌else◌, false, true, Option, none, some, ◌≡◌, refl}
use tokioloop.Deps.{Deps}
use tokioloop.World.{World, Returns, ok}
use tokioloop.Tcp.Close.{close_if_tls, close_found, leave_listener, drop_stream, tcp_stream_close}

module _ (D : Deps) where
  open D use {get, remove, get-remove}

  -- The loop has no transport for the descriptor; nothing but the listeners' sets changes else.
  pub record Forgets (fd : ℕ) (w w' : World D) : Type 0 where
    pub tcp : w'.tcp ≡ w.tcp
    pub handles_io : w'.handles_io ≡ w.handles_io
    pub registry : w'.registry ≡ w.registry
    pub trace : w'.trace ≡ w.trace
    pub forgotten :
        (j : ℕ) → get j w'.tcp_transports ≡ (if fd == j then none else get j w.tcp_transports)

  drop_stream-Forgets :
      (fd lfd : ℕ) (w : World D) (set : Option (D.Map (Unit {0})))
      → Forgets fd w
          (drop_stream D fd lfd (record w { tcp_transports = remove fd w.tcp_transports }) set)
  drop_stream-Forgets fd lfd w none = record {
    tcp = refl;
    handles_io = refl;
    registry = refl;
    trace = refl;
    forgotten = λ j. get-remove j fd w.tcp_transports;
  }
  drop_stream-Forgets fd lfd w (some set) = record {
    tcp = refl;
    handles_io = refl;
    registry = refl;
    trace = refl;
    forgotten = λ j. get-remove j fd w.tcp_transports;
  }

  leave_listener-Forgets :
      (fd : ℕ) (lfd : Option ℕ) (w : World D)
      → Forgets fd w
          (leave_listener D fd lfd (record w { tcp_transports = remove fd w.tcp_transports }))
  leave_listener-Forgets fd none w = record {
    tcp = refl;
    handles_io = refl;
    registry = refl;
    trace = refl;
    forgotten = λ j. get-remove j fd w.tcp_transports;
  }
  leave_listener-Forgets fd (some lfd) w = drop_stream-Forgets fd lfd w (get lfd w.tcp_lstreams)

  -- With TLS or without, `close` does nothing to a transport that is closing.
  close_if_tls-closing :
      (r now : ℕ) (conn : Option D.Conn) (w : World D)
      → (w.tcp r).closing ≡ true
      → close_if_tls D r now conn w ≡ ok w
  unfolding close_if_tls
  close_if_tls-closing r now none w closing = refl
  close_if_tls-closing r now (some conn) w closing = simp closing refl

  -- `tcp_stream_close` of a transport that is closing and not borrowed returns.
  pub tcp_stream_close-Forgets :
      (fd now r : ℕ) (w : World D)
      → get fd w.tcp_transports ≡ some r
      → (w.tcp r).borrowed ≡ false
      → (w.tcp r).closing ≡ true
      → Returns (tcp_stream_close D fd now w) (Forgets fd w)
  unfolding tcp_stream_close close_found
  tcp_stream_close-Forgets fd now r w here free closing =
      let w0 = record w { tcp_transports = remove fd w.tcp_transports } in
      rw (here, free)
        (rw (close_if_tls-closing r now (w.tcp r).tls_conn w0 closing)
          (leave_listener-Forgets fd (w.tcp r).lfd w))

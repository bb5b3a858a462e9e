-- ===== src/EventLoop/Watch.antt =====
-- What `handles_io` of src/event_loop.rs says that the poll watches, against the poll's registry, and
-- how an operation on the interests of one token changes both.
use tokioloop.Base.{
  ◌∙◌, arith, true, Bool, ℕ, ◌==◌, if◌then◌else◌, false, ◌&&◌, ◌||◌, not, Option, none, some, List,
  [], ◌∷◌, ◌≡◌,
}
use tokioloop.Deps.{
  Deps, Interest, readable, writable, is_readable, is_writable, reads, writes, RegistryCall,
  register, reregister, deregister,
}
use tokioloop.World.{World, IoHandle, py, signals, tcp_listener, tcp_stream, udp_socket}

-- What the poll watches for a token after the calls, the newest first.
abbrev pub registered : ℕ → List RegistryCall → Option Interest
registered fd [] = none
registered fd (register t i ∷ cs) = if t == fd then some i else registered fd cs
registered fd (reregister t i ∷ cs) = if t == fd then some i else registered fd cs
registered fd (deregister t ∷ cs) = if t == fd then none else registered fd cs

-- What the loop's entry says that the poll watches.
abbrev pub expected : Option IoHandle → Option Interest
expected none = none
expected (some (py d)) = some d.interest
expected (some signals) = some readable
expected (some (tcp_listener _)) = some readable
expected (some (tcp_stream i)) = some i
expected (some (udp_socket i)) = some i

-- The entry of a stream, or none yet.
abbrev pub is_stream_entry : Option IoHandle → Bool
is_stream_entry none = true
is_stream_entry (some (tcp_stream _)) = true
is_stream_entry _ = false

-- The entry of a datagram socket, or none yet.
abbrev pub is_socket_entry : Option IoHandle → Bool
is_socket_entry none = true
is_socket_entry (some (udp_socket _)) = true
is_socket_entry _ = false

module _ (D : Deps) where
  open D use {get}

  -- The loop's table and the poll's registry agree on every token.
  abbrev pub IsSynced : World D → Type 0
  IsSynced w = (j : ℕ) → registered j w.registry ≡ expected (get j w.handles_io)

  abbrev pub watched : ℕ → World D → Option Interest
  watched fd w = expected (get fd w.handles_io)

  -- The transports, the tables of them, the trace and the queue of `w'` are those of `w`.
  pub record SameRest (w w' : World D) : Type 0 where
    pub tcp : w'.tcp ≡ w.tcp
    pub udp : w'.udp ≡ w.udp
    pub tcp_transports : w'.tcp_transports ≡ w.tcp_transports
    pub udp_transports : w'.udp_transports ≡ w.udp_transports
    pub tcp_lstreams : w'.tcp_lstreams ≡ w.tcp_lstreams
    pub trace : w'.trace ≡ w.trace
    pub ready : w'.handles_ready ≡ w.handles_ready

  -- The interest `i` is added to what is watched at `fd`, and nothing else changes.
  pub record Adds (fd : ℕ) (i : Interest) (w w' : World D) : Type 0 where
    pub read : reads (watched fd w') ≡ (reads (watched fd w) || is_readable i)
    pub write : writes (watched fd w') ≡ (writes (watched fd w) || is_writable i)
    pub others : (j : ℕ) → (fd == j) ≡ false → get j w'.handles_io ≡ get j w.handles_io
    pub synced : IsSynced w → IsSynced w'
    pub rest : SameRest w w'

  -- The interest `i` is taken from what is watched at `fd`, and nothing else changes.
  pub record Takes (fd : ℕ) (i : Interest) (w w' : World D) : Type 0 where
    pub read : reads (watched fd w') ≡ (reads (watched fd w) && not (is_readable i))
    pub write : writes (watched fd w') ≡ (writes (watched fd w) && not (is_writable i))
    pub others : (j : ℕ) → (fd == j) ≡ false → get j w'.handles_io ≡ get j w.handles_io
    pub streams :
        is_stream_entry (get fd w.handles_io) ≡ true → is_stream_entry (get fd w'.handles_io) ≡ true
    pub sockets :
        is_socket_entry (get fd w.handles_io) ≡ true → is_socket_entry (get fd w'.handles_io) ≡ true
    pub synced : IsSynced w → IsSynced w'
    pub rest : SameRest w w'

  -- Nothing is watched at `fd`, and nothing else has changed.
  pub record Unwatched (fd : ℕ) (w w' : World D) : Type 0 where
    pub read : reads (watched fd w') ≡ false
    pub write : writes (watched fd w') ≡ false
    pub others : (j : ℕ) → (fd == j) ≡ false → get j w'.handles_io ≡ get j w.handles_io
    pub synced : IsSynced w → IsSynced w'
    pub rest : SameRest w w'

  pub Takes-both :
      (fd : ℕ) (w v u : World D) → Takes fd readable w v → Takes fd writable v u → Unwatched fd w u
  Takes-both fd w v u a b = record {
    read = ground (arith, a.read, b.read);
    write = ground (arith, a.write, b.write);
    others = λ j n. b.others j n ∙ a.others j n;
    synced = λ h. b.synced (a.synced h);
    rest = record {
      tcp = b.rest.tcp ∙ a.rest.tcp;
      udp = b.rest.udp ∙ a.rest.udp;
      tcp_transports = b.rest.tcp_transports ∙ a.rest.tcp_transports;
      udp_transports = b.rest.udp_transports ∙ a.rest.udp_transports;
      tcp_lstreams = b.rest.tcp_lstreams ∙ a.rest.tcp_lstreams;
      trace = b.rest.trace ∙ a.rest.trace;
      ready = b.rest.ready ∙ a.rest.ready;
    };
  }

-- ===== src/World.antt =====
-- The state of src/event_loop.rs (`EventLoop`), src/tcp.rs (`TCPTransport`) and src/udp.rs
-- (`UDPTransport`). A transport is a shared object: a map holds its reference, the heap its state.
-- What the code does to the outside (callbacks into Python, bytes to a socket) is recorded in
-- `trace`, the newest first.
use tokioloop.Base.{refl, ==_refl, ◌≡◌, ℕ, ◌+◌, ◌==◌, if◌then◌else◌, Bool, false, Option, List, ◌∷◌}
use tokioloop.Deps.{Deps, Interest, RegistryCall}
use tokioloop.Handle.{Handle, Timer}

pub record PyHandleData : Type 0 where
  pub interest : Interest
  pub cbr : Option Handle
  pub cbw : Option Handle

pub data IoHandle : Type 0 where
  py : PyHandleData → IoHandle
  signals : IoHandle
  -- The listener's server, a reference.
  tcp_listener : ℕ → IoHandle
  tcp_stream : Interest → IoHandle
  udp_socket : Interest → IoHandle

-- The errors that end in a panic: `unreachable!()`, `unwrap()` with no value, a slice out of range, a
-- `RefCell` that is already borrowed.
pub data Fault : Type 0 where
  unreachable_code unwrap_none unwrap_error slice_range already_borrowed : Fault

-- What the code does for a datagram transport, by its reference, or its descriptor for a send.
pub data UdpEffect : Type 0 where
  datagram_made : ℕ → UdpEffect
  -- Whether an exception is passed.
  datagram_lost : ℕ → Bool → UdpEffect
  datagram_pause : ℕ → UdpEffect
  datagram_resume : ℕ → UdpEffect
  datagram_received : ℕ → List ℕ → ℕ → UdpEffect
  error_received : ℕ → UdpEffect
  -- The bytes of a datagram that the socket has taken, and its address.
  datagram_sent : ℕ → List ℕ → ℕ → UdpEffect

pub data Effect : Type 0 where
  connection_made : ℕ → Effect
  -- The transport, and whether an exception is passed.
  connection_lost : ℕ → Bool → Effect
  pause_writing : ℕ → Effect
  resume_writing : ℕ → Effect
  data_received : ℕ → List ℕ → Effect
  eof_received : ℕ → Effect
  -- The bytes that a socket has taken.
  sent : ℕ → List ℕ → Effect
  -- A write of TLS records whose result is ignored.
  tls_written : ℕ → List ℕ → Effect
  shutdown_write : ℕ → Effect
  datagram : UdpEffect → Effect

pub record TcpTransport (D : Deps) : Type 0 where
  pub fd : ℕ
  pub lfd : Option ℕ
  -- Whether the `RefCell` of the state is mutably borrowed.
  pub borrowed : Bool
  pub tls_conn : Option D.Conn
  pub handshake_complete : Bool
  pub connection_made_called : Bool
  pub write_buf : List (List ℕ)
  pub write_buf_dsize : ℕ
  pub tls_close_sent : Bool
  pub tls_close_received : Bool
  pub tls_close_sent_time : Option ℕ
  pub tls_pending_close : Bool
  pub ssl_close_timeout : ℕ
  pub closing : Bool
  pub paused : Bool
  pub water_hi : ℕ
  pub water_lo : ℕ
  pub weof : Bool
  pub proto_buffered : Bool
  pub proto_paused : Bool

-- A datagram of the buffer is its bytes and its address.
pub record UdpTransport : Type 0 where
  pub fd : ℕ
  pub borrowed : Bool
  pub remote_addr : Option ℕ
  pub write_buf : List (List ℕ × ℕ)
  pub write_buf_dsize : ℕ
  pub closing : Bool
  pub water_hi : ℕ
  pub water_lo : ℕ
  pub proto_paused : Bool

-- `TCPServerRef`
pub record TcpServerRef (D : Deps) : Type 0 where
  pub fd : ℕ
  pub ssl_config : Option D.ServerConfig

pub record World (D : Deps) : Type 0 where
  pub idle : Bool
  pub wakes : ℕ
  pub registry : List RegistryCall
  pub handles_io : D.Map IoHandle
  pub handles_ready : List Handle
  pub handles_sched : List Timer
  pub counter_ready : ℕ
  pub ssock : Option (ℕ × ℕ)
  pub sig_handlers : D.Map Handle
  pub sig_listening : Bool
  pub sig_loop_handled : Bool
  pub stopping : Bool
  pub tcp_lstreams : D.Map (D.Map (Unit {0}))
  pub tcp_transports : D.Map ℕ
  pub udp_transports : D.Map ℕ
  pub base_ctx : ℕ
  pub flags : ℕ → Bool
  pub servers : ℕ → TcpServerRef D
  pub tcp : ℕ → TcpTransport D
  pub udp : ℕ → UdpTransport
  pub trace : List Effect

-- A run of code ends in a value or in a panic, or the answers of the system that it was given ran out.
pub data Result {ℓ} (A : Type ℓ) : Type ℓ where
  ok : A → Result A
  panic : Fault → Result A
  starved : Result A

infixl 5 ◌>>=◌
abbrev pub ◌>>=◌ {ℓ κ} : {A : Type ℓ} {B : Type κ} → Result A → (A → Result B) → Result B
ok a >>= f = f a
panic e >>= f = panic e
starved >>= f = starved

-- The code returns, and its result has the property.
abbrev pub Returns {ℓ} : {A : Type ℓ} → Result A → (A → Type 0) → Type 0
Returns (ok a) P = P a
Returns (panic e) P = ⊥
Returns starved P = ⊥

-- If the code returns, its result has the property.
abbrev pub Ensures {ℓ} : {A : Type ℓ} → Result A → (A → Type 0) → Type 0
Ensures (ok a) P = P a
Ensures (panic e) P = Unit {0}
Ensures starved P = Unit {0}

-- The code does not panic, and if it returns, its result has the property.
abbrev pub Proceeds {ℓ} : {A : Type ℓ} → Result A → (A → Type 0) → Type 0
Proceeds (ok a) P = P a
Proceeds (panic e) P = ⊥
Proceeds starved P = Unit {0}

pub Returns-Proceeds {ℓ κ} :
    {A : Type ℓ} {B : Type κ} (m : Result A) (f : A → Result B) (P : A → Type 0) (Q : B → Type 0)
    → Returns m P
    → ((a : A) → P a → Proceeds (f a) Q)
    → Proceeds (m >>= f) Q
Returns-Proceeds (ok a) f P Q h k = k a h
Returns-Proceeds (panic e) f P Q h k = absurd h
Returns-Proceeds starved f P Q h k = absurd h

-- What holds of a result if there is one holds where the code returns.
pub Returns-Ensures {ℓ} :
    {A : Type ℓ} (m : Result A) (P Q : A → Type 0)
    → Returns m P
    → Ensures m Q
    → Returns m (λ a. P a × Q a)
Returns-Ensures (ok a) P Q h k = (h, k)
Returns-Ensures (panic e) P Q h k = absurd h
Returns-Ensures starved P Q h k = absurd h

-- Where the code returns, it has a result with the property.
pub Returns-result {ℓ} :
    {A : Type ℓ} (m : Result A) (P : A → Type 0) → Returns m P → (a : A) × (m ≡ ok a) × P a
Returns-result (ok a) P h = (a, refl, h)
Returns-result (panic e) P h = absurd h
Returns-result starved P h = absurd h

pub Ensures->>= {ℓ κ} :
    {A : Type ℓ} {B : Type κ} (m : Result A) (f : A → Result B) (P : A → Type 0) (Q : B → Type 0)
    → Ensures m P
    → ((a : A) → P a → Ensures (f a) Q)
    → Ensures (m >>= f) Q
Ensures->>= (ok a) f P Q h k = k a h
Ensures->>= (panic e) f P Q h k = tt
Ensures->>= starved f P Q h k = tt

pub Ensures-map {ℓ} :
    {A : Type ℓ} (m : Result A) (P Q : A → Type 0)
    → Ensures m P
    → ((a : A) → P a → Q a)
    → Ensures m Q
Ensures-map (ok a) P Q h k = k a h
Ensures-map (panic e) P Q h k = tt
Ensures-map starved P Q h k = tt

pub Ensures-any {ℓ} : {A : Type ℓ} (m : Result A) → Ensures m (λ _. Unit {0})
Ensures-any (ok a) = tt
Ensures-any (panic e) = tt
Ensures-any starved = tt

pub Returns-map {ℓ} :
    {A : Type ℓ} (m : Result A) (P Q : A → Type 0)
    → Returns m P
    → ((a : A) → P a → Q a)
    → Returns m Q
Returns-map (ok a) P Q h k = k a h
Returns-map (panic e) P Q h k = absurd h
Returns-map starved P Q h k = absurd h

pub Returns->>= {ℓ κ} :
    {A : Type ℓ} {B : Type κ} (m : Result A) (f : A → Result B) (P : A → Type 0) (Q : B → Type 0)
    → Returns m P
    → ((a : A) → P a → Returns (f a) Q)
    → Returns (m >>= f) Q
Returns->>= (ok a) f P Q h k = k a h
Returns->>= (panic e) f P Q h k = absurd h
Returns->>= starved f P Q h k = absurd h

pub Returns-both {ℓ} :
    {A : Type ℓ} (m : Result A) (P Q : A → Type 0)
    → Returns m P
    → Returns m Q
    → Returns m (λ a. P a × Q a)
Returns-both (ok a) P Q h k = (h, k)
Returns-both (panic e) P Q h k = absurd h
Returns-both starved P Q h k = absurd h

-- A write through a reference into a heap of objects.
abbrev pub store {ℓ} : {A : Type ℓ} → (ℕ → A) → ℕ → A → ℕ → A
store h r a q = if r == q then a else h q

pub store_self {ℓ} : {A : Type ℓ} (h : ℕ → A) (r : ℕ) (a : A) → store h r a r ≡ a
store_self h r a = rw (==_refl r)

module _ (D : Deps) where
  abbrev pub set_tcp : ℕ → TcpTransport D → World D → World D
  set_tcp r t w = record w { tcp = store w.tcp r t }

  abbrev pub set_udp : ℕ → UdpTransport → World D → World D
  set_udp r t w = record w { udp = store w.udp r t }

  abbrev pub emit : Effect → World D → World D
  emit e w = record w { trace = e ∷ w.trace }

  -- A new callback handle is not cancelled.
  abbrev pub new_cell : ℕ → World D → World D
  new_cell cell w = record w { flags = store w.flags cell false }

  -- `EventLoop::wake`
  unfoldable pub wake : World D → World D
  wake w = record w { wakes = if w.idle then w.wakes + 1 else w.wakes }

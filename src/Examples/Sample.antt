-- ===== src/Examples/Sample.antt =====
-- A model of the third-party crates that runs, and an event loop of src/event_loop.rs before its first
-- iteration.
use tokioloop.Base.{
  length, ◌||◌, ◌+◌, ◌&&◌, not, ℕ, true, false, ◌≡◌, refl, Option, none, some, [], ◌∷◌, ◌==◌,
  if◌then◌else◌,
}
use tokioloop.Deps.{
  writes, reads, is_writable, is_readable, Deps, Interest, readable, writable, both, removal,
  retained, updated, upserted, io_state,
}
use tokioloop.Deps.Papaya.{Papaya}
use tokioloop.Deps.Mio.{Mio}
use tokioloop.Deps.Rustls.{Rustls}
use tokioloop.World.{World}
use tokioloop.Tcp.New.{new}
use tokioloop.Udp.Transport

-- A map is a function.
abbrev pub table : Papaya
table = record {
  Map = λ V. ℕ → Option V;
  empty = λ j. none;
  get = λ j m. m j;
  insert = λ k v m j. if k == j then some v else m j;
  remove = λ k m j. if k == j then none else m j;
  clear = λ m j. none;
  remove_if = λ k p m. (removal p (m k), λ j. if k == j then retained p (m k) else m j);
  update = λ k f m j. if k == j then updated f (m k) else m j;
  update_or_insert_with = λ k f v m j. if k == j then upserted f v (m k) else m j;
  get-empty = λ j. refl;
  get-clear = λ j m. refl;
  get-insert = λ j k v m. refl;
  get-remove = λ j k m. refl;
  remove_if-result = λ k p m. refl;
  get-remove_if = λ j k p m. refl;
  get-update = λ j k f m. refl;
  get-update_or_insert_with = λ j k f v m. refl;
}

abbrev join_interests : Interest → Interest → Interest
join_interests readable readable = readable
join_interests writable writable = writable
join_interests _ _ = both

abbrev without : Interest → Interest → Option Interest
without readable writable = some readable
without writable readable = some writable
without both readable = some writable
without both writable = some readable
without _ _ = none

pub readable-join :
    (a b : Interest) → is_readable (join_interests a b) ≡ (is_readable a || is_readable b)
readable-join readable readable = refl
readable-join readable writable = refl
readable-join readable both = refl
readable-join writable readable = refl
readable-join writable writable = refl
readable-join writable both = refl
readable-join both readable = refl
readable-join both writable = refl
readable-join both both = refl

pub writable-join :
    (a b : Interest) → is_writable (join_interests a b) ≡ (is_writable a || is_writable b)
writable-join readable readable = refl
writable-join readable writable = refl
writable-join readable both = refl
writable-join writable readable = refl
writable-join writable writable = refl
writable-join writable both = refl
writable-join both readable = refl
writable-join both writable = refl
writable-join both both = refl

pub readable-without :
    (a b : Interest) → reads (without a b) ≡ (is_readable a && not (is_readable b))
readable-without readable readable = refl
readable-without readable writable = refl
readable-without readable both = refl
readable-without writable readable = refl
readable-without writable writable = refl
readable-without writable both = refl
readable-without both readable = refl
readable-without both writable = refl
readable-without both both = refl

pub writable-without :
    (a b : Interest) → writes (without a b) ≡ (is_writable a && not (is_writable b))
writable-without readable readable = refl
writable-without readable writable = refl
writable-without readable both = refl
writable-without writable readable = refl
writable-without writable writable = refl
writable-without writable both = refl
writable-without both readable = refl
writable-without both writable = refl
writable-without both both = refl

abbrev interests : Mio
interests = record {
  union = join_interests;
  subtract = without;
  readable-union = readable-join;
  writable-union = writable-join;
  readable-subtract = readable-without;
  writable-subtract = writable-without;
}

-- A TLS connection that is a number of bytes to send.
abbrev plain_tls : Rustls
plain_tls = record {
  Conn = ℕ;
  ServerConfig = Unit {0};
  ClientConfig = Unit {0};
  server_connection = λ _. some 0;
  client_connection = λ _ _. some 1;
  wants_write = λ n. not (n == 0);
  is_handshaking = λ n. false;
  send_close_notify = λ n. n + 1;
  write_tls = λ n. (some (n ∷ []), 0);
  read_tls = λ bytes n. (some (length bytes), n);
  process_new_packets = λ n. (io_state false, n);
  reader_read = λ n. (some [], n);
  writer_write_all = λ bytes n. (true, n + 1);
}

abbrev pub sample : Deps
sample = record { papaya = table; mio = interests; rustls = plain_tls }

-- A transport's reference is the number of its descriptor.
abbrev pub fresh : World sample
fresh = record {
  idle = false;
  wakes = 0;
  registry = [];
  handles_io = λ j. none;
  handles_ready = [];
  handles_sched = [];
  counter_ready = 0;
  ssock = none;
  sig_handlers = λ j. none;
  sig_listening = false;
  sig_loop_handled = false;
  stopping = false;
  tcp_lstreams = λ j. none;
  tcp_transports = λ j. none;
  udp_transports = λ j. none;
  base_ctx = 0;
  flags = λ j. false;
  servers = λ j. record { fd = j; ssl_config = none };
  tcp = λ j. new sample j none false none;
  udp = λ j. Transport.new j none;
  trace = [];
}

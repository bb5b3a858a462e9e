-- ===== src/Tcp/Write/Failing.antt =====
-- A direct write of src/tcp.rs that the system refuses.
use tokioloop.Base.{◌∙◌, ℕ, Bool, false, true, none, some, List, ◌∷◌, ◌≡◌, refl, ap, arith}
use tokioloop.Deps.{Deps, readable}
use tokioloop.World.{
  store_self, World, TcpTransport, Fault, already_borrowed, Returns, Result, ok, panic, starved,
  set_tcp, ◌>>=◌,
}
use tokioloop.EventLoop.Watch.{Takes, is_stream_entry}
use tokioloop.EventLoop.Streams.{tcp_stream_rem}
use tokioloop.EventLoop.Streams.Sync.{tcp_stream_rem-Takes}
use tokioloop.Tcp.Close.{call_conn_lost, tcp_stream_close, close_found}
use tokioloop.Tcp.Write.{
  write_failed, lock, fail_write, direct_write, add_output, buffered_write, try_write, account,
  done,
}

Returns-panic {ℓ κ} :
    {A : Type ℓ} {B : Type κ} (m : Result A) (f : A → Result B) (P : A → Type 0) (e : Fault)
    → Returns m P
    → ((a : A) → P a → f a ≡ panic e)
    → (m >>= f) ≡ panic e
Returns-panic (ok a) f P e h k = k a h
Returns-panic (panic _) f P e h k = absurd h
Returns-panic starved f P e h k = absurd h

module _ (D : Deps) where
  open D use {get}

  call_conn_lost-panic :
      (r now : ℕ) (errored : Bool) (w : World D)
      → (w.tcp r).borrowed ≡ true
      → get (w.tcp r).fd w.tcp_transports ≡ some r
      → call_conn_lost D r now errored w ≡ panic already_borrowed
  unfolding call_conn_lost tcp_stream_close close_found
  call_conn_lost-panic r now errored w held here = rw here (simp held refl)

  -- The state of `r` while its write runs: mutably borrowed, with nothing buffered, and the loop's.
  record IsHeld (r : ℕ) (w : World D) : Type 0 where
    pub held : (w.tcp r).borrowed ≡ true
    pub first : (w.tcp r).closing ≡ false
    pub plain : (w.tcp r).tls_conn ≡ none
    pub nothing : (w.tcp r).write_buf_dsize ≡ 0
    pub here : get (w.tcp r).fd w.tcp_transports ≡ some r
    pub entry : is_stream_entry (get (w.tcp r).fd w.handles_io) ≡ true

  fail_write-open :
      (r now : ℕ) (w : World D)
      → IsHeld r w
      → fail_write D r now w ≡ (
          tcp_stream_rem D
            (w.tcp r).fd
            readable
            (set_tcp D r (record (w.tcp r) { closing = true }) w)
          >>= λ w3. call_conn_lost D r now true w3 >>= λ w4. ok (0, w4))
  unfolding fail_write
  fail_write-open r now w h = simp (h.nothing, h.first) refl

  fail_write-panic :
      (r now : ℕ) (w : World D) → IsHeld r w → fail_write D r now w ≡ panic already_borrowed
  fail_write-panic r now w h =
      let t = record (w.tcp r) { closing = true } in
      let v = set_tcp D r t w in
      let self = store_self w.tcp r t in
      fail_write-open r now w h
      ∙ Returns-panic (tcp_stream_rem D (w.tcp r).fd readable v) _ (Takes D (w.tcp r).fd readable v)
          already_borrowed
          (tcp_stream_rem-Takes D (w.tcp r).fd readable v h.entry (λ e. absurd (ground (e, arith))))
          λ u a.
            let same = ap (λ (f : ℕ → TcpTransport D). f r) a.rest.tcp ∙ self in
            ap (λ m. m >>= λ w4. ok (0, w4))
              (call_conn_lost-panic r now true u
                (ap (λ (x : TcpTransport D). x.borrowed) same ∙ h.held)
                (ap (λ (x : TcpTransport D). get x.fd u.tcp_transports) same
                  ∙ ap (get (w.tcp r).fd) a.rest.tcp_transports
                  ∙ h.here))

  try_write-buffered :
      (r now byte : ℕ) (bytes : List ℕ) (w : World D)
      → (w.tcp r).weof ≡ false
      → (w.tcp r).borrowed ≡ false
      → try_write D r now (byte ∷ bytes) write_failed w ≡ (
          add_output D r now (byte ∷ bytes) write_failed (lock D r true w) >>= λ (added, w1).
          account D r added w1 >>= λ w2. ok (done, lock D r false w2))
  unfolding try_write buffered_write
  try_write-buffered r now byte bytes w writable free = simp (writable, free) refl

  add_output-failed :
      (r now byte : ℕ) (bytes : List ℕ) (w : World D)
      → IsHeld r w
      → add_output D r now (byte ∷ bytes) write_failed w ≡ fail_write D r now w
  unfolding add_output direct_write
  add_output-failed r now byte bytes w h = simp (h.plain, h.nothing) refl

  -- `try_write` of some bytes to a transport without TLS that is open and not borrowed, has nothing
  -- buffered, and that the loop has for its descriptor, which is free or a stream's, panics if the
  -- system refuses the write: `connection_lost` is called while the state is borrowed, and
  -- `tcp_stream_close` borrows it again.
  pub try_write-panic :
      (r now byte : ℕ) (bytes : List ℕ) (w : World D)
      → (w.tcp r).weof ≡ false
      → (w.tcp r).borrowed ≡ false
      → (w.tcp r).closing ≡ false
      → (w.tcp r).tls_conn ≡ none
      → (w.tcp r).write_buf_dsize ≡ 0
      → get (w.tcp r).fd w.tcp_transports ≡ some r
      → is_stream_entry (get (w.tcp r).fd w.handles_io) ≡ true
      → try_write D r now (byte ∷ bytes) write_failed w ≡ panic already_borrowed
  try_write-panic r now byte bytes w writable free first plain nothing here entry =
      let t = record (w.tcp r) { borrowed = true } in
      let v = lock D r true w in
      let self = store_self w.tcp r t in
      let held : IsHeld r v = record {
        held = ap (λ (x : TcpTransport D). x.borrowed) self;
        first = ap (λ (x : TcpTransport D). x.closing) self ∙ first;
        plain = ap (λ (x : TcpTransport D). x.tls_conn) self ∙ plain;
        nothing = ap (λ (x : TcpTransport D). x.write_buf_dsize) self ∙ nothing;
        here = ap (λ (x : TcpTransport D). get x.fd w.tcp_transports) self ∙ here;
        entry = ap (λ (x : TcpTransport D). is_stream_entry (get x.fd w.handles_io)) self ∙ entry;
      } in
      try_write-buffered r now byte bytes w writable free
      ∙ ap (λ m. m >>= λ (added, w1). account D r added w1 >>= λ w2. ok (done, lock D r false w2))
          (add_output-failed r now byte bytes v held ∙ fail_write-panic r now v held)

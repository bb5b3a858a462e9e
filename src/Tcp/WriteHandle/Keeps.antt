-- ===== src/Tcp/WriteHandle/Keeps.antt =====
-- What the write of a transport with TLS, in the write handle of src/tcp.rs, leaves as it was.
use tokioloop.Base.{
  ℕ, ◌-◌, Bool, if◌then◌else◌, true, false, ◌==◌, length, Option, none, some, List, [], ◌∷◌, ◌≡◌,
  refl, ap, ◌∙◌, Bool-cases, inl, inr,
}
use tokioloop.Deps.{Deps}
use tokioloop.World.{
  store_self, World, TcpTransport, Ensures, Ensures->>=, Ensures-map, set_tcp, Result, ok,
}
use tokioloop.Tcp.Write.{WriteResult, wrote, write_interrupted, would_block, write_failed}
use tokioloop.Tcp.WriteHandle.Frame.{losses}
use tokioloop.Tcp.WriteHandle.Tls.{
  RecordsSent, all_sent, blocked, broken, send_records, encrypt, flush_records, write_application,
  after_records, write_with_tls,
}

Ensures-if {ℓ} :
    {A : Type ℓ} (b : Bool) (m n : Result A) (P : A → Type 0)
    → Ensures m P
    → Ensures n P
    → Ensures (if b then m else n) P
Ensures-if true m n P h k = h
Ensures-if false m n P h k = k

module _ (D : Deps) where
  open D use {Conn, write_tls}

  -- The protocol of `r` is not told of a loss, and the transport has a connection.
  pub record Keeps (r : ℕ) (w w' : World D) : Type 0 where
    pub same_handles : w'.handles_io ≡ w.handles_io
    pub same_transports : w'.tcp_transports ≡ w.tcp_transports
    pub same_losses : losses r w'.trace ≡ losses r w.trace
    pub borrowed : (w'.tcp r).borrowed ≡ (w.tcp r).borrowed
    pub closing : (w'.tcp r).closing ≡ (w.tcp r).closing
    pub pending : (w'.tcp r).tls_pending_close ≡ (w.tcp r).tls_pending_close
    pub connection : (conn : Conn) × ((w'.tcp r).tls_conn ≡ some conn)

  Keeps-none :
      (r : ℕ) (w : World D) → ((conn : Conn) × ((w.tcp r).tls_conn ≡ some conn)) → Keeps r w w
  Keeps-none r w has = record {
    same_handles = refl;
    same_transports = refl;
    same_losses = refl;
    borrowed = refl;
    closing = refl;
    pending = refl;
    connection = has;
  }

  Keeps-trans : (r : ℕ) (u v w : World D) → Keeps r u v → Keeps r v w → Keeps r u w
  Keeps-trans r u v w a b = record {
    same_handles = b.same_handles ∙ a.same_handles;
    same_transports = b.same_transports ∙ a.same_transports;
    same_losses = b.same_losses ∙ a.same_losses;
    borrowed = b.borrowed ∙ a.borrowed;
    closing = b.closing ∙ a.closing;
    pending = b.pending ∙ a.pending;
    connection = b.connection;
  }

  -- The records that are sent are in the trace, and nothing else is new.
  record Sends (r : ℕ) (w w' : World D) : Type 0 where
    same_tcp : w'.tcp ≡ w.tcp
    same_handles : w'.handles_io ≡ w.handles_io
    same_transports : w'.tcp_transports ≡ w.tcp_transports
    same_losses : losses r w'.trace ≡ losses r w.trace

  Sends-none : (r : ℕ) (w : World D) → Sends r w w
  Sends-none r w = record {
    same_tcp = refl;
    same_handles = refl;
    same_transports = refl;
    same_losses = refl;
  }

  send_records-Sends :
      (r fd : ℕ) (bytes : List ℕ) (answers : List WriteResult) (w : World D)
      → Ensures (send_records D fd bytes answers w) (λ s. Sends r w s.2)
  unfolding send_records
  send_records-Sends r fd [] answers w = Sends-none r w
  send_records-Sends r fd (b ∷ bs) [] w = tt
  send_records-Sends r fd (b ∷ bs) (wrote n ∷ answers) w =
      elim (Bool-cases (n == length (b ∷ bs))) [
        | inl whole ↦ rw whole (record {
          same_tcp = refl;
          same_handles = refl;
          same_transports = refl;
          same_losses = refl;
        })
        | inr part ↦ rw part (record {
          same_tcp = refl;
          same_handles = refl;
          same_transports = refl;
          same_losses = refl;
        })
      ]
  send_records-Sends r fd (b ∷ bs) (would_block ∷ answers) w = Sends-none r w
  send_records-Sends r fd (b ∷ bs) (write_interrupted ∷ answers) w = Sends-none r w
  send_records-Sends r fd (b ∷ bs) (write_failed ∷ answers) w = Sends-none r w

  -- A write to the transport that gives it a connection.
  set_tcp-Keeps :
      (r : ℕ) (t : TcpTransport D) (conn : Conn) (w : World D)
      → t.borrowed ≡ (w.tcp r).borrowed
      → t.closing ≡ (w.tcp r).closing
      → t.tls_pending_close ≡ (w.tcp r).tls_pending_close
      → t.tls_conn ≡ some conn
      → Keeps r w (set_tcp D r t w)
  set_tcp-Keeps r t conn w b c p e =
      let same = store_self w.tcp r t in
      record {
        same_handles = refl;
        same_transports = refl;
        same_losses = refl;
        borrowed = ap (λ (x : TcpTransport D). x.borrowed) same ∙ b;
        closing = ap (λ (x : TcpTransport D). x.closing) same ∙ c;
        pending = ap (λ (x : TcpTransport D). x.tls_pending_close) same ∙ p;
        connection = (conn, ap (λ (x : TcpTransport D). x.tls_conn) same ∙ e);
      }

  Keeps-Sends : (r : ℕ) (u v w : World D) → Keeps r u v → Sends r v w → Keeps r u w
  Keeps-Sends r u v w a s =
      let same = ap (λ (f : ℕ → TcpTransport D). f r) s.same_tcp in
      record {
        same_handles = s.same_handles ∙ a.same_handles;
        same_transports = s.same_transports ∙ a.same_transports;
        same_losses = s.same_losses ∙ a.same_losses;
        borrowed = ap (λ (x : TcpTransport D). x.borrowed) same ∙ a.borrowed;
        closing = ap (λ (x : TcpTransport D). x.closing) same ∙ a.closing;
        pending = ap (λ (x : TcpTransport D). x.tls_pending_close) same ∙ a.pending;
        connection =
            (a.connection.0, ap (λ (x : TcpTransport D). x.tls_conn) same ∙ a.connection.1);
      }

  flush_records-Keeps :
      (r : ℕ) (conn : Conn) (answers : List WriteResult) (w : World D)
      → Ensures (flush_records D r conn answers w) (λ s. Keeps r w s.2)
  unfolding flush_records
  flush_records-Keeps r conn answers w = go (write_tls conn).0
    where
      w' : World D
      w' = set_tcp D r (record (w.tcp r) { tls_conn = some (write_tls conn).1 }) w

      kept : Keeps r w w'
      kept = set_tcp-Keeps r _ (write_tls conn).1 w refl refl refl refl

      go :
          (records : Option (List ℕ))
          → Ensures
              (elim records
                as (λ (x : Option (List ℕ)). Result (RecordsSent × List WriteResult × World D)) [
                  | none ↦ ok (broken, answers, w')
                  | some bytes ↦ send_records D (w.tcp r).fd bytes answers w'
                ])
              (λ s. Keeps r w s.2)
      go none = kept
      go (some bytes) =
          Ensures-map (send_records D (w.tcp r).fd bytes answers w') (λ s. Sends r w' s.2)
            (λ s. Keeps r w s.2) (send_records-Sends r (w.tcp r).fd bytes answers w')
            λ s h. Keeps-Sends r w w' s.2 kept h

  write_application-Keeps :
      (r : ℕ) (conn : Conn) (answers : List WriteResult) (w : World D)
      → Ensures (write_application D r conn answers w) (λ s. Keeps r w s.1)
  unfolding write_application
  write_application-Keeps r conn answers w =
      let e = encrypt D (w.tcp r).write_buf 0 conn in
      let t = record (w.tcp r) {
        tls_conn = some e.conn;
        write_buf = e.rest;
        write_buf_dsize = (w.tcp r).write_buf_dsize - e.bytes;
      } in
      let w' = set_tcp D r t w in
      let kept = set_tcp-Keeps r t e.conn w refl refl refl refl in
      elim (Bool-cases e.complete) [
        | inr part ↦ rw part kept
        | inl whole ↦ rw whole (
            Ensures->>= (flush_records D r e.conn answers w') _ (λ s. Keeps r w' s.2)
              (λ s. Keeps r w s.1) (flush_records-Keeps r e.conn answers w')
              λ s h. Keeps-trans r w w' s.2 kept h)
      ]

  after_records-Keeps :
      (r : ℕ) (s : RecordsSent) (answers : List WriteResult) (w : World D) (c : Option Conn)
      → ((conn : Conn) × ((w.tcp r).tls_conn ≡ some conn))
      → Ensures (after_records D r s answers w c) (λ x. Keeps r w x.1)
  unfolding after_records
  after_records-Keeps r broken answers w c has = Keeps-none r w has
  after_records-Keeps r blocked answers w c has = Keeps-none r w has
  after_records-Keeps r all_sent answers w none has = tt
  after_records-Keeps r all_sent answers w (some conn) has =
      Ensures-if (w.tcp r).handshake_complete (write_application D r conn answers w)
        (ok (some 0, w)) (λ x. Keeps r w x.1) (write_application-Keeps r conn answers w)
        (Keeps-none r w has)

  -- Where the write of a transport with TLS returns, it has told nobody of a loss.
  pub write_with_tls-Keeps :
      (r : ℕ) (conn : Conn) (answers : List WriteResult) (w : World D)
      → (w.tcp r).borrowed ≡ false
      → Ensures (write_with_tls D r conn answers w) (λ x. Keeps r w x.1)
  unfolding write_with_tls
  write_with_tls-Keeps r conn answers w free = simp free (
      Ensures->>= (flush_records D r conn answers w) _ (λ s. Keeps r w s.2) (λ x. Keeps r w x.1)
        (flush_records-Keeps r conn answers w)
        λ (s, answers', w') h.
          Ensures-map (after_records D r s answers' w' (w'.tcp r).tls_conn) (λ x. Keeps r w' x.1)
            (λ x. Keeps r w x.1)
            (after_records-Keeps r s answers' w' (w'.tcp r).tls_conn h.connection)
            λ x k. Keeps-trans r w w' x.1 h k)

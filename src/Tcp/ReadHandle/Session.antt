-- ===== src/Tcp/ReadHandle/Session.antt =====
-- The rounds of the read handle of src/tcp.rs over a stream without TLS.
use tokioloop.Base.{
  Bool-cases, inl, inr, subst, ◌∙◌, sym, ℕ, ◌<◌, ◌==◌, ==_refl, ltb, if◌then◌else◌, false, true,
  ◌&&◌, none, some, List, [], ◌∷◌, ◌++◌, length, append-nil, append_assoc, ◌≡◌, refl, ap, arith,
}
use tokioloop.Deps.{Deps}
use tokioloop.World.{
  World, TcpTransport, Effect, connection_made, connection_lost, pause_writing, resume_writing,
  data_received, eof_received, sent, tls_written, shutdown_write, datagram, Returns, Returns-map,
  ok, emit,
}
use tokioloop.EventLoop.Signals.{ReadResult, read_bytes, read_failed}
use tokioloop.EventLoop.Signals.Delivery.{GoesOn, AllGoOn, bytes_of}
use tokioloop.Tcp.Close.{is_some}
use tokioloop.Tcp.ReadHandle.{Round, data_of, read_buf_size, recv, recv_plain, recv_direct}
use tokioloop.Tcp.ReadHandle.Input.{is_end, read_into_reads_all}
use tokioloop.Tcp.ReadHandle.Run.{deliver, read_rounds}
use tokioloop.Tcp.WriteHandle.Frame.{losses}

-- What the protocol of `r` has been given, by the trace.
abbrev pub received : ℕ → List Effect → List ℕ
received r [] = []
received r (data_received q bytes ∷ es) = if q == r then received r es ++ bytes else received r es
received r (connection_made _ ∷ es) = received r es
received r (connection_lost _ _ ∷ es) = received r es
received r (pause_writing _ ∷ es) = received r es
received r (resume_writing _ ∷ es) = received r es
received r (eof_received _ ∷ es) = received r es
received r (sent _ _ ∷ es) = received r es
received r (tls_written _ _ ∷ es) = received r es
received r (shutdown_write _ ∷ es) = received r es
received r (datagram _ ∷ es) = received r es

-- The rounds in which a peer sends the bytes and closes: each but the last reads some bytes until the
-- socket would block, and the last reads bytes or none, and then the end. Each has less than the buffer
-- has room for.
pub data Session : List Round → List ℕ → Type 0 where
  ends :
      (round : Round) (front : List ReadResult) (rest : List ReadResult) (rounds : List Round)
      → round.answers ≡ front ++ (read_bytes [] ∷ rest)
      → AllGoOn front
      → length (bytes_of front) < read_buf_size
      → Session (round ∷ rounds) (bytes_of front)
  goes :
      (round : Round) (front : List ReadResult) (rest : List ReadResult) (rounds : List Round)
      (bytes : List ℕ)
      → round.answers ≡ front ++ (read_failed ∷ rest)
      → AllGoOn front
      → 0 < length (bytes_of front)
      → length (bytes_of front) < read_buf_size
      → Session rounds bytes
      → Session (round ∷ rounds) (bytes_of front ++ bytes)

module _ (D : Deps) (react : ℕ → List ℕ → World D → World D) where
  -- The protocol changes nothing of its transport or of the loop's tables when it is given data.
  pub record IsPassive : Type 0 where
    pub tcp : (r : ℕ) (bytes : List ℕ) (w : World D) → (react r bytes w).tcp ≡ w.tcp
    pub transports :
        (r : ℕ) (bytes : List ℕ) (w : World D) → (react r bytes w).tcp_transports ≡ w.tcp_transports
    pub handles :
        (r : ℕ) (bytes : List ℕ) (w : World D) → (react r bytes w).handles_io ≡ w.handles_io
    pub trace : (r : ℕ) (bytes : List ℕ) (w : World D) → (react r bytes w).trace ≡ w.trace

  -- The protocol of `r` has been given the bytes, and nothing else has been done.
  pub record Heard (r : ℕ) (bytes : List ℕ) (w w' : World D) : Type 0 where
    pub tcp : w'.tcp ≡ w.tcp
    pub transports : w'.tcp_transports ≡ w.tcp_transports
    pub handles : w'.handles_io ≡ w.handles_io
    pub all : received r w'.trace ≡ received r w.trace ++ bytes
    pub same_losses : losses r w'.trace ≡ losses r w.trace

  deliver-Heard :
      (r : ℕ) (bytes : List ℕ) (w : World D)
      → IsPassive
      → Heard r bytes w (deliver D react r (data_of D bytes) w)
  deliver-Heard r [] w p = record {
    tcp = refl;
    transports = refl;
    handles = refl;
    all = sym (append-nil (received r w.trace));
    same_losses = refl;
  }
  deliver-Heard r (b ∷ bs) w p =
      let w' = emit D (data_received r (b ∷ bs)) w in
      record {
        tcp = p.tcp r (b ∷ bs) w';
        transports = p.transports r (b ∷ bs) w';
        handles = p.handles r (b ∷ bs) w';
        all = ap (received r) (p.trace r (b ∷ bs) w') ∙ rw (==_refl r) refl;
        same_losses = ap (losses r) (p.trace r (b ∷ bs) w');
      }

  Heard-trans :
      (r : ℕ) (xs ys : List ℕ) (w v u : World D)
      → Heard r xs w v
      → Heard r ys v u
      → Heard r (xs ++ ys) w u
  Heard-trans r xs ys w v u a b = record {
    tcp = b.tcp ∙ a.tcp;
    transports = b.transports ∙ a.transports;
    handles = b.handles ∙ a.handles;
    all = b.all ∙ ap (λ (x : List ℕ). x ++ ys) a.all ∙ append_assoc (received r w.trace) xs ys;
    same_losses = b.same_losses ∙ a.same_losses;
  }

  -- The transport has no TLS and an unbuffered protocol, and is not borrowed.
  abbrev pub IsPlain : TcpTransport D → Type 0
  IsPlain t = (t.borrowed ≡ false) × (t.proto_buffered ≡ false) × (t.tls_conn ≡ none)

  recv-reads :
      (fd r : ℕ) (round : Round) (front : List ReadResult) (stop : ReadResult)
      (rest : List ReadResult) (w : World D)
      → IsPlain (w.tcp r)
      → round.answers ≡ front ++ (stop ∷ rest)
      → AllGoOn front
      → ¬ GoesOn stop
      → length (bytes_of front) < read_buf_size
      → recv D fd r round w
        ≡ ok (
          (data_of D (bytes_of front), is_end stop && ltb (length (bytes_of front)) read_buf_size),
          w,
        )
  unfolding recv recv_direct recv_plain
  recv-reads fd r round front stop rest w (free, direct, plain) e g s fits =
      simp
        (
          free,
          direct,
          plain,
          e,
          read_into_reads_all front stop rest read_buf_size g s (omega (arith, fits)),
        )
        refl

  data_of-some : (bs : List ℕ) → 0 < length bs → data_of D bs ≡ some bs
  data_of-some [] h = absurd (omega (arith, h))
  data_of-some (b ∷ bs) h = refl

  -- The loop over the rounds of a session gives the protocol all the bytes and ends with the stream.
  pub read_rounds-Heard :
      (fd r : ℕ) (rounds : List Round) (bytes : List ℕ) (w : World D)
      → IsPassive
      → IsPlain (w.tcp r)
      → Session rounds bytes
      → Returns (read_rounds D react fd r rounds w) (λ (eof, w'). (eof ≡ true) × Heard r bytes w w')
  unfolding read_rounds
  read_rounds-Heard fd r _ _ w p q (ends round front rest rounds e g fits) =
      let room : ltb (length (bytes_of front)) read_buf_size ≡ true = ground (arith, fits) in
      rw (recv-reads fd r round front (read_bytes []) rest w q e g (λ h. h) fits) (
        rw room (elim (Bool-cases (is_some (data_of D (bytes_of front)))) [
          | inl has ↦ rw (has, Returns) (refl, deliver-Heard r (bytes_of front) w p)
          | inr has_not ↦ rw (has_not, Returns) (refl, deliver-Heard r (bytes_of front) w p)
        ]))
  read_rounds-Heard fd r _ _ w p q (goes round front rest rounds bytes e g more fits s) =
      let heard = deliver-Heard r (bytes_of front) w p in
      let w1 = deliver D react r (data_of D (bytes_of front)) w in
      let has : is_some (data_of D (bytes_of front)) ≡ true =
        ap is_some (data_of-some (bytes_of front) more) in
      let q1 : IsPlain (w1.tcp r) =
        subst IsPlain (sym (ap (λ (f : ℕ → TcpTransport D). f r) heard.tcp)) q in
      rw (recv-reads fd r round front read_failed rest w q e g (λ h. h) fits) (
        rw (has, Returns)
          (Returns-map (read_rounds D react fd r rounds w1) _ _
            (read_rounds-Heard fd r rounds bytes w1 p q1 s)
            λ n (t, h). (t, Heard-trans r (bytes_of front) bytes w w1 n.1 heard h)))

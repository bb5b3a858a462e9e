-- ===== src/Tcp/WriteHandle/Tls.antt =====
-- The write handle of a TCP transport with TLS: the first part of `TCPWriteHandle::write` of
-- src/tcp.rs. The answers of the system to its writes are an input, one for each write.
use tokioloop.Base.{
  ℕ, ◌+◌, ◌-◌, ◌==◌, if◌then◌else◌, Option, none, some, List, [], ◌∷◌, length, take, Bool, true,
  false,
}
use tokioloop.Deps.{Deps}
use tokioloop.World.{World, sent, Result, ok, panic, starved, unwrap_none, set_tcp, emit, ◌>>=◌}
use tokioloop.Tcp.Close.{borrow}
use tokioloop.Tcp.Write.{WriteResult, wrote, write_interrupted, would_block, write_failed}

-- How the write of some records ends: all are taken, the socket is full, or it fails.
pub data RecordsSent : Type 0 where
  all_sent blocked broken : RecordsSent

module _ (D : Deps) where
  open D use {Conn, write_tls, writer_write_all}

  -- One write of the records. A partial write counts as a failure.
  unfoldable pub send_records :
      ℕ → List ℕ → List WriteResult → World D → Result (RecordsSent × List WriteResult × World D)
  send_records fd [] answers w = ok (all_sent, answers, w)
  send_records fd (b ∷ bs) [] w = starved
  send_records fd (b ∷ bs) (wrote n ∷ answers) w =
      if n == length (b ∷ bs)
      then ok (all_sent, answers, emit D (sent fd (b ∷ bs)) w)
      else ok (broken, answers, emit D (sent fd (take n (b ∷ bs))) w)
  send_records fd (b ∷ bs) (would_block ∷ answers) w = ok (blocked, answers, w)
  send_records fd (b ∷ bs) (write_interrupted ∷ answers) w = ok (broken, answers, w)
  send_records fd (b ∷ bs) (write_failed ∷ answers) w = ok (broken, answers, w)

  -- What the loop over the buffer leaves: whether every chunk was encrypted, the bytes encrypted, the
  -- chunks left and the connection.
  pub record Encrypted : Type 0 where
    pub complete : Bool
    pub bytes : ℕ
    pub rest : List (List ℕ)
    pub conn : Conn

  -- `write_all` of the chunks in order; a chunk that is refused stays in front.
  unfoldable pub encrypt : List (List ℕ) → ℕ → Conn → Encrypted
  encrypt [] done conn = record { complete = true; bytes = done; rest = []; conn = conn }
  encrypt (chunk ∷ chunks) done conn =
      let taken = (writer_write_all chunk conn).0 in
      let conn' = (writer_write_all chunk conn).1 in
      let more = encrypt chunks (done + length chunk) conn' in
      if taken
      then more
      else record { complete = false; bytes = done; rest = chunk ∷ chunks; conn = conn' }

  -- `write_tls` into an empty buffer and its write; `none` where either fails. The connection has given
  -- the records away whatever the socket does.
  unfoldable pub flush_records :
      ℕ → Conn → List WriteResult → World D → Result (RecordsSent × List WriteResult × World D)
  unfolding send_records
  flush_records r conn answers w =
      let (records, conn') = write_tls conn in
      let t = w.tcp r in
      let w' = set_tcp D r (record t { tls_conn = some conn' }) w in
      elim records [
        | none ↦ ok (broken, answers, w')
        | some bytes ↦ send_records t.fd bytes answers w'
      ]

  -- The end of `write`, with the bytes encrypted.
  abbrev answer_of : ℕ → RecordsSent → Option ℕ
  answer_of ret all_sent = some ret
  answer_of ret blocked = some ret
  answer_of ret broken = none

  -- The buffer is encrypted and the new records are written.
  unfoldable pub write_application :
      ℕ → Conn → List WriteResult → World D → Result (Option ℕ × World D)
  unfolding encrypt flush_records
  write_application r conn answers w =
      let t = w.tcp r in
      let e = encrypt t.write_buf 0 conn in
      let w' =
        set_tcp D r
          (record t {
            tls_conn = some e.conn;
            write_buf = e.rest;
            write_buf_dsize = t.write_buf_dsize - e.bytes;
          })
          w in
      let flushed =
        flush_records r e.conn answers w' >>= λ (s, _, w''). ok (answer_of e.bytes s, w'') in
      if e.complete then flushed else ok (none, w')

  -- After the pending records: the buffer, once the handshake is complete.
  unfoldable pub after_records :
      ℕ → RecordsSent → List WriteResult → World D → Option Conn → Result (Option ℕ × World D)
  unfolding write_application
  after_records r broken answers w conn = ok (none, w)
  after_records r blocked answers w conn = ok (some 0, w)
  after_records r all_sent answers w none = panic unwrap_none
  after_records r all_sent answers w (some conn) =
      let application = write_application r conn answers w in
      if (w.tcp r).handshake_complete then application else ok (some 0, w)

  -- `TCPWriteHandle::write` of a transport whose TLS connection is `conn`.
  unfoldable pub write_with_tls :
      ℕ → Conn → List WriteResult → World D → Result (Option ℕ × World D)
  unfolding flush_records after_records
  write_with_tls r conn answers w = do
    t ← borrow D r w
    (s, answers', w') ← flush_records r conn answers w
    after_records r s answers' w' (w'.tcp r).tls_conn

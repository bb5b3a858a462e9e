-- ===== src/Tcp/Write/Account.antt =====
-- How `try_write` of src/tcp.rs counts what it has buffered, and watches for writing.
use tokioloop.Base.{
  ap₂, ℕ, ◌<◌, ◌+◌, ◌==◌, ltb, Bool, false, true, ◌&&◌, not, List, ◌++◌, ◌≡◌, refl, ap, arith,
  Bool-cases, inl, inr,
}
use tokioloop.Deps.{Deps, writable, writes}
use tokioloop.World.{World, TcpTransport, IoHandle, Effect, Returns, ok, set_tcp}
use tokioloop.World.{Returns->>=, Returns-map, store_self}
use tokioloop.Base.{total, join, ◌∙◌}
use tokioloop.EventLoop.Watch.{is_stream_entry, expected, watched}
use tokioloop.EventLoop.Streams.{tcp_stream_add}
use tokioloop.EventLoop.Streams.Sync.{tcp_stream_add-Adds}
use tokioloop.Tcp.Write.{count_added, watch_writable, Answer, done, pause_if, account}
use tokioloop.Tcp.WriteHandle.Bytes.{wire, stream, IsSized}
use tokioloop.Tcp.Write.Output.{stream-set_tcp}

module _ (D : Deps) where
  open D use {get}

  -- The count is right, the bytes are at the end of the stream, and the poll watches for writing if
  -- anything is buffered.
  pub record Accepts (r : ℕ) (bytes : List ℕ) (w : World D) (result : Answer × World D)
      : Type 0 where
    pub answer : result.0 ≡ done
    pub grown : stream D r result.1 ≡ stream D r w ++ bytes
    pub sized : IsSized D (result.1.tcp r)
    pub unlocked : (result.1.tcp r).borrowed ≡ false
    pub watching :
        0 < (result.1.tcp r).write_buf_dsize → writes (watched D (w.tcp r).fd result.1) ≡ true

  -- `w'` has the stream, the buffer and the entries of `w`, and `added` bytes more in its count.
  record Counted (r added : ℕ) (w w' : World D) : Type 0 where
    same_stream : stream D r w' ≡ stream D r w
    size : (w'.tcp r).write_buf_dsize ≡ (w.tcp r).write_buf_dsize + added
    buffer : (w'.tcp r).write_buf ≡ (w.tcp r).write_buf
    same_fd : (w'.tcp r).fd ≡ (w.tcp r).fd
    same_handles : w'.handles_io ≡ w.handles_io

  pause_if-Counted : (above : Bool) (r : ℕ) (w : World D) → Counted r 0 w (pause_if D above r w)
  pause_if-Counted above r w = elim (Bool-cases (above && not (w.tcp r).proto_paused)) [
    | inl pause ↦ rw pause (record {
      same_stream = stream-set_tcp D r (record (w.tcp r) { proto_paused = true }) w;
      size = ground arith;
      buffer = ground arith;
      same_fd = ground arith;
      same_handles = refl;
    })
    | inr go_on ↦ rw go_on (record {
      same_stream = refl;
      size = omega arith;
      buffer = refl;
      same_fd = refl;
      same_handles = refl;
    })
  ]

  count_added-Counted : (r added : ℕ) (w : World D) → Counted r added w (count_added D r added w)
  unfolding count_added
  count_added-Counted r added w =
      let t = w.tcp r in
      let size = t.write_buf_dsize + added in
      let w1 = set_tcp D r (record t { write_buf_dsize = size }) w in
      let k = pause_if-Counted (ltb t.water_hi size) r w1 in
      let here = store_self w.tcp r (record t { write_buf_dsize = size }) in
      record {
        same_stream = k.same_stream ∙ stream-set_tcp D r (record t { write_buf_dsize = size }) w;
        size = omega (arith, k.size, ap (λ (x : TcpTransport D). x.write_buf_dsize) here);
        buffer = k.buffer ∙ ap (λ (x : TcpTransport D). x.write_buf) here;
        same_fd = k.same_fd ∙ ap (λ (x : TcpTransport D). x.fd) here;
        same_handles = k.same_handles;
      }

  pub watched-same :
      {f g : ℕ} {m n : D.Map IoHandle}
      → f ≡ g
      → m ≡ n
      → writes (expected (get f m)) ≡ writes (expected (get g n))
  watched-same p q = ap₂ (λ (f : ℕ) (m : D.Map IoHandle). writes (expected (get f m))) p q

  -- Bytes in the buffer are watched for.
  abbrev pub IsWatching : ℕ → World D → Type 0
  IsWatching r w = 0 < (w.tcp r).write_buf_dsize → writes (watched D (w.tcp r).fd w) ≡ true

  watch_writable-watches :
      (r : ℕ) (w : World D)
      → is_stream_entry (get (w.tcp r).fd w.handles_io) ≡ true
      → IsWatching r w
      → Returns (watch_writable D r w) λ w'.
        (w'.tcp ≡ w.tcp) × (w'.trace ≡ w.trace) × (writes (watched D (w.tcp r).fd w') ≡ true)
  unfolding watch_writable
  watch_writable-watches r w entry on = elim (Bool-cases ((w.tcp r).write_buf_dsize == 0)) [
    | inl empty ↦
        rw (empty, Returns)
          (Returns-map (tcp_stream_add D (w.tcp r).fd writable w) _ _
            (tcp_stream_add-Adds D (w.tcp r).fd writable w entry)
            λ w' k. (k.rest.tcp, k.rest.trace, ground (arith, k.write)))
    | inr more ↦ rw (more, Returns) (refl, refl, on (ground arith))
  ]

  pub account-Accepts :
      (r added : ℕ) (w : World D)
      → is_stream_entry (get (w.tcp r).fd w.handles_io) ≡ true
      → IsWatching r w
      → total (w.tcp r).write_buf ≡ (w.tcp r).write_buf_dsize + added
      → Returns (account D r added w) λ w'.
        (stream D r w' ≡ stream D r w)
        × IsSized D (w'.tcp r)
        × ((w'.tcp r).fd ≡ (w.tcp r).fd)
        × IsWatching r w'
  unfolding account
  account-Accepts r added w entry on z = elim (Bool-cases (ltb 0 added)) [
    | inl some_added ↦
        rw (some_added, Returns)
          (Returns->>= (watch_writable D r w) (λ w1. ok (count_added D r added w1)) _ _
            (watch_writable-watches r w entry on)
            λ w1 (same, tr, watching).
              let k = count_added-Counted r added w1 in
              let here = ap (λ (h : ℕ → TcpTransport D). h r) same in
              (
                k.same_stream
                    ∙ ap₂
                        (λ (x : TcpTransport D) (es : List Effect).
                          wire x.fd es ++ join x.write_buf)
                        here tr,
                omega (
                  arith,
                  k.size,
                  z,
                  ap total k.buffer,
                  ap (λ (x : TcpTransport D). x.write_buf_dsize) here,
                  ap (λ (x : TcpTransport D). total x.write_buf) here,
                ),
                k.same_fd ∙ ap (λ (x : TcpTransport D). x.fd) here,
                λ _.
                    watched-same (k.same_fd ∙ ap (λ (x : TcpTransport D). x.fd) here) k.same_handles
                    ∙ watching,
              ))
    | inr nothing ↦ rw (nothing, Returns) (refl, ground (arith, z), refl, on)
  ]

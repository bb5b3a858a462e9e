-- ===== src/Tcp/Write/Stream.antt =====
-- The stream of bytes that `try_write` of src/tcp.rs accepts, and what the loop watches for it.
use tokioloop.Base.{ap₂, ℕ, Bool, false, true, List, ◌++◌, ◌≡◌, refl, ap, arith}
use tokioloop.Deps.{Deps}
use tokioloop.World.{World, TcpTransport, IoHandle, Returns, ok, ◌>>=◌}
use tokioloop.World.{Returns->>=, store_self}
use tokioloop.Base.{sym, ◌∙◌}
use tokioloop.EventLoop.Watch.{is_stream_entry}
use tokioloop.Tcp.Close.{is_some, is_empty}
use tokioloop.Tcp.Write.{WriteResult, done, lock, add_output, account, buffered_write, try_write}
use tokioloop.Tcp.WriteHandle.Bytes.{stream, IsSized}
use tokioloop.Tcp.Write.Output.{Takes, Output, stream-set_tcp, add_output-Output}
use tokioloop.Tcp.Write.Account.{Accepts, account-Accepts, IsWatching, watched-same}

module _ (D : Deps) where
  open D use {get}

  lock-stream : (r : ℕ) (b : Bool) (w : World D) → stream D r (lock D r b w) ≡ stream D r w
  lock-stream r b w = stream-set_tcp D r (record (w.tcp r) { borrowed = b }) w

  finish-Accepts :
      (r added : ℕ) (bytes : List ℕ) (w w1 w2 : World D)
      → Output D r bytes (lock D r true w) (added, w1)
      → stream D r w2 ≡ stream D r w1
      → IsSized D (w2.tcp r)
      → (w2.tcp r).fd ≡ (w1.tcp r).fd
      → IsWatching D r w2
      → Accepts D r bytes w (done, lock D r false w2)
  finish-Accepts r added bytes w w1 w2 k e z f on =
      let fd_same : (w2.tcp r).fd ≡ (w.tcp r).fd =
        f
        ∙ k.same_fd
        ∙ ap (λ (x : TcpTransport D). x.fd)
            (store_self w.tcp r (record (w.tcp r) { borrowed = true })) in
      record {
        answer = refl;
        grown =
            lock-stream r false w2
            ∙ e
            ∙ k.grown
            ∙ ap (λ (x : List ℕ). x ++ bytes) (lock-stream r true w);
        sized = ground (arith, z);
        unlocked = ground arith;
        watching =
            λ h. watched-same D {m = w2.handles_io} (sym fd_same) refl ∙ on (ground (arith, h));
      }

  IsWatching-same :
      (r : ℕ) (w v : World D)
      → (v.tcp r).fd ≡ (w.tcp r).fd
      → (v.tcp r).write_buf_dsize ≡ (w.tcp r).write_buf_dsize
      → v.handles_io ≡ w.handles_io
      → IsWatching D r w
      → IsWatching D r v
  IsWatching-same r w v f d h on lt = watched-same D f h ∙ on (omega (arith, d, lt))

  buffered_write-Accepts :
      (r now : ℕ) (bytes : List ℕ) (answer : WriteResult) (w : World D)
      → is_some (w.tcp r).tls_conn ≡ false
      → is_stream_entry (get (w.tcp r).fd w.handles_io) ≡ true
      → IsSized D (w.tcp r)
      → IsWatching D r w
      → Takes bytes answer
      → Returns (buffered_write D r now bytes answer w) (Accepts D r bytes w)
  unfolding buffered_write
  buffered_write-Accepts r now bytes answer w plain entry z on fits =
      let w0 = lock D r true w in
      let t0 = record (w.tcp r) { borrowed = true } in
      let here = store_self w.tcp r t0 in
      let fd0 : (w0.tcp r).fd ≡ (w.tcp r).fd = ap (λ (x : TcpTransport D). x.fd) here in
      let size0 : (w0.tcp r).write_buf_dsize ≡ (w.tcp r).write_buf_dsize =
        ap (λ (x : TcpTransport D). x.write_buf_dsize) here in
      Returns->>= (add_output D r now bytes answer w0)
        (λ (added, w1). account D r added w1 >>= λ w2. ok (done, lock D r false w2))
        (Output D r bytes w0) (Accepts D r bytes w)
        (add_output-Output D r now bytes answer w0
          (ap (λ (x : TcpTransport D). is_some x.tls_conn) here ∙ plain) (ground (arith, z)) fits)
        λ (added, w1) k.
          Returns->>= (account D r added w1) (λ w2. ok (done, lock D r false w2)) _
            (Accepts D r bytes w)
            (account-Accepts D r added w1
              (ap₂ (λ (f : ℕ) (m : D.Map IoHandle). is_stream_entry (get f m)) (k.same_fd ∙ fd0)
                  k.same_handles
                ∙ entry)
              (IsWatching-same r w w1 (k.same_fd ∙ fd0) (k.same_size ∙ size0) k.same_handles on)
              k.sized)
            λ w2 (e, z2, f, on2). finish-Accepts r added bytes w w1 w2 k e z2 f on2

  -- Without TLS, before `write_eof`, while the state is not borrowed, `try_write` of some bytes returns
  -- `Ok`, if the socket answers with no error, the descriptor is free or a stream's, the count of buffered
  -- bytes is right, and the poll watches for writing if anything is buffered. The bytes are then at the
  -- end of the stream (what is on the wire, then what is buffered), the state is not borrowed, the count
  -- of buffered bytes is right, and the poll watches for writing if anything is buffered.
  pub try_write-Accepts :
      (r now : ℕ) (bytes : List ℕ) (answer : WriteResult) (w : World D)
      → (w.tcp r).weof ≡ false
      → is_empty bytes ≡ false
      → (w.tcp r).borrowed ≡ false
      → is_some (w.tcp r).tls_conn ≡ false
      → is_stream_entry (get (w.tcp r).fd w.handles_io) ≡ true
      → IsSized D (w.tcp r)
      → IsWatching D r w
      → Takes bytes answer
      → Returns (try_write D r now bytes answer w) (Accepts D r bytes w)
  unfolding try_write
  try_write-Accepts r now bytes answer w open_end some_bytes free plain entry z on fits =
      simp (open_end, some_bytes, free)
        (buffered_write-Accepts r now bytes answer w plain entry z on fits)

-- ===== src/Tcp/Reading.antt =====
-- Pausing and resuming the reading of a TCP transport, of src/tcp.rs, and what the poll watches then.
use tokioloop.Base.{ℕ, ◌==◌, Bool, true, false, ◌||◌, not, Option, ◌≡◌, refl, sym, ap, ◌∙◌, arith}
use tokioloop.Deps.{Deps, Interest, readable, reads, writes}
use tokioloop.World.{World, TcpTransport, Returns, Returns-map, set_tcp, store_self}
use tokioloop.EventLoop.Watch.{is_stream_entry, IsSynced, watched, Adds, Takes}
use tokioloop.EventLoop.Streams.{tcp_stream_add, tcp_stream_rem}
use tokioloop.EventLoop.Streams.Sync.{tcp_stream_add-Adds, tcp_stream_rem-Takes}
use tokioloop.Tcp.Write.{pause_reading, resume_reading}
use tokioloop.Tcp.Accessors.{is_reading}

module _ (D : Deps) where
  open D use {get}

  -- From `w` to `w'` only what the poll watches at the transport's descriptor may differ among the
  -- loop's entries; its writes are watched as before, its reads as `is_reading` says.
  pub record Switched (r : ℕ) (reading : Bool) (w w' : World D) : Type 0 where
    pub answer : is_reading D (w'.tcp r) ≡ reading
    pub transport : w'.tcp r ≡ record (w.tcp r) { paused = not reading }
    pub read : reads (watched D (w.tcp r).fd w') ≡ reading
    pub write : writes (watched D (w.tcp r).fd w') ≡ writes (watched D (w.tcp r).fd w)
    pub others : (j : ℕ) → ((w.tcp r).fd == j) ≡ false → get j w'.handles_io ≡ get j w.handles_io
    pub synced : IsSynced D w → IsSynced D w'

  pause_reading-Switched :
      (r : ℕ) (w : World D)
      → (w.tcp r).closing ≡ false
      → (w.tcp r).paused ≡ false
      → is_stream_entry (get (w.tcp r).fd w.handles_io) ≡ true
      → Returns
          (pause_reading D r w)
          (λ w1. Switched r false w w1 × (is_stream_entry (get (w.tcp r).fd w1.handles_io) ≡ true))
  unfolding pause_reading is_reading
  pause_reading-Switched r w active on s =
      let t = record (w.tcp r) { paused = true } in
      let w1 = set_tcp D r t w in
      let goes : (w.tcp r).closing || (w.tcp r).paused ≡ false = rw (active, on) refl in
      rw goes (
        Returns-map (tcp_stream_rem D t.fd readable w1) (Takes D t.fd readable w1)
          (λ w2. Switched r false w w2 × (is_stream_entry (get t.fd w2.handles_io) ≡ true))
          (tcp_stream_rem-Takes D t.fd readable w1 s (λ e. cc))
          (λ w2 k.
            let kept : w2.tcp r ≡ t =
              ap (λ (f : ℕ → TcpTransport D). f r) k.rest.tcp ∙ store_self w.tcp r t in
            (
              record {
                answer = ap (is_reading D) kept ∙ rw active refl;
                transport = kept;
                read = ground (arith, k.read);
                write = ground (arith, k.write);
                others = k.others;
                synced = k.synced;
              },
              k.streams s,
            )))

  resume_reading-Switched :
      (r : ℕ) (w : World D)
      → (w.tcp r).closing ≡ false
      → (w.tcp r).paused ≡ true
      → is_stream_entry (get (w.tcp r).fd w.handles_io) ≡ true
      → Returns (resume_reading D r w) (Switched r true w)
  unfolding resume_reading is_reading
  resume_reading-Switched r w active off s =
      let t = record (w.tcp r) { paused = false } in
      let w1 = set_tcp D r t w in
      let goes : (w.tcp r).closing || not (w.tcp r).paused ≡ false = rw (active, off) refl in
      rw goes (
        Returns-map (tcp_stream_add D t.fd readable w1) (Adds D t.fd readable w1)
          (Switched r true w) (tcp_stream_add-Adds D t.fd readable w1 s)
          (λ w2 k.
            let kept : w2.tcp r ≡ t =
              ap (λ (f : ℕ → TcpTransport D). f r) k.rest.tcp ∙ store_self w.tcp r t in
            record {
              answer = ap (is_reading D) kept ∙ rw active refl;
              transport = kept;
              read = ground (arith, k.read);
              write = ground (arith, k.write);
              others = k.others;
              synced = k.synced;
            }))

  -- Two switches in a row are the second.
  Switched-trans :
      (r : ℕ) (a b : Bool) (w v u : World D)
      → Switched r a w v
      → Switched r b v u
      → Switched r b w u
  Switched-trans r a b w v u k q =
      let same_fd : (v.tcp r).fd ≡ (w.tcp r).fd = ap (λ (x : TcpTransport D). x.fd) k.transport in
      let seen =
        λ (f : Option Interest → Bool) (z : World D). ap (λ (fd : ℕ). f (watched D fd z)) same_fd in
      record {
        answer = q.answer;
        transport =
            q.transport ∙ ap (λ (x : TcpTransport D). record x { paused = not b }) k.transport;
        read = sym (seen reads u) ∙ q.read;
        write = sym (seen writes u) ∙ q.write ∙ seen writes v ∙ k.write;
        others = λ j n. q.others j (ap (λ (fd : ℕ). fd == j) same_fd ∙ n) ∙ k.others j n;
        synced = λ h. q.synced (k.synced h);
      }

  -- A transport that is neither closing nor paused and whose descriptor has no entry or a stream's can
  -- be paused: `is_reading` and the poll's reads stop, the writes that the poll watches, every other
  -- entry, the rest of the transport and the agreement of the table with the poll's registry stay.
  -- `resume_reading` then returns: the transport is as it was, `is_reading` and the poll's reads are
  -- on, and again nothing else of these has changed.
  pub resume-pause :
      (r : ℕ) (w : World D)
      → (w.tcp r).closing ≡ false
      → (w.tcp r).paused ≡ false
      → is_stream_entry (get (w.tcp r).fd w.handles_io) ≡ true
      → Returns
          (pause_reading D r w)
          (λ w1. Switched r false w w1 × Returns (resume_reading D r w1) (Switched r true w))
  resume-pause r w active on s =
      Returns-map (pause_reading D r w)
        (λ w1. Switched r false w w1 × (is_stream_entry (get (w.tcp r).fd w1.handles_io) ≡ true))
        (λ w1. Switched r false w w1 × Returns (resume_reading D r w1) (Switched r true w))
        (pause_reading-Switched r w active on s)
        (λ w1 (k, s1).
          let same = k.transport in
          let same_fd : (w1.tcp r).fd ≡ (w.tcp r).fd = ap (λ (x : TcpTransport D). x.fd) same in
          (
            k,
            Returns-map (resume_reading D r w1) (Switched r true w1) (Switched r true w)
                (resume_reading-Switched r w1 (ap (λ (x : TcpTransport D). x.closing) same ∙ active)
                  (ap (λ (x : TcpTransport D). x.paused) same)
                  (ap (λ (f : ℕ). is_stream_entry (get f w1.handles_io)) same_fd ∙ s1))
                (λ w2 q. Switched-trans r false true w w1 w2 k q),
          ))

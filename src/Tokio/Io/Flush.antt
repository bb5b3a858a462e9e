-- ===== src/Tokio/Io/Flush.antt =====
-- What `io_processing_loop` of src/tokio_tcp.rs writes when nothing comes in between.
use tokioloop.Base.{
  ℕ, zero, suc, Bool, true, false, ◌&&◌, ◌||◌, if◌then◌else◌, Option, none, some, List, [], ◌∷◌,
  ◌++◌, append-nil, append_assoc, length, join, ◌≡◌, refl, sym, ap, ◌∙◌, arith,
}
use tokioloop.Tokio.Io.{
  all_written, Selected, writes_out, Io, Turned, goes_on, breaks, Protocol, is_nil, wants_write,
  pop, finish_write, select, should_exit, check_exit, round, IoEnd, running, ended, impossible,
  run_io,
}

pub if_false {ℓ} : {A : Type ℓ} (b : Bool) (x y : A) → b ≡ false → (if b then x else y) ≡ y
if_false b x y h = rw h

pub if_true {ℓ} : {A : Type ℓ} (b : Bool) (x y : A) → b ≡ true → (if b then x else y) ≡ x
if_true b x y h = rw h

abbrev pub checked : Option Turned → Option Turned
checked none = none
checked (some o) = some (check_exit o)

-- A round on a transport that is open and not paused is one of the `select!`.
pub round_open :
    (protocol : Protocol) (s : Selected) (io : Io)
    → io.transport.state_closing ≡ false
    → io.transport.state_paused ≡ false
    → round protocol s io ≡ checked (select protocol s io)
unfolding round
round_open protocol s io open_ on = ground arith

-- So many rounds in which the branch that writes completes.
abbrev pub write_rounds : ℕ → List Selected
write_rounds zero = []
write_rounds (suc n) = writes_out all_written ∷ write_rounds n

-- The loop goes on, in a state with the property.
abbrev pub Runs : IoEnd → (Io → Type 0) → Type 0
Runs (running io) P = P io
Runs (ended io) P = ⊥
Runs impossible P = ⊥

-- The chunks `sent_chunks` have gone to the socket, in order, and `rest` is buffered; the writer was shut
-- down, and is known to be, exactly if nothing is left and `write_eof` had been called.
pub record Flushed (sent_chunks rest : List (List ℕ)) (io io' : Io) : Type 0 where
  pub sent : io'.sent ≡ io.sent ++ join sent_chunks
  pub buffer : io'.transport.write_buf ≡ rest
  pub shut : io'.transport.write_shutdown_done ≡ (is_nil rest && io.transport.state_weof)
  pub told : io'.shutdown ≡ (io.shutdown || is_nil rest && io.transport.state_weof)
  pub silent : io'.calls ≡ io.calls

-- A loop that writes: the transport is open, is not paused, has not seen the end of its input and has not
-- shut its writer down.
pub record IsOpen (io : Io) : Type 0 where
  pub open_ : io.transport.state_closing ≡ false
  pub reading : io.transport.state_paused ≡ false
  pub no_eof : io.transport.read_eof ≡ false
  pub not_shut : io.transport.write_shutdown_done ≡ false

-- What a write of the first chunk leaves.
record Wrote (chunk : List ℕ) (rest : List (List ℕ)) (io io' : Io) : Type 0 where
  sent : io'.sent ≡ io.sent ++ chunk
  buffer : io'.transport.write_buf ≡ rest
  no_eof : io'.transport.read_eof ≡ io.transport.read_eof
  open_ : io'.transport.state_closing ≡ io.transport.state_closing
  reading : io'.transport.state_paused ≡ io.transport.state_paused
  same_weof : io'.transport.state_weof ≡ io.transport.state_weof
  shut : io'.transport.write_shutdown_done ≡ (is_nil rest && io.transport.state_weof)
  told : io'.shutdown ≡ (io.shutdown || is_nil rest && io.transport.state_weof)
  silent : io'.calls ≡ io.calls

finish_write-Wrote :
    (chunk : List ℕ) (rest : List (List ℕ)) (io : Io)
    → io.transport.write_buf ≡ chunk ∷ rest
    → io.transport.write_shutdown_done ≡ false
    → Wrote chunk rest io (finish_write all_written io)
unfolding finish_write pop
finish_write-Wrote chunk [] io e d = ground (arith, e, d)
finish_write-Wrote chunk (c ∷ cs) io e d = ground (arith, e, d)

-- A round of an open loop in which the first chunk is written goes on.
write_round :
    (protocol : Protocol) (chunk : List ℕ) (rest : List (List ℕ)) (io : Io)
    → IsOpen io
    → io.transport.write_buf ≡ chunk ∷ rest
    → round protocol (writes_out all_written) io ≡ some (goes_on (finish_write all_written io))
unfolding select
write_round protocol chunk rest io o e =
    let w = finish_write-Wrote chunk rest io e o.not_shut in
    let stays : should_exit (finish_write all_written io).transport ≡ false =
      rw (w.no_eof, o.no_eof) refl in
    let wants : wants_write io.transport ≡ true = rw e refl in
    round_open protocol (writes_out all_written) io o.open_ o.reading
    ∙ ap checked (
        if_true (wants_write io.transport) (some (goes_on (finish_write all_written io))) none
          wants)
    ∙ ap some (
        if_false (should_exit (finish_write all_written io).transport)
          (breaks (finish_write all_written io)) (goes_on (finish_write all_written io)) stays)

IsOpen-Wrote :
    (chunk c : List ℕ) (cs : List (List ℕ)) (io io' : Io)
    → IsOpen io
    → Wrote chunk (c ∷ cs) io io'
    → IsOpen io'
IsOpen-Wrote chunk c cs io io' o w = record {
  open_ = w.open_ ∙ o.open_;
  reading = w.reading ∙ o.reading;
  no_eof = w.no_eof ∙ o.no_eof;
  not_shut = w.shut;
}

pub Runs-map : (P Q : Io → Type 0) (r : IoEnd) → ((io : Io) → P io → Q io) → Runs r P → Runs r Q
Runs-map P Q (running io) f h = f io h
Runs-map P Q (ended io) f h = absurd h
Runs-map P Q impossible f h = absurd h

pub run_io-goes_on :
    (protocol : Protocol) (s : Selected) (ss : List Selected) (io io1 : Io)
    → round protocol s io ≡ some (goes_on io1)
    → run_io protocol (s ∷ ss) io ≡ run_io protocol ss io1
unfolding run_io
run_io-goes_on protocol s ss io io1 h = rw (h, run_io)

-- A loop that is open (not closing, not paused, without the end of its input, its writer not shut down)
-- sends a chunk in each round in which the branch that writes completes: after as many rounds as `chunk`
-- and `more` are, these are the bytes that the socket got, in order, and the chunks behind them are
-- buffered; the loop goes on, and the protocol has been told nothing. Its writer is shut down then exactly if `write_eof` had been called and no
-- chunk is behind them: in the round that empties the buffer, and not before.
pub run_io-Flushed :
    (protocol : Protocol) (chunk : List ℕ) (more rest : List (List ℕ)) (io : Io)
    → IsOpen io
    → io.transport.write_buf ≡ chunk ∷ more ++ rest
    → Runs
        (run_io protocol (write_rounds (length (chunk ∷ more))) io)
        (Flushed (chunk ∷ more) rest io)
unfolding run_io
run_io-Flushed protocol chunk [] rest io o e =
    let w = finish_write-Wrote chunk rest io e o.not_shut in
    rw
      (
        run_io-goes_on protocol (writes_out all_written) [] io (finish_write all_written io)
            (write_round protocol chunk rest io o e),
        run_io,
      )
      (record {
        sent = w.sent ∙ ap (λ (x : List ℕ). io.sent ++ x) (sym (append-nil chunk));
        buffer = w.buffer;
        shut = w.shut;
        told = w.told;
        silent = w.silent;
      })
run_io-Flushed protocol chunk (c ∷ cs) rest io o e =
    let io1 = finish_write all_written io in
    let w = finish_write-Wrote chunk (c ∷ cs ++ rest) io e o.not_shut in
    rw
      (run_io-goes_on protocol (writes_out all_written) (write_rounds (length (c ∷ cs))) io io1
        (write_round protocol chunk (c ∷ cs ++ rest) io o e))
      (Runs-map (Flushed (c ∷ cs) rest io1) (Flushed (chunk ∷ c ∷ cs) rest io)
        (run_io protocol (write_rounds (length (c ∷ cs))) io1)
        (λ u f. record {
          sent =
              f.sent
              ∙ ap (λ (x : List ℕ). x ++ join (c ∷ cs)) w.sent
              ∙ append_assoc io.sent chunk (join (c ∷ cs));
          buffer = f.buffer;
          shut = f.shut ∙ ap (λ (x : Bool). is_nil rest && x) w.same_weof;
          told = ground (arith, f.told, w.told, w.same_weof);
          silent = f.silent ∙ w.silent;
        })
        (run_io-Flushed protocol c cs rest io1 (IsOpen-Wrote chunk c (cs ++ rest) io io1 o w)
          w.buffer))

-- ===== src/Tokio/Io/Hole.antt =====
-- What `io_processing_loop` of src/tokio_tcp.rs loses when something comes in between its writes.
use tokioloop.Base.{
  ℕ, false, ◌||◌, some, List, [], ◌∷◌, ◌++◌, append-nil, append_assoc, length, take, join, ◌≡◌,
  refl, sym, ap, ◌∙◌, arith,
}
use tokioloop.Tokio.Io.{
  in_write, sleeps, Io, goes_on, breaks, Protocol, pop, drop_write, run_write, select, should_exit,
  round, run_io,
}
use tokioloop.Tokio.Io.Flush.{
  round_open, if_false, write_rounds, Runs, Runs-map, IsOpen, Flushed, run_io-goes_on,
  run_io-Flushed,
}

-- What a sleep that ends amid the write of the first chunk leaves.
record Cuts (n : ℕ) (chunk : List ℕ) (rest : List (List ℕ)) (io io' : Io) : Type 0 where
  pub sent : io'.sent ≡ io.sent ++ take n chunk
  pub buffer : io'.transport.write_buf ≡ rest
  pub open_ : io'.transport.state_closing ≡ io.transport.state_closing
  pub reading : io'.transport.state_paused ≡ io.transport.state_paused
  pub no_eof : io'.transport.read_eof ≡ io.transport.read_eof
  pub not_shut : io'.transport.write_shutdown_done ≡ io.transport.write_shutdown_done
  pub same_weof : io'.transport.state_weof ≡ io.transport.state_weof
  pub same_shutdown : io'.shutdown ≡ io.shutdown
  pub silent : io'.calls ≡ io.calls

run_write-Cuts :
    (n : ℕ) (chunk : List ℕ) (rest : List (List ℕ)) (io : Io)
    → io.transport.write_buf ≡ chunk ∷ rest
    → Cuts n chunk rest io (run_write (in_write n) io)
unfolding run_write drop_write pop
run_write-Cuts n chunk rest io e = rw e (record {
  sent = refl;
  buffer = refl;
  open_ = refl;
  reading = refl;
  no_eof = refl;
  not_shut = refl;
  same_weof = refl;
  same_shutdown = refl;
  silent = refl;
})

sleep_round :
    (protocol : Protocol) (n : ℕ) (chunk : List ℕ) (rest : List (List ℕ)) (io : Io)
    → IsOpen io
    → io.transport.write_buf ≡ chunk ∷ rest
    → round protocol (sleeps (in_write n)) io ≡ some (goes_on (run_write (in_write n) io))
unfolding select
sleep_round protocol n chunk rest io o e =
    let io1 = run_write (in_write n) io in
    let c = run_write-Cuts n chunk rest io e in
    let stays : should_exit io1.transport ≡ false = rw (c.no_eof, o.no_eof) refl in
    round_open protocol (sleeps (in_write n)) io o.open_ o.reading
    ∙ ap some (if_false (should_exit io1.transport) (breaks io1) (goes_on io1) stays)

-- The peer's stream has a hole, and ends as if it were whole.
pub record Holed (n : ℕ) (chunk : List ℕ) (rest : List (List ℕ)) (io io' : Io) : Type 0 where
  pub sent : io'.sent ≡ io.sent ++ (take n chunk ++ join rest)
  pub empty : io'.transport.write_buf ≡ []
  pub ends : io'.shutdown ≡ (io.shutdown || io.transport.state_weof)
  pub silent : io'.calls ≡ io.calls

-- When the sleep of a millisecond completes while `write_all` has written `n` bytes of the first of two or
-- more chunks, on a loop that is open (not closing, not paused, without the end of its input, its writer not
-- shut down), and then nothing comes between the writes, the loop goes on and
-- its buffer is empty after as many rounds as there are further chunks. The socket has got the first
-- `n` bytes of the first chunk and straight after them the other chunks: the rest of the first chunk is
-- left out. If `write_eof` had been called, the writer is shut down all the same; and the protocol has
-- been told nothing.
pub sleeps-Holed :
    (protocol : Protocol) (n : ℕ) (chunk next : List ℕ) (more : List (List ℕ)) (io : Io)
    → IsOpen io
    → io.transport.write_buf ≡ chunk ∷ next ∷ more
    → Runs
        (run_io protocol (sleeps (in_write n) ∷ write_rounds (length (next ∷ more))) io)
        (Holed n chunk (next ∷ more) io)
sleeps-Holed protocol n chunk next more io o e =
    let io1 = run_write (in_write n) io in
    let c = run_write-Cuts n chunk (next ∷ more) io e in
    let o1 : IsOpen io1 = record {
      open_ = c.open_ ∙ o.open_;
      reading = c.reading ∙ o.reading;
      no_eof = c.no_eof ∙ o.no_eof;
      not_shut = c.not_shut ∙ o.not_shut;
    } in
    rw
      (run_io-goes_on protocol (sleeps (in_write n)) (write_rounds (length (next ∷ more))) io io1
        (sleep_round protocol n chunk (next ∷ more) io o e))
      (Runs-map (Flushed (next ∷ more) [] io1) (Holed n chunk (next ∷ more) io)
        (run_io protocol (write_rounds (length (next ∷ more))) io1)
        (λ u f. record {
          sent =
              f.sent
              ∙ ap (λ (x : List ℕ). x ++ join (next ∷ more)) c.sent
              ∙ append_assoc io.sent (take n chunk) (join (next ∷ more));
          empty = f.buffer;
          ends = ground (arith, f.told, c.same_weof, c.same_shutdown);
          silent = f.silent ∙ c.silent;
        })
        (run_io-Flushed protocol next more [] io1 o1
          (c.buffer ∙ ap (λ (x : List (List ℕ)). next ∷ x) (sym (append-nil more)))))

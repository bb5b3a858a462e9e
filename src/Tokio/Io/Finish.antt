-- ===== src/Tokio/Io/Finish.antt =====
-- How `io_processing_loop` of src/tokio_tcp.rs ends once it has seen the end of its input.
use tokioloop.Base.{
  ℕ, true, false, none, some, List, [], ◌∷◌, ◌++◌, append-nil, append_assoc, length, join, ◌≡◌,
  refl, sym, ap, ◌∙◌, arith,
}
use tokioloop.Tokio.Io.{
  ProtocolCall, connection_lost, all_written, writes_out, Io, goes_on, breaks, Protocol, call,
  wants_write, pop, finish_write, select, should_exit, check_exit, round, IoEnd, running, ended,
  impossible, run_io,
}
use tokioloop.Tokio.Io.Flush.{round_open, if_true, if_false, checked, write_rounds}

-- A transport that is open and not paused, whose input has ended.
pub record IsEnding (io : Io) : Type 0 where
  pub open_ : io.transport.state_closing ≡ false
  pub on : io.transport.state_paused ≡ false
  pub eof : io.transport.read_eof ≡ true

-- What a write of the first chunk leaves.
record Drained (chunk : List ℕ) (rest : List (List ℕ)) (io io' : Io) : Type 0 where
  ending : IsEnding io'
  buffer : io'.transport.write_buf ≡ rest
  sent : io'.sent ≡ io.sent ++ chunk
  calls : io'.calls ≡ io.calls

-- The loop has ended, in a state with the property.
abbrev pub Ended : IoEnd → (Io → Type 0) → Type 0
Ended (running io) P = ⊥
Ended (ended io) P = P io
Ended impossible P = ⊥

-- The bytes of the buffer have gone to the socket, in order, and then the protocol was told of the loss.
pub record Finished (buf : List (List ℕ)) (io io' : Io) : Type 0 where
  pub sent : io'.sent ≡ io.sent ++ join buf
  pub calls : io'.calls ≡ io.calls ++ (connection_lost ∷ [])

finish_write-Drained :
    (chunk : List ℕ) (rest : List (List ℕ)) (io : Io)
    → IsEnding io
    → io.transport.write_buf ≡ chunk ∷ rest
    → Drained chunk rest io (finish_write all_written io)
unfolding finish_write pop
finish_write-Drained chunk rest io o e = ground (arith, e, o.open_, o.on, o.eof)

write_round :
    (protocol : Protocol) (chunk : List ℕ) (rest : List (List ℕ)) (io : Io)
    → IsEnding io
    → io.transport.write_buf ≡ chunk ∷ rest
    → round protocol (writes_out all_written) io
      ≡ some (check_exit (goes_on (finish_write all_written io)))
unfolding select
write_round protocol chunk rest io o e =
    let wants : wants_write io.transport ≡ true = rw e refl in
    round_open protocol (writes_out all_written) io o.open_ o.on
    ∙ ap checked (
        if_true (wants_write io.transport) (some (goes_on (finish_write all_written io))) none
          wants)

check_exit-empty :
    (io : Io) → IsEnding io → io.transport.write_buf ≡ [] → check_exit (goes_on io) ≡ breaks io
check_exit-empty io o e =
    if_true (should_exit io.transport) (breaks io) (goes_on io) (rw (e, o.eof) refl)

check_exit-more :
    (io : Io) (c : List ℕ) (cs : List (List ℕ))
    → io.transport.write_buf ≡ c ∷ cs
    → check_exit (goes_on io) ≡ goes_on io
check_exit-more io c cs e =
    if_false (should_exit io.transport) (breaks io) (goes_on io) (ground (arith, e))

Ended-map : (P Q : Io → Type 0) (r : IoEnd) → ((io : Io) → P io → Q io) → Ended r P → Ended r Q
Ended-map P Q (running io) f h = absurd h
Ended-map P Q (ended io) f h = f io h
Ended-map P Q impossible f h = absurd h

-- On a transport that is open and not paused, once the end of the input was seen: in as many rounds as
-- chunks are buffered, in each of which the write completes, the loop ends. All the
-- buffered bytes have gone to the socket, in order, and the protocol was called once more, to be told
-- that the connection is lost.
pub run_io-Finishes :
    (protocol : Protocol) (chunk : List ℕ) (rest : List (List ℕ)) (io : Io)
    → IsEnding io
    → io.transport.write_buf ≡ chunk ∷ rest
    → Ended (run_io protocol (write_rounds (length (chunk ∷ rest))) io) (Finished (chunk ∷ rest) io)
unfolding run_io call
run_io-Finishes protocol chunk [] io o e =
    let io1 = finish_write all_written io in
    let d = finish_write-Drained chunk [] io o e in
    let h =
      write_round protocol chunk [] io o e ∙ ap some (check_exit-empty io1 d.ending d.buffer) in
    rw (h, run_io)
      (record {
        sent = d.sent ∙ ap (λ (x : List ℕ). io.sent ++ x) (sym (append-nil chunk));
        calls = ap (λ (x : List ProtocolCall). x ++ (connection_lost ∷ [])) d.calls;
      })
run_io-Finishes protocol chunk (c ∷ cs) io o e =
    let io1 = finish_write all_written io in
    let d = finish_write-Drained chunk (c ∷ cs) io o e in
    let h =
      write_round protocol chunk (c ∷ cs) io o e ∙ ap some (check_exit-more io1 c cs d.buffer) in
    rw (h, run_io)
      (Ended-map (Finished (c ∷ cs) io1) (Finished (chunk ∷ c ∷ cs) io)
        (run_io protocol (write_rounds (length (c ∷ cs))) io1)
        (λ u f. record {
          sent =
              f.sent
              ∙ ap (λ (x : List ℕ). x ++ join (c ∷ cs)) d.sent
              ∙ append_assoc io.sent chunk (join (c ∷ cs));
          calls = f.calls ∙ ap (λ (x : List ProtocolCall). x ++ (connection_lost ∷ [])) d.calls;
        })
        (run_io-Finishes protocol c cs io1 d.ending d.buffer))

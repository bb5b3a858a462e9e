-- ===== src/Tokio/Io/Bytes.antt =====
-- The bytes that `io_processing_loop` of src/tokio_tcp.rs writes.
use tokioloop.Base.{
  ℕ, Bool, true, false, ◌||◌, if◌then◌else◌, Option, none, some, List, [], ◌∷◌, ◌++◌, append-nil,
  append_assoc, ◌≡◌, refl, sym, ap, ◌∙◌, Bool-cases, inl, inr,
}
use tokioloop.Tokio.Transport.{TransportOp}
use tokioloop.Tokio.Io.Drop.{
  stream, whole_run, whole, pop-stream, shutdown-stream, run_write-stream, run_write-SameEnds,
}
use tokioloop.Tokio.Io.Written.{AllKeep, buffered, written, apply_all-written}
use tokioloop.Tokio.Io.{
  ProtocolCall, data_received, eof_received, ReadAnswer, read_bytes, read_would_block, read_error,
  all_written, write_error, WriteRun, Selected, reads, writes_out, sleeps, Io, Turned, goes_on,
  breaks, Protocol, call, wants_write, finish_write, run_write, take_read, select, should_exit,
  check_exit, round,
}

-- What holds of the state after a round; a branch that cannot complete has none.
abbrev pub After : Option Turned → (Io → Type 0) → Type 0
After none P = Unit {0}
After (some (goes_on io)) P = P io
After (some (breaks io)) P = P io

After-none_if :
    (P : Io → Type 0) (b : Bool) (o : Option Turned) → After o P → After (if b then none else o) P
After-none_if P true o h = tt
After-none_if P false o h = h

After-if_some :
    (P : Io → Type 0) (b : Bool) (o : Option Turned) → After o P → After (if b then o else none) P
After-if_some P true o h = h
After-if_some P false o h = tt

check_exit-After : (P : Io → Type 0) (o : Turned) → After (some o) P → After (some (check_exit o)) P
check_exit-After P (breaks io) h = h
check_exit-After P (goes_on io) h = elim (Bool-cases (should_exit io.transport)) [
  | inl over ↦ rw over h
  | inr on ↦ rw on h
]

checked-After :
    (P : Io → Type 0) (o : Option Turned)
    → After o P
    → After
        (elim o as (λ (x : Option Turned). Option Turned) [
          | none ↦ none
          | some t ↦ some (check_exit t)
        ])
        P
checked-After P none h = tt
checked-After P (some o) h = check_exit-After P o h

-- What the protocol does in a round: it is called for the bytes that are read, or for their end.
abbrev operations : Protocol → Selected → Io → List TransportOp
operations protocol (reads w (read_bytes [])) io =
    let io1 = run_write w io in
    protocol eof_received (record io1 { transport = record io1.transport { read_eof = true } })
operations protocol (reads w (read_bytes (b ∷ bs))) io =
    protocol (data_received (b ∷ bs)) (run_write w io)
operations protocol _ io = []

-- The bytes that it writes then. On a transport that is closing or paused nothing is read.
abbrev pub new_bytes : Protocol → Selected → Io → List ℕ
new_bytes protocol s io =
    if io.transport.state_closing || io.transport.state_paused
    then []
    else written io.transport.closing io.transport.weof (operations protocol s io)

module _ (protocol : Protocol) (kind : (c : ProtocolCall) (io : Io) → AllKeep (protocol c io)) where
  call-stream :
      (c : ProtocolCall) (io : Io)
      → stream (call protocol c io)
        ≡ stream io ++ written io.transport.closing io.transport.weof (protocol c io)
  unfolding call
  call-stream c io =
      let new = written io.transport.closing io.transport.weof (protocol c io) in
      ap (λ (x : List ℕ). io.sent ++ x) (apply_all-written (protocol c io) io.transport (kind c io))
      ∙ sym (append_assoc io.sent (buffered io.transport) new)

  -- What a branch that completes must have done to the stream.
  abbrev Written : Selected → Io → Io → Type 0
  Written s io u =
      stream u
      ≡ stream io ++ written io.transport.closing io.transport.weof (operations protocol s io)

  nothing_new : (io u : Io) → stream u ≡ stream io → stream u ≡ stream io ++ []
  nothing_new io u e = e ∙ sym (append-nil (stream io))

  call-Written :
      (w : WriteRun) (c : ProtocolCall) (io u : Io)
      → whole_run w ≡ true
      → stream u ≡ stream (run_write w io)
      → u.transport.closing ≡ (run_write w io).transport.closing
      → u.transport.weof ≡ (run_write w io).transport.weof
      → stream (call protocol c u)
        ≡ stream io ++ written io.transport.closing io.transport.weof (protocol c u)
  call-Written w c io u h e same_closing same_weof =
      let s = run_write-SameEnds w io in
      call-stream c u
      ∙ ap (λ (x : List ℕ). x ++ written u.transport.closing u.transport.weof (protocol c u))
          (e ∙ run_write-stream w io h)
      ∙ ap (λ (x : Bool). stream io ++ written x u.transport.weof (protocol c u))
          (same_closing ∙ s.same_closing)
      ∙ ap (λ (x : Bool). stream io ++ written io.transport.closing x (protocol c u))
          (same_weof ∙ s.same_weof)

  take_read-Written :
      (w : WriteRun) (answer : ReadAnswer) (io : Io)
      → whole_run w ≡ true
      → After (some (take_read protocol answer (run_write w io))) (Written (reads w answer) io)
  unfolding take_read
  take_read-Written w (read_bytes []) io h =
      let io1 = run_write w io in
      call-Written w eof_received io
        (record io1 { transport = record io1.transport { read_eof = true } }) h refl refl refl
  take_read-Written w (read_bytes (b ∷ bs)) io h =
      call-Written w (data_received (b ∷ bs)) io (run_write w io) h refl refl refl
  take_read-Written w read_would_block io h =
      nothing_new io (run_write w io) (run_write-stream w io h)
  take_read-Written w read_error io h = nothing_new io (run_write w io) (run_write-stream w io h)

  select-Written :
      (s : Selected) (io : Io) → whole s ≡ true → After (select protocol s io) (Written s io)
  unfolding select
  select-Written (reads w answer) io h =
      After-none_if (Written (reads w answer) io) io.transport.read_eof
        (some (take_read protocol answer (run_write w io))) (take_read-Written w answer io h)
  select-Written (writes_out all_written) io h =
      After-if_some (Written (writes_out all_written) io) (wants_write io.transport)
        (some (goes_on (finish_write all_written io)))
        (nothing_new io (finish_write all_written io)
          (shutdown-stream all_written io ∙ pop-stream io))
  select-Written (writes_out (write_error n)) io h = cc
  select-Written (sleeps w) io h = nothing_new io (run_write w io) (run_write-stream w io h)

  -- If the protocol never aborts the transport from a call, then in a round in which no write fails or is
  -- dropped amid its chunk, whatever else completes, what the socket has taken and what is buffered
  -- are, one after the other, what they were, followed by exactly the bytes that the protocol has
  -- written in the round: those of its calls of `write` and `writelines`, in order, before its output
  -- has ended and, of `writelines`, before the first item that holds no bytes.
  pub round-stream :
      (s : Selected) (io : Io)
      → whole s ≡ true
      → After (round protocol s io) (λ u. stream u ≡ stream io ++ new_bytes protocol s io)
  unfolding round
  round-stream s io h = elim (Bool-cases io.transport.state_closing) [
    | inl closing ↦ simp closing (nothing_new io io refl)
    | inr open_ ↦ elim (Bool-cases io.transport.state_paused) [
      | inl paused ↦ simp (open_, paused) (nothing_new io io refl)
      | inr on ↦
          simp (open_, on)
            (checked-After (Written s io) (select protocol s io) (select-Written s io h))
    ]
  ]

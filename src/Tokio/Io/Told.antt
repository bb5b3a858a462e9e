-- ===== src/Tokio/Io/Told.antt =====
-- What `io_processing_loop` of src/tokio_tcp.rs tells the protocol.
use tokioloop.Base.{
  ℕ, ◌≤◌, Bool, true, false, if◌then◌else◌, Option, none, some, List, [], ◌∷◌, ◌++◌, sum_of,
  sum_of-append, ◌≡◌, refl, sym, ap, ◌∙◌, arith, Bool-cases, inl, inr,
}
use tokioloop.Tokio.Transport.{
  TokioTcpTransport, write, writelines, write_eof, pause_reading, resume_reading, close, abort,
  TransportOp, writes, writes_lines, apply, apply_all,
}
use tokioloop.Tokio.Io.{
  ProtocolCall, data_received, eof_received, connection_lost, ReadAnswer, read_bytes,
  read_would_block, read_error, WriteEnd, WriteRun, unpolled, in_write, in_flush, in_shutdown,
  Selected, reads, writes_out, sleeps, Io, Turned, goes_on, breaks, Protocol, call, wants_write,
  pop, finish_write, drop_write, run_write, take_read, select, should_exit, check_exit, round,
  IoEnd, running, ended, impossible, run_io,
}

abbrev pub eof_weight : ProtocolCall → ℕ
eof_weight eof_received = 1
eof_weight _ = 0

abbrev pub lost_weight : ProtocolCall → ℕ
lost_weight connection_lost = 1
lost_weight _ = 0

-- How often the protocol was told of the end of the input, and of the loss of the connection.
abbrev pub eofs : Io → ℕ
eofs io = sum_of eof_weight io.calls

abbrev pub losses : Io → ℕ
losses io = sum_of lost_weight io.calls

-- The protocol was told of the end of the input once if it was seen, and else not; and of no loss.
pub record IsTold (io : Io) : Type 0 where
  pub eof_once : eofs io ≡ (if io.transport.read_eof then 1 else 0)
  pub not_lost : losses io ≡ 0

writelines-read_eof :
    (items : List (Option (List ℕ))) (t : TokioTcpTransport)
    → (writelines items t).1.read_eof ≡ t.read_eof
unfolding writelines write
writelines-read_eof [] t = refl
writelines-read_eof (none ∷ items) t = ground (arith, writelines-read_eof items t)
writelines-read_eof (some chunk ∷ items) t =
    ground (arith, writelines-read_eof items (record t { write_buf = t.write_buf ++ (chunk ∷ []) }))

apply-read_eof : (op : TransportOp) (t : TokioTcpTransport) → (apply op t).read_eof ≡ t.read_eof
unfolding apply write write_eof pause_reading resume_reading close abort
apply-read_eof (writes none) t = ground arith
apply-read_eof (writes (some chunk)) t = ground arith
apply-read_eof (writes_lines items) t = writelines-read_eof items t
apply-read_eof _ t = ground arith

apply_all-read_eof :
    (ops : List TransportOp) (t : TokioTcpTransport) → (apply_all ops t).read_eof ≡ t.read_eof
unfolding apply_all
apply_all-read_eof [] t = refl
apply_all-read_eof (op ∷ ops) t = apply_all-read_eof ops (apply op t) ∙ apply-read_eof op t

-- What the branch that writes leaves alone.
record Kept (io io' : Io) : Type 0 where
  calls : io'.calls ≡ io.calls
  eof : io'.transport.read_eof ≡ io.transport.read_eof

drop_write-Kept : (w : WriteRun) (io : Io) → Kept io (drop_write w io)
unfolding drop_write pop
drop_write-Kept unpolled io = record { calls = refl; eof = refl }
drop_write-Kept (in_write n) io = ground arith
drop_write-Kept in_flush io = ground arith
drop_write-Kept (in_shutdown end) io = ground arith

finish_write-Kept : (end : WriteEnd) (io : Io) → Kept io (finish_write end io)
unfolding finish_write pop
finish_write-Kept end io = ground arith

run_write-Kept : (w : WriteRun) (io : Io) → Kept io (run_write w io)
unfolding run_write
run_write-Kept w io = elim (Bool-cases (wants_write io.transport)) [
  | inl wants ↦ rw wants (drop_write-Kept w io)
  | inr idle ↦ rw idle (record { calls = refl; eof = refl })
]

IsTold-Kept : (io io' : Io) → Kept io io' → IsTold io → IsTold io'
IsTold-Kept io io' k t = record {
  eof_once =
      ap (sum_of eof_weight) k.calls
      ∙ t.eof_once
      ∙ ap (λ (b : Bool). if b then 1 else 0) (sym k.eof);
  not_lost = ap (sum_of lost_weight) k.calls ∙ t.not_lost;
}

-- What holds of the state after a round that takes place.
abbrev pub Then : Turned → (Io → Type 0) → Type 0
Then (goes_on io) P = P io
Then (breaks io) P = P io

module _ (protocol : Protocol) where
  call-eof :
      (c : ProtocolCall) (io : Io) → (call protocol c io).transport.read_eof ≡ io.transport.read_eof
  unfolding call
  call-eof c io = apply_all-read_eof (protocol c io) io.transport

  take_read-IsTold :
      (answer : ReadAnswer) (io : Io)
      → io.transport.read_eof ≡ false
      → IsTold io
      → Then (take_read protocol answer io) IsTold
  unfolding take_read call
  take_read-IsTold (read_bytes []) io fresh t = record {
    eof_once =
        rw
          (apply_all-read_eof
            (protocol eof_received
              (record io { transport = record io.transport { read_eof = true } }))
            (record io.transport { read_eof = true }))
          (omega
            (arith, sum_of-append eof_weight io.calls (eof_received ∷ []), rw fresh at t.eof_once));
    not_lost = omega (arith, sum_of-append lost_weight io.calls (eof_received ∷ []), t.not_lost);
  }
  take_read-IsTold (read_bytes (b ∷ bs)) io fresh t = record {
    eof_once =
        rw (apply_all-read_eof (protocol (data_received (b ∷ bs)) io) io.transport, fresh)
          (omega (
            arith,
            sum_of-append eof_weight io.calls (data_received (b ∷ bs) ∷ []),
            rw fresh at t.eof_once,
          ));
    not_lost =
        omega (arith, sum_of-append lost_weight io.calls (data_received (b ∷ bs) ∷ []), t.not_lost);
  }
  take_read-IsTold read_would_block io fresh t = t
  take_read-IsTold read_error io fresh t = t

  abbrev pub After : Option Turned → (Io → Type 0) → Type 0
  After none P = Unit {0}
  After (some o) P = Then o P

  select-IsTold : (s : Selected) (io : Io) → IsTold io → After (select protocol s io) IsTold
  unfolding select
  select-IsTold (reads w answer) io t = elim (Bool-cases io.transport.read_eof) [
    | inl over ↦ simp over tt
    | inr on ↦
        let k = run_write-Kept w io in
        simp on (
          take_read-IsTold answer (run_write w io) (k.eof ∙ on)
            (IsTold-Kept io (run_write w io) k t))
  ]
  select-IsTold (writes_out end) io t = elim (Bool-cases (wants_write io.transport)) [
    | inr idle ↦ rw idle tt
    | inl wants ↦ rw wants (IsTold-Kept io (finish_write end io) (finish_write-Kept end io) t)
  ]
  select-IsTold (sleeps w) io t = IsTold-Kept io (run_write w io) (run_write-Kept w io) t

  checked-IsTold :
      (o : Option Turned)
      → After o IsTold
      → After
          (elim o as (λ (x : Option Turned). Option Turned) [
            | none ↦ none
            | some t ↦ some (check_exit t)
          ])
          IsTold
  checked-IsTold none h = tt
  checked-IsTold (some (breaks io)) h = h
  checked-IsTold (some (goes_on io)) h = elim (Bool-cases (should_exit io.transport)) [
    | inl over ↦ rw over h
    | inr on ↦ rw on h
  ]

  round-IsTold : (s : Selected) (io : Io) → IsTold io → After (round protocol s io) IsTold
  unfolding round
  round-IsTold s io t = elim (Bool-cases io.transport.state_closing) [
    | inl closing ↦ simp closing t
    | inr open_ ↦ elim (Bool-cases io.transport.state_paused) [
      | inl paused ↦ simp (open_, paused) t
      | inr on ↦ simp (open_, on) (checked-IsTold (select protocol s io) (select-IsTold s io t))
    ]
  ]

  -- At the end the protocol was told of the loss once, and of the end of the input once at most.
  abbrev pub EndsTold : IoEnd → Type 0
  EndsTold (running io) = IsTold io
  EndsTold (ended io) = (losses io ≡ 1) × (eofs io ≤ 1)
  EndsTold impossible = Unit {0}

  end-Told : (io : Io) → IsTold io → EndsTold (ended (call protocol connection_lost io))
  unfolding call
  end-Told io t = (
    omega (arith, sum_of-append lost_weight io.calls (connection_lost ∷ []), t.not_lost),
    elim (Bool-cases io.transport.read_eof) [
      | inl seen ↦
          omega
            (arith, sum_of-append eof_weight io.calls (connection_lost ∷ []), rw seen at t.eof_once)
      | inr unseen ↦
          omega (
            arith,
            sum_of-append eof_weight io.calls (connection_lost ∷ []),
            rw unseen at t.eof_once,
          )
    ],
  )

  resume-Told :
      (ss : List Selected) (o : Option Turned)
      → ((io : Io) → IsTold io → EndsTold (run_io protocol ss io))
      → After o IsTold
      → EndsTold (elim o as (λ (x : Option Turned). IoEnd) [
        | none ↦ impossible
        | some (goes_on io1) ↦ run_io protocol ss io1
        | some (breaks io1) ↦ ended (call protocol connection_lost io1)
      ])
  resume-Told ss none go h = tt
  resume-Told ss (some (goes_on io)) go h = go io h
  resume-Told ss (some (breaks io)) go h = end-Told io h

  -- Whatever the select of each round gives and whatever the protocol does when it is called: while the loop
  -- runs, the protocol was told of the end of the input once if it was seen and else not, and not of
  -- a loss; when the loop has ended, it was told of the loss exactly once, and of the end once at most.
  pub run_io-Told : (ss : List Selected) (io : Io) → IsTold io → EndsTold (run_io protocol ss io)
  unfolding run_io
  run_io-Told [] io t = t
  run_io-Told (s ∷ ss) io t =
      resume-Told ss (round protocol s io) (run_io-Told ss) (round-IsTold s io t)

-- ===== src/Tokio/Io/Drop.antt =====
-- What the branch of `io_processing_loop` of src/tokio_tcp.rs that writes does to the stream, also when it is dropped.
use tokioloop.Base.{
  ℕ, Bool, true, false, List, [], ◌∷◌, ◌++◌, append_assoc, join, ◌≡◌, refl, Bool-cases, inl, inr,
}
use tokioloop.Tokio.Io.{
  WriteEnd, all_written, write_error, WriteRun, unpolled, in_write, in_flush, in_shutdown, Selected,
  reads, writes_out, sleeps, Io, wants_write, pop, should_shutdown, write_chunk, finish_write,
  drop_write, run_write,
}

-- What the socket has taken, and what is to follow.
abbrev pub stream : Io → List ℕ
stream io = io.sent ++ join io.transport.write_buf

-- The branch that writes is not dropped while bytes of its chunk are unwritten, and meets no error.
abbrev pub whole_run : WriteRun → Bool
whole_run unpolled = true
whole_run (in_write n) = false
whole_run in_flush = true
whole_run (in_shutdown all_written) = true
whole_run (in_shutdown (write_error n)) = false

abbrev pub whole : Selected → Bool
whole (reads w answer) = whole_run w
whole (writes_out all_written) = true
whole (writes_out (write_error n)) = false
whole (sleeps w) = whole_run w

-- A whole chunk goes from the buffer's front to the socket.
pub pop-stream : (io : Io) → stream (write_chunk all_written (pop io).0 (pop io).1) ≡ stream io
unfolding pop
pop-stream io = go io.transport.write_buf refl
  where
    go :
        (buf : List (List ℕ))
        → io.transport.write_buf ≡ buf
        → stream (write_chunk all_written (pop io).0 (pop io).1) ≡ stream io
    go [] e = rw e refl
    go (chunk ∷ rest) e = rw e (append_assoc io.sent chunk (join rest))

pub shutdown-stream :
    (end : WriteEnd) (io : Io)
    → stream (finish_write end io) ≡ stream (write_chunk end (pop io).0 (pop io).1)
unfolding finish_write
shutdown-stream end io = elim (Bool-cases (should_shutdown (pop io).1.transport)) [
  | inl shuts ↦ rw shuts refl
  | inr on ↦ rw on refl
]

drop_write-stream :
    (w : WriteRun) (io : Io) → whole_run w ≡ true → stream (drop_write w io) ≡ stream io
unfolding drop_write
drop_write-stream unpolled io h = refl
drop_write-stream (in_write n) io h = cc
drop_write-stream in_flush io h = pop-stream io
drop_write-stream (in_shutdown (write_error n)) io h = cc
drop_write-stream (in_shutdown all_written) io h =
    elim (Bool-cases (should_shutdown (pop io).1.transport)) [
      | inl shuts ↦ rw shuts (pop-stream io)
      | inr on ↦ rw on (pop-stream io)
    ]

pub run_write-stream :
    (w : WriteRun) (io : Io) → whole_run w ≡ true → stream (run_write w io) ≡ stream io
unfolding run_write
run_write-stream w io h = elim (Bool-cases (wants_write io.transport)) [
  | inl wants ↦ rw wants (drop_write-stream w io h)
  | inr idle ↦ rw idle refl
]

-- A dropped write leaves what the protocol's operations look at.
pub record SameEnds (io io' : Io) : Type 0 where
  pub same_closing : io'.transport.closing ≡ io.transport.closing
  pub same_weof : io'.transport.weof ≡ io.transport.weof

pop-SameEnds : (end : WriteEnd) (io : Io) → SameEnds io (write_chunk end (pop io).0 (pop io).1)
unfolding pop
pop-SameEnds end io = go io.transport.write_buf refl
  where
    go :
        (buf : List (List ℕ))
        → io.transport.write_buf ≡ buf
        → SameEnds io (write_chunk end (pop io).0 (pop io).1)
    go [] e = rw e (record { same_closing = refl; same_weof = refl })
    go (chunk ∷ rest) e = rw e (record { same_closing = refl; same_weof = refl })

drop_write-SameEnds : (w : WriteRun) (io : Io) → SameEnds io (drop_write w io)
unfolding drop_write
drop_write-SameEnds unpolled io = record { same_closing = refl; same_weof = refl }
drop_write-SameEnds (in_write n) io = pop-SameEnds (write_error n) io
drop_write-SameEnds in_flush io = pop-SameEnds all_written io
drop_write-SameEnds (in_shutdown end) io =
    let p = pop-SameEnds end io in
    elim (Bool-cases (should_shutdown (pop io).1.transport)) [
      | inl shuts ↦ rw shuts (record { same_closing = p.same_closing; same_weof = p.same_weof })
      | inr on ↦ rw on (record { same_closing = p.same_closing; same_weof = p.same_weof })
    ]

pub run_write-SameEnds : (w : WriteRun) (io : Io) → SameEnds io (run_write w io)
unfolding run_write
run_write-SameEnds w io = elim (Bool-cases (wants_write io.transport)) [
  | inl wants ↦ rw wants (drop_write-SameEnds w io)
  | inr idle ↦ rw idle (record { same_closing = refl; same_weof = refl })
]

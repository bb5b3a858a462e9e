-- ===== src/Tcp/WriteHandle/Bytes.antt =====
-- The bytes that the write handle of src/tcp.rs moves from the buffer to the socket.
use tokioloop.Base.{
  subst, sym, length-append, ◌∙◌, drop, take, suc, append_assoc, ℕ, ◌≤◌, ◌+◌, ◌-◌, ◌==◌, ==_refl,
  ltb, if◌then◌else◌, false, Option, none, some, List, [], ◌∷◌, ◌++◌, length, ◌≡◌, refl, ap, arith,
  Bool-cases, inl, inr,
}
use tokioloop.Deps.{Deps}
use tokioloop.World.{
  store_self, World, TcpTransport, Effect, connection_made, connection_lost, pause_writing,
  resume_writing, data_received, eof_received, sent, tls_written, shutdown_write, datagram, Returns,
}
use tokioloop.Base.{total, join, take-append-drop}
use tokioloop.Tcp.Write.{WriteResult, wrote, write_interrupted, would_block, write_failed}
use tokioloop.Tcp.WriteHandle.{
  Flush, flushed, flush_failed, flush_starved, sent_first, flush, apply_flush, write,
}

-- The bytes sent and those left are the bytes there were, in order and as many.
abbrev pub Conserves : List (List ℕ) → Flush → Type 0
Conserves chunks (flushed bytes rest) =
    (bytes ++ join rest ≡ join chunks) × (length bytes + total rest ≡ total chunks)
Conserves chunks (flush_failed bytes) = Unit {0}
Conserves chunks flush_starved = Unit {0}

sent_first-Conserves :
    (chunk : List ℕ) (rest : List (List ℕ)) (f : Flush)
    → Conserves rest f
    → Conserves (chunk ∷ rest) (sent_first chunk f)
sent_first-Conserves chunk rest (flushed bytes left) (j, t) = (
  append_assoc chunk bytes (join left) ∙ ap (◌++◌ chunk) j,
  omega (arith, length-append chunk bytes, t),
)
sent_first-Conserves chunk rest (flush_failed bytes) h = tt
sent_first-Conserves chunk rest flush_starved h = tt

split-Conserves :
    (n : ℕ) (chunk : List ℕ) (rest : List (List ℕ))
    → Conserves (chunk ∷ rest) (flushed (take n chunk) (drop n chunk ∷ rest))
split-Conserves n chunk rest = (
  sym (append_assoc (take n chunk) (drop n chunk) (join rest))
      ∙ ap (λ (x : List ℕ). x ++ join rest) (take-append-drop n chunk),
  omega (arith, ap length (take-append-drop n chunk), length-append (take n chunk) (drop n chunk)),
)

-- Whatever the socket answers, the loop over the buffer loses and reorders no byte, unless a write
-- fails.
pub flush-Conserves :
    (answers : List WriteResult) (chunks : List (List ℕ)) → Conserves chunks (flush answers chunks)
unfolding flush
flush-Conserves [] [] = (refl, omega arith)
flush-Conserves (a ∷ answers) [] = (refl, omega arith)
flush-Conserves [] (chunk ∷ rest) = tt
flush-Conserves (wrote n ∷ answers) (chunk ∷ rest) = elim (Bool-cases (ltb n (length chunk))) [
  | inl partial ↦ rw (partial, Conserves) (split-Conserves n chunk rest)
  | inr full ↦
      rw (full, Conserves)
        (sent_first-Conserves chunk rest (flush answers rest) (flush-Conserves answers rest))
]
flush-Conserves (write_interrupted ∷ answers) (chunk ∷ rest) =
    flush-Conserves answers (chunk ∷ rest)
flush-Conserves (would_block ∷ answers) (chunk ∷ rest) = (refl, omega arith)
flush-Conserves (write_failed ∷ answers) (chunk ∷ rest) = tt

-- The answers that are no interrupts.
abbrev pub decisive : List WriteResult → ℕ
decisive [] = 0
decisive (write_interrupted ∷ answers) = decisive answers
decisive (_ ∷ answers) = suc (decisive answers)

-- A result, not a lack of answers.
abbrev pub Settles : Flush → Type 0
Settles (flushed _ _) = Unit {0}
Settles (flush_failed _) = Unit {0}
Settles flush_starved = ⊥

sent_first-Settles : (chunk : List ℕ) (f : Flush) → Settles f → Settles (sent_first chunk f)
sent_first-Settles chunk (flushed _ _) h = tt
sent_first-Settles chunk (flush_failed _) h = tt
sent_first-Settles chunk flush_starved h = h

-- The loop ends once it has as many answers that are no interrupts as there are chunks.
pub flush-Settles :
    (answers : List WriteResult) (chunks : List (List ℕ))
    → length chunks ≤ decisive answers
    → Settles (flush answers chunks)
unfolding flush
flush-Settles [] [] h = tt
flush-Settles (a ∷ answers) [] h = tt
flush-Settles [] (chunk ∷ rest) h = absurd (omega arith)
flush-Settles (wrote n ∷ answers) (chunk ∷ rest) h = elim (Bool-cases (ltb n (length chunk))) [
  | inl partial ↦ rw (partial, Settles) tt
  | inr full ↦
      rw (full, Settles)
        (sent_first-Settles chunk (flush answers rest) (flush-Settles answers rest (omega arith)))
]
flush-Settles (write_interrupted ∷ answers) (chunk ∷ rest) h =
    flush-Settles answers (chunk ∷ rest) h
flush-Settles (would_block ∷ answers) (chunk ∷ rest) h = tt
flush-Settles (write_failed ∷ answers) (chunk ∷ rest) h = tt

-- The bytes that the socket `fd` has taken, by the trace.
abbrev pub wire : ℕ → List Effect → List ℕ
wire fd [] = []
wire fd (sent f bytes ∷ es) = if f == fd then wire fd es ++ bytes else wire fd es
wire fd (connection_made _ ∷ es) = wire fd es
wire fd (connection_lost _ _ ∷ es) = wire fd es
wire fd (pause_writing _ ∷ es) = wire fd es
wire fd (resume_writing _ ∷ es) = wire fd es
wire fd (data_received _ _ ∷ es) = wire fd es
wire fd (eof_received _ ∷ es) = wire fd es
wire fd (tls_written _ _ ∷ es) = wire fd es
wire fd (shutdown_write _ ∷ es) = wire fd es
wire fd (datagram _ ∷ es) = wire fd es

module _ (D : Deps) where
  -- The count of buffered bytes is right.
  abbrev pub IsSized : TcpTransport D → Type 0
  IsSized t = t.write_buf_dsize ≡ total t.write_buf

  -- What the transport has been given and has kept: the bytes on the wire, then those buffered.
  abbrev pub stream : ℕ → World D → List ℕ
  stream r w = wire (w.tcp r).fd w.trace ++ join (w.tcp r).write_buf

  -- The stream is kept, and so is the count; a failure leaves an empty buffer.
  pub record Written (r : ℕ) (w : World D) (result : Option ℕ × World D) : Type 0 where
    pub sized : IsSized (result.1.tcp r)
    pub kept_stream : (n : ℕ) → result.0 ≡ some n → stream r result.1 ≡ stream r w
    pub counted :
        (n : ℕ)
        → result.0 ≡ some n
        → n + (result.1.tcp r).write_buf_dsize ≡ (w.tcp r).write_buf_dsize
    pub cleared : result.0 ≡ none → (result.1.tcp r).write_buf ≡ []

  apply_flush-Written :
      (r : ℕ) (f : Flush) (w : World D)
      → Settles f
      → IsSized (w.tcp r)
      → Conserves (w.tcp r).write_buf f
      → Returns (apply_flush D r f w) (Written r w)
  unfolding apply_flush
  apply_flush-Written r (flushed bytes rest) w s z (j, t) =
      let fd = (w.tcp r).fd in
      let left = record (w.tcp r) {
        write_buf = rest;
        write_buf_dsize = (w.tcp r).write_buf_dsize - length bytes;
      } in
      record {
        sized = ground (arith, z, t);
        kept_stream = λ n e.
            subst
              (λ (x : TcpTransport D).
                wire x.fd (sent fd bytes ∷ w.trace) ++ join x.write_buf ≡ stream r w)
              (sym (store_self w.tcp r left))
              (rw (==_refl fd)
                (append_assoc (wire fd w.trace) bytes (join rest) ∙ ap (◌++◌ (wire fd w.trace)) j));
        counted = λ n e. ground (arith, z, t);
        cleared = λ e. absurd (ground arith);
      }
  apply_flush-Written r (flush_failed bytes) w s z h = record {
    sized = ground arith;
    kept_stream = λ n e. absurd (ground arith);
    counted = λ n e. absurd (ground arith);
    cleared = λ e. ground arith;
  }
  apply_flush-Written r flush_starved w s z h = absurd s

  -- `write` of the write handle, without TLS and with as many answers that are no interrupts as there
  -- are chunks, returns, if the state is not borrowed and the count of buffered bytes is right. The count
  -- is right afterwards. Unless a write fails, the bytes on the wire followed by those buffered are what
  -- they were, and the answer and the count tell how many moved. After a failure the buffer is empty.
  pub write-Written :
      (r : ℕ) (answers : List WriteResult) (w : World D)
      → (w.tcp r).borrowed ≡ false
      → IsSized (w.tcp r)
      → length (w.tcp r).write_buf ≤ decisive answers
      → Returns (write D r answers w) (Written r w)
  unfolding write
  write-Written r answers w free z enough =
      let chunks = (w.tcp r).write_buf in
      simp free (
        apply_flush-Written r (flush answers chunks) w (flush-Settles answers chunks enough) z
          (flush-Conserves answers chunks))

-- ===== src/Tcp/Write/Output.antt =====
-- What the first part of `try_write` of src/tcp.rs adds to the stream of bytes.
use tokioloop.Base.{
  ℕ, ◌≤◌, ◌+◌, ◌==◌, ==_refl, ltb, false, List, [], ◌∷◌, ◌++◌, length, ◌≡◌, refl, ap, arith,
  Bool-cases, inl, inr,
}
use tokioloop.Deps.{Deps}
use tokioloop.World.{World, TcpTransport, Effect, sent, Returns, set_tcp, emit}
use tokioloop.World.{store_self}
use tokioloop.Base.{
  total, join, take-append-drop, total-append, join-append, append_assoc, append-nil, take, drop,
  sym, ◌∙◌,
}
use tokioloop.Tcp.Close.{is_some}
use tokioloop.Tcp.Write.{
  WriteResult, wrote, write_interrupted, would_block, write_failed, push_back, direct_write,
  add_output,
}
use tokioloop.Tcp.WriteHandle.Bytes.{wire, stream, IsSized}

-- The answer is no error, and takes no more than the bytes.
abbrev pub Takes : List ℕ → WriteResult → Type 0
Takes bytes (wrote n) = n ≤ length bytes
Takes bytes write_interrupted = Unit {0}
Takes bytes would_block = Unit {0}
Takes bytes write_failed = ⊥

join_of_total_zero : (cs : List (List ℕ)) → total cs ≡ 0 → join cs ≡ []
join_of_total_zero [] h = refl
join_of_total_zero ([] ∷ cs) h = join_of_total_zero cs (omega (arith, h))
join_of_total_zero ((b ∷ bs) ∷ cs) h = absurd (omega (arith, h))

module _ (D : Deps) where
  open D use {get}

  -- The bytes are at the end of the stream, `added` of them in the buffer; the loop's tables and the
  -- transport's other fields are those of `w`.
  pub record Output (r : ℕ) (bytes : List ℕ) (w : World D) (result : ℕ × World D) : Type 0 where
    pub grown : stream D r result.1 ≡ stream D r w ++ bytes
    pub sized : total (result.1.tcp r).write_buf ≡ (result.1.tcp r).write_buf_dsize + result.0
    pub same_fd : (result.1.tcp r).fd ≡ (w.tcp r).fd
    pub same_size : (result.1.tcp r).write_buf_dsize ≡ (w.tcp r).write_buf_dsize
    pub same_handles : result.1.handles_io ≡ w.handles_io

  pub stream-set_tcp :
      (r : ℕ) (t : TcpTransport D) (w : World D)
      → stream D r (set_tcp D r t w) ≡ wire t.fd w.trace ++ join t.write_buf
  stream-set_tcp r t w =
      ap (λ (x : TcpTransport D). wire x.fd w.trace ++ join x.write_buf) (store_self w.tcp r t)

  push_back-Output :
      (r : ℕ) (chunk : List ℕ) (w : World D)
      → IsSized D (w.tcp r)
      → Output r chunk w (push_back D r chunk w)
  unfolding push_back
  push_back-Output r chunk w z =
      let t = w.tcp r in
      record {
        grown =
            stream-set_tcp r (record t { write_buf = t.write_buf ++ (chunk ∷ []) }) w
            ∙ simp (join-append, append_assoc, append-nil);
        sized = ground (arith, z, total-append t.write_buf (chunk ∷ []));
        same_fd = ground arith;
        same_size = ground arith;
        same_handles = refl;
      }

  wire_sent :
      (fd : ℕ) (bytes : List ℕ) (es : List Effect)
      → wire fd (sent fd bytes ∷ es) ≡ wire fd es ++ bytes
  wire_sent fd bytes es = rw (==_refl fd)

  -- An emptied buffer holds no byte of the stream.
  stream_of_empty :
      (r : ℕ) (w : World D)
      → IsSized D (w.tcp r)
      → (w.tcp r).write_buf_dsize ≡ 0
      → stream D r w ≡ wire (w.tcp r).fd w.trace
  stream_of_empty r w z e =
      ap (◌++◌ (wire (w.tcp r).fd w.trace))
        (join_of_total_zero (w.tcp r).write_buf (omega (arith, z, e)))
      ∙ append-nil (wire (w.tcp r).fd w.trace)

  stream_sent :
      (r : ℕ) (bytes : List ℕ) (w : World D)
      → IsSized D (w.tcp r)
      → (w.tcp r).write_buf_dsize ≡ 0
      → stream D r (emit D (sent (w.tcp r).fd bytes) w) ≡ stream D r w ++ bytes
  stream_sent r bytes w z e =
      stream_of_empty r (emit D (sent (w.tcp r).fd bytes) w) z e
      ∙ wire_sent (w.tcp r).fd bytes w.trace
      ∙ ap (λ (x : List ℕ). x ++ bytes) (sym (stream_of_empty r w z e))

  partial-Output :
      (r n : ℕ) (bytes : List ℕ) (w : World D)
      → IsSized D (w.tcp r)
      → (w.tcp r).write_buf_dsize ≡ 0
      → Output r bytes w
          (push_back D r (drop n bytes) (emit D (sent (w.tcp r).fd (take n bytes)) w))
  partial-Output r n bytes w z e =
      let w1 = emit D (sent (w.tcp r).fd (take n bytes)) w in
      let k = push_back-Output r (drop n bytes) w1 z in
      record {
        grown =
            k.grown
            ∙ ap (λ (x : List ℕ). x ++ drop n bytes) (stream_sent r (take n bytes) w z e)
            ∙ append_assoc (stream D r w) (take n bytes) (drop n bytes)
            ∙ ap (◌++◌ (stream D r w)) (take-append-drop n bytes);
        sized = k.sized;
        same_fd = k.same_fd;
        same_size = k.same_size;
        same_handles = k.same_handles;
      }

  direct_write-Output :
      (r now : ℕ) (bytes : List ℕ) (answer : WriteResult) (w : World D)
      → IsSized D (w.tcp r)
      → (w.tcp r).write_buf_dsize ≡ 0
      → Takes bytes answer
      → Returns (direct_write D r now bytes answer w) (Output r bytes w)
  unfolding direct_write
  direct_write-Output r now bytes (wrote n) w z e fits = elim (Bool-cases (n == length bytes)) [
    | inl full ↦
        rw (full, Returns)
          (record {
            grown = stream_sent r bytes w z e;
            sized = omega (arith, z);
            same_fd = refl;
            same_size = refl;
            same_handles = refl;
          })
    | inr part ↦
        let short : ltb (length bytes) n ≡ false = ground arith in
        rw (part, Returns) (rw (short, Returns) (partial-Output r n bytes w z e))
  ]
  direct_write-Output r now bytes write_interrupted w z e fits = push_back-Output r bytes w z
  direct_write-Output r now bytes would_block w z e fits = push_back-Output r bytes w z
  direct_write-Output r now bytes write_failed w z e fits = absurd fits

  pub add_output-Output :
      (r now : ℕ) (bytes : List ℕ) (answer : WriteResult) (w : World D)
      → is_some (w.tcp r).tls_conn ≡ false
      → IsSized D (w.tcp r)
      → Takes bytes answer
      → Returns (add_output D r now bytes answer w) (Output r bytes w)
  unfolding add_output
  add_output-Output r now bytes answer w plain z fits =
      elim (Bool-cases ((w.tcp r).write_buf_dsize == 0)) [
        | inl empty ↦
            rw (plain, Returns)
              (rw (empty, Returns) (direct_write-Output r now bytes answer w z (ground arith) fits))
        | inr more ↦ rw (plain, Returns) (rw (more, Returns) (push_back-Output r bytes w z))
      ]

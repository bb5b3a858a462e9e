-- ===== src/Tokio/Io/Written.antt =====
-- What the operations of `TokioTCPTransport` of src/tokio_tcp.rs add to its buffer.
use tokioloop.Base.{
  ℕ, Bool, true, false, not, ◌&&◌, ◌||◌, Option, none, some, List, [], ◌∷◌, ◌++◌, append-nil,
  append_assoc, join, join-append, ◌≡◌, refl, sym, ap, subst, ◌∙◌, arith, Bool-cases, inl, inr,
}
use tokioloop.Tokio.Transport.{
  TokioTcpTransport, write, writelines, write_eof, pause_reading, resume_reading, close,
  TransportOp, writes, writes_lines, writes_eof, closes, aborts, apply, apply_all, Answer, done,
  runtime_error, type_error,
}

-- The operations that throw nothing away.
abbrev pub keeps : TransportOp → Bool
keeps aborts = false
keeps _ = true

abbrev pub AllKeep : List TransportOp → Type 0
AllKeep [] = Unit {0}
AllKeep (op ∷ ops) = (keeps op ≡ true) × AllKeep ops

abbrev pub buffered : TokioTcpTransport → List ℕ
buffered t = join t.write_buf

-- The bytes of the items before the first that holds none.
abbrev leading : List (Option (List ℕ)) → List ℕ
leading [] = []
leading (none ∷ items) = []
leading (some chunk ∷ items) = chunk ++ leading items

-- The bytes that an operation writes, before the end of the output and after it.
abbrev bytes_of : Bool → TransportOp → List ℕ
bytes_of true op = []
bytes_of false (writes (some chunk)) = chunk
bytes_of false (writes_lines items) = leading items
bytes_of false _ = []

abbrev is_close : TransportOp → Bool
is_close closes = true
is_close _ = false

abbrev is_eof : TransportOp → Bool
is_eof writes_eof = true
is_eof _ = false

-- The bytes that operations write, from whether the transport is closing and whether its output has ended:
-- `write_eof` ends it, unless the transport is closing.
abbrev pub written : Bool → Bool → List TransportOp → List ℕ
written closing over [] = []
written closing over (op ∷ ops) =
    bytes_of over op ++ written (closing || is_close op) (over || is_eof op && not closing) ops

-- What a write keeps, with the bytes it adds.
record Adds (bytes : List ℕ) (t t' : TokioTcpTransport) : Type 0 where
  pub bytes_added : buffered t' ≡ buffered t ++ bytes
  pub same_closing : t'.closing ≡ t.closing
  pub same_weof : t'.weof ≡ t.weof

Adds-none : (t : TokioTcpTransport) → Adds [] t t
Adds-none t = record {
  bytes_added = sym (append-nil (buffered t));
  same_closing = refl;
  same_weof = refl;
}

write-over :
    (item : Option (List ℕ)) (t : TokioTcpTransport)
    → t.weof ≡ true
    → write item t ≡ (runtime_error, t)
unfolding write
write-over none t over = rw over refl
write-over (some chunk) t over = rw over refl

write-no_bytes : (t : TokioTcpTransport) → t.weof ≡ false → write none t ≡ (type_error, t)
unfolding write
write-no_bytes t on = rw on refl

write-Adds :
    (chunk : List ℕ) (t : TokioTcpTransport)
    → t.weof ≡ false
    → Adds chunk t (write (some chunk) t).1
unfolding write
write-Adds chunk t on = simp on (record {
  bytes_added =
      join-append t.write_buf (chunk ∷ [])
      ∙ ap (λ (x : List ℕ). join t.write_buf ++ x) (append-nil chunk);
  same_closing = refl;
  same_weof = sym on;
})

write-done :
    (chunk : List ℕ) (t : TokioTcpTransport) → t.weof ≡ false → (write (some chunk) t).0 ≡ done
unfolding write
write-done chunk t on = rw on refl

writelines-over :
    (items : List (Option (List ℕ))) (t : TokioTcpTransport)
    → t.weof ≡ true
    → (writelines items t).1 ≡ t
unfolding writelines
writelines-over [] t over = refl
writelines-over (item ∷ items) t over =
    rw (write-over item t over, writelines)
      (ap (λ (x : Answer × TokioTcpTransport). x.1) (write-over item t over))

writelines-Adds :
    (items : List (Option (List ℕ))) (t : TokioTcpTransport)
    → t.weof ≡ false
    → Adds (leading items) t (writelines items t).1
unfolding writelines
writelines-Adds [] t on = Adds-none t
writelines-Adds (none ∷ items) t on =
    rw (write-no_bytes t on, writelines)
      (subst (Adds [] t) (sym (ap (λ (x : Answer × TokioTcpTransport). x.1) (write-no_bytes t on)))
        (Adds-none t))
writelines-Adds (some chunk ∷ items) t on =
    let a = write-Adds chunk t on in
    let b = writelines-Adds items (write (some chunk) t).1 (a.same_weof ∙ on) in
    rw (write-done chunk t on, writelines)
      (record {
        bytes_added =
            b.bytes_added
            ∙ ap (λ (x : List ℕ). x ++ leading items) a.bytes_added
            ∙ append_assoc (buffered t) chunk (leading items);
        same_closing = b.same_closing ∙ a.same_closing;
        same_weof = b.same_weof ∙ a.same_weof;
      })

-- An operation that throws nothing away adds its bytes; the flags follow it.
record Follows (op : TransportOp) (t t' : TokioTcpTransport) : Type 0 where
  pub bytes_added : buffered t' ≡ buffered t ++ bytes_of t.weof op
  pub closings : t'.closing ≡ t.closing || is_close op
  pub ends : t'.weof ≡ t.weof || is_eof op && not t.closing

Follows-write :
    (op : TransportOp) (t t' : TokioTcpTransport)
    → is_close op ≡ false
    → is_eof op ≡ false
    → Adds (bytes_of t.weof op) t t'
    → Follows op t t'
Follows-write op t t' c e a = record {
  bytes_added = a.bytes_added;
  closings = ground (arith, a.same_closing, c);
  ends = ground (arith, a.same_weof, e);
}

apply-Follows :
    (op : TransportOp) (t : TokioTcpTransport) → keeps op ≡ true → Follows op t (apply op t)
unfolding apply write_eof pause_reading resume_reading close
apply-Follows (writes item) t k = elim (Bool-cases t.weof) [
  | inl over ↦ Follows-write (writes item) t _ refl refl (
      rw (write-over item t over, apply)
        (subst (λ (b : Bool). Adds (bytes_of b (writes item)) t t) (sym over) (Adds-none t)))
  | inr on ↦ Follows-write (writes item) t _ refl refl (
      subst (λ (b : Bool). Adds (bytes_of b (writes item)) t (write item t).1) (sym on)
        (adds item on))
]
  where
    adds :
        (item : Option (List ℕ))
        → t.weof ≡ false
        → Adds (bytes_of false (writes item)) t (write item t).1
    adds none on = rw (write-no_bytes t on) (Adds-none t)
    adds (some chunk) on = write-Adds chunk t on
apply-Follows (writes_lines items) t k = elim (Bool-cases t.weof) [
  | inl over ↦ Follows-write (writes_lines items) t _ refl refl (
      rw (writelines-over items t over)
        (subst (λ (b : Bool). Adds (bytes_of b (writes_lines items)) t t) (sym over) (Adds-none t)))
  | inr on ↦ Follows-write (writes_lines items) t _ refl refl (
      subst (λ (b : Bool). Adds (bytes_of b (writes_lines items)) t (writelines items t).1) (sym on)
        (writelines-Adds items t on))
]
apply-Follows aborts t k = cc
apply-Follows op t k = record {
  bytes_added = ground (arith, append-nil (join t.write_buf));
  closings = ground arith;
  ends = ground arith;
}

-- The buffer after operations that throw nothing away is the buffer before, followed by what they write.
pub apply_all-written :
    (ops : List TransportOp) (t : TokioTcpTransport)
    → AllKeep ops
    → buffered (apply_all ops t) ≡ buffered t ++ written t.closing t.weof ops
unfolding apply_all
apply_all-written [] t k = sym (append-nil (buffered t))
apply_all-written (op ∷ ops) t k =
    let f = apply-Follows op t k.0 in
    apply_all-written ops (apply op t) k.1
    ∙ rw (f.closings, f.ends, f.bytes_added)
        (append_assoc (buffered t) (bytes_of t.weof op)
          (written (t.closing || is_close op) (t.weof || is_eof op && not t.closing) ops))

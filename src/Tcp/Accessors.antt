-- ===== src/Tcp/Accessors.antt =====
-- What Python reads off a TCP transport: is_closing, is_reading, get_write_buffer_size,
-- get_write_buffer_limits and can_write_eof of src/tcp.rs; and writelines and set_protocol.
use tokioloop.Base.{
  List, join, ℕ, ◌≤◌, ltb, Bool, true, false, ◌&&◌, not, Option, ◌≡◌, refl, sym, subst, ◌∙◌, arith,
  ap, Bool-cases, inl, inr,
}
use tokioloop.Deps.{Deps}
use tokioloop.World.{Result, ok, ◌>>=◌, World, TcpTransport, set_tcp, store_self}
use tokioloop.Tcp.Close.{borrow}
use tokioloop.Tcp.New.{new}
use tokioloop.Tcp.Write.{
  WriteResult, Answer, not_implemented, try_write, high_mark, low_mark, pause_if,
  set_write_buffer_limits,
}

module _ (D : Deps) where
  unfoldable pub is_closing : TcpTransport D → Bool
  is_closing t = t.closing

  unfoldable pub is_reading : TcpTransport D → Bool
  is_reading t = not t.closing && not t.paused

  unfoldable pub get_write_buffer_size : ℕ → World D → Result ℕ
  get_write_buffer_size r w = borrow D r w >>= λ t. ok t.write_buf_dsize

  -- The low mark comes first.
  unfoldable pub get_write_buffer_limits : TcpTransport D → ℕ × ℕ
  get_write_buffer_limits t = (t.water_lo, t.water_hi)

  unfoldable pub can_write_eof : TcpTransport D → Bool
  can_write_eof t = not t.weof

  -- An object that does not hold bytes raises an exception in the join, before anything is written.
  unfoldable pub writelines :
      ℕ → ℕ → List (List ℕ) → WriteResult → World D → Result (Answer × World D)
  unfolding try_write
  writelines r now chunks answer w = try_write D r now (join chunks) answer w

  unfoldable pub set_protocol : ℕ → World D → Answer × World D
  set_protocol protocol w = (not_implemented, w)

  -- The low mark is not above the high mark.
  pub IsOrdered : TcpTransport D → Type 0
  IsOrdered t = let limits = get_write_buffer_limits t in limits.0 ≤ limits.1

  new-IsOrdered :
      (fd : ℕ) (lfd : Option ℕ) (buffered : Bool) (timeout : Option ℕ)
      → IsOrdered (new D fd lfd buffered timeout)
  unfolding IsOrdered get_write_buffer_limits new
  new-IsOrdered fd lfd buffered timeout = omega arith

  pause_if-limits :
      (above : Bool) (r : ℕ) (w : World D)
      → get_write_buffer_limits ((pause_if D above r w).tcp r) ≡ get_write_buffer_limits (w.tcp r)
  unfolding get_write_buffer_limits
  pause_if-limits above r w = elim (Bool-cases (above && not (w.tcp r).proto_paused)) [
    | inl pause ↦
        rw pause (
          ap get_write_buffer_limits
            (store_self w.tcp r (record (w.tcp r) { proto_paused = true })))
    | inr go_on ↦ rw go_on refl
  ]

  marks-IsOrdered : (t : TcpTransport D) → ltb t.water_hi t.water_lo ≡ false → IsOrdered t
  unfolding IsOrdered get_write_buffer_limits
  marks-IsOrdered t kept = ground arith

  pause_if-IsOrdered :
      (above : Bool) (r : ℕ) (t : TcpTransport D) (w : World D)
      → IsOrdered t
      → IsOrdered ((pause_if D above r (set_tcp D r t w)).tcp r)
  unfolding IsOrdered
  pause_if-IsOrdered above r t w was =
      let same = pause_if-limits above r (set_tcp D r t w) in
      let here = ap get_write_buffer_limits (store_self w.tcp r t) in
      subst (λ (limits : ℕ × ℕ). limits.0 ≤ limits.1) (sym (same ∙ here)) was

  -- A change of the limits keeps them in order, whichever are given and whether or not it is refused.
  pub set_write_buffer_limits-IsOrdered :
      (r : ℕ) (high low : Option ℕ) (w : World D)
      → IsOrdered (w.tcp r)
      → IsOrdered ((set_write_buffer_limits D r high low w).1.tcp r)
  unfolding set_write_buffer_limits
  set_write_buffer_limits-IsOrdered r high low w was =
      let wh = high_mark D high low in
      let wl = low_mark D wh low in
      let t = record (w.tcp r) { water_hi = wh; water_lo = wl } in
      elim (Bool-cases (ltb wh wl)) [
        | inl refused ↦ rw refused was
        | inr kept ↦
            rw kept
              (pause_if-IsOrdered (ltb wh (w.tcp r).write_buf_dsize) r t w (marks-IsOrdered t kept))
      ]

-- ===== src/EventLoop/Readers/Valid.antt =====
-- The callbacks of a descriptor against its interest, in src/event_loop.rs.
use tokioloop.Base.{
  ℕ, ◌==◌, Bool, false, true, Option, none, some, ◌≡◌, refl, arith, Bool-cases, Option-cases, inl,
  inr,
}
use tokioloop.Deps.{Deps, readable, writable, is_readable, is_writable, same_interest}
use tokioloop.Handle.{Handle}
use tokioloop.World.{World, PyHandleData, IoHandle, py, tcp_stream, Returns}
use tokioloop.EventLoop.Watch.{IsSynced}
use tokioloop.EventLoop.Readers.{
  remove_reader, remove_reader_rest, is_reader, remove_writer, remove_writer_rest, is_writer,
}

abbrev pub is_set : Option Handle → Bool
is_set none = false
is_set (some _) = true

-- A callback is set exactly for each direction of the interest.
pub record IsMatched (d : PyHandleData) : Type 0 where
  pub reading : is_set d.cbr ≡ is_readable d.interest
  pub writing : is_set d.cbw ≡ is_writable d.interest

-- The entry of a descriptor that Python watches, or none yet.
abbrev pub IsPyEntry : Option IoHandle → Type 0
IsPyEntry none = Unit {0}
IsPyEntry (some (py d)) = IsMatched d
IsPyEntry _ = ⊥

-- The callbacks of an entry.
abbrev pub reader_of : Option IoHandle → Option Handle
reader_of (some (py d)) = d.cbr
reader_of _ = none

abbrev pub writer_of : Option IoHandle → Option Handle
writer_of (some (py d)) = d.cbw
writer_of _ = none

abbrev pub is_entry : Option IoHandle → Bool
is_entry none = false
is_entry (some _) = true

module _ (D : Deps) where
  open D use {
    get, remove_if, get-remove_if, remove_if-result, get-update, get-update_or_insert_with,
  }

  -- `w'` has the callbacks `r` and `c` at `fd`, agrees with the poll if `w` does, and differs from `w`
  -- at no other descriptor.
  pub record Leaves (fd : ℕ) (r c : Option Handle) (w w' : World D) : Type 0 where
    pub reader : reader_of (get fd w'.handles_io) ≡ r
    pub writer : writer_of (get fd w'.handles_io) ≡ c
    pub entry : IsPyEntry (get fd w'.handles_io)
    pub others : (j : ℕ) → (fd == j) ≡ false → get j w'.handles_io ≡ get j w.handles_io
    pub synced : IsSynced D w → IsSynced D w'

  remove_reader_entry-Leaves :
      (fd : ℕ) (w : World D) (e : Option IoHandle)
      → get fd w.handles_io ≡ e
      → IsPyEntry e
      → Returns
          (remove_reader D fd w)
          λ (answer, w'). (answer ≡ is_entry e) × Leaves fd none (writer_of e) w w'
  unfolding remove_reader
  remove_reader_entry-Leaves fd w none e v =
      let gone = λ (j : ℕ). get-remove_if j fd (is_reader D) w.handles_io in
      rw (remove_if-result fd (is_reader D) w.handles_io, e)
        (
          refl,
          record {
            reader = ground (arith, gone fd);
            writer = ground (arith, gone fd);
            entry = ground (arith, gone fd);
            others = λ j n. ground (arith, gone j);
            synced = λ h j. ground (arith, h j, gone j);
          },
        )
  remove_reader_entry-Leaves fd w (some (py d)) e v =
      let rest = (remove_if fd (is_reader D) w.handles_io).1 in
      let gone = λ (j : ℕ). get-remove_if j fd (is_reader D) w.handles_io in
      elim (Bool-cases (same_interest d.interest readable)) [
        | inl only ↦
            rw (remove_if-result fd (is_reader D) w.handles_io, e)
              (rw only (
                refl,
                record {
                  reader = ground (arith, gone fd);
                  writer = ground (arith, gone fd);
                  entry = ground (arith, gone fd);
                  others = λ j n. ground (arith, gone j);
                  synced = λ h j. ground (arith, h j, gone j);
                },
              ))
        | inr more ↦ elim (Option-cases d.cbw) [
          | inl missing ↦ absurd (ground (arith, v))
          | inr (c, found) ↦
              let entry = py (record { interest = writable; cbr = none; cbw = some c }) in
              let law = λ (j : ℕ). get-update j fd (λ _. entry) rest in
              let old : get fd rest ≡ some (py d) = ground (arith, gone fd) in
              rw (remove_if-result fd (is_reader D) w.handles_io, e)
                (rw more (
                  rw (old, remove_reader_rest)
                    (rw found (
                      refl,
                      record {
                        reader = ground (arith, law fd);
                        writer = ground (arith, law fd);
                        entry = ground (arith, law fd);
                        others = λ j n. ground (arith, law j, gone j);
                        synced = λ h j. ground (arith, h j, law j, gone j);
                      },
                    ))))
        ]
      ]
  remove_reader_entry-Leaves fd w (some (tcp_stream i)) e v = absurd v
  remove_reader_entry-Leaves fd w (some _) e v = absurd v

  remove_writer_entry-Leaves :
      (fd : ℕ) (w : World D) (e : Option IoHandle)
      → get fd w.handles_io ≡ e
      → IsPyEntry e
      → Returns
          (remove_writer D fd w)
          λ (answer, w'). (answer ≡ is_entry e) × Leaves fd (reader_of e) none w w'
  unfolding remove_writer
  remove_writer_entry-Leaves fd w none e v =
      let gone = λ (j : ℕ). get-remove_if j fd (is_writer D) w.handles_io in
      rw (remove_if-result fd (is_writer D) w.handles_io, e)
        (
          refl,
          record {
            reader = ground (arith, gone fd);
            writer = ground (arith, gone fd);
            entry = ground (arith, gone fd);
            others = λ j n. ground (arith, gone j);
            synced = λ h j. ground (arith, h j, gone j);
          },
        )
  remove_writer_entry-Leaves fd w (some (py d)) e v =
      let rest = (remove_if fd (is_writer D) w.handles_io).1 in
      let gone = λ (j : ℕ). get-remove_if j fd (is_writer D) w.handles_io in
      elim (Bool-cases (same_interest d.interest writable)) [
        | inl only ↦
            rw (remove_if-result fd (is_writer D) w.handles_io, e)
              (rw only (
                refl,
                record {
                  reader = ground (arith, gone fd);
                  writer = ground (arith, gone fd);
                  entry = ground (arith, gone fd);
                  others = λ j n. ground (arith, gone j);
                  synced = λ h j. ground (arith, h j, gone j);
                },
              ))
        | inr more ↦ elim (Option-cases d.cbr) [
          | inl missing ↦ absurd (ground (arith, v))
          | inr (c, found) ↦
              let entry = py (record { interest = readable; cbr = some c; cbw = none }) in
              let law = λ (j : ℕ). get-update j fd (λ _. entry) rest in
              let old : get fd rest ≡ some (py d) = ground (arith, gone fd) in
              rw (remove_if-result fd (is_writer D) w.handles_io, e)
                (rw more (
                  rw (old, remove_writer_rest)
                    (rw found (
                      refl,
                      record {
                        reader = ground (arith, law fd);
                        writer = ground (arith, law fd);
                        entry = ground (arith, law fd);
                        others = λ j n. ground (arith, law j, gone j);
                        synced = λ h j. ground (arith, h j, law j, gone j);
                      },
                    ))))
        ]
      ]
  remove_writer_entry-Leaves fd w (some (tcp_stream i)) e v = absurd v
  remove_writer_entry-Leaves fd w (some _) e v = absurd v

  -- At a descriptor that Python watches or that has no entry, `remove_reader` returns; it leaves the
  -- writer alone there and no reader, changes no other entry, and keeps the table and the poll's
  -- registry in agreement. Its answer is whether there was an entry, with a reader or without.
  pub remove_reader-Leaves :
      (fd : ℕ) (w : World D)
      → IsPyEntry (get fd w.handles_io)
      → Returns (remove_reader D fd w) λ (answer, w').
        (answer ≡ is_entry (get fd w.handles_io))
        × Leaves fd none (writer_of (get fd w.handles_io)) w w'
  remove_reader-Leaves fd w v = remove_reader_entry-Leaves fd w (get fd w.handles_io) refl v

  -- At a descriptor that Python watches or that has no entry, `remove_writer` returns; it leaves the
  -- reader alone there and no writer, changes no other entry, and keeps the table and the poll's
  -- registry in agreement. Its answer is whether there was an entry, with a writer or without.
  remove_writer-Leaves :
      (fd : ℕ) (w : World D)
      → IsPyEntry (get fd w.handles_io)
      → Returns (remove_writer D fd w) λ (answer, w').
        (answer ≡ is_entry (get fd w.handles_io))
        × Leaves fd (reader_of (get fd w.handles_io)) none w w'
  remove_writer-Leaves fd w v = remove_writer_entry-Leaves fd w (get fd w.handles_io) refl v

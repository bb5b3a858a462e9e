-- ===== src/EventLoop/Readers/Stale.antt =====
-- Setting a callback of Python on a descriptor, in src/event_loop.rs.
use tokioloop.Base.{ℕ, false, true, none, some, ◌≡◌, refl, arith}
use tokioloop.Deps.{Deps, readable, writable, reads}
use tokioloop.Handle.{Handle, cb_handle}
use tokioloop.World.{World, PyHandleData, py, Returns, panic, unwrap_none}
use tokioloop.EventLoop.Watch.{registered, watched}
use tokioloop.EventLoop.Readers.{add_reader, add_reader_upsert, add_writer, add_writer_upsert}
use tokioloop.EventLoop.Readers.Valid.{Leaves, reader_of, writer_of}

module _ (D : Deps) where
  open D use {
    get, update_or_insert_with, get-update_or_insert_with, union, readable-union, writable-union,
  }

  -- At a descriptor with no entry `add_reader` returns a handle that is its reader, with no
  -- writer; it changes no other entry, and keeps the table and the poll's registry in agreement.
  add_reader_new :
      (fd callback args context cell : ℕ) (w : World D)
      → get fd w.handles_io ≡ none
      → Returns
          (add_reader D fd callback args context cell w)
          λ (h, w'). (h ≡ cb_handle callback args context cell) × Leaves D fd (some h) none w w'
  unfolding add_reader
  add_reader_new fd callback args context cell w e =
      let handle = cb_handle callback args context cell in
      let entry = py (record { interest = readable; cbr = some handle; cbw = none }) in
      let law = λ (j : ℕ). get-update_or_insert_with j fd (λ h. h) entry w.handles_io in
      rw (e, add_reader_upsert)
        (
          refl,
          record {
            reader = ground (arith, law fd);
            writer = ground (arith, law fd);
            entry = ground (arith, law fd);
            others = λ j n. ground (arith, law j);
            synced = λ h j. ground (arith, h j, law j);
          },
        )

  -- Beside a writer alone, `add_reader` returns and both are set, but the poll is told the old interest:
  -- the table says that the descriptor is readable, and the poll does not watch for it.
  pub add_reader_stale :
      (fd callback args context cell : ℕ) (w : World D) (d : PyHandleData) (other : Handle)
      → get fd w.handles_io ≡ some (py d)
      → d.interest ≡ writable
      → d.cbw ≡ some other
      → Returns (add_reader D fd callback args context cell w) λ (h, w').
        (reader_of (get fd w'.handles_io) ≡ some h)
        × (writer_of (get fd w'.handles_io) ≡ some other)
        × (reads (watched D fd w') ≡ true)
        × (reads (registered fd w'.registry) ≡ false)
  unfolding add_reader
  add_reader_stale fd callback args context cell w d other e alone found =
      let handle = cb_handle callback args context cell in
      let entry =
        py (record { interest = union d.interest readable; cbr = some handle; cbw = some other }) in
      let law = get-update_or_insert_with fd fd (λ _. entry) entry w.handles_io in
      rw (e, add_reader_upsert)
        (rw found (
          ground (arith, law),
          ground (arith, law),
          ground (arith, law, readable-union d.interest readable),
          ground arith,
        ))

  add_reader_again :
      (fd callback args context cell : ℕ) (w : World D) (d : PyHandleData)
      → get fd w.handles_io ≡ some (py d)
      → d.cbw ≡ none
      → add_reader D fd callback args context cell w ≡ panic unwrap_none
  unfolding add_reader
  add_reader_again fd callback args context cell w d e missing =
      rw (e, add_reader_upsert) (rw missing refl)

  -- At a descriptor with no entry `add_writer` returns a handle that is its writer, with no
  -- reader; it changes no other entry, and keeps the table and the poll's registry in agreement.
  pub add_writer_new :
      (fd callback args context cell : ℕ) (w : World D)
      → get fd w.handles_io ≡ none
      → Returns
          (add_writer D fd callback args context cell w)
          λ (h, w'). (h ≡ cb_handle callback args context cell) × Leaves D fd none (some h) w w'
  unfolding add_writer
  add_writer_new fd callback args context cell w e =
      let handle = cb_handle callback args context cell in
      let entry = py (record { interest = writable; cbr = none; cbw = some handle }) in
      let law = λ (j : ℕ). get-update_or_insert_with j fd (λ h. h) entry w.handles_io in
      rw (e, add_writer_upsert)
        (
          refl,
          record {
            reader = ground (arith, law fd);
            writer = ground (arith, law fd);
            entry = ground (arith, law fd);
            others = λ j n. ground (arith, law j);
            synced = λ h j. ground (arith, h j, law j);
          },
        )

  add_writer_again :
      (fd callback args context cell : ℕ) (w : World D) (d : PyHandleData)
      → get fd w.handles_io ≡ some (py d)
      → d.cbr ≡ none
      → add_writer D fd callback args context cell w ≡ panic unwrap_none
  unfolding add_writer
  add_writer_again fd callback args context cell w d e missing =
      rw (e, add_writer_upsert) (rw missing refl)

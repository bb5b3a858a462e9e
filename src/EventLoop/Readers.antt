-- ===== src/EventLoop/Readers.antt =====
-- add_reader, remove_reader, add_writer and remove_writer of src/event_loop.rs: the callbacks of
-- Python on a descriptor. The context is given, and `cell` is the flag of the new handle.
pub mod Valid
pub mod Stale
use tokioloop.Base.{ℕ, Bool, false, true, Option, none, some, ◌∷◌}
use tokioloop.Deps.{
  Deps, readable, writable, same_interest, register, reregister, deregister, Removal, absent,
  removed, kept,
}
use tokioloop.Handle.{Handle, cb_handle}
use tokioloop.World.{
  World, IoHandle, py, new_cell, ◌>>=◌, Result, ok, panic, unwrap_none, unreachable_code,
}

module _ (D : Deps) where
  open D use {get, remove_if, update, update_or_insert_with, union}

  add_reader_upsert : ℕ → Handle → World D → Option IoHandle → Result (World D)
  add_reader_upsert fd handle w none =
      let entry = py (record { interest = readable; cbr = some handle; cbw = none }) in
      ok (record w {
        registry = register fd readable ∷ w.registry;
        handles_io = update_or_insert_with fd (λ h. h) entry w.handles_io;
      })
  add_reader_upsert fd handle w (some (py d)) = elim d.cbw [
    | none ↦ panic unwrap_none
    | some kept_handle ↦
        let entry = py (record {
          interest = union d.interest readable;
          cbr = some handle;
          cbw = some kept_handle;
        }) in
        ok (record w {
          registry = reregister fd d.interest ∷ w.registry;
          handles_io = update_or_insert_with fd (λ _. entry) entry w.handles_io;
        })
  ]
  add_reader_upsert fd handle w _ = panic unreachable_code

  unfoldable pub add_reader : ℕ → ℕ → ℕ → ℕ → ℕ → World D → Result (Handle × World D)
  unfolding add_reader_upsert
  add_reader fd callback args context cell w = do
    let handle = cb_handle callback args context cell
    w' ← add_reader_upsert fd handle (new_cell D cell w) (get fd w.handles_io)
    ok (handle, w')

  abbrev pub is_reader : IoHandle → Bool
  is_reader (py d) = same_interest d.interest readable
  is_reader _ = false

  remove_reader_rest : ℕ → World D → Option IoHandle → Result (Bool × World D)
  remove_reader_rest fd w none = ok (true, w)
  remove_reader_rest fd w (some (py d)) = elim d.cbw [
    | none ↦ panic unwrap_none
    | some kept_handle ↦
        let entry = py (record { interest = writable; cbr = none; cbw = some kept_handle }) in
        ok (
          true,
          record w {
            registry = reregister fd writable ∷ w.registry;
            handles_io = update fd (λ _. entry) w.handles_io;
          },
        )
  ]
  remove_reader_rest fd w _ = panic unreachable_code

  remove_reader_removal : ℕ → World D → Removal IoHandle → Result (Bool × World D)
  unfolding remove_reader_rest
  remove_reader_removal fd w absent = ok (false, w)
  remove_reader_removal fd w (removed _) =
      ok (true, record w { registry = deregister fd ∷ w.registry })
  remove_reader_removal fd w (kept _) = remove_reader_rest fd w (get fd w.handles_io)

  unfoldable pub remove_reader : ℕ → World D → Result (Bool × World D)
  unfolding remove_reader_removal
  remove_reader fd w =
      let (removal, handles_io) = remove_if fd is_reader w.handles_io in
      remove_reader_removal fd (record w { handles_io = handles_io }) removal

  add_writer_upsert : ℕ → Handle → World D → Option IoHandle → Result (World D)
  add_writer_upsert fd handle w none =
      let entry = py (record { interest = writable; cbr = none; cbw = some handle }) in
      ok (record w {
        registry = register fd writable ∷ w.registry;
        handles_io = update_or_insert_with fd (λ h. h) entry w.handles_io;
      })
  add_writer_upsert fd handle w (some (py d)) = elim d.cbr [
    | none ↦ panic unwrap_none
    | some kept_handle ↦
        let entry = py (record {
          interest = union d.interest writable;
          cbr = some kept_handle;
          cbw = some handle;
        }) in
        ok (record w {
          registry = reregister fd d.interest ∷ w.registry;
          handles_io = update_or_insert_with fd (λ _. entry) entry w.handles_io;
        })
  ]
  add_writer_upsert fd handle w _ = panic unreachable_code

  unfoldable pub add_writer : ℕ → ℕ → ℕ → ℕ → ℕ → World D → Result (Handle × World D)
  unfolding add_writer_upsert
  add_writer fd callback args context cell w = do
    let handle = cb_handle callback args context cell
    w' ← add_writer_upsert fd handle (new_cell D cell w) (get fd w.handles_io)
    ok (handle, w')

  abbrev pub is_writer : IoHandle → Bool
  is_writer (py d) = same_interest d.interest writable
  is_writer _ = false

  remove_writer_rest : ℕ → World D → Option IoHandle → Result (Bool × World D)
  remove_writer_rest fd w none = ok (true, w)
  remove_writer_rest fd w (some (py d)) = elim d.cbr [
    | none ↦ panic unwrap_none
    | some kept_handle ↦
        let entry = py (record { interest = readable; cbr = some kept_handle; cbw = none }) in
        ok (
          true,
          record w {
            registry = reregister fd readable ∷ w.registry;
            handles_io = update fd (λ _. entry) w.handles_io;
          },
        )
  ]
  remove_writer_rest fd w _ = panic unreachable_code

  remove_writer_removal : ℕ → World D → Removal IoHandle → Result (Bool × World D)
  unfolding remove_writer_rest
  remove_writer_removal fd w absent = ok (false, w)
  remove_writer_removal fd w (removed _) =
      ok (true, record w { registry = deregister fd ∷ w.registry })
  remove_writer_removal fd w (kept _) = remove_writer_rest fd w (get fd w.handles_io)

  unfoldable pub remove_writer : ℕ → World D → Result (Bool × World D)
  unfolding remove_writer_removal
  remove_writer fd w =
      let (removal, handles_io) = remove_if fd is_writer w.handles_io in
      remove_writer_removal fd (record w { handles_io = handles_io }) removal

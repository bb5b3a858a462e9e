-- ===== src/EventLoop/Streams.antt =====
-- tcp_stream_add and tcp_stream_rem of src/event_loop.rs: the interests of a stream in `handles_io` and in the poll's registry. A closure that `papaya` runs on
-- an entry is a function by clauses on the entry, which stands first as `get` gives it.
pub mod Sync
use tokioloop.Base.{ℕ, Bool, false, if◌then◌else◌, Option, none, some, ◌∷◌}
use tokioloop.Deps.{
  Deps, Interest, same_interest, register, reregister, deregister, Removal, absent, removed, kept,
}
use tokioloop.World.{
  World, IoHandle, tcp_stream, Result, ok, panic, unreachable_code, unwrap_none, wake,
}

module _ (D : Deps) where
  open D use {get, remove_if, update, update_or_insert_with, union, subtract}

  tcp_stream_upsert : ℕ → Interest → World D → Option IoHandle → Result (World D)
  unfolding wake
  tcp_stream_upsert fd interest w none = ok (
      wake D (record w {
        registry = register fd interest ∷ w.registry;
        handles_io = update_or_insert_with fd (λ h. h) (tcp_stream interest) w.handles_io;
      }))
  tcp_stream_upsert fd interest w (some (tcp_stream interest_prev)) =
      let interests = union interest_prev interest in
      if same_interest interest_prev interest
      then ok (record w {
        handles_io =
            update_or_insert_with fd (λ _. tcp_stream interest) (tcp_stream interest) w.handles_io;
      })
      else ok (
          wake D (record w {
            registry = reregister fd interests ∷ w.registry;
            handles_io =
                update_or_insert_with fd (λ _. tcp_stream interests) (tcp_stream interest)
                  w.handles_io;
          }))
  tcp_stream_upsert fd interest w _ = panic unreachable_code

  unfoldable pub tcp_stream_add : ℕ → Interest → World D → Result (World D)
  unfolding tcp_stream_upsert
  tcp_stream_add fd interest w = tcp_stream_upsert fd interest w (get fd w.handles_io)

  -- The test of `remove_if`.
  abbrev pub is_tcp_stream : Interest → IoHandle → Bool
  is_tcp_stream interest (tcp_stream interest_ex) = same_interest interest_ex interest
  is_tcp_stream interest _ = false

  tcp_stream_narrow : ℕ → Interest → World D → Option IoHandle → Result (World D)
  tcp_stream_narrow fd interest w none = ok w
  tcp_stream_narrow fd interest w (some (tcp_stream interest_ex)) =
      elim (subtract interest_ex interest) [
        | none ↦ panic unwrap_none
        | some interest_new ↦ ok (record w {
          registry = reregister fd interest_new ∷ w.registry;
          handles_io = update fd (λ _. tcp_stream interest_new) w.handles_io;
        })
      ]
  tcp_stream_narrow fd interest w _ = panic unreachable_code

  tcp_stream_removal : ℕ → Interest → World D → Removal IoHandle → Result (World D)
  unfolding tcp_stream_narrow
  tcp_stream_removal fd interest w absent = ok w
  tcp_stream_removal fd interest w (removed _) =
      ok (record w { registry = deregister fd ∷ w.registry })
  tcp_stream_removal fd interest w (kept _) = tcp_stream_narrow fd interest w (get fd w.handles_io)

  unfoldable pub tcp_stream_rem : ℕ → Interest → World D → Result (World D)
  unfolding tcp_stream_removal
  tcp_stream_rem fd interest w =
      let (removal, handles_io) = remove_if fd (is_tcp_stream interest) w.handles_io in
      tcp_stream_removal fd interest (record w { handles_io = handles_io }) removal

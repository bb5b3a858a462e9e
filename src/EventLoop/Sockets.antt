-- ===== src/EventLoop/Sockets.antt =====
-- udp_socket_add and udp_socket_rem of src/event_loop.rs: the interests of a datagram socket in
-- `handles_io` and in the poll's registry. Unlike those of a stream they do not wake the loop.
pub mod Sync
use tokioloop.Base.{ℕ, Bool, false, if◌then◌else◌, Option, none, some, ◌∷◌}
use tokioloop.Deps.{
  Deps, Interest, same_interest, register, reregister, deregister, Removal, absent, removed, kept,
}
use tokioloop.World.{World, IoHandle, udp_socket, Result, ok, panic, unreachable_code, unwrap_none}

module _ (D : Deps) where
  open D use {get, remove_if, update, update_or_insert_with, union, subtract}

  udp_socket_upsert : ℕ → Interest → World D → Option IoHandle → Result (World D)
  udp_socket_upsert fd interest w none = ok (
      (record w {
        registry = register fd interest ∷ w.registry;
        handles_io = update_or_insert_with fd (λ h. h) (udp_socket interest) w.handles_io;
      }))
  udp_socket_upsert fd interest w (some (udp_socket interest_prev)) =
      let interests = union interest_prev interest in
      if same_interest interest_prev interest
      then ok (record w {
        handles_io =
            update_or_insert_with fd (λ _. udp_socket interest) (udp_socket interest) w.handles_io;
      })
      else ok (
          (record w {
            registry = reregister fd interests ∷ w.registry;
            handles_io =
                update_or_insert_with fd (λ _. udp_socket interests) (udp_socket interest)
                  w.handles_io;
          }))
  udp_socket_upsert fd interest w _ = panic unreachable_code

  unfoldable pub udp_socket_add : ℕ → Interest → World D → Result (World D)
  unfolding udp_socket_upsert
  udp_socket_add fd interest w = udp_socket_upsert fd interest w (get fd w.handles_io)

  -- The test of `remove_if`.
  abbrev pub is_udp_socket : Interest → IoHandle → Bool
  is_udp_socket interest (udp_socket interest_ex) = same_interest interest_ex interest
  is_udp_socket interest _ = false

  udp_socket_narrow : ℕ → Interest → World D → Option IoHandle → Result (World D)
  udp_socket_narrow fd interest w none = ok w
  udp_socket_narrow fd interest w (some (udp_socket interest_ex)) =
      elim (subtract interest_ex interest) [
        | none ↦ panic unwrap_none
        | some interest_new ↦ ok (record w {
          registry = reregister fd interest_new ∷ w.registry;
          handles_io = update fd (λ _. udp_socket interest_new) w.handles_io;
        })
      ]
  udp_socket_narrow fd interest w _ = panic unreachable_code

  udp_socket_removal : ℕ → Interest → World D → Removal IoHandle → Result (World D)
  unfolding udp_socket_narrow
  udp_socket_removal fd interest w absent = ok w
  udp_socket_removal fd interest w (removed _) =
      ok (record w { registry = deregister fd ∷ w.registry })
  udp_socket_removal fd interest w (kept _) = udp_socket_narrow fd interest w (get fd w.handles_io)

  unfoldable pub udp_socket_rem : ℕ → Interest → World D → Result (World D)
  unfolding udp_socket_removal
  udp_socket_rem fd interest w =
      let (removal, handles_io) = remove_if fd (is_udp_socket interest) w.handles_io in
      udp_socket_removal fd interest (record w { handles_io = handles_io }) removal

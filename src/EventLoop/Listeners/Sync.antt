-- ===== src/EventLoop/Listeners/Sync.antt =====
-- Opening and closing a listener or the signal socket of src/event_loop.rs.
use tokioloop.Base.{ℕ, ==_refl, true, none, some, ◌≡◌, refl, arith}
use tokioloop.Deps.{Deps}
use tokioloop.World.{World, signals, tcp_listener, Returns}
use tokioloop.EventLoop.Watch.{IsSynced}
use tokioloop.EventLoop.Listeners.{
  tcp_listener_add, tcp_listener_rem, tcp_listener_removed, ssock_set, ssock_del, ssock_removed,
}

module _ (D : Deps) where
  open D use {get, insert, remove, empty, get-insert, get-remove}

  -- The tables of `w'` have the entries of those of `w`.
  pub record Restores (w w' : World D) : Type 0 where
    pub handles : (j : ℕ) → get j w'.handles_io ≡ get j w.handles_io
    pub streams : (j : ℕ) → get j w'.tcp_lstreams ≡ get j w.tcp_lstreams
    pub synced : IsSynced D w → IsSynced D w'

  -- A listener that is added at a free descriptor and removed again, with the registry's consent,
  -- leaves no trace in the tables, agreement with the poll included, and the answer is that it was there.
  tcp_listener_rem-add :
      (fd server : ℕ) (w : World D)
      → get fd w.handles_io ≡ none
      → get fd w.tcp_lstreams ≡ none
      → Returns
          (tcp_listener_rem D fd true (tcp_listener_add D fd server w))
          λ (answer, w'). (answer ≡ some true) × Restores w w'
  unfolding tcp_listener_rem tcp_listener_add
  tcp_listener_rem-add fd server w e s =
      let there = get-insert fd fd (tcp_listener server) w.handles_io in
      rw (there, tcp_listener_removed)
        (rw (==_refl fd) (
          refl,
          record {
            handles = λ j. ground (
              arith,
              get-remove j fd (insert fd (tcp_listener server) w.handles_io),
              get-insert j fd (tcp_listener server) w.handles_io,
            );
            streams = λ j. ground (
              arith,
              get-remove j fd (insert fd empty w.tcp_lstreams),
              get-insert j fd empty w.tcp_lstreams,
            );
            synced = λ h j. ground (
              arith,
              h j,
              get-remove j fd (insert fd (tcp_listener server) w.handles_io),
              get-insert j fd (tcp_listener server) w.handles_io,
            );
          },
        ))

  -- The signal socket, set at a free descriptor and deleted again with the registry's consent, leaves
  -- the tables as they were, agreement with the poll included, and no socket.
  ssock_del-set :
      (fd_r fd_w : ℕ) (w : World D)
      → get fd_r w.handles_io ≡ none
      → let (answer, w') = ssock_del D fd_r true (ssock_set D fd_r fd_w true w).1 in
        (answer ≡ true) × (w'.ssock ≡ none) × Restores w w'
  unfolding ssock_del ssock_set
  ssock_del-set fd_r fd_w w e =
      let there = get-insert fd_r fd_r signals w.handles_io in
      rw (there, ssock_removed)
        (rw (==_refl fd_r) (
          refl,
          refl,
          record {
            handles = λ j. ground (
              arith,
              get-remove j fd_r (insert fd_r signals w.handles_io),
              get-insert j fd_r signals w.handles_io,
            );
            streams = λ j. refl;
            synced = λ h j. ground (
              arith,
              h j,
              get-remove j fd_r (insert fd_r signals w.handles_io),
              get-insert j fd_r signals w.handles_io,
            );
          },
        ))

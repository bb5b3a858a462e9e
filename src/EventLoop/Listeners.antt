-- ===== src/EventLoop/Listeners.antt =====
-- tcp_listener_add, tcp_listener_rem, _ssock_set and _ssock_del of src/event_loop.rs: the descriptors that
-- are neither a stream nor a callback of Python. Where an error of the registry is passed on, the
-- registry's answer is given.
pub mod Sync
use tokioloop.Base.{
  ℕ, ◌+◌, ◌-◌, ◌%◌, ◌^◌, ◌==◌, ==_refl, ltb, leb, if◌then◌else◌, Bool, false, true, ◌&&◌, ◌||◌, not,
  Option, none, some, List, [], ◌∷◌, ◌++◌, length, ◌≡◌, ◌≢◌, ◌⊎◌, refl, ap, arith, Bool-cases,
  Option-cases, inl, inr,
}
use tokioloop.Deps.{
  Deps, Interest, readable, writable, both, is_readable, is_writable, same_interest, reads, writes,
  RegistryCall, register, reregister, deregister, Removal, absent, removed, kept,
}
use tokioloop.Handle.{
  Handle, cb_handle, cb_handle_one_arg, no_op_handle, tcp_read_handle, tcp_write_handle,
  udp_read_handle, udp_write_handle, cancelled, Timer,
}
use tokioloop.World.{
  World, TcpTransport, UdpTransport, TcpServerRef, PyHandleData, IoHandle, py, signals,
  tcp_listener, tcp_stream, udp_socket, Fault, Effect, Returns, wake, Result, ok, panic,
  unwrap_none, unreachable_code, already_borrowed, slice_range, new_cell, set_tcp, set_udp, emit,
  store, ◌>>=◌,
}

module _ (D : Deps) where
  open D use {get, insert, remove, empty}

  -- `server` is the server's reference.
  unfoldable pub tcp_listener_add : ℕ → ℕ → World D → World D
  tcp_listener_add fd server w = record w {
    registry = register fd readable ∷ w.registry;
    tcp_lstreams = insert fd empty w.tcp_lstreams;
    handles_io = insert fd (tcp_listener server) w.handles_io;
  }

  tcp_listener_removed : ℕ → Bool → World D → Option IoHandle → Result (Option Bool × World D)
  tcp_listener_removed fd accepted w none = ok (some false, w)
  tcp_listener_removed fd accepted w (some (tcp_listener _)) =
      let w' = record w {
        tcp_lstreams = remove fd w.tcp_lstreams;
        registry = if accepted then deregister fd ∷ w.registry else w.registry;
      } in
      ok (if accepted then some true else none, w')
  tcp_listener_removed fd accepted w _ = panic unreachable_code

  -- The answer is `none` where `deregister` fails.
  unfoldable pub tcp_listener_rem : ℕ → Bool → World D → Result (Option Bool × World D)
  unfolding tcp_listener_removed
  tcp_listener_rem fd accepted w =
      tcp_listener_removed fd accepted (record w { handles_io = remove fd w.handles_io })
        (get fd w.handles_io)

  -- The answer is whether `register` accepts the descriptor; `ssock` is set in any case.
  unfoldable pub ssock_set : ℕ → ℕ → Bool → World D → Bool × World D
  ssock_set fd_r fd_w accepted w =
      let w' = record w { ssock = some (fd_r, fd_w) } in
      if accepted
      then (
        true,
        record w' {
          registry = register fd_r readable ∷ w.registry;
          handles_io = insert fd_r signals w.handles_io;
        },
      )
      else (false, w')

  ssock_removed : ℕ → Bool → World D → Option IoHandle → Bool × World D
  ssock_removed fd_r accepted w (some signals) =
      if accepted
      then (true, record w { registry = deregister fd_r ∷ w.registry; ssock = none })
      else (false, w)
  ssock_removed fd_r accepted w _ = (true, record w { ssock = none })

  unfoldable pub ssock_del : ℕ → Bool → World D → Bool × World D
  unfolding ssock_removed
  ssock_del fd_r accepted w =
      ssock_removed fd_r accepted (record w { handles_io = remove fd_r w.handles_io })
        (get fd_r w.handles_io)

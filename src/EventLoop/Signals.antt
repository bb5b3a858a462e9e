-- ===== src/EventLoop/Signals.antt =====
-- The signals of src/event_loop.rs: _sig_add, _sig_rem, _sig_clear, read_from_sock, sig_handle and
-- handle_io_signals. What a read of the socket gives is an input; a list of handles grows at its end.
pub mod Delivery
use tokioloop.Base.{
  ℕ, ◌+◌, ◌-◌, ◌%◌, ◌^◌, ◌==◌, ==_refl, ltb, leb, if◌then◌else◌, Bool, false, true, ◌&&◌, ◌||◌, not,
  Option, none, some, List, [], ◌∷◌, ◌++◌, length, ◌≡◌, ◌≢◌, ◌⊎◌, refl, ap, arith, Bool-cases,
  Option-cases, inl, inr,
}
use tokioloop.Deps.{
  Deps, Interest, readable, writable, both, is_readable, is_writable, same_interest, reads, writes,
  RegistryCall, register, reregister, deregister, Removal, absent, removed, kept,
}
use tokioloop.Handle.{
  Handle, cb_handle, cb_handle_one_arg, no_op_handle, tcp_read_handle, tcp_write_handle,
  udp_read_handle, udp_write_handle, cancelled, Timer,
}
use tokioloop.World.{
  World, TcpTransport, UdpTransport, TcpServerRef, PyHandleData, IoHandle, py, signals,
  tcp_listener, tcp_stream, udp_socket, Fault, Effect, connection_made, connection_lost,
  pause_writing, resume_writing, data_received, eof_received, sent, tls_written, shutdown_write,
  Returns, wake, Result, ok, panic, starved, unwrap_none, unreachable_code, already_borrowed,
  slice_range, new_cell, set_tcp, set_udp, emit, store, ◌>>=◌,
}

pub data ReadResult : Type 0 where
  read_bytes : List ℕ → ReadResult
  read_interrupted : ReadResult
  read_failed : ReadResult

-- The loop of `read_from_sock`, over the answers of the socket; `none` if they run out.
unfoldable pub read_from_sock : List ReadResult → Option (List ℕ)
read_from_sock [] = none
read_from_sock (read_bytes [] ∷ rs) = some []
read_from_sock (read_bytes (b ∷ bs) ∷ rs) = elim (read_from_sock rs) [
  | none ↦ none
  | some more ↦ some ((b ∷ bs) ++ more)
]
read_from_sock (read_interrupted ∷ rs) = read_from_sock rs
read_from_sock (read_failed ∷ rs) = some []

module _ (D : Deps) where
  open D use {get, insert, remove, clear}

  unfoldable pub sig_add : ℕ → ℕ → ℕ → ℕ → ℕ → World D → World D
  sig_add sig callback args context cell w =
      let handle = cb_handle callback args context cell in
      let w' = new_cell D cell w in record w' { sig_handlers = insert sig handle w.sig_handlers }

  abbrev pub is_set : Option Handle → Bool
  is_set none = false
  is_set (some _) = true

  unfoldable pub sig_rem : ℕ → World D → Bool × World D
  sig_rem sig w =
      (is_set (get sig w.sig_handlers), record w { sig_handlers = remove sig w.sig_handlers })

  unfoldable pub sig_clear : World D → World D
  sig_clear w = record w { sig_handlers = clear w.sig_handlers }

  unfoldable pub sig_found : ℕ → World D → List Handle → Option Handle → World D × List Handle
  unfolding sig_rem
  sig_found sig w handles_ready none = (w, handles_ready)
  sig_found sig w handles_ready (some handle) =
      let w' = record w { sig_loop_handled = true } in
      if cancelled w.flags handle
      then ((sig_rem sig w').1, handles_ready)
      else (w', handles_ready ++ (handle ∷ []))

  unfoldable pub sig_handle : ℕ → World D → List Handle → World D × List Handle
  unfolding sig_found
  sig_handle sig w handles_ready = sig_found sig w handles_ready (get sig w.sig_handlers)

  unfoldable pub sig_handle_all : List ℕ → World D → List Handle → World D × List Handle
  sig_handle_all [] w handles_ready = (w, handles_ready)
  sig_handle_all (sig ∷ sigs) w handles_ready =
      let next = sig_handle sig w handles_ready in sig_handle_all sigs next.0 next.1

  abbrev pub is_nonempty : List ℕ → Bool
  is_nonempty [] = false
  is_nonempty (_ ∷ _) = true

  unfoldable pub signals_read :
      Option (List ℕ) → World D → List Handle → Result (World D × List Handle)
  signals_read none w handles_ready = starved
  signals_read (some sigs) w handles_ready =
      if is_nonempty sigs && w.sig_listening
      then ok (sig_handle_all sigs w handles_ready)
      else ok (w, handles_ready)

  unfoldable pub signals_from :
      Option (ℕ × ℕ) → List ReadResult → World D → List Handle → Result (World D × List Handle)
  unfolding signals_read
  signals_from none answers w handles_ready = ok (w, handles_ready)
  signals_from (some _) answers w handles_ready =
      signals_read (read_from_sock answers) w handles_ready

  unfoldable pub handle_io_signals :
      List ReadResult → World D → List Handle → Result (World D × List Handle)
  unfolding signals_from
  handle_io_signals answers w handles_ready = signals_from w.ssock answers w handles_ready

-- ===== src/Tokio/Watch.antt =====
-- `io_callbacks` of src/tokio_event_loop.rs: add_reader, add_writer, remove_reader, remove_writer and
-- _tcp_stream_bound.
pub mod Entry
use tokioloop.Base.{ℕ, Bool, true, false, ◌||◌, Option, none, some}
use tokioloop.Deps.{TokioDeps}
use tokioloop.Tokio.Handle.{THandle, tcb_handle}
use tokioloop.Tokio.Loop.{TokioLoop, Callbacks, or_else, new_cell, schedule_handle, answer}

abbrev pub is_set : Option THandle → Bool
is_set none = false
is_set (some _) = true

module _ (T : TokioDeps) where
  open T use {get, insert, remove}

  -- A handle of its own is returned, with the flag `cell'`; the one that is stored and scheduled has the
  -- flag `cell`. `ctx` is the copy of the current context.
  unfoldable pub add_reader :
      ℕ → ℕ → ℕ → Option ℕ → ℕ → ℕ → ℕ → ℕ → TokioLoop T → Option THandle × TokioLoop T
  unfolding schedule_handle
  add_reader fd callback args context ctx cell cell' now l =
      let c = or_else context ctx in
      let handle = tcb_handle callback args c cell in
      let l1 = new_cell T cell' (new_cell T cell l) in
      answer T (tcb_handle callback args c cell') (
        schedule_handle T handle none now
          (record l1 { io_callbacks = insert fd (some handle, none, c) l.io_callbacks }))

  unfoldable pub add_writer :
      ℕ → ℕ → ℕ → Option ℕ → ℕ → ℕ → ℕ → ℕ → TokioLoop T → Option THandle × TokioLoop T
  unfolding schedule_handle
  add_writer fd callback args context ctx cell cell' now l =
      let c = or_else context ctx in
      let handle = tcb_handle callback args c cell in
      let l1 = new_cell T cell' (new_cell T cell l) in
      answer T (tcb_handle callback args c cell') (
        schedule_handle T handle none now
          (record l1 { io_callbacks = insert fd (none, some handle, c) l.io_callbacks }))

  -- Whether an entry has a reader, a writer, or either.
  abbrev pub reader_of : Option Callbacks → Bool
  reader_of none = false
  reader_of (some (reader, writer, c)) = is_set reader

  abbrev pub writer_of : Option Callbacks → Bool
  writer_of none = false
  writer_of (some (reader, writer, c)) = is_set writer

  unfoldable pub remove_reader : ℕ → TokioLoop T → Bool × TokioLoop T
  remove_reader fd l =
      (reader_of (get fd l.io_callbacks), record l { io_callbacks = remove fd l.io_callbacks })

  unfoldable pub remove_writer : ℕ → TokioLoop T → Bool × TokioLoop T
  remove_writer fd l =
      (writer_of (get fd l.io_callbacks), record l { io_callbacks = remove fd l.io_callbacks })

  unfoldable pub tcp_stream_bound : ℕ → TokioLoop T → Bool
  tcp_stream_bound fd l = reader_of (get fd l.io_callbacks) || writer_of (get fd l.io_callbacks)

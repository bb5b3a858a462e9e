-- ===== src/Tokio/Watch/Entry.antt =====
-- What the entries of `io_callbacks` of src/tokio_event_loop.rs keep.
use tokioloop.Base.{
  ℕ, ◌==◌, Bool, true, false, ◌||◌, Option, none, some, ◌≡◌, refl, ap, ◌∙◌, arith, Bool-cases, inl,
  inr,
}
use tokioloop.Deps.{TokioDeps}
use tokioloop.Tokio.Handle.{THandle, tcb_handle}
use tokioloop.Tokio.Loop.{TokioLoop, Callbacks, schedule_handle, or_else, new_cell}
use tokioloop.Tokio.Watch.{
  add_reader, add_writer, remove_reader, remove_writer, tcp_stream_bound, reader_of, writer_of,
}

module _ (T : TokioDeps) where
  open T use {get, get-insert, get-remove}

  -- At `fd` there is a reader or not, and a writer or not; the entries elsewhere are those of `l`.
  pub record Watches (fd : ℕ) (reader writer : Bool) (l m : TokioLoop T) : Type 0 where
    pub read : (remove_reader T fd m).0 ≡ reader
    pub write : (remove_writer T fd m).0 ≡ writer
    pub bound : tcp_stream_bound T fd m ≡ (reader || writer)
    pub others : (j : ℕ) → (fd == j) ≡ false → get j m.io_callbacks ≡ get j l.io_callbacks

  schedule_handle-callbacks :
      (h : THandle) (delay : Option ℕ) (now : ℕ) (l : TokioLoop T)
      → (schedule_handle T h delay now l).1.io_callbacks ≡ l.io_callbacks
  unfolding schedule_handle
  schedule_handle-callbacks h delay now l = elim (Bool-cases (l.stopping || l.closed)) [
    | inl over ↦ rw over refl
    | inr on ↦ rw on refl
  ]

  -- What an entry that is written over the one at `fd` makes of it.
  inserted-Watches :
      (fd : ℕ) (e : Callbacks) (l m : TokioLoop T)
      → m.io_callbacks ≡ T.insert fd e l.io_callbacks
      → Watches fd (reader_of T (some e)) (writer_of T (some e)) l m
  unfolding remove_reader remove_writer tcp_stream_bound
  inserted-Watches fd e l m same =
      let here : get fd m.io_callbacks ≡ some e =
        ground (arith, same, get-insert fd fd e l.io_callbacks) in
      record {
        read = ap (reader_of T) here;
        write = ap (writer_of T) here;
        bound = ap (λ (o : Option Callbacks). reader_of T o || writer_of T o) here;
        others = λ j n. ap (get j) same ∙ get-insert j fd e l.io_callbacks ∙ rw n refl;
      }

  -- `remove_reader` and `remove_writer` take the whole entry.
  removed-Watches :
      (fd : ℕ) (l : TokioLoop T)
      → Watches fd false false l (remove_reader T fd l).1
        × Watches fd false false l (remove_writer T fd l).1
  unfolding remove_reader remove_writer tcp_stream_bound
  removed-Watches fd l =
      let here : get fd (T.remove fd l.io_callbacks) ≡ none =
        ground (arith, get-remove fd fd l.io_callbacks) in
      let gone : Watches fd false false l (record l { io_callbacks = T.remove fd l.io_callbacks }) =
        record {
          read = ap (reader_of T) here;
          write = ap (writer_of T) here;
          bound = ap (λ (o : Option Callbacks). reader_of T o || writer_of T o) here;
          others = λ j n. get-remove j fd l.io_callbacks ∙ rw n refl;
        } in
      (gone, gone)

  module _ (fd callback args : ℕ) (context : Option ℕ) (ctx cell cell' now : ℕ)
      (l : TokioLoop T) where
    abbrev pub reads_at : TokioLoop T
    reads_at = (add_reader T fd callback args context ctx cell cell' now l).1

    abbrev pub writes_at : TokioLoop T
    writes_at = (add_writer T fd callback args context ctx cell cell' now l).1

    -- Whatever was watched at a descriptor: after `add_reader` it has a reader and no writer, after
    -- `add_writer` a writer and no reader. `remove_reader` says whether there is a reader,
    -- `remove_writer` whether there is a writer, and `_tcp_stream_bound` whether there is either;
    -- either removal leaves neither. No other descriptor's entry changes.
    pub add-Watches :
        Watches fd true false l reads_at
        × Watches fd false true l writes_at
        × Watches fd false false l (remove_reader T fd l).1
        × Watches fd false false l (remove_writer T fd l).1
    unfolding add_reader add_writer schedule_handle
    add-Watches =
        let c = or_else context ctx in
        let h = tcb_handle callback args c cell in
        let l1 = new_cell T cell' (new_cell T cell l) in
        let base : Callbacks → TokioLoop T =
          λ e. record l1 { io_callbacks = T.insert fd e l.io_callbacks } in
        let gone = removed-Watches fd l in
        (
          inserted-Watches fd (some h, none, c) l reads_at
              (schedule_handle-callbacks h none now (base (some h, none, c))),
          inserted-Watches fd (none, some h, c) l writes_at
              (schedule_handle-callbacks h none now (base (none, some h, c))),
          gone.0,
          gone.1,
        )

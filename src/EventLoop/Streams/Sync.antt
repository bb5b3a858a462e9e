-- ===== src/EventLoop/Streams/Sync.antt =====
-- The interests of the TCP streams in src/event_loop.rs against those of the poll.
use tokioloop.Base.{
  ℕ, true, Option, none, some, ◌≡◌, ◌≢◌, refl, arith, Bool-cases, Option-cases, inl, inr,
}
use tokioloop.Deps.{Deps, Interest, both, same_interest}
use tokioloop.World.{World, IoHandle, tcp_stream, Returns, wake}
use tokioloop.EventLoop.Watch.{is_stream_entry, Adds, Takes}
use tokioloop.EventLoop.Streams.{
  tcp_stream_upsert, tcp_stream_add, tcp_stream_rem, tcp_stream_narrow, is_tcp_stream,
}

module _ (D : Deps) where
  open D use {
    get, remove_if, get-remove_if, remove_if-result, get-update, get-update_or_insert_with, union,
    subtract, readable-union, writable-union, readable-subtract, writable-subtract,
  }

  tcp_stream_upsert-Adds :
      (fd : ℕ) (i : Interest) (w : World D) (e : Option IoHandle)
      → get fd w.handles_io ≡ e
      → is_stream_entry e ≡ true
      → Returns (tcp_stream_upsert D fd i w e) (Adds D fd i w)
  unfolding tcp_stream_upsert wake
  tcp_stream_upsert-Adds fd i w none e s = record {
    read = ground (arith, get-update_or_insert_with fd fd (λ h. h) (tcp_stream i) w.handles_io);
    write = ground (arith, get-update_or_insert_with fd fd (λ h. h) (tcp_stream i) w.handles_io);
    others =
        λ j n. ground (arith, get-update_or_insert_with j fd (λ h. h) (tcp_stream i) w.handles_io);
    synced = λ h j.
        ground (arith, h j, get-update_or_insert_with j fd (λ h. h) (tcp_stream i) w.handles_io);
    rest = ground arith;
  }
  tcp_stream_upsert-Adds fd i w (some (tcp_stream p)) e s = elim (Bool-cases (same_interest p i)) [
    | inl same ↦
        let law = λ (j : ℕ).
          get-update_or_insert_with j fd (λ _. tcp_stream i) (tcp_stream i) w.handles_io in
        rw (same, tcp_stream_upsert)
          (record {
            read = ground (arith, law fd);
            write = ground (arith, law fd);
            others = λ j n. ground (arith, law j);
            synced = λ h j. ground (arith, h j, law j);
            rest = ground arith;
          })
    | inr new ↦
        let law = λ (j : ℕ).
          get-update_or_insert_with j fd (λ _. tcp_stream (union p i)) (tcp_stream i)
            w.handles_io in
        rw (new, tcp_stream_upsert)
          (record {
            read = ground (arith, law fd, readable-union p i);
            write = ground (arith, law fd, writable-union p i);
            others = λ j n. ground (arith, law j);
            synced = λ h j. ground (arith, h j, law j);
            rest = ground arith;
          })
  ]
  tcp_stream_upsert-Adds fd i w _ e s = ground arith

  -- At a descriptor that has no entry or a stream's, `tcp_stream_add` returns; it adds the interest
  -- to what is watched there, leaves every other entry alone, and keeps the table and the poll's
  -- registry in agreement.
  pub tcp_stream_add-Adds :
      (fd : ℕ) (i : Interest) (w : World D)
      → is_stream_entry (get fd w.handles_io) ≡ true
      → Returns (tcp_stream_add D fd i w) (Adds D fd i w)
  unfolding tcp_stream_add
  tcp_stream_add-Adds fd i w s = tcp_stream_upsert-Adds fd i w (get fd w.handles_io) refl s

  tcp_stream_rem_entry-Takes :
      (fd : ℕ) (i : Interest) (w : World D) (e : Option IoHandle)
      → get fd w.handles_io ≡ e
      → is_stream_entry e ≡ true
      → i ≢ both
      → Returns (tcp_stream_rem D fd i w) (Takes D fd i w)
  unfolding tcp_stream_rem
  tcp_stream_rem_entry-Takes fd i w none e s single =
      let law = λ (j : ℕ). get-remove_if j fd (is_tcp_stream D i) w.handles_io in
      rw (remove_if-result fd (is_tcp_stream D i) w.handles_io, e)
        (record {
          read = ground (arith, law fd);
          write = ground (arith, law fd);
          others = λ j n. ground (arith, law j);
          synced = λ h j. ground (arith, h j, law j);
          streams = λ h. ground (arith, h, law fd);
          sockets = λ h. ground (arith, h, law fd);
          rest = ground arith;
        })
  tcp_stream_rem_entry-Takes fd i w (some (tcp_stream p)) e s single =
      let rest = (remove_if fd (is_tcp_stream D i) w.handles_io).1 in
      let gone = λ (j : ℕ). get-remove_if j fd (is_tcp_stream D i) w.handles_io in
      elim (Bool-cases (same_interest p i)) [
        | inl same ↦
            rw (remove_if-result fd (is_tcp_stream D i) w.handles_io, e)
              (rw same (record {
                read = ground (arith, gone fd);
                write = ground (arith, gone fd);
                others = λ j n. ground (arith, gone j);
                synced = λ h j. ground (arith, h j, gone j);
                streams = λ h. ground (arith, h, gone fd);
                sockets = λ h. ground (arith, h, gone fd);
                rest = ground arith;
              }))
        | inr new ↦ elim (Option-cases (subtract p i)) [
          | inl void ↦ absurd (ground (arith, readable-subtract p i, writable-subtract p i))
          | inr (left, some_left) ↦
              let law = λ (j : ℕ). get-update j fd (λ _. tcp_stream left) rest in
              let entry : get fd rest ≡ some (tcp_stream p) = ground (arith, gone fd) in
              rw (remove_if-result fd (is_tcp_stream D i) w.handles_io, e)
                (rw new (
                  rw (entry, tcp_stream_narrow)
                    (rw some_left (record {
                      read = ground (arith, law fd, readable-subtract p i);
                      write = ground (arith, law fd, writable-subtract p i);
                      others = λ j n. ground (arith, law j, gone j);
                      synced = λ h j. ground (arith, h j, law j, gone j);
                      streams = λ h. ground (arith, h, law fd, gone fd);
                      sockets = λ h. ground (arith, h, law fd, gone fd);
                      rest = ground arith;
                    }))))
        ]
      ]
  tcp_stream_rem_entry-Takes fd i w _ e s single = ground arith

  -- At a descriptor that has no entry or a stream's, for a single interest, `tcp_stream_rem` returns; it
  -- takes the interest from what is watched there, leaves a stream's entry or none there and every
  -- other entry alone, and keeps the table and the poll's registry in agreement.
  pub tcp_stream_rem-Takes :
      (fd : ℕ) (i : Interest) (w : World D)
      → is_stream_entry (get fd w.handles_io) ≡ true
      → i ≢ both
      → Returns (tcp_stream_rem D fd i w) (Takes D fd i w)
  tcp_stream_rem-Takes fd i w s single =
      tcp_stream_rem_entry-Takes fd i w (get fd w.handles_io) refl s single

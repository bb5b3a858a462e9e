-- ===== src/Tokio/Run/Interrupt.antt =====
-- How a signal stops the loop of src/tokio_event_loop.rs: from the socket through the task that reads it and
-- the channel to the task of `_run`.
use tokioloop.Base.{
  ℕ, zero, suc, ◌==◌, Bool, true, false, ◌||◌, not, some, List, [], ◌∷◌, ◌++◌, append_assoc,
  append-nil, length, ◌≡◌, refl, ap, ◌∙◌, sym, subst, Bool-cases, inl, inr,
}
use tokioloop.Deps.{TokioDeps}
use tokioloop.Deps.Channel.{head?, tail}
use tokioloop.Tokio.Loop.{TokioLoop}
use tokioloop.Tokio.Signals.{
  got, Checked, fine, minor, critical, Progress, reading, send_signals, take_answer, read_round,
  check,
}
use tokioloop.Tokio.Run.{
  Running, Outcome, waits, goes_on, leaves, Python, signalled, select, turn, take_signal,
  receive_signal, check_stop,
}
use tokioloop.Tokio.Run.Stop.{next}

-- SIGINT and SIGTERM.
abbrev pub is_final : ℕ → Bool
is_final sig = sig == 2 || sig == 15

abbrev pub AreQuiet : List ℕ → Type 0
AreQuiet [] = Unit {0}
AreQuiet (q ∷ qs) = (is_final q ≡ false) × AreQuiet qs

module _ (T : TokioDeps) where
  -- The bytes are in the channel, behind what was there, and the task that reads goes on.
  record Sent (bs : List ℕ) (l : TokioLoop T) (r : Progress × TokioLoop T) : Type 0 where
    on : r.0 ≡ reading
    queued :
        T.async_channel.messages r.1.signal_socket ≡ T.async_channel.messages l.signal_socket ++ bs
    listening : r.1.sig_listening ≡ l.sig_listening
    opened : T.async_channel.is_closed r.1.signal_socket ≡ false

  send_signals-Sent :
      (bs : List ℕ) (l : TokioLoop T)
      → T.async_channel.is_closed l.signal_socket ≡ false
      → Sent bs l (send_signals T bs l)
  unfolding send_signals
  send_signals-Sent [] l o = record {
    on = refl;
    queued = sym (append-nil (T.async_channel.messages l.signal_socket));
    listening = refl;
    opened = o;
  }
  send_signals-Sent (b ∷ bs) l o =
      let sent = T.async_channel.send b l.signal_socket in
      let l1 : TokioLoop T = record l { signal_socket = sent.1 } in
      let k = send_signals-Sent bs l1 (T.async_channel.is_closed-send b l.signal_socket ∙ o) in
      let took : sent.0 ≡ true = T.async_channel.send_answer b l.signal_socket ∙ ap not o in
      rw (took, send_signals)
        (record {
          on = k.on;
          queued =
              k.queued
              ∙ ap (λ (m : List ℕ). m ++ bs) (T.async_channel.messages-send b l.signal_socket o)
              ∙ append_assoc (T.async_channel.messages l.signal_socket) (b ∷ []) bs;
          listening = k.listening;
          opened = k.opened;
        })

  check-signal_socket :
      (c : Checked) (l : TokioLoop T)
      → ((check T c l).signal_socket ≡ l.signal_socket)
        × ((check T c l).sig_listening ≡ l.sig_listening)
  check-signal_socket fine l = (refl, refl)
  check-signal_socket minor l = (refl, refl)
  check-signal_socket critical l = (refl, refl)

  -- Bytes that the task has read from the socket are in the channel, whatever `check_signals` answers.
  read_round-Sent :
      (x : ℕ) (xs : List ℕ) (c : Checked) (l : TokioLoop T)
      → l.sig_listening ≡ true
      → T.async_channel.is_closed l.signal_socket ≡ false
      → Sent (x ∷ xs) l (read_round T (got (x ∷ xs) c) l)
  unfolding read_round take_answer
  read_round-Sent x xs c l on o =
      let (same, still) = check-signal_socket c l in
      let k = send_signals-Sent (x ∷ xs) (check T c l) (ap T.async_channel.is_closed same ∙ o) in
      simp on (record {
        on = k.on;
        queued =
            k.queued
            ∙ ap (λ (ch : T.async_channel.Chan ℕ). T.async_channel.messages ch ++ (x ∷ xs)) same;
        listening = k.listening ∙ still;
        opened = k.opened;
      })

  -- So many turns in a row in which a signal is received.
  unfoldable pub run_signals : ℕ → Python T → Running T → Outcome T
  run_signals zero python s = goes_on s
  run_signals (suc n) python s = next T (turn T python signalled s) (run_signals n python)

  -- The task has left, and the loop is stopping.
  abbrev pub Stops : Outcome T → Type 0
  Stops waits = ⊥
  Stops (goes_on s) = ⊥
  Stops (leaves s) = s.loop.stopping ≡ true

  turn-signalled :
      (python : Python T) (q : ℕ) (s : Running T)
      → s.loop.sig_listening ≡ true
      → (T.async_channel.recv s.loop.signal_socket).0 ≡ some q
      → turn T python signalled s
        ≡ check_stop T (
            goes_on (record s {
              loop =
                  take_signal T q (record s.loop {
                    signal_socket = (T.async_channel.recv s.loop.signal_socket).1;
                  });
            }))
  unfolding turn select receive_signal
  turn-signalled python q s on e = rw e (simp on refl)

  -- The state with the first signal taken off.
  abbrev after_signal : Running T → Running T
  after_signal s = record s {
    loop = record s.loop { signal_socket = (T.async_channel.recv s.loop.signal_socket).1 };
  }

  check_stop-leaves : (s : Running T) → s.loop.stopping ≡ true → check_stop T (goes_on s) ≡ leaves s
  check_stop-leaves s h = simp h refl

  check_stop-goes_on :
      (s : Running T) → s.loop.stopping ≡ false → check_stop T (goes_on s) ≡ goes_on s
  check_stop-goes_on s h = simp h refl

  turn-quiet :
      (python : Python T) (q : ℕ) (s : Running T)
      → s.loop.sig_listening ≡ true
      → (T.async_channel.recv s.loop.signal_socket).0 ≡ some q
      → is_final q ≡ false
      → turn T python signalled s ≡ check_stop T (goes_on (after_signal s))
  unfolding take_signal
  turn-quiet python q s on e quiet = rw (turn-signalled python q s on e) (rw quiet refl)

  run_signals-Stops :
      (python : Python T) (qs : List ℕ) (b : ℕ) (rest : List ℕ) (s : Running T)
      → s.loop.sig_listening ≡ true
      → T.async_channel.messages s.loop.signal_socket ≡ qs ++ (b ∷ rest)
      → AreQuiet qs
      → is_final b ≡ true
      → Stops (run_signals (length (b ∷ qs)) python s)
  unfolding run_signals take_signal
  run_signals-Stops python [] b rest s on e quiet final =
      let first = T.async_channel.recv_head s.loop.signal_socket ∙ ap head? e in
      rw (turn-signalled python b s on first) (rw final refl)
  run_signals-Stops python (q ∷ qs) b rest s on e quiet final =
      let first = T.async_channel.recv_head s.loop.signal_socket ∙ ap head? e in
      let left = T.async_channel.messages-recv s.loop.signal_socket ∙ ap tail e in
      elim (Bool-cases s.loop.stopping) [
        | inl stopping ↦
            let over =
              turn-quiet python q s on first quiet.0
              ∙ check_stop-leaves (after_signal s) stopping in
            subst (λ (o : Outcome T). Stops (next T o (run_signals (length (b ∷ qs)) python)))
              (sym over) stopping
        | inr goes ↦
            let more =
              turn-quiet python q s on first quiet.0 ∙ check_stop-goes_on (after_signal s) goes in
            subst (λ (o : Outcome T). Stops (next T o (run_signals (length (b ∷ qs)) python)))
              (sym more) (run_signals-Stops python qs b rest (after_signal s) on left quiet.1 final)
      ]

  -- A termination signal stops a loop that listens for signals and whose channel for them is open. The task
  -- that reads the socket gets bytes, whatever `check_signals` answers (so also where the Python code has
  -- caught the interrupt), and there may be messages in the channel already; the first termination signal
  -- in all of these comes after the signals `qs`, which are none. Then, in so many turns of the task of
  -- `_run` in which it receives a signal, that task leaves, and the loop is stopping.
  pub signals-Stop :
      (python : Python T) (x : ℕ) (xs : List ℕ) (c : Checked) (qs : List ℕ) (b : ℕ) (rest : List ℕ)
      (s : Running T)
      → s.loop.sig_listening ≡ true
      → T.async_channel.is_closed s.loop.signal_socket ≡ false
      → T.async_channel.messages s.loop.signal_socket ++ (x ∷ xs) ≡ qs ++ (b ∷ rest)
      → AreQuiet qs
      → is_final b ≡ true
      → Stops (
          run_signals
            (length (b ∷ qs))
            python
            (record s { loop = (read_round T (got (x ∷ xs) c) s.loop).1 }))
  signals-Stop python x xs c qs b rest s on o e quiet final =
      let k = read_round-Sent x xs c s.loop on o in
      run_signals-Stops python qs b rest
        (record s { loop = (read_round T (got (x ∷ xs) c) s.loop).1 }) (k.listening ∙ on)
        (k.queued ∙ e) quiet final

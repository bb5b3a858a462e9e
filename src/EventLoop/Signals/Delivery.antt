-- ===== src/EventLoop/Signals/Delivery.antt =====
-- The delivery of signals in src/event_loop.rs.
use tokioloop.Base.{
  ℕ, Bool, false, true, some, List, [], ◌∷◌, ◌++◌, append-nil, append_assoc, sym, ◌≡◌, refl, ap,
}
use tokioloop.Deps.{Deps}
use tokioloop.Handle.{Handle, cancelled}
use tokioloop.World.{World}
use tokioloop.EventLoop.Signals.{
  ReadResult, read_bytes, read_interrupted, read_failed, read_from_sock, sig_handle, sig_found,
  sig_handle_all,
}

-- An answer that the loop of `read_from_sock` goes on after, and one that ends it.
abbrev pub GoesOn : ReadResult → Type 0
GoesOn (read_bytes []) = ⊥
GoesOn (read_bytes (_ ∷ _)) = Unit {0}
GoesOn read_interrupted = Unit {0}
GoesOn read_failed = ⊥

abbrev pub AllGoOn : List ReadResult → Type 0
AllGoOn [] = Unit {0}
AllGoOn (r ∷ rs) = GoesOn r × AllGoOn rs

-- The bytes of the answers.
abbrev pub bytes_of : List ReadResult → List ℕ
bytes_of [] = []
bytes_of (read_bytes bs ∷ rs) = bs ++ bytes_of rs
bytes_of (read_interrupted ∷ rs) = bytes_of rs
bytes_of (read_failed ∷ rs) = bytes_of rs

-- `read_from_sock` reads on through interrupts until the socket has no more or fails, and gives all the
-- bytes read until then, in order.
read_from_sock_reads_all :
    (front : List ReadResult) (stop : ReadResult) (rest : List ReadResult)
    → AllGoOn front
    → ¬ GoesOn stop
    → read_from_sock (front ++ (stop ∷ rest)) ≡ some (bytes_of front)
unfolding read_from_sock
read_from_sock_reads_all [] (read_bytes []) rest g s = refl
read_from_sock_reads_all [] (read_bytes (b ∷ bs)) rest g s = absurd (s tt)
read_from_sock_reads_all [] read_interrupted rest g s = absurd (s tt)
read_from_sock_reads_all [] read_failed rest g s = refl
read_from_sock_reads_all (read_bytes [] ∷ front) stop rest g s = absurd g.0
read_from_sock_reads_all (read_bytes (b ∷ bs) ∷ front) stop rest g s =
    rw (read_from_sock_reads_all front stop rest g.1 s)
read_from_sock_reads_all (read_interrupted ∷ front) stop rest g s =
    read_from_sock_reads_all front stop rest g.1 s
read_from_sock_reads_all (read_failed ∷ front) stop rest g s = absurd g.0

-- The note after the signals: true if there was one.
abbrev pub noted : List ℕ → Bool → Bool
noted [] b = b
noted (_ ∷ _) b = true

noted-true : (sigs : List ℕ) → noted sigs true ≡ true
noted-true [] = refl
noted-true (sig ∷ sigs) = refl

module _ (D : Deps) where
  open D use {get}

  -- `hs` are the handlers of the signals, none of them cancelled.
  abbrev pub Handlers : World D → List ℕ → List Handle → Type 0
  Handlers w [] [] = Unit {0}
  Handlers w (sig ∷ sigs) (h ∷ hs) =
      (get sig w.sig_handlers ≡ some h) × (cancelled w.flags h ≡ false) × Handlers w sigs hs
  Handlers w [] (_ ∷ _) = ⊥
  Handlers w (_ ∷ _) [] = ⊥

  sig_handle_live :
      (sig : ℕ) (h : Handle) (w : World D) (q : List Handle)
      → get sig w.sig_handlers ≡ some h
      → cancelled w.flags h ≡ false
      → sig_handle D sig w q ≡ (record w { sig_loop_handled = true }, q ++ (h ∷ []))
  unfolding sig_handle
  sig_handle_live sig h w q e live = rw (e, sig_found) (rw live refl)

  -- Where every signal has a handler that is not cancelled, the handlers go to the end of the queue in
  -- the order of the signals, and all else that changes is that the loop notes a handled signal.
  pub sig_handle_all_delivers :
      (sigs : List ℕ) (hs : List Handle) (w : World D) (handles_ready : List Handle)
      → Handlers w sigs hs
      → sig_handle_all D sigs w handles_ready
        ≡ (record w { sig_loop_handled = noted sigs w.sig_loop_handled }, handles_ready ++ hs)
  unfolding sig_handle_all
  sig_handle_all_delivers [] [] w q l = ap (λ (x : List Handle). (w, x)) (sym (append-nil q))
  sig_handle_all_delivers [] (h ∷ hs) w q l = absurd l
  sig_handle_all_delivers (sig ∷ sigs) [] w q l = absurd l
  sig_handle_all_delivers (sig ∷ sigs) (h ∷ hs) w q l =
      let w' = record w { sig_loop_handled = true } in
      rw (sig_handle_live sig h w q l.0 l.1) (
        rw (sig_handle_all_delivers sigs hs w' (q ++ (h ∷ [])) l.2)
          (rw (noted-true sigs, append_assoc) refl))

-- ===== src/EventLoop/Step/Cancel.antt =====
-- `cancel` of a callback's handle, and of a `TimerHandle` by its handle, of src/handles.rs, and what the
-- loop over the callbacks makes of it.
use mathlib.Core.List.{Memᴰ}
use tokioloop.Base.{
  ℕ, ◌≡◌, Bool, true, if◌then◌else◌, List, [], ◌∷◌, refl, arith, Bool-cases, inl, inr, subst, ap,
}
use tokioloop.Deps.{Deps}
use tokioloop.Handle.{Handle, cb_handle, cb_handle_no_args, cb_handle_one_arg, cancelled}
use tokioloop.World.{World, store, store_self}
use tokioloop.EventLoop.Step.{run_all}
use tokioloop.EventLoop.Step.Fairness.{run_all-runs}

module _ (D : Deps) where
  -- `cancel`, by the cell of the handle's flag.
  unfoldable pub cancel : ℕ → World D → World D
  cancel cell w = record w { flags = store w.flags cell true }

module _ (D : Deps) (run : Handle → World D → World D) where
  -- What runs of a queue, by whether its first handle is dropped.
  abbrev ran_of : Handle → List Handle → World D → Bool → List Handle
  ran_of k hs w b =
      let rest = (run_all D run hs (if b then w else run k w)).1 in if b then rest else k ∷ rest

  run_all-drops :
      (h : Handle) (hs : List Handle) (w : World D)
      → ((k : Handle) (v : World D)
          → cancelled v.flags h ≡ true
          → cancelled (run k v).flags h ≡ true)
      → cancelled w.flags h ≡ true
      → ¬ Memᴰ h (run_all D run hs w).1
  unfolding run_all
  run_all-drops h [] w sticks dead m = elim m [ ]
  run_all-drops h (k ∷ hs) w sticks dead m = elim (Bool-cases (cancelled w.flags k)) [
    | inl dropped ↦
        run_all-drops h hs w sticks dead (subst (λ b. Memᴰ h (ran_of k hs w b)) dropped m)
    | inr live ↦ elim (subst (λ b. Memᴰ h (ran_of k hs w b)) live m) [
      | Memᴰ.head e ↦ absurd (ground (arith, dead, live, ap (cancelled w.flags) e))
      | Memᴰ.tail t ↦ run_all-drops h hs (run k w) sticks (sticks k w dead) t
    ]
  ]

  -- No callback clears the flag `cell`.
  abbrev pub Sticks : ℕ → Type 0
  Sticks cell = (k : Handle) (w : World D) → w.flags cell ≡ true → (run k w).flags cell ≡ true

  -- After `cancel` of a `CBHandle` or of a `CBHandleNoArgs`, whose flag no callback clears, the loop over
  -- the callbacks does not run it, wherever it stands in the queue and however often.
  cancel-drops :
      (callback args context cell : ℕ) (hs : List Handle) (w : World D)
      → Sticks cell
      → (¬ Memᴰ (cb_handle callback args context cell) (run_all D run hs (cancel D cell w)).1)
        × (¬ Memᴰ (cb_handle_no_args callback context cell) (run_all D run hs (cancel D cell w)).1)
  unfolding cancel cancelled
  cancel-drops callback args context cell hs w sticks =
      let dead = store_self w.flags cell true in
      (
        run_all-drops (cb_handle callback args context cell) hs (cancel D cell w) sticks dead,
        run_all-drops (cb_handle_no_args callback context cell) hs (cancel D cell w) sticks dead,
      )

  -- After `cancel` of a `CBHandleOneArg` the loop over the callbacks runs it all the same.
  cancel-ignored :
      (callback arg context cell : ℕ) (hs : List Handle) (w : World D)
      → Memᴰ (cb_handle_one_arg callback arg context cell) hs
      → Memᴰ (cb_handle_one_arg callback arg context cell) (run_all D run hs (cancel D cell w)).1
  unfolding cancelled
  cancel-ignored callback arg context cell hs w m =
      run_all-runs D run (cb_handle_one_arg callback arg context cell) hs (cancel D cell w)
        (λ k v _. refl) m refl

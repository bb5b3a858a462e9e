-- ===== src/Tokio/Handle/Order.antt =====
-- The order of the timers of src/tokio_event_loop.rs in their heap.
use tokioloop.Base.{
  ℕ, ◌≤◌, ◌<◌, leb, if◌then◌else◌, List, [], ◌∷◌, ◌≡◌, refl, arith, Bool-cases, inl, inr,
}
use tokioloop.Tokio.Handle.{TokioTimer, cmp, is_greater, heap_push}

-- Every timer of the list is at `n` or later.
abbrev pub From : ℕ → List TokioTimer → Type 0
From n [] = Unit {0}
From n (t ∷ ts) = (n ≤ t.when) × From n ts

-- The times do not fall along the list.
abbrev pub IsOrdered : List TokioTimer → Type 0
IsOrdered [] = Unit {0}
IsOrdered (t ∷ ts) = From t.when ts × IsOrdered ts

From-mono : {m n : ℕ} (ts : List TokioTimer) → m ≤ n → From n ts → From m ts
From-mono [] h f = tt
From-mono (t ∷ ts) h f = (omega arith, From-mono ts h f.1)

From-heap_push :
    (n : ℕ) (t : TokioTimer) (ts : List TokioTimer)
    → n ≤ t.when
    → From n ts
    → From n (heap_push t ts)
unfolding heap_push
From-heap_push n t [] h f = (h, tt)
From-heap_push n t (x ∷ xs) h f = ground (arith, From-heap_push n t xs h f.1)

pub heap_push-IsOrdered :
    (t : TokioTimer) (ts : List TokioTimer) → IsOrdered ts → IsOrdered (heap_push t ts)
unfolding heap_push
heap_push-IsOrdered t [] o = (tt, tt)
heap_push-IsOrdered t (x ∷ xs) o = elim (Bool-cases (is_greater (cmp t x))) [
  | inl first ↦ rw (first, heap_push) (ground (arith, From-mono {m = t.when} {n = x.when} xs))
  | inr later ↦
      rw (later, heap_push)
        (ground (arith, heap_push-IsOrdered t xs o.1, From-heap_push x.when t xs))
]

-- The timers, wherever they stand, that are due at `now`, and those that are not.
abbrev pub ripe : ℕ → List TokioTimer → List TokioTimer
ripe now [] = []
ripe now (t ∷ ts) = if leb t.when now then t ∷ ripe now ts else ripe now ts

abbrev pub unripe : ℕ → List TokioTimer → List TokioTimer
unripe now [] = []
unripe now (t ∷ ts) = if leb t.when now then unripe now ts else t ∷ unripe now ts

pub ripe-From : (now n : ℕ) (ts : List TokioTimer) → now < n → From n ts → ripe now ts ≡ []
ripe-From now n [] h f = refl
ripe-From now n (t ∷ ts) h f = ground (arith, ripe-From now n ts h f.1)

pub unripe-From : (now n : ℕ) (ts : List TokioTimer) → now < n → From n ts → unripe now ts ≡ ts
unripe-From now n [] h f = refl
unripe-From now n (t ∷ ts) h f = ground (arith, unripe-From now n ts h f.1)

From-unripe : (now n : ℕ) (ts : List TokioTimer) → From n ts → From n (unripe now ts)
From-unripe now n [] f = tt
From-unripe now n (t ∷ ts) f = ground (arith, From-unripe now n ts f.1)

pub unripe-IsOrdered : (now : ℕ) (ts : List TokioTimer) → IsOrdered ts → IsOrdered (unripe now ts)
unripe-IsOrdered now [] o = tt
unripe-IsOrdered now (t ∷ ts) o = elim (Bool-cases (leb t.when now)) [
  | inl is_due ↦ rw (is_due, unripe) (unripe-IsOrdered now ts o.1)
  | inr later ↦ rw (later, unripe) (From-unripe now t.when ts o.0, unripe-IsOrdered now ts o.1)
]

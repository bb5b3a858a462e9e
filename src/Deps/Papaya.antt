-- ===== src/Deps/Papaya.antt =====
-- The concurrent maps of the `papaya` crate (handles_io, sig_handlers, tcp_lstreams, tcp_transports
-- and udp_transports of src/event_loop.rs), as an interface: the operations that the loop calls, and
-- what the crate documents of them. A key is a file descriptor or a signal number.
use tokioloop.Base.{ℕ, ◌≡◌, Bool, Option, none, some, ◌==◌, if◌then◌else◌}

-- `Result<Option<V>, V>` of `remove_if`: `Ok(None)`, `Ok(Some(v))` and `Err(v)`.
pub data Removal (V : Type 0) : Type 0 where
  absent : Removal V
  removed : V → Removal V
  kept : V → Removal V

-- What `remove_if` answers at an entry, and what it leaves there.
abbrev pub removal : {V : Type 0} → (V → Bool) → Option V → Removal V
removal p none = absent
removal p (some v) = if p v then removed v else kept v

abbrev pub retained : {V : Type 0} → (V → Bool) → Option V → Option V
retained p none = none
retained p (some v) = if p v then none else some v

abbrev pub updated : {V : Type 0} → (V → V) → Option V → Option V
updated f none = none
updated f (some v) = some (f v)

abbrev pub upserted : {V : Type 0} → (V → V) → V → Option V → Option V
upserted f v none = some v
upserted f v (some w) = some (f w)

pub record Papaya : Type 1 where
  pub Map : Type 0 → Type 0
  pub empty : {V : Type 0} → Map V
  pub get : {V : Type 0} → ℕ → Map V → Option V
  pub insert : {V : Type 0} → ℕ → V → Map V → Map V
  pub remove : {V : Type 0} → ℕ → Map V → Map V
  pub clear : {V : Type 0} → Map V → Map V
  pub remove_if : {V : Type 0} → ℕ → (V → Bool) → Map V → Removal V × Map V
  pub update : {V : Type 0} → ℕ → (V → V) → Map V → Map V
  pub update_or_insert_with : {V : Type 0} → ℕ → (V → V) → V → Map V → Map V
  pub get-empty : {V : Type 0} (j : ℕ) → get {V = V} j empty ≡ none
  pub get-clear : {V : Type 0} (j : ℕ) (m : Map V) → get j (clear m) ≡ none
  pub get-insert :
      {V : Type 0} (j k : ℕ) (v : V) (m : Map V)
      → get j (insert k v m) ≡ (if k == j then some v else get j m)
  pub get-remove :
      {V : Type 0} (j k : ℕ) (m : Map V) → get j (remove k m) ≡ (if k == j then none else get j m)
  pub remove_if-result :
      {V : Type 0} (k : ℕ) (p : V → Bool) (m : Map V) → (remove_if k p m).0 ≡ removal p (get k m)
  pub get-remove_if :
      {V : Type 0} (j k : ℕ) (p : V → Bool) (m : Map V)
      → get j (remove_if k p m).1 ≡ (if k == j then retained p (get k m) else get j m)
  pub get-update :
      {V : Type 0} (j k : ℕ) (f : V → V) (m : Map V)
      → get j (update k f m) ≡ (if k == j then updated f (get k m) else get j m)
  pub get-update_or_insert_with :
      {V : Type 0} (j k : ℕ) (f : V → V) (v : V) (m : Map V)
      → get j (update_or_insert_with k f v m) ≡ (if k == j then upserted f v (get k m) else get j m)

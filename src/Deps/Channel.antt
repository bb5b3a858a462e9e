-- ===== src/Deps/Channel.antt =====
-- The unbounded channels of the crates `async_channel` (src/tokio_event_loop.rs: the scheduler's and the
-- signals') and `tokio` (`mpsc`, the handles to run), as an interface: the operations that the loop
-- calls, and what the crates document of them. `messages` is what has been sent and not received,
-- the oldest first.
use tokioloop.Base.{◌≡◌, Bool, false, not, Option, none, some, List, [], ◌∷◌, ◌++◌}

abbrev pub head? {ℓ} : {A : Type ℓ} → List A → Option A
head? [] = none
head? (x ∷ xs) = some x

abbrev pub tail {ℓ} : {A : Type ℓ} → List A → List A
tail [] = []
tail (x ∷ xs) = xs

-- `send` answers whether the message was taken, which it is unless the channel is closed. `recv`
-- completes with a message where there is one; where there is none it waits, or fails if the channel is
-- closed.
pub record Channel : Type 1 where
  pub Chan : Type 0 → Type 0
  pub unbounded : {A : Type 0} → Chan A
  pub is_closed : {A : Type 0} → Chan A → Bool
  pub messages : {A : Type 0} → Chan A → List A
  pub send : {A : Type 0} → A → Chan A → Bool × Chan A
  pub recv : {A : Type 0} → Chan A → Option A × Chan A
  pub messages-unbounded : {A : Type 0} → messages {A = A} unbounded ≡ []
  pub is_closed-unbounded : {A : Type 0} → is_closed {A = A} unbounded ≡ false
  pub send_answer : {A : Type 0} (a : A) (c : Chan A) → (send a c).0 ≡ not (is_closed c)
  pub messages-send :
      {A : Type 0} (a : A) (c : Chan A)
      → is_closed c ≡ false
      → messages (send a c).1 ≡ messages c ++ (a ∷ [])
  pub messages-send_closed :
      {A : Type 0} (a : A) (c : Chan A) → (send a c).0 ≡ false → messages (send a c).1 ≡ messages c
  pub is_closed-send : {A : Type 0} (a : A) (c : Chan A) → is_closed (send a c).1 ≡ is_closed c
  pub recv_head : {A : Type 0} (c : Chan A) → (recv c).0 ≡ head? (messages c)
  pub messages-recv : {A : Type 0} (c : Chan A) → messages (recv c).1 ≡ tail (messages c)
  pub is_closed-recv : {A : Type 0} (c : Chan A) → is_closed (recv c).1 ≡ is_closed c

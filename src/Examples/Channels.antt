-- ===== src/Examples/Channels.antt =====
-- Crates for src/tokio_event_loop.rs that run, and a loop before its first call.
use tokioloop.Base.{Bool, true, false, ◌≡◌, refl, not, List, [], ◌∷◌, ◌++◌, arith}
use tokioloop.Deps.{TokioDeps}
use tokioloop.Deps.Channel.{Channel, head?, tail}
use tokioloop.Examples.Sample.{table}

-- Whether the channel is closed, and its messages.
abbrev send_list : {A : Type 0} → A → Bool × List A → Bool × (Bool × List A)
send_list a (true, xs) = (false, (true, xs))
send_list a (false, xs) = (true, (false, xs ++ (a ∷ [])))

pub send_list-answer : {A : Type 0} (a : A) (c : Bool × List A) → (send_list a c).0 ≡ not c.0
send_list-answer a (true, xs) = refl
send_list-answer a (false, xs) = refl

pub send_list-open :
    {A : Type 0} (a : A) (c : Bool × List A) → c.0 ≡ false → (send_list a c).1.1 ≡ c.1 ++ (a ∷ [])
send_list-open a (true, xs) h = ground arith
send_list-open a (false, xs) h = refl

pub send_list-kept :
    {A : Type 0} (a : A) (c : Bool × List A) → (send_list a c).0 ≡ false → (send_list a c).1.1 ≡ c.1
send_list-kept a (true, xs) h = refl
send_list-kept a (false, xs) h = ground arith

pub send_list-closed : {A : Type 0} (a : A) (c : Bool × List A) → (send_list a c).1.0 ≡ c.0
send_list-closed a (true, xs) = refl
send_list-closed a (false, xs) = refl

abbrev channel : Channel
channel = record {
  Chan = λ A. Bool × List A;
  unbounded = (false, []);
  is_closed = λ c. c.0;
  messages = λ c. c.1;
  send = send_list;
  recv = λ c. (head? c.1, (c.0, tail c.1));
  messages-unbounded = refl;
  is_closed-unbounded = refl;
  send_answer = send_list-answer;
  messages-send = send_list-open;
  messages-send_closed = send_list-kept;
  is_closed-send = send_list-closed;
  recv_head = λ c. refl;
  messages-recv = λ c. refl;
  is_closed-recv = λ c. refl;
}

abbrev pub crates : TokioDeps
crates = record { papaya = table; async_channel = channel; mpsc = channel }

-- ===== src/Edge/Sample.antt =====
-- A channel made of two lists, as a concrete instance of the interface, for the tests.
use rust_uma.Prelude.{
  ℕ, ◌≡◌, ◌≢◌, refl, Bool, true, false, List, [], ◌∷◌, ◌++◌, length, ltb, if◌then◌else◌,
  append_assoc,
}
use rust_uma.Edge.Ring.{Frame}
use rust_uma.Edge.Channel.{Mpsc, Sent, delivered, full, closed}
use rust_uma.Edge.Hub.{EdgeStats}

pub record Chan : Type 0 where
  pub size : ℕ
  pub received : List Frame
  pub queued : List Frame
  pub is_closed : Bool

abbrev pub answer : Chan → Sent
answer c = if c.is_closed then closed else if ltb (length c.queued) c.size then delivered else full

abbrev pub push_queue : Chan → Frame → Sent → Chan
push_queue c f delivered = record c { queued = c.queued ++ (f ∷ []) }
push_queue c f full = c
push_queue c f closed = c

abbrev pub take_one : Chan → List Frame → Chan
take_one c [] = c
take_one c (f ∷ fs) = record c { received = c.received ++ (f ∷ []); queued = fs }

pub push_queue_keeps :
    (c : Chan) (f : Frame) (a : Sent)
    → a ≢ delivered
    → (push_queue c f a).received ++ (push_queue c f a).queued ≡ c.received ++ c.queued
push_queue_keeps c f delivered h = absurd (h refl)
push_queue_keeps c f full h = refl
push_queue_keeps c f closed h = refl

pub push_queue-received :
    (c : Chan) (f : Frame) (a : Sent) → (push_queue c f a).received ≡ c.received
push_queue-received c f delivered = refl
push_queue-received c f full = refl
push_queue-received c f closed = refl

pub push_queue-queued :
    (c : Chan) (f : Frame) (a : Sent)
    → a ≡ delivered
    → (push_queue c f a).queued ≡ c.queued ++ (f ∷ [])
push_queue-queued c f delivered e = refl
push_queue-queued c f full e = cc
push_queue-queued c f closed e = cc

pub take_one_keeps :
    (r q : List Frame) (c : Chan)
    → c.received ≡ r
    → c.queued ≡ q
    → (take_one c q).received ++ (take_one c q).queued ≡ c.received ++ c.queued
take_one_keeps r [] c e h = refl
take_one_keeps r (f ∷ q) c e h = rw (e, h, append_assoc)

abbrev pub list_channel : Mpsc
list_channel = record {
  Chan = Chan;
  channel = λ n. record { size = n; received = []; queued = []; is_closed = false };
  try_send = λ c f. (push_queue c f (answer c), answer c);
  recv = λ c. take_one c c.queued;
  close = λ c. record c { is_closed = true };
  received = λ c. c.received;
  queued = λ c. c.queued;
  size = λ c. c.size;
  is_closed = λ c. c.is_closed;
  received-channel = λ n. refl;
  queued-channel = λ n. refl;
  try_send_result = λ c f. refl;
  queued-try_send = λ c f e. push_queue-queued c f (answer c) e;
  received-try_send = λ c f. push_queue-received c f (answer c);
  refused_keeps = λ c f h. push_queue_keeps c f (answer c) h;
  recv_in_order = λ c. take_one_keeps c.received c.queued c refl refl;
  close_keeps = λ c. refl;
}

abbrev pub zero_stats : EdgeStats
zero_stats = record {
  deliveries = 0;
  slow_clients_disconnected = 0;
  fanout_last_us = 0;
  fanout_max_us = 0;
}

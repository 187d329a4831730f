-- ===== src/Edge/Channel.antt =====
-- The bounded channel of the `tokio` library between the hub and one client, as the code uses it:
-- a type with its operations, and the behaviour that `tokio::sync::mpsc` documents for them.
use rust_uma.Prelude.{ℕ, ◌≡◌, ◌≢◌, Bool, List, [], ◌∷◌, ◌++◌, length, ltb, if◌then◌else◌}
use rust_uma.Edge.Ring.{Frame}

pub data Sent : Type 0 where
  delivered full closed : Sent

-- `received` and `queued` are what the client has taken out and what is still in the queue.
pub record Mpsc : Type 1 where
  pub Chan : Type 0
  pub channel : ℕ → Chan
  pub try_send : Chan → Frame → Chan × Sent
  pub recv : Chan → Chan
  pub close : Chan → Chan
  pub received : Chan → List Frame
  pub queued : Chan → List Frame
  pub size : Chan → ℕ
  pub is_closed : Chan → Bool
  pub received-channel : (n : ℕ) → received (channel n) ≡ []
  pub queued-channel : (n : ℕ) → queued (channel n) ≡ []
  pub try_send_result :
      (c : Chan) (f : Frame)
      → (try_send c f).1 ≡ (
          if is_closed c
          then closed
          else if ltb (length (queued c)) (size c)
          then delivered
          else full)
  pub queued-try_send :
      (c : Chan) (f : Frame)
      → (try_send c f).1 ≡ delivered
      → queued (try_send c f).0 ≡ queued c ++ (f ∷ [])
  pub received-try_send : (c : Chan) (f : Frame) → received (try_send c f).0 ≡ received c
  pub refused_keeps :
      (c : Chan) (f : Frame)
      → (try_send c f).1 ≢ delivered
      → received (try_send c f).0 ++ queued (try_send c f).0 ≡ received c ++ queued c
  pub recv_in_order : (c : Chan) → received (recv c) ++ queued (recv c) ≡ received c ++ queued c
  pub close_keeps : (c : Chan) → received (close c) ++ queued (close c) ≡ received c ++ queued c

module _ (M : Mpsc) where
  open M use {Chan, received, queued}

  -- Everything that was accepted by the channel, in order.
  abbrev pub accepted : Chan → List Frame
  accepted c = received c ++ queued c

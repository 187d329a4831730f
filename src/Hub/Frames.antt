-- ===== src/Hub/Frames.antt =====
-- `FrameHub` of src/hub.rs. A frame's bytes are only passed on. `publish` sends the latest sequence after
-- it has released the lock; only the task of the batches publishes, so that no other call of it comes
-- between.
pub mod Replay
use rust_uma.Prelude.{
  ℕ, suc, ◌≡◌, Bool, true, false, ◌&&◌, List, [], ◌∷◌, ◌++◌, max, ltb, length, filterb,
  if◌then◌else◌, Bytes,
}

pub record WireFrame : Type 0 where
  pub batch_sequence : ℕ
  pub first_sequence : ℕ
  pub last_sequence : ℕ
  pub bytes : Bytes

pub data FrameReadError : Type 0 where
  lagged : FrameReadError

pub data Read : Type 0 where
  ok : List WireFrame → Read
  err : FrameReadError → Read

pub record FrameHub : Type 0 where
  pub capacity : ℕ
  pub frames : List WireFrame
  pub replay_floor : ℕ
  pub latest : ℕ

unfoldable pub resuming_after : ℕ → ℕ → FrameHub
resuming_after capacity last_broadcast_sequence = record {
  capacity = max capacity 1;
  frames = [];
  replay_floor = last_broadcast_sequence;
  latest = 0;
}

unfoldable pub new : ℕ → FrameHub
unfolding resuming_after
new capacity = resuming_after capacity 0

-- `while frames.len() > capacity { pop_front; raise the floor }`, one frame at a time.
unfoldable pub evict : ℕ → List WireFrame → ℕ → List WireFrame × ℕ
evict limit [] floor = ([], floor)
evict limit (f ∷ fs) floor =
    let rest = evict limit fs (max floor f.last_sequence) in
    if ltb limit (suc (length fs)) then rest else (f ∷ fs, floor)

unfoldable pub publish : FrameHub → WireFrame → FrameHub
publish hub frame =
    let (frames, floor) = evict hub.capacity (hub.frames ++ (frame ∷ [])) hub.replay_floor in
    record hub { frames = frames; replay_floor = floor; latest = frame.last_sequence }

abbrev pub has_events_after : ℕ → WireFrame → Bool
has_events_after sequence frame = ltb sequence frame.last_sequence

unfoldable pub after : FrameHub → ℕ → Read
after hub sequence =
    if ltb 0 sequence && ltb sequence hub.replay_floor
    then err lagged
    else ok (filterb (has_events_after sequence) hub.frames)

unfoldable pub publish_all : FrameHub → List WireFrame → FrameHub
publish_all hub [] = hub
publish_all hub (f ∷ fs) = publish_all (publish hub f) fs

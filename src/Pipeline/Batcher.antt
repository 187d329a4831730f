-- ===== src/Pipeline/Batcher.antt =====
-- `run_batcher` of src/pipeline.rs: the events that wait in the channel, in frames. The length of an
-- encoded event and `encode_frame` are arguments: the first is the protobuf library's, the second gives
-- `none` for an error.
use rust_uma.Prelude.{
  ℕ, suc, zero, ◌+◌, Bool, true, false, Option, none, some, List, [], ◌∷◌, ◌++◌, if◌then◌else◌, ltb,
  max, u64_add, length, ◌≡◌,
}
use rust_uma.Model.{EventRecord}
use rust_uma.Hub.Frames.{FrameHub, WireFrame, publish}
pub mod Batches

pub record Limits : Type 0 where
  pub batch_max_events : ℕ
  pub batch_max_bytes : ℕ

-- What the inner loop takes: the rest of the batch, the event that did not fit, and what waits on.
pub record Taken : Type 0 where
  pub more : List EventRecord
  pub pending : Option EventRecord
  pub waiting : List EventRecord

abbrev pub with_more : EventRecord → Taken → Taken
with_more e t = record t { more = e ∷ t.more }

module _ (encoded_event_len : EventRecord → ℕ) (limits : Limits) where
  -- The inner loop, with the number of events in the batch and their estimated bytes.
  unfoldable pub take_more : ℕ → ℕ → List EventRecord → Taken
  take_more n bytes [] = record { more = []; pending = none; waiting = [] }
  take_more n bytes (e ∷ es) =
      let size = encoded_event_len e in
      let rest = take_more (suc n) (bytes + size) es in
      if ltb n (max limits.batch_max_events 1)
      then (if ltb limits.batch_max_bytes (bytes + size)
          then record { more = []; pending = some e; waiting = es }
          else with_more e rest)
      else record { more = []; pending = none; waiting = e ∷ es }

  -- The batch that starts with `first`, with what is left.
  unfoldable pub next_batch : EventRecord → List EventRecord → Taken
  next_batch first es = with_more first (take_more 1 (encoded_event_len first) es)

  -- The batches of the outer loop, as long as an event is pending or waits.
  unfoldable pub batches : ℕ → Option EventRecord → List EventRecord → List (List EventRecord)
  batches zero pending es = []
  batches (suc fuel) none [] = []
  batches (suc fuel) none (e ∷ es) =
      let t = next_batch e es in t.more ∷ batches fuel t.pending t.waiting
  batches (suc fuel) (some e) es =
      let t = next_batch e es in t.more ∷ batches fuel t.pending t.waiting

module _ (encode_frame : ℕ → List EventRecord → Option WireFrame) where
  abbrev pub published : FrameHub → Option WireFrame → FrameHub
  published frames none = frames
  published frames (some frame) = publish frames frame

  -- Each batch is encoded under the next number and published.
  unfoldable pub send_batches : ℕ → FrameHub → List (List EventRecord) → ℕ × FrameHub
  send_batches batch_sequence frames [] = (batch_sequence, frames)
  send_batches batch_sequence frames (b ∷ bs) =
      let next = max (u64_add batch_sequence 1) 1 in
      send_batches next (published frames (encode_frame next b)) bs

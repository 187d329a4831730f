-- ===== src/Edge/Ring.antt =====
-- src/edge/ring.rs: the ring of the last frames, each with its offset. `u64` sums wrap, as in a
-- release build.
pub mod Offsets
pub mod Refine
use rust_uma.Prelude.{
  ℕ, ◌+◌, ◌-◌, ◌%◌, ◌^◌, Option, none, some, List, [], ◌∷◌, ◌++◌, max, min, length, drop, head?,
  last?, if◌then◌else◌, ◌==◌, Bytes, u64_add,
}

pub record Frame : Type 0 where
  pub offset : ℕ
  pub batch_sequence : ℕ
  pub event_sequence : ℕ
  pub bytes : Bytes
  pub recv_at_us : ℕ

pub record Ring : Type 0 where
  pub frames : List Frame
  pub capacity : ℕ
  pub next_offset : ℕ

pub record RingStats : Type 0 where
  pub count : ℕ
  pub oldest_offset : ℕ
  pub latest_offset : ℕ

unfoldable pub new : ℕ → Ring
new capacity = record { frames = []; capacity = max capacity 1; next_offset = 1 }

abbrev pub stamp : Ring → Frame → Frame
stamp ring frame = record frame { offset = ring.next_offset }

abbrev pub pop_front : List Frame → List Frame
pop_front frames = drop 1 frames

unfoldable pub push : Ring → Frame → Ring × Frame
push ring frame = (
  record ring {
    next_offset = u64_add ring.next_offset 1;
    frames =
        (if length ring.frames == ring.capacity then pop_front ring.frames else ring.frames)
        ++ (stamp ring frame ∷ []);
  },
  stamp ring frame,
)

unfoldable pub tail : Ring → ℕ → List Frame
tail ring n = drop (length ring.frames - min n (length ring.frames)) ring.frames

abbrev sequence_or_zero : Option Frame → ℕ
sequence_or_zero none = 0
sequence_or_zero (some f) = f.event_sequence

abbrev pub offset_or_zero : Option Frame → ℕ
offset_or_zero none = 0
offset_or_zero (some f) = f.offset

unfoldable pub last_event_sequence : Ring → ℕ
last_event_sequence ring = sequence_or_zero (last? ring.frames)

unfoldable pub stats : Ring → RingStats
stats ring = record {
  count = length ring.frames;
  oldest_offset = offset_or_zero (head? ring.frames);
  latest_offset = offset_or_zero (last? ring.frames);
}

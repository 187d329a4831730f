-- ===== src/Edge/Parse/Encoded.antt =====
-- A batch as protobuf writes it, and what the walks of src/edge/frame.rs read of it.
use rust_uma.Prelude.{ℕ, ◌%◌, ◌^◌, ◌<◌, ◌≡◌, Bytes, List, [], ◌∷◌, ◌++◌, max, false, All, length}
use rust_uma.Edge.Parse.{FrameInfo}
use rust_uma.Edge.Parse.Varint.{varint_bytes}

-- A field with a length: its key and its bytes.
abbrev pub Field : Type 0
Field = ℕ × Bytes

abbrev pub field_bytes : Field → Bytes → Bytes
field_bytes f rest = f.0 ∷ (varint_bytes (length f.1) ++ (f.1 ++ rest))

abbrev pub fields_bytes : List Field → Bytes
fields_bytes [] = []
fields_bytes (f ∷ fs) = field_bytes f (fields_bytes fs)

-- A key of one byte with the wire type of a length, and bytes that have one.
abbrev pub IsField : Field → Type 0
IsField f = (f.0 < 128) × (f.0 % 8 ≡ 2) × (length f.1 < 2 ^ 64)

-- Field 1 is the sequence; the others have a length.
pub record Message : Type 0 where
  pub sequence : ℕ
  pub fields : List Field

unfoldable pub event_bytes : Message → Bytes
event_bytes m = 8 ∷ (varint_bytes m.sequence ++ fields_bytes m.fields)

abbrev pub IsMessage : Message → Type 0
IsMessage m = (m.sequence < 2 ^ 64) × All IsField m.fields × (length (event_bytes m) < 2 ^ 64)

unfoldable pub events_bytes : List Message → Bytes
events_bytes [] = []
events_bytes (m ∷ ms) = field_bytes (34, event_bytes m) (events_bytes ms)

-- Field 2 is the number of the batch, field 3 the time, and each field 4 an event.
unfoldable pub batch_bytes : ℕ → ℕ → List Message → Bytes
batch_bytes batch_sequence sent_at_us ms =
    16 ∷ (varint_bytes batch_sequence ++ (24 ∷ (varint_bytes sent_at_us ++ events_bytes ms)))

abbrev pub greatest : ℕ → List Message → ℕ
greatest n [] = n
greatest n (m ∷ ms) = greatest (max n m.sequence) ms

abbrev no_info : FrameInfo
no_info = record {
  compressed = false;
  schema = 0;
  payload_size = 0;
  batch_sequence = 0;
  sent_at_us = 0;
  last_event_sequence = 0;
}

-- ===== src/Edge/ParseExamples.antt =====
-- Tests of the frame parser.
use rust_uma.Prelude.{ℕ, ◌≡◌, refl, Bool, true, false, none, List, [], ◌∷◌, ◌++◌, Bytes}
use rust_uma.Edge.Parse.{
  FrameInfo, ok, err, too_short, parse_frame, walk_body, walk_batch, walk_batch_from, batch_field,
  walk_event, walk_event_from, event_field, varint, varint_from, bytes, skip, advance,
}
use rust_uma.Edge.Parse.Encoded.{Message}

-- Batch 5, an unknown field, and one event with sequence 300.
abbrev batch : Bytes
batch = 16 ∷ 5 ∷ 8 ∷ 1 ∷ 34 ∷ 3 ∷ 8 ∷ 172 ∷ 2 ∷ []

abbrev header : ℕ → Bytes
header flags = 85 ∷ 77 ∷ 65 ∷ 49 ∷ flags ∷ 1 ∷ 0 ∷ 0 ∷ 0 ∷ 0 ∷ 0 ∷ 9 ∷ []

abbrev info : Bool → ℕ → ℕ → FrameInfo
info compressed batch_sequence last = record {
  compressed = compressed;
  schema = 1;
  payload_size = 9;
  batch_sequence = batch_sequence;
  sent_at_us = 0;
  last_event_sequence = last;
}

a_frame_is_parsed : parse_frame (λ body limit. none) (header 0 ++ batch) ≡ ok (info false 5 300)
unfolding parse_frame walk_body walk_batch walk_batch_from batch_field walk_event walk_event_from
    event_field varint varint_from bytes skip advance
a_frame_is_parsed = refl

a_failed_decompression_is_no_error :
    parse_frame (λ body limit. none) (header 1 ++ batch) ≡ ok (info true 0 0)
unfolding parse_frame walk_body
a_failed_decompression_is_no_error = refl

a_short_frame_is_refused : parse_frame (λ body limit. none) batch ≡ err too_short
unfolding parse_frame
a_short_frame_is_refused = refl

-- Two events, one with a further field of two bytes.
abbrev messages : List Message
messages =
    record { sequence = 300; fields = (18, 1 ∷ 2 ∷ []) ∷ [] }
    ∷ record { sequence = 7; fields = [] }
    ∷ []

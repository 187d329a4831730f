-- ===== src/Edge/Parse.antt =====
-- src/edge/frame.rs: what an edge node reads of a frame. A cursor is the bytes from its position on.
-- The loops over the fields run on fuel; the length of what they read is enough, as each turn takes
-- a byte.
use rust_uma.Prelude.{
  ℕ, zero, suc, ◌+◌, ◌-◌, ◌*◌, ◌/◌, ◌%◌, ◌^◌, ◌==◌, Bool, true, false, not, ◌&&◌, List, [], ◌∷◌,
  if◌then◌else◌, ltb, leb, min, max, length, take, drop, get_or, Bytes, ◌=?◌, bytes_eq, Option,
  none, some,
}
pub mod Fuel
pub mod Varint
pub mod Encoded

pub record FrameInfo : Type 0 where
  pub compressed : Bool
  pub schema : ℕ
  pub payload_size : ℕ
  pub batch_sequence : ℕ
  pub sent_at_us : ℕ
  pub last_event_sequence : ℕ

pub data BadFrame : Type 0 where
  too_short bad_magic truncated_varint truncated_field : BadFrame
  wire_type : ℕ → BadFrame

pub data Result {ℓ} (A : Type ℓ) : Type ℓ where
  ok : A → Result A
  err : BadFrame → Result A

infixl 5 ◌>>=◌
abbrev pub ◌>>=◌ {ℓ κ} : {A : Type ℓ} {B : Type κ} → Result A → (A → Result B) → Result B
ok a >>= f = f a
err e >>= f = err e

-- The seven bits of a byte, moved to their place; what falls off 64 bits is lost. They do not overlap
-- with the bits read before, so that the source's `|=` is a sum.
abbrev pub shifted : ℕ → ℕ → ℕ
shifted byte shift = if ltb shift 64 then ((byte % 128) * 2 ^ shift) % 2 ^ 64 else 0

unfoldable pub varint_from : ℕ → ℕ → Bytes → Result (ℕ × Bytes)
varint_from value shift [] = err truncated_varint
varint_from value shift (byte ∷ rest) =
    let more = varint_from (value + shifted byte shift) (shift + 7) rest in
    if ltb byte 128
    then ok (value + shifted byte shift, rest)
    else if ltb 70 (shift + 7)
    then err truncated_varint
    else more

unfoldable pub varint : Bytes → Result (ℕ × Bytes)
varint buf = varint_from 0 0 buf

unfoldable pub advance : ℕ → Bytes → Result Bytes
advance n buf = if leb n (length buf) then ok (drop n buf) else err truncated_field

unfoldable pub bytes : Bytes → Result (Bytes × Bytes)
bytes buf = do
  counted ← varint buf
  rest ← advance counted.0 counted.1
  ok (take counted.0 counted.1, rest)

unfoldable pub skip : ℕ → Bytes → Result Bytes
skip wire buf =
    if wire == 0
    then (do read ← varint buf; ok read.1)
    else if wire == 1
    then advance 8 buf
    else if wire == 2
    then (do read ← bytes buf; ok read.1)
    else if wire == 5
    then advance 4 buf
    else err (wire_type wire)

-- One turn of the loop of `walk_event`.
unfoldable pub event_field : ℕ → Bytes → Result (ℕ × Bytes)
event_field seq buf = do
  key ← varint buf
  if key.0 / 8 == 1 && (key.0 % 8 == 0)
      then varint key.1
      else (do rest ← skip (key.0 % 8) key.1; ok (seq, rest))

unfoldable pub walk_event_from : ℕ → ℕ → Bytes → Result ℕ
walk_event_from fuel seq [] = ok seq
walk_event_from zero seq (b ∷ bs) = err truncated_field
walk_event_from (suc fuel) seq (b ∷ bs) = do
  next ← event_field seq (b ∷ bs)
  walk_event_from fuel next.0 next.1

unfoldable pub walk_event : Bytes → Result ℕ
walk_event payload = walk_event_from (length payload) 0 payload

-- One turn of the loop of `walk_batch`.
unfoldable pub batch_field : FrameInfo → Bytes → Result (FrameInfo × Bytes)
batch_field info buf = do
  key ← varint buf
  if key.0 / 8 == 2 && (key.0 % 8 == 0)
      then (do read ← varint key.1; ok (record info { batch_sequence = read.0 }, read.1))
      else if key.0 / 8 == 3 && (key.0 % 8 == 0)
      then (do read ← varint key.1; ok (record info { sent_at_us = read.0 }, read.1))
      else if key.0 / 8 == 4 && (key.0 % 8 == 2)
      then (do
        event ← bytes key.1
        seq ← walk_event event.0
        ok (record info { last_event_sequence = max info.last_event_sequence seq }, event.1))
      else (do rest ← skip (key.0 % 8) key.1; ok (info, rest))

unfoldable pub walk_batch_from : ℕ → FrameInfo → Bytes → Result FrameInfo
walk_batch_from fuel info [] = ok info
walk_batch_from zero info (b ∷ bs) = err truncated_field
walk_batch_from (suc fuel) info (b ∷ bs) = do
  next ← batch_field info (b ∷ bs)
  walk_batch_from fuel next.0 next.1

unfoldable pub walk_batch : Bytes → FrameInfo → Result FrameInfo
walk_batch payload info = walk_batch_from (length payload) info payload

abbrev pub max_decompressed : ℕ
max_decompressed = 262144

abbrev pub header_len : ℕ
header_len = 12

abbrev pub magic : Bytes
magic = 85 ∷ 77 ∷ 65 ∷ 49 ∷ []

abbrev pub byte_at : Bytes → ℕ → ℕ
byte_at b i = get_or b i 0

abbrev pub header_size : Bytes → ℕ
header_size b = ((byte_at b 8 * 256 + byte_at b 9) * 256 + byte_at b 10) * 256 + byte_at b 11

abbrev pub header_info : Bytes → FrameInfo
header_info b = record {
  compressed = byte_at b 4 % 2 == 1;
  schema = byte_at b 5;
  payload_size = header_size b;
  batch_sequence = 0;
  sent_at_us = 0;
  last_event_sequence = 0;
}

-- `decompress body limit` is that of the `zstd` library: none if it fails.
module _ (decompress : Bytes → ℕ → Option Bytes) where
  unfoldable pub walk_body : FrameInfo → Bytes → Result FrameInfo
  walk_body info body =
      if info.compressed
      then elim (decompress body (min info.payload_size max_decompressed)) [
        | none ↦ ok info
        | some payload ↦ walk_batch payload info
      ]
      else walk_batch body info

  unfoldable pub parse_frame : Bytes → Result FrameInfo
  parse_frame b =
      if ltb (length b) header_len
      then err too_short
      else if not (take 4 b =? magic)
      then err bad_magic
      else walk_body (header_info b) (drop header_len b)

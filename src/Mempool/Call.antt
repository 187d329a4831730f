-- ===== src/Mempool/Call.antt =====
-- The data of src/mempool/calldata.rs: a propose or dispute call and the key of its request.
use rust_uma.Prelude.{
  ℕ, ◌+◌, ◌*◌, ◌≡◌, ◌↔◌, Bool, true, ◌&&◌, Option, [], ◌∷◌, arith, drop, Bytes, Eq, bytes_beq,
  bytes_beq_iff, ◌==◌,
}

pub data CallKind : Type 0 where
  propose dispute : CallKind

pub record OracleCall : Type 0 where
  pub kind : CallKind
  pub requester : Bytes
  pub identifier : Bytes
  pub timestamp : Bytes
  pub ancillary : Bytes
  pub price : Bytes
  pub actor : Option Bytes

pub record RequestKey : Type 0 where
  pub requester : Bytes
  pub question_id : Bytes
  pub timestamp : ℕ

abbrev pub market : RequestKey → Bytes × Bytes
market k = (k.requester, k.question_id)

abbrev pub request_key_beq : RequestKey → RequestKey → Bool
request_key_beq a b =
    bytes_beq a.requester b.requester
    && (bytes_beq a.question_id b.question_id && (a.timestamp == b.timestamp))

pub request_key_beq_iff : (a b : RequestKey) → (request_key_beq a b ≡ true) ↔ (a ≡ b)
request_key_beq_iff a b =
    ground (arith, bytes_beq_iff a.requester b.requester, bytes_beq_iff a.question_id b.question_id)

instance abbrev pub request_key_eq : Eq RequestKey
request_key_eq = record { beq = request_key_beq; beq_iff = request_key_beq_iff }

-- The number that some bytes are in big-endian order, after a number already read.
unfoldable pub be_value : ℕ → Bytes → ℕ
be_value acc [] = acc
be_value acc (b ∷ bs) = be_value (acc * 256 + b) bs

-- The last 8 bytes of a 32-byte word.
unfoldable pub u64_word : Bytes → ℕ
unfolding be_value
u64_word w = be_value 0 (drop 24 w)

-- `keccak` is the hash of the `sha3` library.
module _ (keccak : Bytes → Bytes) where
  unfoldable pub request_key : OracleCall → RequestKey
  request_key call = record {
    requester = call.requester;
    question_id = keccak call.ancillary;
    timestamp = u64_word call.timestamp;
  }

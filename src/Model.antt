-- ===== src/Model.antt =====
-- src/model.rs and src/uma/events/common.rs: the decoded events, their keys, and the records that
-- the rest of the program passes on. Byte arrays are lists of numbers.
use rust_uma.Prelude.{
  ℕ, ◌≡◌, ◌↔◌, Bool, true, false, ◌&&◌, Option, none, some, List, [], ◌∷◌, ◌++◌, arith,
  if◌then◌else◌, Bytes, Eq, bytes_eq, ◌=?◌, bytes_beq, bytes_beq_iff, ◌==◌, replicate, all,
}

pub data EventKind : Type 0 where
  propose dispute : EventKind

pub record ChainLog : Type 0 where
  pub block_number : ℕ
  pub transaction_hash : Bytes
  pub log_index : ℕ
  pub upstream_received_at_us : ℕ
  pub removed : Bool

pub record PolymarketAncillary : Type 0 where
  pub question_id : Bytes
  pub market_id : Option ℕ

pub record PriceRequest : Type 0 where
  pub requester : Bytes
  pub condition_id : Bytes
  pub ancillary : PolymarketAncillary
  pub proposed_price : Bytes

pub data UmaEvent : Type 0 where
  propose_price : ChainLog → PriceRequest → UmaEvent
  dispute_price : ChainLog → PriceRequest → UmaEvent

abbrev pub kind : UmaEvent → EventKind
kind (propose_price c r) = propose
kind (dispute_price c r) = dispute

abbrev pub chain : UmaEvent → ChainLog
chain (propose_price c r) = c
chain (dispute_price c r) = c

abbrev pub request : UmaEvent → PriceRequest
request (propose_price c r) = r
request (dispute_price c r) = r

abbrev pub or_zero : Option ℕ → ℕ
or_zero none = 0
or_zero (some n) = n

abbrev pub market_id : UmaEvent → ℕ
market_id e = or_zero (request e).ancillary.market_id

-- Which of a binary condition's two outcome tokens a proposed price stands for.
pub data PriceOutcome : Type 0 where
  unspecified token0 token1 tie : PriceOutcome

-- The 32-byte words of 1e18 and 5e17.
abbrev pub token0_word : Bytes
token0_word = replicate 24 0 ++ (0x0d ∷ 0xe0 ∷ 0xb6 ∷ 0xb3 ∷ 0xa7 ∷ 0x64 ∷ 0x00 ∷ 0x00 ∷ [])

abbrev pub tie_word : Bytes
tie_word = replicate 24 0 ++ (0x06 ∷ 0xf0 ∷ 0x5b ∷ 0x59 ∷ 0xd3 ∷ 0xb2 ∷ 0x00 ∷ 0x00 ∷ [])

unfoldable pub from_propose_price : Bytes → PriceOutcome
from_propose_price price =
    if all (λ byte. byte == 0) price
    then token1
    else if price =? token0_word
    then token0
    else if price =? tie_word
    then tie
    else unspecified

-- `category` and `bet_type` are numbers here: the records below only pass them on.
pub record MarketEnrichment : Type 0 where
  pub market_id : ℕ
  pub condition_id : Bytes
  pub token_ids : List Bytes
  pub tag_ids : List ℕ
  pub category : ℕ
  pub bet_type : ℕ
  pub neg_risk : Bool

pub record EventKey : Type 0 where
  pub transaction_hash : Bytes
  pub log_index : ℕ
  pub removed : Bool

abbrev pub bool_beq : Bool → Bool → Bool
bool_beq true true = true
bool_beq false false = true
bool_beq _ _ = false

abbrev pub event_key_beq : EventKey → EventKey → Bool
event_key_beq a b =
    bytes_beq a.transaction_hash b.transaction_hash
    && (a.log_index == b.log_index && bool_beq a.removed b.removed)

pub event_key_beq_iff : (a b : EventKey) → (event_key_beq a b ≡ true) ↔ (a ≡ b)
event_key_beq_iff a b = ground (arith, bytes_beq_iff a.transaction_hash b.transaction_hash)

instance abbrev pub event_key_eq : Eq EventKey
event_key_eq = record { beq = event_key_beq; beq_iff = event_key_beq_iff }

pub record EventRecord : Type 0 where
  pub sequence : ℕ
  pub event : UmaEvent
  pub enrichment : Option MarketEnrichment
  pub price_outcome : PriceOutcome

abbrev pub key : EventRecord → EventKey
key r = record {
  transaction_hash = (chain r.event).transaction_hash;
  log_index = (chain r.event).log_index;
  removed = (chain r.event).removed;
}

-- Gamma's condition where the record is enriched, else the one derived on chain.
unfoldable pub resolved_condition_id : EventRecord → Bytes
resolved_condition_id r = elim r.enrichment [
  | none ↦ (request r.event).condition_id
  | some e ↦ e.condition_id
]

-- ===== src/Enrichment.antt =====
-- `Catalog` of src/enrichment.rs: the markets by condition and the conditions by market. The lock makes
-- each call one step.
pub mod Abstract
pub mod History
mod Examples
use rust_uma.Prelude.{
  Bool, true, false, ◌&&◌, if◌then◌else◌, max, ◌=?◌, ◌==◌, insert, remove, bytes_beq, bytes_beq_iff,
  ◌≡◌, ◌↔◌, arith, ℕ, Option, none, some, List, [], ◌∷◌, lookup, nat_eq, bytes_eq, Bytes,
}
use rust_uma.Model.{MarketEnrichment, bool_beq}

pub record Catalog : Type 0 where
  pub by_condition : List (Bytes × MarketEnrichment)
  pub market_to_condition : List (ℕ × Bytes)
  pub max_market_id : ℕ

abbrev pub no_markets : Catalog
no_markets = record { by_condition = []; market_to_condition = []; max_market_id = 0 }

unfoldable pub get : Catalog → Bytes → Option MarketEnrichment
get c condition_id = lookup condition_id c.by_condition

abbrev pub get_from : Catalog → Option Bytes → Option MarketEnrichment
get_from c none = none
get_from c (some condition_id) = lookup condition_id c.by_condition

unfoldable pub get_by_market_id : Catalog → ℕ → Option MarketEnrichment
get_by_market_id c market_id = get_from c (lookup market_id c.market_to_condition)

abbrev pub or_else : Option MarketEnrichment → Option MarketEnrichment → Option MarketEnrichment
or_else none o = o
or_else (some m) o = some m

abbrev pub by_market : Catalog → Option ℕ → Option MarketEnrichment
by_market c none = none
by_market c (some id) = get_by_market_id c id

unfoldable pub resolve : Catalog → Option ℕ → Bytes → Option MarketEnrichment
resolve c market_id derived = or_else (by_market c market_id) (get c derived)

-- Equality of the fields, one after the other.
abbrev pub ids_beq : List Bytes → List Bytes → Bool
ids_beq [] [] = true
ids_beq (a ∷ rest) (b ∷ bs) = bytes_beq a b && ids_beq rest bs
ids_beq _ _ = false

pub ids_beq_iff : (a b : List Bytes) → (ids_beq a b ≡ true) ↔ (a ≡ b)
ids_beq_iff [] [] = ground arith
ids_beq_iff [] (b ∷ bs) = ground arith
ids_beq_iff (a ∷ rest) [] = ground arith
ids_beq_iff (a ∷ rest) (b ∷ bs) = ground (arith, bytes_beq_iff a b, ids_beq_iff rest bs)

abbrev pub market_beq : MarketEnrichment → MarketEnrichment → Bool
market_beq a b =
    (a.market_id == b.market_id)
    && (bytes_beq a.condition_id b.condition_id
        && (ids_beq a.token_ids b.token_ids
            && (bytes_beq a.tag_ids b.tag_ids
                && ((a.category == b.category)
                    && ((a.bet_type == b.bet_type) && bool_beq a.neg_risk b.neg_risk)))))

pub market_beq_iff : (a b : MarketEnrichment) → (market_beq a b ≡ true) ↔ (a ≡ b)
market_beq_iff a b = ground (
  arith,
  bytes_beq_iff a.condition_id b.condition_id,
  ids_beq_iff a.token_ids b.token_ids,
  bytes_beq_iff a.tag_ids b.tag_ids,
)

abbrev pub is_same : Option MarketEnrichment → MarketEnrichment → Bool
is_same none m = false
is_same (some old) m = market_beq old m

-- The row of a condition that the market has left goes.
abbrev pub drop_left :
    Option Bytes → Bytes → List (Bytes × MarketEnrichment) → List (Bytes × MarketEnrichment)
drop_left none condition_id rows = rows
drop_left (some previous) condition_id rows =
    if previous =? condition_id then rows else remove previous rows

unfoldable pub upsert : Catalog → MarketEnrichment → Catalog × Bool
upsert c m = if is_same (lookup m.condition_id c.by_condition) m then (c, false) else (
  record {
    max_market_id = max c.max_market_id m.market_id;
    market_to_condition = insert m.market_id m.condition_id c.market_to_condition;
    by_condition =
        insert m.condition_id m
          (drop_left (lookup m.market_id c.market_to_condition) m.condition_id c.by_condition);
  },
  true,
)

unfoldable pub upsert_all : Catalog → List MarketEnrichment → Catalog
upsert_all c [] = c
upsert_all c (m ∷ ms) = upsert_all (upsert c m).0 ms

-- `Catalog::new`.
unfoldable pub new : List MarketEnrichment → Catalog
new markets = upsert_all no_markets markets

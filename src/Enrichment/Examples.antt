-- ===== src/Enrichment/Examples.antt =====
-- Tests of the catalog, and its theorem at a concrete input: market 1 moves to another condition.
use rust_uma.Prelude.{
  ℕ, ◌≡◌, ◌↔◌, refl, false, none, some, List, [], ◌∷◌, ◌==◌, if◌then◌else◌, Bytes, replicate,
}
use rust_uma.Model.{MarketEnrichment}
use rust_uma.Enrichment.{Catalog, no_markets, get, get_by_market_id, resolve, upsert, upsert_all}
use rust_uma.Enrichment
use rust_uma.Enrichment.Abstract.{put_all, nothing_put}
use rust_uma.Enrichment.History.{upserts_refine}

abbrev market : ℕ → ℕ → MarketEnrichment
market id byte = record {
  market_id = id;
  condition_id = replicate 32 byte;
  token_ids = replicate 32 1 ∷ [];
  tag_ids = [];
  category = 0;
  bet_type = 0;
  neg_risk = false;
}

abbrev condition_c : Bytes
condition_c = replicate 32 3

abbrev owner : Bytes → ℕ
owner [] = 0
owner (b ∷ bs) = if b == 2 then 2 else 1

abbrev moved : List MarketEnrichment
moved = market 1 1 ∷ market 2 2 ∷ market 1 3 ∷ market 1 3 ∷ []

the_old_condition_is_gone :
    (get (Enrichment.new moved) (replicate 32 1) ≡ none)
    × (resolve (Enrichment.new moved) (some 1) (replicate 32 9) ≡ some (market 1 3))
    × (resolve (Enrichment.new moved) none (replicate 32 2) ≡ some (market 2 2))
unfolding Enrichment.new upsert_all upsert get resolve get_by_market_id
the_old_condition_is_gone = (refl, refl, refl)

-- Two markets with one condition: when the first one leaves it, the second is not found any more.
a_shared_condition_loses_a_market :
    get_by_market_id (Enrichment.new (market 1 1 ∷ market 2 1 ∷ market 1 3 ∷ [])) 2 ≡ none
unfolding Enrichment.new upsert_all upsert get_by_market_id
a_shared_condition_loses_a_market = refl

upserts_refine_example :
    (get_by_market_id (Enrichment.new moved) 1 ≡ put_all nothing_put moved 1)
    × ((get (Enrichment.new moved) condition_c ≡ some (market 1 3)) ↔ (
        ((market 1 3).condition_id ≡ condition_c)
        × (put_all nothing_put moved 1 ≡ some (market 1 3))))
upserts_refine_example =
    upserts_refine owner moved 1 condition_c (market 1 3) (refl, (refl, (refl, (refl, tt))))

-- ===== src/Enrichment/History.antt =====
-- The catalog of src/enrichment.rs against the markets that were put into it.
use rust_uma.Prelude.{
  ℕ, ◌==◌, ◌≡◌, refl, sym, subst, ◌∙◌, ◌↔◌, Option, none, some, List, [], ◌∷◌, if◌then◌else◌,
  lookup, lookup-insert, lookup-insert_self, nat_eq, bytes_eq, Bytes, All, arith, Bool-cases,
  Option-cases, inl, inr,
}
use rust_uma.Model.{MarketEnrichment}
use rust_uma.Enrichment.{
  Catalog, no_markets, get, get_by_market_id, is_same, upsert, upsert_all, new,
}
use rust_uma.Enrichment.Abstract.{
  put, put_all, nothing_put, IsOwned, Represents, put-cases, same-Represents, is_same-some, changed,
  changed-held, changed_sound,
}

module _ (owner : Bytes → ℕ) where
  Represents-pointwise :
      (c : Catalog) (h g : ℕ → Option MarketEnrichment)
      → ((i : ℕ) → g i ≡ h i)
      → Represents owner c h
      → Represents owner c g
  Represents-pointwise c h g same r = record {
    owned = λ i m e. r.owned i m (sym (same i) ∙ e);
    listed = λ i m e. r.listed i m (sym (same i) ∙ e);
    unlisted = λ i e. r.unlisted i (sym (same i) ∙ e);
    held = λ i m e. r.held i m (sym (same i) ∙ e);
    sound = λ id m e. ((r.sound id m e).0, same m.market_id ∙ (r.sound id m e).1);
  }

  changed-listed :
      (c : Catalog) (h : ℕ → Option MarketEnrichment) (m : MarketEnrichment)
      → Represents owner c h
      → (i : ℕ) (n : MarketEnrichment) → put h m i ≡ some n
      → lookup i (changed owner c m).market_to_condition ≡ some n.condition_id
  changed-listed c h m r i n e = elim (put-cases owner h m n i e) [
    | inl (here, same) ↦
        subst (λ x. lookup i (changed owner c m).market_to_condition ≡ some x.condition_id) same
          (subst (λ j. lookup j (changed owner c m).market_to_condition ≡ some m.condition_id) here
            (lookup-insert_self m.market_id m.condition_id c.market_to_condition))
    | inr (other, old) ↦
        lookup-insert m.market_id i m.condition_id c.market_to_condition
        ∙ (rw other refl ∙ r.listed i n old)
  ]

  changed-unlisted :
      (c : Catalog) (h : ℕ → Option MarketEnrichment) (m : MarketEnrichment)
      → Represents owner c h
      → (i : ℕ) → put h m i ≡ none
      → lookup i (changed owner c m).market_to_condition ≡ none
  changed-unlisted c h m r i e = elim (Bool-cases (m.market_id == i)) [
    | inl same ↦ absurd (ground (arith, subst (λ b. (if b then some m else h i) ≡ none) same e))
    | inr other ↦
        lookup-insert m.market_id i m.condition_id c.market_to_condition
        ∙ (rw other refl ∙ r.unlisted i (subst (λ b. (if b then some m else h i) ≡ none) other e))
  ]

  changed-IsOwned :
      (c : Catalog) (h : ℕ → Option MarketEnrichment) (m : MarketEnrichment)
      → Represents owner c h
      → IsOwned owner m
      → (i : ℕ) (n : MarketEnrichment) → put h m i ≡ some n
      → (n.market_id ≡ i) × IsOwned owner n
  changed-IsOwned c h m r mine i n e = elim (put-cases owner h m n i e) [
    | inl (here, same) ↦ subst (λ x. (x.market_id ≡ i) × IsOwned owner x) same (here, mine)
    | inr (other, old) ↦ r.owned i n old
  ]

  upsert-Represents :
      (c : Catalog) (h : ℕ → Option MarketEnrichment) (m : MarketEnrichment)
      → Represents owner c h
      → IsOwned owner m
      → Represents owner (upsert c m).0 (put h m)
  unfolding upsert
  upsert-Represents c h m r mine =
      elim (Bool-cases (is_same (lookup m.condition_id c.by_condition) m)) [
        | inl same ↦
            let there = is_same-some (lookup m.condition_id c.by_condition) m same in
            rw same (Represents-pointwise c h (put h m) (same-Represents owner c h m r there) r)
        | inr new_row ↦ rw new_row (record {
          owned = changed-IsOwned c h m r mine;
          listed = changed-listed c h m r;
          unlisted = changed-unlisted c h m r;
          held = changed-held owner c h m r mine;
          sound = changed_sound owner c h m r;
        })
      ]

  upsert_all-Represents :
      (c : Catalog) (h : ℕ → Option MarketEnrichment) (ms : List MarketEnrichment)
      → Represents owner c h
      → All (IsOwned owner) ms
      → Represents owner (upsert_all c ms) (put_all h ms)
  unfolding upsert_all put_all
  upsert_all-Represents c h [] r mine = r
  upsert_all-Represents c h (m ∷ ms) r mine =
      upsert_all-Represents (upsert c m).0 (put h m) ms (upsert-Represents c h m r mine.0) mine.1

  no_markets-Represents : Represents owner no_markets nothing_put
  no_markets-Represents = record {
    owned = λ i m e. absurd (ground (arith, e));
    listed = λ i m e. absurd (ground (arith, e));
    unlisted = λ i e. refl;
    held = λ i m e. absurd (ground (arith, e));
    sound = λ id m e. absurd (ground (arith, e));
  }

  get_by_market_id-Represents :
      (c : Catalog) (h : ℕ → Option MarketEnrichment) (i : ℕ)
      → Represents owner c h
      → get_by_market_id c i ≡ h i
  unfolding get_by_market_id
  get_by_market_id-Represents c h i r = elim (Option-cases (h i)) [
    | inl absent ↦ rw (r.unlisted i absent) (sym absent)
    | inr (m, e) ↦ rw (r.listed i m e) (r.held i m e ∙ sym e)
  ]

  -- Markets are put into a catalog one after the other, from the start or later, where no condition
  -- belongs to two markets. A lookup by an id of a market then gives the last market that was put
  -- under the id, and nothing where there was none; and a lookup by a condition gives a market exactly
  -- if it has that condition and is the last under its id.
  pub upserts_refine :
      (ms : List MarketEnrichment) (i : ℕ) (id : Bytes) (m : MarketEnrichment)
      → All (IsOwned owner) ms
      → (get_by_market_id (new ms) i ≡ put_all nothing_put ms i)
        × ((get (new ms) id ≡ some m)
            ↔ ((m.condition_id ≡ id) × (put_all nothing_put ms m.market_id ≡ some m)))
  unfolding new get
  upserts_refine ms i id m mine =
      let r = upsert_all-Represents no_markets nothing_put ms no_markets-Represents mine in
      (
        get_by_market_id-Represents (new ms) (put_all nothing_put ms) i r,
        (
          r.sound id m,
          λ e. subst (λ x. lookup x (new ms).by_condition ≡ some m) e.0 (r.held m.market_id m e.1),
        ),
      )

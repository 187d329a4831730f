-- ===== src/Enrichment/Abstract.antt =====
-- The catalog of src/enrichment.rs as a map from the ids of markets, and the change of it by `upsert`.
use rust_uma.Prelude.{
  ℕ, ◌==◌, ◌≡◌, ◌≢◌, refl, ap, sym, subst, ◌∙◌, ◌⊎◌, true, false, Option, none, some, List, [], ◌∷◌,
  if◌then◌else◌, ◌=?◌, =?_iff, lookup, insert, remove, max, lookup-insert, lookup-remove,
  lookup-insert_self, nat_eq, bytes_eq, Bytes, arith, Bool-cases, Option-cases, inl, inr,
}
use mathlib.Core.Option.{some-injective}
use rust_uma.Model.{MarketEnrichment}
use rust_uma.Enrichment.{Catalog, is_same, market_beq_iff, drop_left}

-- The abstract catalog: the last market of each id.
abbrev pub put : (ℕ → Option MarketEnrichment) → MarketEnrichment → ℕ → Option MarketEnrichment
put h m i = if m.market_id == i then some m else h i

unfoldable pub put_all :
    (ℕ → Option MarketEnrichment) → List MarketEnrichment → ℕ → Option MarketEnrichment
put_all h [] = h
put_all h (m ∷ ms) = put_all (put h m) ms

abbrev pub nothing_put : ℕ → Option MarketEnrichment
nothing_put i = none

pub is_same-some :
    (o : Option MarketEnrichment) (m : MarketEnrichment) → is_same o m ≡ true → o ≡ some m
is_same-some none m h = absurd (ground (arith, h))
is_same-some (some old) m h = ap some ((market_beq_iff old m).0 h)

-- `owner` is the id of the market that a condition belongs to.
module _ (owner : Bytes → ℕ) where
  abbrev pub IsOwned : MarketEnrichment → Type 0
  IsOwned m = owner m.condition_id ≡ m.market_id

  pub record Represents (c : Catalog) (h : ℕ → Option MarketEnrichment) : Type 0 where
    pub owned : (i : ℕ) (m : MarketEnrichment) → h i ≡ some m → (m.market_id ≡ i) × IsOwned m
    pub listed :
        (i : ℕ) (m : MarketEnrichment)
        → h i ≡ some m
        → lookup i c.market_to_condition ≡ some m.condition_id
    pub unlisted : (i : ℕ) → h i ≡ none → lookup i c.market_to_condition ≡ none
    pub held :
        (i : ℕ) (m : MarketEnrichment)
        → h i ≡ some m
        → lookup m.condition_id c.by_condition ≡ some m
    pub sound :
        (id : Bytes) (m : MarketEnrichment)
        → lookup id c.by_condition ≡ some m
        → (m.condition_id ≡ id) × (h m.market_id ≡ some m)

  pub put-cases :
      (h : ℕ → Option MarketEnrichment) (m n : MarketEnrichment) (i : ℕ)
      → put h m i ≡ some n
      → ((m.market_id ≡ i) × (m ≡ n)) ⊎ (((m.market_id == i) ≡ false) × (h i ≡ some n))
  put-cases h m n i e = elim (Bool-cases (m.market_id == i)) [
    | inl same ↦
        inl (ground (arith, same), some-injective m n (subst (λ o. o ≡ some n) (rw same refl) e))
    | inr other ↦ inr (other, subst (λ o. o ≡ some n) (rw other refl) e)
  ]

  -- Nothing changes where the market is there already.
  pub same-Represents :
      (c : Catalog) (h : ℕ → Option MarketEnrichment) (m : MarketEnrichment)
      → Represents c h
      → lookup m.condition_id c.by_condition ≡ some m
      → (i : ℕ) → put h m i ≡ h i
  same-Represents c h m r there i = elim (Bool-cases (m.market_id == i)) [
    | inl same ↦
        rw same (
          subst (λ j. some m ≡ h j) (ground (arith, same)) (sym (r.sound m.condition_id m there).1))
    | inr other ↦ rw other refl
  ]

  left_owner :
      (c : Catalog) (h : ℕ → Option MarketEnrichment) (i : ℕ) (previous : Bytes)
      → Represents c h
      → lookup i c.market_to_condition ≡ some previous
      → owner previous ≡ i
  left_owner c h i previous r there = elim (Option-cases (h i)) [
    | inl absent ↦ absurd (ground (arith, sym (r.unlisted i absent) ∙ there))
    | inr (m, e) ↦
        let same : m.condition_id ≡ previous =
          some-injective m.condition_id previous (sym (r.listed i m e) ∙ there) in
        let known = r.owned i m e in subst (λ id. owner id ≡ i) same (known.1 ∙ known.0)
  ]

  drop_left-other :
      (i : ℕ) (o : Option Bytes) (condition_id id : Bytes) (rows : List (Bytes × MarketEnrichment))
      → ((previous : Bytes) → o ≡ some previous → owner previous ≡ i)
      → (i == owner id) ≡ false
      → lookup id (drop_left o condition_id rows) ≡ lookup id rows
  drop_left-other i none condition_id id rows left apart = refl
  drop_left-other i (some previous) condition_id id rows left apart =
      elim (Bool-cases (previous =? condition_id)) [
        | inl same ↦ rw same refl
        | inr moved ↦
            let differs : (previous =? id) ≡ false = elim (Bool-cases (previous =? id)) [
              | inl e ↦
                  let owned : owner id ≡ i =
                    subst (λ x. owner x ≡ i) ((=?_iff previous id).0 e) (left previous refl) in
                  absurd (ground (arith, owned, apart))
              | inr d ↦ d
            ] in
            rw moved (lookup-remove previous id rows ∙ rw differs refl)
      ]

  drop_left_sound :
      (o : Option Bytes) (condition_id id : Bytes) (rows : List (Bytes × MarketEnrichment))
      (n : MarketEnrichment)
      → (condition_id =? id) ≡ false
      → lookup id (drop_left o condition_id rows) ≡ some n
      → (lookup id rows ≡ some n) × (o ≢ some id)
  drop_left_sound none condition_id id rows n apart there = (there, λ e. absurd (ground (arith, e)))
  drop_left_sound (some previous) condition_id id rows n apart there =
      elim (Bool-cases (previous =? condition_id)) [
        | inl same ↦ (
          subst (λ b. lookup id (if b then rows else remove previous rows) ≡ some n) same there,
          λ e.
              let here : previous ≡ id = some-injective previous id e in
              let there' : condition_id ≡ id = sym ((=?_iff previous condition_id).0 same) ∙ here in
              absurd (ground (arith, (=?_iff condition_id id).1 there', apart)),
        )
        | inr moved ↦
            let found : lookup id (remove previous rows) ≡ some n =
              subst (λ b. lookup id (if b then rows else remove previous rows) ≡ some n) moved
                there in
            elim (Bool-cases (previous =? id)) [
              | inl gone ↦ absurd (
                  ground (
                    arith,
                    subst (λ b. (if b then none else lookup id rows) ≡ some n) gone
                        (sym (lookup-remove previous id rows) ∙ found),
                  ))
              | inr kept ↦ (
                subst (λ b. (if b then none else lookup id rows) ≡ some n) kept
                    (sym (lookup-remove previous id rows) ∙ found),
                λ e.
                    absurd
                      (ground (arith, (=?_iff previous id).1 (some-injective previous id e), kept)),
              )
            ]
      ]

  put_self : (h : ℕ → Option MarketEnrichment) (m : MarketEnrichment) → put h m m.market_id ≡ some m
  put_self h m = let same : (m.market_id == m.market_id) ≡ true = ground arith in rw same refl

  abbrev pub changed : Catalog → MarketEnrichment → Catalog
  changed c m = record {
    max_market_id = max c.max_market_id m.market_id;
    market_to_condition = insert m.market_id m.condition_id c.market_to_condition;
    by_condition =
        insert m.condition_id m
          (drop_left (lookup m.market_id c.market_to_condition) m.condition_id c.by_condition);
  }

  pub changed-held :
      (c : Catalog) (h : ℕ → Option MarketEnrichment) (m : MarketEnrichment)
      → Represents c h
      → IsOwned m
      → (i : ℕ) (n : MarketEnrichment) → put h m i ≡ some n
      → lookup n.condition_id (changed c m).by_condition ≡ some n
  changed-held c h m r mine i n e = elim (put-cases h m n i e) [
    | inl (here, same) ↦
        subst (λ x. lookup x.condition_id (changed c m).by_condition ≡ some x) same
          (lookup-insert_self m.condition_id m
            (drop_left (lookup m.market_id c.market_to_condition) m.condition_id c.by_condition))
    | inr (other, old) ↦
        let known = r.owned i n old in
        let apart : (m.condition_id =? n.condition_id) ≡ false =
          elim (Bool-cases (m.condition_id =? n.condition_id)) [
            | inl same ↦
                let owned : owner m.condition_id ≡ owner n.condition_id =
                  ap owner ((=?_iff m.condition_id n.condition_id).0 same) in
                absurd (ground (arith, owned, mine, known, other))
            | inr d ↦ d
          ] in
        lookup-insert m.condition_id n.condition_id m
          (drop_left (lookup m.market_id c.market_to_condition) m.condition_id c.by_condition)
        ∙ (rw apart refl
            ∙ (drop_left-other m.market_id (lookup m.market_id c.market_to_condition) m.condition_id
                  n.condition_id c.by_condition
                  (λ previous there. left_owner c h m.market_id previous r there)
                  (ground (arith, known, other))
                ∙ r.held i n old))
  ]

  pub changed_sound :
      (c : Catalog) (h : ℕ → Option MarketEnrichment) (m : MarketEnrichment)
      → Represents c h
      → (id : Bytes) (n : MarketEnrichment) → lookup id (changed c m).by_condition ≡ some n
      → (n.condition_id ≡ id) × (put h m n.market_id ≡ some n)
  changed_sound c h m r id n e =
      let rows =
        drop_left (lookup m.market_id c.market_to_condition) m.condition_id c.by_condition in
      let split : (if m.condition_id =? id then some m else lookup id rows) ≡ some n =
        sym (lookup-insert m.condition_id id m rows) ∙ e in
      elim (Bool-cases (m.condition_id =? id)) [
        | inl same ↦
            let it : m ≡ n =
              some-injective m n
                (subst (λ b. (if b then some m else lookup id rows) ≡ some n) same split) in
            subst (λ x. (x.condition_id ≡ id) × (put h m x.market_id ≡ some x)) it
              ((=?_iff m.condition_id id).0 same, put_self h m)
        | inr apart ↦
            let old =
              drop_left_sound (lookup m.market_id c.market_to_condition) m.condition_id id
                c.by_condition n apart
                (subst (λ b. (if b then some m else lookup id rows) ≡ some n) apart split) in
            let known = r.sound id n old.0 in
            elim (Bool-cases (m.market_id == n.market_id)) [
              | inl same ↦
                  let gone : lookup m.market_id c.market_to_condition ≡ some id =
                    subst (λ j. lookup j c.market_to_condition ≡ some id) (ground (arith, same))
                      (r.listed n.market_id n known.1 ∙ ap some known.0) in
                  absurd (old.1 gone)
              | inr other ↦ (known.0, rw other known.1)
            ]
      ]

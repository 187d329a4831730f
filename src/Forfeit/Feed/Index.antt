-- ===== src/Forfeit/Feed/Index.antt =====
-- The index of src/forfeit.rs against the markets of the matches: the ids that stand in each.
use rust_uma.Prelude.{
  ℕ, ◌==◌, ◌≡◌, refl, sym, ap, ◌∙◌, subst, Bool, true, false, not, ◌||◌, Option, none, some, List,
  [], ◌∷◌, ◌++◌, String, string_eq, ◌=?◌, =?_iff, if◌then◌else◌, ltb, any, lookup, contains,
  contains-append, keys, contains-keys-insert, lookup-named, insert_ordered, nat_eq, bytes_eq,
  Bytes, sort_by, sort_by-count, count, map, arith, Bool-cases, Option-cases, inl, inr,
}
use rust_uma.Forfeit.{
  BlockedMarket, BlockedMatch, Entry, FeedMarket, Hex, Merge, push_new, is_id, or_insert, add_all,
}
use rust_uma.Forfeit.Feed.{detailed, bare, merge_markets, merge_ids, id_of}

pub contains-or_insert :
    (id j : Bytes) (e : Entry) (index : List (Bytes × Entry))
    → contains j (keys (or_insert id e index)) ≡ ((id =? j) || contains j (keys index))
unfolding or_insert
contains-or_insert id j e index = elim (Option-cases (lookup id index)) [
  | inl fresh ↦ rw (or_insert, fresh) (contains-keys-insert id j e index)
  | inr (old, there) ↦
      let named : contains id (keys index) ≡ true = lookup-named id old index there in
      rw (or_insert, there)
        (elim (Bool-cases (id =? j)) [
          | inl same ↦
              rw same (subst (λ k. contains k (keys index) ≡ true) ((=?_iff id j).0 same) named)
          | inr other ↦ rw other refl
        ])
]

pub contains-add_all :
    (e : Entry) (ids : List Bytes) (j : Bytes) (index : List (Bytes × Entry))
    → contains j (keys (add_all e ids index)) ≡ (contains j ids || contains j (keys index))
unfolding add_all
contains-add_all e [] j index = refl
contains-add_all e (id ∷ ids) j index =
    ground (arith, contains-add_all e ids j (or_insert id e index), contains-or_insert id j e index)

any-append {ℓ} :
    {A : Type ℓ} (p : A → Bool) (xs ys : List A) → any p (xs ++ ys) ≡ (any p xs || any p ys)
any-append p [] ys = refl
any-append p (x ∷ xs) ys = ground (arith, any-append p xs ys)

any-count {ℓ} : {A : Type ℓ} (p : A → Bool) (xs : List A) → any p xs ≡ ltb 0 (count p xs)
any-count p [] = refl
any-count p (x ∷ xs) = ground (arith, any-count p xs)

pub any-sort_by {ℓ} :
    {A : Type ℓ} (goes_after : A → A → Bool) (p : A → Bool) (xs : List A)
    → any p (sort_by goes_after xs) ≡ any p xs
any-sort_by goes_after p xs =
    any-count p (sort_by goes_after xs)
    ∙ (ap (ltb 0) (sort_by-count goes_after p xs) ∙ sym (any-count p xs))

pub any-known {ℓ} :
    {A : Type ℓ} (p : A → Bool) (id : String) (name : A → String) (xs : List A)
    → ((x : A) → name x ≡ id → p x ≡ true)
    → contains id (map name xs) ≡ true
    → any p xs ≡ true
any-known p id name [] all h = ground arith
any-known p id name (x ∷ xs) all h =
    ground (arith, any-known p id name xs all, =?_iff (name x) id, all x)

-- A match that replaces the one of its id, or comes new.
pub any-insert_ordered {ℓ} :
    {A : Type ℓ} (q : A → Bool) (k : ℕ) (new : A) (ms : List (ℕ × A))
    → ((m : A) → lookup k ms ≡ some m → q m ≡ true → q new ≡ true)
    → any (λ p. q p.1) (insert_ordered k new ms) ≡ (q new || any (λ p. q p.1) ms)
any-insert_ordered q k new [] grows = refl
any-insert_ordered q k new ((j, m) ∷ ms) grows = elim (Bool-cases (j == k)) [
  | inl same ↦
      let grown : q m ≡ true → q new ≡ true = grows m (rw same refl) in
      rw same (ground (arith, grown))
  | inr other ↦
      let rest : any (λ p. q p.1) (insert_ordered k new ms) ≡ (q new || any (λ p. q p.1) ms) =
        any-insert_ordered q k new ms (λ x there. grows x (rw other there)) in
      rw other (elim (Bool-cases (ltb k j)) [
        | inl before ↦ rw before refl
        | inr later ↦ rw later (ground (arith, rest))
      ])
]

module _ (H : Hex) where
  open H use {hex_prefixed, read, round_trip}

  abbrev pub is_for : Bytes → Option Bytes → Bool
  is_for id none = false
  is_for id (some b) = b =? id

  -- A market whose text reads to `id`.
  abbrev pub stands_for : Bytes → BlockedMarket → Bool
  stands_for id m = is_for id (id_of H (read m.condition_id))

  abbrev pub claims : Bytes → BlockedMatch → Bool
  claims id m = any (stands_for id) m.markets

  -- Whether `id` is of a market of one of the matches.
  abbrev pub is_claimed : Bytes → List (ℕ × BlockedMatch) → Bool
  is_claimed id ms = any (λ p. claims id p.1) ms

  -- The index has the ids of the matches' markets, and no others.
  abbrev pub IsExact : List (Bytes × Entry) → List (ℕ × BlockedMatch) → Type 0
  IsExact index ms = (id : Bytes) → contains id (keys index) ≡ is_claimed id ms

  pub stands_for-hex_prefixed :
      (id i : Bytes) (m : BlockedMarket)
      → m.condition_id ≡ hex_prefixed i
      → is_id i ≡ true
      → stands_for id m ≡ (i =? id)
  stands_for-hex_prefixed id i m named h = rw (named, round_trip i, h) refl

  -- A market of a merge was there before, or its id is new.
  abbrev pub Accounted : Bytes → List BlockedMarket → Merge → Type 0
  Accounted id before acc =
      any (stands_for id) acc.markets ≡ (any (stands_for id) before || contains id acc.new_ids)

  push-Accounted :
      (id : Bytes) (before : List BlockedMarket) (m : BlockedMarket) (i : Bytes) (acc : Merge)
      → m.condition_id ≡ hex_prefixed i
      → is_id i ≡ true
      → Accounted id before acc
      → Accounted id before (push_new m i acc)
  push-Accounted id before m i acc named h ok = ground (
    arith,
    any-append (stands_for id) acc.markets (m ∷ []),
    contains-append id acc.new_ids (i ∷ []),
    stands_for-hex_prefixed id i m named h,
    ok,
  )

  if-Accounted :
      (id : Bytes) (before : List BlockedMarket) (b : Bool) (x y : Merge)
      → Accounted id before x
      → (b ≡ false → Accounted id before y)
      → Accounted id before (if b then x else y)
  if-Accounted id before true x y hx hy = hx
  if-Accounted id before false x y hx hy = hy refl

  pub merge_markets-Accounted :
      (id : Bytes) (known : List String) (before : List BlockedMarket) (ms : List FeedMarket)
      (acc : Merge)
      → Accounted id before acc
      → Accounted id before (merge_markets H known ms acc)
  unfolding merge_markets
  merge_markets-Accounted id known before [] acc ok = ok
  merge_markets-Accounted id known before (m ∷ ms) acc ok =
      merge_markets-Accounted id known before ms _ (
        if-Accounted id before
          (not (is_id m.condition_id) || contains (hex_prefixed m.condition_id) known) acc
          (push_new (detailed H m) m.condition_id acc) ok
          (λ h.
            push-Accounted id before (detailed H m) m.condition_id acc refl (ground (arith, h)) ok))

  pub merge_ids-Accounted :
      (id : Bytes) (known : List String) (before : List BlockedMarket) (ids : List Bytes)
      (acc : Merge)
      → Accounted id before acc
      → Accounted id before (merge_ids H known ids acc)
  unfolding merge_ids
  merge_ids-Accounted id known before [] acc ok = ok
  merge_ids-Accounted id known before (i ∷ ids) acc ok = merge_ids-Accounted id known before ids _ (
      if-Accounted id before
        (not (is_id i) || (contains (hex_prefixed i) known || contains i acc.new_ids)) acc
        (push_new (bare H i) i acc) ok
        (λ h. push-Accounted id before (bare H i) i acc refl (ground (arith, h)) ok))

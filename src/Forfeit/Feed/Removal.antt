-- ===== src/Forfeit/Feed/Removal.antt =====
-- The index of src/forfeit.rs built again from the matches, the removal of old matches, and an event
-- that was held back.
use rust_uma.Prelude.{
  ℕ, ◌-◌, ◌==◌, ◌≡◌, ◌≤◌, refl, sym, ap, ◌∙◌, subst, Bool, true, false, ◌||◌, Option, none, some,
  List, [], ◌∷◌, string_eq, ltb, length, any, filterb, lookup, contains, keys, u64_add, nat_eq,
  bytes_eq, Bytes, arith, Bool-cases, inl, inr,
}
use mathlib.Core.Option.{some-injective}
use rust_uma.Model.{EventRecord}
use rust_uma.Forfeit.{BlockedMarket, BlockedMatch, Entry, ForfeitBlocklist, Hex}
use rust_uma.Forfeit.Feed.{
  id_of, add_named, index_markets, index_matches, build_index, is_kept, prune, prune_state,
  record_blocked, counted,
}
use rust_uma.Forfeit.Feed.Index.{
  contains-or_insert, any-insert_ordered, is_for, stands_for, claims, is_claimed, IsExact,
}
use rust_uma.Forfeit.Feed.Blocking.{any-lookup}

length-filterb {ℓ} : {A : Type ℓ} (p : A → Bool) (xs : List A) → length (filterb p xs) ≤ length xs
length-filterb p [] = omega arith
length-filterb p (x ∷ xs) = ground (arith, length-filterb p xs)

-- A filter that takes nothing away is the identity.
pub filterb-full {ℓ} :
    {A : Type ℓ} (p : A → Bool) (xs : List A)
    → ltb 0 (length xs - length (filterb p xs)) ≡ false
    → filterb p xs ≡ xs
filterb-full p [] h = refl
filterb-full p (x ∷ xs) h = elim (Bool-cases (p x)) [
  | inl keeps ↦
      let h' : ltb 0 (length xs - length (filterb p xs)) ≡ false = ground (arith, h, keeps) in
      rw keeps (ap (λ ys. x ∷ ys) (filterb-full p xs h'))
  | inr drops ↦ absurd (ground (arith, h, drops, length-filterb p xs))
]

module _ (H : Hex) where
  open H use {hex_prefixed, read}

  contains-add_named :
      (e : Entry) (id : Bytes) (o : Option Bytes) (index : List (Bytes × Entry))
      → contains id (keys (add_named H e o index)) ≡ (is_for H id o || contains id (keys index))
  contains-add_named e id none index = refl
  contains-add_named e id (some i) index = contains-or_insert i id e index

  contains-index_markets :
      (id : Bytes) (e : Entry) (ms : List BlockedMarket) (index : List (Bytes × Entry))
      → contains id (keys (index_markets H e ms index))
        ≡ (any (stands_for H id) ms || contains id (keys index))
  unfolding index_markets
  contains-index_markets id e [] index = refl
  contains-index_markets id e (m ∷ ms) index =
      let o = id_of H (read m.condition_id) in
      ground (
        arith,
        contains-index_markets id e ms (add_named H e o index),
        contains-add_named e id o index,
      )

  contains-index_matches :
      (id : Bytes) (ms : List (ℕ × BlockedMatch)) (index : List (Bytes × Entry))
      → contains id (keys (index_matches H ms index))
        ≡ (is_claimed H id ms || contains id (keys index))
  unfolding index_matches
  contains-index_matches id [] index = refl
  contains-index_matches id ((k, m) ∷ ms) index =
      let e : Entry = record { match_id = m.pandascore_match_id; added_at_us = m.added_at_us } in
      ground (
        arith,
        contains-index_matches id ms (index_markets H e m.markets index),
        contains-index_markets id e m.markets index,
      )

  -- The index built from the matches is exact.
  pub build_index-IsExact : (ms : List (ℕ × BlockedMatch)) → IsExact H (build_index H ms) ms
  unfolding build_index
  build_index-IsExact ms id = ground (arith, contains-index_matches id ms [])

  pub prune-IsExact :
      (l : ForfeitBlocklist) (now : ℕ)
      → IsExact H l.index l.state.matches
      → IsExact H (prune H l now).0.index (prune H l now).0.state.matches
  unfolding prune prune_state
  prune-IsExact l now exact =
      let kept = filterb (is_kept H l.ttl_us now) l.state.matches in
      elim (Bool-cases (l.ttl_us == 0)) [
        | inl forever ↦ rw forever exact
        | inr limited ↦
            rw limited (elim (Bool-cases (ltb 0 (length l.state.matches - length kept))) [
              | inl fewer ↦ rw fewer (build_index-IsExact kept)
              | inr same ↦ rw same (
                  subst (λ ms. IsExact H l.index ms)
                    (sym (filterb-full (is_kept H l.ttl_us now) l.state.matches same)) exact)
            ])
      ]

  counted-is_claimed :
      (id : Bytes) (k : ℕ) (o : Option BlockedMatch) (ms : List (ℕ × BlockedMatch))
      → lookup k ms ≡ o
      → is_claimed H id (counted H k o ms) ≡ is_claimed H id ms
  counted-is_claimed id k none ms e = refl
  counted-is_claimed id k (some m) ms e = ground (
    arith,
    any-insert_ordered (claims H id) k (record m { blocked_events = u64_add m.blocked_events 1 }) ms
        (λ old there h. subst (λ b. claims H id b ≡ true) (some-injective old m (sym there ∙ e)) h),
    any-lookup (claims H id) k m ms e,
  )

  pub record_blocked-is_claimed :
      (id : Bytes) (l : ForfeitBlocklist) (r : EventRecord) (k now : ℕ)
      → is_claimed H id (record_blocked H l r k now).state.matches ≡ is_claimed H id l.state.matches
  unfolding record_blocked
  record_blocked-is_claimed id l r k now =
      counted-is_claimed id k (lookup k l.state.matches) l.state.matches refl

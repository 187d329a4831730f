-- ===== src/Forfeit/Feed/Blocking.antt =====
-- The list of src/forfeit.rs after a message of the feed, after the removal of old matches and after
-- an event that was held back.
use rust_uma.Prelude.{
  ℕ, ◌≡◌, refl, sym, ap, ◌∙◌, subst, Bool, true, false, not, ◌||◌, some, List, [], ◌∷◌, String,
  string_eq, ◌=?◌, =?_iff, if◌then◌else◌, any, lookup, contains, contains-append, nat_eq, bytes_eq,
  Bytes, sort_by, arith, Bool-cases, Option-cases, inl, inr,
}
use rust_uma.Forfeit.{
  BlockedMarket, BlockedMatch, ForfeitBlocklist, ForfeitEvent, Hex, Merge, push_new, is_id,
}
use rust_uma.Forfeit.Feed.{
  bare, merge_markets, merge_ids, merged, known_ids, market_after, is_empty, or_new, is_new,
  update_match, apply_state, apply_index, apply, changes,
}
use rust_uma.Forfeit.Feed.Index.{
  contains-add_all, any-sort_by, any-known, any-insert_ordered, stands_for, claims, is_claimed,
  IsExact, Accounted, merge_markets-Accounted, merge_ids-Accounted, stands_for-hex_prefixed,
}

pub any-lookup {ℓ} :
    {A : Type ℓ} (q : A → Bool) (k : ℕ) (m : A) (ms : List (ℕ × A))
    → lookup k ms ≡ some m
    → q m ≡ true
    → any (λ p. q p.1) ms ≡ true
any-lookup q k m [] there h = ground arith
any-lookup q k m ((j, n) ∷ ms) there h = ground (arith, any-lookup q k m ms, ap q)

module _ (H : Hex) where
  open H use {hex_prefixed, read, round_trip}

  merged-Accounted :
      (id : Bytes) (markets : List BlockedMarket) (event : ForfeitEvent)
      → Accounted H id markets (merged H markets event)
  unfolding merged
  merged-Accounted id markets event =
      merge_ids-Accounted H id (known_ids H markets) markets event.condition_ids _
        (merge_markets-Accounted H id (known_ids H markets) markets event.markets _ (ground arith))

  contains-is_empty :
      (id : Bytes) (ids : List Bytes) → is_empty H ids ≡ true → contains id ids ≡ false
  contains-is_empty id [] h = refl
  contains-is_empty id (i ∷ ids) h = ground arith

  after-merge :
      (id : Bytes) (before : List BlockedMarket) (acc : Merge)
      → Accounted H id before acc
      → any
          (stands_for H id)
          (if is_empty H acc.new_ids then before else sort_by (market_after H) acc.markets)
        ≡ (any (stands_for H id) before || contains id acc.new_ids)
  after-merge id before acc ok = elim (Bool-cases (is_empty H acc.new_ids)) [
    | inl none_new ↦ rw none_new (ground (arith, contains-is_empty id acc.new_ids none_new))
    | inr some_new ↦ rw some_new (any-sort_by (market_after H) (stands_for H id) acc.markets ∙ ok)
  ]

  pub update_match-claims :
      (id : Bytes) (m : BlockedMatch) (event : ForfeitEvent) (now : ℕ) (changed : Bool)
      → claims H id (update_match H m event now changed)
        ≡ (claims H id m || contains id (merged H m.markets event).new_ids)
  unfolding update_match
  update_match-claims id m event now changed =
      after-merge id m.markets (merged H m.markets event) (merged-Accounted id m.markets event)

  claims-or_new :
      (id : Bytes) (k : ℕ) (event : ForfeitEvent) (now : ℕ) (ms : List (ℕ × BlockedMatch))
      → claims H id (or_new H (lookup k ms) event now) ≡ true
      → is_claimed H id ms ≡ true
  claims-or_new id k event now ms h = elim (Option-cases (lookup k ms)) [
    | inl fresh ↦
        absurd (ground (arith, subst (λ o. claims H id (or_new H o event now) ≡ true) fresh h))
    | inr (m, there) ↦
        any-lookup (claims H id) k m ms there
          (subst (λ o. claims H id (or_new H o event now) ≡ true) there h)
  ]

  -- The ids of the matches after a message: those before, and the new ones.
  apply-is_claimed :
      (id : Bytes) (l : ForfeitBlocklist) (event : ForfeitEvent) (now : ℕ)
      → let m = or_new H (lookup event.pandascore_match_id l.state.matches) event now in
        is_claimed H id (apply H l event now).0.state.matches ≡ (
          (claims H id m || contains id (merged H m.markets event).new_ids)
          || is_claimed H id l.state.matches)
  unfolding apply apply_state
  apply-is_claimed id l event now =
      let known = lookup event.pandascore_match_id l.state.matches in
      let m = or_new H known event now in
      let changed = is_new H known || changes H m event in
      let new = update_match H m event now changed in
      let of_new : claims H id new
          ≡ (claims H id m || contains id (merged H m.markets event).new_ids) =
        update_match-claims id m event now changed in
      any-insert_ordered (claims H id) event.pandascore_match_id new l.state.matches (λ old there h.
        ground
          (arith, of_new, subst (λ o. claims H id (or_new H o event now) ≡ true) (sym there) h))
      ∙ ap (λ b. b || is_claimed H id l.state.matches) of_new

  -- A message of the feed keeps the index exact.
  pub apply-IsExact :
      (l : ForfeitBlocklist) (event : ForfeitEvent) (now : ℕ)
      → IsExact H l.index l.state.matches
      → IsExact H (apply H l event now).0.index (apply H l event now).0.state.matches
  unfolding apply apply_state apply_index
  apply-IsExact l event now exact id =
      let m = or_new H (lookup event.pandascore_match_id l.state.matches) event now in
      ground (
        arith,
        apply-is_claimed id l event now,
        exact id,
        claims-or_new id event.pandascore_match_id event now l.state.matches,
        contains-add_all
            (record { match_id = event.pandascore_match_id; added_at_us = m.added_at_us })
            (merged H m.markets event).new_ids id l.index,
      )

  merge_ids-keeps :
      (id : Bytes) (known : List String) (ids : List Bytes) (acc : Merge)
      → contains id acc.new_ids ≡ true
      → contains id (merge_ids H known ids acc).new_ids ≡ true
  unfolding merge_ids
  merge_ids-keeps id known [] acc h = h
  merge_ids-keeps id known (i ∷ ids) acc h =
      let skip = not (is_id i) || (contains (hex_prefixed i) known || contains i acc.new_ids) in
      merge_ids-keeps id known ids (if skip then acc else push_new (bare H i) i acc)
        (elim (Bool-cases skip) [
          | inl skipped ↦ rw skipped h
          | inr pushed ↦ rw pushed (ground (arith, contains-append id acc.new_ids (i ∷ []), h))
        ])

  -- One turn of the loop of `merge_ids`.
  abbrev next_merge : List String → Bytes → Merge → Merge
  next_merge known i acc =
      if not (is_id i) || (contains (hex_prefixed i) known || contains i acc.new_ids)
      then acc
      else push_new (bare H i) i acc

  next_merge-contains :
      (id : Bytes) (known : List String) (acc : Merge)
      → is_id id ≡ true
      → contains (hex_prefixed id) known ≡ false
      → contains id (next_merge known id acc).new_ids ≡ true
  next_merge-contains id known acc well fresh = elim (Bool-cases (contains id acc.new_ids)) [
    | inl seen ↦ rw (well, fresh, seen) seen
    | inr new ↦
        rw (well, fresh, new)
          (ground (arith, contains-append id acc.new_ids (id ∷ []), =?_iff id id))
  ]

  merge_ids-contains :
      (id : Bytes) (known : List String) (ids : List Bytes) (acc : Merge)
      → is_id id ≡ true
      → contains id ids ≡ true
      → (contains (hex_prefixed id) known || contains id (merge_ids H known ids acc).new_ids) ≡ true
  unfolding merge_ids
  merge_ids-contains id known [] acc well h = ground arith
  merge_ids-contains id known (i ∷ ids) acc well h =
      let next = next_merge known i acc in
      elim (Bool-cases (i =? id)) [
        | inl same ↦ elim (Bool-cases (contains (hex_prefixed id) known)) [
          | inl old ↦ ground (arith, old)
          | inr fresh ↦
              let e : i ≡ id = (=?_iff i id).0 same in
              let there : contains id next.new_ids ≡ true =
                subst (λ j. contains id (next_merge known j acc).new_ids ≡ true) (sym e)
                  (next_merge-contains id known acc well fresh) in
              ground (arith, merge_ids-keeps id known ids next there)
        ]
        | inr other ↦ merge_ids-contains id known ids next well (ground arith)
      ]

  -- Every id of the message is of one of the match's markets afterwards.
  pub merged-contains :
      (id : Bytes) (markets : List BlockedMarket) (event : ForfeitEvent)
      → is_id id ≡ true
      → contains id event.condition_ids ≡ true
      → (any (stands_for H id) markets || contains id (merged H markets event).new_ids) ≡ true
  unfolding merged
  merged-contains id markets event well h = ground (
    arith,
    merge_ids-contains id (known_ids H markets) event.condition_ids
        (merge_markets H (known_ids H markets) event.markets
          (record { markets = markets; new_ids = [] }))
        well h,
    any-known (stands_for H id) (hex_prefixed id) (λ m. m.condition_id) markets
        (λ m named. stands_for-hex_prefixed H id id m named well ∙ (=?_iff id id).1 refl),
  )

  pub apply-claims :
      (id : Bytes) (l : ForfeitBlocklist) (event : ForfeitEvent) (now : ℕ)
      → is_id id ≡ true
      → contains id event.condition_ids ≡ true
      → is_claimed H id (apply H l event now).0.state.matches ≡ true
  apply-claims id l event now well h =
      let m = or_new H (lookup event.pandascore_match_id l.state.matches) event now in
      ground (arith, apply-is_claimed id l event now, merged-contains id m.markets event well h)

  -- No message takes an id away.
  pub apply-grows :
      (id : Bytes) (l : ForfeitBlocklist) (event : ForfeitEvent) (now : ℕ)
      → is_claimed H id l.state.matches ≡ true
      → is_claimed H id (apply H l event now).0.state.matches ≡ true
  apply-grows id l event now h = ground (arith, apply-is_claimed id l event now, h)

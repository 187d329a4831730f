-- ===== src/Forfeit/Saved/Since.antt =====
-- What the steps of src/forfeit.rs leave of the matches that claim an id.
use rust_uma.Prelude.{
  ℕ, ◌==◌, ◌≡◌, ◌≢◌, refl, sym, ap, ◌∙◌, subst, Bool, true, ◌&&◌, ◌||◌, Option, none, some, List,
  [], ◌∷◌, string_eq, ltb, leb, any, filterb, lookup, contains, nat_eq, bytes_eq, Bytes, u64_add,
  arith, Bool-cases, inl, inr, keys, ◌⊎◌,
}
use mathlib.Core.Option.{some-injective}
use rust_uma.Model.{EventRecord}
use rust_uma.Forfeit.{BlockedMatch, Entry, ForfeitBlocklist, ForfeitEvent, Hex}
use rust_uma.Forfeit.Feed.{
  merged, or_new, is_new, changes, update_match, saturating_add, Pending, apply_state, apply_index,
  apply, prune_state, record_blocked, is_kept, counted,
}
use rust_uma.Forfeit.Feed.Index.{any-insert_ordered, contains-add_all, claims}
use rust_uma.Forfeit.Feed.Blocking.{update_match-claims}
use rust_uma.Forfeit.Saved.{
  Tasks, Step, merges, indexes, removes, stores, holds_back, begin_apply, end_apply, begin_prune,
  end_prune, step,
}

module _ (H : Hex) where
  -- A match that claims `id` and is on the list since `since` or later.
  abbrev claims_since : Bytes → ℕ → BlockedMatch → Bool
  claims_since id since m = claims H id m && leb since m.added_at_us

  abbrev pub is_claimed_since : Bytes → ℕ → List (ℕ × BlockedMatch) → Bool
  is_claimed_since id since ms = any (λ p. claims_since id since p.1) ms

  added_at-update_match :
      (m : BlockedMatch) (event : ForfeitEvent) (now : ℕ) (changed : Bool)
      → (update_match H m event now changed).added_at_us ≡ m.added_at_us
  unfolding update_match
  added_at-update_match m event now changed = refl

  update_match-claims_since :
      (id : Bytes) (since : ℕ) (m : BlockedMatch) (event : ForfeitEvent) (now : ℕ) (changed : Bool)
      → claims_since id since (update_match H m event now changed) ≡ (
          (claims H id m || contains id (merged H m.markets event).new_ids)
          && leb since m.added_at_us)
  update_match-claims_since id since m event now changed =
      let kept : (update_match H m event now changed).added_at_us ≡ m.added_at_us =
        added_at-update_match m event now changed in
      ground (arith, update_match-claims H id m event now changed, kept)

  pub apply-since :
      (id : Bytes) (since : ℕ) (l : ForfeitBlocklist) (event : ForfeitEvent) (now : ℕ)
      → let m = or_new H (lookup event.pandascore_match_id l.state.matches) event now in
        is_claimed_since id since (apply H l event now).0.state.matches ≡ (
          ((claims H id m || contains id (merged H m.markets event).new_ids)
            && leb since m.added_at_us)
          || is_claimed_since id since l.state.matches)
  unfolding apply apply_state
  apply-since id since l event now =
      let known = lookup event.pandascore_match_id l.state.matches in
      let m = or_new H known event now in
      let changed = is_new H known || changes H m event in
      let new = update_match H m event now changed in
      let of_new = update_match-claims_since id since m event now changed in
      any-insert_ordered (claims_since id since) event.pandascore_match_id new l.state.matches
        (λ old there h. ground (
          arith,
          of_new,
          subst (λ o. claims_since id since (or_new H o event now) ≡ true) (sym there) h,
        ))
      ∙ ap (λ b. b || is_claimed_since id since l.state.matches) of_new

  filterb-since :
      (id : Bytes) (since ttl_us now : ℕ) (ms : List (ℕ × BlockedMatch))
      → ltb now (saturating_add H since ttl_us) ≡ true
      → is_claimed_since id since ms ≡ true
      → is_claimed_since id since (filterb (is_kept H ttl_us now) ms) ≡ true
  filterb-since id since ttl_us now [] early h = h
  filterb-since id since ttl_us now (p ∷ ms) early h =
      ground (arith, filterb-since id since ttl_us now ms early)

  -- The clock of every removal is before the time to live is over.
  abbrev pub IsEarly : ℕ → ℕ → Step → Type 0
  IsEarly since ttl_us (merges event now) = Unit
  IsEarly since ttl_us indexes = Unit
  IsEarly since ttl_us (removes now) = ltb now (saturating_add H since ttl_us) ≡ true
  IsEarly since ttl_us stores = Unit
  IsEarly since ttl_us (holds_back r match_id now) = Unit

  prune_state-since :
      (id : Bytes) (since : ℕ) (l : ForfeitBlocklist) (now : ℕ)
      → ltb now (saturating_add H since l.ttl_us) ≡ true
      → is_claimed_since id since l.state.matches ≡ true
      → is_claimed_since id since (prune_state H l now).0.state.matches ≡ true
  unfolding prune_state
  prune_state-since id since l now early h = elim (Bool-cases (l.ttl_us == 0)) [
    | inl forever ↦ rw forever h
    | inr limited ↦ rw limited (filterb-since id since l.ttl_us now l.state.matches early h)
  ]

  pub prune_state-kept :
      (l : ForfeitBlocklist) (now : ℕ)
      → let l' = (prune_state H l now).0 in
        (l'.index ≡ l.index) × (l'.ttl_us ≡ l.ttl_us) × (l'.enabled ≡ l.enabled)
  unfolding prune_state
  prune_state-kept l now = elim (Bool-cases (l.ttl_us == 0)) [
    | inl forever ↦ rw forever (refl, refl, refl)
    | inr limited ↦ rw limited (refl, refl, refl)
  ]

  counted-since :
      (id : Bytes) (since k : ℕ) (o : Option BlockedMatch) (ms : List (ℕ × BlockedMatch))
      → lookup k ms ≡ o
      → is_claimed_since id since ms ≡ true
      → is_claimed_since id since (counted H k o ms) ≡ true
  counted-since id since k none ms e h = h
  counted-since id since k (some m) ms e h = ground (
    arith,
    h,
    any-insert_ordered (claims_since id since) k
        (record m { blocked_events = u64_add m.blocked_events 1 }) ms
        (λ old there h.
          subst (λ b. claims_since id since b ≡ true) (some-injective old m (sym there ∙ e)) h),
  )

  record_blocked-since :
      (id : Bytes) (since : ℕ) (l : ForfeitBlocklist) (r : EventRecord) (k now : ℕ)
      → is_claimed_since id since l.state.matches ≡ true
      → is_claimed_since id since (record_blocked H l r k now).state.matches ≡ true
  unfolding record_blocked
  record_blocked-since id since l r k now h =
      counted-since id since k (lookup k l.state.matches) l.state.matches refl h

  -- What a step keeps of the settings.
  abbrev pub SameSettings : Tasks → Tasks → Type 0
  SameSettings t t' = (t'.list.ttl_us ≡ t.list.ttl_us) × (t'.list.enabled ≡ t.list.enabled)

  pub begin_apply-since :
      (id : Bytes) (since : ℕ) (o : Option Pending) (t : Tasks) (event : ForfeitEvent) (now : ℕ)
      → is_claimed_since id since t.list.state.matches ≡ true
      → (is_claimed_since id since (begin_apply H o t event now).list.state.matches ≡ true)
        × SameSettings t (begin_apply H o t event now)
        × ((begin_apply H o t event now).list.index ≡ t.list.index)
        × ((begin_apply H o t event now).pruning ≡ t.pruning)
  unfolding apply
  begin_apply-since id since (some p) t event now h = (h, (refl, refl), refl, refl)
  begin_apply-since id since none t event now h =
      (ground (arith, apply-since id since t.list event now, h), (refl, refl), refl, refl)

  pub begin_prune-since :
      (id : Bytes) (since : ℕ) (o : Option (List (Bytes × Entry))) (t : Tasks) (now : ℕ)
      → ltb now (saturating_add H since t.list.ttl_us) ≡ true
      → is_claimed_since id since t.list.state.matches ≡ true
      → (is_claimed_since id since (begin_prune H o t now).list.state.matches ≡ true)
        × SameSettings t (begin_prune H o t now)
        × ((begin_prune H o t now).list.index ≡ t.list.index)
        × ((begin_prune H o t now).applying ≡ t.applying)
  begin_prune-since id since (some built) t now early h = (h, (refl, refl), refl, refl)
  begin_prune-since id since none t now early h =
      let kept = prune_state-kept t.list now in
      (prune_state-since id since t.list now early h, (kept.1, kept.2), kept.0, refl)

  pub end_apply-since :
      (id : Bytes) (since : ℕ) (o : Option Pending) (t : Tasks)
      → is_claimed_since id since t.list.state.matches ≡ true
      → (is_claimed_since id since (end_apply H o t).list.state.matches ≡ true)
        × SameSettings t (end_apply H o t)
        × (contains id (keys t.list.index) ≡ true
            → contains id (keys (end_apply H o t).list.index) ≡ true)
  unfolding apply_index
  end_apply-since id since none t h = (h, (refl, refl), λ k. k)
  end_apply-since id since (some p) t h =
      (h, (refl, refl), λ k. ground (arith, k, contains-add_all p.entry p.new_ids id t.list.index))

  pub end_prune-since :
      (id : Bytes) (since : ℕ) (o : Option (List (Bytes × Entry))) (t : Tasks)
      → t.pruning ≡ o
      → is_claimed_since id since t.list.state.matches ≡ true
      → (is_claimed_since id since (end_prune o t).list.state.matches ≡ true)
        × SameSettings t (end_prune o t)
        × ((end_prune o t).pruning ≡ none)
        × ((end_prune o t).applying ≡ t.applying)
        × ((end_prune o t ≡ t) ⊎ (t.pruning ≢ none))
  end_prune-since id since none t e h = (h, (refl, refl), e, refl, inl refl)
  end_prune-since id since (some built) t e h =
      (h, (refl, refl), refl, refl, inr (λ f. absurd (ground (arith, sym e ∙ f))))

  pub step-since :
      (id : Bytes) (since : ℕ) (t : Tasks) (s : Step)
      → IsEarly since t.list.ttl_us s
      → is_claimed_since id since t.list.state.matches ≡ true
      → (is_claimed_since id since (step H t s).list.state.matches ≡ true)
        × SameSettings t (step H t s)
  unfolding step record_blocked
  step-since id since t (merges event now) early h =
      let next = begin_apply-since id since t.applying t event now h in (next.0, next.1)
  step-since id since t indexes early h =
      let next = end_apply-since id since t.applying t h in (next.0, next.1)
  step-since id since t (removes now) early h =
      let next = begin_prune-since id since t.pruning t now early h in (next.0, next.1)
  step-since id since t stores early h =
      let next = end_prune-since id since t.pruning t refl h in (next.0, next.1)
  step-since id since t (holds_back r k now) early h =
      (record_blocked-since id since t.list r k now h, (refl, refl))

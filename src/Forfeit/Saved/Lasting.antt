-- ===== src/Forfeit/Saved/Lasting.antt =====
-- How long an id stays on the list of src/forfeit.rs.
use rust_uma.Prelude.{
  ℕ, ◌==◌, ◌≡◌, ◌≢◌, refl, sym, ap, ◌∙◌, subst, true, Option, none, some, List, [], ◌∷◌, string_eq,
  lookup, contains, nat_eq, bytes_eq, Bytes, arith, Bool-cases, Option-cases, inl, inr,
  contains-keys-lookup, All, ap₂, keys,
}
use rust_uma.Forfeit.{
  BlockedMatch, Entry, ForfeitBlocklist, ForfeitEvent, Hex, is_id, empty, lookup_match,
}
use rust_uma.Forfeit.Feed.{or_new, Pending, apply, prune, record_blocked}
use rust_uma.Forfeit.Feed.Index.{is_claimed}
use rust_uma.Forfeit.Feed.Blocking.{merged-contains}
use rust_uma.Forfeit.Saved.{
  Snapshot, snapshot_version, read_back, load, from_config, Tasks, Step, merges, indexes, removes,
  stores, holds_back, idle, begin_apply, end_apply, begin_prune, end_prune, step, run,
}
use rust_uma.Forfeit.Saved.Apart.{
  IsApart, AllApart, with_pending, settled_is, IsSettled, step-IsSettled, run-IsSettled,
  idle-IsSettled, settled-IsExact,
}
use rust_uma.Forfeit.Saved.Since.{
  is_claimed_since, apply-since, IsEarly, prune_state-kept, SameSettings, begin_apply-since,
  begin_prune-since, end_apply-since, end_prune-since, step-since,
}

module _ (H : Hex) where
  is_claimed_since-is_claimed :
      (id : Bytes) (since : ℕ) (ms : List (ℕ × BlockedMatch))
      → is_claimed_since H id since ms ≡ true
      → is_claimed H id ms ≡ true
  is_claimed_since-is_claimed id since [] h = h
  is_claimed_since-is_claimed id since (p ∷ ms) h =
      ground (arith, is_claimed_since-is_claimed id since ms)

  -- The id is in the index, or is still to be added to it.
  abbrev IsPromised : Bytes → Tasks → Type 0
  IsPromised id t = contains id (keys (with_pending H t.applying t.list.index)) ≡ true

  settled-IsPromised :
      (id : Bytes) (since : ℕ) (t : Tasks)
      → IsSettled H t
      → t.pruning ≡ none
      → is_claimed_since H id since t.list.state.matches ≡ true
      → IsPromised id t
  settled-IsPromised id since t settled_now e h =
      subst (λ i. contains id (keys i) ≡ true) (settled_is H t t.applying none refl e)
        (settled_now.exact id ∙ is_claimed_since-is_claimed id since t.list.state.matches h)

  end_apply-IsPromised :
      (id : Bytes) (o : Option Pending) (t : Tasks)
      → t.applying ≡ o
      → IsPromised id t
      → IsPromised id (end_apply H o t)
  end_apply-IsPromised id none t e promised = promised
  end_apply-IsPromised id (some p) t e promised =
      subst (λ o. contains id (keys (with_pending H o t.list.index)) ≡ true) e promised

  step-IsPromised :
      (id : Bytes) (since : ℕ) (t : Tasks) (s : Step)
      → IsEarly H since t.list.ttl_us s
      → IsApart H t s
      → is_claimed_since H id since t.list.state.matches ≡ true
      → IsSettled H t
      → IsPromised id t
      → IsPromised id (step H t s)
  unfolding step record_blocked
  step-IsPromised id since t (merges event now) early apart h settled_now promised =
      let next = step-since H id since t (merges event now) early h in
      settled-IsPromised id since (step H t (merges event now))
        (step-IsSettled H t (merges event now) apart settled_now)
        ((begin_apply-since H id since t.applying t event now h).3 ∙ apart) next.0
  step-IsPromised id since t indexes early apart h settled_now promised =
      end_apply-IsPromised id t.applying t refl promised
  step-IsPromised id since t (removes now) early apart h settled_now promised =
      let kept = begin_prune-since H id since t.pruning t now early h in
      ap₂ (λ o i. contains id (keys (with_pending H o i))) kept.3 kept.2 ∙ promised
  step-IsPromised id since t stores early apart h settled_now promised =
      let ended = end_prune-since H id since t.pruning t refl h in
      settled-IsPromised id since (step H t stores) (step-IsSettled H t stores apart settled_now)
        ended.2 ended.0
  step-IsPromised id since t (holds_back r k now) early apart h settled_now promised = promised

  abbrev IsInIndex : Bytes → Tasks → Type 0
  IsInIndex id t = contains id (keys t.list.index) ≡ true

  step-IsInIndex :
      (id : Bytes) (since : ℕ) (t : Tasks) (s : Step)
      → IsEarly H since t.list.ttl_us s
      → IsApart H t s
      → is_claimed_since H id since t.list.state.matches ≡ true
      → IsSettled H t
      → IsInIndex id t
      → IsInIndex id (step H t s)
  unfolding step record_blocked
  step-IsInIndex id since t (merges event now) early apart h settled_now there =
      ap (λ i. contains id (keys i)) (begin_apply-since H id since t.applying t event now h).2
      ∙ there
  step-IsInIndex id since t indexes early apart h settled_now there =
      (end_apply-since H id since t.applying t h).2 there
  step-IsInIndex id since t (removes now) early apart h settled_now there =
      ap (λ i. contains id (keys i)) (begin_prune-since H id since t.pruning t now early h).2
      ∙ there
  step-IsInIndex id since t stores early apart h settled_now there =
      let ended = end_prune-since H id since t.pruning t refl h in
      elim ended.4 [
        | inl same ↦ ap (λ x. contains id (keys x.list.index)) same ∙ there
        | inr busy ↦ elim settled_now.one [
          | inl quiet ↦
              settled-IsExact H (step H t stores) (ended.3 ∙ quiet) ended.2
                (step-IsSettled H t stores apart settled_now) id
              ∙ is_claimed_since-is_claimed id since (step H t stores).list.state.matches ended.0
          | inr none_busy ↦ absurd (busy none_busy)
        ]
      ]
  step-IsInIndex id since t (holds_back r k now) early apart h settled_now there = there

  -- A match claims the id since `since`, and the settings are those of the start.
  record IsLasting (id : Bytes) (since ttl_us : ℕ) (t : Tasks) : Type 0 where
    pub claimed : is_claimed_since H id since t.list.state.matches ≡ true
    pub exact : IsSettled H t
    pub ttl : t.list.ttl_us ≡ ttl_us
    pub on : t.list.enabled ≡ true

  step-IsLasting :
      (id : Bytes) (since ttl_us : ℕ) (t : Tasks) (s : Step)
      → IsEarly H since ttl_us s
      → IsApart H t s
      → IsLasting id since ttl_us t
      → IsLasting id since ttl_us (step H t s)
  step-IsLasting id since ttl_us t s early apart h =
      let next =
        step-since H id since t s (subst (λ n. IsEarly H since n s) (sym h.ttl) early) h.claimed in
      record {
        claimed = next.0;
        exact = step-IsSettled H t s apart h.exact;
        ttl = next.1.0 ∙ h.ttl;
        on = next.1.1 ∙ h.on;
      }

  run-IsPromised :
      (id : Bytes) (since ttl_us : ℕ) (t : Tasks) (steps : List Step)
      → All (IsEarly H since ttl_us) steps
      → AllApart H t steps
      → IsLasting id since ttl_us t
      → IsPromised id t
      → IsLasting id since ttl_us (run H t steps) × IsPromised id (run H t steps)
  unfolding run AllApart
  run-IsPromised id since ttl_us t [] early apart h promised = (h, promised)
  run-IsPromised id since ttl_us t (s ∷ steps) early apart h promised =
      run-IsPromised id since ttl_us (step H t s) steps early.1 apart.1
        (step-IsLasting id since ttl_us t s early.0 apart.0 h)
        (step-IsPromised id since t s (subst (λ n. IsEarly H since n s) (sym h.ttl) early.0) apart.0
          h.claimed h.exact promised)

  run-IsInIndex :
      (id : Bytes) (since ttl_us : ℕ) (t : Tasks) (steps : List Step)
      → All (IsEarly H since ttl_us) steps
      → AllApart H t steps
      → IsLasting id since ttl_us t
      → IsInIndex id t
      → IsLasting id since ttl_us (run H t steps) × IsInIndex id (run H t steps)
  unfolding run AllApart
  run-IsInIndex id since ttl_us t [] early apart h there = (h, there)
  run-IsInIndex id since ttl_us t (s ∷ steps) early apart h there =
      run-IsInIndex id since ttl_us (step H t s) steps early.1 apart.1
        (step-IsLasting id since ttl_us t s early.0 apart.0 h)
        (step-IsInIndex id since t s (subst (λ n. IsEarly H since n s) (sym h.ttl) early.0) apart.0
          h.claimed h.exact there)

  lookup_match-listed :
      (id : Bytes) (l : ForfeitBlocklist)
      → contains id (keys l.index) ≡ true
      → l.enabled ≡ true
      → lookup_match l id ≢ none
  unfolding lookup_match
  lookup_match-listed id l there on e = elim (Option-cases (lookup id l.index)) [
    | inl absent ↦ absurd (ground (arith, there, contains-keys-lookup id l.index absent))
    | inr (entry, found) ↦
        let named : lookup_match l id ≡ some entry.match_id = rw (lookup_match, on, found) refl in
        ground (arith, sym named ∙ e)
  ]

  apply-since_new :
      (l : ForfeitBlocklist) (event : ForfeitEvent) (now : ℕ) (id : Bytes)
      → lookup event.pandascore_match_id l.state.matches ≡ none
      → is_id id ≡ true
      → contains id event.condition_ids ≡ true
      → is_claimed_since H id now (apply H l event now).0.state.matches ≡ true
  apply-since_new l event now id fresh well named =
      let m = or_new H (lookup event.pandascore_match_id l.state.matches) event now in
      let added : m.added_at_us ≡ now = rw fresh refl in
      ground (
        arith,
        apply-since H id now l event now,
        merged-contains H id m.markets event well named,
        added,
      )

  prune-settings :
      (l : ForfeitBlocklist) (now : ℕ)
      → ((prune H l now).0.ttl_us ≡ l.ttl_us) × ((prune H l now).0.enabled ≡ l.enabled)
  unfolding prune
  prune-settings l now = let kept = prune_state-kept H l now in (kept.1, kept.2)

  load-settings :
      (l : ForfeitBlocklist) (file : Option Snapshot) (now : ℕ)
      → ((load H l file now).ttl_us ≡ l.ttl_us) × ((load H l file now).enabled ≡ l.enabled)
  unfolding load read_back
  load-settings l none now = (refl, refl)
  load-settings l (some s) now = elim (Bool-cases (s.version == snapshot_version)) [
    | inl same ↦ rw same (prune-settings (read_back H l s) now)
    | inr other ↦ rw other (refl, refl)
  ]

  pub from_config-settings :
      (ttl_us : ℕ) (file : Option Snapshot) (now : ℕ)
      → ((from_config H true ttl_us file now).ttl_us ≡ ttl_us)
        × ((from_config H true ttl_us file now).enabled ≡ true)
  unfolding from_config empty
  from_config-settings ttl_us file now = load-settings (empty true ttl_us) file now

  begin_apply-settings :
      (o : Option Pending) (t : Tasks) (event : ForfeitEvent) (now : ℕ)
      → SameSettings H t (begin_apply H o t event now)
  begin_apply-settings none t event now = (refl, refl)
  begin_apply-settings (some p) t event now = (refl, refl)

  begin_apply-pruning :
      (o : Option Pending) (t : Tasks) (event : ForfeitEvent) (now : ℕ)
      → (begin_apply H o t event now).pruning ≡ t.pruning
  begin_apply-pruning none t event now = refl
  begin_apply-pruning (some p) t event now = refl

  end_apply-settings : (o : Option Pending) (t : Tasks) → SameSettings H t (end_apply H o t)
  end_apply-settings none t = (refl, refl)
  end_apply-settings (some p) t = (refl, refl)

  begin_prune-settings :
      (o : Option (List (Bytes × Entry))) (t : Tasks) (now : ℕ)
      → SameSettings H t (begin_prune H o t now)
  begin_prune-settings none t now = let kept = prune_state-kept H t.list now in (kept.1, kept.2)
  begin_prune-settings (some built) t now = (refl, refl)

  end_prune-settings :
      (o : Option (List (Bytes × Entry))) (t : Tasks) → SameSettings H t (end_prune o t)
  end_prune-settings none t = (refl, refl)
  end_prune-settings (some built) t = (refl, refl)

  -- The settings stay those of the start.
  step-settings : (t : Tasks) (s : Step) → SameSettings H t (step H t s)
  unfolding step record_blocked
  step-settings t (merges event now) = begin_apply-settings t.applying t event now
  step-settings t indexes = end_apply-settings t.applying t
  step-settings t (removes now) = begin_prune-settings t.pruning t now
  step-settings t stores = end_prune-settings t.pruning t
  step-settings t (holds_back r k now) = (refl, refl)

  pub run-settings : (t : Tasks) (steps : List Step) → SameSettings H t (run H t steps)
  unfolding run
  run-settings t [] = (refl, refl)
  run-settings t (s ∷ steps) =
      let same = step-settings t s in
      let rest = run-settings (step H t s) steps in (rest.0 ∙ same.0, rest.1 ∙ same.1)

  begin_apply-claims :
      (id : Bytes) (o : Option Pending) (t : Tasks) (event : ForfeitEvent) (now : ℕ)
      → o ≡ none
      → lookup event.pandascore_match_id t.list.state.matches ≡ none
      → is_id id ≡ true
      → contains id event.condition_ids ≡ true
      → is_claimed_since H id now (begin_apply H o t event now).list.state.matches ≡ true
  unfolding apply
  begin_apply-claims id none t event now e fresh well named =
      apply-since_new t.list event now id fresh well named
  begin_apply-claims id (some p) t event now e fresh well named = absurd (ground (arith, e))

  begin_apply-IsLasting :
      (id : Bytes) (t : Tasks) (event : ForfeitEvent) (now ttl_us : ℕ)
      → t.applying ≡ none
      → t.pruning ≡ none
      → lookup event.pandascore_match_id t.list.state.matches ≡ none
      → is_id id ≡ true
      → contains id event.condition_ids ≡ true
      → IsSettled H t
      → t.list.ttl_us ≡ ttl_us
      → t.list.enabled ≡ true
      → IsLasting id now ttl_us (step H t (merges event now))
        × IsPromised id (step H t (merges event now))
  unfolding step
  begin_apply-IsLasting id t event now ttl_us quiet apart fresh well named h ttl on =
      let same = step-settings t (merges event now) in
      let claimed = begin_apply-claims id t.applying t event now quiet fresh well named in
      let exact = step-IsSettled H t (merges event now) apart h in
      (
        record { claimed = claimed; exact = exact; ttl = same.0 ∙ ttl; on = same.1 ∙ on },
        settled-IsPromised id now (step H t (merges event now)) exact
            (begin_apply-pruning t.applying t event now ∙ apart) claimed,
      )

  -- Under the condition of `index_is_exact`, the task of the feed, between two calls, merges a message
  -- that names a match which is not on the list. From when that call is over, each 32-byte id of the
  -- message is looked up, whatever steps follow, in the middle of later calls too, as long as no removal
  -- ran at or after the end of the match's time to live.
  pub apply-lookup_lasts :
      (ttl_us : ℕ) (file : Option Snapshot) (start : ℕ) (before : List Step) (event : ForfeitEvent)
      (now : ℕ) (id : Bytes) (between after : List Step)
      → let t0 = idle (from_config H true ttl_us file start) in
        let t = run H t0 before in
        let t1 = run H t (merges event now ∷ between) in
        AllApart H t0 before
        → AllApart H t (merges event now ∷ between)
        → AllApart H t1 after
        → t.applying ≡ none
        → lookup event.pandascore_match_id t.list.state.matches ≡ none
        → is_id id ≡ true
        → contains id event.condition_ids ≡ true
        → All (IsEarly H now ttl_us) between
        → t1.applying ≡ none
        → All (IsEarly H now ttl_us) after
        → lookup_match (run H t1 after).list id ≢ none
  unfolding run AllApart
  apply-lookup_lasts ttl_us file start before event now id between after apart0 apart apart1 quiet
        fresh well named early over early1 =
      let t0 = idle (from_config H true ttl_us file start) in
      let t = run H t0 before in
      let t1 = run H t (merges event now ∷ between) in
      let set = from_config-settings ttl_us file start in
      let same = run-settings t0 before in
      let begun =
        begin_apply-IsLasting id t event now ttl_us quiet apart.0 fresh well named
          (run-IsSettled H t0 before apart0 (idle-IsSettled H true ttl_us file start))
          (same.0 ∙ set.0) (same.1 ∙ set.1) in
      let called =
        run-IsPromised id now ttl_us (step H t (merges event now)) between early apart.1 begun.0
          begun.1 in
      let there : IsInIndex id t1 =
        subst (λ o. contains id (keys (with_pending H o t1.list.index)) ≡ true) over called.1 in
      let end = run-IsInIndex id now ttl_us t1 after early1 apart1 called.0 there in
      lookup_match-listed id (run H t1 after).list end.1 end.0.on

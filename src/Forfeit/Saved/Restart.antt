-- ===== src/Forfeit/Saved/Restart.antt =====
-- The snapshot of src/forfeit.rs written and read back.
use rust_uma.Prelude.{
  ℕ, ◌==◌, ◌≡◌, ◌<◌, refl, sym, ap, ap₂, ◌∙◌, subst, Bool, true, false, Option, none, some, List,
  [], ◌∷◌, ◌++◌, ltb, filterb, lookup, insert_ordered, contains, keys, bytes_eq, Bytes, nat_eq, map,
  arith, Bool-cases, Option-cases, inl, inr, All, append-nil, append_assoc, All-append,
}
use mathlib.Core.Option.{some-injective}
use rust_uma.Forfeit.{BlockedMatch, State, ForfeitBlocklist, ForfeitEvent, Hex, Entry, empty}
use rust_uma.Forfeit.Feed.{
  Pending, or_new, update_match, apply_state, prune, prune_state, record_blocked, is_kept, counted,
}
use rust_uma.Forfeit.Saved.{
  Snapshot, snapshot_version, snapshot, collect, read_back, load, from_config, Tasks, Step, merges,
  indexes, removes, stores, holds_back, idle, begin_apply, end_apply, begin_prune, end_prune, step,
  run,
}
use rust_uma.Forfeit.Feed.Index.{is_claimed}
use rust_uma.Forfeit.Saved.Apart.{from_config-IsExact}
use rust_uma.Forfeit.Saved.Lasting.{run-settings, from_config-settings}

-- The map in the order of its keys, each of which is the id of its match.
abbrev pub IsAfter : ℕ → ℕ × BlockedMatch → Type 0
IsAfter k p = k < p.0

abbrev pub IsOrdered : List (ℕ × BlockedMatch) → Type 0
IsOrdered [] = Unit
IsOrdered ((k, m) ∷ ms) = (k ≡ m.pandascore_match_id) × All (IsAfter k) ms × IsOrdered ms

All-insert_ordered :
    (P : ℕ × BlockedMatch → Type 0) (k : ℕ) (m : BlockedMatch) (ms : List (ℕ × BlockedMatch))
    → P (k, m)
    → All P ms
    → All P (insert_ordered k m ms)
All-insert_ordered P k m [] h all = (h, tt)
All-insert_ordered P k m ((j, n) ∷ ms) h all = elim (Bool-cases (j == k)) [
  | inl same ↦ rw same (h, all.1)
  | inr other ↦ rw other (elim (Bool-cases (ltb k j)) [
    | inl before ↦ rw before (h, all)
    | inr later ↦ rw later (all.0, All-insert_ordered P k m ms h all.1)
  ])
]

IsAfter-trans :
    (j k : ℕ) (ms : List (ℕ × BlockedMatch)) → j < k → All (IsAfter k) ms → All (IsAfter j) ms
IsAfter-trans j k [] h all = tt
IsAfter-trans j k (p ∷ ms) h all = (omega (arith, h, all.0), IsAfter-trans j k ms h all.1)

insert_ordered-IsOrdered :
    (k : ℕ) (m : BlockedMatch) (ms : List (ℕ × BlockedMatch))
    → k ≡ m.pandascore_match_id
    → IsOrdered ms
    → IsOrdered (insert_ordered k m ms)
insert_ordered-IsOrdered k m [] named ok = (named, tt, tt)
insert_ordered-IsOrdered k m ((j, n) ∷ ms) named ok = elim (Bool-cases (j == k)) [
  | inl same ↦ rw same (named, subst (λ i. All (IsAfter i) ms) (ground (arith, same)) ok.1, ok.2)
  | inr other ↦ rw other (elim (Bool-cases (ltb k j)) [
    | inl before ↦
        rw before
          (named, (ground (arith, before), IsAfter-trans k j ms (ground (arith, before)) ok.1), ok)
    | inr later ↦ rw later (
      ok.0,
      All-insert_ordered (IsAfter j) k m ms (ground (arith, later, other)) ok.1,
      insert_ordered-IsOrdered k m ms named ok.2,
    )
  ])
]

-- A new largest key goes to the end.
insert_ordered-last :
    (k : ℕ) (m : BlockedMatch) (ms : List (ℕ × BlockedMatch))
    → All (λ p. p.0 < k) ms
    → insert_ordered k m ms ≡ ms ++ ((k, m) ∷ [])
insert_ordered-last k m [] h = refl
insert_ordered-last k m ((j, n) ∷ ms) h =
    let apart : (j == k) ≡ false = ground (arith, h.0) in
    let before : ltb k j ≡ false = ground (arith, h.0) in
    rw (apart, before) (ap (λ t. (j, n) ∷ t) (insert_ordered-last k m ms h.1))

firsts-below :
    (k : ℕ) (m : BlockedMatch) (ms acc : List (ℕ × BlockedMatch))
    → All (λ p. All (IsAfter p.0) ((k, m) ∷ ms)) acc
    → All (λ p. p.0 < k) acc × All (λ p. All (IsAfter p.0) ms) acc
firsts-below k m ms [] h = (tt, tt)
firsts-below k m ms (p ∷ acc) h =
    let rest = firsts-below k m ms acc h.1 in ((h.0.0, rest.0), (h.0.1, rest.1))

collect-ordered :
    (ms acc : List (ℕ × BlockedMatch))
    → IsOrdered ms
    → All (λ p. All (IsAfter p.0) ms) acc
    → collect (map (λ p. p.1) ms) acc ≡ acc ++ ms
unfolding collect
collect-ordered [] acc ok before = sym (append-nil acc)
collect-ordered ((k, m) ∷ ms) acc ok before =
    let below = firsts-below k m ms acc before in
    let put : insert_ordered m.pandascore_match_id m acc ≡ acc ++ ((k, m) ∷ []) =
      subst (λ i. insert_ordered i m acc ≡ acc ++ ((k, m) ∷ [])) ok.0
        (insert_ordered-last k m acc below.0) in
    ap (collect (map (λ p. p.1) ms)) put
    ∙ (collect-ordered ms (acc ++ ((k, m) ∷ [])) ok.2
          (All-append (λ p. All (IsAfter p.0) ms) acc ((k, m) ∷ []) below.1 (ok.1, tt))
        ∙ append_assoc acc ((k, m) ∷ []) ms)

All-filterb :
    (P : ℕ × BlockedMatch → Type 0) (p : ℕ × BlockedMatch → Bool) (ms : List (ℕ × BlockedMatch))
    → All P ms
    → All P (filterb p ms)
All-filterb P p [] h = tt
All-filterb P p (m ∷ ms) h = elim (Bool-cases (p m)) [
  | inl keeps ↦ rw keeps (h.0, All-filterb P p ms h.1)
  | inr drops ↦ rw drops (All-filterb P p ms h.1)
]

filterb-IsOrdered :
    (p : ℕ × BlockedMatch → Bool) (ms : List (ℕ × BlockedMatch))
    → IsOrdered ms
    → IsOrdered (filterb p ms)
filterb-IsOrdered p [] ok = tt
filterb-IsOrdered p ((k, m) ∷ ms) ok = elim (Bool-cases (p (k, m))) [
  | inl keeps ↦ rw keeps (ok.0, All-filterb (IsAfter k) p ms ok.1, filterb-IsOrdered p ms ok.2)
  | inr drops ↦ rw drops (filterb-IsOrdered p ms ok.2)
]

collect-IsOrdered :
    (ms : List BlockedMatch) (acc : List (ℕ × BlockedMatch))
    → IsOrdered acc
    → IsOrdered (collect ms acc)
unfolding collect
collect-IsOrdered [] acc ok = ok
collect-IsOrdered (m ∷ ms) acc ok =
    collect-IsOrdered ms (insert_ordered m.pandascore_match_id m acc)
      (insert_ordered-IsOrdered m.pandascore_match_id m acc refl ok)

lookup-IsOrdered :
    (k : ℕ) (m : BlockedMatch) (ms : List (ℕ × BlockedMatch))
    → IsOrdered ms
    → lookup k ms ≡ some m
    → k ≡ m.pandascore_match_id
lookup-IsOrdered k m [] ok there = absurd (ground (arith, there))
lookup-IsOrdered k m ((j, n) ∷ ms) ok there = elim (Bool-cases (j == k)) [
  | inl same ↦
      let found : some n ≡ some m = subst (λ o. o ≡ some m) (rw same refl) there in
      ground (arith, same) ∙ (ok.0 ∙ ap (λ x. x.pandascore_match_id) (some-injective n m found))
  | inr other ↦ lookup-IsOrdered k m ms ok.2 (subst (λ o. o ≡ some m) (rw other refl) there)
]

module _ (H : Hex) where
  prune_state-IsOrdered :
      (l : ForfeitBlocklist) (now : ℕ)
      → IsOrdered l.state.matches
      → IsOrdered (prune_state H l now).0.state.matches
  unfolding prune_state
  prune_state-IsOrdered l now ok = elim (Bool-cases (l.ttl_us == 0)) [
    | inl forever ↦ rw forever ok
    | inr limited ↦ rw limited (filterb-IsOrdered (is_kept H l.ttl_us now) l.state.matches ok)
  ]

  prune-IsOrdered :
      (l : ForfeitBlocklist) (now : ℕ)
      → IsOrdered l.state.matches
      → IsOrdered (prune H l now).0.state.matches
  unfolding prune
  prune-IsOrdered l now ok = prune_state-IsOrdered l now ok

  or_new-named :
      (event : ForfeitEvent) (now : ℕ) (ms : List (ℕ × BlockedMatch))
      → IsOrdered ms
      → event.pandascore_match_id
        ≡ (or_new H (lookup event.pandascore_match_id ms) event now).pandascore_match_id
  or_new-named event now ms ok = elim (Option-cases (lookup event.pandascore_match_id ms)) [
    | inl fresh ↦ rw fresh refl
    | inr (m, there) ↦ rw there (lookup-IsOrdered event.pandascore_match_id m ms ok there)
  ]

  update_match-named :
      (m : BlockedMatch) (event : ForfeitEvent) (now : ℕ) (changed : Bool)
      → (update_match H m event now changed).pandascore_match_id ≡ m.pandascore_match_id
  unfolding update_match
  update_match-named m event now changed = refl

  counted-IsOrdered :
      (k : ℕ) (o : Option BlockedMatch) (ms : List (ℕ × BlockedMatch))
      → lookup k ms ≡ o
      → IsOrdered ms
      → IsOrdered (counted H k o ms)
  counted-IsOrdered k none ms e ok = ok
  counted-IsOrdered k (some m) ms e ok =
      insert_ordered-IsOrdered k _ ms (lookup-IsOrdered k m ms ok e) ok

  begin_apply-IsOrdered :
      (o : Option Pending) (t : Tasks) (event : ForfeitEvent) (now : ℕ)
      → IsOrdered t.list.state.matches
      → IsOrdered (begin_apply H o t event now).list.state.matches
  unfolding apply_state
  begin_apply-IsOrdered (some p) t event now ok = ok
  begin_apply-IsOrdered none t event now ok =
      insert_ordered-IsOrdered event.pandascore_match_id _ t.list.state.matches
        (or_new-named event now t.list.state.matches ok ∙ sym (update_match-named _ event now _)) ok

  end_apply-IsOrdered :
      (o : Option Pending) (t : Tasks)
      → IsOrdered t.list.state.matches
      → IsOrdered (end_apply H o t).list.state.matches
  end_apply-IsOrdered none t ok = ok
  end_apply-IsOrdered (some p) t ok = ok

  begin_prune-IsOrdered :
      (o : Option (List (Bytes × Entry))) (t : Tasks) (now : ℕ)
      → IsOrdered t.list.state.matches
      → IsOrdered (begin_prune H o t now).list.state.matches
  begin_prune-IsOrdered none t now ok = prune_state-IsOrdered t.list now ok
  begin_prune-IsOrdered (some built) t now ok = ok

  end_prune-IsOrdered :
      (o : Option (List (Bytes × Entry))) (t : Tasks)
      → IsOrdered t.list.state.matches
      → IsOrdered (end_prune o t).list.state.matches
  end_prune-IsOrdered none t ok = ok
  end_prune-IsOrdered (some built) t ok = ok

  step-IsOrdered :
      (t : Tasks) (s : Step)
      → IsOrdered t.list.state.matches
      → IsOrdered (step H t s).list.state.matches
  unfolding step record_blocked
  step-IsOrdered t (merges event now) ok = begin_apply-IsOrdered t.applying t event now ok
  step-IsOrdered t indexes ok = end_apply-IsOrdered t.applying t ok
  step-IsOrdered t (removes now) ok = begin_prune-IsOrdered t.pruning t now ok
  step-IsOrdered t stores ok = end_prune-IsOrdered t.pruning t ok
  step-IsOrdered t (holds_back r k now) ok =
      counted-IsOrdered k (lookup k t.list.state.matches) t.list.state.matches refl ok

  run-IsOrdered :
      (t : Tasks) (steps : List Step)
      → IsOrdered t.list.state.matches
      → IsOrdered (run H t steps).list.state.matches
  unfolding run
  run-IsOrdered t [] ok = ok
  run-IsOrdered t (s ∷ steps) ok = run-IsOrdered (step H t s) steps (step-IsOrdered t s ok)

  from_config-IsOrdered :
      (ttl_us : ℕ) (file : Option Snapshot) (now : ℕ)
      → IsOrdered (from_config H true ttl_us file now).state.matches
  unfolding from_config load read_back empty
  from_config-IsOrdered ttl_us none now = tt
  from_config-IsOrdered ttl_us (some s) now = elim (Bool-cases (s.version == snapshot_version)) [
    | inl same ↦ rw same (
        prune-IsOrdered (read_back H (empty true ttl_us) s) now (collect-IsOrdered s.matches [] tt))
    | inr other ↦ rw other tt
  ]

  prune-state :
      (l k : ForfeitBlocklist) (now : ℕ)
      → l.ttl_us ≡ k.ttl_us
      → l.state ≡ k.state
      → (prune H l now).0.state ≡ (prune H k now).0.state
  unfolding prune prune_state
  prune-state l k now same_ttl same =
      let keep : State → ℕ → State =
        λ s t. record s { matches = filterb (is_kept H t now) s.matches } in
      elim (Bool-cases (l.ttl_us == 0)) [
        | inl forever ↦ rw (forever, subst (λ t. (t == 0) ≡ true) same_ttl forever) same
        | inr limited ↦
            rw (limited, subst (λ t. (t == 0) ≡ false) same_ttl limited) (ap₂ keep same same_ttl)
      ]

  read_back-state :
      (l k : ForfeitBlocklist)
      → IsOrdered l.state.matches
      → (read_back H k (snapshot l)).state ≡ l.state
  unfolding read_back snapshot
  read_back-state l k ok =
      ap (λ ms. record l.state { matches = ms }) (collect-ordered l.state.matches [] ok tt)

  load_snapshot :
      (l : ForfeitBlocklist) (ttl_us now : ℕ)
      → from_config H true ttl_us (some (snapshot l)) now
        ≡ (prune H (read_back H (empty true ttl_us) (snapshot l)) now).0
  unfolding from_config load snapshot
  load_snapshot l ttl_us now = refl

  -- The program stops after any steps of its tasks, in the middle of a call too, and starts again from the
  -- file that it would write then. Its list is the one it had, less the matches whose time to live is over
  -- by the start, and its index has the ids of the markets of these matches, and no others.
  pub snapshot-from_config :
      (ttl_us : ℕ) (file : Option Snapshot) (start : ℕ) (steps : List Step) (now : ℕ)
      → let l = (run H (idle (from_config H true ttl_us file start)) steps).list in
        let restarted = from_config H true ttl_us (some (snapshot l)) now in
        (restarted.state ≡ (prune_state H l now).0.state)
        × ((id : Bytes)
            → contains id (keys restarted.index) ≡ is_claimed H id restarted.state.matches)
  unfolding read_back empty prune
  snapshot-from_config ttl_us file start steps now =
      let t0 = idle (from_config H true ttl_us file start) in
      let l = (run H t0 steps).list in
      let ordered = run-IsOrdered t0 steps (from_config-IsOrdered ttl_us file start) in
      let kept : l.ttl_us ≡ ttl_us =
        (run-settings H t0 steps).0 ∙ (from_config-settings H ttl_us file start).0 in
      let loaded : from_config H true ttl_us (some (snapshot l)) now
          ≡ (prune H (read_back H (empty true ttl_us) (snapshot l)) now).0 =
        load_snapshot l ttl_us now in
      (
        ap (λ x. x.state) loaded
            ∙ prune-state (read_back H (empty true ttl_us) (snapshot l)) l now (sym kept)
                (read_back-state l (empty true ttl_us) ordered),
        from_config-IsExact H true ttl_us (some (snapshot l)) now,
      )

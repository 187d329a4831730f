-- ===== src/Forfeit/Saved/Exact.antt =====
-- The list of src/forfeit.rs from its start on: the ids that its index holds.
use rust_uma.Prelude.{
  ◌==◌, ◌≡◌, refl, Bool, true, false, Option, none, some, List, [], ◌∷◌, keys, contains, bytes_eq,
  Bytes, Bool-cases, All, filterb, lookup-none, ℕ, arith, ◌∙◌, inl, inr,
}
use rust_uma.Forfeit.{BlockedMatch, ForfeitBlocklist, Entry, Hex, lookup_match}
use rust_uma.Forfeit.Feed.{Pending, prune_state, is_kept}
use rust_uma.Forfeit.Feed.Index.{claims, is_claimed}
use rust_uma.Forfeit.Feed.Removal.{record_blocked-is_claimed}
use rust_uma.Forfeit.Saved.{
  Snapshot, from_config, Tasks, Step, merges, indexes, removes, stores, holds_back, idle, end_apply,
  begin_prune, end_prune, step, run,
}
use rust_uma.Forfeit.Saved.Apart.{AllApart, settled, run-IsSettled, idle-IsSettled, settled-IsExact}

module _ (H : Hex) where
  -- From the start on, for any steps of the two tasks and any events held back, where no message is
  -- merged while a removal has its index still to store and no removal begins while a message has its
  -- ids still to add: once the calls that are between their parts have ended, the ids in the index are
  -- those of the markets of the matches on the list, no more and no fewer.
  pub index_is_exact :
      (has_feed : Bool) (ttl_us : ℕ) (file : Option Snapshot) (start : ℕ) (steps : List Step)
      (id : Bytes)
      → let t0 = idle (from_config H has_feed ttl_us file start) in
        let t = run H t0 steps in
        AllApart H t0 steps
        → contains id (keys (settled H t)) ≡ is_claimed H id t.list.state.matches
  index_is_exact has_feed ttl_us file start steps id apart =
      (run-IsSettled H (idle (from_config H has_feed ttl_us file start)) steps apart
          (idle-IsSettled H has_feed ttl_us file start)).exact
        id

  filterb-is_claimed :
      (id : Bytes) (p : ℕ × BlockedMatch → Bool) (ms : List (ℕ × BlockedMatch))
      → All (λ m. claims H id m.1 ≡ true → p m ≡ false) ms
      → is_claimed H id (filterb p ms) ≡ false
  filterb-is_claimed id p [] old = refl
  filterb-is_claimed id p (m ∷ ms) old =
      let rest : is_claimed H id (filterb p ms) ≡ false = filterb-is_claimed id p ms old.1 in
      elim (Bool-cases (p m)) [
        | inl keeps ↦ rw keeps (ground (arith, rest, keeps, old.0))
        | inr drops ↦ rw drops rest
      ]

  prune_state-is_claimed :
      (id : Bytes) (l : ForfeitBlocklist) (now : ℕ)
      → (l.ttl_us == 0) ≡ false
      → All (λ m. claims H id m.1 ≡ true → is_kept H l.ttl_us now m ≡ false) l.state.matches
      → is_claimed H id (prune_state H l now).0.state.matches ≡ false
  unfolding prune_state
  prune_state-is_claimed id l now limited old =
      rw limited (filterb-is_claimed id (is_kept H l.ttl_us now) l.state.matches old)

  filterb-unclaimed :
      (id : Bytes) (p : ℕ × BlockedMatch → Bool) (ms : List (ℕ × BlockedMatch))
      → is_claimed H id ms ≡ false
      → is_claimed H id (filterb p ms) ≡ false
  filterb-unclaimed id p [] h = h
  filterb-unclaimed id p (m ∷ ms) h = ground (arith, filterb-unclaimed id p ms)

  prune_state-unclaimed :
      (id : Bytes) (l : ForfeitBlocklist) (now : ℕ)
      → is_claimed H id l.state.matches ≡ false
      → is_claimed H id (prune_state H l now).0.state.matches ≡ false
  unfolding prune_state
  prune_state-unclaimed id l now h = elim (Bool-cases (l.ttl_us == 0)) [
    | inl forever ↦ rw forever h
    | inr limited ↦ rw limited (filterb-unclaimed id (is_kept H l.ttl_us now) l.state.matches h)
  ]

  lookup_match-absent :
      (id : Bytes) (l : ForfeitBlocklist)
      → contains id (keys l.index) ≡ false
      → lookup_match l id ≡ none
  unfolding lookup_match
  lookup_match-absent id l absent = elim (Bool-cases l.enabled) [
    | inl on ↦ rw (on, lookup-none id l.index absent) refl
    | inr off ↦ rw off refl
  ]

  -- Any step but the merge of a message.
  abbrev pub IsOther : Step → Type 0
  IsOther (merges event now) = ⊥
  IsOther indexes = Unit
  IsOther (removes now) = Unit
  IsOther stores = Unit
  IsOther (holds_back r match_id now) = Unit

  abbrev IsUnclaimed : Bytes → Tasks → Type 0
  IsUnclaimed id t = (is_claimed H id t.list.state.matches ≡ false) × (t.applying ≡ none)

  end_apply-IsUnclaimed :
      (id : Bytes) (o : Option Pending) (t : Tasks)
      → IsUnclaimed id t
      → IsUnclaimed id (end_apply H o t)
  end_apply-IsUnclaimed id none t h = h
  end_apply-IsUnclaimed id (some p) t h = (h.0, refl)

  begin_prune-IsUnclaimed :
      (id : Bytes) (o : Option (List (Bytes × Entry))) (t : Tasks) (now : ℕ)
      → IsUnclaimed id t
      → IsUnclaimed id (begin_prune H o t now)
  begin_prune-IsUnclaimed id none t now h = (prune_state-unclaimed id t.list now h.0, h.1)
  begin_prune-IsUnclaimed id (some built) t now h = h

  end_prune-IsUnclaimed :
      (id : Bytes) (o : Option (List (Bytes × Entry))) (t : Tasks)
      → IsUnclaimed id t
      → IsUnclaimed id (end_prune o t)
  end_prune-IsUnclaimed id none t h = h
  end_prune-IsUnclaimed id (some built) t h = h

  run-IsUnclaimed :
      (id : Bytes) (t : Tasks) (steps : List Step)
      → All IsOther steps
      → IsUnclaimed id t
      → IsUnclaimed id (run H t steps)
  unfolding run step
  run-IsUnclaimed id t [] other h = h
  run-IsUnclaimed id t (merges event now ∷ steps) other h = absurd other.0
  run-IsUnclaimed id t (indexes ∷ steps) other h =
      run-IsUnclaimed id (end_apply H t.applying t) steps other.1
        (end_apply-IsUnclaimed id t.applying t h)
  run-IsUnclaimed id t (removes now ∷ steps) other h =
      run-IsUnclaimed id (begin_prune H t.pruning t now) steps other.1
        (begin_prune-IsUnclaimed id t.pruning t now h)
  run-IsUnclaimed id t (stores ∷ steps) other h =
      run-IsUnclaimed id (end_prune t.pruning t) steps other.1
        (end_prune-IsUnclaimed id t.pruning t h)
  run-IsUnclaimed id t (holds_back r k now ∷ steps) other h =
      run-IsUnclaimed id (step H t (holds_back r k now)) steps other.1
        (record_blocked-is_claimed H id t.list r k now ∙ h.0, h.1)

  begin_prune-All :
      (id : Bytes) (o : Option (List (Bytes × Entry))) (t : Tasks) (now : ℕ)
      → o ≡ none
      → t.applying ≡ none
      → (t.list.ttl_us == 0) ≡ false
      → All
          (λ m. claims H id m.1 ≡ true → is_kept H t.list.ttl_us now m ≡ false)
          t.list.state.matches
      → IsUnclaimed id (begin_prune H o t now)
  begin_prune-All id none t now e quiet limited old =
      (prune_state-is_claimed id t.list now limited old, quiet)
  begin_prune-All id (some built) t now e quiet limited old = absurd (ground (arith, e))

  -- Under the condition of `index_is_exact`, from a state with no call between its parts, a removal begins
  -- when every match that has a market with the id is past its time to live, and any steps follow that
  -- merge no message. When no removal is between its parts any more, the id is not looked up. The time
  -- to live is not 0, which would switch removals off.
  pub prune-lookup_match :
      (has_feed : Bool) (ttl_us : ℕ) (file : Option Snapshot) (start : ℕ) (before : List Step)
      (id : Bytes) (now : ℕ) (after : List Step)
      → let t0 = idle (from_config H has_feed ttl_us file start) in
        let t = run H t0 before in
        let t1 = run H t (removes now ∷ after) in
        AllApart H t0 before
        → t.applying ≡ none
        → t.pruning ≡ none
        → (t.list.ttl_us == 0) ≡ false
        → All
            (λ m. claims H id m.1 ≡ true → is_kept H t.list.ttl_us now m ≡ false)
            t.list.state.matches
        → AllApart H t (removes now ∷ after)
        → All IsOther after
        → t1.pruning ≡ none
        → lookup_match t1.list id ≡ none
  unfolding run step
  prune-lookup_match has_feed ttl_us file start before id now after apart0 quiet idle_saver limited
        old apart other done =
      let t0 = idle (from_config H has_feed ttl_us file start) in
      let t = run H t0 before in
      let t1 = run H t (removes now ∷ after) in
      let settled_now =
        run-IsSettled H t (removes now ∷ after) apart
          (run-IsSettled H t0 before apart0 (idle-IsSettled H has_feed ttl_us file start)) in
      let gone =
        run-IsUnclaimed id (begin_prune H t.pruning t now) after other
          (begin_prune-All id t.pruning t now idle_saver quiet limited old) in
      lookup_match-absent id t1.list (settled-IsExact H t1 gone.1 done settled_now id ∙ gone.0)

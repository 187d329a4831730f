-- ===== src/Forfeit/Saved/Apart.antt =====
-- Calls of the two tasks of src/forfeit.rs that do not come between each other's parts, and the index
-- that they leave.
use rust_uma.Prelude.{
  ◌==◌, ◌≡◌, ◌⊎◌, refl, sym, subst, ◌∙◌, Bool, true, false, Option, none, some, List, [], ◌∷◌,
  bytes_eq, Bytes, Bool-cases, ℕ, arith, inl, inr,
}
use rust_uma.Forfeit.{ForfeitEvent, Entry, Hex, empty}
use rust_uma.Forfeit.Feed.{Pending, stored, apply_index, apply, prune, record_blocked}
use rust_uma.Forfeit.Feed.Index.{IsExact}
use rust_uma.Forfeit.Feed.Blocking.{apply-IsExact}
use rust_uma.Forfeit.Feed.Removal.{build_index-IsExact, prune-IsExact, record_blocked-is_claimed}
use rust_uma.Forfeit.Saved.{
  Snapshot, snapshot_version, collect, read_back, load, from_config, Tasks, Step, merges, indexes,
  removes, stores, holds_back, idle, begin_apply, end_apply, begin_prune, end_prune, step, run,
}

module _ (H : Hex) where
  -- No message is merged while a removal has its index still to store, and no removal begins while a
  -- message has its ids still to add.
  abbrev pub IsApart : Tasks → Step → Type 0
  IsApart t (merges event now) = t.pruning ≡ none
  IsApart t indexes = Unit
  IsApart t (removes now) = t.applying ≡ none
  IsApart t stores = Unit
  IsApart t (holds_back r match_id now) = Unit

  unfoldable pub AllApart : Tasks → List Step → Type 0
  AllApart t [] = Unit
  AllApart t (s ∷ steps) = IsApart t s × AllApart (step H t s) steps

  -- The index with the ids of a message that are still to be added.
  abbrev pub with_pending : Option Pending → List (Bytes × Entry) → List (Bytes × Entry)
  with_pending none index = index
  with_pending (some p) index = apply_index H p index

  -- The index once the calls that are between their parts have ended.
  abbrev pub settled : Tasks → List (Bytes × Entry)
  settled t = stored t.pruning (with_pending t.applying t.list.index)

  pub record IsSettled (t : Tasks) : Type 0 where
    pub exact : IsExact H (settled t) t.list.state.matches
    pub one : (t.applying ≡ none) ⊎ (t.pruning ≡ none)

  -- What `settled` comes to where one of the two is known.
  pub settled_is :
      (t : Tasks) (mid : Option Pending) (pr : Option (List (Bytes × Entry)))
      → t.applying ≡ mid
      → t.pruning ≡ pr
      → settled t ≡ stored pr (with_pending mid t.list.index)
  settled_is t mid pr e f = rw (e, f) refl

  begin_apply-IsSettled :
      (o : Option Pending) (t : Tasks) (event : ForfeitEvent) (now : ℕ)
      → t.applying ≡ o
      → t.pruning ≡ none
      → IsSettled t
      → IsSettled (begin_apply H o t event now)
  unfolding apply
  begin_apply-IsSettled (some p) t event now e quiet h = h
  begin_apply-IsSettled none t event now e quiet h =
      let plain : IsExact H t.list.index t.list.state.matches =
        subst (λ i. IsExact H i t.list.state.matches) (settled_is t none none e quiet) h.exact in
      record {
        exact =
            subst (λ i. IsExact H i (begin_apply H none t event now).list.state.matches)
              (sym (settled_is (begin_apply H none t event now) _ none refl quiet))
              (apply-IsExact H t.list event now plain);
        one = inr quiet;
      }

  end_apply-IsSettled :
      (o : Option Pending) (t : Tasks) → t.applying ≡ o → IsSettled t → IsSettled (end_apply H o t)
  end_apply-IsSettled none t e h = h
  end_apply-IsSettled (some p) t e h = record {
    exact =
        subst (λ i. IsExact H i t.list.state.matches) (settled_is t (some p) t.pruning e refl)
          h.exact;
    one = inl refl;
  }

  begin_prune-IsSettled :
      (o : Option (List (Bytes × Entry))) (t : Tasks) (now : ℕ)
      → t.pruning ≡ o
      → t.applying ≡ none
      → IsSettled t
      → IsSettled (begin_prune H o t now)
  unfolding prune
  begin_prune-IsSettled (some built) t now e quiet h = h
  begin_prune-IsSettled none t now e quiet h =
      let plain : IsExact H t.list.index t.list.state.matches =
        subst (λ i. IsExact H i t.list.state.matches) (settled_is t none none quiet e) h.exact in
      record {
        exact =
            subst (λ i. IsExact H i (begin_prune H none t now).list.state.matches)
              (sym (settled_is (begin_prune H none t now) none _ quiet refl))
              (prune-IsExact H t.list now plain);
        one = inl quiet;
      }

  end_prune-IsSettled :
      (o : Option (List (Bytes × Entry))) (t : Tasks)
      → t.pruning ≡ o
      → IsSettled t
      → IsSettled (end_prune o t)
  end_prune-IsSettled none t e h = h
  end_prune-IsSettled (some built) t e h = elim h.one [
    | inl quiet ↦ record {
      exact =
          subst (λ i. IsExact H i t.list.state.matches)
            (settled_is t none (some built) quiet e
              ∙ sym (settled_is (end_prune (some built) t) none none quiet refl))
            h.exact;
      one = inl quiet;
    }
    | inr quiet ↦ absurd (ground (arith, sym e ∙ quiet))
  ]

  pub step-IsSettled : (t : Tasks) (s : Step) → IsApart t s → IsSettled t → IsSettled (step H t s)
  unfolding step record_blocked
  step-IsSettled t (merges event now) apart h =
      begin_apply-IsSettled t.applying t event now refl apart h
  step-IsSettled t indexes apart h = end_apply-IsSettled t.applying t refl h
  step-IsSettled t (removes now) apart h = begin_prune-IsSettled t.pruning t now refl apart h
  step-IsSettled t stores apart h = end_prune-IsSettled t.pruning t refl h
  step-IsSettled t (holds_back r match_id now) apart h = record {
    exact = λ id. h.exact id ∙ sym (record_blocked-is_claimed H id t.list r match_id now);
    one = h.one;
  }

  pub run-IsSettled :
      (t : Tasks) (steps : List Step) → AllApart t steps → IsSettled t → IsSettled (run H t steps)
  unfolding run AllApart
  run-IsSettled t [] apart h = h
  run-IsSettled t (s ∷ steps) apart h =
      run-IsSettled (step H t s) steps apart.1 (step-IsSettled t s apart.0 h)

  pub from_config-IsExact :
      (has_feed : Bool) (ttl_us : ℕ) (file : Option Snapshot) (now : ℕ)
      → let l = from_config H has_feed ttl_us file now in IsExact H l.index l.state.matches
  unfolding from_config load read_back empty
  from_config-IsExact false ttl_us file now id = refl
  from_config-IsExact true ttl_us none now id = refl
  from_config-IsExact true ttl_us (some s) now id =
      elim (Bool-cases (s.version == snapshot_version)) [
        | inl same ↦ rw same (
            prune-IsExact H (read_back H (empty true ttl_us) s) now
              (build_index-IsExact H (collect s.matches [])) id)
        | inr other ↦ rw other refl
      ]

  pub idle-IsSettled :
      (has_feed : Bool) (ttl_us : ℕ) (file : Option Snapshot) (now : ℕ)
      → IsSettled (idle (from_config H has_feed ttl_us file now))
  idle-IsSettled has_feed ttl_us file now = record {
    exact = from_config-IsExact has_feed ttl_us file now;
    one = inl refl;
  }

  -- Where nothing is between its parts, the index itself is exact.
  pub settled-IsExact :
      (t : Tasks)
      → t.applying ≡ none
      → t.pruning ≡ none
      → IsSettled t
      → IsExact H t.list.index t.list.state.matches
  settled-IsExact t e f h =
      subst (λ i. IsExact H i t.list.state.matches) (settled_is t none none e f) h.exact

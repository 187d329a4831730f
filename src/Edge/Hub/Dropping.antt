-- ===== src/Edge/Hub/Dropping.antt =====
-- `unsubscribe`, `release` and `kick_tokens`: who leaves the table, and with which code.
use rust_uma.Prelude.{
  ℕ, ◌≡◌, refl, ap, ◌∙◌, subst, Option, none, some, true, false, List, [], ◌∷◌, lookup, keys,
  nat_eq, Distinct, Distinct-remove, arith, if◌then◌else◌, lookup-remove, contains, =?_iff, ◌==◌,
  Option-cases, inl, inr, Bool-cases,
}
use rust_uma.Edge.Hub.{Hub, Subscriber, drop_sub, drop_all, with_code}
use rust_uma.Edge.Channel.{Mpsc}

module _ (M : Mpsc) where
  pub drop_sub-subs :
      (h : Hub M) (id : ℕ) (mark : Subscriber M → Subscriber M) (k : ℕ)
      → lookup k (drop_sub M h id mark).subs ≡ (if id == k then none else lookup k h.subs)
  unfolding drop_sub
  drop_sub-subs h id mark k = elim (Option-cases (lookup id h.subs)) [
    | inl absent ↦ rw (absent, drop_sub) (ground (arith, =?_iff id k))
    | inr (s, present) ↦ rw (present, drop_sub) (lookup-remove id k h.subs)
  ]

  pub drop_sub-Distinct :
      (h : Hub M) (id : ℕ) (mark : Subscriber M → Subscriber M)
      → Distinct (keys h.subs)
      → Distinct (keys (drop_sub M h id mark).subs)
  unfolding drop_sub
  drop_sub-Distinct h id mark d = elim (Option-cases (lookup id h.subs)) [
    | inl absent ↦ rw (absent, drop_sub) d
    | inr (s, present) ↦ rw (present, drop_sub) (Distinct-remove id h.subs d)
  ]

  -- What a drop leaves alone.
  pub record Same (h h' : Hub M) : Type 0 where
    pub ring : h'.ring ≡ h.ring
    pub next_id : h'.next_id ≡ h.next_id

  pub drop_sub-Same :
      (h : Hub M) (id : ℕ) (mark : Subscriber M → Subscriber M) → Same h (drop_sub M h id mark)
  unfolding drop_sub
  drop_sub-Same h id mark = elim (Option-cases (lookup id h.subs)) [
    | inl absent ↦ rw (absent, drop_sub) (record { ring = refl; next_id = refl })
    | inr (s, present) ↦ rw (present, drop_sub) (record { ring = refl; next_id = refl })
  ]

  pub drop_all-Same : (gone : List ℕ) (code : ℕ) (h : Hub M) → Same h (drop_all M gone code h)
  unfolding drop_all drop_sub
  drop_all-Same [] code h = record { ring = refl; next_id = refl }
  drop_all-Same (id ∷ gone) code h =
      let one = drop_sub-Same h id (with_code M code) in
      let rest = drop_all-Same gone code (drop_sub M h id (with_code M code)) in
      record { ring = rest.ring ∙ one.ring; next_id = rest.next_id ∙ one.next_id }

  pub drop_all-Distinct :
      (gone : List ℕ) (code : ℕ) (h : Hub M)
      → Distinct (keys h.subs)
      → Distinct (keys (drop_all M gone code h).subs)
  unfolding drop_all drop_sub
  drop_all-Distinct [] code h d = d
  drop_all-Distinct (id ∷ gone) code h d =
      drop_all-Distinct gone code _ (drop_sub-Distinct h id (with_code M code) d)

  pub drop_all-subs :
      (gone : List ℕ) (code : ℕ) (h : Hub M) (k : ℕ)
      → lookup k (drop_all M gone code h).subs ≡ (if contains k gone then none else lookup k h.subs)
  unfolding drop_all drop_sub
  drop_all-subs [] code h k = refl
  drop_all-subs (id ∷ gone) code h k =
      drop_all-subs gone code (drop_sub M h id (with_code M code)) k
      ∙ ground (arith, drop_sub-subs h id (with_code M code) k)

  drop_all-other :
      (gone : List ℕ) (code : ℕ) (h : Hub M) (k : ℕ)
      → contains k gone ≡ false
      → lookup k (drop_all M gone code h).dropped ≡ lookup k h.dropped
  unfolding drop_all drop_sub
  drop_all-other [] code h k absent = refl
  drop_all-other (id ∷ gone) code h k absent =
      drop_all-other gone code (drop_sub M h id (with_code M code)) k (ground arith)
      ∙ passed (lookup id h.subs) refl
    where
      apart : (id == k) ≡ false
      apart = ground arith

      passed :
          (o : Option (Subscriber M))
          → lookup id h.subs ≡ o
          → lookup k (drop_sub M h id (with_code M code)).dropped ≡ lookup k h.dropped
      passed none e = rw (e, drop_sub)
      passed (some s) e = rw (e, drop_sub, apart)

  -- Who is dropped with `code`: each one named, once, with its close code set.
  pub drop_all-dropped :
      (gone : List ℕ) (code : ℕ) (h : Hub M) (k : ℕ) (s : Subscriber M)
      → lookup k h.subs ≡ some s
      → Distinct gone
      → contains k gone ≡ true
      → lookup k (drop_all M gone code h).dropped ≡ some (with_code M code s)
  unfolding drop_all drop_sub
  drop_all-dropped [] code h k s e d named = cc
  drop_all-dropped (id ∷ gone) code h k s e d named = elim (Bool-cases (id == k)) [
    | inl same ↦
        let id_k = (=?_iff id k).0 same in
        drop_all-other gone code (drop_sub M h id (with_code M code)) k
          (subst (λ j. contains j gone ≡ false) id_k d.0)
        ∙ taken same (ap (λ j. lookup j h.subs) id_k ∙ e)
    | inr other ↦
        drop_all-dropped gone code (drop_sub M h id (with_code M code)) k s
          (ground (arith, drop_sub-subs h id (with_code M code) k)) d.1 (ground arith)
  ]
    where
      taken :
          (id == k) ≡ true
          → lookup id h.subs ≡ some s
          → lookup k (drop_sub M h id (with_code M code)).dropped ≡ some (with_code M code s)
      taken same found = rw (found, drop_sub, same)

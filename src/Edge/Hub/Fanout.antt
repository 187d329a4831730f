-- ===== src/Edge/Hub/Fanout.antt =====
-- One `publish`: who gets the frame, who is dropped, and what is counted.
use rust_uma.Prelude.{
  ℕ, ◌+◌, ◌≡◌, refl, sym, ap, ◌∙◌, subst, Option, none, some, true, false, List, [], ◌∷◌, lookup,
  keys, contains, nat_eq, =?_iff, Distinct, arith, if◌then◌else◌, length, lookup-none, Bool-cases,
  inl, inr, ◌≤◌, ◌==◌,
}
use rust_uma.Edge.Ring.{Frame}
use rust_uma.Edge.Channel.{Mpsc, Sent, delivered, full, closed}
use rust_uma.Edge.Hub.{Subscriber, Fanned, place, fan_out, close_policy}

module _ (M : Mpsc) where
  open M use {Chan, try_send, queued, is_closed, size}

  abbrev pub answer : Frame → Subscriber M → Sent
  answer f s = (try_send s.tx f).1

  abbrev pub kept_as : Sent → Option (Subscriber M) → Option (Subscriber M)
  kept_as delivered s = s
  kept_as full s = none
  kept_as closed s = none

  -- What becomes of one subscriber.
  abbrev pub after_send : Frame → Option (Subscriber M) → Option (Subscriber M)
  after_send f none = none
  after_send f (some s) = kept_as (answer f s) (some (record s { tx = (try_send s.tx f).0 }))

  place-absent :
      (id k : ℕ) (s : Subscriber M) (f : Frame) (r : Fanned M)
      → (k == id) ≡ false
      → lookup id (place M k s (try_send s.tx f).0 (answer f s) r).kept ≡ lookup id r.kept
  place-absent id k s f r other = go (answer f s)
    where
      go : (a : Sent) → lookup id (place M k s (try_send s.tx f).0 a r).kept ≡ lookup id r.kept
      go delivered = rw other
      go full = refl
      go closed = refl

  place-present :
      (id k : ℕ) (s : Subscriber M) (f : Frame) (r : Fanned M)
      → (k == id) ≡ true
      → lookup id r.kept ≡ none
      → lookup id (place M k s (try_send s.tx f).0 (answer f s) r).kept ≡ after_send f (some s)
  place-present id k s f r same absent = go (answer f s)
    where
      go :
          (a : Sent)
          → lookup id (place M k s (try_send s.tx f).0 a r).kept
            ≡ kept_as a (some (record s { tx = (try_send s.tx f).0 }))
      go delivered = rw same
      go full = absent
      go closed = absent

  absent_tail :
      (id k : ℕ) (rest : List (ℕ × Subscriber M))
      → (k == id) ≡ true
      → contains k (keys rest) ≡ false
      → lookup id rest ≡ none
  absent_tail id k rest same h =
      lookup-none id rest (subst (λ j. contains j (keys rest) ≡ false) ((=?_iff k id).0 same) h)

  pub lookup-fan_out :
      (id : ℕ) (f : Frame) (subs : List (ℕ × Subscriber M))
      → Distinct (keys subs)
      → lookup id (fan_out M f subs).kept ≡ after_send f (lookup id subs)
  unfolding fan_out
  lookup-fan_out id f [] d = refl
  lookup-fan_out id f ((k, s) ∷ rest) d = elim (Bool-cases (k == id)) [
    | inl same ↦
        place-present id k s f (fan_out M f rest) same
          (lookup-fan_out id f rest d.1 ∙ ap (after_send f) (absent_tail id k rest same d.0))
        ∙ ap (λ b. after_send f (if b then some s else lookup id rest)) (sym same)
    | inr other ↦
        place-absent id k s f (fan_out M f rest) other
        ∙ (lookup-fan_out id f rest d.1
            ∙ ap (λ b. after_send f (if b then some s else lookup id rest)) (sym other))
  ]

  pub contains-kept :
      (id : ℕ) (f : Frame) (subs : List (ℕ × Subscriber M))
      → contains id (keys subs) ≡ false
      → contains id (keys (fan_out M f subs).kept) ≡ false
  unfolding fan_out
  contains-kept id f [] h = refl
  contains-kept id f ((k, s) ∷ rest) h = go (contains-kept id f rest (ground arith)) (answer f s)
    where
      go :
          contains id (keys (fan_out M f rest).kept) ≡ false
          → (a : Sent)
          → contains id (keys (place M k s (try_send s.tx f).0 a (fan_out M f rest)).kept) ≡ false
      go shorter delivered = ground arith
      go shorter full = shorter
      go shorter closed = shorter

  pub Distinct-kept :
      (f : Frame) (subs : List (ℕ × Subscriber M))
      → Distinct (keys subs)
      → Distinct (keys (fan_out M f subs).kept)
  unfolding fan_out
  Distinct-kept f [] d = tt
  Distinct-kept f ((k, s) ∷ rest) d = go (Distinct-kept f rest d.1) (answer f s)
    where
      go :
          Distinct (keys (fan_out M f rest).kept)
          → (a : Sent) → Distinct (keys (place M k s (try_send s.tx f).0 a (fan_out M f rest)).kept)
      go shorter delivered = (contains-kept k f rest d.0, shorter)
      go shorter full = shorter
      go shorter closed = shorter

  -- What each answer adds to the counts.
  abbrev pub Counted : Fanned M → List (ℕ × Subscriber M) → Type 0
  Counted r subs =
      (r.deliveries ≡ length r.kept)
      × (length r.kept + length r.evicted ≡ length subs)
      × (r.slow ≤ length r.evicted)

  place-Counted :
      (k : ℕ) (s : Subscriber M) (tx : Chan) (a : Sent) (r : Fanned M)
      (rest : List (ℕ × Subscriber M))
      → Counted r rest
      → Counted (place M k s tx a r) ((k, s) ∷ rest)
  place-Counted k s tx delivered r rest h = omega arith
  place-Counted k s tx full r rest h = omega arith
  place-Counted k s tx closed r rest h = omega arith

  pub fan_out-Counted :
      (f : Frame) (subs : List (ℕ × Subscriber M)) → Counted (fan_out M f subs) subs
  unfolding fan_out
  fan_out-Counted f [] = omega arith
  fan_out-Counted f ((k, s) ∷ rest) =
      place-Counted k s (try_send s.tx f).0 (answer f s) (fan_out M f rest) rest
        (fan_out-Counted f rest)

  abbrev pub evicted_as : Subscriber M → Chan → Sent → Option (Subscriber M)
  evicted_as s tx delivered = none
  evicted_as s tx full = some (record s { tx = tx; close_code = close_policy })
  evicted_as s tx closed = some (record s { tx = tx })

  abbrev pub after_drop : Frame → Option (Subscriber M) → Option (Subscriber M)
  after_drop f none = none
  after_drop f (some s) = evicted_as s (try_send s.tx f).0 (answer f s)

  evicted-absent :
      (id k : ℕ) (s : Subscriber M) (tx : Chan) (a : Sent) (r : Fanned M)
      → (k == id) ≡ false
      → lookup id (place M k s tx a r).evicted ≡ lookup id r.evicted
  evicted-absent id k s tx delivered r other = refl
  evicted-absent id k s tx full r other = rw other
  evicted-absent id k s tx closed r other = rw other

  evicted-present :
      (id k : ℕ) (s : Subscriber M) (tx : Chan) (a : Sent) (r : Fanned M)
      → (k == id) ≡ true
      → lookup id r.evicted ≡ none
      → lookup id (place M k s tx a r).evicted ≡ evicted_as s tx a
  evicted-present id k s tx delivered r same absent = absent
  evicted-present id k s tx full r same absent = rw same
  evicted-present id k s tx closed r same absent = rw same

  pub lookup-evicted :
      (id : ℕ) (f : Frame) (subs : List (ℕ × Subscriber M))
      → Distinct (keys subs)
      → lookup id (fan_out M f subs).evicted ≡ after_drop f (lookup id subs)
  unfolding fan_out
  lookup-evicted id f [] d = refl
  lookup-evicted id f ((k, s) ∷ rest) d = elim (Bool-cases (k == id)) [
    | inl same ↦
        evicted-present id k s (try_send s.tx f).0 (answer f s) (fan_out M f rest) same
          (lookup-evicted id f rest d.1 ∙ ap (after_drop f) (absent_tail id k rest same d.0))
        ∙ ap (λ b. after_drop f (if b then some s else lookup id rest)) (sym same)
    | inr other ↦
        evicted-absent id k s (try_send s.tx f).0 (answer f s) (fan_out M f rest) other
        ∙ (lookup-evicted id f rest d.1
            ∙ ap (λ b. after_drop f (if b then some s else lookup id rest)) (sym other))
  ]

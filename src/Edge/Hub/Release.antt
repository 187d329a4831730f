-- ===== src/Edge/Hub/Release.antt =====
-- `release` and `kick_tokens` as a whole: exactly whom they drop, with which code, and their count.
use rust_uma.Prelude.{
  ℕ, zero, suc, ◌+◌, ◌≡◌, refl, ap₂, ◌∙◌, subst, none, some, Bool, true, false, List, [], ◌∷◌,
  lookup, keys, nat_eq, Distinct, arith, if◌then◌else◌, length, length-map, contains, lookup-none,
  =?_iff, ◌==◌, ◌⊎◌, inl, inr, Bool-cases, remove, take, length-take, min, filterb, String, All,
  All-take,
}
use mathlib.Core.Option.{some-injective}
use rust_uma.Edge.Channel.{Mpsc}
use rust_uma.Edge.Hub.{
  Hub, Subscriber, drop_sub, drop_all, with_code, release, kick_tokens, ids, fails, close_policy,
  clients,
}
use rust_uma.Edge.Hub.Dropping.{drop_sub-subs, drop_sub-Distinct, drop_all-subs, drop_all-dropped}

contains-take : (k n : ℕ) (l : List ℕ) → contains k l ≡ false → contains k (take n l) ≡ false
contains-take k zero l h = refl
contains-take k (suc n) [] h = refl
contains-take k (suc n) (x ∷ l) h = ground (arith, contains-take k n l)

Distinct-take : (n : ℕ) (l : List ℕ) → Distinct l → Distinct (take n l)
Distinct-take zero l d = tt
Distinct-take (suc n) [] d = tt
Distinct-take (suc n) (x ∷ l) d = (contains-take x n l d.0, Distinct-take n l d.1)

module _ {ℓ} {V : Type ℓ} where
  length-remove_absent :
      (k : ℕ) (m : List (ℕ × V)) → contains k (keys m) ≡ false → length (remove k m) ≡ length m
  length-remove_absent k [] h = refl
  length-remove_absent k ((i, w) ∷ m) h = ground (arith, length-remove_absent k m)

  length-remove :
      (k : ℕ) (m : List (ℕ × V))
      → Distinct (keys m)
      → contains k (keys m) ≡ true
      → length (remove k m) + 1 ≡ length m
  length-remove k [] d h = cc
  length-remove k ((i, w) ∷ m) d h = elim (Bool-cases (i == k)) [
    | inl same ↦ rw same (
        omega (
          arith,
          length-remove_absent k m
              (subst (λ j. contains j (keys m) ≡ false) ((=?_iff i k).0 same) d.0),
        ))
    | inr other ↦ rw other (omega (arith, length-remove k m d.1 (ground arith)))
  ]

  -- Every id is that of an entry.
  abbrev Within : List ℕ → List (ℕ × V) → Type ℓ
  Within named m = All (λ id. (v : V) × (lookup id m ≡ some v)) named

  Within-cons :
      (i : ℕ) (w : V) (named : List ℕ) (m : List (ℕ × V))
      → contains i named ≡ false
      → Within named m
      → Within named ((i, w) ∷ m)
  Within-cons i w [] m absent h = tt
  Within-cons i w (j ∷ named) m absent ((v, e), more) = (
    (v, let apart : (i == j) ≡ false = ground (arith, =?_iff i j, =?_iff j i) in rw apart e),
    Within-cons i w named m (ground arith) more,
  )

  Within-keys : (m : List (ℕ × V)) → Distinct (keys m) → Within (keys m) m
  Within-keys [] d = tt
  Within-keys ((i, w) ∷ m) d = (
    (w, let same : (i == i) ≡ true = ground arith in rw same),
    Within-cons i w (keys m) m d.0 (Within-keys m d.1),
  )

  contains-filterb :
      (p : ℕ × V → Bool) (k : ℕ) (m : List (ℕ × V))
      → contains k (keys m) ≡ false
      → contains k (keys (filterb p m)) ≡ false
  contains-filterb p k [] h = refl
  contains-filterb p k ((i, w) ∷ m) h = ground (arith, contains-filterb p k m)

  Distinct-filterb :
      (p : ℕ × V → Bool) (m : List (ℕ × V)) → Distinct (keys m) → Distinct (keys (filterb p m))
  Distinct-filterb p [] d = tt
  Distinct-filterb p ((i, w) ∷ m) d = elim (Bool-cases (p (i, w))) [
    | inl e ↦ rw e (contains-filterb p i m d.0, Distinct-filterb p m d.1)
    | inr e ↦ rw e (Distinct-filterb p m d.1)
  ]

  Within-filterb :
      (p : ℕ × V → Bool) (m : List (ℕ × V)) → Distinct (keys m) → Within (keys (filterb p m)) m
  Within-filterb p [] d = tt
  Within-filterb p ((i, w) ∷ m) d =
      let rest =
        Within-cons i w (keys (filterb p m)) m (contains-filterb p i m d.0)
          (Within-filterb p m d.1) in
      elim (Bool-cases (p (i, w))) [
        | inl e ↦ rw e ((w, let same : (i == i) ≡ true = ground arith in rw same), rest)
        | inr e ↦ rw e rest
      ]

  -- An entry's key survives a filter exactly if the entry does.
  contains-filterb_self :
      (p : ℕ × V → Bool) (k : ℕ) (v : V) (m : List (ℕ × V))
      → Distinct (keys m)
      → lookup k m ≡ some v
      → contains k (keys (filterb p m)) ≡ p (k, v)
  contains-filterb_self p k v [] d e = cc
  contains-filterb_self p k v ((i, w) ∷ m) d e = elim (Bool-cases (i == k)) [
    | inl same ↦
        let key = (=?_iff i k).0 same in
        let value : w ≡ v = some-injective w v (rw same at e) in
        at_head (subst (λ j. contains j (keys m) ≡ false) key d.0) same
        ∙ ap₂ (λ j u. p (j, u)) key value
    | inr other ↦
        let rest : lookup k m ≡ some v = rw other at e in
        passed (p (i, w)) other ∙ contains-filterb_self p k v m d.1 rest
  ]
    where
      at_head :
          contains k (keys m) ≡ false
          → (i == k) ≡ true
          → contains k (keys (filterb p ((i, w) ∷ m))) ≡ p (i, w)
      at_head absent same = elim (Bool-cases (p (i, w))) [
        | inl e' ↦ rw (e', same)
        | inr e' ↦ rw e' (contains-filterb p k m absent)
      ]

      passed :
          (b : Bool)
          → (i == k) ≡ false
          → contains k (keys (if b then (i, w) ∷ filterb p m else filterb p m))
            ≡ contains k (keys (filterb p m))
      passed true other = rw other
      passed false other = refl

module _ (M : Mpsc) where
  length-drop_sub :
      (h : Hub M) (id : ℕ) (mark : Subscriber M → Subscriber M) (s : Subscriber M)
      → Distinct (keys h.subs)
      → lookup id h.subs ≡ some s
      → length (drop_sub M h id mark).subs + 1 ≡ length h.subs
  unfolding drop_sub
  length-drop_sub h id mark s d e =
      rw (e, drop_sub) (length-remove id h.subs d (present (contains id (keys h.subs)) refl))
    where
      present : (b : Bool) → contains id (keys h.subs) ≡ b → contains id (keys h.subs) ≡ true
      present true c = c
      present false c = let n = lookup-none id h.subs c in cc

  Within-drop_sub :
      (h : Hub M) (id : ℕ) (mark : Subscriber M → Subscriber M) (named : List ℕ)
      → contains id named ≡ false
      → Within named h.subs
      → Within named (drop_sub M h id mark).subs
  Within-drop_sub h id mark [] absent w = tt
  Within-drop_sub h id mark (j ∷ named) absent ((s, e), more) = (
    (
      s,
      drop_sub-subs M h id mark j
          ∙ (let apart : (id == j) ≡ false = ground (arith, =?_iff id j, =?_iff j id) in
              rw apart e),
    ),
    Within-drop_sub h id mark named (ground arith) more,
  )

  length-drop_all :
      (gone : List ℕ) (code : ℕ) (h : Hub M)
      → Distinct gone
      → Distinct (keys h.subs)
      → Within gone h.subs
      → length (drop_all M gone code h).subs + length gone ≡ length h.subs
  unfolding drop_all
  length-drop_all [] code h d k w = omega arith
  length-drop_all (id ∷ gone) code h d k w =
      let h1 = drop_sub M h id (with_code M code) in
      omega (
        arith,
        length-drop_sub h id (with_code M code) w.0.0 k w.0.1,
        length-drop_all gone code h1 d.1 (drop_sub-Distinct M h id (with_code M code) k)
            (Within-drop_sub h id (with_code M code) gone d.0 w.1),
      )

  -- A registered subscriber that stays, or goes with a code.
  abbrev pub Stays : Hub M → ℕ → Subscriber M → Type 0
  Stays h id s = lookup id h.subs ≡ some s

  abbrev pub Goes : Hub M → ℕ → Subscriber M → ℕ → Type 0
  Goes h id s code = (lookup id h.subs ≡ none) × (lookup id h.dropped ≡ some (with_code M code s))

  module _ (h : Hub M) (distinct : Distinct (keys h.subs)) where
    drop_all_lem :
        (gone : List ℕ) (code id : ℕ) (s : Subscriber M)
        → Distinct gone
        → lookup id h.subs ≡ some s
        → (contains id gone ≡ true → Goes (drop_all M gone code h) id s code)
          × (contains id gone ≡ false → Stays (drop_all M gone code h) id s)
    drop_all_lem gone code id s d e = (
      λ named. (
        drop_all-subs M gone code h id ∙ rw named,
        drop_all-dropped M gone code h id s e d named,
      ),
      λ unnamed. drop_all-subs M gone code h id ∙ rw unnamed e,
    )

    -- `release` drops `min n (clients)` subscribers, returns their number, leaves the others as
    -- they were, and gives each dropped one the code.
    pub release_lem :
        (n code : ℕ)
        → let (h', count) = release M h n code in
          (count ≡ min n (clients M h))
          × (clients M h' + count ≡ clients M h)
          × ((id : ℕ) (s : Subscriber M) → Stays h id s → Stays h' id s ⊎ Goes h' id s code)
    unfolding release
    release_lem n code =
        let gone = take n (ids M h.subs) in
        let d = Distinct-take n (ids M h.subs) distinct in
        (
          omega (
            arith,
            length-take n (ids M h.subs),
            length-map (λ (p : ℕ × Subscriber M). p.0) h.subs,
          ),
          length-drop_all gone code h d distinct
              (All-take _ n (ids M h.subs) (Within-keys h.subs distinct)),
          λ id s e.
              let (goes, stays) = drop_all_lem gone code id s d e in
              elim (Bool-cases (contains id gone)) [
                | inl named ↦ inr (goes named)
                | inr unnamed ↦ inl (stays unnamed)
              ],
        )

    -- `kick_tokens` drops, with code 1008, exactly the subscribers whose token fails the test,
    -- leaves the others as they were, and returns how many it dropped. One without a token stays.
    pub kick_tokens_lem :
        (keep : String → Bool)
        → let (h', count) = kick_tokens M h keep in
          (clients M h' + count ≡ clients M h)
          × ((id : ℕ) (s : Subscriber M)
              → Stays h id s
              → (fails M keep s ≡ true → Goes h' id s close_policy)
                × (fails M keep s ≡ false → Stays h' id s))
    unfolding kick_tokens
    kick_tokens_lem keep =
        let failing = λ (p : ℕ × Subscriber M). fails M keep p.1 in
        let gone = ids M (filterb failing h.subs) in
        let d = Distinct-filterb failing h.subs distinct in
        (
          length-drop_all gone close_policy h d distinct (Within-filterb failing h.subs distinct),
          λ id s e.
              let (goes, stays) = drop_all_lem gone close_policy id s d e in
              let named = contains-filterb_self failing id s h.subs distinct e in
              (λ f. goes (named ∙ f), λ f. stays (named ∙ f)),
        )

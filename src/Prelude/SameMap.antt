-- ===== src/Prelude/SameMap.antt =====
-- Equality of two hash maps, as the comparison of the source computes it.
use Prim.Native.Nat.{suc}
use mathlib.Core.Path.{◌≡◌, refl, sym, ◌∙◌, ap, subst}
use mathlib.Core.Logic.{inl, inr}
use mathlib.Core.Bool.{Bool, true, false, ◌&&◌}
use mathlib.Core.Option.{Option, none, some}
use mathlib.Core.List.{List, [], ◌∷◌}
use native.Mathlib.Omega.{arith}
use rust_uma.Prelude.Tests.{Bool-cases, ◌==◌}
use rust_uma.Prelude.Lists.{length, all, any}
use rust_uma.Prelude.Classes.{Eq, ◌=?◌, =?_iff}
use rust_uma.Prelude.Assoc.{
  contains, Distinct, lookup, remove, keys, lookup-remove, Distinct-remove,
}

module _ {ℓ κ} {K : Type ℓ} {V : Type κ} ⦃e : Eq K⦄ where
  length-remove_none :
      (k : K) (m : List (K × V)) → contains k (keys m) ≡ false → length (remove k m) ≡ length m
  length-remove_none k [] h = refl
  length-remove_none k ((i, w) ∷ m) h = ground (arith, length-remove_none k m)

  length-remove_some :
      (k : K) (m : List (K × V))
      → Distinct (keys m)
      → contains k (keys m) ≡ true
      → suc (length (remove k m)) ≡ length m
  length-remove_some k [] d h = ground arith
  length-remove_some k ((i, w) ∷ m) d h = elim (Bool-cases (i =? k)) [
    | inl same ↦ rw same (ap suc (length-remove_none k m (rw (← (=?_iff i k).0 same) d.0)))
    | inr other ↦ rw other (ap suc (length-remove_some k m d.1 (ground arith)))
  ]

abbrev pub has_value {κ} : {V : Type κ} ⦃f : Eq V⦄ → Option V → V → Bool
has_value none v = false
has_value (some w) v = w =? v

has_value-some {κ} :
    {V : Type κ} ⦃f : Eq V⦄ (o : Option V) (v : V) → has_value o v ≡ true → o ≡ some v
has_value-some none v h = ground arith
has_value-some (some w) v h = ap some ((=?_iff w v).0 h)

=?_true {ℓ} : {A : Type ℓ} ⦃e : Eq A⦄ (a : A) → (a =? a) ≡ true
=?_true a = (=?_iff a a).1 refl

module _ {ℓ κ} {K : Type ℓ} {V : Type κ} ⦃e : Eq K⦄ where
  pub lookup-named :
      (k : K) (v : V) (m : List (K × V)) → lookup k m ≡ some v → contains k (keys m) ≡ true
  lookup-named k v [] h = ground arith
  lookup-named k v ((i, w) ∷ m) h = ground (arith, lookup-named k v m)

module _ {ℓ κ} {K : Type ℓ} {V : Type κ} ⦃e : Eq K⦄ ⦃f : Eq V⦄ where
  -- Every entry of `a` is in `b`.
  abbrev pub within : List (K × V) → List (K × V) → Bool
  within a b = all (λ p. has_value (lookup p.0 b) p.1) a

  -- As many entries, and each of the one in the other.
  abbrev pub same_map : List (K × V) → List (K × V) → Bool
  same_map a b = (length a == length b) && within a b

  within-remove :
      (k : K) (a b : List (K × V))
      → contains k (keys a) ≡ false
      → within a b ≡ true
      → within a (remove k b) ≡ true
  within-remove k [] b absent h = refl
  within-remove k ((i, v) ∷ a) b absent h =
      ground (arith, within-remove k a b, lookup-remove k i b, =?_iff k i, =?_iff i k)

  within-lookup :
      (a b : List (K × V))
      → Distinct (keys a)
      → Distinct (keys b)
      → length a ≡ length b
      → within a b ≡ true
      → (k : K) → lookup k a ≡ lookup k b
  within-lookup [] [] da db len h k = refl
  within-lookup [] (y ∷ b) da db len h k = ground arith
  within-lookup ((i, v) ∷ a) b da db len h k =
      let there : lookup i b ≡ some v = has_value-some (lookup i b) v (ground arith) in
      let named = lookup-named i v b there in
      let rest : lookup k a ≡ lookup k (remove i b) =
        within-lookup a (remove i b) da.1 (Distinct-remove i b db)
          (omega (arith, len, length-remove_some i b db named))
          (within-remove i a b da.0 (ground arith)) k in
      elim (Bool-cases (i =? k)) [
        | inl same ↦ rw same (sym (subst (λ j. lookup j b ≡ some v) ((=?_iff i k).0 same) there))
        | inr other ↦ rw other (rest ∙ (lookup-remove i k b ∙ rw other refl))
      ]

  -- Two maps that compare equal answer alike.
  pub same_map-lookup :
      (a b : List (K × V))
      → Distinct (keys a)
      → Distinct (keys b)
      → same_map a b ≡ true
      → (k : K) → lookup k a ≡ lookup k b
  same_map-lookup a b da db h = within-lookup a b da db (ground arith) (ground arith)

  abbrev pub holds : V → List (K × V) → Bool
  holds v m = any (λ p. p.1 =? v) m

  pub lookup-holds : (k : K) (v : V) (m : List (K × V)) → lookup k m ≡ some v → holds v m ≡ true
  lookup-holds k v [] h = ground arith
  lookup-holds k v ((i, w) ∷ m) h = ground (arith, =?_iff w v, lookup-holds k v m)

  holds-lookup :
      (v : V) (m : List (K × V))
      → Distinct (keys m)
      → holds v m ≡ true
      → (k : K) × (lookup k m ≡ some v)
  holds-lookup v [] d h = ground arith
  holds-lookup v ((i, w) ∷ m) d h = elim (Bool-cases (w =? v)) [
    | inl same ↦ (i, rw (=?_true i) (ap some ((=?_iff w v).0 same)))
    | inr other ↦
        let (k, e) = holds-lookup v m d.1 (ground arith) in
        (
          k,
          elim (Bool-cases (i =? k)) [
            | inl same ↦
                let absent : contains k (keys m) ≡ false =
                  subst (λ j. contains j (keys m) ≡ false) ((=?_iff i k).0 same) d.0 in
                ground (arith, lookup-named k v m e)
            | inr apart ↦ rw apart e
          ],
        )
  ]

  holds-same :
      (a b : List (K × V))
      → Distinct (keys a)
      → ((k : K) → lookup k a ≡ lookup k b)
      → (v : V) → holds v a ≡ true
      → holds v b ≡ true
  holds-same a b d same v h =
      let (k, e) = holds-lookup v a d h in lookup-holds k v b (sym (same k) ∙ e)

  -- Maps that answer alike hold the same values.
  pub lookup-holds_same :
      (a b : List (K × V))
      → Distinct (keys a)
      → Distinct (keys b)
      → ((k : K) → lookup k a ≡ lookup k b)
      → (v : V) → holds v a ≡ holds v b
  lookup-holds_same a b da db same v =
      ground (arith, holds-same a b da same v, holds-same b a db (λ k. sym (same k)) v)

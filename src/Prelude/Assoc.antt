-- ===== src/Prelude/Assoc.antt =====
-- The program's hash maps and hash sets, as lists: a map is a list of pairs, a set a list of keys.
-- No statement of the development depends on the order of their items.
use mathlib.Core.Path.{◌≡◌, refl}
use mathlib.Core.Bool.{Bool, false, ◌||◌}
use mathlib.Core.Option.{Option, none, some}
use mathlib.Core.List.{List, [], ◌∷◌, ◌++◌, map}
use native.Mathlib.Omega.{arith}
use mathlib.Core.Logic.{inl, inr}
use Prim.Native.Nat.{ℕ}
use rust_uma.Prelude.Tests.{if◌then◌else◌, Bool-cases, ltb, ◌==◌}
use rust_uma.Prelude.Classes.{Eq, ◌=?◌, =?_iff}

module _ {ℓ} {K : Type ℓ} ⦃e : Eq K⦄ where
  abbrev pub contains : K → List K → Bool
  contains k [] = false
  contains k (j ∷ ks) = (j =? k) || contains k ks

  -- Removal from a set.
  abbrev pub discard : K → List K → List K
  discard k [] = []
  discard k (j ∷ ks) = if j =? k then discard k ks else j ∷ discard k ks

  pub contains-discard :
      (k j : K) (ks : List K)
      → contains j (discard k ks) ≡ (if k =? j then false else contains j ks)
  contains-discard k j [] = ground arith
  contains-discard k j (i ∷ ks) =
      ground (arith, =?_iff k j, =?_iff i k, =?_iff i j, contains-discard k j ks)

  pub contains-append :
      (k : K) (xs ys : List K) → contains k (xs ++ ys) ≡ (contains k xs || contains k ys)
  contains-append k [] ys = refl
  contains-append k (x ∷ xs) ys = ground (arith, contains-append k xs ys)

  -- No key stands twice.
  abbrev pub Distinct : List K → Type 0
  Distinct [] = Unit
  Distinct (k ∷ ks) = (contains k ks ≡ false) × Distinct ks

  pub Distinct-append :
      (ks : List K) (k : K) → Distinct ks → contains k ks ≡ false → Distinct (ks ++ (k ∷ []))
  Distinct-append [] k d h = (refl, tt)
  Distinct-append (j ∷ ks) k d h = (
    ground (arith, contains-append j ks (k ∷ []), =?_iff j k, =?_iff k j),
    Distinct-append ks k d.1 (ground arith),
  )

module _ {ℓ κ} {K : Type ℓ} {V : Type κ} ⦃e : Eq K⦄ where
  abbrev pub lookup : K → List (K × V) → Option V
  lookup k [] = none
  lookup k ((j, v) ∷ m) = if j =? k then some v else lookup k m

  abbrev pub insert : K → V → List (K × V) → List (K × V)
  insert k v [] = (k, v) ∷ []
  insert k v ((j, w) ∷ m) = if j =? k then (k, v) ∷ m else (j, w) ∷ insert k v m

  abbrev pub remove : K → List (K × V) → List (K × V)
  remove k [] = []
  remove k ((j, w) ∷ m) = if j =? k then remove k m else (j, w) ∷ remove k m

  pub lookup-insert :
      (k j : K) (v : V) (m : List (K × V))
      → lookup j (insert k v m) ≡ (if k =? j then some v else lookup j m)
  lookup-insert k j v [] = refl
  lookup-insert k j v ((i, w) ∷ m) =
      ground (arith, =?_iff k j, =?_iff i k, =?_iff i j, lookup-insert k j v m)

  pub lookup-insert_self : (k : K) (v : V) (m : List (K × V)) → lookup k (insert k v m) ≡ some v
  lookup-insert_self k v m = ground (arith, lookup-insert k k v m, =?_iff k k)

  pub lookup-remove :
      (k j : K) (m : List (K × V)) → lookup j (remove k m) ≡ (if k =? j then none else lookup j m)
  lookup-remove k j [] = ground arith
  lookup-remove k j ((i, w) ∷ m) =
      ground (arith, =?_iff k j, =?_iff i k, =?_iff i j, lookup-remove k j m)

module _ {ℓ κ} {K : Type ℓ} {V : Type κ} ⦃e : Eq K⦄ where
  abbrev pub keys : List (K × V) → List K
  keys m = map (λ p. p.0) m

  pub contains-keys-insert :
      (k j : K) (v : V) (m : List (K × V))
      → contains j (keys (insert k v m)) ≡ ((k =? j) || contains j (keys m))
  contains-keys-insert k j v [] = refl
  contains-keys-insert k j v ((i, w) ∷ m) =
      ground (arith, =?_iff k j, =?_iff i k, =?_iff i j, contains-keys-insert k j v m)

  pub contains-keys-remove :
      (k j : K) (m : List (K × V))
      → contains j (keys (remove k m)) ≡ (if k =? j then false else contains j (keys m))
  contains-keys-remove k j [] = ground arith
  contains-keys-remove k j ((i, w) ∷ m) =
      ground (arith, =?_iff k j, =?_iff i k, =?_iff i j, contains-keys-remove k j m)

  pub lookup-none : (k : K) (m : List (K × V)) → contains k (keys m) ≡ false → lookup k m ≡ none
  lookup-none k [] h = refl
  lookup-none k ((i, w) ∷ m) h = ground (arith, lookup-none k m)

  pub contains-keys-lookup :
      (k : K) (m : List (K × V)) → lookup k m ≡ none → contains k (keys m) ≡ false
  contains-keys-lookup k [] h = refl
  contains-keys-lookup k ((i, w) ∷ m) h = ground (arith, contains-keys-lookup k m)

  pub Distinct-insert :
      (k : K) (v : V) (m : List (K × V)) → Distinct (keys m) → Distinct (keys (insert k v m))
  Distinct-insert k v [] d = (refl, tt)
  Distinct-insert k v ((i, w) ∷ m) d = elim (Bool-cases (i =? k)) [
    | inl same ↦ rw same (rw (← (=?_iff i k).0 same) d.0, d.1)
    | inr other ↦ rw other (
      ground (arith, contains-keys-insert k i v m, =?_iff k i, =?_iff i k),
      Distinct-insert k v m d.1,
    )
  ]

  pub Distinct-remove :
      (k : K) (m : List (K × V)) → Distinct (keys m) → Distinct (keys (remove k m))
  Distinct-remove k [] d = tt
  Distinct-remove k ((i, w) ∷ m) d = elim (Bool-cases (i =? k)) [
    | inl same ↦ rw same (Distinct-remove k m d.1)
    | inr other ↦ rw other (ground (arith, contains-keys-remove k i m), Distinct-remove k m d.1)
  ]

-- The ordered map of the source, with numbers for keys: an entry is put before the first larger key.
abbrev pub insert_ordered {κ} : {V : Type κ} → ℕ → V → List (ℕ × V) → List (ℕ × V)
insert_ordered k v [] = (k, v) ∷ []
insert_ordered k v ((j, w) ∷ m) =
    if j == k
    then (k, v) ∷ m
    else if ltb k j
    then (k, v) ∷ (j, w) ∷ m
    else (j, w) ∷ insert_ordered k v m

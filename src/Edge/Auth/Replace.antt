-- ===== src/Edge/Auth/Replace.antt =====
-- What a new set of tokens changes, and what it leaves.
use rust_uma.Prelude.{
  ℕ, ◌≡◌, ◌≢◌, refl, sym, ◌∙◌, true, false, Option, none, some, List, [], ◌∷◌, String, string_eq,
  ◌=?◌, =?_iff, if◌then◌else◌, lookup, insert, lookup-insert, keys, Distinct, Distinct-insert,
  same_map-lookup, lookup-holds_same, lookup-holds, arith, inl, inr, Option-cases,
}
use rust_uma.Console.Tokens.{TokenGrant}
use rust_uma.Edge.Auth.{TokenSet, collect, replace, check, is_live, static_token_id}

abbrev pub IsValid : TokenSet → Type 0
IsValid set = Distinct (keys set.console)

pub collect-Distinct :
    (m : List (String × String)) (gs : List TokenGrant)
    → Distinct (keys m)
    → Distinct (keys (collect m gs))
unfolding collect
collect-Distinct m [] d = d
collect-Distinct m (g ∷ gs) d =
    collect-Distinct (insert g.secret g.id m) gs (Distinct-insert g.secret g.id m d)

-- The id of the last grant with a secret.
unfoldable pub granted : String → List TokenGrant → Option String
granted secret [] = none
granted secret (g ∷ gs) =
    let later = granted secret gs in
    elim later [ some id ↦ some id | none ↦ if g.secret =? secret then some g.id else none ]

abbrev pub first_some : Option String → Option String → Option String
first_some (some a) b = some a
first_some none b = b

lookup-collect :
    (secret : String) (m : List (String × String)) (gs : List TokenGrant)
    → lookup secret (collect m gs) ≡ first_some (granted secret gs) (lookup secret m)
unfolding collect granted
lookup-collect secret m [] = refl
lookup-collect secret m (g ∷ gs) =
    ground (
      arith,
      lookup-collect secret (insert g.secret g.id m) gs,
      lookup-insert g.secret secret g.id m,
    )

pub lookup-collect_new :
    (secret : String) (gs : List TokenGrant) → lookup secret (collect [] gs) ≡ granted secret gs
lookup-collect_new secret gs = ground (arith, lookup-collect secret [] gs)

replace-same :
    (set : TokenSet) (version : ℕ) (gs : List TokenGrant)
    → IsValid set
    → (replace set version gs).1 ≡ false
    → (set.received_from_console ≡ true)
      × ((secret : String) → lookup secret (collect [] gs) ≡ lookup secret set.console)
unfolding replace
replace-same set version gs valid h = (
  ground arith,
  same_map-lookup (collect [] gs) set.console (collect-Distinct [] gs tt) valid (ground arith),
)

check-same :
    (a b : TokenSet)
    → ((secret : String) → lookup secret a.console ≡ lookup secret b.console)
    → a.received_from_console ≡ b.received_from_console
    → a.statics ≡ b.statics
    → (secret : String) → check a secret ≡ check b secret
unfolding check
check-same a b same received statics secret = elim (Option-cases (lookup secret b.console)) [
  | inl absent ↦ rw (same secret ∙ absent, absent, received, statics) refl
  | inr (id, there) ↦ rw (same secret ∙ there, there) refl
]

is_live-same :
    (a b : TokenSet)
    → IsValid a
    → IsValid b
    → ((secret : String) → lookup secret a.console ≡ lookup secret b.console)
    → a.received_from_console ≡ b.received_from_console
    → (id : String) → is_live a id ≡ is_live b id
unfolding is_live
is_live-same a b va vb same received id =
    rw (received, lookup-holds_same a.console b.console va vb same id) refl

-- When `replace` answers that nothing changed, which is when the edge node kicks nobody, then
-- every secret is answered as before, and the same token ids are live.
pub replace_says_changed :
    (set : TokenSet) (version : ℕ) (gs : List TokenGrant)
    → IsValid set
    → (replace set version gs).1 ≡ false
    → ((secret : String) → check (replace set version gs).0 secret ≡ check set secret)
      × ((id : String) → is_live (replace set version gs).0 id ≡ is_live set id)
unfolding replace
replace_says_changed set version gs valid h =
    let (received, same) = replace-same set version gs valid h in
    let next = (replace set version gs).0 in
    (
      check-same next set same (sym received) refl,
      is_live-same next set (collect-Distinct [] gs tt) valid same (sym received),
    )

-- In a valid set whose console tokens are not called `env`, a secret is accepted only with the id
-- of a token that is live in this set.
pub check-is_live :
    (set : TokenSet) (secret id : String)
    → lookup secret set.console ≢ some static_token_id
    → check set secret ≡ some id
    → is_live set id ≡ true
unfolding check is_live
check-is_live set secret id named h = elim (Option-cases (lookup secret set.console)) [
  | inl absent ↦ ground (arith, absent, =?_iff static_token_id id)
  | inr (i, there) ↦
      ground (arith, there, lookup-holds secret id set.console, =?_iff id static_token_id)
]

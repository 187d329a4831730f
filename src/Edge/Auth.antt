-- ===== src/Edge/Auth.antt =====
-- src/edge/auth.rs: the tokens that an edge node accepts. The read-write lock makes each call one
-- step.
use rust_uma.Prelude.{
  ℕ, Bool, true, false, not, ◌||◌, ◌&&◌, Option, none, some, List, [], ◌∷◌, String, string_eq, ◌=?◌,
  if◌then◌else◌, any, lookup, insert, same_map,
}
use rust_uma.Console.Tokens.{TokenGrant}
pub mod Replace

-- `console` is from a secret to the id of its token.
pub record TokenSet : Type 0 where
  pub version : ℕ
  pub console : List (String × String)
  pub statics : List String
  pub received_from_console : Bool

abbrev pub static_token_id : String
static_token_id = "env"

unfoldable pub new : List String → TokenSet
new statics = record { version = 0; console = []; statics = statics; received_from_console = false }

-- `collect` into a map: of two grants with one secret, the later one stands.
unfoldable pub collect : List (String × String) → List TokenGrant → List (String × String)
collect m [] = m
collect m (g ∷ gs) = collect (insert g.secret g.id m) gs

unfoldable pub replace : TokenSet → ℕ → List TokenGrant → TokenSet × Bool
replace set version grants =
    let next = collect [] grants in
    (
      record set { version = version; console = next; received_from_console = true },
      not (same_map next set.console) || not set.received_from_console,
    )

unfoldable pub check : TokenSet → String → Option String
check set secret = if secret =? "" then none else elim (lookup secret set.console) [
  | some id ↦ some id
  | none ↦
      if not set.received_from_console && any (λ s. s =? secret) set.statics
      then some static_token_id
      else none
]

unfoldable pub is_live : TokenSet → String → Bool
is_live set token_id =
    if token_id =? static_token_id
    then not set.received_from_console
    else any (λ p. p.1 =? token_id) set.console

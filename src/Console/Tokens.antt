-- ===== src/Console/Tokens.antt =====
-- src/console/tokens.rs and src/console/store.rs: the tokens, their version and their file. The
-- random id and secret of a new token, the time, and whether a write succeeds are arguments. The
-- lock makes each call one step.
use rust_uma.Prelude.{
  ℕ, ◌≡◌, ◌==◌, Bool, true, false, not, Option, none, some, List, [], ◌∷◌, ◌++◌, map, String,
  string_eq, ◌=?◌, if◌then◌else◌, filterb, length, u64_add,
}
pub mod Versions
pub mod Persistence

pub record Token : Type 0 where
  pub id : String
  pub secret : String
  pub name : String
  pub enabled : Bool
  pub created_at_ms : ℕ
  pub updated_at_ms : ℕ

pub record TokensFile : Type 0 where
  pub version : ℕ
  pub tokens : List Token

pub record TokenGrant : Type 0 where
  pub id : String
  pub secret : String

-- The JSON library, on the one type that it is used for here, and the trimming of a name.
pub record Text : Type 1 where
  pub Body : Type 0
  pub to_vec : TokensFile → Body
  pub from_slice : Body → Option TokensFile
  pub round_trip : (file : TokensFile) → from_slice (to_vec file) ≡ some file
  pub trim : String → String

-- The answer of a call that may fail to write.
pub data Answer : Type 0 where
  ok : Bool → Answer
  io_error : Answer

unfoldable pub default_file : TokensFile
default_file = record { version = 0; tokens = [] }

-- The tokens after a change of the first one with the id, and whether there is one.
unfoldable pub update_first : String → (Token → Token) → List Token → List Token × Bool
update_first id change [] = ([], false)
update_first id change (t ∷ ts) =
    let rest = update_first id change ts in
    if t.id =? id then (change t ∷ ts, true) else (t ∷ rest.0, rest.1)

abbrev pub with_tokens : TokensFile → List Token × Bool → TokensFile × Bool
with_tokens file result = (record file { tokens = result.0 }, result.1)

unfoldable pub retain_others : String → TokensFile → TokensFile × Bool
retain_others id file =
    let kept = filterb (λ t. not (t.id =? id)) file.tokens in
    (record file { tokens = kept }, not (length kept == length file.tokens))

abbrev pub grant_of : Token → TokenGrant
grant_of t = record { id = t.id; secret = t.secret }

abbrev pub enabled_of : Token → Bool
enabled_of t = t.enabled

unfoldable pub grants : TokensFile → ℕ × List TokenGrant
grants file = (file.version, map grant_of (filterb enabled_of file.tokens))

module _ (L : Text) where
  open L use {Body, to_vec, from_slice, trim}

  -- The store, with what its file holds: nothing before the first write.
  pub record TokenStore : Type 0 where
    pub inner : TokensFile
    pub disk : Option Body

  -- A file that is there and does not parse is an error.
  unfoldable pub load_json : Option Body → Option (Option TokensFile)
  load_json none = some none
  load_json (some body) = elim (from_slice body) [ none ↦ none | some file ↦ some (some file) ]

  unfoldable pub open_store : Option Body → Option TokenStore
  open_store disk = elim (load_json disk) [
    | none ↦ none
    | some none ↦ some (record { inner = default_file; disk = disk })
    | some (some file) ↦ some (record { inner = file; disk = disk })
  ]

  -- The file is written beside the old one and renamed, so that a write that fails leaves the old.
  unfoldable pub save_json : TokensFile → Bool → Option Body → Option Body × Bool
  save_json file written disk = if written then (some (to_vec file), true) else (disk, false)

  abbrev pub bumped : TokensFile → TokensFile
  bumped file = record file { version = u64_add file.version 1 }

  unfoldable pub mutate : (TokensFile → TokensFile × Bool) → Bool → TokenStore → TokenStore × Answer
  mutate f written s =
      let (file, changed) = f s.inner in
      let (disk, saved) = save_json (bumped file) written s.disk in
      if not changed
      then (record s { inner = file }, ok false)
      else (record { inner = bumped file; disk = disk }, if saved then ok true else io_error)

  abbrev pub created : String → String → String → ℕ → Token
  created id secret name now = record {
    id = id;
    secret = secret;
    name = trim name;
    enabled = true;
    created_at_ms = now;
    updated_at_ms = now;
  }

  abbrev pub pushed : Token → TokensFile → TokensFile × Bool
  pushed token file = with_tokens file (file.tokens ++ (token ∷ []), true)

  abbrev pub toggled : String → Bool → ℕ → TokensFile → TokensFile × Bool
  toggled id enabled now file =
      with_tokens file
        (update_first id (λ t. record t { enabled = enabled; updated_at_ms = now }) file.tokens)

  abbrev pub renamed : String → String → ℕ → TokensFile → TokensFile × Bool
  renamed id name now file =
      with_tokens file
        (update_first id (λ t. record t { name = trim name; updated_at_ms = now }) file.tokens)

  unfoldable pub create : String → String → String → ℕ → Bool → TokenStore → TokenStore × Answer
  create id secret name now written s = mutate (pushed (created id secret name now)) written s

  unfoldable pub set_enabled : String → Bool → ℕ → Bool → TokenStore → TokenStore × Answer
  set_enabled id enabled now written s = mutate (toggled id enabled now) written s

  unfoldable pub rename : String → String → ℕ → Bool → TokenStore → TokenStore × Answer
  rename id name now written s = mutate (renamed id name now) written s

  unfoldable pub delete : String → Bool → TokenStore → TokenStore × Answer
  delete id written s = mutate (retain_others id) written s

-- The calls that change the store, each with what its surroundings give it.
pub data Action : Type 0 where
  creates : String → String → String → ℕ → Bool → Action
  sets_enabled : String → Bool → ℕ → Bool → Action
  renames : String → String → ℕ → Bool → Action
  deletes : String → Bool → Action

module _ (L : Text) where
  unfoldable pub step : TokenStore L → Action → TokenStore L × Answer
  step s (creates id secret name now written) = create L id secret name now written s
  step s (sets_enabled id enabled now written) = set_enabled L id enabled now written s
  step s (renames id name now written) = rename L id name now written s
  step s (deletes id written) = delete L id written s

  unfoldable pub run : TokenStore L → List Action → TokenStore L × List Answer
  run s [] = (s, [])
  run s (a ∷ as') =
      let (s', answer) = step s a in let (end, answers) = run s' as' in (end, answer ∷ answers)

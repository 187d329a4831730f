-- ===== src/Edge/Heartbeat/Sync.antt =====
-- The tokens of a node against those of the console, over any calls and heartbeats.
use rust_uma.Prelude.{
  ◌+◌, ◌≤◌, ◌<◌, ◌≡◌, ◌≢◌, refl, sym, ap, ◌∙◌, subst, true, false, ◌&&◌, ◌⊎◌, inl, inr, Option,
  none, some, List, [], ◌∷◌, map, String, string_eq, ◌=?◌, ◌==◌, if◌then◌else◌, filterb, lookup,
  length, arith, u64_mod, u64_add-eq, Bool-cases, Option-cases,
}
use rust_uma.Console.Tokens.{
  Token, TokensFile, TokenGrant, grants, grant_of, enabled_of, Text, TokenStore, Action,
}
use rust_uma.Console.Tokens
use rust_uma.Console.Tokens.Versions.{step-Advances}
use rust_uma.Edge.Channel.{Mpsc}
use rust_uma.Edge.Auth.{TokenSet, new, replace, check, collect}
use rust_uma.Edge.Auth.Replace.{granted, lookup-collect_new}
use rust_uma.Edge.Heartbeat.{
  directive_tokens, Node, apply_tokens, beat, Event, admin, beats, happen, happen_all,
}

-- Whom a secret belongs to: the last enabled token that has it.
unfoldable pub holder : String → List Token → Option String
holder secret [] = none
holder secret (t ∷ ts) =
    let later = holder secret ts in
    elim later [
      | some id ↦ some id
      | none ↦ if t.enabled && (t.secret =? secret) then some t.id else none
    ]

granted-holder :
    (secret : String) (ts : List Token)
    → granted secret (map grant_of (filterb enabled_of ts)) ≡ holder secret ts
unfolding granted holder
granted-holder secret [] = refl
granted-holder secret (t ∷ ts) = ground (arith, granted-holder secret ts)

-- The node has the tokens of the console, or has never been given any and there never were any.
abbrev pub UpToDate : TokensFile → TokenSet → Type 0
UpToDate file set =
    ((set.received_from_console ≡ false) × (file.version ≡ 0))
    ⊎ ((set.received_from_console ≡ true) × (set.console ≡ collect [] (grants file).1))

abbrev pub Synced : TokensFile → TokenSet → Type 0
Synced file set = (set.version ≤ file.version) × (set.version ≡ file.version → UpToDate file set)

module _ (L : Text) (M : Mpsc) where
  beat-Synced :
      (file : TokensFile) (node : Node M)
      → Synced file node.auth
      → Synced file (beat M file node).auth × ((beat M file node).auth.version ≡ file.version)
  unfolding beat apply_tokens directive_tokens replace grants
  beat-Synced file node synced = elim (Bool-cases (node.auth.version == file.version)) [
    | inl same ↦ rw same (synced, ground arith)
    | inr differs ↦ rw differs ((omega arith, λ e. inr (refl, refl)), refl)
  ]

  admin-Synced :
      (s : TokenStore L) (a : Action) (set : TokenSet)
      → s.inner.version + 1 < u64_mod
      → Synced s.inner set
      → Synced (Tokens.step L s a).0.inner set
  admin-Synced s a set bound synced = elim (step-Advances L s a) [
    | inl same ↦ subst (λ file. Synced file set) (sym same) synced
    | inr bumps ↦
        let more : (Tokens.step L s a).0.inner.version ≡ s.inner.version + 1 =
          bumps ∙ u64_add-eq s.inner.version 1 (omega arith) in
        (omega (arith, synced.0), λ e. ground (arith, synced.0))
  ]

  step-version :
      (s : TokenStore L) (a : Action)
      → s.inner.version + 1 < u64_mod
      → (Tokens.step L s a).0.inner.version ≤ s.inner.version + 1
  step-version s a bound = elim (step-Advances L s a) [
    | inl same ↦ omega (arith, ap (λ (file : TokensFile). file.version) same)
    | inr bumps ↦ omega (arith, bumps, u64_add-eq s.inner.version 1 (omega arith))
  ]

  new-Synced : (file : TokensFile) (statics : List String) → Synced file (new statics)
  unfolding new
  new-Synced file statics = (omega arith, λ e. inl (refl, sym e))

  happen_all-Synced :
      (s : TokenStore L) (node : Node M) (es : List Event)
      → s.inner.version + length es < u64_mod
      → Synced s.inner node.auth
      → Synced (happen_all L M (s, node) es).0.inner (happen_all L M (s, node) es).1.auth
  unfolding happen_all happen
  happen_all-Synced s node [] bound synced = synced
  happen_all-Synced s node (beats ∷ es) bound synced =
      happen_all-Synced s (beat M s.inner node) es (omega arith) (beat-Synced s.inner node synced).0
  happen_all-Synced s node (admin a ∷ es) bound synced =
      happen_all-Synced (Tokens.step L s a).0 node es
        (omega (arith, step-version s a (omega arith)))
        (admin-Synced s a node.auth (omega arith) synced)

  check-UpToDate :
      (file : TokensFile) (set : TokenSet) (secret : String)
      → UpToDate file set
      → file.version ≢ 0
      → (secret =? "") ≡ false
      → check set secret ≡ holder secret file.tokens
  unfolding check grants
  check-UpToDate file set secret (inl (never, zero_version)) some_version named =
      elim (some_version zero_version) [ ]
  check-UpToDate file set secret (inr (received, console)) some_version named =
      let found : lookup secret set.console ≡ holder secret file.tokens =
        ap (lookup secret) console
        ∙ (lookup-collect_new secret _ ∙ granted-holder secret file.tokens) in
      elim (Option-cases (lookup secret set.console)) [
        | inl absent ↦ rw (named, absent, received) (sym absent ∙ found)
        | inr (id, there) ↦ rw (named, there) (sym there ∙ found)
      ]

  -- A node starts with its static list, and any calls of the console and heartbeats follow, fewer
  -- than would make the version wrap. Right after one more heartbeat, if the version is not 0
  -- by then, the node accepts a non-empty secret exactly if an enabled token of the console has it
  -- (the last such token, if there are several), and the static list no longer counts.
  pub heartbeat_syncs :
      (s : TokenStore L) (node : Node M) (es : List Event) (statics : List String) (secret : String)
      → node.auth ≡ new statics
      → s.inner.version + length es < u64_mod
      → (secret =? "") ≡ false
      → let (s', node') = happen_all L M (s, node) es in
        s'.inner.version ≢ 0
        → check (beat M s'.inner node').auth secret ≡ holder secret s'.inner.tokens
  heartbeat_syncs s node es statics secret fresh bound named ever =
      let (s', node') = happen_all L M (s, node) es in
      let start = subst (Synced s.inner) (sym fresh) (new-Synced s.inner statics) in
      let (synced, same) = beat-Synced s'.inner node' (happen_all-Synced s node es bound start) in
      check-UpToDate s'.inner (beat M s'.inner node').auth secret (synced.1 same) ever named

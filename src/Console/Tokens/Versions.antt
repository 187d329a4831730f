-- ===== src/Console/Tokens/Versions.antt =====
-- The version of the tokens, by which an edge node tells whether it has to fetch them.
use rust_uma.Prelude.{
  ◌+◌, ◌≤◌, ◌<◌, ◌≡◌, refl, ap, ◌∙◌, Bool, false, not, ◌⊎◌, inl, inr, List, [], ◌∷◌, arith, String,
  string_eq, ◌=?◌, filterb, length, length-filterb, u64_mod, u64_add, u64_add-eq, Bool-cases,
}
use rust_uma.Console.Tokens.{
  Token, TokensFile, Text, TokenStore, Action, creates, sets_enabled, renames, deletes, step, run,
  update_first, retain_others, mutate, create, set_enabled, rename, delete, with_tokens,
}

update_first-same :
    (id : String) (change : Token → Token) (ts : List Token)
    → (update_first id change ts).1 ≡ false
    → (update_first id change ts).0 ≡ ts
unfolding update_first
update_first-same id change [] h = refl
update_first-same id change (t ∷ ts) h = ground (arith, update_first-same id change ts)

filterb-same {ℓ} :
    {A : Type ℓ} (p : A → Bool) (xs : List A)
    → length (filterb p xs) ≡ length xs
    → filterb p xs ≡ xs
filterb-same p [] h = refl
filterb-same p (x ∷ xs) h = ground (arith, filterb-same p xs, length-filterb p xs)

-- A change that reports nothing has changed nothing.
abbrev pub Honest : (TokensFile → TokensFile × Bool) → Type 0
Honest f = (file : TokensFile) → (f file).1 ≡ false → (f file).0 ≡ file

pub with_tokens-Honest :
    (id : String) (change : Token → Token)
    → Honest (λ file. with_tokens file (update_first id change file.tokens))
with_tokens-Honest id change file h =
    ap (λ ts. record file { tokens = ts }) (update_first-same id change file.tokens h)

pub retain_others-Honest : (id : String) → Honest (retain_others id)
unfolding retain_others
retain_others-Honest id file h =
    ap (λ ts. record file { tokens = ts })
      (filterb-same (λ t. not (t.id =? id)) file.tokens (ground arith))

retain_others-version :
    (id : String) (file : TokensFile) → (retain_others id file).0.version ≡ file.version
unfolding retain_others
retain_others-version id file = refl

module _ (L : Text) where
  -- What an action does to the tokens and their version: nothing, or one version more.
  abbrev pub Advances : TokenStore L → TokenStore L → Type 0
  Advances s s' = (s'.inner ≡ s.inner) ⊎ (s'.inner.version ≡ u64_add s.inner.version 1)

  mutate-Advances :
      (f : TokensFile → TokensFile × Bool) (written : Bool) (s : TokenStore L)
      → Honest f
      → ((file : TokensFile) → (f file).0.version ≡ file.version)
      → Advances s (mutate L f written s).0
  unfolding mutate
  mutate-Advances f written s honest keeps = elim (Bool-cases (f s.inner).1) [
    | inl changed ↦ inr (rw changed (ap (λ v. u64_add v 1) (keeps s.inner)))
    | inr same ↦ inl (rw same (honest s.inner same))
  ]

  pub step-Advances : (s : TokenStore L) (a : Action) → Advances s (step L s a).0
  unfolding step create set_enabled rename delete
  step-Advances s (creates id secret name now written) =
      mutate-Advances _ written s (λ file h. ground arith) (λ file. refl)
  step-Advances s (sets_enabled id enabled now written) =
      mutate-Advances _ written s (with_tokens-Honest id _) (λ file. refl)
  step-Advances s (renames id name now written) =
      mutate-Advances _ written s (with_tokens-Honest id _) (λ file. refl)
  step-Advances s (deletes id written) =
      mutate-Advances _ written s (retain_others-Honest id) (retain_others-version id)

  run-later :
      (s : TokenStore L) (as' : List Action)
      → s.inner.version + length as' < u64_mod
      → ((run L s as').0.inner ≡ s.inner) ⊎ (s.inner.version < (run L s as').0.inner.version)
  unfolding run
  run-later s [] bound = inl refl
  run-later s (a ∷ as') bound =
      let next = (step L s a).0 in
      elim (step-Advances s a) [
        | inl same ↦
            let kept : next.inner.version ≡ s.inner.version = ap (λ file. file.version) same in
            elim (run-later next as' (omega arith)) [
              | inl end ↦ inl (end ∙ same)
              | inr more ↦ inr (omega arith)
            ]
        | inr bumps ↦
            let more : next.inner.version ≡ s.inner.version + 1 =
              bumps ∙ u64_add-eq s.inner.version 1 (omega arith) in
            elim (run-later next as' (omega arith)) [
              | inl end ↦ inr (
                  let same : (run L next as').0.inner.version ≡ next.inner.version =
                    ap (λ file. file.version) end in
                  omega arith)
              | inr later ↦ inr (omega arith)
            ]
      ]

  -- Over any sequence of calls, failed writes included, that is too short for the version to wrap:
  -- the version never falls, and if it is the same at the end, so are the tokens. The console is not
  -- restarted between the calls.
  pub version_tells_changes :
      (s : TokenStore L) (as' : List Action)
      → s.inner.version + length as' < u64_mod
      → (s.inner.version ≤ (run L s as').0.inner.version)
        × ((run L s as').0.inner.version ≡ s.inner.version → (run L s as').0.inner ≡ s.inner)
  version_tells_changes s as' bound = elim (run-later s as' bound) [
    | inl same ↦
        let kept : (run L s as').0.inner.version ≡ s.inner.version =
          ap (λ file. file.version) same in
        (omega arith, λ h. same)
    | inr later ↦ (omega arith, λ h. ground arith)
  ]

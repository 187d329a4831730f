-- ===== src/Console/Tokens/Persistence.antt =====
-- What a restart finds in the file of the tokens.
use rust_uma.Prelude.{
  ◌≡◌, ◌≢◌, refl, sym, subst, Bool, inl, inr, List, [], ◌∷◌, arith, some, none, Option, Bool-cases,
  Option-cases, All,
}
use rust_uma.Console.Tokens.{
  TokensFile, Text, TokenStore, io_error, Action, creates, sets_enabled, renames, deletes, step,
  run, mutate, create, set_enabled, rename, delete, load_json, open_store, save_json, bumped,
}
use rust_uma.Console.Tokens.Versions.{Honest, with_tokens-Honest, retain_others-Honest}

module _ (L : Text) where
  open L use {to_vec, round_trip}

  reopen :
      (file : TokensFile)
      → open_store L (some (to_vec file))
        ≡ some (record { inner = file; disk = some (to_vec file) })
  unfolding open_store load_json
  reopen file = rw (open_store, load_json, round_trip file) refl

  -- The file holds what the store holds.
  abbrev pub Saved : TokenStore L → Type 0
  Saved s = open_store L s.disk ≡ some s

  mutate-Saved :
      (f : TokensFile → TokensFile × Bool) (written : Bool) (s : TokenStore L)
      → Honest f
      → Saved s
      → (mutate L f written s).1 ≢ io_error
      → Saved (mutate L f written s).0
  unfolding mutate save_json
  mutate-Saved f written s honest saved fine = elim (Bool-cases (f s.inner).1) [
    | inl changed ↦ elim (Bool-cases written) [
      | inl done ↦ rw (changed, done) (reopen (bumped L (f s.inner).0))
      | inr lost ↦ elim (fine (rw (changed, lost) refl)) [ ]
    ]
    | inr same ↦ rw (same, honest s.inner same) saved
  ]

  step-Saved :
      (s : TokenStore L) (a : Action) → Saved s → (step L s a).1 ≢ io_error → Saved (step L s a).0
  unfolding step create set_enabled rename delete
  step-Saved s (creates id secret name now written) saved fine =
      mutate-Saved _ written s (λ file h. ground arith) saved fine
  step-Saved s (sets_enabled id enabled now written) saved fine =
      mutate-Saved _ written s (with_tokens-Honest id _) saved fine
  step-Saved s (renames id name now written) saved fine =
      mutate-Saved _ written s (with_tokens-Honest id _) saved fine
  step-Saved s (deletes id written) saved fine =
      mutate-Saved _ written s (retain_others-Honest id) saved fine

  run-Saved :
      (s : TokenStore L) (as' : List Action)
      → Saved s
      → All (λ answer. answer ≢ io_error) (run L s as').1
      → Saved (run L s as').0
  unfolding run
  run-Saved s [] saved fine = saved
  run-Saved s (a ∷ as') saved fine =
      run-Saved (step L s a).0 as' (step-Saved s a saved fine.0) fine.1

  opened-disk :
      (body : Option L.Body) (s : TokenStore L) → open_store L body ≡ some s → s.disk ≡ body
  unfolding open_store load_json
  opened-disk none s opened = ground arith
  opened-disk (some body) s opened = elim (Option-cases (L.from_slice body)) [
    | inl bad ↦ ground (arith, bad)
    | inr (file, good) ↦ ground (arith, good)
  ]

  opened-Saved : (body : Option L.Body) (s : TokenStore L) → open_store L body ≡ some s → Saved s
  opened-Saved body s opened =
      subst (λ disk. open_store L disk ≡ some s) (sym (opened-disk body s opened)) opened

  -- A store that was opened from its file goes through any sequence of calls of which none reports
  -- an error. A restart then finds in the file exactly the tokens and the version of the store.
  pub restart_keeps :
      (body : Option L.Body) (s : TokenStore L) (as' : List Action)
      → open_store L body ≡ some s
      → All (λ answer. answer ≢ io_error) (run L s as').1
      → open_store L (run L s as').0.disk ≡ some (run L s as').0
  restart_keeps body s as' opened fine = run-Saved s as' (opened-Saved body s opened) fine

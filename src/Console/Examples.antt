-- ===== src/Console/Examples.antt =====
-- Tests of the token store, and its theorems at concrete inputs. The file holds the value itself.
use rust_uma.Prelude.{◌≤◌, ◌≡◌, refl, true, false, some, none, List, [], ◌∷◌, arith, string_eq}
use rust_uma.Console.Tokens.{
  Token, TokensFile, Text, TokenStore, Answer, ok, io_error, Action, creates, sets_enabled, renames,
  deletes, step, run, grants, open_store, default_file,
}
use rust_uma.Console.Tokens
use rust_uma.Console.Tokens.Versions.{version_tells_changes}
use rust_uma.Console.Tokens.Persistence.{restart_keeps}

abbrev plain : Text
plain = record {
  Body = TokensFile;
  to_vec = λ file. file;
  from_slice = λ file. some file;
  round_trip = λ file. refl;
  trim = λ name. name;
}

abbrev fresh : TokenStore plain
fresh = record { inner = record { version = 0; tokens = [] }; disk = none }

abbrev two_tokens : List Action
two_tokens = creates "a" "sa" "alpha" 10 true ∷ creates "b" "sb" "beta" 11 true ∷ []

abbrev calls : List Action
calls =
    creates "a" "sa" "alpha" 10 true
    ∷ creates "b" "sb" "beta" 11 true
    ∷ sets_enabled "a" false 12 true
    ∷ sets_enabled "nope" true 13 true
    ∷ deletes "b" true
    ∷ []

the_answers_say_what_changed :
    (run plain fresh calls).1 ≡ ok true ∷ ok true ∷ ok true ∷ ok false ∷ ok true ∷ []
unfolding run step Tokens.create Tokens.set_enabled Tokens.delete Tokens.mutate Tokens.save_json
    Tokens.update_first Tokens.retain_others
the_answers_say_what_changed = refl

a_call_that_changes_nothing_keeps_the_version : (run plain fresh calls).0.inner.version ≡ 4
unfolding run step Tokens.create Tokens.set_enabled Tokens.delete Tokens.mutate Tokens.save_json
    Tokens.update_first Tokens.retain_others
a_call_that_changes_nothing_keeps_the_version = refl

a_failed_write_keeps_the_change_in_memory :
    run plain fresh (creates "a" "sa" "alpha" 10 false ∷ []) ≡ (
      record {
        inner = record {
          version = 1;
          tokens =
              record {
                id = "a";
                secret = "sa";
                name = "alpha";
                enabled = true;
                created_at_ms = 10;
                updated_at_ms = 10;
              }
              ∷ [];
        };
        disk = none;
      },
      io_error ∷ [],
    )
unfolding run step Tokens.create Tokens.mutate Tokens.save_json
a_failed_write_keeps_the_change_in_memory = refl

version_tells_changes_example :
    (0 ≤ (run plain fresh calls).0.inner.version)
    × ((run plain fresh calls).0.inner.version ≡ 0 → (run plain fresh calls).0.inner ≡ fresh.inner)
version_tells_changes_example = version_tells_changes plain fresh calls (omega arith)

restart_keeps_example :
    open_store plain (run plain fresh calls).0.disk ≡ some (run plain fresh calls).0
unfolding run step Tokens.create Tokens.set_enabled Tokens.delete Tokens.mutate Tokens.save_json
    Tokens.update_first Tokens.retain_others open_store default_file Tokens.load_json
restart_keeps_example = restart_keeps plain none fresh calls refl (ground arith)

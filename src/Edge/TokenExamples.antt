-- ===== src/Edge/TokenExamples.antt =====
-- Tests of an edge node's tokens, and their theorems at concrete inputs.
use rust_uma.Prelude.{
  ◌≡◌, ◌≢◌, refl, true, false, some, none, List, [], ◌∷◌, arith, String, string_eq, =?_iff, lookup,
}
use mathlib.Core.Option.{some-injective}
use rust_uma.Console.Tokens.{
  TokensFile, TokenGrant, Text, TokenStore, Action, creates, sets_enabled, grants,
}
use rust_uma.Console.Tokens
use rust_uma.Edge.Hub
use rust_uma.Edge.Sample.{list_channel, zero_stats}
use rust_uma.Edge.Auth.{TokenSet, new, collect, replace, check, is_live, static_token_id}
use rust_uma.Edge.Auth.Replace.{replace_says_changed, check-is_live}
use rust_uma.Edge.Heartbeat.{Node, Event, admin, beats, happen, happen_all, beat}
use rust_uma.Edge.Heartbeat.Sync.{holder, heartbeat_syncs}

abbrev grant : String → String → TokenGrant
grant id secret = record { id = id; secret = secret }

abbrev given : TokenSet
given = record {
  version = 3;
  console = ("sa", "a") ∷ [];
  statics = "s1" ∷ [];
  received_from_console = true;
}

static_tokens_count_until_the_console_answers :
    (check (new ("s1" ∷ [])) "s1" ≡ some "env") × (check given "s1" ≡ none)
unfolding check new
static_tokens_count_until_the_console_answers = (refl, refl)

an_empty_set_is_a_change : (replace given 4 []).1 ≡ true
unfolding replace collect
an_empty_set_is_a_change = refl

replace_says_changed_example :
    let next = (replace given 4 (grant "a" "sa" ∷ [])).0 in
    ((secret : String) → check next secret ≡ check given secret)
    × ((id : String) → is_live next id ≡ is_live given id)
unfolding replace collect
replace_says_changed_example = replace_says_changed given 4 (grant "a" "sa" ∷ []) (refl, tt) refl

another_id : lookup "sa" given.console ≢ some static_token_id
another_id e = ground (arith, (=?_iff {A = String} "a" "env").1 (some-injective "a" "env" e))

check-is_live_example : is_live given "a" ≡ true
unfolding check
check-is_live_example = check-is_live given "sa" "a" another_id refl

abbrev plain : Text
plain = record {
  Body = TokensFile;
  to_vec = λ file. file;
  from_slice = λ file. some file;
  round_trip = λ file. refl;
  trim = λ name. name;
}

abbrev console : TokenStore plain
console = record { inner = record { version = 0; tokens = [] }; disk = none }

abbrev node : Node list_channel
node = record { auth = new ("s1" ∷ []); hub = Hub.new list_channel 4 2 zero_stats }

-- Two tokens with one secret, a heartbeat between them, and the second one disabled.
abbrev events : List Event
events =
    admin (creates "a" "same" "alpha" 10 true)
    ∷ beats
    ∷ admin (creates "b" "same" "beta" 11 false)
    ∷ beats
    ∷ admin (sets_enabled "b" false 12 true)
    ∷ []

heartbeat_syncs_example :
    let (console', node') = happen_all plain list_channel (console, node) events in
    check (beat list_channel console'.inner node').auth "same" ≡ holder "same" console'.inner.tokens
unfolding happen_all happen Tokens.step Tokens.create Tokens.set_enabled Tokens.mutate
    Tokens.save_json Tokens.update_first
heartbeat_syncs_example =
    heartbeat_syncs plain list_channel console node events ("s1" ∷ []) "same" refl (omega arith)
      refl (omega arith)

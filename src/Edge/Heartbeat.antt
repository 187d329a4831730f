-- ===== src/Edge/Heartbeat.antt =====
-- src/edge/heartbeat.rs and the answer to a heartbeat in src/console/server.rs: how the tokens of
-- the console reach an edge node. The exchange over HTTP and JSON is one step.
use rust_uma.Prelude.{ℕ, ◌==◌, Bool, Option, none, some, List, [], ◌∷◌, if◌then◌else◌, String}
use rust_uma.Console.Tokens.{TokensFile, TokenGrant, grants, Text, TokenStore, Action}
use rust_uma.Console.Tokens
use rust_uma.Edge.Channel.{Mpsc}
use rust_uma.Edge.Hub.{Hub, kick_tokens}
use rust_uma.Edge.Auth.{TokenSet, replace, is_live}
pub mod Sync

-- The part of a directive that is about tokens: they are sent if the node has another version.
unfoldable pub directive_tokens : ℕ → TokensFile → ℕ × Option (List TokenGrant)
directive_tokens edge_tokens_version file =
    let (tokens_version, granted) = grants file in
    (tokens_version, if edge_tokens_version == tokens_version then none else some granted)

module _ (M : Mpsc) where
  pub record Node : Type 0 where
    pub auth : TokenSet
    pub hub : Hub M

  -- The part of `apply` that is about tokens.
  unfoldable pub apply_tokens : Node → ℕ × Option (List TokenGrant) → Node
  apply_tokens node (tokens_version, none) = node
  apply_tokens node (tokens_version, some granted) =
      let (auth, changed) = replace node.auth tokens_version granted in
      record {
        auth = auth;
        hub = if changed then (kick_tokens M node.hub (is_live auth)).0 else node.hub;
      }

  -- A heartbeat: the node sends its version and applies the answer.
  unfoldable pub beat : TokensFile → Node → Node
  beat file node = apply_tokens node (directive_tokens node.auth.version file)

-- What happens to a console and one node: calls of the console, and heartbeats.
pub data Event : Type 0 where
  admin : Action → Event
  beats : Event

module _ (L : Text) (M : Mpsc) where
  unfoldable pub happen : TokenStore L × Node M → Event → TokenStore L × Node M
  happen (s, node) (admin a) = ((Tokens.step L s a).0, node)
  happen (s, node) beats = (s, beat M s.inner node)

  unfoldable pub happen_all : TokenStore L × Node M → List Event → TokenStore L × Node M
  happen_all both [] = both
  happen_all both (e ∷ es) = happen_all (happen both e) es

-- ===== src/Console/Registry/Listing.antt =====
-- The list of nodes that the console publishes, of src/console/registry.rs: `public_list` and the
-- address of a node.
use Prim.Native.String.{◌++◌ as text_append}
use text.Mathlib.Text.{starts_with, find?}
use rust_uma.Prelude.{
  ℕ, zero, suc, ◌+◌, ◌-◌, ◌*◌, ◌/◌, ◌%◌, ◌==◌, ◌≡◌, Bool, true, false, not, ◌&&◌, ◌||◌, Option,
  none, some, List, [], ◌∷◌, map, String, string_eq, ◌=?◌, if◌then◌else◌, ltb, leb, min, max,
  get_or, head?, u64_mod, u64_add, sort_by, count, text_gt,
}
use rust_uma.Console.Registry.{Heartbeat, Node, Registry, serving_nodes, values}
pub mod Order

pub record PublicNode : Type 0 where
  pub node_id : String
  pub url : String
  pub weight : ℕ
  pub clients : ℕ

pub record NodeList : Type 0 where
  pub nodes : List PublicNode
  pub subprotocol : String
  pub path : String
  pub ttl_s : ℕ
  pub generated_at_ms : ℕ

abbrev digit : ℕ → String
digit d = get_or ("0" ∷ "1" ∷ "2" ∷ "3" ∷ "4" ∷ "5" ∷ "6" ∷ "7" ∷ "8" ∷ "9" ∷ []) d ""

-- A number in decimal, of at most so many digits: five for a port.
unfoldable pub decimal : ℕ → ℕ → String
decimal zero n = ""
decimal (suc k) n =
    let front = decimal k (n / 10) in
    if ltb n 10 then digit n else text_append front (digit (n % 10))

abbrev pub or_default : String → String → String
or_default value default = if value =? "" then default else value

abbrev found : Option ℕ → Bool
found none = false
found (some i) = true

unfoldable pub node_url : Node → String
unfolding decimal
node_url node =
    let hb = node.heartbeat in
    let scheme = if hb.tls then "wss" else "ws" in
    let host = if hb.advertise_host =? "" then node.remote_ip else hb.advertise_host in
    let port = if hb.port == 0 then 8012 else hb.port in
    let bracketed =
      if found (find? host ":") && not (starts_with host "[")
      then text_append "[" (text_append host "]")
      else host in
    text_append scheme (
      text_append "://" (
        text_append bracketed
          (text_append ":" (text_append (decimal 5 port) (or_default hb.path "/uma/v1/ws")))))

unfoldable pub public_node : Node → PublicNode
public_node n = record {
  node_id = n.heartbeat.node_id;
  url = node_url n;
  weight = max (n.heartbeat.max_clients - n.heartbeat.clients) 1;
  clients = n.heartbeat.clients;
}

unfoldable pub least_clients : List PublicNode → ℕ
least_clients [] = 0
least_clients (n ∷ []) = n.clients
least_clients (n ∷ m ∷ ns) = min n.clients (least_clients (m ∷ ns))

-- `emptiest + emptiest * balance_spread_pct / 100`, in 64 bits.
unfoldable pub ceiling : ℕ → ℕ → ℕ
ceiling least pct = u64_add least ((least * pct) % u64_mod / 100)

-- Whether the comparison of the sort is `Greater`: nodes up to the ceiling come first and are equal.
unfoldable pub listed_after : ℕ → PublicNode → PublicNode → Bool
listed_after limit a b =
    if leb a.clients limit
    then false
    else if leb b.clients limit
    then true
    else if a.clients == b.clients
    then (if a.weight == b.weight then text_gt a.node_id b.node_id else ltb a.weight b.weight)
    else ltb b.clients a.clients

abbrev pub first_or : (Node → String) → String → Option Node → String
first_or field default none = default
first_or field default (some n) = or_default (field n) default

-- The random shuffle of the `rand` library: some order of the same items.
pub record Shuffle : Type 0 where
  pub shuffle : List PublicNode → List PublicNode
  pub keeps : (p : PublicNode → Bool) (xs : List PublicNode) → count p (shuffle xs) ≡ count p xs

module _ (S : Shuffle) where
  unfoldable pub listed : List PublicNode → ℕ → List PublicNode
  listed nodes pct = sort_by (listed_after (ceiling (least_clients nodes) pct)) (S.shuffle nodes)

  unfoldable pub public_list : Registry → ℕ → ℕ → NodeList
  public_list r ttl_s now =
      let some_node = head? (values r.inner.nodes) in
      record {
        nodes = listed (map public_node (serving_nodes r now)) r.inner.settings.balance_spread_pct;
        subprotocol = first_or (λ n. n.heartbeat.subprotocol) "uma.pb.v1" some_node;
        path = first_or (λ n. n.heartbeat.path) "/uma/v1/ws" some_node;
        ttl_s = ttl_s;
        generated_at_ms = now;
      }

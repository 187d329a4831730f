-- ===== src/Console/Registry.antt =====
-- src/console/registry.rs: the edge nodes that the console knows, what their state is, and which of
-- them could release clients. The mutex makes each call one step; `now` is the clock's reading.
use rust_uma.Prelude.{
  ℕ, ◌+◌, ◌-◌, ◌*◌, ◌/◌, ◌==◌, Bool, true, false, not, ◌&&◌, ◌||◌, Option, none, some, List, [],
  ◌∷◌, map, String, string_eq, ◌=?◌, if◌then◌else◌, ltb, leb, max, min, filterb, length, lookup,
  insert, u64_add, ℤ, pos, negsuc, min_int, to_i64, text_gt,
}
pub mod Calls
pub mod Listing

pub record Heartbeat : Type 0 where
  pub node_id : String
  pub version : String
  pub commit : String
  pub started_at_ms : ℕ
  pub sent_at_ms : ℕ
  pub advertise_host : String
  pub port : ℕ
  pub tls : Bool
  pub path : String
  pub subprotocol : String
  pub ready : Bool
  pub draining : Bool
  pub upstream_url : String
  pub upstream_connected : Bool
  pub upstream_reconnects_total : ℕ
  pub last_frame_at_ms : ℕ
  pub frames_total : ℕ
  pub bytes_total : ℕ
  pub bad_frames_total : ℕ
  pub last_event_sequence : ℕ
  pub ring_frames : ℕ
  pub ring_capacity : ℕ
  pub upstream_lag_last_us : ℕ
  pub upstream_lag_max_us : ℕ
  pub clients : ℕ
  pub max_clients : ℕ
  pub clients_accepted_total : ℕ
  pub clients_rejected_total : ℕ
  pub rejected_token_total : ℕ
  pub rejected_draining_total : ℕ
  pub rejected_full_total : ℕ
  pub rejected_subprotocol_total : ℕ
  pub rejected_replay_total : ℕ
  pub slow_clients_disconnected_total : ℕ
  pub deliveries_total : ℕ
  pub fanout_last_us : ℕ
  pub fanout_max_us : ℕ
  pub tokens_version : ℕ
  pub clients_by_token : List (String × ℕ)

abbrev pub default_heartbeat : Heartbeat
default_heartbeat = record {
  node_id = "";
  version = "";
  commit = "";
  started_at_ms = 0;
  sent_at_ms = 0;
  advertise_host = "";
  port = 0;
  tls = false;
  path = "";
  subprotocol = "";
  ready = false;
  draining = false;
  upstream_url = "";
  upstream_connected = false;
  upstream_reconnects_total = 0;
  last_frame_at_ms = 0;
  frames_total = 0;
  bytes_total = 0;
  bad_frames_total = 0;
  last_event_sequence = 0;
  ring_frames = 0;
  ring_capacity = 0;
  upstream_lag_last_us = 0;
  upstream_lag_max_us = 0;
  clients = 0;
  max_clients = 0;
  clients_accepted_total = 0;
  clients_rejected_total = 0;
  rejected_token_total = 0;
  rejected_draining_total = 0;
  rejected_full_total = 0;
  rejected_subprotocol_total = 0;
  rejected_replay_total = 0;
  slow_clients_disconnected_total = 0;
  deliveries_total = 0;
  fanout_last_us = 0;
  fanout_max_us = 0;
  tokens_version = 0;
  clients_by_token = [];
}

pub data Status : Type 0 where
  stale relay disabled draining not_ready full serving : Status

pub record NodeAdmin : Type 0 where
  pub disabled : Bool
  pub note : String
  pub relay : Bool

pub record Settings : Type 0 where
  pub auto_balance : Bool
  pub release_batch : ℕ
  pub balance_spread_pct : ℕ
  pub balance_min_excess : ℕ

unfoldable pub default_settings : Settings
default_settings = record {
  auto_balance = true;
  release_batch = 20;
  balance_spread_pct = 5;
  balance_min_excess = 5;
}

pub record Node : Type 0 where
  pub heartbeat : Heartbeat
  pub remote_ip : String
  pub first_seen_ms : ℕ
  pub last_seen_ms : ℕ
  pub desired_drain : Bool
  pub pending_release : ℕ
  pub released_total : ℕ
  pub last_release_ms : ℕ

pub record NodesFile : Type 0 where
  pub nodes : List (String × NodeAdmin)
  pub settings : Settings

pub record Inner : Type 0 where
  pub nodes : List (String × Node)
  pub admin : List (String × NodeAdmin)
  pub settings : Settings

-- `stale_after` in milliseconds.
pub record Registry : Type 0 where
  pub stale_after : ℕ
  pub inner : Inner

abbrev pub empty_admin : NodeAdmin
empty_admin = record { disabled = false; note = ""; relay = false }

abbrev pub or_empty : Option NodeAdmin → NodeAdmin
or_empty none = empty_admin
or_empty (some a) = a

unfoldable pub admin_of : Inner → String → NodeAdmin
admin_of inner id = or_empty (lookup id inner.admin)

-- `saturating_sub` is the subtraction of natural numbers.
unfoldable pub status_of : ℕ → Node → NodeAdmin → ℕ → Status
status_of stale_after node admin now =
    if ltb stale_after (now - node.last_seen_ms)
    then stale
    else if admin.relay
    then relay
    else if admin.disabled
    then disabled
    else if node.desired_drain || node.heartbeat.draining
    then draining
    else if not node.heartbeat.ready
    then not_ready
    else if leb node.heartbeat.max_clients node.heartbeat.clients
    then full
    else serving

abbrev pub is_serving : Status → Bool
is_serving serving = true
is_serving _ = false

abbrev pub is_sheddable : Status → Bool
is_sheddable serving = true
is_sheddable full = true
is_sheddable _ = false

abbrev pub values : List (String × Node) → List Node
values nodes = map (λ p. p.1) nodes

unfoldable pub node_status : Registry → ℕ → Node → Status
node_status r now n = status_of r.stale_after n (admin_of r.inner n.heartbeat.node_id) now

unfoldable pub serving_nodes : Registry → ℕ → List Node
serving_nodes r now = filterb (λ n. is_serving (node_status r now n)) (values r.inner.nodes)

unfoldable pub sheddable : Registry → ℕ → List Node
sheddable r now = filterb (λ n. is_sheddable (node_status r now n)) (values r.inner.nodes)

-- Whether the first is `Greater` in the order of `max_by`: more clients, or as many and a lower id.
unfoldable pub busier : Node → Node → Bool
busier a b =
    ltb b.heartbeat.clients a.heartbeat.clients
    || ((a.heartbeat.clients == b.heartbeat.clients)
        && text_gt b.heartbeat.node_id a.heartbeat.node_id)

unfoldable pub max_by_busy : Node → List Node → Node
max_by_busy best [] = best
max_by_busy best (n ∷ ns) = max_by_busy (if busier best n then best else n) ns

abbrev pub busiest_of : List Node → Option Node
busiest_of [] = none
busiest_of (n ∷ ns) = some (max_by_busy n ns)

unfoldable pub busiest_sheddable : Registry → ℕ → Option Node
busiest_sheddable r now = busiest_of (sheddable r now)

abbrev pub spare : Node → ℕ
spare n = n.heartbeat.max_clients - n.heartbeat.clients

unfoldable pub others_spare : String → List Node → ℕ
others_spare id [] = 0
others_spare id (n ∷ ns) =
    let rest = others_spare id ns in
    if n.heartbeat.node_id =? id then rest else u64_add (spare n) rest

-- The least number of clients, 0 if there is no node.
unfoldable pub emptiest : List Node → ℕ
emptiest [] = 0
emptiest (n ∷ []) = n.heartbeat.clients
emptiest (n ∷ m ∷ ns) = min n.heartbeat.clients (emptiest (m ∷ ns))

unfoldable pub find_node : String → List Node → Option Node
find_node id [] = none
find_node id (n ∷ ns) =
    let rest = find_node id ns in if n.heartbeat.node_id =? id then some n else rest

-- `over clients emptiest pct` is the floor of `clients - emptiest * (1 + pct / 100)`, which the
-- source computes with `f64`.
module _ (over : ℕ → ℕ → ℕ → ℤ) where
  -- Half of a u64 is no i64 below 0; a sum of places from 2 ^ 63 on is one.
  unfoldable pub excess_of : ℕ → ℕ → ℕ → ℕ → ℤ
  excess_of clients least pct others =
      min_int (min_int (over clients least pct) (pos ((clients - least) / 2))) (to_i64 others)

  unfoldable pub balance_excess : Registry → String → ℕ → ℤ
  balance_excess r id now = elim (find_node id (sheddable r now)) [
    | none ↦ pos 0
    | some me ↦
        let targets = serving_nodes r now in
        if others_spare id targets == 0
        then pos 0
        else excess_of me.heartbeat.clients (emptiest targets) r.inner.settings.balance_spread_pct
            (others_spare id targets)
  ]

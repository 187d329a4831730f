-- ===== src/Console/Registry/Calls.antt =====
-- The calls of src/console/registry.rs: a heartbeat and what it makes the node release, the settings
-- and the bits that an administrator sets. `written` is whether the write of the file succeeds.
use rust_uma.Prelude.{
  ℕ, ◌+◌, ◌-◌, ◌*◌, ◌/◌, ◌==◌, Bool, true, false, not, ◌&&◌, ◌||◌, Option, none, some, List, [],
  ◌∷◌, map, String, string_eq, ◌=?◌, if◌then◌else◌, ltb, leb, max, min, filterb, length, lookup,
  insert, remove, u64_add, ℤ, leb_int, to_i64, to_u64,
}
use rust_uma.Console.Tokens.{Answer, ok, io_error}
use rust_uma.Console.Registry.{
  Heartbeat, default_heartbeat, NodeAdmin, empty_admin, or_empty, admin_of, Settings,
  default_settings, Node, NodesFile, Inner, Registry, busiest_sheddable, balance_excess,
}
pub mod Release
pub mod Balance

-- Why a node is to release clients; the source's empty text is `nothing`.
pub data Reason : Type 0 where
  nothing manual balanced : Reason

pub record HeartbeatOutcome : Type 0 where
  pub first_seen : Bool
  pub restarted : Bool
  pub desired_drain : Bool
  pub release : ℕ
  pub release_reason : Reason

abbrev pub default_file : NodesFile
default_file = record { nodes = []; settings = default_settings }

abbrev pub or_default_file : Option NodesFile → NodesFile
or_default_file none = default_file
or_default_file (some file) = file

-- `open`, on what `load_json` has read.
unfoldable pub open_registry : Option NodesFile → ℕ → Registry
open_registry read stale_after = record {
  stale_after = stale_after;
  inner = record {
    nodes = [];
    admin = (or_default_file read).nodes;
    settings = (or_default_file read).settings;
  };
}

abbrev pub with_nodes : Registry → List (String × Node) → Registry
with_nodes r nodes = record r { inner = record r.inner { nodes = nodes } }

abbrev pub put : Registry → String → Node → Registry
put r id n = with_nodes r (insert id n r.inner.nodes)

abbrev pub new_node : String → ℕ → Node
new_node remote_ip now = record {
  heartbeat = default_heartbeat;
  remote_ip = remote_ip;
  first_seen_ms = now;
  last_seen_ms = now;
  desired_drain = false;
  pending_release = 0;
  released_total = 0;
  last_release_ms = 0;
}

-- Whether the process behind a known node is another one than before.
abbrev pub is_restarted : Node → Heartbeat → Bool
is_restarted node hb =
    not (node.heartbeat.started_at_ms == 0)
    && not (node.heartbeat.started_at_ms == hb.started_at_ms)

-- The node after the heartbeat is noted, whether it is new, and whether it was restarted.
abbrev pub noted : Option Node → Heartbeat → String → ℕ → Node × Bool × Bool
noted none hb remote_ip now = (record (new_node remote_ip now) { heartbeat = hb }, true, false)
noted (some node) hb remote_ip now = (
  record node {
    heartbeat = hb;
    remote_ip = remote_ip;
    last_seen_ms = now;
    desired_drain = if is_restarted node hb then false else node.desired_drain;
  },
  false,
  is_restarted node hb,
)

abbrev pub released : Node → ℕ → ℕ → Node
released node n now = record node {
  released_total = u64_add node.released_total n;
  last_release_ms = now;
}

abbrev pub is_busiest : Option Node → String → Bool
is_busiest none id = false
is_busiest (some n) id = n.heartbeat.node_id =? id

abbrev pub batch_of : Registry → ℕ
batch_of r = max r.inner.settings.release_batch 1

module _ (over : ℕ → ℕ → ℕ → ℤ) where
  abbrev pub balance_release : Registry → String → ℕ → ℕ
  balance_release r id now = min (to_u64 (balance_excess over r id now)) (batch_of r)

  -- Whether the balance makes the node release.
  unfoldable pub balances : Registry → String → Node → ℕ → Bool
  balances r id node now =
      r.inner.settings.auto_balance
      && (not node.desired_drain
          && (is_busiest (busiest_sheddable r now) id
              && leb_int (to_i64 r.inner.settings.balance_min_excess)
                  (balance_excess over r id now)))

  unfoldable pub decide_release : Registry → String → ℕ → Registry × ℕ × Reason
  decide_release r id now = elim (lookup id r.inner.nodes) [
    | none ↦ (r, 0, nothing)
    | some node ↦
        let by_hand = min node.pending_release (batch_of r) in
        let by_balance = balance_release r id now in
        if ltb 0 node.pending_release
        then (
          put r id (
              released (record node { pending_release = node.pending_release - by_hand }) by_hand
                now),
          by_hand,
          manual,
        )
        else if balances r id node now
        then (put r id (released node by_balance now), by_balance, balanced)
        else (r, 0, nothing)
  ]

  unfoldable pub heartbeat : Registry → Heartbeat → String → ℕ → Registry × HeartbeatOutcome
  heartbeat r hb remote_ip now =
      let id = hb.node_id in
      let (node, first_seen, restarted) = noted (lookup id r.inner.nodes) hb remote_ip now in
      let known = put r id node in
      let (decided, release, reason) = decide_release known id now in
      if (admin_of r.inner id).relay
      then (
        put r id (record node { desired_drain = false; pending_release = 0 }),
        record {
          first_seen = first_seen;
          restarted = restarted;
          desired_drain = false;
          release = 0;
          release_reason = nothing;
        },
      )
      else (
        decided,
        record {
          first_seen = first_seen;
          restarted = restarted;
          desired_drain = node.desired_drain;
          release = release;
          release_reason = reason;
        },
      )

-- A change of a known node; `false` if there is none.
abbrev pub on_node : Registry → String → (Node → Node) → Registry × Bool
on_node r id change = elim (lookup id r.inner.nodes) [
  | none ↦ (r, false)
  | some node ↦ (put r id (change node), true)
]

unfoldable pub request_release : Registry → String → ℕ → Registry × Bool
request_release r id count = on_node r id (λ n. record n { pending_release = count })

unfoldable pub set_drain : Registry → String → Bool → Registry × Bool
set_drain r id drain = on_node r id (λ n. record n { desired_drain = drain })

abbrev pub is_some {ℓ} : {A : Type ℓ} → Option A → Bool
is_some none = false
is_some (some a) = true

abbrev pub answer : Bool → Answer
answer written = if written then ok true else io_error

unfoldable pub set_auto_balance : Registry → Bool → Bool → Registry × Answer
set_auto_balance r enabled written = (
  record r {
    inner = record r.inner { settings = record r.inner.settings { auto_balance = enabled } };
  },
  answer written,
)

unfoldable pub mutate_admin : Registry → String → (NodeAdmin → NodeAdmin) → Bool → Registry × Answer
mutate_admin r id f written =
    if not (is_some (lookup id r.inner.nodes)) && not (is_some (lookup id r.inner.admin))
    then (r, ok false)
    else (
      record r {
        inner = record r.inner { admin = insert id (f (admin_of r.inner id)) r.inner.admin };
      },
      answer written,
    )

unfoldable pub set_disabled : Registry → String → Bool → Bool → Registry × Answer
set_disabled r id disabled written =
    mutate_admin r id (λ a. record a { disabled = disabled }) written

unfoldable pub set_relay : Registry → String → Bool → Bool → Registry × Answer
set_relay r id relay written =
    mutate_admin r id
      (λ a. record a { relay = relay; disabled = if relay then a.disabled else true }) written

unfoldable pub set_note : Registry → String → String → Bool → Registry × Answer
set_note r id trimmed written = mutate_admin r id (λ a. record a { note = trimmed }) written

unfoldable pub forget : Registry → String → Bool → Registry × Answer
forget r id written =
    if is_some (lookup id r.inner.nodes) || is_some (lookup id r.inner.admin)
    then (
      record r {
        inner = record r.inner { nodes = remove id r.inner.nodes; admin = remove id r.inner.admin };
      },
      answer written,
    )
    else (r, ok false)

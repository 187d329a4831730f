-- ===== src/Console/RegistryExamples.antt =====
-- Tests of the registry, and its theorems at concrete inputs: two edge nodes, one of them busy.
use rust_uma.Prelude.{
  ℕ, ◌+◌, ◌-◌, ◌*◌, ◌/◌, ◌≤◌, ◌≡◌, refl, ap, true, false, some, List, [], ◌∷◌, map, arith, String,
  string_eq, lookup, ℤ, pos, negsuc, leb, if◌then◌else◌, ◌<◌, ◌^◌, ◌&&◌, head?, count, All,
}
use rust_uma.Console.Registry.Calls
use rust_uma.Console.Registry.{
  Heartbeat, default_heartbeat, Node, Registry, values, status_of, node_status, admin_of,
  serving_nodes, sheddable, busier, max_by_busy, busiest_sheddable, others_spare, emptiest,
  find_node, excess_of, balance_excess,
}
use rust_uma.Console.Registry.Calls.{
  Reason, nothing, manual, balanced, heartbeat, decide_release, open_registry, balances,
  request_release, batch_of, set_relay, mutate_admin,
}
use rust_uma.Console.Registry.Calls.Release.{
  Beat, pending, run_beats, released_in, release_paced, release_completes,
}
use rust_uma.Console.Registry.Calls.Balance.{Bounded, balance_is_safe}
use rust_uma.Console.Registry.Listing.{
  PublicNode, Shuffle, public_node, node_url, least_clients, public_list,
}
use rust_uma.Console.Registry.Listing.Order.{
  takes_clients, public_list-takes_clients, public_list_first,
}

-- Exact arithmetic on whole numbers: the floor of `clients - emptiest * (100 + pct) / 100`.
abbrev over : ℕ → ℕ → ℕ → ℤ
over clients least pct =
    let line = least * (100 + pct) in
    if leb line (clients * 100) then pos ((clients * 100 - line) / 100) else negsuc 0

abbrev beat_of : String → ℕ → Heartbeat
beat_of id clients = record default_heartbeat {
  node_id = id;
  started_at_ms = 1;
  advertise_host = "edge";
  ready = true;
  clients = clients;
  max_clients = 100;
}

abbrev node_of : String → ℕ → Node
node_of id clients = record {
  heartbeat = beat_of id clients;
  remote_ip = "10.0.0.1";
  first_seen_ms = 1000;
  last_seen_ms = 1000;
  desired_drain = false;
  pending_release = 0;
  released_total = 0;
  last_release_ms = 0;
}

-- The settings are the default ones: batches of 20, a spread of 5 %.
abbrev two : Registry
two = record {
  stale_after = 15000;
  inner = record {
    nodes = ("a", node_of "a" 10) ∷ ("b", node_of "b" 70) ∷ [];
    admin = [];
    settings = record {
      auto_balance = true;
      release_batch = 20;
      balance_spread_pct = 5;
      balance_min_excess = 5;
    };
  };
}

-- Twice a heartbeat of the busy node, and one of the other between them.
abbrev beats : List Beat
beats =
    record { hb = beat_of "b" 70; remote_ip = "10.0.0.1"; now = 1001 }
    ∷ record { hb = beat_of "a" 10; remote_ip = "10.0.0.1"; now = 1002 }
    ∷ record { hb = beat_of "b" 50; remote_ip = "10.0.0.1"; now = 1003 }
    ∷ []

plain : (admin_of two.inner "b").relay ≡ false
unfolding admin_of
plain = refl

release_paced_example :
    let (r', total) = run_beats over "b" (request_release two "b" 30).0 beats in
    (pending r' "b" ≡ 30 - 2 * 20) × (total + pending r' "b" ≡ 30)
release_paced_example = release_paced over two "b" (node_of "b" 70) 30 beats refl plain

release_completes_example :
    let asked = (request_release two "b" 30).0 in
    let all = released_in over "b" asked beats in
    let left = pending (run_beats over "b" asked beats).0 "b" in
    (all ≡ 30) × (left ≡ 0) × ((left ≡ 0) → all ≡ 30)
release_completes_example =
    release_completes over two "b" (node_of "b" 70) 30 beats refl plain (omega arith)

the_busy_node_sheds : (decide_release over two "b" 1001).2 ≡ balanced
unfolding decide_release balances busiest_sheddable sheddable node_status status_of admin_of
    max_by_busy busier balance_excess find_node serving_nodes others_spare emptiest excess_of
the_busy_node_sheds = refl

-- A batch of the busy node, and nothing of the empty one.
a_batch_is_shed :
    ((decide_release over two "b" 1001).1 ≡ 20) × ((decide_release over two "a" 1001).2 ≡ nothing)
unfolding decide_release balances busiest_sheddable sheddable node_status status_of admin_of
    max_by_busy busier balance_excess find_node serving_nodes others_spare emptiest excess_of
a_batch_is_shed = (refl, refl)

a_room : others_spare "b" (serving_nodes two 1001) < 2 ^ 63
unfolding others_spare serving_nodes node_status status_of admin_of
a_room = omega arith

balance_is_safe_example :
    (two.inner.settings.auto_balance ≡ true)
    × ((node : Node) × (lookup "b" two.inner.nodes ≡ some node) × (node.desired_drain ≡ false))
    × ((b : Node) × (busiest_sheddable two 1001 ≡ some b)
        × (b.heartbeat.node_id ≡ "b")
        × All (λ m. m.heartbeat.clients ≤ b.heartbeat.clients) (sheddable two 1001))
    × Bounded over two "b" 1001 (decide_release over two "b" 1001).1
balance_is_safe_example = balance_is_safe over two "b" 1001 (omega arith) a_room the_busy_node_sheds

-- A restarted process is no longer drained, and a relay is never told to drain or to release.
a_restart_ends_a_drain :
    let drained = (Calls.set_drain two "b" true).0 in
    let (r', o) =
      heartbeat over drained (record (beat_of "b" 0) { started_at_ms = 2 }) "10.0.0.1" 1001 in
    (o.restarted ≡ true) × (o.desired_drain ≡ false)
unfolding Calls.set_drain heartbeat admin_of
a_restart_ends_a_drain = (refl, refl)

an_address_is_built : node_url (node_of "b" 70) ≡ "ws://edge:8012/uma/v1/ws"
unfolding node_url
an_address_is_built = refl

abbrev unshuffled : Shuffle
unshuffled = record { shuffle = λ xs. xs; keeps = λ p xs. refl }

public_list-takes_clients_example :
    count (λ n. leb n.clients 10) (public_list unshuffled two 15 1001).nodes
    ≡ count (λ n. takes_clients two 1001 n && leb n.heartbeat.clients 10) (values two.inner.nodes)
unfolding public_node
public_list-takes_clients_example =
    public_list-takes_clients unshuffled two 15 1001 (λ n. leb n.clients 10)

both_serve :
    map public_node (serving_nodes two 1001)
    ≡ public_node (node_of "a" 10) ∷ public_node (node_of "b" 70) ∷ []
unfolding serving_nodes node_status status_of admin_of
both_serve = refl

the_emptiest : least_clients (map public_node (serving_nodes two 1001)) ≡ 10
unfolding least_clients public_node
the_emptiest = ap least_clients both_serve

public_list_first_example :
    let least = least_clients (map public_node (serving_nodes two 1001)) in
    (first : PublicNode) × (head? (public_list unshuffled two 15 1001).nodes ≡ some first)
    × (first.clients ≤ least + least * 5 / 100)
public_list_first_example =
    public_list_first unshuffled two 15 1001 (public_node (node_of "a" 10))
      (public_node (node_of "b" 70) ∷ []) both_serve (rw the_emptiest (omega arith))
      (rw the_emptiest (omega arith))

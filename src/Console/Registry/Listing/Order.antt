-- ===== src/Console/Registry/Listing/Order.antt =====
-- Which nodes the public list holds, and which comes first.
use rust_uma.Prelude.{
  ℕ, suc, ◌+◌, ◌-◌, ◌*◌, ltb, not, ◌&&◌, ◌||◌, ap, inl, inr, Bool-cases, filterb, ◌/◌, ◌%◌, ◌≤◌,
  ◌<◌, ◌≡◌, refl, sym, ◌∙◌, subst, Bool, some, List, [], ◌∷◌, map, leb, head?, u64_mod, u64_add,
  sort_by, insert_sorted, count, sort_by-count, arith,
}
use rust_uma.Console.Registry.{
  Node, Registry, serving_nodes, values, admin_of, node_status, status_of, is_serving,
}
use rust_uma.Console.Registry.Listing.{
  PublicNode, Shuffle, public_node, least_clients, ceiling, listed_after, listed, public_list,
}

-- The nodes up to the limit.
abbrev near : ℕ → PublicNode → Bool
near limit n = leb n.clients limit

-- There is a first node, and it is up to the limit.
abbrev pub StartsNear : ℕ → List PublicNode → Type 0
StartsNear limit [] = ⊥
StartsNear limit (n ∷ ns) = n.clients ≤ limit

insert_sorted-StartsNear :
    (limit : ℕ) (x : PublicNode) (xs : List PublicNode)
    → (0 < count (near limit) xs → StartsNear limit xs)
    → 0 < count (near limit) (x ∷ xs)
    → StartsNear limit (insert_sorted (listed_after limit) x xs)
unfolding insert_sorted listed_after
insert_sorted-StartsNear limit x [] h some_near = ground arith
insert_sorted-StartsNear limit x (y ∷ ys) h some_near = ground arith

sort_by-StartsNear :
    (limit : ℕ) (xs : List PublicNode)
    → 0 < count (near limit) xs
    → StartsNear limit (sort_by (listed_after limit) xs)
unfolding sort_by
sort_by-StartsNear limit [] h = omega arith
sort_by-StartsNear limit (x ∷ xs) h =
    insert_sorted-StartsNear limit x (sort_by (listed_after limit) xs)
      (λ k.
        sort_by-StartsNear limit xs
          (omega (arith, k, sort_by-count (listed_after limit) (near limit) xs)))
      (ground (arith, h, sort_by-count (listed_after limit) (near limit) xs))

count-least_clients :
    (limit : ℕ) (n : PublicNode) (ns : List PublicNode)
    → least_clients (n ∷ ns) ≤ limit
    → 0 < count (near limit) (n ∷ ns)
unfolding least_clients
count-least_clients limit n [] h = ground arith
count-least_clients limit n (m ∷ ns) h = ground (arith, count-least_clients limit m ns)

no_wrap :
    (least product : ℕ)
    → product < u64_mod
    → least + product / 100 < u64_mod
    → u64_add least (product % u64_mod / 100) ≡ least + product / 100
no_wrap least product h k = omega arith

ceiling-eq :
    (least pct : ℕ)
    → least * pct < u64_mod
    → least + least * pct / 100 < u64_mod
    → ceiling least pct ≡ least + least * pct / 100
unfolding ceiling
ceiling-eq least pct h k = no_wrap least (least * pct) h k

first_near :
    (limit : ℕ) (xs : List PublicNode)
    → StartsNear limit xs
    → (n : PublicNode) × (head? xs ≡ some n) × (n.clients ≤ limit)
first_near limit [] h = absurd h
first_near limit (n ∷ ns) h = (n, refl, h)

-- A node that can take a client, by the fields of the node and of its entry of the administration.
unfoldable pub takes_clients : Registry → ℕ → Node → Bool
takes_clients r now n =
    let admin = admin_of r.inner n.heartbeat.node_id in
    leb (now - n.last_seen_ms) r.stale_after
    && not (admin.relay || admin.disabled)
    && not (n.desired_drain || n.heartbeat.draining)
    && n.heartbeat.ready
    && ltb n.heartbeat.clients n.heartbeat.max_clients

is_serving-takes_clients :
    (r : Registry) (now : ℕ) (n : Node) → is_serving (node_status r now n) ≡ takes_clients r now n
unfolding node_status status_of takes_clients
is_serving-takes_clients r now n = ground arith

serving-count :
    (r : Registry) (now : ℕ) (p : PublicNode → Bool) (ns : List Node)
    → count p (map public_node (filterb (λ n. is_serving (node_status r now n)) ns))
      ≡ count (λ n. takes_clients r now n && p (public_node n)) ns
serving-count r now p [] = refl
serving-count r now p (n ∷ ns) =
    let rest = serving-count r now p ns in
    let same = is_serving-takes_clients r now n in
    elim (Bool-cases (takes_clients r now n)) [
      | inl takes ↦
          rw (same, takes)
            (elim (Bool-cases (p (public_node n))) [
              | inl passes ↦ rw passes (ap suc rest)
              | inr fails ↦ rw fails rest
            ])
      | inr refuses ↦ rw (same, refuses) rest
    ]

module _ (S : Shuffle) where
  listed-first :
      (n : PublicNode) (ns : List PublicNode) (pct : ℕ)
      → least_clients (n ∷ ns) ≤ ceiling (least_clients (n ∷ ns)) pct
      → StartsNear (ceiling (least_clients (n ∷ ns)) pct) (listed S (n ∷ ns) pct)
  unfolding listed
  listed-first n ns pct le =
      let limit = ceiling (least_clients (n ∷ ns)) pct in
      sort_by-StartsNear limit (S.shuffle (n ∷ ns))
        (omega (arith, S.keeps (near limit) (n ∷ ns), count-least_clients limit n ns le))

  listed-count :
      (p : PublicNode → Bool) (nodes : List PublicNode) (pct : ℕ)
      → count p (listed S nodes pct) ≡ count p nodes
  unfolding listed
  listed-count p nodes pct =
      sort_by-count (listed_after (ceiling (least_clients nodes) pct)) p (S.shuffle nodes)
      ∙ S.keeps p nodes

  nodes_first :
      (nodes : List PublicNode) (pct : ℕ) (m : PublicNode) (ms : List PublicNode)
      → nodes ≡ m ∷ ms
      → least_clients nodes * pct < u64_mod
      → least_clients nodes + least_clients nodes * pct / 100 < u64_mod
      → (first : PublicNode) × (head? (listed S nodes pct) ≡ some first)
        × (first.clients ≤ least_clients nodes + least_clients nodes * pct / 100)
  nodes_first nodes pct m ms e h k =
      let same = ceiling-eq (least_clients nodes) pct h k in
      let near_first : StartsNear (ceiling (least_clients nodes) pct) (listed S nodes pct) =
        subst
          (λ xs.
            least_clients xs ≤ ceiling (least_clients xs) pct
            → StartsNear (ceiling (least_clients xs) pct) (listed S xs pct))
          (sym e) (listed-first m ms pct) (rw same (omega arith)) in
      first_near _ _ (subst (λ limit. StartsNear limit (listed S nodes pct)) same near_first)

  -- Whatever the random order, the public list holds exactly the nodes of the table that can take a
  -- client: heard of within the time after which a node is stale, neither a relay nor disabled, told to
  -- drain neither by the console nor by themselves, ready, and with fewer clients than their most.
  -- Every test is passed by as many entries of the one as of the other.
  pub public_list-takes_clients :
      (r : Registry) (ttl_s now : ℕ) (p : PublicNode → Bool)
      → count p (public_list S r ttl_s now).nodes
        ≡ count (λ n. takes_clients r now n && p (public_node n)) (values r.inner.nodes)
  unfolding public_list serving_nodes
  public_list-takes_clients r ttl_s now p =
      listed-count p (map public_node (serving_nodes r now)) r.inner.settings.balance_spread_pct
      ∙ serving-count r now p (values r.inner.nodes)

  -- If there is a serving node, and the limit does not wrap, then the first node of the public list,
  -- which a client takes, has at most the spread more clients than the emptiest serving node.
  pub public_list_first :
      (r : Registry) (ttl_s now : ℕ) (m : PublicNode) (ms : List PublicNode)
      → let nodes = map public_node (serving_nodes r now) in
        let pct = r.inner.settings.balance_spread_pct in
        let least = least_clients nodes in
        nodes ≡ m ∷ ms
        → least * pct < u64_mod
        → least + least * pct / 100 < u64_mod
        → (first : PublicNode) × (head? (public_list S r ttl_s now).nodes ≡ some first)
          × (first.clients ≤ least + least * pct / 100)
  unfolding public_list
  public_list_first r ttl_s now m ms e h k =
      nodes_first (map public_node (serving_nodes r now)) r.inner.settings.balance_spread_pct m ms e
        h k

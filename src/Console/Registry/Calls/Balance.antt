-- ===== src/Console/Registry/Calls/Balance.antt =====
-- What the balance makes a node release, against the other nodes.
use rust_uma.Prelude.{
  ℕ, ◌+◌, ◌-◌, ◌/◌, ◌==◌, ◌≤◌, ◌≡◌, ◌≢◌, refl, sym, ap, subst, ◌∙◌, true, false, Option, none, some,
  List, [], ◌∷◌, String, string_eq, ◌=?◌, =?_iff, ltb, lookup, arith, All, Bool-cases, Option-cases,
  inl, inr, ℤ, pos, pos_part, pos_part-min_int-le, ◌<◌, ◌^◌, to_i64-eq, to_u64, to_u64-pos_part,
  leb_int,
}
use mathlib.Core.Option.{some-injective}
use rust_uma.Console.Registry.{
  Node, Registry, busier, max_by_busy, busiest_of, busiest_sheddable, sheddable, serving_nodes,
  find_node, others_spare, emptiest, excess_of, balance_excess,
}
use rust_uma.Console.Registry.Calls.{
  nothing, manual, balanced, decide_release, balances, balance_release, is_busiest, batch_of,
}

busier-le : (a b : Node) → busier a b ≡ true → b.heartbeat.clients ≤ a.heartbeat.clients
unfolding busier
busier-le a b h = ground arith

not_busier-le : (a b : Node) → busier a b ≡ false → a.heartbeat.clients ≤ b.heartbeat.clients
unfolding busier
not_busier-le a b h = ground arith

nothing_ne_balanced : nothing ≢ balanced
nothing_ne_balanced e = cc

manual_ne_balanced : manual ≢ balanced
manual_ne_balanced e = cc

true_ne_false : true ≢ false
true_ne_false e = cc

-- `k` has no fewer clients than `best` and the others.
abbrev pub Most : Node → List Node → Node → Type 0
Most best ns k =
    (best.heartbeat.clients ≤ k.heartbeat.clients)
    × All (λ n. n.heartbeat.clients ≤ k.heartbeat.clients) ns

max_by_busy-Most : (best : Node) (ns : List Node) → Most best ns (max_by_busy best ns)
unfolding max_by_busy
max_by_busy-Most best [] = (omega arith, tt)
max_by_busy-Most best (n ∷ ns) = elim (Bool-cases (busier best n)) [
  | inl holds ↦
      let same : max_by_busy best (n ∷ ns) ≡ max_by_busy best ns = rw (max_by_busy, holds) refl in
      let (most, rest) = max_by_busy-Most best ns in
      subst (Most best (n ∷ ns)) (sym same)
        (most, (omega (arith, most, busier-le best n holds), rest))
  | inr falls ↦
      let same : max_by_busy best (n ∷ ns) ≡ max_by_busy n ns = rw (max_by_busy, falls) refl in
      let (most, rest) = max_by_busy-Most n ns in
      subst (Most best (n ∷ ns)) (sym same)
        (omega (arith, most, not_busier-le best n falls), (most, rest))
]

busiest_of-most :
    (ns : List Node) (n : Node)
    → busiest_of ns ≡ some n
    → All (λ m. m.heartbeat.clients ≤ n.heartbeat.clients) ns
busiest_of-most [] n h = tt
busiest_of-most (m ∷ ns) n h =
    subst (λ k. All (λ m. m.heartbeat.clients ≤ k.heartbeat.clients) (m ∷ ns))
      (some-injective _ _ h) (max_by_busy-Most m ns)

-- A node that is not found is not the busiest.
max_by_busy-absent :
    (id : String) (best : Node) (ns : List Node)
    → (best.heartbeat.node_id =? id) ≡ false
    → find_node id ns ≡ none
    → ((max_by_busy best ns).heartbeat.node_id =? id) ≡ false
unfolding max_by_busy find_node
max_by_busy-absent id best [] apart h = apart
max_by_busy-absent id best (n ∷ ns) apart h = elim (Bool-cases (n.heartbeat.node_id =? id)) [
  | inl mine ↦ ground (arith, mine)
  | inr other ↦
      let h' : find_node id ns ≡ none = ground (arith, other) in
      elim (Bool-cases (busier best n)) [
        | inl holds ↦ rw (max_by_busy, holds) (max_by_busy-absent id best ns apart h')
        | inr falls ↦ rw (max_by_busy, falls) (max_by_busy-absent id n ns other h')
      ]
]

busiest_of-absent :
    (id : String) (ns : List Node) → find_node id ns ≡ none → is_busiest (busiest_of ns) id ≡ false
unfolding find_node
busiest_of-absent id [] h = refl
busiest_of-absent id (n ∷ ns) h = elim (Bool-cases (n.heartbeat.node_id =? id)) [
  | inl mine ↦ ground (arith, mine)
  | inr other ↦ max_by_busy-absent id n ns other (ground (arith, other))
]

-- The one entry of the table that is the busiest, if it has the id.
busiest-id :
    (id : String) (o : Option Node)
    → is_busiest o id ≡ true
    → (b : Node) × (o ≡ some b) × (b.heartbeat.node_id ≡ id)
busiest-id id none h = ground arith
busiest-id id (some b) h = (b, refl, (=?_iff b.heartbeat.node_id id).0 h)

module _ (over : ℕ → ℕ → ℕ → ℤ) where
  -- The bounds of what is released: a batch, half the gap to the emptiest, the room of the others.
  pub record Bounded (r : Registry) (id : String) (now n : ℕ) : Type 0 where
    pub me : Node
    pub found : find_node id (sheddable r now) ≡ some me
    pub half_gap : n + n ≤ me.heartbeat.clients - emptiest (serving_nodes r now)
    pub room : n ≤ others_spare id (serving_nodes r now)
    pub batch : n ≤ batch_of r

  pos_part_balance :
      (r : Registry) (id : String) (now : ℕ) (me : Node)
      → find_node id (sheddable r now) ≡ some me
      → others_spare id (serving_nodes r now) < 2 ^ 63
      → let targets = serving_nodes r now in
        let e = pos_part (balance_excess over r id now) in
        (e ≤ (me.heartbeat.clients - emptiest targets) / 2) × (e ≤ others_spare id targets)
  unfolding balance_excess excess_of
  pos_part_balance r id now me found fits =
      let targets = serving_nodes r now in
      elim (Bool-cases (others_spare id targets == 0)) [
        | inl no_room ↦
            let none_left : balance_excess over r id now ≡ pos 0 =
              rw (balance_excess, found, no_room) refl in
            rw none_left (omega arith)
        | inr some_room ↦
            let amount : balance_excess over r id now
                ≡ excess_of over me.heartbeat.clients (emptiest targets)
                    r.inner.settings.balance_spread_pct (others_spare id targets) =
              rw (balance_excess, found, some_room) refl in
            rw (amount, to_i64-eq (others_spare id targets) fits)
              (pos_part-min_int-le
                (over me.heartbeat.clients (emptiest targets) r.inner.settings.balance_spread_pct)
                ((me.heartbeat.clients - emptiest targets) / 2) (others_spare id targets))
      ]

  balance_release-Bounded :
      (r : Registry) (id : String) (now : ℕ) (me : Node)
      → find_node id (sheddable r now) ≡ some me
      → others_spare id (serving_nodes r now) < 2 ^ 63
      → to_u64 (balance_excess over r id now) ≡ pos_part (balance_excess over r id now)
      → Bounded r id now (balance_release over r id now)
  balance_release-Bounded r id now me found fits same =
      let bounds = pos_part_balance r id now me found fits in
      record {
        me = me;
        found = found;
        half_gap = omega (arith, bounds);
        room = omega (arith, bounds);
        batch = omega arith;
      }

  busiest-found :
      (id : String) (ns : List Node)
      → is_busiest (busiest_of ns) id ≡ true
      → (me : Node) × (find_node id ns ≡ some me)
  busiest-found id ns h = elim (Option-cases (find_node id ns)) [
    | inl absent ↦ absurd (true_ne_false (sym h ∙ busiest_of-absent id ns absent))
    | inr found ↦ found
  ]

  -- When a decision makes a node release clients for the balance: the balance is on, the node is
  -- known and drains no clients, and the node of that id is the busiest of those that can release
  -- clients. It releases at most a batch, at most half of what it has more than the emptiest serving
  -- node, and at most what the other serving nodes have room for. The least excess that is set and the
  -- room of the others are less than 2 ^ 63, so that they are not negative as signed numbers.
  pub balance_is_safe :
      (r : Registry) (id : String) (now : ℕ)
      → r.inner.settings.balance_min_excess < 2 ^ 63
      → others_spare id (serving_nodes r now) < 2 ^ 63
      → let (r', n, reason) = decide_release over r id now in
        reason ≡ balanced
        → (r.inner.settings.auto_balance ≡ true)
          × ((node : Node) × (lookup id r.inner.nodes ≡ some node) × (node.desired_drain ≡ false))
          × ((b : Node) × (busiest_sheddable r now ≡ some b)
              × (b.heartbeat.node_id ≡ id)
              × All (λ m. m.heartbeat.clients ≤ b.heartbeat.clients) (sheddable r now))
          × Bounded r id now n
  unfolding decide_release balances busiest_sheddable
  balance_is_safe r id now least fits h = elim (Option-cases (lookup id r.inner.nodes)) [
    | inl unknown ↦ absurd (
        nothing_ne_balanced (
          sym (
            ap (λ x. x.2)
              (let e : decide_release over r id now ≡ (r, 0, nothing) =
                  rw (decide_release, unknown) refl in
                e))
          ∙ h))
    | inr (node, known) ↦ elim (Bool-cases (ltb 0 node.pending_release)) [
      | inl waiting ↦ absurd (
          manual_ne_balanced (
            let e : manual ≡ (decide_release over r id now).2 =
              rw (decide_release, known, waiting) refl in
            e ∙ h))
      | inr none_waits ↦ elim (Bool-cases (balances over r id node now)) [
        | inr stays ↦ absurd (
            nothing_ne_balanced (
              let e : nothing ≡ (decide_release over r id now).2 =
                rw (decide_release, known, none_waits, stays) refl in
              e ∙ h))
        | inl sheds ↦
            let busy : is_busiest (busiest_of (sheddable r now)) id ≡ true =
              ground (arith, sheds) in
            let (b, is_b, same) = busiest-id id (busiest_of (sheddable r now)) busy in
            let (me, found) = busiest-found id (sheddable r now) busy in
            let enough : leb_int (pos r.inner.settings.balance_min_excess)
                  (balance_excess over r id now)
                ≡ true =
              subst (λ m. leb_int m (balance_excess over r id now) ≡ true)
                (to_i64-eq r.inner.settings.balance_min_excess least) (ground (arith, sheds)) in
            let amount : balance_release over r id now ≡ (decide_release over r id now).1 =
              rw (decide_release, known, none_waits, sheds) refl in
            (
              ground (arith, sheds),
              (node, known, ground (arith, sheds)),
              (b, is_b, same, busiest_of-most (sheddable r now) b is_b),
              subst (Bounded r id now) amount (
                  balance_release-Bounded r id now me found fits (
                    to_u64-pos_part r.inner.settings.balance_min_excess
                      (balance_excess over r id now) enough)),
            )
      ]
    ]
  ]

-- ===== src/Console/Registry/Calls/Release.antt =====
-- A release that an administrator asks for, over the heartbeats that follow.
use rust_uma.Prelude.{
  ℕ, ◌+◌, ◌-◌, ◌*◌, ◌<◌, ◌≡◌, refl, sym, true, ap, ap₂, subst, ◌∙◌, Bool, false, Option, none, some,
  List, [], ◌∷◌, String, string_eq, ◌=?◌, =?_iff, if◌then◌else◌, ltb, min, max, lookup,
  lookup-insert, lookup-insert_self, arith, Bool-cases, Option-cases, inl, inr, ℤ,
}
use rust_uma.Console.Registry.{Heartbeat, Node, Registry, admin_of, or_empty}
use rust_uma.Console.Registry.Calls.{
  Reason, nothing, manual, balanced, HeartbeatOutcome, heartbeat, decide_release, balances,
  request_release, noted, put, batch_of, on_node,
}

pub record Beat : Type 0 where
  pub hb : Heartbeat
  pub remote_ip : String
  pub now : ℕ

abbrev pub pending_of : Option Node → ℕ
pending_of none = 0
pending_of (some n) = n.pending_release

abbrev pub pending : Registry → String → ℕ
pending r id = pending_of (lookup id r.inner.nodes)

abbrev pub manual_part : Reason → ℕ → ℕ
manual_part nothing n = 0
manual_part manual n = n
manual_part balanced n = 0

abbrev pub by_hand : HeartbeatOutcome → ℕ
by_hand o = manual_part o.release_reason o.release

abbrev pub is_relay : Registry → String → Bool
is_relay r id = (admin_of r.inner id).relay

module _ (over : ℕ → ℕ → ℕ → ℤ) where
  decide-known :
      (r : Registry) (id : String) (now : ℕ) (node : Node)
      → lookup id r.inner.nodes ≡ some node
      → let (r', release, reason) = decide_release over r id now in
        (pending r' id ≡ node.pending_release - batch_of r)
        × (manual_part reason release ≡ min node.pending_release (batch_of r))
        × (r'.inner.admin ≡ r.inner.admin)
        × (r'.inner.settings ≡ r.inner.settings)
  unfolding decide_release
  decide-known r id now node h = elim (Bool-cases (ltb 0 node.pending_release)) [
    | inl waiting ↦
        rw (decide_release, h, waiting)
          (ap pending_of (lookup-insert_self id _ r.inner.nodes) ∙ omega arith, refl, refl, refl)
    | inr none_waits ↦ elim (Bool-cases (balances over r id node now)) [
      | inl sheds ↦
          rw (decide_release, h, none_waits, sheds)
            (
              ap pending_of (lookup-insert_self id _ r.inner.nodes) ∙ ground arith,
              ground arith,
              refl,
              refl,
            )
      | inr stays ↦
          rw (decide_release, h, none_waits, stays)
            (ap pending_of h ∙ ground arith, ground arith, refl, refl)
    ]
  ]

  lookup-put_other :
      (r : Registry) (id j : String) (n : Node)
      → (id =? j) ≡ false
      → lookup j (put r id n).inner.nodes ≡ lookup j r.inner.nodes
  lookup-put_other r id j n apart = lookup-insert id j n r.inner.nodes ∙ rw apart refl

  -- What a decision leaves as it is: the administration, and the other nodes.
  abbrev Frame : String → Registry → Registry → Type 0
  Frame id r r' =
      ((j : String) → (id =? j) ≡ false → lookup j r'.inner.nodes ≡ lookup j r.inner.nodes)
      × (r'.inner.admin ≡ r.inner.admin)
      × (r'.inner.settings ≡ r.inner.settings)

  put-Frame : (r : Registry) (id : String) (n : Node) → Frame id r (put r id n)
  put-Frame r id n = (λ j apart. lookup-put_other r id j n apart, refl, refl)

  Frame-trans : (id : String) (a b c : Registry) → Frame id a b → Frame id b c → Frame id a c
  Frame-trans id a b c f g = (λ j apart. g.0 j apart ∙ f.0 j apart, g.1 ∙ f.1, g.2 ∙ f.2)

  decide-Frame :
      (r : Registry) (id : String) (now : ℕ) → Frame id r (decide_release over r id now).0
  unfolding decide_release
  decide-Frame r id now = elim (Option-cases (lookup id r.inner.nodes)) [
    | inl unknown ↦ rw (decide_release, unknown) (λ j apart. refl, refl, refl)
    | inr (node, h) ↦ elim (Bool-cases (ltb 0 node.pending_release)) [
      | inl waiting ↦ rw (decide_release, h, waiting) (put-Frame r id _)
      | inr none_waits ↦ elim (Bool-cases (balances over r id node now)) [
        | inl sheds ↦ rw (decide_release, h, none_waits, sheds) (put-Frame r id _)
        | inr stays ↦ rw (decide_release, h, none_waits, stays) (λ j apart. refl, refl, refl)
      ]
    ]
  ]

  noted-pending :
      (o : Option Node) (hb : Heartbeat) (ip : String) (now : ℕ)
      → (noted o hb ip now).0.pending_release ≡ pending_of o
  noted-pending none hb ip now = refl
  noted-pending (some n) hb ip now = refl

  heartbeat-Frame :
      (r : Registry) (hb : Heartbeat) (ip : String) (now : ℕ)
      → Frame hb.node_id r (heartbeat over r hb ip now).0
  unfolding heartbeat
  heartbeat-Frame r hb ip now =
      let node = (noted (lookup hb.node_id r.inner.nodes) hb ip now).0 in
      elim (Bool-cases (admin_of r.inner hb.node_id).relay) [
        | inl relayed ↦ rw relayed (put-Frame r hb.node_id _)
        | inr plain ↦ rw plain (
            Frame-trans hb.node_id r (put r hb.node_id node)
              (decide_release over (put r hb.node_id node) hb.node_id now).0
              (put-Frame r hb.node_id node) (decide-Frame (put r hb.node_id node) hb.node_id now))
      ]

  heartbeat-pending :
      (r : Registry) (hb : Heartbeat) (ip : String) (now : ℕ)
      → is_relay r hb.node_id ≡ false
      → let (r', o) = heartbeat over r hb ip now in
        (pending r' hb.node_id ≡ pending r hb.node_id - batch_of r)
        × (by_hand o ≡ min (pending r hb.node_id) (batch_of r))
  unfolding heartbeat
  heartbeat-pending r hb ip now plain =
      let id = hb.node_id in
      let node = (noted (lookup id r.inner.nodes) hb ip now).0 in
      let (left, done, same, settings) =
        decide-known (put r id node) id now node (lookup-insert_self id node r.inner.nodes) in
      rw (plain, ← noted-pending (lookup id r.inner.nodes) hb ip now) (left, done)

  -- The heartbeats of any nodes, one after the other; what they make one of them release by hand.
  unfoldable pub run_beats : String → Registry → List Beat → Registry × ℕ
  run_beats id r [] = (r, 0)
  run_beats id r (b ∷ bs) =
      let (r', o) = heartbeat over r b.hb b.remote_ip b.now in
      let (end, more) = run_beats id r' bs in
      (end, (if b.hb.node_id =? id then by_hand o else 0) + more)

  abbrev pub count_beats : String → List Beat → ℕ
  count_beats id [] = 0
  count_beats id (b ∷ bs) = (if b.hb.node_id =? id then 1 else 0) + count_beats id bs

  is_relay-same :
      (id : String) (r r' : Registry)
      → r'.inner.admin ≡ r.inner.admin
      → is_relay r' id ≡ is_relay r id
  unfolding admin_of
  is_relay-same id r r' same = ap (λ admin. (or_empty (lookup id admin)).relay) same

  minus_times : (p k c : ℕ) → p - k - c * k ≡ p - (1 + c) * k
  minus_times p k c = grind arith

  one_more : (c k : ℕ) → (1 + c) * k ≡ k + c * k
  one_more c k = grind arith

  run_beats-pending :
      (id : String) (r : Registry) (bs : List Beat)
      → is_relay r id ≡ false
      → let (r', total) = run_beats id r bs in
        (pending r' id ≡ pending r id - count_beats id bs * batch_of r)
        × (total + pending r' id ≡ pending r id)
  unfolding run_beats
  run_beats-pending id r [] plain = (omega arith, omega arith)
  run_beats-pending id r (b ∷ bs) plain =
      let (r', o) = heartbeat over r b.hb b.remote_ip b.now in
      let frame = heartbeat-Frame r b.hb b.remote_ip b.now in
      let batch : batch_of r' ≡ batch_of r = ap (λ s. max s.release_batch 1) frame.2 in
      let (left, total) = run_beats-pending id r' bs (is_relay-same id r r' frame.1 ∙ plain) in
      elim (Bool-cases (b.hb.node_id =? id)) [
        | inl mine ↦
            let here : b.hb.node_id ≡ id = (=?_iff b.hb.node_id id).0 mine in
            let (rest, done) =
              heartbeat-pending r b.hb b.remote_ip b.now (ap (is_relay r) here ∙ plain) in
            let rest' : pending r' id ≡ pending r id - batch_of r =
              subst (λ j. pending r' j ≡ pending r j - batch_of r) here rest in
            let done' : by_hand o ≡ min (pending r id) (batch_of r) =
              done ∙ ap (λ j. min (pending r j) (batch_of r)) here in
            rw mine (
              left
                  ∙ (ap₂ (λ p k. p - count_beats id bs * k) rest' batch
                      ∙ minus_times (pending r id) (batch_of r) (count_beats id bs)),
              omega (arith, total, rest', done'),
            )
        | inr other ↦
            let same : pending r' id ≡ pending r id = ap pending_of (frame.0 id other) in
            rw other (
              left
                  ∙ ap₂ (λ p k. p - count_beats id bs * k) same batch
                  ∙ ap (λ k. pending r id - k * batch_of r) (omega arith),
              omega (arith, total, same),
            )
      ]

  request_release-known :
      (r : Registry) (id : String) (n : Node) (count : ℕ)
      → lookup id r.inner.nodes ≡ some n
      → (request_release r id count).0 ≡ put r id (record n { pending_release = count })
  unfolding request_release
  request_release-known r id n count known = rw (known, on_node) refl

  -- A decision on a node with clients still to release takes one batch of these.
  decide-waiting :
      (r : Registry) (id : String) (now : ℕ) (node : Node)
      → lookup id r.inner.nodes ≡ some node
      → 0 < node.pending_release
      → (decide_release over r id now).1 ≡ min node.pending_release (batch_of r)
  unfolding decide_release
  decide-waiting r id now node h some_wait =
      let waiting : ltb 0 node.pending_release ≡ true = ground (arith, some_wait) in
      rw (decide_release, h, waiting) refl

  heartbeat-waiting :
      (r : Registry) (hb : Heartbeat) (ip : String) (now : ℕ)
      → is_relay r hb.node_id ≡ false
      → 0 < pending r hb.node_id
      → (heartbeat over r hb ip now).1.release ≡ min (pending r hb.node_id) (batch_of r)
  unfolding heartbeat
  heartbeat-waiting r hb ip now plain some_wait =
      let id = hb.node_id in
      let node = (noted (lookup id r.inner.nodes) hb ip now).0 in
      let same = noted-pending (lookup id r.inner.nodes) hb ip now in
      rw (plain, ← same)
        (decide-waiting (put r id node) id now node (lookup-insert_self id node r.inner.nodes)
          (omega (arith, some_wait, same)))

  -- All that the heartbeats make one node release, for whatever reason.
  unfoldable pub released_in : String → Registry → List Beat → ℕ
  released_in id r [] = 0
  released_in id r (b ∷ bs) =
      let (r', o) = heartbeat over r b.hb b.remote_ip b.now in
      let more = released_in id r' bs in (if b.hb.node_id =? id then o.release else 0) + more

  -- While clients are still to be released at each heartbeat, a batch goes at each.
  released_in-waiting :
      (id : String) (r : Registry) (bs : List Beat)
      → is_relay r id ≡ false
      → count_beats id bs * batch_of r < pending r id + batch_of r
      → released_in id r bs ≡ min (pending r id) (count_beats id bs * batch_of r)
  unfolding released_in
  released_in-waiting id r [] plain few = omega arith
  released_in-waiting id r (b ∷ bs) plain few =
      let (r', o) = heartbeat over r b.hb b.remote_ip b.now in
      let frame = heartbeat-Frame r b.hb b.remote_ip b.now in
      let batch : batch_of r' ≡ batch_of r = ap (λ s. max s.release_batch 1) frame.2 in
      let plain' = is_relay-same id r r' frame.1 ∙ plain in
      let product : count_beats id bs * batch_of r' ≡ count_beats id bs * batch_of r =
        ap (λ k. count_beats id bs * k) batch in
      elim (Bool-cases (b.hb.node_id =? id)) [
        | inl mine ↦
            let here : b.hb.node_id ≡ id = (=?_iff b.hb.node_id id).0 mine in
            let few' : (1 + count_beats id bs) * batch_of r < pending r id + batch_of r =
              rw mine at few in
            let split : (1 + count_beats id bs) * batch_of r
                ≡ batch_of r + count_beats id bs * batch_of r =
              one_more (count_beats id bs) (batch_of r) in
            let wait : 0 < pending r id = omega (arith, few', split) in
            let rest : pending r' id ≡ pending r id - batch_of r =
              subst (λ j. pending r' j ≡ pending r j - batch_of r) here
                (heartbeat-pending r b.hb b.remote_ip b.now (ap (is_relay r) here ∙ plain)).0 in
            let now_released : o.release ≡ min (pending r id) (batch_of r) =
              heartbeat-waiting r b.hb b.remote_ip b.now (ap (is_relay r) here ∙ plain)
                (subst (λ j. 0 < pending r j) (sym here) wait)
              ∙ ap (λ j. min (pending r j) (batch_of r)) here in
            let more =
              released_in-waiting id r' bs plain'
                (omega (arith, few', split, rest, product, batch)) in
            rw (mine, split) (omega (arith, more, now_released, rest, product, few', split))
        | inr other ↦
            let same : pending r' id ≡ pending r id = ap pending_of (frame.0 id other) in
            let few' : (0 + count_beats id bs) * batch_of r < pending r id + batch_of r =
              rw other at few in
            let plus : (0 + count_beats id bs) * batch_of r ≡ count_beats id bs * batch_of r =
              ap (λ k. k * batch_of r) (omega arith) in
            let more =
              released_in-waiting id r' bs plain'
                (omega (arith, few', plus, same, product, batch)) in
            rw (other, plus) (omega (arith, more, same, product))
      ]

  -- A release of `count` clients is asked of a known node that is no relay, and any heartbeats of
  -- any nodes follow. Each heartbeat of the node takes one batch off what is pending, and what the
  -- heartbeats made it release with the reason `manual` is the rest of `count`. What they make it
  -- release for the balance is not counted here.
  pub release_paced :
      (r : Registry) (id : String) (n : Node) (count : ℕ) (bs : List Beat)
      → lookup id r.inner.nodes ≡ some n
      → is_relay r id ≡ false
      → let (r', total) = run_beats id (request_release r id count).0 bs in
        (pending r' id ≡ count - count_beats id bs * batch_of r) × (total + pending r' id ≡ count)
  release_paced r id n count bs known plain =
      let asked = put r id (record n { pending_release = count }) in
      let (left, total) = run_beats-pending id asked bs (is_relay-same id r asked refl ∙ plain) in
      let all : pending asked id ≡ count = ap pending_of (lookup-insert_self id _ r.inner.nodes) in
      rw (request_release-known r id n count known)
        (left ∙ ap (λ p. p - count_beats id bs * batch_of r) all, total ∙ all)

  -- A release of `count` clients is asked of a known node that is no relay, and heartbeats of any nodes
  -- follow, those of the node up to the one that takes the last batch. They make the node release a
  -- batch each, and less only at the end: after `k` of them, the least of `count` and `k` batches, by
  -- hand and for the balance together. So the heartbeat that leaves nothing pending makes it exactly `count`.
  pub release_completes :
      (r : Registry) (id : String) (n : Node) (count : ℕ) (bs : List Beat)
      → lookup id r.inner.nodes ≡ some n
      → is_relay r id ≡ false
      → count_beats id bs * batch_of r < count + batch_of r
      → let asked = (request_release r id count).0 in
        let all = released_in id asked bs in
        let left = pending (run_beats id asked bs).0 id in
        (all ≡ min count (count_beats id bs * batch_of r))
        × (left ≡ count - count_beats id bs * batch_of r)
        × ((left ≡ 0) → all ≡ count)
  release_completes r id n count bs known plain few =
      let asked = put r id (record n { pending_release = count }) in
      let (left, total) = release_paced r id n count bs known plain in
      let all : pending asked id ≡ count = ap pending_of (lookup-insert_self id _ r.inner.nodes) in
      let is_asked = request_release-known r id n count known in
      let released_all : released_in id (request_release r id count).0 bs
          ≡ min count (count_beats id bs * batch_of r) =
        rw is_asked (
          released_in-waiting id asked bs (is_relay-same id r asked refl ∙ plain)
            (omega (arith, few, all))
          ∙ ap (λ p. min p (count_beats id bs * batch_of r)) all) in
      (released_all, left, λ none_left. omega (arith, released_all, left, none_left))

-- ===== src/Mempool/Gate/Rounds.antt =====
-- A market's latest round, and the calls of older rounds.
use rust_uma.Prelude.{
  ℕ, ◌≤◌, ◌<◌, ◌≡◌, refl, sym, ap, subst, true, Option, none, some, List, [], ◌∷◌, arith, String,
  max, if◌then◌else◌, Bytes, ◌=?◌, =?_iff, lookup, insert, lookup-insert, inl, inr, Bool-cases,
  pair_eq, bytes_eq,
}
use rust_uma.Mempool.Call.{OracleCall, RequestKey, request_key, market}
use rust_uma.Mempool.Arith.{Floats}
use rust_uma.Mempool.Gate.{
  Gate, Verdict, emit, drops, stale_round, unwrap_or, count_verdict, tip_floor, check_request,
  check, on_confirmed,
}
use rust_uma.Mempool.Gate.Judge.{state_of, round_of, check_cases, count_verdict-reqs}
use rust_uma.Mempool.Gate.Emission.{Event, checks, confirms, step}

module _ (X : Floats) (keccak : Bytes → Bytes) where
  -- The latest round that the gate has seen of a market.
  abbrev pub latest : Gate X → Bytes × Bytes → ℕ
  latest g m = unwrap_or (lookup m g.latest_round) 0

  -- The market and the round of an event.
  abbrev pub market_of : Event → Bytes × Bytes
  market_of (checks call sender tip tx now) = market (request_key keccak call)
  market_of (confirms kind key price tx now) = market key

  abbrev pub round_in : Event → ℕ
  round_in (checks call sender tip tx now) = (request_key keccak call).timestamp
  round_in (confirms kind key price tx now) = key.timestamp

  unfoldable pub after : Gate X → List Event → Gate X
  after g [] = g
  after g (e ∷ es) = after (step X keccak g e).0 es

  count_verdict-latest_round :
      (g : Gate X) (v : Verdict) → (count_verdict X g v).latest_round ≡ g.latest_round
  unfolding count_verdict
  count_verdict-latest_round g emit = refl
  count_verdict-latest_round g (drops why) = refl

  check_request-latest_round :
      (g : Gate X) (call : OracleCall) (key : RequestKey) (sender : Bytes) (tip now : ℕ)
      → (check_request X g call key sender tip now).0.latest_round ≡ g.latest_round
  unfolding check_request tip_floor
  check_request-latest_round g call key sender tip now = count_verdict-latest_round _ _

  -- What writing a round of a market does to the latest ones.
  latest-insert :
      (rounds : List ((Bytes × Bytes) × ℕ)) (m m' : Bytes × Bytes) (r : ℕ)
      → unwrap_or (lookup m' (insert m r rounds)) 0
        ≡ (if m =? m' then r else unwrap_or (lookup m' rounds) 0)
  latest-insert rounds m m' r = ground (arith, lookup-insert m m' r rounds)

  insert-grows :
      (rounds : List ((Bytes × Bytes) × ℕ)) (m m' : Bytes × Bytes) (r : ℕ)
      → unwrap_or (lookup m rounds) 0 ≤ r
      → unwrap_or (lookup m' rounds) 0 ≤ unwrap_or (lookup m' (insert m r rounds)) 0
  insert-grows rounds m m' r h = elim (Bool-cases (m =? m')) [
    | inl same ↦
        rw (latest-insert rounds m m' r, same)
          (subst (λ k. unwrap_or (lookup k rounds) 0 ≤ r) ((=?_iff m m').0 same) h)
    | inr apart ↦ rw (latest-insert rounds m m' r, apart) (omega arith)
  ]

  insert-latest :
      (rounds : List ((Bytes × Bytes) × ℕ)) (m : Bytes × Bytes) (r : ℕ)
      → unwrap_or (lookup m (insert m r rounds)) 0 ≡ r
  insert-latest rounds m r =
      let same : (m =? m) ≡ true = (=?_iff m m).1 refl in rw (latest-insert rounds m m r, same)

  unwrap-le :
      (o : Option ℕ) (t : ℕ)
      → (unwrap_or o 0 ≤ unwrap_or o t) × (unwrap_or o t ≤ max (unwrap_or o 0) t)
  unwrap-le none t = omega arith
  unwrap-le (some r) t = omega arith

  -- An event never lowers a market's latest round, and raises its own to at least its own.
  step-latest :
      (g : Gate X) (e : Event) (m : Bytes × Bytes)
      → (latest g m ≤ latest (step X keccak g e).0 m)
        × (round_in e ≤ latest (step X keccak g e).0 (market_of e))
  unfolding step on_confirmed
  step-latest g (confirms kind key price tx now) m =
      let (low, high) = unwrap-le (lookup (market key) g.latest_round) key.timestamp in
      (insert-grows g.latest_round (market key) m _ (omega arith), rw insert-latest (omega arith))
  step-latest g (checks call sender tip tx now) m =
      let key = request_key keccak call in
      let (low, high) = unwrap-le (lookup (market key) g.latest_round) key.timestamp in
      elim (check_cases X keccak g call sender tip tx now) [
        | inl (stale, e) ↦
            rw (e, count_verdict-latest_round)
              (
                insert-grows g.latest_round (market key) m (round_of X keccak g call) low,
                rw insert-latest (omega arith),
              )
        | inr (fresh, e) ↦
            rw (e, check_request-latest_round)
              (
                insert-grows g.latest_round (market key) m key.timestamp (omega arith),
                rw insert-latest (omega arith),
              )
      ]

  after-latest :
      (es : List Event) (g : Gate X) (m : Bytes × Bytes) → latest g m ≤ latest (after g es) m
  unfolding after
  after-latest [] g m = omega arith
  after-latest (e ∷ es) g m =
      omega (arith, (step-latest g e m).0, after-latest es (step X keccak g e).0 m)

  below_latest :
      (g : Gate X) (call : OracleCall)
      → (request_key keccak call).timestamp < latest g (market (request_key keccak call))
      → (request_key keccak call).timestamp < round_of X keccak g call
  below_latest g call h = omega (
    arith,
    (unwrap-le (lookup (market (request_key keccak call)) g.latest_round)
        (request_key keccak call).timestamp).0,
  )

  -- After an event of a later round of the same market, whatever events follow it, a pending call
  -- is dropped as stale, and the state of every request stays as it is.
  pub stale_dropped :
      (g : Gate X) (e : Event) (es : List Event) (call : OracleCall) (sender : Bytes) (tip : ℕ)
      (tx : String) (now : ℕ)
      → market (request_key keccak call) ≡ market_of e
      → (request_key keccak call).timestamp < round_in e
      → let g' = after (step X keccak g e).0 es in
        let (end, verdict) = check X keccak g' call sender tip tx now in
        (verdict ≡ drops stale_round)
        × ((key : RequestKey) → state_of X end key ≡ state_of X g' key)
  stale_dropped g e es call sender tip tx now same older =
      let g' = after (step X keccak g e).0 es in
      let seen : (request_key keccak call).timestamp
          < latest g' (market (request_key keccak call)) =
        subst (λ m. (request_key keccak call).timestamp < latest g' m) (sym same)
          (omega (
            arith,
            (step-latest g e (market_of e)).1,
            after-latest es (step X keccak g e).0 (market_of e),
          )) in
      elim (check_cases X keccak g' call sender tip tx now) [
        | inl (stale, r) ↦ (ap (λ p. p.1) r, λ key. rw (r, count_verdict-reqs))
        | inr (fresh, r) ↦ absurd (omega (arith, below_latest g' call seen))
      ]

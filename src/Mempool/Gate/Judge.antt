-- ===== src/Mempool/Gate/Judge.antt =====
-- `check` of one call: when it emits, and what stays of a request that is closed for a kind.
use rust_uma.Prelude.{
  ℕ, ◌≤◌, ◌<◌, ◌≡◌, ◌⊎◌, refl, sym, ap, ◌∙◌, Bool, true, false, ◌||◌, Option, none, some, List,
  arith, String, if◌then◌else◌, ltb, Bytes, ◌=?◌, =?_iff, lookup, insert, lookup-insert,
  lookup-insert_self, pair_eq, bytes_eq, string_eq, inl, inr, Bool-cases,
}
use rust_uma.Mempool.Call.{
  CallKind, propose, dispute, OracleCall, RequestKey, request_key, request_key_eq, market,
}
use rust_uma.Mempool.Arith.{Floats}
use rust_uma.Mempool.Gate.{
  Gate, ReqState, Verdict, emit, drops, stale_round, default_state, unwrap_or, judge, count_verdict,
  check_request, check, tip_floor, trusted, below_floor,
}

abbrev is_some {ℓ} : {A : Type ℓ} → Option A → Bool
is_some none = false
is_some (some a) = true

-- The request takes no more pushes of a kind.
abbrev pub is_closed : CallKind → ReqState → Bool
is_closed propose st = st.disputed || (is_some st.proposed || is_some st.emitted_price)
is_closed dispute st = st.disputed || st.emitted_dispute

module _ (X : Floats) where
  abbrev pub state_of : Gate X → RequestKey → ReqState
  state_of g key = unwrap_or (lookup key g.reqs) default_state

  judge-is_closed :
      (k kind : CallKind) (st : ReqState) (sender price : Bytes) (trust low : Bool)
      → is_closed k st ≡ true
      → is_closed k (judge X kind st sender price trust low).0 ≡ true
  unfolding judge
  judge-is_closed propose propose st sender price trust low h = ground arith
  judge-is_closed propose dispute st sender price trust low h = ground arith
  judge-is_closed dispute propose st sender price trust low h = ground arith
  judge-is_closed dispute dispute st sender price trust low h = ground arith

  judge-emit :
      (kind : CallKind) (st : ReqState) (sender price : Bytes) (trust low : Bool)
      → (judge X kind st sender price trust low).1 ≡ emit
      → (is_closed kind st ≡ false)
        × (is_closed kind (judge X kind st sender price trust low).0 ≡ true)
        × (low ≡ false)
  unfolding judge
  judge-emit propose st sender price trust low h = ground arith
  judge-emit dispute st sender price trust low h = ground arith

  pub count_verdict-reqs : (g : Gate X) (v : Verdict) → (count_verdict X g v).reqs ≡ g.reqs
  unfolding count_verdict
  count_verdict-reqs g emit = refl
  count_verdict-reqs g (drops why) = refl

  -- What `check` makes of a call whose round is the latest.
  abbrev pub judged : Gate X → OracleCall → RequestKey → Bytes → ℕ → ℕ → ReqState × Verdict
  judged g call key sender tip now =
      judge X call.kind (record (state_of g key) { touched_us = now }) sender call.price
        (trusted X (tip_floor X g now).0 sender) (below_floor X (tip_floor X g now).1 tip)

  tip_floor-reqs : (g : Gate X) (now : ℕ) → (tip_floor X g now).0.reqs ≡ g.reqs
  unfolding tip_floor
  tip_floor-reqs g now = refl

  pub check_request-judged :
      (g : Gate X) (call : OracleCall) (key : RequestKey) (sender : Bytes) (tip now : ℕ)
      → ((check_request X g call key sender tip now).0.reqs
          ≡ insert key (judged g call key sender tip now).0 g.reqs)
        × ((check_request X g call key sender tip now).1 ≡ (judged g call key sender tip now).1)
  unfolding check_request tip_floor
  check_request-judged g call key sender tip now = (count_verdict-reqs _ _, refl)

  pub touched-is_closed :
      (k : CallKind) (st : ReqState) (now : ℕ)
      → is_closed k (record st { touched_us = now }) ≡ is_closed k st
  touched-is_closed propose st now = refl
  touched-is_closed dispute st now = refl

  -- A request's state after its entry, or another's, is written.
  pub state_of-insert :
      (key key' : RequestKey) (st : ReqState) (reqs : List (RequestKey × ReqState))
      → unwrap_or (lookup key' (insert key st reqs)) default_state
        ≡ (if key =? key' then st else unwrap_or (lookup key' reqs) default_state)
  state_of-insert key key' st reqs = ground (arith, lookup-insert key key' st reqs)

  pub insert-is_closed :
      (k : CallKind) (key key' : RequestKey) (st : ReqState) (reqs : List (RequestKey × ReqState))
      → (key ≡ key' → is_closed k st ≡ true)
      → is_closed k (unwrap_or (lookup key' reqs) default_state) ≡ true
      → is_closed k (unwrap_or (lookup key' (insert key st reqs)) default_state) ≡ true
  insert-is_closed k key key' st reqs own other = elim (Bool-cases (key =? key')) [
    | inl same ↦ rw (state_of-insert key key' st reqs, same) (own ((=?_iff key key').0 same))
    | inr apart ↦ rw (state_of-insert key key' st reqs, apart) other
  ]

  check_request-is_closed :
      (g : Gate X) (call : OracleCall) (key : RequestKey) (sender : Bytes) (tip now : ℕ)
      (k : CallKind) (key' : RequestKey)
      → is_closed k (state_of g key') ≡ true
      → is_closed k (state_of (check_request X g call key sender tip now).0 key') ≡ true
  check_request-is_closed g call key sender tip now k key' h =
      rw ((check_request-judged g call key sender tip now).0) (
        insert-is_closed k key key' _ g.reqs
          (λ same. judge-is_closed k call.kind _ sender call.price _ _ (
            touched-is_closed k (state_of g key) now
            ∙ (ap (λ j. is_closed k (state_of g j)) same ∙ h)))
          h)

  check_request-emit :
      (g : Gate X) (call : OracleCall) (key : RequestKey) (sender : Bytes) (tip now : ℕ)
      → (check_request X g call key sender tip now).1 ≡ emit
      → (is_closed call.kind (state_of g key) ≡ false)
        × (is_closed call.kind (state_of (check_request X g call key sender tip now).0 key) ≡ true)
  check_request-emit g call key sender tip now e =
      let (reqs, verdict) = check_request-judged g call key sender tip now in
      let (open_before, closed_after, high) =
        judge-emit call.kind _ sender call.price _ _ (sym verdict ∙ e) in
      (
        sym (touched-is_closed call.kind (state_of g key) now) ∙ open_before,
        rw (reqs, lookup-insert_self) closed_after,
      )

  module _ (keccak : Bytes → Bytes) where
    abbrev pub note : Gate X → OracleCall → ℕ → String → ℕ → ℕ → Gate X
    note g call tip tx now r = record g {
      tx_tip = insert tx (now, tip) g.tx_tip;
      latest_round = insert (market (request_key keccak call)) r g.latest_round;
    }

    abbrev pub round_of : Gate X → OracleCall → ℕ
    round_of g call =
        let key = request_key keccak call in
        unwrap_or (lookup (market key) g.latest_round) key.timestamp

    -- `check` is one of two things, by the round of the call.
    pub check_cases :
        (g : Gate X) (call : OracleCall) (sender : Bytes) (tip : ℕ) (tx : String) (now : ℕ)
        → let key = request_key keccak call in
          let result = check X keccak g call sender tip tx now in
          ((key.timestamp < round_of g call)
            × (result ≡ (
              count_verdict X (note g call tip tx now (round_of g call)) (drops stale_round),
              drops stale_round,
            )))
          ⊎ ((round_of g call ≤ key.timestamp)
              × (result
                  ≡ check_request X (note g call tip tx now key.timestamp) call key sender tip now))
    unfolding check
    check_cases g call sender tip tx now =
        elim (Bool-cases (ltb (request_key keccak call).timestamp (round_of g call))) [
          | inl stale ↦ inl (ground arith, rw stale)
          | inr latest ↦ inr (ground arith, rw latest)
        ]

    pub check-is_closed :
        (g : Gate X) (call : OracleCall) (sender : Bytes) (tip : ℕ) (tx : String) (now : ℕ)
        (k : CallKind) (key' : RequestKey)
        → is_closed k (state_of g key') ≡ true
        → is_closed k (state_of (check X keccak g call sender tip tx now).0 key') ≡ true
    check-is_closed g call sender tip tx now k key' h =
        elim (check_cases g call sender tip tx now) [
          | inl (stale, e) ↦ rw (e, count_verdict-reqs) h
          | inr (latest, e) ↦ rw e (check_request-is_closed _ call _ sender tip now k key' h)
        ]

    pub check-emit :
        (g : Gate X) (call : OracleCall) (sender : Bytes) (tip : ℕ) (tx : String) (now : ℕ)
        → (check X keccak g call sender tip tx now).1 ≡ emit
        → let key = request_key keccak call in
          (is_closed call.kind (state_of g key) ≡ false)
          × (is_closed call.kind (state_of (check X keccak g call sender tip tx now).0 key) ≡ true)
    check-emit g call sender tip tx now e = elim (check_cases g call sender tip tx now) [
      | inl (stale, r) ↦ let no_emit : drops stale_round ≡ emit = sym (ap (λ p. p.1) r) ∙ e in cc
      | inr (latest, r) ↦
          rw r (check_request-emit _ call _ sender tip now (sym (ap (λ p. p.1) r) ∙ e))
    ]

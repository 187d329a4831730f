-- ===== src/Mempool/Gate.antt =====
-- src/mempool/gate.rs: the filter before a pending call is pushed. Maps are lists of pairs; `u32`
-- and `u64` counters wrap, as in a release build.
pub mod Judge
pub mod Emission
pub mod Rounds
pub mod Late
use rust_uma.Prelude.{
  ℕ, ◌+◌, ◌-◌, ◌%◌, ◌^◌, ◌≡◌, ◌↔◌, refl, Bool, true, false, Option, none, some, List, [], ◌∷◌, ◌++◌,
  arith, String, if◌then◌else◌, ltb, leb, length, Bytes, bytes_eq, Eq, ◌=?◌, ◌==◌, lookup, insert,
  get_or, map, pair_eq, string_eq, u64_add, filterb, max,
}
use rust_uma.Mempool.Call.{
  CallKind, propose, dispute, OracleCall, RequestKey, request_key, request_key_eq, market,
}
use rust_uma.Mempool.Arith.{Floats}

pub data Drop : Type 0 where
  already_proposed already_disputed duplicate conflict stale_round untrusted low_tip : Drop

abbrev pub drop_code : Drop → ℕ
drop_code already_proposed = 0
drop_code already_disputed = 1
drop_code duplicate = 2
drop_code conflict = 3
drop_code stale_round = 4
drop_code untrusted = 5
drop_code low_tip = 6

abbrev pub drop_beq : Drop → Drop → Bool
drop_beq a b = drop_code a == drop_code b

pub drop_beq_iff : (a b : Drop) → (drop_beq a b ≡ true) ↔ (a ≡ b)
drop_beq_iff a b = ground arith

instance abbrev pub drop_eq : Eq Drop
drop_eq = record { beq = drop_beq; beq_iff = drop_beq_iff }

pub data Verdict : Type 0 where
  emit : Verdict
  drops : Drop → Verdict

pub record ReqState : Type 0 where
  pub emitted_price : Option Bytes
  pub emitted_dispute : Bool
  pub proposed : Option Bytes
  pub disputed : Bool
  pub pendings : List (Bytes × Bytes)
  pub touched_us : ℕ

abbrev pub default_state : ReqState
default_state = record {
  emitted_price = none;
  emitted_dispute = false;
  proposed = none;
  disputed = false;
  pendings = [];
  touched_us = 0;
}

pub record SenderStat : Type 0 where
  pub agree : ℕ
  pub disagree : ℕ

abbrev pub default_stat : SenderStat
default_stat = record { agree = 0; disagree = 0 }

abbrev pub u32_add : ℕ → ℕ → ℕ
u32_add a b = (a + b) % 2 ^ 32

-- `unwrap_or_default` and `or_default`.
abbrev pub unwrap_or {ℓ} : {A : Type ℓ} → Option A → A → A
unwrap_or none d = d
unwrap_or (some a) d = a

-- `sort_unstable` on numbers, as an insertion sort.
abbrev pub insert_sorted : ℕ → List ℕ → List ℕ
insert_sorted a [] = a ∷ []
insert_sorted a (b ∷ bs) = if leb a b then a ∷ b ∷ bs else b ∷ insert_sorted a bs

unfoldable pub sort : List ℕ → List ℕ
sort [] = []
sort (a ∷ as') = insert_sorted a (sort as')

module _ (X : Floats) where
  open X use {F, of_u32, add, sub, mul, div, sqrt, ge, round_index, one, two, three, z}

  pub record GateConfig : Type 0 where
    pub trust_min_n : ℕ
    pub trust_min_rate : F
    pub tip_quantile : F
    pub tip_window_us : ℕ
    pub tip_min_samples : ℕ
    pub state_ttl_us : ℕ

  pub record Gate : Type 0 where
    pub cfg : GateConfig
    pub reqs : List (RequestKey × ReqState)
    pub latest_round : List ((Bytes × Bytes) × ℕ)
    pub senders : List (Bytes × SenderStat)
    pub tips : List (ℕ × ℕ)
    pub tx_tip : List (String × (ℕ × ℕ))
    pub emitted : ℕ
    pub dropped : List (Drop × ℕ)

  unfoldable pub new : GateConfig → Gate
  new cfg = record {
    cfg = cfg;
    reqs = [];
    latest_round = [];
    senders = [];
    tips = [];
    tx_tip = [];
    emitted = 0;
    dropped = [];
  }

  -- The lower bound of the share of agreements, for `n` samples.
  unfoldable pub lower_bound : ℕ → ℕ → F
  lower_bound agree n =
      let p = div (add (of_u32 agree) one) (add (of_u32 n) two) in
      sub p (mul z (sqrt (div (mul p (sub one p)) (add (of_u32 n) three))))

  unfoldable pub trusted : Gate → Bytes → Bool
  trusted g sender =
      let s = unwrap_or (lookup sender g.senders) default_stat in
      let n = u32_add s.agree s.disagree in
      if ltb n g.cfg.trust_min_n then false else ge (lower_bound s.agree n) g.cfg.trust_min_rate

  -- The `while` that takes expired tips off the front of the queue.
  unfoldable pub fresh_tips : ℕ → ℕ → List (ℕ × ℕ) → List (ℕ × ℕ)
  fresh_tips now window [] = []
  fresh_tips now window ((t, tip) ∷ tips) =
      if ltb window (now - t) then fresh_tips now window tips else (t, tip) ∷ tips

  -- Reading past the end of the sorted tips is a panic in the code; it gives 0 here.
  unfoldable pub quantile : List ℕ → F → ℕ
  quantile v q = get_or v (round_index (length v - 1) q) 0

  unfoldable pub tip_floor : Gate → ℕ → Gate × Option ℕ
  tip_floor g now =
      let tips = fresh_tips now g.cfg.tip_window_us g.tips in
      (
        record g { tips = tips },
        if ltb (length tips) g.cfg.tip_min_samples
            then none
            else some (quantile (sort (map (λ p. p.1) tips)) g.cfg.tip_quantile),
      )

  abbrev pub below_floor : Option ℕ → ℕ → Bool
  below_floor none tip = false
  below_floor (some f) tip = ltb tip f

  abbrev pub record_pending : ReqState → Bytes → Bytes → ReqState
  record_pending st sender price =
      if ltb (length st.pendings) 32
      then record st { pendings = st.pendings ++ ((sender, price) ∷ []) }
      else st

  -- The first test that fails, in the order of the code.
  unfoldable pub judge_propose : ReqState → Bytes → Bool → Bool → ReqState × Verdict
  judge_propose st price trust low =
      if st.disputed then (st, drops already_disputed) else elim st.proposed [
        | some _ ↦ (st, drops already_proposed)
        | none ↦ elim st.emitted_price [
          | some p ↦ (st, drops (if p =? price then duplicate else conflict))
          | none ↦
              if trust
              then (if low
                  then (st, drops low_tip)
                  else (record st { emitted_price = some price }, emit))
              else (st, drops untrusted)
        ]
      ]

  unfoldable pub judge_dispute : ReqState → Bool → ReqState × Verdict
  judge_dispute st low =
      if st.disputed
      then (st, drops already_disputed)
      else if st.emitted_dispute
      then (st, drops duplicate)
      else if low
      then (st, drops low_tip)
      else (record st { emitted_dispute = true }, emit)

  unfoldable pub judge : CallKind → ReqState → Bytes → Bytes → Bool → Bool → ReqState × Verdict
  unfolding judge_propose judge_dispute
  judge propose st sender price trust low =
      judge_propose (record_pending st sender price) price trust low
  judge dispute st sender price trust low = judge_dispute st low

  -- `emitted += 1`, or `dropped.entry(why) += 1`.
  unfoldable pub count_verdict : Gate → Verdict → Gate
  count_verdict g emit = record g { emitted = u64_add g.emitted 1 }
  count_verdict g (drops why) = record g {
    dropped = insert why (u64_add (unwrap_or (lookup why g.dropped) 0) 1) g.dropped;
  }

  -- `check` from the point where the call's round is known to be the latest.
  unfoldable pub check_request : Gate → OracleCall → RequestKey → Bytes → ℕ → ℕ → Gate × Verdict
  check_request g call key sender tip now =
      let (g', floor) = tip_floor g now in
      let st = unwrap_or (lookup key g'.reqs) default_state in
      let (st', verdict) =
        judge call.kind (record st { touched_us = now }) sender call.price (trusted g' sender)
          (below_floor floor tip) in
      (count_verdict (record g' { reqs = insert key st' g'.reqs }) verdict, verdict)

  unfoldable pub check :
      (Bytes → Bytes) → Gate → OracleCall → Bytes → ℕ → String → ℕ → Gate × Verdict
  check keccak g call sender tip tx now =
      let key = request_key keccak call in
      let round = unwrap_or (lookup (market key) g.latest_round) key.timestamp in
      let noted = λ (r : ℕ). record g {
        tx_tip = insert tx (now, tip) g.tx_tip;
        latest_round = insert (market key) r g.latest_round;
      } in
      if ltb key.timestamp round
      then (count_verdict (noted round) (drops stale_round), drops stale_round)
      else check_request (noted key.timestamp) call key sender tip now

  -- The loop that scores the addresses whose pending calls wait for the outcome.
  unfoldable pub score :
      Bytes → List (Bytes × Bytes) → List (Bytes × SenderStat) → List (Bytes × SenderStat)
  score price [] senders = senders
  score price ((sender, p) ∷ pend) senders =
      let s = unwrap_or (lookup sender senders) default_stat in
      score price pend (
        insert sender
          (if p =? price
            then record s { agree = u32_add s.agree 1 }
            else record s { disagree = u32_add s.disagree 1 })
          senders)

  -- A confirmed proposal's tip joins the samples, if its transaction was seen pending.
  abbrev pub sample_tip : CallKind → Option (ℕ × ℕ) → ℕ → List (ℕ × ℕ) → List (ℕ × ℕ)
  sample_tip propose (some (t, tip)) now tips = tips ++ ((now, tip) ∷ [])
  sample_tip _ _ now tips = tips

  unfoldable pub settle :
      CallKind → ReqState → Bytes → List (Bytes × SenderStat) → ReqState × List (Bytes × SenderStat)
  settle propose st price senders = elim st.proposed [
    | none ↦ (record st { proposed = some price; pendings = [] }, score price st.pendings senders)
    | some _ ↦ (st, senders)
  ]
  settle dispute st price senders = (record st { disputed = true }, senders)

  unfoldable pub on_confirmed : Gate → CallKind → RequestKey → Bytes → String → ℕ → Gate
  on_confirmed g kind key price tx now =
      let round = unwrap_or (lookup (market key) g.latest_round) key.timestamp in
      let st = unwrap_or (lookup key g.reqs) default_state in
      let (st', senders) = settle kind (record st { touched_us = now }) price g.senders in
      record g {
        latest_round = insert (market key) (max round key.timestamp) g.latest_round;
        tips = sample_tip kind (lookup tx g.tx_tip) now g.tips;
        reqs = insert key st' g.reqs;
        senders = senders;
      }

  unfoldable pub prune : Gate → ℕ → Gate
  prune g now = record g {
    reqs = filterb (λ p. ltb (now - p.1.touched_us) g.cfg.state_ttl_us) g.reqs;
    tx_tip = filterb (λ p. ltb (now - p.1.0) g.cfg.tip_window_us) g.tx_tip;
  }

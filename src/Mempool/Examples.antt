-- ===== src/Mempool/Examples.antt =====
-- Tests of the gate, and its theorems at concrete inputs. The arithmetic is on whole numbers, and
-- the hash is the identity.
use rust_uma.Prelude.{
  ℕ, ◌+◌, ◌-◌, ◌*◌, ◌/◌, ◌≤◌, ◌≡◌, refl, none, List, [], ◌∷◌, ◌++◌, arith, leb, replicate, Bytes,
  bytes_eq,
}
use rust_uma.Mempool.Call
use rust_uma.Mempool.Call.{CallKind, propose, dispute, OracleCall, RequestKey, request_key}
use rust_uma.Mempool.Arith.{Floats}
use rust_uma.Mempool.Gate
use rust_uma.Mempool.Gate.{
  Gate, GateConfig, Verdict, emit, drops, duplicate, conflict, stale_round, check, on_confirmed,
}
use rust_uma.Mempool.Gate.Judge.{state_of}
use rust_uma.Mempool.Gate.Emission.{Event, checks, confirms, step, emissions, times, emit_once}
use rust_uma.Mempool.Gate.Rounds.{after, stale_dropped}
use rust_uma.Mempool.Gate.Late.{Later, happens, prunes, AllKept, late_emissions, late_quiet}

-- Shares in thousandths.
abbrev thousandths : Floats
thousandths = record {
  F = ℕ;
  of_u32 = λ n. n * 1000;
  add = λ a b. a + b;
  sub = λ a b. a - b;
  mul = λ a b. a * b / 1000;
  div = λ a b. a * 1000 / b;
  sqrt = λ a. a;
  ge = λ a b. leb b a;
  round_index = λ n q. (n * q + 500) / 1000;
  one = 1000;
  two = 2000;
  three = 3000;
  z = 1645;
}

abbrev keccak : Bytes → Bytes
keccak bytes = bytes

abbrev cfg : GateConfig thousandths
cfg = record {
  trust_min_n = 1;
  trust_min_rate = 500;
  tip_quantile = 50;
  tip_window_us = 3600000000;
  tip_min_samples = 20;
  state_ttl_us = 604800000000;
}

abbrev address : ℕ → Bytes
address n = replicate 20 n

abbrev trusted_gate : Gate thousandths
trusted_gate = record {
  cfg = cfg;
  reqs = [];
  latest_round = [];
  senders = (address 9, record { agree = 100; disagree = 0 }) ∷ [];
  tips = [];
  tx_tip = [];
  emitted = 0;
  dropped = [];
}

abbrev call : CallKind → ℕ → ℕ → OracleCall
call kind ts price = record {
  kind = kind;
  requester = address 1;
  identifier = replicate 32 2;
  timestamp = replicate 31 0 ++ (ts ∷ []);
  ancillary = 113 ∷ [];
  price = replicate 31 0 ++ (price ∷ []);
  actor = none;
}

abbrev key : ℕ → RequestKey
key ts = record { requester = address 1; question_id = 113 ∷ []; timestamp = ts }

abbrev three_calls : List Event
three_calls =
    checks (call propose 10 1) (address 9) 100 "0xa" 1
    ∷ checks (call propose 10 1) (address 9) 100 "0xb" 2
    ∷ checks (call propose 10 0) (address 9) 100 "0xc" 3
    ∷ []

first_pending_emits_then_duplicates_and_conflicts_drop :
    let (g1, v1) =
      check thousandths keccak trusted_gate (call propose 10 1) (address 9) 100 "0xa" 1 in
    let (g2, v2) = check thousandths keccak g1 (call propose 10 1) (address 9) 100 "0xb" 2 in
    let (g3, v3) = check thousandths keccak g2 (call propose 10 0) (address 9) 100 "0xc" 3 in
    (v1 ≡ emit) × (v2 ≡ drops duplicate) × (v3 ≡ drops conflict)
unfolding check Gate.check_request Gate.tip_floor Gate.fresh_tips Gate.trusted Gate.lower_bound
    Gate.judge Gate.count_verdict Call.request_key Call.u64_word
first_pending_emits_then_duplicates_and_conflicts_drop = (refl, refl, refl)

emit_once_example :
    times propose (key 10) (emissions thousandths keccak trusted_gate three_calls) ≤ 1
emit_once_example = emit_once thousandths keccak three_calls trusted_gate propose (key 10)

-- A pruning within the time to live, and two pending proposals.
abbrev late_calls : List Later
late_calls =
    prunes 600000000000
    ∷ happens (checks (call propose 10 1) (address 9) 100 "0xa" 600000000001)
    ∷ happens (checks (call propose 10 0) (address 9) 100 "0xc" 600000000002)
    ∷ []

late_quiet_example :
    times propose (key 10) (
      late_emissions thousandths keccak
        (on_confirmed thousandths trusted_gate propose (key 10) (replicate 32 0) "0xw" 1)
        late_calls)
    ≡ 0
unfolding AllKept on_confirmed Gate.settle
late_quiet_example =
    late_quiet thousandths keccak trusted_gate propose (key 10) (replicate 32 0) "0xw" 1 late_calls
      propose refl (omega arith, (tt, (tt, tt)))

stale_dropped_example :
    let e = confirms dispute (key 20) (replicate 32 0) "0xd" 2 in
    let g' = after thousandths keccak (step thousandths keccak trusted_gate e).0 three_calls in
    let (end, verdict) = check thousandths keccak g' (call propose 10 1) (address 9) 100 "0xb" 4 in
    (verdict ≡ drops stale_round)
    × ((k : RequestKey) → state_of thousandths end k ≡ state_of thousandths g' k)
unfolding Call.request_key Call.u64_word
stale_dropped_example =
    stale_dropped thousandths keccak trusted_gate
      (confirms dispute (key 20) (replicate 32 0) "0xd" 2) three_calls (call propose 10 1)
      (address 9) 100 "0xb" 4 refl (omega arith)

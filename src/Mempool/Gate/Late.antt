-- ===== src/Mempool/Gate/Late.antt =====
-- Pending calls that come after the confirmation of src/mempool/gate.rs, with prunings between them.
use rust_uma.Prelude.{
  ℕ, ◌-◌, ◌<◌, ◌≡◌, refl, sym, ap, ◌∙◌, Bool, true, false, List, [], ◌∷◌, ◌++◌, arith, String,
  Bytes, ◌=?◌, inl, inr, Bool-cases, ltb, lookup, filterb,
}
use rust_uma.Mempool.Call.{CallKind, RequestKey, request_key_eq}
use rust_uma.Mempool.Arith.{Floats}
use rust_uma.Mempool.Gate.{Gate, ReqState, default_state, unwrap_or, on_confirmed, prune}
use rust_uma.Mempool.Gate.Judge.{is_closed, state_of}
use rust_uma.Mempool.Gate.Emission.{
  Event, settles, times, step, step_once, times-append, step-is_closed, on_confirmed_closes,
}

-- What reaches the gate, its prunings included.
pub data Later : Type 0 where
  happens : Event → Later
  prunes : ℕ → Later

abbrev is_recent : ℕ → ℕ → RequestKey × ReqState → Bool
is_recent ttl now p = ltb (now - p.1.touched_us) ttl

-- A pruning does not change the state of a request that it does not forget.
filterb-state :
    (ttl now : ℕ) (key : RequestKey) (reqs : List (RequestKey × ReqState))
    → now - (unwrap_or (lookup key reqs) default_state).touched_us < ttl
    → unwrap_or (lookup key (filterb (is_recent ttl now) reqs)) default_state
      ≡ unwrap_or (lookup key reqs) default_state
filterb-state ttl now key [] h = refl
filterb-state ttl now key ((j, st) ∷ reqs) h = elim (Bool-cases (j =? key)) [
  | inl same ↦
      let recent : ltb (now - st.touched_us) ttl ≡ true = ground (arith, rw same at h) in
      rw (recent, same) refl
  | inr other ↦
      let rest = filterb-state ttl now key reqs (rw other at h) in
      elim (Bool-cases (ltb (now - st.touched_us) ttl)) [
        | inl recent ↦ rw (recent, other) rest
        | inr old ↦ rw (old, other) rest
      ]
]

module _ (X : Floats) (keccak : Bytes → Bytes) where
  unfoldable pub late_step : Gate X → Later → Gate X × List (CallKind × RequestKey)
  late_step g (happens e) = step X keccak g e
  late_step g (prunes now) = (prune X g now, [])

  -- The calls that get through, in order.
  unfoldable pub late_emissions : Gate X → List Later → List (CallKind × RequestKey)
  late_emissions g [] = []
  late_emissions g (l ∷ ls) = let (g', through) = late_step g l in through ++ late_emissions g' ls

  -- A pruning finds the request touched less than the time to live ago.
  abbrev pub IsKept : RequestKey → Gate X → Later → Type 0
  IsKept key g (happens e) = Unit
  IsKept key g (prunes now) = now - (state_of X g key).touched_us < g.cfg.state_ttl_us

  unfoldable pub AllKept : RequestKey → Gate X → List Later → Type 0
  AllKept key g [] = Unit
  AllKept key g (l ∷ ls) = IsKept key g l × AllKept key (late_step g l).0 ls

  prune-state_of :
      (g : Gate X) (now : ℕ) (key : RequestKey)
      → IsKept key g (prunes now)
      → state_of X (prune X g now) key ≡ state_of X g key
  unfolding prune
  prune-state_of g now key h = filterb-state g.cfg.state_ttl_us now key g.reqs h

  -- From a state where a request is closed for a kind of call, none of that kind gets through.
  closed_late_quiet :
      (ls : List Later) (g : Gate X) (kind : CallKind) (key : RequestKey)
      → is_closed kind (state_of X g key) ≡ true
      → AllKept key g ls
      → times kind key (late_emissions g ls) ≡ 0
  unfolding late_emissions AllKept late_step
  closed_late_quiet [] g kind key h kept = refl
  closed_late_quiet (prunes now ∷ ls) g kind key h kept =
      closed_late_quiet ls (prune X g now) kind key
        (ap (is_closed kind) (prune-state_of g now key kept.0) ∙ h) kept.1
  closed_late_quiet (happens e ∷ ls) g kind key h kept =
      let next = (step X keccak g e).0 in
      let more =
        closed_late_quiet ls next kind key (step-is_closed X keccak g e kind key h) kept.1 in
      let split = times-append X keccak kind key (step X keccak g e).1 (late_emissions next ls) in
      elim (step_once X keccak g e kind key) [
        | inl none_now ↦ omega arith
        | inr (once, was_open, closed_now) ↦ let clash : true ≡ false = sym h ∙ was_open in cc
      ]

  -- Once a proposal of a request is confirmed on chain, no later pending proposal for the request is
  -- let through; once a dispute of it is confirmed, no later pending call of either kind. Any calls,
  -- confirmations and prunings may follow, as long as each pruning finds the request touched less than
  -- the time to live of a request ago, so that it does not forget it.
  pub late_quiet :
      (g : Gate X) (kind : CallKind) (key : RequestKey) (price : Bytes) (tx : String) (now : ℕ)
      (ls : List Later) (k : CallKind)
      → settles kind k ≡ true
      → AllKept key (on_confirmed X g kind key price tx now) ls
      → times k key (late_emissions (on_confirmed X g kind key price tx now) ls) ≡ 0
  late_quiet g kind key price tx now ls k h kept =
      closed_late_quiet ls (on_confirmed X g kind key price tx now) k key
        (on_confirmed_closes X keccak g kind key price tx now k h) kept

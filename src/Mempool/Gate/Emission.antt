-- ===== src/Mempool/Gate/Emission.antt =====
-- Which pending calls get through, over any sequence of pending calls and confirmations.
use rust_uma.Prelude.{
  ℕ, ◌+◌, ◌≤◌, ◌≡◌, ◌⊎◌, refl, sym, ap, ap₂, ◌∙◌, Bool, true, false, ◌&&◌, List, [], ◌∷◌, ◌++◌,
  arith, String, if◌then◌else◌, Bytes, ◌=?◌, =?_iff, inl, inr, Bool-cases,
}
use rust_uma.Mempool.Call.{
  CallKind, propose, dispute, OracleCall, RequestKey, request_key, request_key_eq,
}
use rust_uma.Mempool.Arith.{Floats}
use rust_uma.Mempool.Gate.{
  Gate, ReqState, Verdict, emit, drops, SenderStat, check, settle, on_confirmed,
}
use rust_uma.Mempool.Gate.Judge.{
  is_closed, state_of, insert-is_closed, state_of-insert, touched-is_closed, check-is_closed,
  check-emit,
}

-- What reaches the gate between two prunings.
pub data Event : Type 0 where
  checks : OracleCall → Bytes → ℕ → String → ℕ → Event
  confirms : CallKind → RequestKey → Bytes → String → ℕ → Event

abbrev kind_beq : CallKind → CallKind → Bool
kind_beq propose propose = true
kind_beq dispute dispute = true
kind_beq _ _ = false

-- A confirmation of the first kind makes pending calls of the second kind late.
abbrev pub settles : CallKind → CallKind → Bool
settles propose k = kind_beq k propose
settles dispute k = true

abbrev pub is_about : CallKind → RequestKey → CallKind × RequestKey → Bool
is_about kind key (k, j) = kind_beq k kind && (j =? key)

abbrev pub times : CallKind → RequestKey → List (CallKind × RequestKey) → ℕ
times kind key [] = 0
times kind key (p ∷ ps) = (if is_about kind key p then 1 else 0) + times kind key ps

module _ (X : Floats) (keccak : Bytes → Bytes) where
  -- The gate after an event, and the call that it let through.
  unfoldable pub step : Gate X → Event → Gate X × List (CallKind × RequestKey)
  step g (checks call sender tip tx now) =
      let (g', verdict) = check X keccak g call sender tip tx now in
      (g', elim verdict [ emit ↦ (call.kind, request_key keccak call) ∷ [] | drops why ↦ [] ])
  step g (confirms kind key price tx now) = (on_confirmed X g kind key price tx now, [])

  -- The calls that get through, in order.
  unfoldable pub emissions : Gate X → List Event → List (CallKind × RequestKey)
  emissions g [] = []
  emissions g (e ∷ es) = let (g', through) = step g e in through ++ emissions g' es

  settle-is_closed :
      (k kind : CallKind) (st : ReqState) (price : Bytes) (senders : List (Bytes × SenderStat))
      → is_closed k st ≡ true
      → is_closed k (settle X kind st price senders).0 ≡ true
  unfolding settle
  settle-is_closed propose propose st price senders h = ground arith
  settle-is_closed propose dispute st price senders h = ground arith
  settle-is_closed dispute propose st price senders h = ground arith
  settle-is_closed dispute dispute st price senders h = ground arith

  settle_closes :
      (kind k : CallKind) (st : ReqState) (price : Bytes) (senders : List (Bytes × SenderStat))
      → settles kind k ≡ true
      → is_closed k (settle X kind st price senders).0 ≡ true
  unfolding settle
  settle_closes propose propose st price senders h = ground arith
  settle_closes propose dispute st price senders h = cc
  settle_closes dispute propose st price senders h = ground arith
  settle_closes dispute dispute st price senders h = ground arith

  on_confirmed-is_closed :
      (g : Gate X) (kind : CallKind) (key : RequestKey) (price : Bytes) (tx : String) (now : ℕ)
      (k : CallKind) (key' : RequestKey)
      → is_closed k (state_of X g key') ≡ true
      → is_closed k (state_of X (on_confirmed X g kind key price tx now) key') ≡ true
  unfolding on_confirmed
  on_confirmed-is_closed g kind key price tx now k key' h =
      insert-is_closed X k key key' _ g.reqs
        (λ same. settle-is_closed k kind _ price g.senders (
          touched-is_closed X k (state_of X g key) now
          ∙ (ap (λ j. is_closed k (state_of X g j)) same ∙ h)))
        h

  pub on_confirmed_closes :
      (g : Gate X) (kind : CallKind) (key : RequestKey) (price : Bytes) (tx : String) (now : ℕ)
      (k : CallKind)
      → settles kind k ≡ true
      → is_closed k (state_of X (on_confirmed X g kind key price tx now) key) ≡ true
  unfolding on_confirmed
  on_confirmed_closes g kind key price tx now k h =
      let same : (key =? key) ≡ true = (=?_iff key key).1 refl in
      rw (state_of-insert X key key _ g.reqs, same) (settle_closes kind k _ price g.senders h)

  pub step-is_closed :
      (g : Gate X) (e : Event) (k : CallKind) (key : RequestKey)
      → is_closed k (state_of X g key) ≡ true
      → is_closed k (state_of X (step g e).0 key) ≡ true
  unfolding step
  step-is_closed g (checks call sender tip tx now) k key h =
      check-is_closed X keccak g call sender tip tx now k key h
  step-is_closed g (confirms kind key' price tx now) k key h =
      on_confirmed-is_closed g kind key' price tx now k key h

  is_about_eq :
      (kind : CallKind) (key : RequestKey) (k : CallKind) (j : RequestKey)
      → is_about kind key (k, j) ≡ true
      → (k ≡ kind) × (j ≡ key)
  is_about_eq kind key k j h = ground (arith, =?_iff j key)

  -- One event lets a call through at most once, only for an open request, which it closes.
  pub step_once :
      (g : Gate X) (e : Event) (kind : CallKind) (key : RequestKey)
      → (times kind key (step g e).1 ≡ 0)
        ⊎ ((times kind key (step g e).1 ≡ 1)
            × (is_closed kind (state_of X g key) ≡ false)
            × (is_closed kind (state_of X (step g e).0 key) ≡ true))
  unfolding step
  step_once g (confirms kind' key' price tx now) kind key = inl refl
  step_once g (checks call sender tip tx now) kind key =
      by_verdict (check X keccak g call sender tip tx now).1 refl
    where
      g' : Gate X
      g' = (check X keccak g call sender tip tx now).0

      through : Verdict → List (CallKind × RequestKey)
      through v = elim v [ emit ↦ (call.kind, request_key keccak call) ∷ [] | drops why ↦ [] ]

      by_verdict :
          (v : Verdict)
          → (check X keccak g call sender tip tx now).1 ≡ v
          → (times kind key (through v) ≡ 0)
            ⊎ ((times kind key (through v) ≡ 1)
                × (is_closed kind (state_of X g key) ≡ false)
                × (is_closed kind (state_of X g' key) ≡ true))
      by_verdict (drops why) e = inl refl
      by_verdict emit e =
          let (was_open, closed_now) = check-emit X keccak g call sender tip tx now e in
          elim (Bool-cases (is_about kind key (call.kind, request_key keccak call))) [
            | inl about ↦
                let (k, j) = is_about_eq kind key call.kind (request_key keccak call) about in
                inr (
                  rw about (omega arith),
                  ap₂ (λ a b. is_closed a (state_of X g b)) (sym k) (sym j) ∙ was_open,
                  ap₂ (λ a b. is_closed a (state_of X g' b)) (sym k) (sym j) ∙ closed_now,
                )
            | inr other ↦ inl (rw other (omega arith))
          ]

  pub times-append :
      (kind : CallKind) (key : RequestKey) (xs ys : List (CallKind × RequestKey))
      → times kind key (xs ++ ys) ≡ times kind key xs + times kind key ys
  times-append kind key [] ys = omega arith
  times-append kind key (x ∷ xs) ys = omega (arith, times-append kind key xs ys)

  -- From a state where a request is closed for a kind of call, no sequence of calls and
  -- confirmations lets a call of that kind for that request through.
  pub closed_quiet :
      (es : List Event) (g : Gate X) (kind : CallKind) (key : RequestKey)
      → is_closed kind (state_of X g key) ≡ true
      → times kind key (emissions g es) ≡ 0
  unfolding emissions
  closed_quiet [] g kind key h = refl
  closed_quiet (e ∷ es) g kind key h =
      let more = closed_quiet es (step g e).0 kind key (step-is_closed g e kind key h) in
      let split = times-append kind key (step g e).1 (emissions (step g e).0 es) in
      elim (step_once g e kind key) [
        | inl none_now ↦ omega arith
        | inr (once, was_open, closed_now) ↦ let clash : true ≡ false = sym h ∙ was_open in cc
      ]

  -- From any state of the gate, whatever sequence of pending calls and confirmations reaches it, at
  -- most one proposal and at most one dispute of a request are let through.
  pub emit_once :
      (es : List Event) (g : Gate X) (kind : CallKind) (key : RequestKey)
      → times kind key (emissions g es) ≤ 1
  unfolding emissions
  emit_once [] g kind key = omega arith
  emit_once (e ∷ es) g kind key =
      let split = times-append kind key (step g e).1 (emissions (step g e).0 es) in
      elim (step_once g e kind key) [
        | inl none_now ↦ omega (arith, emit_once es (step g e).0 kind key)
        | inr (once, was_open, closed_now) ↦
            omega (arith, closed_quiet es (step g e).0 kind key closed_now)
      ]

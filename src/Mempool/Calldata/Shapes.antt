-- ===== src/Mempool/Calldata/Shapes.antt =====
-- The shapes and the number of the decoded calls.
use rust_uma.Prelude.{
  u64_add, ◌≢◌, ℕ, zero, suc, ◌+◌, ◌-◌, ◌*◌, ◌≤◌, ◌≡◌, refl, Option, none, some, List, [], length,
  length-take, length-drop, drop, All, Bytes, arith, replicate, leb, min, Option-cases, inl, inr,
  Bool-cases, ◌&&◌, ◌==◌, subst,
}
use rust_uma.Mempool.Call.{CallKind, propose, dispute, OracleCall}
use rust_uma.Mempool.Calldata.{
  ◌>>=◌, get_range, word, usize_at, dynamic_bytes, address, select, actor_at, price_at, decode_args,
  decode_one, decode_items, decode_multicall, decode_input, in_front, is_multicall,
}

-- `none`, or a result with the property.
abbrev pub Maybe {ℓ} : {A : Type ℓ} → (A → Type 0) → Option A → Type 0
Maybe P none = Unit
Maybe P (some a) = P a

Maybe-bind {ℓ κ} :
    {A : Type ℓ} {B : Type κ} (P : A → Type 0) (Q : B → Type 0) (m : Option A) (f : A → Option B)
    → Maybe P m
    → ((a : A) → P a → Maybe Q (f a))
    → Maybe Q (m >>= f)
Maybe-bind P Q none f h k = tt
Maybe-bind P Q (some a) f h k = k a h

Maybe-implies {ℓ} :
    {A : Type ℓ} (P Q : A → Type 0) (m : Option A) → Maybe P m → ((a : A) → P a → Q a) → Maybe Q m
Maybe-implies P Q none h k = tt
Maybe-implies P Q (some a) h k = k a h

abbrev Anything {ℓ} : {A : Type ℓ} → A → Type 0
Anything a = Unit

Maybe-any {ℓ} : {A : Type ℓ} (m : Option A) → Maybe Anything m
Maybe-any none = tt
Maybe-any (some a) = tt

abbrev pub Sized : ℕ → Bytes → Type 0
Sized n b = length b ≡ n

range-Sized : (b : Bytes) (from to : ℕ) → Maybe (Sized (to - from)) (get_range b from to)
unfolding get_range
range-Sized b from to = elim (Bool-cases (leb from to && leb to (length b))) [
  | inl fits ↦ rw fits (ground (arith, length-take (to - from) (drop from b), length-drop from b))
  | inr not_fit ↦ rw not_fit tt
]

word-Sized : (b : Bytes) (i : ℕ) → Maybe (Sized 32) (word b i)
unfolding word
word-Sized b i =
    subst (λ n. Maybe (Sized n) (word b i)) (omega arith) (range-Sized b (i * 32) ((i + 1) * 32))

address-Sized : (w : Bytes) → Sized 32 w → Sized 20 (address w)
unfolding address
address-Sized w h = omega (arith, h, length-drop 12 w)

-- The shape of a decoded call: addresses have 20 bytes and words 32, and a dispute has no price.
pub record IsShaped (call : OracleCall) : Type 0 where
  pub requester : Sized 20 call.requester
  pub identifier : Sized 32 call.identifier
  pub timestamp : Sized 32 call.timestamp
  pub price : Sized 32 call.price
  pub actor : Maybe (Sized 20) call.actor
  pub no_price : call.kind ≡ dispute → call.price ≡ replicate 32 0

actor-Sized : (args : Bytes) (o : ℕ) → Maybe (Maybe (Sized 20)) (actor_at args o)
unfolding actor_at
actor-Sized args o = elim (Bool-cases (o == 1)) [
  | inl one ↦
      rw one
        (Maybe-bind (Sized 32) (Maybe (Sized 20)) (word args 0) _ (word-Sized args 0) address-Sized)
  | inr other ↦ rw other tt
]

abbrev PriceFor : CallKind → Bytes → Type 0
PriceFor kind price = Sized 32 price × (kind ≡ dispute → price ≡ replicate 32 0)

propose-dispute : propose ≢ dispute
propose-dispute e = cc

price-Sized :
    (args : Bytes) (kind : CallKind) (i : ℕ) → Maybe (PriceFor kind) (price_at args kind i)
unfolding price_at
price-Sized args propose i =
    Maybe-implies (Sized 32) (PriceFor propose) (word args i) (word-Sized args i)
      (λ w h. (h, λ e. absurd (propose-dispute e)))
price-Sized args dispute i = (refl, λ e. refl)

decode_args-IsShaped :
    (kind : CallKind) (o : ℕ) (args : Bytes) → Maybe IsShaped (decode_args kind o args)
unfolding decode_args
decode_args-IsShaped kind o args =
    Maybe-bind (Maybe (Sized 20)) IsShaped (actor_at args o) _ (actor-Sized args o)
      (λ actor has_actor.
        Maybe-bind (Sized 32) IsShaped (word args o) _ (word-Sized args o)
          (λ requester has_requester.
            Maybe-bind (Sized 32) IsShaped (word args (o + 1)) _ (word-Sized args (o + 1))
              (λ identifier has_identifier.
                Maybe-bind (Sized 32) IsShaped (word args (o + 2)) _ (word-Sized args (o + 2))
                  (λ timestamp has_timestamp.
                    Maybe-bind Anything IsShaped (dynamic_bytes args (o + 3)) _ (Maybe-any _)
                      (λ ancillary unit.
                        Maybe-bind (PriceFor kind) IsShaped (price_at args kind (o + 4)) _
                          (price-Sized args kind (o + 4))
                          (λ price has_price. record {
                            requester = address-Sized requester has_requester;
                            identifier = has_identifier;
                            timestamp = has_timestamp;
                            price = has_price.0;
                            actor = has_actor;
                            no_price = has_price.1;
                          }))))))

decode_one-IsShaped : (call : Bytes) → Maybe IsShaped (decode_one call)
unfolding decode_one
decode_one-IsShaped call =
    Maybe-bind Anything IsShaped (get_range call 0 4) _ (Maybe-any _) (λ sel u.
      Maybe-bind Anything IsShaped (get_range call 4 (length call)) _ (Maybe-any _) (λ args v.
        Maybe-bind Anything IsShaped (select sel) _ (Maybe-any _)
          (λ chosen w. decode_args-IsShaped chosen.0 chosen.1 args)))

in_front-All :
    (o : Option OracleCall) (calls : List OracleCall)
    → Maybe IsShaped o
    → All IsShaped calls
    → All IsShaped (in_front o calls)
in_front-All none calls h k = k
in_front-All (some call) calls h k = (h, k)

-- Shaped calls, at most so many.
abbrev pub Shaped : ℕ → List OracleCall → Type 0
Shaped n calls = All IsShaped calls × (length calls ≤ n)

in_front-Shaped :
    (o : Option OracleCall) (calls : List OracleCall) (n : ℕ)
    → Maybe IsShaped o
    → Shaped n calls
    → Shaped (suc n) (in_front o calls)
in_front-Shaped none calls n h k = (k.0, omega (arith, k.1))
in_front-Shaped (some call) calls n h k = ((h, k.0), omega (arith, k.1))

item-Shaped : (o : Option Bytes) → Maybe IsShaped (o >>= decode_one)
item-Shaped none = tt
item-Shaped (some call) = decode_one-IsShaped call

decode_items-Shaped :
    (args : Bytes) (base i count : ℕ) → Shaped count (decode_items args base i count)
unfolding decode_items
decode_items-Shaped args base i zero = (tt, omega arith)
decode_items-Shaped args base i (suc count) =
    elim (Option-cases (usize_at args (u64_add base (32 * i)))) [
      | inl bad ↦ rw (decode_items, bad) (tt, omega arith)
      | inr (eo, good) ↦ elim (Option-cases (usize_at args (u64_add base eo))) [
        | inl short ↦ rw (decode_items, good, short) (tt, omega arith)
        | inr (len, sized) ↦
            rw (decode_items, good, sized)
              (in_front-Shaped _ _ count (item-Shaped _)
                (decode_items-Shaped args base (suc i) count))
      ]
    ]

decode_multicall-Shaped : (args : Bytes) → Shaped 256 (decode_multicall args)
unfolding decode_multicall
decode_multicall-Shaped args = elim (Option-cases (usize_at args 0)) [
  | inl bad ↦ rw (decode_multicall, bad) (tt, omega arith)
  | inr (off, good) ↦ elim (Option-cases (usize_at args off)) [
    | inl short ↦ rw (decode_multicall, good, short) (tt, omega arith)
    | inr (n, counted) ↦
        rw (decode_multicall, good, counted)
          (let all = decode_items-Shaped args (u64_add off 32) 0 (min n 256) in
            (all.0, omega (arith, all.1)))
  ]
]

-- Whatever the input, at most 256 calls come out of it, and each of them has addresses of 20 bytes
-- and words of 32, and the price 0 if it is a dispute.
pub decode_input_lem : (input : Bytes) → Shaped 256 (decode_input input)
unfolding decode_input
decode_input_lem input = elim (Bool-cases (is_multicall (get_range input 0 4))) [
  | inl many ↦ rw many (decode_multicall-Shaped (drop 4 input))
  | inr one ↦ rw one (
      let all =
        in_front-Shaped (decode_one input) [] 0 (decode_one-IsShaped input) (tt, omega arith) in
      (all.0, omega (arith, all.1)))
]

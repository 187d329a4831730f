-- ===== src/Mempool/Calldata.antt =====
-- src/mempool/calldata.rs: the calls that the input of a transaction holds. Bytes are numbers below
-- 256. Sums of positions wrap at 2 ^ 64, and a range that then runs backwards is no range.
use rust_uma.Prelude.{
  ℕ, zero, suc, ◌+◌, ◌-◌, ◌*◌, ◌==◌, Bool, true, false, not, ◌&&◌, Option, none, some, List, [],
  ◌∷◌, ◌++◌, if◌then◌else◌, leb, min, length, take, drop, any, replicate, Bytes, ◌=?◌, bytes_eq,
  u64_add,
}
use rust_uma.Mempool.Call.{CallKind, propose, dispute, OracleCall, u64_word}
pub mod Shapes

infixl 5 ◌>>=◌
abbrev pub ◌>>=◌ {ℓ κ} : {A : Type ℓ} {B : Type κ} → Option A → (A → Option B) → Option B
none >>= f = none
some a >>= f = f a

-- `b.get(from..to)`.
unfoldable pub get_range : Bytes → ℕ → ℕ → Option Bytes
get_range b from to =
    if leb from to && leb to (length b) then some (take (to - from) (drop from b)) else none

unfoldable pub word : Bytes → ℕ → Option Bytes
word b i = get_range b (i * 32) ((i + 1) * 32)

abbrev pub is_nonzero : ℕ → Bool
is_nonzero x = not (x == 0)

unfoldable pub small_word : Bytes → Option ℕ
small_word w = if any is_nonzero (take 24 w) then none else some (u64_word w)

unfoldable pub usize_at : Bytes → ℕ → Option ℕ
usize_at b offset = do w ← get_range b offset (u64_add offset 32); small_word w

unfoldable pub dynamic_bytes : Bytes → ℕ → Option Bytes
dynamic_bytes args head_index = do
  off ← usize_at args (head_index * 32)
  len ← usize_at args off
  get_range args (u64_add off 32) (u64_add (u64_add off 32) len)

unfoldable pub address : Bytes → Bytes
address w = drop 12 w

abbrev pub sel_propose : Bytes
sel_propose = 184 ∷ 180 ∷ 249 ∷ 8 ∷ []

abbrev pub sel_propose_for : Bytes
sel_propose_for = 124 ∷ 130 ∷ 40 ∷ 143 ∷ []

abbrev pub sel_dispute : Bytes
sel_dispute = 251 ∷ 167 ∷ 241 ∷ 227 ∷ []

abbrev pub sel_dispute_for : Bytes
sel_dispute_for = 118 ∷ 199 ∷ 130 ∷ 63 ∷ []

abbrev pub sel_multicall : Bytes
sel_multicall = 172 ∷ 150 ∷ 80 ∷ 216 ∷ []

-- The kind of a call, and how many words stand before the requester.
unfoldable pub select : Bytes → Option (CallKind × ℕ)
select s =
    if s =? sel_propose
    then some (propose, 0)
    else if s =? sel_propose_for
    then some (propose, 1)
    else if s =? sel_dispute
    then some (dispute, 0)
    else if s =? sel_dispute_for
    then some (dispute, 1)
    else none

unfoldable pub actor_at : Bytes → ℕ → Option (Option Bytes)
actor_at args o = if o == 1 then (do w ← word args 0; some (some (address w))) else some none

unfoldable pub price_at : Bytes → CallKind → ℕ → Option Bytes
price_at args propose i = word args i
price_at args dispute i = some (replicate 32 0)

unfoldable pub decode_args : CallKind → ℕ → Bytes → Option OracleCall
decode_args kind o args = do
  actor ← actor_at args o
  requester ← word args o
  identifier ← word args (o + 1)
  timestamp ← word args (o + 2)
  ancillary ← dynamic_bytes args (o + 3)
  price ← price_at args kind (o + 4)
  some (record {
    kind = kind;
    requester = address requester;
    identifier = identifier;
    timestamp = timestamp;
    ancillary = ancillary;
    price = price;
    actor = actor;
  })

unfoldable pub decode_one : Bytes → Option OracleCall
decode_one call = do
  sel ← get_range call 0 4
  args ← get_range call 4 (length call)
  chosen ← select sel
  decode_args chosen.0 chosen.1 args

abbrev pub in_front : Option OracleCall → List OracleCall → List OracleCall
in_front none calls = calls
in_front (some call) calls = call ∷ calls

-- The loop of a multicall: `count` more items from item `i`; a bad offset or length ends it.
unfoldable pub decode_items : Bytes → ℕ → ℕ → ℕ → List OracleCall
decode_items args base i zero = []
decode_items args base i (suc count) =
    let rest = decode_items args base (suc i) count in
    elim (usize_at args (u64_add base (32 * i))) [
      | none ↦ []
      | some eo ↦ elim (usize_at args (u64_add base eo)) [
        | none ↦ []
        | some len ↦
            let start = u64_add (u64_add base eo) 32 in
            in_front (get_range args start (u64_add start len) >>= decode_one) rest
      ]
    ]

unfoldable pub decode_multicall : Bytes → List OracleCall
decode_multicall args = elim (usize_at args 0) [
  | none ↦ []
  | some off ↦ elim (usize_at args off) [
    | none ↦ []
    | some n ↦ decode_items args (u64_add off 32) 0 (min n 256)
  ]
]

abbrev pub is_multicall : Option Bytes → Bool
is_multicall none = false
is_multicall (some s) = s =? sel_multicall

unfoldable pub decode_input : Bytes → List OracleCall
decode_input input =
    if is_multicall (get_range input 0 4)
    then decode_multicall (drop 4 input)
    else in_front (decode_one input) []

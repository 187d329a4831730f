-- ===== src/Edge/Parse/Fuel.antt =====
-- How much the cursor moves, and the fuel of the loops.
use rust_uma.Prelude.{
  ℕ, zero, suc, ◌+◌, ◌-◌, ◌≤◌, max, ◌≡◌, refl, [], ◌∷◌, ltb, leb, length, length-drop, Bytes, arith,
  inl, inr, Bool-cases, ◌==◌, ◌&&◌, ◌/◌, ◌%◌,
}
use rust_uma.Edge.Parse.{
  Result, ok, err, varint_from, varint, advance, bytes, skip, event_field, walk_event_from,
  walk_event, shifted, ◌>>=◌, batch_field, walk_batch_from, walk_batch, FrameInfo,
}

-- What is left after a read, if it succeeds, is at most `n` bytes.
abbrev pub Leaves {ℓ} : {A : Type ℓ} → ℕ → Result (A × Bytes) → Type 0
Leaves n (ok read) = length read.1 ≤ n
Leaves n (err e) = Unit

Leaves-weaken {ℓ} :
    {A : Type ℓ} (m n : ℕ) (r : Result (A × Bytes)) → m ≤ n → Leaves m r → Leaves n r
Leaves-weaken m n (ok read) le h = omega (arith, h)
Leaves-weaken m n (err e) le h = tt

Leaves-bind {ℓ κ} :
    {A : Type ℓ} {B : Type κ} (m n : ℕ) (r : Result (A × Bytes))
    (f : A × Bytes → Result (B × Bytes))
    → Leaves m r
    → ((read : A × Bytes) → length read.1 ≤ m → Leaves n (f read))
    → Leaves n (r >>= f)
Leaves-bind m n (ok read) f h k = k read h
Leaves-bind m n (err e) f h k = tt

varint_from-Leaves :
    (value shift : ℕ) (buf : Bytes) → Leaves (length buf - 1) (varint_from value shift buf)
unfolding varint_from
varint_from-Leaves value shift [] = tt
varint_from-Leaves value shift (b ∷ buf) = elim (Bool-cases (ltb b 128)) [
  | inl last ↦ rw last (omega arith)
  | inr more ↦ elim (Bool-cases (ltb 70 (shift + 7))) [
    | inl long ↦ rw (more, long) tt
    | inr short ↦
        rw (more, short)
          (Leaves-weaken (length buf - 1) (length (b ∷ buf) - 1)
            (varint_from (value + shifted b shift) (shift + 7) buf) (omega arith)
            (varint_from-Leaves (value + shifted b shift) (shift + 7) buf))
  ]
]

varint-Leaves : (buf : Bytes) → Leaves (length buf - 1) (varint buf)
unfolding varint
varint-Leaves buf = varint_from-Leaves 0 0 buf

abbrev Left : ℕ → Result Bytes → Type 0
Left n (ok rest) = length rest ≤ n
Left n (err e) = Unit

advance-Left : (n : ℕ) (buf : Bytes) → Left (length buf) (advance n buf)
unfolding advance
advance-Left n buf = elim (Bool-cases (leb n (length buf))) [
  | inl fits ↦ rw fits (omega (arith, length-drop n buf))
  | inr too_long ↦ rw too_long tt
]

Left-bind {κ} :
    {B : Type κ} (m n : ℕ) (r : Result Bytes) (f : Bytes → Result (B × Bytes))
    → Left m r
    → ((rest : Bytes) → length rest ≤ m → Leaves n (f rest))
    → Leaves n (r >>= f)
Left-bind m n (ok rest) f h k = k rest h
Left-bind m n (err e) f h k = tt

Leaves-Left {ℓ} :
    {A : Type ℓ} (n : ℕ) (r : Result (A × Bytes)) → Leaves n r → Left n (r >>= λ read. ok read.1)
Leaves-Left n (ok read) h = h
Leaves-Left n (err e) h = tt

bytes-Leaves : (buf : Bytes) → Leaves (length buf) (bytes buf)
unfolding bytes
bytes-Leaves buf =
    Leaves-bind (length buf - 1) (length buf) (varint buf) _ (varint-Leaves buf) (λ counted h.
      Left-bind (length counted.1) (length buf) (advance counted.0 counted.1) _
        (advance-Left counted.0 counted.1) (λ rest k. omega (arith, h, k)))

skip-Left : (wire : ℕ) (buf : Bytes) → Left (length buf) (skip wire buf)
unfolding skip
skip-Left wire buf = elim (Bool-cases (wire == 0)) [
  | inl zero_type ↦ rw zero_type (
      Leaves-Left (length buf) (varint buf) (
        Leaves-weaken (length buf - 1) (length buf) (varint buf) (omega arith) (varint-Leaves buf)))
  | inr n0 ↦ elim (Bool-cases (wire == 1)) [
    | inl one ↦ rw (n0, one) (advance-Left 8 buf)
    | inr n1 ↦ elim (Bool-cases (wire == 2)) [
      | inl two ↦ rw (n0, n1, two) (Leaves-Left (length buf) (bytes buf) (bytes-Leaves buf))
      | inr n2 ↦ elim (Bool-cases (wire == 5)) [
        | inl five ↦ rw (n0, n1, n2, five) (advance-Left 4 buf)
        | inr n5 ↦ rw (n0, n1, n2, n5) tt
      ]
    ]
  ]
]

skip-Leaves {κ} :
    {B : Type κ} (m wire : ℕ) (buf : Bytes) (b : B)
    → length buf ≤ m
    → Leaves m (skip wire buf >>= λ rest. ok (b, rest))
skip-Leaves m wire buf b le =
    Left-bind (length buf) m (skip wire buf) _ (skip-Left wire buf) (λ rest h. omega (arith, h, le))

varint-within : (m : ℕ) (buf : Bytes) → length buf ≤ m → Leaves m (varint buf)
varint-within m buf le =
    Leaves-weaken (length buf - 1) m (varint buf) (omega (arith, le)) (varint-Leaves buf)

event_field-Leaves : (seq : ℕ) (buf : Bytes) → Leaves (length buf - 1) (event_field seq buf)
unfolding event_field
event_field-Leaves seq buf =
    Leaves-bind (length buf - 1) (length buf - 1) (varint buf) _ (varint-Leaves buf) (λ key h.
      elim (Bool-cases (key.0 / 8 == 1 && (key.0 % 8 == 0))) [
        | inl sequence ↦ rw sequence (varint-within (length buf - 1) key.1 h)
        | inr other ↦ rw other (skip-Leaves (length buf - 1) (key.0 % 8) key.1 seq h)
      ])

event-Leaves :
    (m : ℕ) (info : FrameInfo) (event : Bytes × Bytes)
    → length event.1 ≤ m
    → (walked : Result ℕ)
    → Leaves m (
        walked >>= λ seq.
        ok (record info { last_event_sequence = max info.last_event_sequence seq }, event.1))
event-Leaves m info event k (ok seq) = k
event-Leaves m info event k (err e) = tt

batch_field-Leaves :
    (info : FrameInfo) (buf : Bytes) → Leaves (length buf - 1) (batch_field info buf)
unfolding batch_field
batch_field-Leaves info buf =
    let m = length buf - 1 in
    Leaves-bind m m (varint buf) _ (varint-Leaves buf) (λ key h.
      elim (Bool-cases (key.0 / 8 == 2 && (key.0 % 8 == 0))) [
        | inl batch ↦
            rw batch (Leaves-bind m m (varint key.1) _ (varint-within m key.1 h) (λ read k. k))
        | inr n2 ↦ elim (Bool-cases (key.0 / 8 == 3 && (key.0 % 8 == 0))) [
          | inl sent ↦
              rw (n2, sent)
                (Leaves-bind m m (varint key.1) _ (varint-within m key.1 h) (λ read k. k))
          | inr n3 ↦ elim (Bool-cases (key.0 / 8 == 4 && (key.0 % 8 == 2))) [
            | inl event ↦
                rw (n2, n3, event)
                  (Leaves-bind m m (bytes key.1) _
                    (Leaves-weaken (length key.1) m (bytes key.1) h (bytes-Leaves key.1))
                    (λ event k. event-Leaves m info event k (walk_event event.0)))
            | inr n4 ↦ rw (n2, n3, n4) (skip-Leaves m (key.0 % 8) key.1 info h)
          ]
        ]
      ])

bind-same {ℓ κ} :
    {A : Type ℓ} {B : Type κ} (m : ℕ) (r : Result (A × Bytes)) (f g : A × Bytes → Result B)
    → Leaves m r
    → ((read : A × Bytes) → length read.1 ≤ m → f read ≡ g read)
    → (r >>= f) ≡ (r >>= g)
bind-same m (ok read) f g h k = k read h
bind-same m (err e) f g h k = refl

walk_event_from-same :
    (i j seq : ℕ) (buf : Bytes)
    → length buf ≤ i
    → length buf ≤ j
    → walk_event_from i seq buf ≡ walk_event_from j seq buf
unfolding walk_event_from
walk_event_from-same i j seq [] hi hj = refl
walk_event_from-same zero j seq (b ∷ bs) hi hj = ground arith
walk_event_from-same (suc i) zero seq (b ∷ bs) hi hj = ground arith
walk_event_from-same (suc i) (suc j) seq (b ∷ bs) hi hj =
    bind-same (length (b ∷ bs) - 1) (event_field seq (b ∷ bs)) _ _ (event_field-Leaves seq (b ∷ bs))
      (λ next h. walk_event_from-same i j next.0 next.1 (omega (arith, h)) (omega (arith, h)))

walk_batch_from-same :
    (i j : ℕ) (info : FrameInfo) (buf : Bytes)
    → length buf ≤ i
    → length buf ≤ j
    → walk_batch_from i info buf ≡ walk_batch_from j info buf
unfolding walk_batch_from
walk_batch_from-same i j info [] hi hj = refl
walk_batch_from-same zero j info (b ∷ bs) hi hj = ground arith
walk_batch_from-same (suc i) zero info (b ∷ bs) hi hj = ground arith
walk_batch_from-same (suc i) (suc j) info (b ∷ bs) hi hj =
    bind-same (length (b ∷ bs) - 1) (batch_field info (b ∷ bs)) _ _
      (batch_field-Leaves info (b ∷ bs))
      (λ next h. walk_batch_from-same i j next.0 next.1 (omega (arith, h)) (omega (arith, h)))

-- On bytes that are not empty, the walk over a batch takes one field and goes on with what is left,
-- however many turns that makes: the length of the bytes is enough fuel. So does the walk over an
-- event.
pub walk_terminates :
    (info : FrameInfo) (seq b : ℕ) (bs : Bytes)
    → (walk_batch (b ∷ bs) info ≡ (batch_field info (b ∷ bs) >>= λ next. walk_batch next.1 next.0))
      × (walk_event_from (length (b ∷ bs)) seq (b ∷ bs)
          ≡ (event_field seq (b ∷ bs) >>= λ next. walk_event_from (length next.1) next.0 next.1))
unfolding walk_batch walk_batch_from walk_event_from
walk_terminates info seq b bs = (
  bind-same (length (b ∷ bs) - 1) (batch_field info (b ∷ bs)) _ _ (batch_field-Leaves info (b ∷ bs))
      (λ next h.
        walk_batch_from-same (length bs) (length next.1) next.0 next.1 (omega (arith, h))
          (omega arith)),
  bind-same (length (b ∷ bs) - 1) (event_field seq (b ∷ bs)) _ _ (event_field-Leaves seq (b ∷ bs))
      (λ next h.
        walk_event_from-same (length bs) (length next.1) next.0 next.1 (omega (arith, h))
          (omega arith)),
)

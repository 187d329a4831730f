-- ===== src/Edge/Parse/Varint.antt =====
-- A number as protobuf writes it, and what src/edge/frame.rs reads of it.
use native.Mathlib.Nat.{pow-succ'}
use rust_uma.Prelude.{
  ℕ, zero, suc, ◌+◌, ◌*◌, ◌/◌, ◌%◌, ◌^◌, ◌<◌, ◌≤◌, ◌≡◌, arith, ap, ◌∙◌, Bytes, [], ◌∷◌, ◌++◌,
  if◌then◌else◌, ltb, Bool-cases, inl, inr, true, false,
}
use rust_uma.Edge.Parse.{ok, varint_from, varint, shifted}

two_pow7 : (s : ℕ) → 2 ^ (s + 7) ≡ 128 * 2 ^ s
two_pow7 s =
    let e : s + 7 ≡ suc (suc (suc (suc (suc (suc (suc s)))))) = omega arith in
    rw (e, pow-succ') (omega arith)

distrib : (a b p : ℕ) → a * p + b * (128 * p) ≡ (a + 128 * b) * p
distrib a b p = grind arith

low_high : (n p : ℕ) → (n % 128) * p + (n / 128) * (128 * p) ≡ n * p
low_high n p = distrib (n % 128) (n / 128) p ∙ ap (λ k. k * p) (omega arith)

-- Seven bits at a time, the low ones first; the high bit says that more follow.
unfoldable pub encode_varint : ℕ → ℕ → Bytes
encode_varint zero n = []
encode_varint (suc k) n =
    let rest = encode_varint k (n / 128) in if ltb n 128 then n ∷ [] else (128 + n % 128) ∷ rest

shifted-eq : (b s : ℕ) → s < 64 → (b % 128) * 2 ^ s < 2 ^ 64 → shifted b s ≡ (b % 128) * 2 ^ s
shifted-eq b s h fits =
    let small : ltb s 64 ≡ true = ground (arith, h) in rw small (omega (arith, fits))

encode_varint_last :
    (k n value s : ℕ) (rest : Bytes)
    → s + 7 * suc k ≤ 70
    → n * 2 ^ s < 2 ^ 64
    → ltb n 128 ≡ true
    → varint_from value s (encode_varint (suc k) n ++ rest) ≡ ok (value + n * 2 ^ s, rest)
unfolding varint_from encode_varint
encode_varint_last k n value s rest short fits last =
    let product : (n % 128) * 2 ^ s ≡ n * 2 ^ s =
      ap (λ a. a * 2 ^ s) (let e : n % 128 ≡ n = ground (arith, last) in e) in
    rw (last, last)
      (ap (λ a. ok (value + a, rest))
        (shifted-eq n s (omega (arith, short)) (omega (arith, fits, product)) ∙ product))

varint_from-encode_varint :
    (k n value s : ℕ) (rest : Bytes)
    → s + 7 * suc k ≤ 70
    → n * 2 ^ s < 2 ^ 64
    → n < 2 ^ (7 * suc k)
    → varint_from value s (encode_varint (suc k) n ++ rest) ≡ ok (value + n * 2 ^ s, rest)
unfolding varint_from encode_varint
varint_from-encode_varint zero n value s rest short fits most =
    encode_varint_last zero n value s rest short fits (ground (arith, most))
varint_from-encode_varint (suc j) n value s rest short fits most = elim (Bool-cases (ltb n 128)) [
  | inl last ↦ encode_varint_last (suc j) n value s rest short fits last
  | inr more ↦
      let high : ltb (128 + n % 128) 128 ≡ false = ground arith in
      let goes_on : ltb 70 (s + 7) ≡ false = ground (arith, short) in
      let sevens : 2 ^ (7 * suc (suc j)) ≡ 128 * 2 ^ (7 * suc j) =
        ap (λ e. 2 ^ e) (omega arith) ∙ two_pow7 (7 * suc j) in
      rw (more, high, goes_on, first)
        (varint_from-encode_varint j (n / 128) (value + (n % 128) * 2 ^ s) (s + 7) rest
            (omega (arith, short)) (omega (arith, sum, fits)) (omega (arith, most, sevens))
          ∙ ap (λ a. ok (a, rest)) (omega (arith, sum)))
]
  where
    low : (n % 128) * 2 ^ s < 2 ^ 64
    low = omega (arith, low_high n (2 ^ s), fits)

    byte : ((128 + n % 128) % 128) * 2 ^ s ≡ (n % 128) * 2 ^ s
    byte = ap (λ a. a * 2 ^ s) (omega arith)

    first : shifted (128 + n % 128) s ≡ (n % 128) * 2 ^ s
    first = shifted-eq (128 + n % 128) s (omega (arith, short)) (omega (arith, byte, low)) ∙ byte

    sum : (n % 128) * 2 ^ s + (n / 128) * 2 ^ (s + 7) ≡ n * 2 ^ s
    sum = ap (λ q. (n % 128) * 2 ^ s + (n / 128) * q) (two_pow7 s) ∙ low_high n (2 ^ s)

-- A u64 takes at most ten bytes.
abbrev pub varint_bytes : ℕ → Bytes
varint_bytes n = encode_varint 10 n

pub varint-varint_bytes :
    (n : ℕ) (rest : Bytes) → n < 2 ^ 64 → varint (varint_bytes n ++ rest) ≡ ok (n, rest)
unfolding varint
varint-varint_bytes n rest fits =
    let one : n * 2 ^ 0 ≡ n = omega arith in
    varint_from-encode_varint 9 n 0 0 rest (omega arith) (omega (arith, fits, one))
      (omega (arith, fits))
    ∙ ap (λ a. ok (a, rest)) (omega (arith, one))

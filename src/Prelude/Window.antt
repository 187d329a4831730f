-- ===== src/Prelude/Window.antt =====
-- The last `n` items of a sequence: what a bounded ring holds of everything pushed to it.
use Prim.Native.Nat.{ℕ, zero, suc, ◌+◌, ◌-◌, ◌≤◌}
use mathlib.Core.Path.{◌≡◌, refl, ap}
use mathlib.Core.List.{List, [], ◌∷◌, ◌++◌}
use native.Mathlib.Omega.{arith}
use rust_uma.Prelude.Lists.{length, drop, take, length-append, length-drop}

module _ {ℓ} {A : Type ℓ} where
  abbrev pub last_n : ℕ → List A → List A
  last_n n xs = drop (length xs - n) xs

  -- What is before the last `n` items.
  abbrev pub older : ℕ → List A → List A
  older n xs = take (length xs - n) xs

module _ {ℓ} {A : Type ℓ} where
  pub take-append-drop : (n : ℕ) (xs : List A) → take n xs ++ drop n xs ≡ xs
  take-append-drop zero xs = refl
  take-append-drop (suc n) [] = refl
  take-append-drop (suc n) (x ∷ xs) = ap (λ r. x ∷ r) (take-append-drop n xs)

  pub drop-append : (n : ℕ) (xs ys : List A) → n ≤ length xs → drop n (xs ++ ys) ≡ drop n xs ++ ys
  drop-append zero xs ys h = refl
  drop-append (suc n) [] ys h = absurd (omega arith)
  drop-append (suc n) (x ∷ xs) ys h = drop-append n xs ys (omega arith)

  pub drop-suc : (n : ℕ) (xs : List A) → drop (suc n) xs ≡ drop 1 (drop n xs)
  drop-suc zero xs = refl
  drop-suc (suc n) [] = refl
  drop-suc (suc n) (x ∷ xs) = drop-suc n xs

  pub drop-drop : (m n : ℕ) (xs : List A) → drop m (drop n xs) ≡ drop (n + m) xs
  drop-drop m zero xs = let e : m ≡ zero + m = omega arith in ap (λ k. drop k xs) e
  drop-drop zero (suc n) [] = let e : suc n ≡ suc n + zero = omega arith in rw (← e)
  drop-drop (suc m) (suc n) [] = let e : suc n + suc m ≡ suc (n + suc m) = omega arith in rw e
  drop-drop m (suc n) (x ∷ xs) =
      let e : suc n + m ≡ suc (n + m) = omega arith in rw e (drop-drop m n xs)

  -- Dropping down to `n` items twice, with an item pushed in between, is dropping once.
  pub last_n-push : (n : ℕ) (xs ys : List A) → last_n n (last_n n xs ++ ys) ≡ last_n n (xs ++ ys)
  last_n-push n xs ys = rw (← drop-append k xs ys (omega arith), drop-drop, counts)
    where
      k : ℕ
      k = length xs - n

      counts : k + (length (drop k (xs ++ ys)) - n) ≡ length (xs ++ ys) - n
      counts = omega (arith, length-append xs ys, length-drop k (xs ++ ys))

  take-add-append :
      (k j : ℕ) (xs ys : List A)
      → k ≤ length xs
      → take (k + j) (xs ++ ys) ≡ take k xs ++ take j (drop k xs ++ ys)
  take-add-append zero j xs ys h = let e : zero + j ≡ j = omega arith in rw e
  take-add-append (suc k) j [] ys h = absurd (omega arith)
  take-add-append (suc k) j (x ∷ xs) ys h =
      let e : suc k + j ≡ suc (k + j) = omega arith in
      rw e (ap (λ r. x ∷ r) (take-add-append k j xs ys (omega arith)))

  -- What leaves a bounded ring when items are pushed follows what had left it before.
  pub older-push :
      (n : ℕ) (xs ys : List A) → older n (xs ++ ys) ≡ older n xs ++ older n (last_n n xs ++ ys)
  older-push n xs ys =
      rw counts (take-add-append k (length (drop k xs ++ ys) - n) xs ys (omega arith))
    where
      k : ℕ
      k = length xs - n

      counts : length (xs ++ ys) - n ≡ k + (length (drop k xs ++ ys) - n)
      counts = omega (arith, length-append xs ys, length-append (drop k xs) ys, length-drop k xs)

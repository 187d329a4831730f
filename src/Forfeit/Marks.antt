-- ===== src/Forfeit/Marks.antt =====
-- Texts for lists of numbers that can be read back, for the tests.
use Prim.Native.String.{[] as end_of_text, ◌∷◌ as ◌∷ᶜ◌}
use Prim.Native.Char.{code}
use rust_uma.Prelude.{
  ℕ, suc, zero, ◌+◌, ◌==◌, if◌then◌else◌, ◌∙◌, arith, ◌≡◌, refl, ap, Option, none, some, [], ◌∷◌,
  String, Bytes,
}
use rust_uma.Forfeit.{Hex}

-- A text for a list of numbers: as many marks as each says, and a comma after it.
abbrev digits : ℕ → String → String
digits zero rest = "," ∷ᶜ rest
digits (suc n) rest = "1" ∷ᶜ digits n rest

abbrev text_of : Bytes → String
text_of [] = end_of_text
text_of (b ∷ bs) = digits b (text_of bs)

abbrev with_first : ℕ → Option Bytes → Option Bytes
with_first n none = none
with_first n (some bs) = some (n ∷ bs)

-- `n` marks of the next number are read.
abbrev read_from : ℕ → String → Option Bytes
read_from n end_of_text = if n == 0 then some [] else none
read_from n (c ∷ᶜ s) =
    let closed = with_first n (read_from 0 s) in
    let longer = read_from (suc n) s in if code c == 44 then closed else longer

read_from-digits :
    (n b : ℕ) (rest : String) → read_from n (digits b rest) ≡ with_first (n + b) (read_from 0 rest)
read_from-digits n zero rest = ap (λ k. with_first k (read_from 0 rest)) (omega arith)
read_from-digits n (suc b) rest =
    read_from-digits (suc n) b rest ∙ ap (λ k. with_first k (read_from 0 rest)) (omega arith)

pub read-text_of : (bs : Bytes) → read_from 0 (text_of bs) ≡ some bs
read-text_of [] = refl
read-text_of (b ∷ bs) =
    read_from-digits 0 b (text_of bs)
    ∙ (ap (λ k. with_first k (read_from 0 (text_of bs))) (omega arith)
        ∙ ap (with_first b) (read-text_of bs))

abbrev pub marks : Hex
marks = record { hex_prefixed = text_of; read = read_from 0; round_trip = read-text_of }

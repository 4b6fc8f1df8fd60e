-- ===== src/Fault/Registers.antt =====
-- The hexadecimal words of the hard fault report, src/kernel/fault.c.
use tinyrtos.Prelude.{
  ℕ, ◌+◌, ◌-◌, ◌*◌, ◌/◌, ◌%◌, ◌^◌, ◌<◌, ◌≡◌, refl, List, [], ◌∷◌, ◌++◌, get_or, length, codes, ltb,
  ◌==◌, ==_iff, if◌then◌else◌, checked_lem, arith,
}
use tinyrtos.Fault.{hex_digit, fault_write_hex32}

-- The digit that a character stands for.
abbrev pub digit_of : ℕ → ℕ
digit_of c = if ltb c 58 then c - 48 else c - 55

-- The number that hexadecimal digits stand for, after `n`.
abbrev pub hex_from : ℕ → List ℕ → ℕ
hex_from n [] = n
hex_from n (c ∷ cs) = hex_from (n * 16 + digit_of c) cs

digit_of-hex_digit : (value i : ℕ) → digit_of (hex_digit value i) ≡ value / 2 ^ i % 16
digit_of-hex_digit value i = (==_iff _ (value / 2 ^ i % 16)).0 (
    checked_lem 16 (λ d. digit_of (get_or (codes "0123456789ABCDEF") d 0) == d) (value / 2 ^ i % 16)
      (omega arith) refl)

abbrev eight_digits : ℕ → List ℕ
eight_digits v =
    hex_digit v 28
    ∷ hex_digit v 24
    ∷ hex_digit v 20
    ∷ hex_digit v 16
    ∷ hex_digit v 12
    ∷ hex_digit v 8
    ∷ hex_digit v 4
    ∷ hex_digit v 0
    ∷ []

-- A word is written as "0x" and eight digits that read back as the word.
pub fault_write_hex32_lem :
    (value : ℕ)
    → value < 2 ^ 32
    → (digits : List ℕ) × (fault_write_hex32 value ≡ codes "0x" ++ digits)
      × (length digits ≡ 8)
      × (hex_from 0 digits ≡ value)
unfolding fault_write_hex32
fault_write_hex32_lem value h = (
  eight_digits value,
  refl,
  refl,
  omega (
    arith,
    digit_of-hex_digit value 28,
    digit_of-hex_digit value 24,
    digit_of-hex_digit value 20,
    digit_of-hex_digit value 16,
    digit_of-hex_digit value 12,
    digit_of-hex_digit value 8,
    digit_of-hex_digit value 4,
    digit_of-hex_digit value 0,
  ),
)

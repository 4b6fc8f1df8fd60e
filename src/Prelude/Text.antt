-- ===== src/Prelude/Text.antt =====
-- Texts as lists of bytes, and the parts of the C library that print and compare them.
use Prim.Native.Char.{code}
use Prim.Native.String.{String}
use Prim.Native.Nat.{ℕ, zero, suc, ◌+◌, ◌-◌, ◌*◌, ◌/◌, ◌%◌, ◌^◌, ◌≤◌, ◌<◌}
use mathlib.Core.Path.{◌≡◌, refl, ap, ◌∙◌}
use mathlib.Core.Bool.{Bool, true, false, ◌&&◌}
use mathlib.Core.List.{List, [], ◌∷◌, ◌++◌}
use mathlib.Core.Logic.{inl, inr}
use tinyrtos.Prelude.Tests.{Bool-cases, ◌==◌, if◌then◌else◌}
use tinyrtos.Prelude.Lists.{length, length-append, length-replicate, replicate, set, take}
use native.Mathlib.Omega.{arith}

-- The bytes of a literal, which are ASCII in this program.
abbrev pub codes : String → List ℕ
codes String.[] = []
codes (String.◌∷◌ c s) = code c ∷ codes s

-- The text in a char array: what stands before the first NUL.
abbrev pub c_string : List ℕ → List ℕ
c_string [] = []
c_string (c ∷ cs) = if c == 0 then [] else c ∷ c_string cs

-- `!strcmp(a, b)`, on texts without their NUL.
abbrev pub same_text : List ℕ → List ℕ → Bool
same_text [] [] = true
same_text [] (d ∷ ds) = false
same_text (c ∷ cs) [] = false
same_text (c ∷ cs) (d ∷ ds) = (c == d) && same_text cs ds

-- The digits of `n` in front of `acc`, by tens; `f` bounds their number.
abbrev pub decimal_digits : (f n : ℕ) → List ℕ → List ℕ
decimal_digits zero n acc = acc
decimal_digits (suc f) n acc = elim (n / 10 == 0) [
  | true ↦ (48 + n % 10) ∷ acc
  | false ↦ decimal_digits f (n / 10) ((48 + n % 10) ∷ acc)
]

-- `%lu` of a uint32_t, which has at most ten digits.
unfoldable pub decimal : ℕ → List ℕ
decimal n = decimal_digits 10 n []

-- `%03lu`: zeros on the left up to a width.
unfoldable pub zero_padded : (width n : ℕ) → List ℕ
zero_padded width n = replicate (width - length (decimal n)) b'0' ++ decimal n

-- `%-6s`: spaces on the right up to a width.
unfoldable pub left_justified : (width : ℕ) → List ℕ → List ℕ
left_justified width s = s ++ replicate (width - length s) b' '

-- The number that digits stand for, after `n`.
abbrev pub value_from : ℕ → List ℕ → ℕ
value_from n [] = n
value_from n (d ∷ ds) = value_from (n * 10 + (d - 48)) ds

abbrev power_of_ten : ℕ → ℕ
power_of_ten zero = 1
power_of_ten (suc f) = 10 * power_of_ten f

value-decimal_digits :
    (f n : ℕ) (acc : List ℕ)
    → n < power_of_ten f
    → value_from 0 (decimal_digits f n acc) ≡ value_from n acc
value-decimal_digits zero n acc h = ap (λ (k : ℕ). value_from k acc) (omega arith)
value-decimal_digits (suc f) n acc h = elim (Bool-cases (n / 10 == 0)) [
  | inl last ↦
      let below : 0 * 10 + (48 + n % 10 - 48) ≡ n = ground (arith, last) in
      rw (last, value_from) (ap (λ (k : ℕ). value_from k acc) below)
  | inr more ↦
      let digit : n / 10 * 10 + (48 + n % 10 - 48) ≡ n = omega arith in
      rw (more, value_from)
        (value-decimal_digits f (n / 10) ((48 + n % 10) ∷ acc) (omega arith)
          ∙ ap (λ (k : ℕ). value_from k acc) digit)
]

length-decimal_digits : (f n : ℕ) (acc : List ℕ) → length (decimal_digits f n acc) ≤ f + length acc
length-decimal_digits zero n acc = omega arith
length-decimal_digits (suc f) n acc = elim (Bool-cases (n / 10 == 0)) [
  | inl last ↦ rw (last, length) (omega arith)
  | inr more ↦
      rw (more, length) (omega (arith, length-decimal_digits f (n / 10) ((48 + n % 10) ∷ acc)))
]

digits_below :
    (f g n : ℕ) (acc : List ℕ)
    → n < power_of_ten (suc f)
    → length (decimal_digits g n acc) ≤ suc f + length acc
digits_below f zero n acc h = omega arith
digits_below zero (suc g) n acc h =
    let last : (n / 10 == 0) ≡ true = ground arith in rw (last, length) (omega arith)
digits_below (suc f) (suc g) n acc h = elim (Bool-cases (n / 10 == 0)) [
  | inl last ↦ rw (last, length) (omega arith)
  | inr more ↦
      rw (more, length)
        (omega (arith, digits_below f g (n / 10) ((48 + n % 10) ∷ acc) (omega arith)))
]

-- What `%lu` prints reads back as the number.
pub value-decimal : (n : ℕ) → n < 2 ^ 32 → value_from 0 (decimal n) ≡ n
unfolding decimal
value-decimal n h = value-decimal_digits 10 n [] (omega arith)

pub length-decimal : (n : ℕ) → length (decimal n) ≤ 10
unfolding decimal
length-decimal n = length-decimal_digits 10 n []

value-replicate_zeros :
    (k : ℕ) (ds : List ℕ) → value_from 0 (replicate k b'0' ++ ds) ≡ value_from 0 ds
value-replicate_zeros zero ds = refl
value-replicate_zeros (suc k) ds = value-replicate_zeros k ds

pub value-zero_padded : (width n : ℕ) → n < 2 ^ 32 → value_from 0 (zero_padded width n) ≡ n
unfolding zero_padded
value-zero_padded width n h =
    value-replicate_zeros (width - length (decimal n)) (decimal n) ∙ value-decimal n h

pub same_text_refl : (s : List ℕ) → same_text s s ≡ true
same_text_refl [] = refl
same_text_refl (c ∷ cs) = ground (arith, same_text_refl cs)

pub same_text_eq : (s t : List ℕ) → same_text s t ≡ true → s ≡ t
same_text_eq [] [] h = refl
same_text_eq [] (d ∷ ds) h = cc
same_text_eq (c ∷ cs) [] h = cc
same_text_eq (c ∷ cs) (d ∷ ds) h = ground (arith, same_text_eq cs ds)

-- A NUL written behind `n` bytes ends the text there.
pub c_string-set :
    (xs : List ℕ) (n : ℕ) → n < length xs → c_string (set xs n 0) ≡ c_string (take n xs)
c_string-set [] n h = elim h [ ]
c_string-set (x ∷ xs) zero h = refl
c_string-set (x ∷ xs) (suc n) h = rw (c_string-set xs n (omega arith))

pub length-zero_padded_three : (n : ℕ) → n < 1000 → length (zero_padded 3 n) ≡ 3
unfolding zero_padded decimal
length-zero_padded_three n h = omega (
  arith,
  digits_below 2 10 n [] (omega arith),
  length-append (replicate (3 - length (decimal n)) b'0') (decimal n),
  length-replicate {A = ℕ} (3 - length (decimal n)) b'0',
)

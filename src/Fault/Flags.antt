-- ===== src/Fault/Flags.antt =====
-- The decoded flags in the hard fault report, src/kernel/fault.c.
use Prim.Native.Nat.{bit_and}
use tinyrtos.Prelude.{
  ℕ, ◌*◌, ◌≡◌, refl, ap, ◌∙◌, List, [], ◌∷◌, ◌++◌, Bool, true, false, Bool-cases, inl, inr, not,
  ◌&&◌, ◌||◌, bit, bit_mask, bit_mask_pos, bit-lt, bit_and-bit_mask, String, codes, ◌==◌,
  if◌then◌else◌, ℕ_discrete, arith,
}
use tinyrtos.Bsp.Usart3.{usart3_write_string}
use tinyrtos.Fault.{
  fault_write, fault_write_flag, fault_write_flags, cfsr_flags, hfsr_flags, fault_decode_cfsr,
  fault_decode_hfsr,
}

-- A test of one bit by its mask is a test of that digit.
bit_test : (word k : ℕ) → not (bit_and word (bit_mask k) == 0) ≡ (bit k word == 1)
bit_test word k =
    let e = bit_and-bit_mask word k in
    elim (ℕ_discrete (bit k word) 0) [
      | yes clear ↦
          let none_set : bit_and word (bit_mask k) ≡ 0 =
            e ∙ ap (λ (b : ℕ). b * bit_mask k) clear ∙ omega arith in
          rw (none_set, clear)
      | no ne ↦
          let is_set : bit k word ≡ 1 = omega (arith, bit-lt k word) in
          let one_set : bit_and word (bit_mask k) ≡ bit_mask k =
            e ∙ ap (λ (b : ℕ). b * bit_mask k) is_set ∙ omega arith in
          let some_set : (bit_mask k == 0) ≡ false = ground (arith, bit_mask_pos k) in
          rw (one_set, is_set, some_set)
    ]

-- The names of the bits that are set, each behind a dash.
abbrev pub named : ℕ → List (ℕ × String) → List ℕ
named word [] = []
named word ((k, name) ∷ flags) =
    (if bit k word == 1 then codes "  - " ++ codes name else []) ++ named word flags

abbrev pub has_break : List ℕ → Bool
has_break [] = false
has_break (c ∷ cs) = c == b'\n' || has_break cs

has_break-append : (s t : List ℕ) → has_break (s ++ t) ≡ (has_break s || has_break t)
has_break-append [] t = refl
has_break-append (c ∷ s) t = ground (arith, has_break-append s t)

either : (a b : Bool) → (a || b) ≡ false → (a ≡ false) × (b ≡ false)
either a b e = ground arith

-- A text without line breaks is sent as it is.
unbroken_sent : (s : List ℕ) → has_break s ≡ false → usart3_write_string s ≡ s
unfolding usart3_write_string
unbroken_sent [] h = refl
unbroken_sent (c ∷ s) h = elim (Bool-cases (c == b'\n')) [
  | inl y ↦ absurd (grind (arith, y, h))
  | inr n ↦ rw (n, unbroken_sent s (either (c == b'\n') (has_break s) h).1)
]

abbrev all_unbroken : List (ℕ × String) → Bool
all_unbroken [] = true
all_unbroken ((k, name) ∷ flags) = not (has_break (codes name)) && all_unbroken flags

flags_sent :
    (word : ℕ) (flags : List (ℕ × String))
    → all_unbroken flags ≡ true
    → (fault_write_flags word flags ≡ named word flags) × (has_break (named word flags) ≡ false)
unfolding fault_write_flags fault_write_flag fault_write
flags_sent word [] h = (refl, refl)
flags_sent word ((k, name) ∷ flags) h =
    let plain : has_break (codes name) ≡ false = ground (arith, h) in
    let rest = flags_sent word flags (ground (arith, h)) in
    let sent = unbroken_sent (codes name) plain in
    elim (Bool-cases (bit k word == 1)) [
      | inl y ↦ (
        rw (bit_test word k, y, sent, rest.0),
        rw (y, has_break-append (codes "  - " ++ codes name) (named word flags), plain, rest.1),
      )
      | inr n ↦ (rw (bit_test word k, n, rest.0), rw (n, rest.1))
    ]

-- The report names just the flags of CFSR and of HFSR whose bits are set, in the order of their tables, each
-- behind a dash, and sends no line break between them or after the last.
pub flags_in_order :
    (cfsr hfsr : ℕ)
    → (fault_decode_cfsr cfsr ≡ fault_write "CFSR DECODE:\r\n" ++ named cfsr cfsr_flags)
      × (fault_decode_hfsr hfsr ≡ fault_write "\r\nHFSR DECODE:\r\n" ++ named hfsr hfsr_flags)
      × (has_break (named cfsr cfsr_flags) ≡ false)
      × (has_break (named hfsr hfsr_flags) ≡ false)
unfolding fault_decode_cfsr fault_decode_hfsr
flags_in_order cfsr hfsr =
    let c = flags_sent cfsr cfsr_flags refl in
    let h = flags_sent hfsr hfsr_flags refl in (rw c.0, rw h.0, c.1, h.1)

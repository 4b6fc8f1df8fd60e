-- ===== src/Bsp/Usart3/Start.antt =====
-- What rtosk_bsp_f756zg_usart3_init of src/bsp/f756zg/usart3.c leaves in the registers of port D and in BRR.
use Prim.Native.Nat.{min, max}
use tinyrtos.Prelude.{
  ℕ, ◌-◌, ◌*◌, ◌/◌, ◌^◌, ◌<◌, ◌≡◌, refl, ap, ◌∙◌, Bool, true, false, ◌||◌, bit, bit_mask, bit-lt,
  bit-bit_or, bit-bit_and, checked, checked_lem, ltb, ◌==◌, ==_iff, if◌then◌else◌,
}
use tinyrtos.Bsp.Led.{clear_mask}
use tinyrtos.Bsp.Usart3.{Masks, UsartPort, put_field, usart3_start}

-- Digit `k` after a field was put, from the digit before.
abbrev field_digit : (mask value shift k m : ℕ) → ℕ
field_digit mask value shift k m =
    max (min m (bit k (2 ^ 32 - 1 - mask * bit_mask shift))) (bit k (value * bit_mask shift))

bit-put_field :
    (mask value shift k r : ℕ)
    → bit k (put_field mask value shift r) ≡ field_digit mask value shift k (bit k r)
bit-put_field mask value shift k r =
    bit-bit_or k (clear_mask r (mask * bit_mask shift)) (value * bit_mask shift)
    ∙ ap (λ m. max m (bit k (value * bit_mask shift)))
        (bit-bit_and k r (2 ^ 32 - 1 - mask * bit_mask shift))

-- MODER: the pairs of pins 8 and 9 are 10, an alternate function.
abbrev pub moder_digit : (k old : ℕ) → ℕ
moder_digit k old = if (k == 17) || (k == 19) then 1 else if (k == 16) || (k == 18) then 0 else old

-- AFR[1]: the fields of pins 8 and 9 are 0111, the function number of USART3.
abbrev pub afr_digit : (k old : ℕ) → ℕ
afr_digit k old = if (k == 3) || (k == 7) then 0 else if ltb k 8 then 1 else old

-- A test of one of 32 digits and of its value, by evaluation.
always_lem :
    (test : ℕ → ℕ → Bool) (k m : ℕ)
    → checked 32 (λ k. checked 2 (test k)) ≡ true
    → k < 32
    → m < 2
    → test k m ≡ true
always_lem test k m all d v =
    checked_lem 2 (test k) m v (checked_lem 32 (λ k. checked 2 (test k)) k d all)

moder_fields :
    (k m : ℕ) → k < 32 → m < 2 → field_digit 3 2 18 k (field_digit 3 2 16 k m) ≡ moder_digit k m
moder_fields k m d v = (==_iff _ _).0 (
    always_lem (λ k m. field_digit 3 2 18 k (field_digit 3 2 16 k m) == moder_digit k m) k m refl d
      v)

afr_fields :
    (k m : ℕ) → k < 32 → m < 2 → field_digit 15 7 4 k (field_digit 15 7 0 k m) ≡ afr_digit k m
afr_fields k m d v = (==_iff _ _).0 (
    always_lem (λ k m. field_digit 15 7 4 k (field_digit 15 7 0 k m) == afr_digit k m) k m refl d v)

-- After a first start of USART3, its two pins have their alternate function and the number of USART3, the digits of
-- the other pins are as they were, and the baud rate register has the clock divided by the baud rate; a second start,
-- at any rate, changes nothing.
pub usart3_start_lem :
    (m : Masks) (clock baud again k : ℕ) (p : UsartPort)
    → p.usart3_init ≡ false
    → k < 32
    → (bit k (usart3_start m clock baud p).moder ≡ moder_digit k (bit k p.moder))
      × (bit k (usart3_start m clock baud p).afr_1 ≡ afr_digit k (bit k p.afr_1))
      × ((usart3_start m clock baud p).brr ≡ clock / baud)
      × (usart3_start m clock again (usart3_start m clock baud p) ≡ usart3_start m clock baud p)
unfolding usart3_start
usart3_start_lem m clock baud again k p fresh d = (
  rw fresh (
      bit-put_field 3 2 18 k _
      ∙ ap (field_digit 3 2 18 k) (bit-put_field 3 2 16 k p.moder)
      ∙ moder_fields k (bit k p.moder) d (bit-lt k p.moder)),
  rw fresh (
      bit-put_field 15 7 4 k _
      ∙ ap (field_digit 15 7 4 k) (bit-put_field 15 7 0 k p.afr_1)
      ∙ afr_fields k (bit k p.afr_1) d (bit-lt k p.afr_1)),
  rw fresh refl,
  rw fresh refl,
)

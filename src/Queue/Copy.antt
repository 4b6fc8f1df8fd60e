-- ===== src/Queue/Copy.antt =====
-- rtosk_queue_copy of src/kernel/queue.c: which bytes it writes.
use tinyrtos.Prelude.{
  ℕ, zero, suc, ◌+◌, ◌≤◌, ◌<◌, ◌≡◌, refl, ◌∙◌, ap, ap₂, ◌⊎◌, List, [], ◌∷◌, arith, length, get_or,
  set, for_range_inv, length-set, get_or-set,
}
use tinyrtos.Queue.{queue_copy}

-- The `n` bytes from `offset` on.
abbrev pub slice : List ℕ → (offset n : ℕ) → List ℕ
slice bytes offset zero = []
slice bytes offset (suc n) = get_or bytes offset 0 ∷ slice bytes (suc offset) n

pub length-slice : (bytes : List ℕ) (offset n : ℕ) → length (slice bytes offset n) ≡ n
length-slice bytes offset zero = refl
length-slice bytes offset (suc n) = ap suc (length-slice bytes (suc offset) n)

slice-cons : (x : ℕ) (xs : List ℕ) (i n : ℕ) → slice (x ∷ xs) (suc i) n ≡ slice xs i n
slice-cons x xs i zero = refl
slice-cons x xs i (suc n) = ap (λ l. get_or xs i 0 ∷ l) (slice-cons x xs (suc i) n)

-- The slice that is the whole list.
pub slice_all : (bytes : List ℕ) (n : ℕ) → n ≡ length bytes → slice bytes 0 n ≡ bytes
slice_all [] zero e = refl
slice_all [] (suc n) e = absurd (omega arith)
slice_all (x ∷ xs) zero e = absurd (omega arith)
slice_all (x ∷ xs) (suc n) e = ap (λ l. x ∷ l) (slice-cons x xs 0 n ∙ slice_all xs n (omega arith))

-- Slices are equal if their bytes are.
pub slice_ext :
    (xs ys : List ℕ) (i j n : ℕ)
    → ((k : ℕ) → k < n → get_or xs (i + k) 0 ≡ get_or ys (j + k) 0)
    → slice xs i n ≡ slice ys j n
slice_ext xs ys i j zero h = refl
slice_ext xs ys i j (suc n) h =
    ap₂ ◌∷◌ (ground (arith, h 0))
      (slice_ext xs ys (suc i) (suc j) n (λ k lt. ground (arith, h (suc k))))

-- The array after the bytes below `i` have been copied.
record Copied (dst : List ℕ) (to : ℕ) (src : List ℕ) (from i : ℕ) (d : List ℕ) : Type 0 where
  size : length d ≡ length dst
  inside : (k : ℕ) → k < i → get_or d (to + k) 0 ≡ get_or src (from + k) 0
  outside : (j : ℕ) → (j < to) ⊎ (to + i ≤ j) → get_or d j 0 ≡ get_or dst j 0

module _ (dst : List ℕ) (to : ℕ) (src : List ℕ) (from : ℕ) where
  Copied-round :
      (i : ℕ) (d : List ℕ)
      → to + i < length dst
      → Copied dst to src from i d
      → Copied dst to src from (suc i) (set d (to + i) (get_or src (from + i) 0))
  Copied-round i d lt h =
      let v = get_or src (from + i) 0 in
      record {
        size = length-set d (to + i) v ∙ h.size;
        inside = λ k kt.
            ground (arith, get_or-set d (to + i) (to + k) v 0 (omega (arith, h.size)), h.inside k);
        outside = λ j out.
            ground (arith, get_or-set d (to + i) j v 0 (omega (arith, h.size)), h.outside j);
      }

  module _ (n : ℕ) (fits : to + n ≤ length dst) where
    Copied-queue_copy : Copied dst to src from n (queue_copy dst to src from n)
    unfolding queue_copy
    Copied-queue_copy =
        for_range_inv (Copied dst to src from) (λ i d. set d (to + i) (get_or src (from + i) 0)) n 0
          n dst (omega arith) (λ k d lo hi h. Copied-round k d (omega arith) h)
          (record { size = refl; inside = λ k lt. absurd (omega arith); outside = λ j out. refl })

    pub length-queue_copy : length (queue_copy dst to src from n) ≡ length dst
    length-queue_copy = Copied-queue_copy.size

    pub slice-queue_copy_inside : slice (queue_copy dst to src from n) to n ≡ slice src from n
    slice-queue_copy_inside = slice_ext _ src to from n Copied-queue_copy.inside

    pub slice-queue_copy_outside :
        (o m : ℕ)
        → (o + m ≤ to) ⊎ (to + n ≤ o)
        → slice (queue_copy dst to src from n) o m ≡ slice dst o m
    slice-queue_copy_outside o m out =
        slice_ext _ dst o o m (λ k lt. Copied-queue_copy.outside (o + k) (ground arith))

-- ===== src/Kernel/Delay.antt =====
-- The busy wait of rtosk_kernel_delay_ms, src/kernel/kernel.c.
use tinyrtos.Prelude.{
  ℕ, zero, suc, ◌+◌, ◌-◌, ◌%◌, ◌^◌, ◌≤◌, ◌<◌, ◌≡◌, refl, ap, ℕ_discrete, some, ltb, sub32,
  Bool-cases, inl, inr, arith,
}
use tinyrtos.Kernel.{delay_loop}

-- `time i` is how many ticks there have been in all when RTOSK_SYSTICKS, a uint32_t, is read for the `i`-th time: it
-- does not go back, and at most one tick comes between two reads.
module _ (time : ℕ → ℕ) (later : (i : ℕ) → time i ≤ time (suc i))
    (slow : (i : ℕ) → time (suc i) ≤ time i + 1) (ms : ℕ) (some_time : 0 < ms)
    (word : ms < 2 ^ 32) where
  abbrev reads : ℕ → ℕ
  reads i = time i % 2 ^ 32

  -- What has passed, in spite of the wrap.
  passed :
      (i : ℕ) → time 0 ≤ time i → time i ≤ time 0 + ms → sub32 (reads i) (reads 0) ≡ time i - time 0
  passed i lo hi = omega (arith, lo, hi, word)

  delay_from :
      (fuel n i : ℕ)
      → time 0 ≤ time i
      → time i ≤ time 0 + ms
      → time 0 + ms ≤ time n
      → i ≤ n
      → n - i < fuel
      → (r : ℕ) × (delay_loop fuel reads (reads 0) ms i ≡ some r) × (time r ≡ time 0 + ms) × (r ≤ n)
  unfolding delay_loop
  delay_from zero n i lo hi reached inside enough = absurd (omega arith)
  delay_from (suc fuel) n i lo hi reached inside enough =
      elim (Bool-cases (ltb (sub32 (reads i) (reads 0)) ms)) [
        | inr over ↦
            let far : ms ≤ sub32 (reads i) (reads 0) = ground (arith, over) in
            (i, rw (delay_loop, over) refl, omega (arith, far, passed i lo hi, lo, hi), inside)
        | inl on ↦
            let near : sub32 (reads i) (reads 0) < ms = ground (arith, on) in
            let before : time i < time 0 + ms = omega (arith, near, passed i lo hi, lo) in
            let more : i < n = not_there n i inside before reached in
            let r =
              delay_from fuel n (suc i) (omega (arith, lo, later i)) (omega (arith, before, slow i))
                reached (omega (arith, more)) (omega (arith, more, enough)) in
            (r.0, rw (delay_loop, on) r.1, r.2, r.3)
      ]
    where
      not_there : (n i : ℕ) → i ≤ n → time i < time 0 + ms → time 0 + ms ≤ time n → i < n
      not_there n i le before reached = elim (ℕ_discrete i n) [
        | yes e ↦ absurd (omega (arith, ap time e, before, reached))
        | no ne ↦ omega (arith, le)
      ]

  -- The busy wait ends, and it ends when just `ms` ticks have come since it began, whatever the wrap of the counter:
  -- for 0 < ms < 2 ^ 32, if no read misses a tick and the `n`-th comes late enough, on more than `n` rounds of fuel.
  pub delay_loop_lem :
      (fuel n : ℕ)
      → time 0 + ms ≤ time n
      → n < fuel
      → (r : ℕ) × (delay_loop fuel reads (reads 0) ms 0 ≡ some r) × (time r ≡ time 0 + ms) × (r ≤ n)
  delay_loop_lem fuel n reached enough =
      delay_from fuel n 0 (omega arith) (omega arith) reached (omega arith) (omega arith)

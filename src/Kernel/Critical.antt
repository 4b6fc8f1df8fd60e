-- ===== src/Kernel/Critical.antt =====
-- Critical sections: rtosk_kernel_enter_critical and rtosk_kernel_exit_critical of
-- src/kernel/kernel.c, nested to any depth.
use tinyrtos.Prelude.{
  ℕ, zero, suc, ◌+◌, ◌^◌, ◌≤◌, ◌<◌, ◌≡◌, refl, ◌∙◌, ap, arith, ◌==◌, if◌then◌else◌,
}
use tinyrtos.Kernel.{Kernel, enter_critical, exit_critical}

-- PRIMASK is one bit, and inside a critical section interrupts are off.
pub record IsConsistent (k : Kernel) : Type 0 where
  pub bit : k.cpu.primask ≤ 1
  pub saved_bit : k.critical_primask ≤ 1
  pub masked : 0 < k.critical_nesting → k.cpu.primask ≡ 1

-- A critical section of depth `n`: `n` entries, then as many exits.
abbrev pub enters : ℕ → Kernel → Kernel
enters zero k = k
enters (suc n) k = enter_critical (enters n k)

abbrev pub exits : ℕ → Kernel → Kernel
exits zero k = k
exits (suc n) k = exits n (exit_critical k)

pub enter_critical-IsConsistent : {k : Kernel} → IsConsistent k → IsConsistent (enter_critical k)
unfolding enter_critical
enter_critical-IsConsistent c = ground arith

pub exit_critical-IsConsistent :
    {k : Kernel} → k.critical_nesting < 2 ^ 32 → IsConsistent k → IsConsistent (exit_critical k)
unfolding exit_critical
exit_critical-IsConsistent lt c = ground arith

-- The state inside a critical section that began in `k`, at depth `d`.
abbrev saved_primask : Kernel → ℕ
saved_primask k = if k.critical_nesting == 0 then k.cpu.primask else k.critical_primask

abbrev inside : Kernel → ℕ → Kernel
inside k d = record k {
  cpu = record (k.cpu) { primask = 1 };
  critical_primask = saved_primask k;
  critical_nesting = k.critical_nesting + d;
}

enter-outside : (k : Kernel) → k.critical_nesting + 1 < 2 ^ 32 → enter_critical k ≡ inside k 1
unfolding enter_critical
enter-outside k lt = ground arith

enter-inside :
    (k : Kernel) (d : ℕ)
    → k.critical_nesting + suc (suc d) < 2 ^ 32
    → enter_critical (inside k (suc d)) ≡ inside k (suc (suc d))
unfolding enter_critical
enter-inside k d lt = ground arith

enters-inside :
    (n : ℕ) (k : Kernel) → k.critical_nesting + suc n < 2 ^ 32 → enters (suc n) k ≡ inside k (suc n)
enters-inside zero k lt = enter-outside k lt
enters-inside (suc n) k lt =
    ap enter_critical (enters-inside n k (omega arith)) ∙ enter-inside k n lt

exit-inside :
    (k : Kernel) (d : ℕ)
    → k.critical_nesting + suc (suc d) < 2 ^ 32
    → exit_critical (inside k (suc (suc d))) ≡ inside k (suc d)
unfolding exit_critical
exit-inside k d lt = ground arith

exit-last :
    (k : Kernel)
    → k.critical_nesting + 1 < 2 ^ 32
    → IsConsistent k
    → exit_critical (inside k 1) ≡ record k { critical_primask = saved_primask k }
unfolding exit_critical
exit-last k lt c = ground arith

exits-inside :
    (m d : ℕ) (k : Kernel)
    → k.critical_nesting + suc (m + d) < 2 ^ 32
    → exits m (inside k (suc (m + d))) ≡ inside k (suc d)
exits-inside zero d k lt = ap (λ e. inside k (suc e)) (omega arith)
exits-inside (suc m) d k lt =
    let e : suc (suc m + d) ≡ suc (suc (m + d)) = omega arith in
    rw e (rw (exit-inside k (m + d) (omega arith)) (exits-inside m d k (omega arith)))

exits-suc : (n : ℕ) (k : Kernel) → exits (suc n) k ≡ exit_critical (exits n k)
exits-suc zero k = refl
exits-suc (suc n) k = exits-suc n (exit_critical k)

-- However deep critical sections nest, interrupts are off until the outermost one is left.
pub critical_masked :
    (k : Kernel) (m d : ℕ)
    → k.critical_nesting + suc (m + d) < 2 ^ 32
    → (exits m (enters (suc (m + d)) k)).cpu.primask ≡ 1
critical_masked k m d lt = rw (enters-inside (m + d) k lt) (rw (exits-inside m d k lt) refl)

-- As many exits as entries leave the kernel as it was, PRIMASK included, but for the saved copy of
-- PRIMASK, which only a critical section reads.
pub critical_balanced :
    (k : Kernel) (n : ℕ)
    → k.critical_nesting + n < 2 ^ 32
    → IsConsistent k
    → record (exits n (enters n k)) { critical_primask = k.critical_primask } ≡ k
critical_balanced k zero lt c = refl
critical_balanced k (suc n) lt c =
    let all : exits (suc n) (enters (suc n) k) ≡ record k { critical_primask = saved_primask k } =
      rw (enters-inside n k lt) (
        exits-suc n _
        ∙ ap exit_critical
            (ap (λ e. exits n (inside k (suc e))) (omega arith) ∙ exits-inside n 0 k (omega arith))
        ∙ exit-last k (omega arith) c) in
    ap (λ (x : Kernel). record x { critical_primask = k.critical_primask }) all

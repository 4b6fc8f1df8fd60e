-- ===== src/Prelude/Loops.antt =====
-- Counted loops, and a rule for their invariants.
use Prim.Native.Nat.{ℕ, zero, suc, ◌+◌, ◌≤◌, ◌<◌}
use mathlib.Core.Path.{◌≡◌}
use mathlib.Core.Bool.{Bool, true, ◌&&◌}
use native.Mathlib.Omega.{arith}
use native.Mathlib.Decide.{ℕ_discrete}

-- for (k = i; k < i + n; k++) s = body k s: recursion on the rounds left.
abbrev pub for_range {ℓ} : {S : Type ℓ} → ℕ → ℕ → (ℕ → S → S) → S → S
for_range zero i body s = s
for_range (suc n) i body s = for_range n (suc i) body (body i s)

-- An invariant that each round in range keeps holds at the end.
pub for_range_inv {ℓ κ} :
    {S : Type ℓ} (P : ℕ → S → Type κ) (body : ℕ → S → S) (n i j : ℕ) (s : S)
    → i + n ≡ j
    → ((k : ℕ) (t : S) → i ≤ k → k < j → P k t → P (suc k) (body k t))
    → P i s
    → P j (for_range n i body s)
for_range_inv P body zero i j s e keep h = let e' : i ≡ j = omega arith in rw (← e') h
for_range_inv P body (suc n) i j s e keep h =
    for_range_inv P body n (suc i) j (body i s) (omega arith)
      (λ k t lo hi p. keep k t (omega arith) hi p) (keep i s (omega arith) (omega arith) h)

-- A Boolean test of the numbers below `n`, by evaluation.
abbrev pub checked : ℕ → (ℕ → Bool) → Bool
checked zero test = true
checked (suc n) test = checked n test && test n

pub checked_lem : (n : ℕ) (test : ℕ → Bool) (k : ℕ) → k < n → checked n test ≡ true → test k ≡ true
checked_lem zero test k lt h = absurd (omega arith)
checked_lem (suc n) test k lt h = elim (ℕ_discrete k n) [
  | yes e ↦ rw e (both (checked n test) (test n) h).1
  | no ne ↦ checked_lem n test k (omega arith) (both (checked n test) (test n) h).0
]
  where
    both : (a b : Bool) → (a && b) ≡ true → (a ≡ true) × (b ≡ true)
    both a b e = ground arith

-- ===== src/Mutex/Calls.antt =====
-- The branches of a round of rtosk_mutex_lock and of rtosk_mutex_unlock of src/kernel/mutex.c, with
-- the task table that each leaves.
use tinyrtos.Prelude.{ℕ, ◌≡◌, ◌≢◌, refl, ap, arith, Option, some, true, false, ◌==◌}
use tinyrtos.Task.{TaskTable, set_ready, block_current_on_mutex}
use tinyrtos.Kernel.{Kernel, enter_critical}
use tinyrtos.Kernel.Frame.{
  SameBut, empty_section-SameBut, empty_yield-SameBut, current-entered, critical_yield-SameBut,
}
use tinyrtos.Mutex.{
  Mutex, mutex_no_owner, mutex_no_waiter, Round, returns, goes_round, lock_round, unlock,
}

-- The result of a call that leaves the mutex `m` and the table `t`.
pub record Left {ℓ} (A : Type ℓ) (k : Kernel) (r : A) (m : Mutex) (t : TaskTable)
    (out : A × Option Mutex × Kernel) : Type ℓ where
  pub answer : out.0 ≡ r
  pub object : out.1 ≡ some m
  pub rest : SameBut t k out.2

module _ (m : Mutex) (k : Kernel) where
  pub lock_round_free :
      m.owner ≡ mutex_no_owner
      → Left Round k returns (record m { owner = k.table.current }) k.table (lock_round (some m) k)
  unfolding lock_round
  lock_round_free e =
      let free : (m.owner == mutex_no_owner) ≡ true = ground arith in
      rw free (record {
        answer = refl;
        object = ap (λ (c : ℕ). some (record m { owner = c })) (current-entered k);
        rest = empty_section-SameBut k;
      })

  pub lock_round_own :
      m.owner ≢ mutex_no_owner
      → m.owner ≡ k.table.current
      → Left Round k returns m k.table (lock_round (some m) k)
  unfolding lock_round
  lock_round_own ne e =
      let free : (m.owner == mutex_no_owner) ≡ false = ground arith in
      let own : (m.owner == (enter_critical k).table.current) ≡ true =
        ground (arith, current-entered k) in
      rw (free, own) (record { answer = refl; object = refl; rest = empty_section-SameBut k })

  pub lock_round_busy :
      m.owner ≢ mutex_no_owner
      → m.owner ≢ k.table.current
      → Left Round k goes_round
          (record m { waiting_task = k.table.current })
          (block_current_on_mutex k.table)
          (lock_round (some m) k)
  unfolding lock_round
  lock_round_busy ne other =
      let free : (m.owner == mutex_no_owner) ≡ false = ground arith in
      let own : (m.owner == (enter_critical k).table.current) ≡ false =
        ground (arith, current-entered k) in
      rw (free, own)
        (record {
          answer = refl;
          object = ap (λ (c : ℕ). some (record m { waiting_task = c })) (current-entered k);
          rest = critical_yield-SameBut block_current_on_mutex k;
        })

-- The result of rtosk_mutex_unlock.
pub record Unlocked (k : Kernel) (m : Mutex) (t : TaskTable) (out : Option Mutex × Kernel)
    : Type 0 where
  pub object : out.0 ≡ some m
  pub rest : SameBut t k out.1

module _ (m : Mutex) (k : Kernel) where
  pub unlock_other : m.owner ≢ k.table.current → Unlocked k m k.table (unlock (some m) k)
  unfolding unlock
  unlock_other ne =
      let other : (m.owner == (enter_critical k).table.current) ≡ false =
        ground (arith, current-entered k) in
      rw other (record { object = refl; rest = empty_section-SameBut k })

  pub unlock_wakes :
      m.owner ≡ k.table.current
      → m.waiting_task ≢ mutex_no_waiter
      → Unlocked k
          (record { owner = mutex_no_owner; waiting_task = mutex_no_waiter })
          (set_ready m.waiting_task k.table)
          (unlock (some m) k)
  unfolding unlock
  unlock_wakes e waits =
      let own : (m.owner == (enter_critical k).table.current) ≡ true =
        ground (arith, current-entered k) in
      let held : (m.waiting_task == mutex_no_waiter) ≡ false = ground arith in
      rw (own, held)
        (record { object = refl; rest = critical_yield-SameBut (set_ready m.waiting_task) k })

  pub unlock_frees :
      m.owner ≡ k.table.current
      → m.waiting_task ≡ mutex_no_waiter
      → Unlocked k
          (record { owner = mutex_no_owner; waiting_task = mutex_no_waiter })
          k.table
          (unlock (some m) k)
  unfolding unlock
  unlock_frees e none_waits =
      let own : (m.owner == (enter_critical k).table.current) ≡ true =
        ground (arith, current-entered k) in
      let held : (m.waiting_task == mutex_no_waiter) ≡ true = ground arith in
      rw (own, held)
        (record {
          object =
              ap (λ (w : ℕ). some (record { owner = mutex_no_owner; waiting_task = w })) none_waits;
          rest = empty_yield-SameBut k;
        })

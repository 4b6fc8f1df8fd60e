-- ===== src/Semaphore/Calls.antt =====
-- The branches of rtosk_semaphore_take and rtosk_semaphore_give of src/kernel/semaphore.c, with the
-- task table that each leaves.
use tinyrtos.Prelude.{◌-◌, ◌<◌, ◌≡◌, ◌≢◌, refl, ap, arith, ℕ, Option, some, true, false, ltb, ◌==◌}
use tinyrtos.Task.{TaskTable, set_ready, block_current_on_semaphore}
use tinyrtos.Kernel.{Kernel}
use tinyrtos.Kernel.Frame.{
  SameBut, empty_section-SameBut, empty_yield-SameBut, current-entered, critical_yield-SameBut,
}
use tinyrtos.Semaphore.{Semaphore, semaphore_no_waiter, take, give}

-- A call that leaves the semaphore `s` and the table `t`.
pub record Leaves (k : Kernel) (s : Semaphore) (t : TaskTable) (out : Option Semaphore × Kernel)
    : Type 0 where
  pub object : out.0 ≡ some s
  pub rest : SameBut t k out.1

module _ (s : Semaphore) (k : Kernel) where
  pub take_counts :
      0 < s.count → Leaves k (record s { count = s.count - 1 }) k.table (take (some s) k)
  unfolding take
  take_counts pos =
      let t : ltb 0 s.count ≡ true = ground arith in
      rw t (record { object = refl; rest = empty_section-SameBut k })

  pub take_blocks :
      s.count ≡ 0
      → Leaves k
          (record s { waiting_task = k.table.current })
          (block_current_on_semaphore k.table)
          (take (some s) k)
  unfolding take
  take_blocks empty =
      let f : ltb 0 s.count ≡ false = ground arith in
      rw f (record {
        object = ap (λ (c : ℕ). some (record s { waiting_task = c })) (current-entered k);
        rest = critical_yield-SameBut block_current_on_semaphore k;
      })

  pub give_hands :
      s.waiting_task ≢ semaphore_no_waiter
      → Leaves k
          (record s { waiting_task = semaphore_no_waiter })
          (set_ready s.waiting_task k.table)
          (give (some s) k)
  unfolding give
  give_hands waits =
      let held : (s.waiting_task == semaphore_no_waiter) ≡ false = ground arith in
      rw held (record { object = refl; rest = critical_yield-SameBut (set_ready s.waiting_task) k })

  pub give_counts :
      s.waiting_task ≡ semaphore_no_waiter
      → Leaves k (record s { count = 1 }) k.table (give (some s) k)
  unfolding give
  give_counts alone =
      let free : (s.waiting_task == semaphore_no_waiter) ≡ true = ground arith in
      rw free (record { object = refl; rest = empty_yield-SameBut k })

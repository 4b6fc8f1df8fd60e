-- ===== src/Semaphore/Moves.antt =====
-- What a take and a give by the current task make of a system, case by case: src/kernel/semaphore.c.
use tinyrtos.Prelude.{ℕ, ◌-◌, ◌<◌, ◌≡◌, ◌≢◌, refl, arith, true, false, ltb, ◌==◌}
use tinyrtos.Task.{TaskTable, set_ready, block_current_on_semaphore}
use tinyrtos.Semaphore.{Semaphore, semaphore_no_waiter}
use tinyrtos.Semaphore.Calls.{take_counts, take_blocks, give_hands, give_counts}
use tinyrtos.Semaphore.System.{
  Place, outside, waiting, holding, System, update, take_step, give_step,
}

-- The parts of the system that a call leaves.
pub record Now (sem : Semaphore) (t : TaskTable) (place : ℕ → Place) (s : System) : Type 0 where
  pub semaphore_is : s.semaphore ≡ sem
  pub table_is : s.kernel.table ≡ t
  pub place_is : s.place ≡ place

module _ (s : System) where
  abbrev current : ℕ
  current = s.kernel.table.current

  pub take-Now :
      0 < s.semaphore.count
      → Now
          (record (s.semaphore) { count = s.semaphore.count - 1 })
          s.kernel.table
          (update s.place current holding)
          (take_step s)
  unfolding take_step
  take-Now pos =
      let l = take_counts s.semaphore s.kernel pos in
      let t : ltb 0 s.semaphore.count ≡ true = ground arith in
      record { semaphore_is = rw l.object refl; table_is = l.rest.same_table; place_is = rw t refl }

  pub wait-Now :
      s.semaphore.count ≡ 0
      → Now
          (record (s.semaphore) { waiting_task = current })
          (block_current_on_semaphore s.kernel.table)
          (update s.place current waiting)
          (take_step s)
  unfolding take_step
  wait-Now empty =
      let l = take_blocks s.semaphore s.kernel empty in
      let f : ltb 0 s.semaphore.count ≡ false = ground arith in
      record { semaphore_is = rw l.object refl; table_is = l.rest.same_table; place_is = rw f refl }

  pub hand-Now :
      s.semaphore.waiting_task ≢ semaphore_no_waiter
      → Now
          (record (s.semaphore) { waiting_task = semaphore_no_waiter })
          (set_ready s.semaphore.waiting_task s.kernel.table)
          (update (update s.place current outside) s.semaphore.waiting_task holding)
          (give_step s)
  unfolding give_step
  hand-Now waits =
      let l = give_hands s.semaphore s.kernel waits in
      let f : (s.semaphore.waiting_task == semaphore_no_waiter) ≡ false = ground arith in
      record { semaphore_is = rw l.object refl; table_is = l.rest.same_table; place_is = rw f refl }

  pub count-Now :
      s.semaphore.waiting_task ≡ semaphore_no_waiter
      → Now
          (record (s.semaphore) { count = 1 })
          s.kernel.table
          (update s.place current outside)
          (give_step s)
  unfolding give_step
  count-Now alone =
      let l = give_counts s.semaphore s.kernel alone in
      let t : (s.semaphore.waiting_task == semaphore_no_waiter) ≡ true = ground arith in
      record { semaphore_is = rw l.object refl; table_is = l.rest.same_table; place_is = rw t refl }

-- ===== src/Mutex/System/Moves.antt =====
-- What a round of a lock and an unlock by the current task make of a system, case by case:
-- src/kernel/mutex.c.
use tinyrtos.Prelude.{ℕ, ◌≡◌, ◌≢◌, refl, Bool, true, false, ℕ_discrete}
use tinyrtos.Task.{TaskTable, block_current_on_mutex, set_ready}
use tinyrtos.Mutex.{Mutex, mutex_no_owner, mutex_no_waiter}
use tinyrtos.Mutex.Calls.{
  lock_round_free, lock_round_own, lock_round_busy, unlock_other, unlock_wakes, unlock_frees,
}
use tinyrtos.Mutex.System.{System, update, lock_step, unlock_step}

-- The parts of a system that the properties of the mutex are about.
pub record Now (m : Mutex) (t : TaskTable) (holds : ℕ → Bool) (s : System) : Type 0 where
  pub mutex_is : s.mutex ≡ m
  pub table_is : s.kernel.table ≡ t
  pub holds_is : s.holds ≡ holds

abbrev pub freed : Mutex
freed = record { owner = mutex_no_owner; waiting_task = mutex_no_waiter }

module _ (s : System) where
  abbrev pub current : ℕ
  current = s.kernel.table.current

  abbrev pub gains : ℕ → Bool
  gains = update s.holds current true

  abbrev pub loses : ℕ → Bool
  loses = update s.holds current false

  pub data LockMove : Type 0 where
    takes :
        s.mutex.owner ≡ mutex_no_owner
        → Now (record (s.mutex) { owner = current }) s.kernel.table gains (lock_step s)
        → LockMove
    keeps :
        s.mutex.owner ≢ mutex_no_owner
        → s.mutex.owner ≡ current
        → Now s.mutex s.kernel.table gains (lock_step s)
        → LockMove
    waits :
        s.mutex.owner ≢ mutex_no_owner
        → s.mutex.owner ≢ current
        → Now
            (record (s.mutex) { waiting_task = current })
            (block_current_on_mutex s.kernel.table)
            s.holds
            (lock_step s)
        → LockMove

  pub data UnlockMove : Type 0 where
    ignored :
        s.mutex.owner ≢ current → Now s.mutex s.kernel.table loses (unlock_step s) → UnlockMove
    frees :
        s.mutex.owner ≡ current
        → s.mutex.waiting_task ≡ mutex_no_waiter
        → Now freed s.kernel.table loses (unlock_step s)
        → UnlockMove
    wakes :
        s.mutex.owner ≡ current
        → s.mutex.waiting_task ≢ mutex_no_waiter
        → Now freed (set_ready s.mutex.waiting_task s.kernel.table) loses (unlock_step s)
        → UnlockMove

  pub lock_move : LockMove
  unfolding lock_step
  lock_move = elim (ℕ_discrete s.mutex.owner mutex_no_owner) [
    | yes free ↦
        let l = lock_round_free s.mutex s.kernel free in
        takes free (record {
          mutex_is = rw l.object refl;
          table_is = l.rest.same_table;
          holds_is = rw l.answer refl;
        })
    | no taken ↦ elim (ℕ_discrete s.mutex.owner current) [
      | yes own ↦
          let l = lock_round_own s.mutex s.kernel taken own in
          keeps taken own (record {
            mutex_is = rw l.object refl;
            table_is = l.rest.same_table;
            holds_is = rw l.answer refl;
          })
      | no other ↦
          let l = lock_round_busy s.mutex s.kernel taken other in
          waits taken other (record {
            mutex_is = rw l.object refl;
            table_is = l.rest.same_table;
            holds_is = rw l.answer refl;
          })
    ]
  ]

  pub unlock_move : UnlockMove
  unfolding unlock_step
  unlock_move = elim (ℕ_discrete s.mutex.owner current) [
    | no other ↦
        let l = unlock_other s.mutex s.kernel other in
        ignored other
          (record { mutex_is = rw l.object refl; table_is = l.rest.same_table; holds_is = refl })
    | yes own ↦ elim (ℕ_discrete s.mutex.waiting_task mutex_no_waiter) [
      | yes alone ↦
          let l = unlock_frees s.mutex s.kernel own alone in
          frees own alone
            (record { mutex_is = rw l.object refl; table_is = l.rest.same_table; holds_is = refl })
      | no some_waits ↦
          let l = unlock_wakes s.mutex s.kernel own some_waits in
          wakes own some_waits
            (record { mutex_is = rw l.object refl; table_is = l.rest.same_table; holds_is = refl })
    ]
  ]

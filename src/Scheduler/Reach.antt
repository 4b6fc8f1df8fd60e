-- ===== src/Scheduler/Reach.antt =====
-- Every table that the functions of src/kernel/task.c and src/kernel/scheduler.c can reach from the
-- zeroed statics is valid.
use tinyrtos.Prelude.{
  ℕ, ◌<◌, ◌≡◌, ◌⊎◌, true, inl, inr, refl, sym, subst, arith, String, if◌then◌else◌, ◌==◌,
  Bool-cases,
}
use tinyrtos.Task.{
  TaskTable, Layout, max_tasks, idle_task_index, reset_table, slot, init_idle, create,
  save_stack_pointer, block_current_until, update_blocked, block_current_on_semaphore,
  block_current_on_queue, block_current_on_mutex, blocked_on_semaphore, blocked_on_queue,
  blocked_on_mutex, set_ready, set_current_index,
}
use tinyrtos.Task.Valid.{IsValid, reset_table-IsValid}
use tinyrtos.Task.Keep.{
  init_idle-IsValid, create-IsValid, save_stack_pointer-IsValid, block_current_until-IsValid,
  block_current_on-IsValid, set_ready-IsValid, update_blocked-IsValid, set_current_index-IsValid,
}
use tinyrtos.Scheduler.{select_next}
use tinyrtos.Scheduler.Select.{select_next-cases}

-- One call of a function that writes the table. A user task is the current one of a call that blocks it on an object:
-- the idle task only waits for interrupts. The current task is set, besides by the scheduler, as the scheduler sets it:
-- to a task that was created, or to the idle task once that is there.
pub data TableStep (l : Layout) (t : TaskTable) : TaskTable → Type 0 where
  inits_idle : TableStep l t (init_idle l t)
  creates :
      (task_func priority : ℕ) (name : String) → TableStep l t (create l task_func priority name t)
  saves : (sp : ℕ) → TableStep l t (save_stack_pointer sp t)
  sleeps : (wake_tick : ℕ) → TableStep l t (block_current_until wake_tick t)
  blocks_on_semaphore : t.current < max_tasks → TableStep l t (block_current_on_semaphore t)
  blocks_on_queue : t.current < max_tasks → TableStep l t (block_current_on_queue t)
  blocks_on_mutex : t.current < max_tasks → TableStep l t (block_current_on_mutex t)
  readies : (index : ℕ) → TableStep l t (set_ready index t)
  wakes : (tick : ℕ) → TableStep l t (update_blocked tick t).0
  selects : TableStep l t (select_next t)
  sets_current :
      (index : ℕ)
      → (index < t.count) ⊎ ((index ≡ idle_task_index) × (t.idle_ready ≡ true))
      → TableStep l t (set_current_index index t)

pub data Reach (l : Layout) : TaskTable → Type 0 where
  start : Reach l reset_table
  later : {t u : TaskTable} → Reach l t → TableStep l t u → Reach l u

idled-IsValid :
    {t : TaskTable}
    → IsValid t
    → IsValid (if t.idle_ready then record t { current = idle_task_index } else t)
unfolding slot
idled-IsValid {t} v = elim (Bool-cases t.idle_ready) [
  | inl on ↦
      subst (λ b. IsValid (if b then record t { current = idle_task_index } else t)) (sym on)
        (record { size = v.size; few = v.few; placed = inr (inl (refl, on)); slots = v.slots })
  | inr off ↦
      subst (λ b. IsValid (if b then record t { current = idle_task_index } else t)) (sym off) v
]

moved-IsValid :
    {t : TaskTable} (c : ℕ) → IsValid t → c < t.count → IsValid (record t { current = c })
unfolding slot
moved-IsValid c v lt = record { size = v.size; few = v.few; placed = inl lt; slots = v.slots }

-- The scheduler keeps the invariant.
pub select_next-IsValid : {t : TaskTable} → IsValid t → IsValid (select_next t)
unfolding select_next
select_next-IsValid {t} v = elim (Bool-cases (t.count == 0)) [
  | inl none_yet ↦ rw none_yet v
  | inr some_task ↦ elim (select_next-cases t v.few (ground arith)) [
    | inl (c, e, lt) ↦ rw e (moved-IsValid c v lt)
    | inr e ↦ rw e (idled-IsValid v)
  ]
]

TableStep-IsValid : {l : Layout} {t u : TaskTable} → TableStep l t u → IsValid t → IsValid u
TableStep-IsValid {l} inits_idle v = init_idle-IsValid v l
TableStep-IsValid {l} (creates f p n) v = create-IsValid v l f p n
TableStep-IsValid (saves sp) v = save_stack_pointer-IsValid v sp
TableStep-IsValid (sleeps w) v = block_current_until-IsValid v w
TableStep-IsValid (blocks_on_semaphore lt) v =
    block_current_on-IsValid v blocked_on_semaphore (λ e. cc) lt
TableStep-IsValid (blocks_on_queue lt) v = block_current_on-IsValid v blocked_on_queue (λ e. cc) lt
TableStep-IsValid (blocks_on_mutex lt) v = block_current_on-IsValid v blocked_on_mutex (λ e. cc) lt
TableStep-IsValid (readies i) v = set_ready-IsValid v i
TableStep-IsValid (wakes tick) v = update_blocked-IsValid v tick
TableStep-IsValid selects v = select_next-IsValid v
TableStep-IsValid (sets_current i ok) v = set_current_index-IsValid v i ok

-- Every table that calls of the task and scheduler functions reach from the zeroed statics is valid, if the calls that
-- block on a semaphore, a queue or a mutex come while a user task is the current one, and
-- rtosk_task_set_current_index is given a task that was created or, once it is there, the idle task: five slots with
-- whole stacks, at most four user tasks, a current task that exists, and the state RTOSK_TASK_IDLE in the idle slot alone.
pub Reach-IsValid : {l : Layout} {t : TaskTable} → Reach l t → IsValid t
Reach-IsValid start = reset_table-IsValid
Reach-IsValid (later r s) = TableStep-IsValid s (Reach-IsValid r)

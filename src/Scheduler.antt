-- ===== src/Scheduler.antt =====
-- rtosk_scheduler_select_next of src/kernel/scheduler.c.
pub mod Frame
pub mod Scan
pub mod Select
pub mod Reach
use tinyrtos.Prelude.{
  ℕ, zero, suc, Option, none, some, Bool, true, false, not, ◌||◌, ltb, leb, ◌==◌, if◌then◌else◌,
  add32, sub32, for_range,
}
use tinyrtos.Task.{Task, TaskTable, idle_task_index, is_ready, get, set_current_index}

-- The three variables of the loop.
pub record Best : Type 0 where
  pub best_index : ℕ
  pub best_priority : ℕ
  pub found_ready : Bool

-- `index` of the round, from `current` and `offset`.
abbrev pub ring_index : (task_count current offset : ℕ) → ℕ
ring_index task_count current offset =
    let index = add32 current offset in
    if leb task_count index then sub32 index task_count else index

-- The second half of a round: `task` is what rtosk_task_get returned.
unfoldable pub consider : ℕ → Option Task → Best → Best
consider index none b = b
consider index (some task) b =
    if not (is_ready task.state)
    then b
    else if not b.found_ready || ltb b.best_priority task.priority
    then record { best_index = index; best_priority = task.priority; found_ready = true }
    else b

unfoldable pub scan_round : TaskTable → (task_count current offset : ℕ) → Best → Best
unfolding consider
scan_round t task_count current offset b =
    let index = ring_index task_count current offset in consider index (get index t) b

unfoldable pub scan : TaskTable → (task_count current : ℕ) → Best
scan t task_count current =
    for_range task_count 0 (scan_round t task_count current)
      (record { best_index = idle_task_index; best_priority = 0; found_ready = false })

-- `current`, after the test that puts it in range.
unfoldable pub scan_start : TaskTable → ℕ
scan_start t = if leb t.count t.current then 0 else t.current

unfoldable pub select_next : TaskTable → TaskTable
select_next t =
    if t.count == 0
    then t
    else let b = scan t t.count (scan_start t) in
      if b.found_ready
      then set_current_index b.best_index t
      else if t.idle_ready
      then set_current_index idle_task_index t
      else t

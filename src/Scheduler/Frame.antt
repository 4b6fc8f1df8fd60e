-- ===== src/Scheduler/Frame.antt =====
-- What rtosk_scheduler_select_next leaves alone.
use tinyrtos.Prelude.{ℕ, ◌≡◌, arith}
use tinyrtos.Task.{TaskTable, slot, set_current_index}
use tinyrtos.Scheduler.{select_next}

pub tasks-select_next : (t : TaskTable) → (select_next t).tasks ≡ t.tasks
unfolding select_next set_current_index
tasks-select_next t = ground arith

pub count-select_next : (t : TaskTable) → (select_next t).count ≡ t.count
unfolding select_next set_current_index
count-select_next t = ground arith

pub idle_ready-select_next : (t : TaskTable) → (select_next t).idle_ready ≡ t.idle_ready
unfolding select_next set_current_index
idle_ready-select_next t = ground arith

pub slot-select_next : (t : TaskTable) (i : ℕ) → slot (select_next t) i ≡ slot t i
unfolding slot
slot-select_next t i = ground (arith, tasks-select_next t)

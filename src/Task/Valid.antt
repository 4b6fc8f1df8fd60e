-- ===== src/Task/Valid.antt =====
-- The invariant of the task table of src/kernel/task.c.
use tinyrtos.Prelude.{
  ℕ, ◌≤◌, ◌<◌, ◌≡◌, ◌≢◌, refl, ◌∙◌, ◌⊎◌, inr, arith, length, get_or-replicate, Bool, true, false,
  ◌==◌, ℕ_discrete,
}
use tinyrtos.TaskStack.{task_stack_words}
use tinyrtos.Task.{
  Task, TaskTable, idle, max_tasks, idle_task_index, total_task_slots, zero_task, reset_table, slot,
  set_slot,
}
use tinyrtos.Task.Table.{
  slot-set_slot, length-set_slot, count-set_slot, current-set_slot, idle_ready-set_slot,
}

-- Task `i` as it may be: a whole stack, and the state RTOSK_TASK_IDLE in the idle slot alone, once it
-- is ready.
pub record GoodTask (idle_ready : Bool) (i : ℕ) (task : Task) : Type 0 where
  pub stack : length task.stack ≡ task_stack_words
  pub user : i < max_tasks → task.state ≢ idle
  pub idler : i ≡ idle_task_index → idle_ready ≡ true → task.state ≡ idle

-- The current task is a user task, or the idle task once that is ready, or slot 0 before any task
-- was created.
pub record IsValid (t : TaskTable) : Type 0 where
  pub size : length t.tasks ≡ total_task_slots
  pub few : t.count ≤ max_tasks
  pub placed :
      (t.current < t.count)
      ⊎ ((t.current ≡ idle_task_index) × (t.idle_ready ≡ true))
      ⊎ ((t.current ≡ 0) × (t.count ≡ 0))
  pub slots : (i : ℕ) → i < total_task_slots → GoodTask t.idle_ready i (slot t i)

-- Writing a good task into a slot keeps the table valid.
pub set_slot-IsValid :
    (t : TaskTable) (i : ℕ) (task : Task)
    → IsValid t
    → i < total_task_slots
    → GoodTask t.idle_ready i task
    → IsValid (set_slot t i task)
unfolding slot
set_slot-IsValid t i task v lt good = record {
  size = length-set_slot t i task ∙ v.size;
  few = omega (arith, count-set_slot t i task, v.few);
  placed =
      rw (count-set_slot t i task, current-set_slot t i task, idle_ready-set_slot t i task)
        v.placed;
  slots = λ j h. rw (idle_ready-set_slot t i task) (
      rw (slot-set_slot t i j task (omega (arith, v.size))) (elim (ℕ_discrete i j) [
        | yes e ↦ let eq : (i == j) ≡ true = ground arith in rw eq (rw e at good)
        | no ne ↦ let eq : (i == j) ≡ false = ground arith in rw eq (v.slots j h)
      ]));
}

-- A change of state that keeps the stack and does not touch the idle slot or RTOSK_TASK_IDLE.
pub restate-IsValid :
    (t : TaskTable) (i : ℕ) (task : Task)
    → IsValid t
    → i < max_tasks
    → length task.stack ≡ task_stack_words
    → task.state ≢ idle
    → IsValid (set_slot t i task)
restate-IsValid t i task v lt stack ne =
    set_slot-IsValid t i task v (omega arith)
      (record { stack = stack; user = λ _. ne; idler = λ e. absurd (omega arith) })

pub stack-slot :
    (t : TaskTable) (i : ℕ)
    → IsValid t
    → i < total_task_slots
    → length (slot t i).stack ≡ task_stack_words
stack-slot t i v lt = (v.slots i lt).stack

-- The table of zeros that the program starts from.
pub reset_table-IsValid : IsValid reset_table
unfolding slot
reset_table-IsValid = record {
  size = refl;
  few = omega arith;
  placed = inr (inr (refl, refl));
  slots = λ i lt. reset_slot i lt;
}
  where
    reset_slot : (i : ℕ) → i < total_task_slots → GoodTask false i (slot reset_table i)
    reset_slot i lt =
        let e : slot reset_table i ≡ zero_task =
          get_or-replicate {0} total_task_slots i zero_task zero_task lt in
        rw e (record { stack = refl; user = λ _ q. cc; idler = λ _ q. cc })

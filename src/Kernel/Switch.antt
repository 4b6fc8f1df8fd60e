-- ===== src/Kernel/Switch.antt =====
-- What the context switch of src/kernel/port.c (PendSV_Handler) changes in the task table: the current
-- task, and the saved stack pointer of the task that is left.
use tinyrtos.Prelude.{
  ℕ, zero, suc, ◌≡◌, refl, ap, arith, List, [], ◌∷◌, length, set, get_or, Bool-cases, inl, inr,
  ◌==◌, ◌&&◌, ◌%◌,
}
use tinyrtos.Task.{Task, TaskTable, idle_task_index, slot, set_slot, save_stack_pointer, zero_task}
use tinyrtos.Task.Table.{length-set_slot, count-set_slot}
use tinyrtos.Scheduler.Frame.{slot-select_next, tasks-select_next, count-select_next}
use tinyrtos.Kernel.{Kernel, take_pendsv}

-- Two tasks that differ in the saved stack pointer at most.
abbrev pub SameButSp : Task → Task → Type 0
SameButSp x y = (sp : ℕ) × (x ≡ record y { sp = sp })

get_or-set_sp :
    (tasks : List Task) (i j sp : ℕ)
    → SameButSp
        (get_or (set tasks i (record (get_or tasks i zero_task) { sp = sp })) j zero_task)
        (get_or tasks j zero_task)
get_or-set_sp [] i j sp = (0, refl)
get_or-set_sp (x ∷ tasks) zero zero sp = (sp, refl)
get_or-set_sp (x ∷ tasks) zero (suc j) sp = ((get_or tasks j zero_task).sp, refl)
get_or-set_sp (x ∷ tasks) (suc i) zero sp = (x.sp, refl)
get_or-set_sp (x ∷ tasks) (suc i) (suc j) sp = get_or-set_sp tasks i j sp

same_slot : (t : TaskTable) (i : ℕ) → SameButSp (slot t i) (slot t i)
same_slot t i = ((slot t i).sp, refl)

slot-save_stack_pointer :
    (sp : ℕ) (t : TaskTable) (i : ℕ) → SameButSp (slot (save_stack_pointer sp t) i) (slot t i)
unfolding save_stack_pointer slot set_slot
slot-save_stack_pointer sp t i = elim (Bool-cases (t.current == idle_task_index)) [
  | inl e ↦ rw e (get_or-set_sp t.tasks idle_task_index i sp)
  | inr ne ↦ rw ne (elim (Bool-cases (t.count == 0)) [
    | inl none_yet ↦ rw none_yet ((get_or t.tasks i zero_task).sp, refl)
    | inr some_task ↦ rw some_task (get_or-set_sp t.tasks t.current i sp)
  ])
]

pub slot-take_pendsv :
    (sp : ℕ) (k : Kernel) (i : ℕ) → SameButSp (slot (take_pendsv sp k).table i) (slot k.table i)
unfolding take_pendsv
slot-take_pendsv sp k i = elim (Bool-cases (k.cpu.pendsv && (k.cpu.primask % 2 == 0))) [
  | inl taken ↦ rw taken (
      rw (slot-select_next (save_stack_pointer sp k.table) i)
        (slot-save_stack_pointer sp k.table i))
  | inr left ↦ rw left (same_slot k.table i)
]

pub state-take_pendsv :
    (sp : ℕ) (k : Kernel) (i : ℕ) → (slot (take_pendsv sp k).table i).state ≡ (slot k.table i).state
state-take_pendsv sp k i = ap (λ (x : Task). x.state) ((slot-take_pendsv sp k i).1)

pub wake_tick-take_pendsv :
    (sp : ℕ) (k : Kernel) (i : ℕ)
    → (slot (take_pendsv sp k).table i).wake_tick ≡ (slot k.table i).wake_tick
wake_tick-take_pendsv sp k i = ap (λ (x : Task). x.wake_tick) ((slot-take_pendsv sp k i).1)

length-save_stack_pointer :
    (sp : ℕ) (t : TaskTable) → length (save_stack_pointer sp t).tasks ≡ length t.tasks
unfolding save_stack_pointer
length-save_stack_pointer sp t = ground (
  arith,
  length-set_slot t idle_task_index (record (slot t idle_task_index) { sp = sp }),
  length-set_slot t t.current (record (slot t t.current) { sp = sp }),
)

count-save_stack_pointer : (sp : ℕ) (t : TaskTable) → (save_stack_pointer sp t).count ≡ t.count
unfolding save_stack_pointer
count-save_stack_pointer sp t = ground (
  arith,
  count-set_slot t idle_task_index (record (slot t idle_task_index) { sp = sp }),
  count-set_slot t t.current (record (slot t t.current) { sp = sp }),
)

pub length-take_pendsv :
    (sp : ℕ) (k : Kernel) → length (take_pendsv sp k).table.tasks ≡ length k.table.tasks
unfolding take_pendsv
length-take_pendsv sp k =
    ground (
      arith,
      tasks-select_next (save_stack_pointer sp k.table),
      length-save_stack_pointer sp k.table,
    )

pub count-take_pendsv : (sp : ℕ) (k : Kernel) → (take_pendsv sp k).table.count ≡ k.table.count
unfolding take_pendsv
count-take_pendsv sp k =
    ground (
      arith,
      count-select_next (save_stack_pointer sp k.table),
      count-save_stack_pointer sp k.table,
    )

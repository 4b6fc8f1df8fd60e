-- ===== src/Task/Keep.antt =====
-- The functions of src/kernel/task.c keep the invariant of Task.Valid.
use tinyrtos.Prelude.{
  ℕ, ◌<◌, ◌≡◌, ◌≢◌, refl, ◌∙◌, ◌⊎◌, inl, inr, arith, length, add32, sym, true, false, String,
  if◌then◌else◌, ◌==◌, leb, ltb, ◌&&◌, Bool-cases,
}
use tinyrtos.TaskStack.{task_stack_words}
use tinyrtos.TaskStack.Build.{length-build_stack}
use tinyrtos.TaskStack.Watermark.{length-watermark_stack}
use tinyrtos.Task.{
  Task, TaskTable, TaskState, ready, idle, Layout, max_tasks, idle_task_index, total_task_slots,
  slot, set_slot, fresh_task, init_idle, create, save_stack_pointer, block_current_until,
  update_blocked, block_current_on, set_ready, set_current_index,
}
use tinyrtos.Task.Table.{slot-set_slot, count-set_slot, current-set_slot, idle_ready-set_slot}
use tinyrtos.Task.Wake.{Woken-update_blocked, is_due, woken}
use tinyrtos.Task.Valid.{GoodTask, IsValid, set_slot-IsValid, restate-IsValid, stack-slot}

stack-fresh_task :
    (l : Layout) (i task_func : ℕ) (state : TaskState) (priority : ℕ) (name : String) (task : Task)
    → length (fresh_task l i task_func state priority name task).stack ≡ length task.stack
unfolding fresh_task
stack-fresh_task l i task_func state priority name task =
    length-build_stack _ _ _ _ ∙ length-watermark_stack task.stack

state-fresh_task :
    (l : Layout) (i task_func : ℕ) (state : TaskState) (priority : ℕ) (name : String) (task : Task)
    → (fresh_task l i task_func state priority name task).state ≡ state
unfolding fresh_task
state-fresh_task l i task_func state priority name task = refl

module _ {t : TaskTable} (v : IsValid t) where
  -- The table after the idle slot is filled and flagged.
  idle_table-IsValid :
      (task : Task)
      → length task.stack ≡ task_stack_words
      → task.state ≡ idle
      → t.idle_ready ≡ false
      → IsValid (record (set_slot t idle_task_index task) { idle_ready = true })
  unfolding slot
  idle_table-IsValid task stack e off =
      let w =
        set_slot-IsValid t idle_task_index task v (omega arith)
          (record { stack = stack; user = λ u. absurd (omega arith); idler = λ _ _. e }) in
      record {
        size = w.size;
        few = w.few;
        placed = ground (
          arith,
          w.placed,
          current-set_slot t idle_task_index task,
          count-set_slot t idle_task_index task,
          idle_ready-set_slot t idle_task_index task,
        );
        slots = λ i lt. record {
          stack = (w.slots i lt).stack;
          user = (w.slots i lt).user;
          idler =
              λ q _. ground (arith, slot-set_slot t idle_task_index i task (omega (arith, v.size)));
        };
      }

  pub init_idle-IsValid : (l : Layout) → IsValid (init_idle l t)
  unfolding init_idle
  init_idle-IsValid l = elim (Bool-cases t.idle_ready) [
    | inl on ↦ simp on v
    | inr off ↦ simp off (
        idle_table-IsValid _
          (stack-fresh_task l _ _ _ _ _ _ ∙ stack-slot t idle_task_index v (omega arith))
          (state-fresh_task l _ _ _ _ _ _) off)
  ]

  -- The table after the next slot is filled and counted.
  counted-IsValid :
      (task : Task)
      → length task.stack ≡ task_stack_words
      → task.state ≡ ready
      → t.count < max_tasks
      → IsValid (record (set_slot t t.count task) { count = add32 t.count 1 })
  unfolding slot
  counted-IsValid task stack e room =
      let w =
        restate-IsValid t t.count task v room stack
          (λ q. let q' : ready ≡ idle = sym e ∙ q in cc) in
      record {
        size = w.size;
        few = omega arith;
        placed = ground (
          arith,
          w.placed,
          current-set_slot t t.count task,
          count-set_slot t t.count task,
          idle_ready-set_slot t t.count task,
        );
        slots = w.slots;
      }

  pub create-IsValid :
      (l : Layout) (task_func priority : ℕ) (name : String)
      → IsValid (create l task_func priority name t)
  unfolding create
  create-IsValid l task_func priority name = elim (Bool-cases (task_func == 0)) [
    | inl null ↦ rw null v
    | inr given ↦ rw given (elim (Bool-cases (leb max_tasks t.count)) [
      | inl full ↦ rw full v
      | inr room ↦ rw room (
          counted-IsValid _
            (stack-fresh_task l _ _ _ _ _ _ ∙ stack-slot t t.count v (ground (arith, v.few)))
            (state-fresh_task l _ _ _ _ _ _) (ground arith))
    ])
  ]

  -- A write to the current slot that keeps the state and the stack.
  repoint-IsValid :
      (i sp : ℕ) → i < total_task_slots → IsValid (set_slot t i (record (slot t i) { sp = sp }))
  repoint-IsValid i sp lt =
      let g = v.slots i lt in
      set_slot-IsValid t i _ v lt (record { stack = g.stack; user = g.user; idler = g.idler })

  pub save_stack_pointer-IsValid : (sp : ℕ) → IsValid (save_stack_pointer sp t)
  unfolding save_stack_pointer
  save_stack_pointer-IsValid sp = elim (Bool-cases (t.current == idle_task_index)) [
    | inl e ↦ rw e (repoint-IsValid idle_task_index sp (omega arith))
    | inr ne ↦ rw ne (elim (Bool-cases (t.count == 0)) [
      | inl none_yet ↦ rw none_yet v
      | inr some_task ↦
          rw some_task (repoint-IsValid t.current sp (ground (arith, v.placed, v.few)))
    ])
  ]

  -- With the idle task ready, a current task that is not the idle task is a user task or slot 0.
  current_user : (t.current == idle_task_index) ≡ false → t.current < max_tasks
  current_user ne = ground (arith, v.placed, v.few)

  pub block_current_until-IsValid : (wake_tick : ℕ) → IsValid (block_current_until wake_tick t)
  unfolding block_current_until
  block_current_until-IsValid wake_tick = elim (Bool-cases (t.current == idle_task_index)) [
    | inl e ↦ rw e v
    | inr ne ↦ rw ne (
        restate-IsValid t t.current _ v (current_user ne)
          (stack-slot t t.current v (omega (arith, current_user ne))) (λ q. cc))
  ]

  pub block_current_on-IsValid :
      (state : TaskState)
      → state ≢ idle
      → t.current < max_tasks
      → IsValid (block_current_on state t)
  unfolding block_current_on
  block_current_on-IsValid state ne lt =
      restate-IsValid t t.current _ v lt (stack-slot t t.current v (omega arith)) ne

  pub set_ready-IsValid : (index : ℕ) → IsValid (set_ready index t)
  unfolding set_ready
  set_ready-IsValid index = elim (Bool-cases (leb t.count index)) [
    | inl out ↦ rw out v
    | inr within ↦ rw within (
        let lt : index < max_tasks = ground (arith, v.few) in
        restate-IsValid t index _ v lt (stack-slot t index v (omega arith)) (λ q. cc))
  ]

  pub set_current_index-IsValid :
      (index : ℕ)
      → (index < t.count) ⊎ ((index ≡ idle_task_index) × (t.idle_ready ≡ true))
      → IsValid (set_current_index index t)
  unfolding set_current_index slot
  set_current_index-IsValid index ok = elim (Bool-cases (leb total_task_slots index)) [
    | inl out ↦ rw out v
    | inr within ↦
        rw within
          (record { size = v.size; few = v.few; placed = ground (arith, ok); slots = v.slots })
  ]

  woken-GoodTask :
      (tick i : ℕ) → i < total_task_slots → i < t.count → GoodTask t.idle_ready i (woken (slot t i))
  woken-GoodTask tick i lt user = record {
    stack = stack-slot t i v lt;
    user = λ _ q. cc;
    idler = λ e. absurd (omega (arith, v.few));
  }

  woken_or_same :
      (tick i : ℕ)
      → i < total_task_slots
      → GoodTask t.idle_ready i
          (if ltb i t.count && is_due tick t i then woken (slot t i) else slot t i)
  woken_or_same tick i lt = elim (Bool-cases (ltb i t.count && is_due tick t i)) [
    | inl e ↦ rw e (woken-GoodTask tick i lt (ground (arith, e)))
    | inr e ↦ rw e (v.slots i lt)
  ]

  pub update_blocked-IsValid : (tick : ℕ) → IsValid (update_blocked tick t).0
  update_blocked-IsValid tick =
      let w = Woken-update_blocked tick t (omega (arith, v.size, v.few)) in
      record {
        size = w.size ∙ v.size;
        few = omega (arith, w.count, v.few);
        placed = ground (arith, w.count, w.current, w.idle_ready, v.placed);
        slots = λ i lt. rw w.idle_ready (rw (w.slots i) (woken_or_same tick i lt));
      }

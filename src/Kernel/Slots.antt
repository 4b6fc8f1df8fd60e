-- ===== src/Kernel/Slots.antt =====
-- Which slots of the task table the functions of src/kernel/kernel.c leave as they are.
use tinyrtos.Prelude.{
  ℕ, ◌⊎◌, ◌≤◌, ◌<◌, ◌≡◌, ◌≢◌, refl, ◌∙◌, arith, length, false, Bool-cases, inl, inr, ◌&&◌, leb, ltb,
  add32,
}
use tinyrtos.Task.{
  TaskTable, TaskState, idle_task_index, is_blocked, slot, set_ready, block_current_on,
  block_current_until,
}
use tinyrtos.Task.Table.{slot-set_slot, count-set_slot}
use tinyrtos.Task.Wake.{Woken-update_blocked, is_due}
use tinyrtos.Kernel.{Kernel, sleep_ms, kernel_tick, on_table, kernel_yield}
use tinyrtos.Kernel.Sleep.{sleep_ms-SameBut}

-- A blocking call writes the current slot alone.
pub slot-block_current_on :
    (state : TaskState) (t : TaskTable) (i : ℕ)
    → t.current < length t.tasks
    → i ≢ t.current
    → slot (block_current_on state t) i ≡ slot t i
unfolding block_current_on
slot-block_current_on state t i lt ne = slot-set_slot t t.current i _ lt ∙ ground arith

pub state-block_current_on :
    (state : TaskState) (t : TaskTable)
    → t.current < length t.tasks
    → (slot (block_current_on state t) t.current).state ≡ state
unfolding block_current_on
state-block_current_on state t lt =
    rw (slot-set_slot t t.current t.current (record (slot t t.current) { state = state }) lt)
      (ground arith)

pub slot-block_current_until :
    (wake_tick : ℕ) (t : TaskTable) (i : ℕ)
    → t.current < length t.tasks
    → i ≢ t.current
    → slot (block_current_until wake_tick t) i ≡ slot t i
unfolding block_current_until
slot-block_current_until wake_tick t i lt ne = ground (
  arith,
  slot-set_slot t t.current i
      (record (slot t t.current) { state = TaskState.blocked; wake_tick = wake_tick }) lt,
)

-- Waking a task writes its slot alone.
pub slot-set_ready :
    (index : ℕ) (t : TaskTable) (i : ℕ)
    → t.count ≤ length t.tasks
    → i ≢ index
    → slot (set_ready index t) i ≡ slot t i
unfolding set_ready
slot-set_ready index t i fits ne = elim (Bool-cases (leb t.count index)) [
  | inl out ↦ rw out refl
  | inr within ↦ rw within (slot-set_slot t index i _ (ground arith) ∙ ground arith)
]

pub state-set_ready :
    (index : ℕ) (t : TaskTable)
    → t.count ≤ length t.tasks
    → index < t.count
    → (slot (set_ready index t) index).state ≡ TaskState.ready
unfolding set_ready
state-set_ready index t fits lt =
    let within : leb t.count index ≡ false = ground arith in
    rw within (
      rw
        (slot-set_slot t index index (record (slot t index) { state = TaskState.ready })
          (ground arith))
        (ground arith))

-- A tick leaves a task alone that is not asleep.
pub slot-kernel_tick :
    (k : Kernel) (i : ℕ)
    → k.table.count ≤ length k.table.tasks
    → is_blocked (slot k.table i).state ≡ false
    → slot (kernel_tick k).table i ≡ slot k.table i
unfolding kernel_tick on_table kernel_yield
slot-kernel_tick k i fits awake = elim (Bool-cases k.kernel_init) [
  | inl on ↦
      simp on
        ((Woken-update_blocked (add32 k.systicks 1) k.table fits).slots i ∙ rw awake (ground arith))
  | inr off ↦ simp off
]

pub slot-sleep_ms :
    (ms : ℕ) (k : Kernel) (i : ℕ)
    → k.table.current < length k.table.tasks
    → i ≢ k.table.current
    → slot (sleep_ms ms k).table i ≡ slot k.table i
slot-sleep_ms ms k i lt ne =
    rw (sleep_ms-SameBut ms k).same_table
      (slot-block_current_until (add32 k.systicks ms) k.table i lt ne)

-- None of them changes the number of tasks.
pub count-block_current_on :
    (state : TaskState) (t : TaskTable) → (block_current_on state t).count ≡ t.count
unfolding block_current_on
count-block_current_on state t = count-set_slot t t.current _

pub count-set_ready : (index : ℕ) (t : TaskTable) → (set_ready index t).count ≡ t.count
unfolding set_ready
count-set_ready index t =
    ground (arith, count-set_slot t index (record (slot t index) { state = TaskState.ready }))

pub count-kernel_tick :
    (k : Kernel)
    → k.table.count ≤ length k.table.tasks
    → (kernel_tick k).table.count ≡ k.table.count
unfolding kernel_tick on_table kernel_yield
count-kernel_tick k fits =
    ground (arith, (Woken-update_blocked (add32 k.systicks 1) k.table fits).count)

pub count-sleep_ms : (ms : ℕ) (k : Kernel) → (sleep_ms ms k).table.count ≡ k.table.count
unfolding block_current_until
count-sleep_ms ms k =
    let e = (sleep_ms-SameBut ms k).same_table in
    ground (
      arith,
      e,
      count-set_slot k.table k.table.current (record (slot k.table k.table.current) {
        state = TaskState.blocked;
        wake_tick = add32 k.systicks ms;
      }),
    )

-- The task that calls rtosk_kernel_sleep_ms sleeps.
pub state-sleep_ms :
    (ms : ℕ) (k : Kernel)
    → k.table.current < length k.table.tasks
    → k.table.current ≢ idle_task_index
    → (slot (sleep_ms ms k).table k.table.current).state ≡ TaskState.blocked
unfolding block_current_until
state-sleep_ms ms k lt user =
    let task = record (slot k.table k.table.current) {
      state = TaskState.blocked;
      wake_tick = add32 k.systicks ms;
    } in
    let e = (sleep_ms-SameBut ms k).same_table in
    ground (arith, e, slot-set_slot k.table k.table.current k.table.current task lt)

-- A tick leaves a slot alone or makes its task ready.
pub kernel_tick-slot :
    (k : Kernel) (i : ℕ)
    → k.table.count ≤ length k.table.tasks
    → (slot (kernel_tick k).table i ≡ slot k.table i)
      ⊎ ((slot (kernel_tick k).table i).state ≡ TaskState.ready)
unfolding kernel_tick on_table kernel_yield
kernel_tick-slot k i fits = elim (Bool-cases k.kernel_init) [
  | inr off ↦ simp off (inl refl)
  | inl on ↦ simp on (
      rw ((Woken-update_blocked (add32 k.systicks 1) k.table fits).slots i)
        (elim (Bool-cases (ltb i k.table.count && is_due (add32 k.systicks 1) k.table i)) [
          | inl due ↦ rw due (inr refl)
          | inr not_due ↦ rw not_due (inl refl)
        ]))
]

-- ===== src/Task.antt =====
-- The task table of src/kernel/task.c and include/tinyrtos/kernel/task.h: RTOSK_TASKS and the three
-- counters beside it. A flag that is only tested against zero is a Bool. The address of the table,
-- of the idle task and of the exit trap are chosen by the linker: they are the fields of a Layout.
pub mod Table
pub mod Valid
pub mod Keep
pub mod Wake
use tinyrtos.Prelude.{
  ℕ, zero, suc, ◌+◌, ◌-◌, ◌*◌, ◌%◌, ◌^◌, List, Bool, true, false, not, ◌&&◌, ◌||◌, Option, none,
  some, String, get_or, get_elem?, set, for_range, ltb, leb, ◌==◌, if◌then◌else◌, add32, sub32,
  replicate,
}
use tinyrtos.TaskStack.{task_stack_words, watermark_stack, build_stack, get_stack_free_words, Frame}

-- RTOSK_MAX_TASKS
abbrev pub max_tasks : ℕ
max_tasks = 4

-- RTOSK_IDLE_TASK_INDEX
abbrev pub idle_task_index : ℕ
idle_task_index = max_tasks

-- RTOSK_TOTAL_TASK_SLOTS
abbrev pub total_task_slots : ℕ
total_task_slots = max_tasks + 1

-- rtosk_task_state_t
pub data TaskState : Type 0 where
  ready blocked blocked_on_semaphore blocked_on_queue blocked_on_mutex idle : TaskState

-- rtosk_task_t
pub record Task : Type 0 where
  pub sp : ℕ
  pub stack : List ℕ
  pub state : TaskState
  pub wake_tick : ℕ
  pub priority : ℕ
  pub name : String

-- rtosk_task_info
pub record TaskInfo : Type 0 where
  pub index : ℕ
  pub priority : ℕ
  pub state : TaskState
  pub wake_tick : ℕ
  pub stack_used_words : ℕ
  pub stack_free_words : ℕ
  pub name : String

-- RTOSK_TASKS, RTOSK_TASK_COUNT, RTOSK_CURRENT_TASK and RTOSK_IDLE_READY.
pub record TaskTable : Type 0 where
  pub tasks : List Task
  pub count : ℕ
  pub current : ℕ
  pub idle_ready : Bool

-- A slot of the zero-initialised array: state 0 is RTOSK_TASK_READY.
abbrev pub zero_task : Task
zero_task = record {
  sp = 0;
  stack = replicate task_stack_words 0;
  state = ready;
  wake_tick = 0;
  priority = 0;
  name = "";
}

-- The statics at reset.
abbrev pub reset_table : TaskTable
reset_table = record {
  tasks = replicate total_task_slots zero_task;
  count = 0;
  current = 0;
  idle_ready = false;
}

-- `RTOSK_TASKS[i]`, read and written.
unfoldable pub slot : TaskTable → ℕ → Task
slot t i = get_or t.tasks i zero_task

unfoldable pub set_slot : TaskTable → ℕ → Task → TaskTable
set_slot t i task = record t { tasks = set t.tasks i task }

-- What the linker chooses.
pub record Layout : Type 0 where
  pub tasks_address : ℕ
  pub idle_task : ℕ
  pub exit_trap : ℕ

-- `&RTOSK_TASKS[i].stack[0]`: a task is 1044 bytes, its stack pointer first, then its stack.
abbrev pub stack_address : Layout → ℕ → ℕ
stack_address l i = l.tasks_address + i * 1044 + 4

-- The watermarking, the stack frame and the five assignments that rtosk_task_init_idle and
-- rtosk_task_create share.
unfoldable pub fresh_task : Layout → ℕ → ℕ → TaskState → ℕ → String → Task → Task
fresh_task l i task_func state priority name task =
    let f = build_stack (stack_address l i) l.exit_trap task_func (watermark_stack task.stack) in
    record {
      sp = f.sp;
      stack = f.stack;
      state = state;
      wake_tick = 0;
      priority = priority;
      name = name;
    }

unfoldable pub init_idle : Layout → TaskTable → TaskTable
init_idle l t =
    if t.idle_ready
    then t
    else let task =
        fresh_task l idle_task_index l.idle_task idle 0 "idle" (slot t idle_task_index) in
      record (set_slot t idle_task_index task) { idle_ready = true }

-- A null `task_func` is the address 0.
unfoldable pub create : Layout → (task_func priority : ℕ) → String → TaskTable → TaskTable
create l task_func priority name t =
    if task_func == 0
    then t
    else if leb max_tasks t.count
    then t
    else let task = fresh_task l t.count task_func ready priority name (slot t t.count) in
      record (set_slot t t.count task) { count = add32 t.count 1 }

unfoldable pub save_stack_pointer : ℕ → TaskTable → TaskTable
save_stack_pointer sp t =
    if t.current == idle_task_index
    then set_slot t idle_task_index (record (slot t idle_task_index) { sp = sp })
    else if t.count == 0
    then t
    else set_slot t t.current (record (slot t t.current) { sp = sp })

-- `none` is the null pointer.
unfoldable pub get_stack_pointer : TaskTable → Option ℕ
get_stack_pointer t =
    if t.current == idle_task_index
    then some (slot t idle_task_index).sp
    else if t.count == 0
    then none
    else some (slot t t.current).sp

unfoldable pub block_current_until : ℕ → TaskTable → TaskTable
block_current_until wake_tick t =
    if t.current == idle_task_index
    then t
    else set_slot t t.current (record (slot t t.current) { state = blocked; wake_tick = wake_tick })

abbrev pub is_blocked : TaskState → Bool
is_blocked blocked = true
is_blocked _ = false

abbrev pub is_ready : TaskState → Bool
is_ready ready = true
is_ready _ = false

-- `(int32_t)(current_tick - wake_tick) >= 0`
abbrev pub expired : (current_tick wake_tick : ℕ) → Bool
expired current_tick wake_tick = ltb (sub32 current_tick wake_tick) (2 ^ 31)

-- One round of the loop of rtosk_task_update_blocked; the flag is `woke_task`.
unfoldable pub wake_slot : ℕ → ℕ → TaskTable × Bool → TaskTable × Bool
wake_slot current_tick i (t, woke_task) =
    if is_blocked (slot t i).state && expired current_tick (slot t i).wake_tick
    then (set_slot t i (record (slot t i) { state = ready }), true)
    else (t, woke_task)

unfoldable pub update_blocked : ℕ → TaskTable → TaskTable × Bool
update_blocked current_tick t = for_range t.count 0 (wake_slot current_tick) (t, false)

-- rtosk_task_block_current_on_semaphore, _queue and _mutex: they test nothing.
unfoldable pub block_current_on : TaskState → TaskTable → TaskTable
block_current_on state t = set_slot t t.current (record (slot t t.current) { state = state })

abbrev pub block_current_on_semaphore : TaskTable → TaskTable
block_current_on_semaphore = block_current_on blocked_on_semaphore

abbrev pub block_current_on_queue : TaskTable → TaskTable
block_current_on_queue = block_current_on blocked_on_queue

abbrev pub block_current_on_mutex : TaskTable → TaskTable
block_current_on_mutex = block_current_on blocked_on_mutex

unfoldable pub set_ready : ℕ → TaskTable → TaskTable
set_ready index t =
    if leb t.count index then t else set_slot t index (record (slot t index) { state = ready })

unfoldable pub set_current_index : ℕ → TaskTable → TaskTable
set_current_index index t = if leb total_task_slots index then t else record t { current = index }

-- `none` is the null pointer.
unfoldable pub get : ℕ → TaskTable → Option Task
get index t = if leb total_task_slots index then none else some (slot t index)

-- The caller's `info` is filled when the result is `some`; `none` is the return value 0.
unfoldable pub get_info : ℕ → TaskTable → Option TaskInfo
get_info index t =
    if leb total_task_slots index
    then none
    else if leb t.count index && not (index == idle_task_index)
    then none
    else if (index == idle_task_index) && not t.idle_ready
    then none
    else let task = slot t index in
      let free_words = get_stack_free_words task.stack in
      some (record {
        index = index;
        priority = task.priority;
        state = task.state;
        wake_tick = task.wake_tick;
        stack_used_words = sub32 task_stack_words free_words;
        stack_free_words = free_words;
        name = task.name;
      })

unfoldable pub state_to_string : TaskState → String
state_to_string ready = "READY"
state_to_string blocked = "SLEEP"
state_to_string blocked_on_semaphore = "SEM"
state_to_string blocked_on_queue = "QUEUE"
state_to_string blocked_on_mutex = "MUTEX"
state_to_string idle = "IDLE"

-- ===== src/Tests/SwitchRuns.antt =====
-- A context switch from task 0 to task 1 and back, and the start of the first task.
use tinyrtos.Prelude.{
  ℕ, zero, suc, ◌+◌, ◌*◌, ◌<◌, ◌≡◌, ◌%◌, refl, ◌∙◌, [], ◌∷◌, true, replicate, length,
  length-replicate, inl, sub32, arith,
}
use tinyrtos.TaskStack.{task_stack_words}
use tinyrtos.TaskStack.Watermark.{length-watermark_stack}
use tinyrtos.TaskStack.Build.{length-build_stack}
use tinyrtos.Task.{
  Task, TaskTable, blocked, ready, idle, total_task_slots, zero_task, slot, set_slot, set_ready,
  fresh_task, save_stack_pointer, get_stack_pointer, get, set_current_index,
}
use tinyrtos.Task.Valid.{IsValid, GoodTask, restate-IsValid}
use tinyrtos.Task.Keep.{set_ready-IsValid}
use tinyrtos.Scheduler.{select_next, scan, scan_start, scan_round}
use tinyrtos.Kernel.{on_table, take_pendsv}
use tinyrtos.ContextSwitch.{Machine, pendsv_handler, svc_handler, store_word, load_word}
use tinyrtos.ContextSwitch.Memory.{Fits, word_address}
use tinyrtos.ContextSwitch.Saved.{stored_table, Runs, switched_table-IsValid, table-pendsv_handler}
use tinyrtos.ContextSwitch.RoundTrip.{Undisturbed, leaves, works, later, switch_roundtrip}
use tinyrtos.ContextSwitch.FirstTask.{popped, entry_frame, svc_handler_starts}
use tinyrtos.ContextSwitch.Abstract.{forget, pendsv_handler-take_pendsv}
use tinyrtos.Tests.Fixtures.{started, layout, cpu}

abbrev sleeper : Task
sleeper = record zero_task { state = blocked; wake_tick = 9; priority = 2 }

-- Task 1 was put away with its pointer at word 200.
abbrev worker : Task
worker = record zero_task { sp = word_address layout 1 200; priority = 1 }

abbrev two_tasks : TaskTable
two_tasks = record {
  tasks = sleeper ∷ worker ∷ zero_task ∷ zero_task ∷ record zero_task { state = idle } ∷ [];
  count = 2;
  current = 0;
  idle_ready = true;
}

-- Task 0 has gone to sleep with these registers.
abbrev asleep : Machine
asleep = record {
  kernel = record started { table = two_tasks };
  psp = word_address layout 0 108;
  r4_r11 = 4 ∷ 5 ∷ 6 ∷ 7 ∷ 8 ∷ 9 ∷ 10 ∷ 11 ∷ [];
  spsel = true;
}

zeros : length zero_task.stack ≡ task_stack_words
zeros = length-replicate {A = ℕ} task_stack_words 0

two_tasks-GoodTask : (i : ℕ) → i < total_task_slots → GoodTask true i (slot two_tasks i)
unfolding slot
two_tasks-GoodTask zero lt = record {
  stack = zeros;
  user = λ _ e. cc;
  idler = λ e _. absurd (omega arith);
}
two_tasks-GoodTask (suc zero) lt = record {
  stack = zeros;
  user = λ _ e. cc;
  idler = λ e _. absurd (omega arith);
}
two_tasks-GoodTask (suc (suc zero)) lt = record {
  stack = zeros;
  user = λ _ e. cc;
  idler = λ e _. absurd (omega arith);
}
two_tasks-GoodTask (suc (suc (suc zero))) lt = record {
  stack = zeros;
  user = λ _ e. cc;
  idler = λ e _. absurd (omega arith);
}
two_tasks-GoodTask (suc (suc (suc (suc zero)))) lt = record {
  stack = zeros;
  user = λ u. absurd (omega arith);
  idler = λ _ _. refl;
}
two_tasks-GoodTask (suc (suc (suc (suc (suc i))))) lt = absurd (omega arith)

two_tasks-IsValid : IsValid two_tasks
two_tasks-IsValid = record {
  size = refl;
  few = omega arith;
  placed = inl (omega arith);
  slots = two_tasks-GoodTask;
}

fits : Fits layout
fits = omega arith

asleep-Runs : Runs layout asleep
asleep-Runs = record {
  valid = two_tasks-IsValid;
  exists = inl (omega arith);
  word = 100;
  room = omega arith;
  stands = refl;
  registers = refl;
}

-- Task 1 runs, and task 0 has become ready again.
awake : Machine
unfolding pendsv_handler on_table slot set_slot select_next store_word load_word save_stack_pointer
    get_stack_pointer set_ready set_current_index scan scan_start scan_round get
awake =
    let m = pendsv_handler layout asleep in record m { kernel = on_table (set_ready 0) m.kernel }

awake-Runs : Runs layout awake
unfolding awake
awake-Runs = record {
  valid =
      set_ready-IsValid {t = (pendsv_handler layout asleep).kernel.table}
        (rw (table-pendsv_handler layout asleep)
          (switched_table-IsValid layout fits asleep asleep-Runs))
        0;
  exists = inl (omega arith);
  word = 200;
  room = omega arith;
  stands = refl;
  registers = refl;
}

awake-Undisturbed : Undisturbed 0 (pendsv_handler layout asleep) awake
unfolding awake
awake-Undisturbed = record { same_sp = refl; same_stack = refl; no_fewer = omega arith }

task_1_runs : awake.kernel.table.current ≡ 1
unfolding awake
task_1_runs = refl

task_0_resumes : (pendsv_handler layout awake).kernel.table.current ≡ 0
unfolding awake
task_0_resumes = refl

switch_roundtrip_example :
    ((pendsv_handler layout awake).psp ≡ 0x2000_0000 + 4 + 4 * 108)
    × ((pendsv_handler layout awake).r4_r11 ≡ 4 ∷ 5 ∷ 6 ∷ 7 ∷ 8 ∷ 9 ∷ 10 ∷ 11 ∷ [])
switch_roundtrip_example =
    switch_roundtrip layout fits asleep (pendsv_handler layout awake) asleep-Runs
      (later (works leaves awake-Undisturbed) awake-Runs (omega (arith, task_1_runs)))
      task_0_resumes

-- A machine about to start task 0.
abbrev fresh : Task
fresh = fresh_task layout 0 0x0800_0401 ready 3 "high" zero_task

abbrev starting : Machine
starting = record asleep { kernel = record started { table = set_slot two_tasks 0 fresh } }

starting-IsValid : IsValid starting.kernel.table
unfolding fresh_task
starting-IsValid =
    restate-IsValid two_tasks 0 fresh two_tasks-IsValid (omega arith)
      (length-build_stack _ _ _ _ ∙ length-watermark_stack zero_task.stack ∙ zeros) (λ e. cc)

svc_handler_starts_example :
    ((svc_handler layout starting).spsel ≡ true)
    × ((svc_handler layout starting).psp % 8 ≡ 0)
    × ((svc_handler layout starting).r4_r11 ≡ replicate 8 0)
    × (popped layout (svc_handler layout starting) ≡ entry_frame layout.exit_trap 0x0800_0401)
unfolding set_slot slot
svc_handler_starts_example =
    svc_handler_starts layout fits refl starting 0x0800_0401 ready 3 "high" zero_task
      starting-IsValid (inl (omega arith)) (omega arith) zeros refl

-- Task 0 runs, and PendSV is pending.
abbrev pending : Machine
pending = record asleep { kernel = record asleep.kernel { cpu = record cpu { pendsv = true } } }

pending-Runs : Runs layout pending
pending-Runs = record {
  valid = two_tasks-IsValid;
  exists = inl (omega arith);
  word = 100;
  room = omega arith;
  stands = refl;
  registers = refl;
}

pendsv_handler-take_pendsv_example :
    ((pendsv_handler layout pending).kernel.table
      ≡ (take_pendsv
          (sub32 pending.psp 32)
          (record pending.kernel { table = stored_table layout fits pending pending-Runs })).table)
    × (forget (pendsv_handler layout pending).kernel.table
        ≡ forget (take_pendsv (sub32 pending.psp 32) pending.kernel).table)
pendsv_handler-take_pendsv_example =
    pendsv_handler-take_pendsv layout fits pending pending-Runs refl refl

-- ===== src/Tests/KernelRuns.antt =====
-- The scheduler, sleeping, critical sections and stacks, on the kernel of three tasks.
use tinyrtos.Kernel.{delay_loop}
use tinyrtos.Kernel.Delay.{delay_loop_lem}
use tinyrtos.Prelude.{
  ◌%◌, ◌^◌, ◌≤◌, some, ℕ, zero, suc, ◌≡◌, ◌<◌, ◌+◌, ◌*◌, ◌⊎◌, refl, arith, List, [], ◌∷◌, true,
  false, replicate, get_or, length, length-replicate,
}
use tinyrtos.TaskStack.{task_stack_words, stack_watermark, build_stack}
use tinyrtos.TaskStack.Build as Build
use tinyrtos.Task.{Task, TaskTable, TaskState, ready, blocked, is_ready, slot, zero_task}
use tinyrtos.Task.Valid.{IsValid}
use tinyrtos.Scheduler.{select_next}
use tinyrtos.Scheduler.Select.{IsSelected, select_next_selects, select_next_keeps}
use tinyrtos.Scheduler.Reach.{Reach-IsValid}
use tinyrtos.Kernel.{Kernel, sleep_ms}
use tinyrtos.Kernel.Sleep.{ticks, sleep_ms_exact, sleep_ms_overlong}
use tinyrtos.Kernel.Critical.{IsConsistent, enters, exits, critical_masked, critical_balanced}
use tinyrtos.Tests.Fixtures.{started, three_tasks, three_tasks-Reach}

-- A table whose three user tasks have the given states and priorities 2, 2 and 1.
abbrev task : TaskState → ℕ → ℕ → Task
task state wake_tick priority = record zero_task {
  state = state;
  wake_tick = wake_tick;
  priority = priority;
}

abbrev table : TaskState → TaskState → TaskState → TaskTable
table s0 s1 s2 = record {
  tasks =
      task s0 5 2
      ∷ task s1 9 2
      ∷ task s2 5 1
      ∷ zero_task
      ∷ record zero_task { state = TaskState.idle }
      ∷ [];
  count = 3;
  current = 0;
  idle_ready = true;
}

-- Task 0 sleeps, so the next of the highest priority is task 1.
select_next_selects_example :
    (c : ℕ) × (select_next (table blocked ready ready)
      ≡ record (table blocked ready ready) { current = c })
    × IsSelected (table blocked ready ready) c
unfolding slot
select_next_selects_example =
    select_next_selects (table blocked ready ready) (omega arith) (omega arith) 2 (omega arith) refl

all_asleep : (j : ℕ) → j < 3 → is_ready (slot (table blocked blocked blocked) j).state ≡ false
unfolding slot
all_asleep zero lt = refl
all_asleep (suc zero) lt = refl
all_asleep (suc (suc zero)) lt = refl
all_asleep (suc (suc (suc j))) lt = absurd (omega arith)

-- Tasks 0 and 1 are both ready, of one priority.
none_higher :
    (j : ℕ)
    → j < 3
    → is_ready (slot (table ready ready ready) j).state ≡ true
    → (slot (table ready ready ready) j).priority ≤ (slot (table ready ready ready) 0).priority
unfolding slot
none_higher zero lt r = omega arith
none_higher (suc zero) lt r = omega arith
none_higher (suc (suc zero)) lt r = omega arith
none_higher (suc (suc (suc j))) lt r = absurd (omega arith)

select_next_keeps_example : select_next (table ready ready ready) ≡ table ready ready ready
unfolding slot
select_next_keeps_example =
    select_next_keeps (table ready ready ready) (omega arith) (omega arith) (omega arith) refl
      none_higher

Reach-IsValid_example : IsValid three_tasks
Reach-IsValid_example = Reach-IsValid three_tasks-Reach

-- A kernel two ticks before the tick counter wraps.
abbrev late : Kernel
late = record started { table = table ready ready ready; systicks = 0xFFFF_FFFE }

sleep_ms_exact_example :
    ((n : ℕ) → n < 5 → (slot (ticks (λ i. 0) n (sleep_ms 5 late)).table 0).state ≡ blocked)
    × ((slot (ticks (λ i. 0) 5 (sleep_ms 5 late)).table 0).state ≡ ready)
sleep_ms_exact_example =
    sleep_ms_exact 5 late (λ i. 0) refl (omega arith) (omega arith) (omega arith) (omega arith)
      (omega arith) (omega arith)

sleep_ms_overlong_example :
    (slot (ticks (λ i. 0) 1 (sleep_ms 0xC000_0000 late)).table 0).state ≡ ready
sleep_ms_overlong_example =
    sleep_ms_overlong 0xC000_0000 late (λ i. 0) refl (omega arith) (omega arith) (omega arith)
      (omega arith) (omega arith) (omega arith)

started-IsConsistent : IsConsistent started
started-IsConsistent = record {
  bit = omega arith;
  saved_bit = omega arith;
  masked = λ lt. absurd (omega arith);
}

critical_masked_example : (exits 2 (enters 4 started)).cpu.primask ≡ 1
critical_masked_example = critical_masked started 2 1 (omega arith)

critical_balanced_example :
    record (exits 3 (enters 3 started)) { critical_primask = started.critical_primask } ≡ started
critical_balanced_example = critical_balanced started 3 (omega arith) started-IsConsistent

abbrev empty_stack : List ℕ
empty_stack = replicate task_stack_words 0

-- A stack whose address is 4 modulo 8: the frame moves down by a word.
build_stack_lem_example :
    let f = build_stack 0x2000_0004 0x0800_0201 0x0800_0401 empty_stack in
    (f.sp % 8 ≡ 0)
    × (f.sp ≡ 0x2000_0004 + 4 * Build.frame_start 0x2000_0004 (omega arith))
    × ((k : ℕ)
        → k < 16
        → get_or f.stack (Build.frame_start 0x2000_0004 (omega arith) + k) 0
          ≡ get_or (Build.initial_frame 0x0800_0201 0x0800_0401) k 0)
    × ((j : ℕ)
        → (j < Build.frame_start 0x2000_0004 (omega arith))
          ⊎ (Build.frame_start 0x2000_0004 (omega arith) + 16 ≤ j)
        → get_or f.stack j 0 ≡ get_or empty_stack j 0)
    × (length f.stack ≡ task_stack_words)
build_stack_lem_example =
    Build.build_stack_lem 0x2000_0004 (omega arith) 0x0800_0201 0x0800_0401 empty_stack refl
      (length-replicate {A = ℕ} task_stack_words 0)

-- A stack with two marked words, one used word, and marked words above it.
abbrev used_stack : List ℕ
used_stack = stack_watermark ∷ stack_watermark ∷ 7 ∷ replicate 253 stack_watermark

marked_below : (k : ℕ) → k < 2 → get_or used_stack k 0 ≡ stack_watermark
marked_below zero lt = refl
marked_below (suc zero) lt = refl
marked_below (suc (suc k)) lt = absurd (omega arith)

-- A busy wait of 20 ticks over the wrap of the counter, one tick a read.
delay_loop_lem_example :
    (r : ℕ) × (delay_loop 21 (λ i. (i + 0xFFFF_FFF0) % 2 ^ 32) (0xFFFF_FFF0 % 2 ^ 32) 20 0 ≡ some r)
    × (r + 0xFFFF_FFF0 ≡ 0xFFFF_FFF0 + 20)
    × (r ≤ 20)
delay_loop_lem_example =
    delay_loop_lem (λ i. i + 0xFFFF_FFF0) (λ i. omega arith) (λ i. omega arith) 20 (omega arith)
      (omega arith) 21 20 (omega arith) (omega arith)

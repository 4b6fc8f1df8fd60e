-- ===== src/Tests/MutexRuns.antt =====
-- Three tasks at one mutex.
use tinyrtos.Prelude.{ℕ, ◌≡◌, ◌≢◌, refl, arith, zero, suc, ◌<◌, inl, inr}
use tinyrtos.Task.{
  ready, blocked_on_mutex, slot, set_slot, create, init_idle, fresh_task, block_current_on,
  block_current_until, update_blocked, wake_slot, save_stack_pointer, set_current_index, get,
}
use tinyrtos.Port.{port_yield, irq_save, irq_restore}
use tinyrtos.Scheduler.{select_next, scan, scan_round, scan_start, consider}
use tinyrtos.Kernel.{
  sleep_ms, kernel_tick, take_pendsv, on_table, enter_critical, exit_critical, kernel_yield,
}
use tinyrtos.Mutex.{lock_round, mutex_no_owner}
use tinyrtos.Mutex.System.{
  System, lock_step, unlock_step, Runs, locks, unlocks, sleeps, ticks, switches, Steps, here, next,
}
use tinyrtos.Mutex.System.Exclusion.{initial, initial-Inv, Steps-Inv, mutual_exclusion}
use tinyrtos.Mutex.System.Waiters.{state_of, second_waiter_strands}
use tinyrtos.Mutex.System.Pair as Pair
use tinyrtos.Tests.Fixtures.{started, three_tasks, three_tasks-IsValid}

-- Task 0 locks the mutex and sleeps; task 1 runs, finds it taken and blocks; task 2 runs.
abbrev pub locked : System
locked = lock_step (initial started)

abbrev pub asleep : System
asleep = record locked { kernel = sleep_ms 1 locked.kernel }

abbrev pub mid_runs : System
mid_runs = record asleep { kernel = take_pendsv 0x2000_1000 asleep.kernel }

abbrev pub mid_waits : System
mid_waits = lock_step mid_runs

abbrev pub low_runs : System
low_runs = record mid_waits { kernel = take_pendsv 0x2000_1400 mid_waits.kernel }

Runs-started : Runs (initial started)
unfolding init_idle create set_slot slot fresh_task
Runs-started = record { user = omega arith; is_ready_now = refl }

Runs-locked : Runs locked
unfolding init_idle create set_slot slot fresh_task lock_step lock_round enter_critical
    exit_critical irq_save irq_restore
Runs-locked = record { user = omega arith; is_ready_now = refl }

Runs-mid : Runs mid_runs
unfolding init_idle create set_slot slot fresh_task lock_step lock_round enter_critical
    exit_critical irq_save irq_restore sleep_ms on_table block_current_until kernel_yield port_yield
    take_pendsv save_stack_pointer select_next set_current_index scan scan_start scan_round consider
    get
Runs-mid = record { user = omega arith; is_ready_now = refl }

Runs-low : Runs low_runs
unfolding init_idle create set_slot slot fresh_task lock_step lock_round enter_critical
    exit_critical irq_save irq_restore sleep_ms on_table block_current_until kernel_yield port_yield
    take_pendsv save_stack_pointer select_next set_current_index scan scan_start scan_round consider
    get block_current_on
Runs-low = record { user = omega arith; is_ready_now = refl }

to_mid : Steps (initial started) mid_waits
to_mid =
    next
      (next (next (next here (locks Runs-started)) (sleeps 1 Runs-locked)) (switches 0x2000_1000))
      (locks Runs-mid)

to_low : Steps (initial started) low_runs
to_low = next to_mid (switches 0x2000_1400)

abbrev high : ℕ
high = 0

-- The first task holds the mutex, the second waits for it, the third has the processor.
mutual_exclusion_example : (high ≡ high) × (low_runs.mutex.owner ≡ high)
unfolding init_idle create set_slot slot fresh_task lock_step lock_round enter_critical
    exit_critical irq_save irq_restore sleep_ms on_table block_current_until kernel_yield port_yield
    take_pendsv save_stack_pointer select_next set_current_index scan scan_start scan_round consider
    get block_current_on
mutual_exclusion_example = mutual_exclusion three_tasks-IsValid to_low high high refl refl

-- Then the third one blocks, the first one wakes up and unlocks.
abbrev low_waits : System
low_waits = lock_step low_runs

abbrev ticked : System → System
ticked s = record s { kernel = take_pendsv 0x2000_1400 (kernel_tick s.kernel) }

abbrev high_runs : System
high_runs = ticked low_waits

abbrev unlocked : System
unlocked = unlock_step high_runs

Runs-high : Runs high_runs
unfolding init_idle create set_slot slot fresh_task lock_step lock_round enter_critical
    exit_critical irq_save irq_restore sleep_ms on_table block_current_until kernel_yield port_yield
    take_pendsv save_stack_pointer select_next set_current_index scan scan_start scan_round consider
    get block_current_on kernel_tick update_blocked wake_slot
Runs-high = record { user = omega arith; is_ready_now = refl }

to_unlocked : Steps low_waits unlocked
to_unlocked = next (next (next here ticks) (switches 0x2000_1400)) (unlocks Runs-high)

mid_stays : state_of low_runs 1 ≡ blocked_on_mutex
unfolding init_idle create set_slot slot fresh_task lock_step lock_round enter_critical
    exit_critical irq_save irq_restore sleep_ms on_table block_current_until kernel_yield port_yield
    take_pendsv save_stack_pointer select_next set_current_index scan scan_start scan_round consider
    get block_current_on
mid_stays = refl

low_finds_taken :
    (low_runs.mutex.owner ≢ mutex_no_owner) × (low_runs.mutex.owner ≢ low_runs.kernel.table.current)
unfolding init_idle create set_slot slot fresh_task lock_step lock_round enter_critical
    exit_critical irq_save irq_restore sleep_ms on_table block_current_until kernel_yield port_yield
    take_pendsv save_stack_pointer select_next set_current_index scan scan_start scan_round consider
    get block_current_on
low_finds_taken = ((λ e. absurd (omega arith)), (λ e. absurd (omega arith)))

second_waiter_strands_example : state_of unlocked 1 ≡ blocked_on_mutex
second_waiter_strands_example =
    second_waiter_strands (Steps-Inv (initial-Inv started three_tasks-IsValid) to_low) (omega arith)
      mid_stays Runs-low low_finds_taken.0 low_finds_taken.1 to_unlocked

-- Without the third task, the unlock wakes the second one.
abbrev high_wakes : System
high_wakes = ticked mid_waits

quiet_there : (i : ℕ) → i < three_tasks.count → (slot three_tasks i).state ≢ blocked_on_mutex
unfolding init_idle create set_slot slot fresh_task
quiet_there zero lt e = cc
quiet_there (suc zero) lt e = cc
quiet_there (suc (suc zero)) lt e = cc
quiet_there (suc (suc (suc i))) lt e = absurd (omega (arith, lt))

to_high : Pair.PairSteps 0 1 (initial started) high_wakes
unfolding init_idle create set_slot slot fresh_task lock_step lock_round enter_critical
    exit_critical irq_save irq_restore sleep_ms on_table block_current_until kernel_yield port_yield
    take_pendsv save_stack_pointer select_next set_current_index scan scan_start scan_round consider
    get block_current_on
to_high =
    Pair.next
      (Pair.next
        (Pair.next
          (Pair.next
            (Pair.next (Pair.next Pair.here (locks Runs-started) (inl refl)) (sleeps 1 Runs-locked)
              tt)
            (switches 0x2000_1000) tt)
          (locks Runs-mid) (inr refl))
        ticks tt)
      (switches 0x2000_1400) tt

pair_waiter_wakes_example :
    Pair.OneOf 0 1 1
    × (high_wakes.mutex.owner ≢ mutex_no_owner)
    × Pair.OneOf 0 1 high_wakes.mutex.owner
    × (high_wakes.mutex.owner ≢ 1)
    × (high_wakes.mutex.waiting_task ≡ 1)
    × (state_of (unlock_step (Pair.owner_runs 0 1 high_wakes)) 1 ≡ ready)
unfolding init_idle create set_slot slot fresh_task lock_step lock_round enter_critical
    exit_critical irq_save irq_restore sleep_ms on_table block_current_until kernel_yield port_yield
    take_pendsv save_stack_pointer select_next set_current_index scan scan_start scan_round consider
    get block_current_on kernel_tick update_blocked wake_slot
pair_waiter_wakes_example =
    Pair.pair_waiter_wakes 0 1 three_tasks-IsValid quiet_there to_high 1 (omega arith) refl

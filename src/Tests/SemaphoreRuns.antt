-- ===== src/Tests/SemaphoreRuns.antt =====
-- A task at a semaphore of count 1 and of count 0.
use tinyrtos.Prelude.{ℕ, ◌≡◌, refl, ◌<◌, arith}
use tinyrtos.Task.{slot, init_idle, create, set_slot, fresh_task, blocked_on_semaphore}
use tinyrtos.Semaphore.{Semaphore, semaphore_init}
use tinyrtos.Semaphore.System.{holding, waiting, take_step, Runs, Steps, here, next, takes}
use tinyrtos.Semaphore.Exclusion.{initial, semaphore_exclusion, unserved_blocked}
use tinyrtos.Tests.Fixtures.{started, three_tasks-IsValid}

abbrev zero_semaphore : Semaphore
zero_semaphore = record { count = 0; waiting_task = 0 }

-- The task that runs.
abbrev first : ℕ
first = 0

first-Runs : (count : ℕ) → Runs (initial started zero_semaphore count)
unfolding slot init_idle create set_slot fresh_task
first-Runs count = record { user = user; is_ready_now = refl }
  where
    user : 0 < 3
    user = omega arith

taken :
    (count : ℕ)
    → Steps
        (initial started zero_semaphore count)
        (take_step (initial started zero_semaphore count))
taken count = next here (takes (first-Runs count))

first_holds : (take_step (initial started zero_semaphore 1)).place 0 ≡ holding
unfolding take_step semaphore_init init_idle create set_slot
first_holds = refl

first_waits : (take_step (initial started zero_semaphore 0)).place 0 ≡ waiting
unfolding take_step semaphore_init init_idle create set_slot
first_waits = refl

semaphore_exclusion_example :
    (first ≡ 0) × ((take_step (initial started zero_semaphore 1)).semaphore.count ≡ 0)
semaphore_exclusion_example =
    semaphore_exclusion zero_semaphore 1 three_tasks-IsValid (omega arith) (taken 1) 0 0 first_holds
      first_holds

unserved_blocked_example :
    (slot (take_step (initial started zero_semaphore 0)).kernel.table 0).state
    ≡ blocked_on_semaphore
unserved_blocked_example =
    unserved_blocked zero_semaphore 0 three_tasks-IsValid (omega arith) (taken 0) 0 first_waits

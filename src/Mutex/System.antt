-- ===== src/Mutex/System.antt =====
-- Tasks that share one mutex of src/kernel/mutex.c, with sleeps, ticks and context switches between
-- their calls in any order.
pub mod Moves
pub mod Exclusion
pub mod Waiters
pub mod Pair
use tinyrtos.Prelude.{ℕ, ◌<◌, ◌≡◌, Option, none, some, Bool, true, false, ◌==◌, if◌then◌else◌}
use tinyrtos.Task.{TaskTable, is_ready, slot}
use tinyrtos.Kernel.{Kernel, sleep_ms, kernel_tick, take_pendsv}
use tinyrtos.Mutex.{Mutex, Round, returns, goes_round, lock_round, unlock}

-- `holds i` says that task `i` has returned from rtosk_mutex_lock and has not called
-- rtosk_mutex_unlock since.
pub record System : Type 0 where
  pub kernel : Kernel
  pub mutex : Mutex
  pub holds : ℕ → Bool

abbrev pub update : (ℕ → Bool) → ℕ → Bool → ℕ → Bool
update f i b j = if i == j then b else f j

-- A call never takes the object away.
abbrev pub object : Mutex → Option Mutex → Mutex
object m none = m
object m (some m') = m'

abbrev pub held_after : Round → (ℕ → Bool) → ℕ → ℕ → Bool
held_after returns holds i = update holds i true
held_after goes_round holds i = holds

unfoldable pub lock_step : System → System
lock_step s =
    let (r, m, k) = lock_round (some s.mutex) s.kernel in
    record {
      kernel = k;
      mutex = object s.mutex m;
      holds = held_after r s.holds s.kernel.table.current;
    }

unfoldable pub unlock_step : System → System
unlock_step s =
    let (m, k) = unlock (some s.mutex) s.kernel in
    record {
      kernel = k;
      mutex = object s.mutex m;
      holds = update s.holds s.kernel.table.current false;
    }

-- The current task is a user task that is not blocked.
pub record Runs (s : System) : Type 0 where
  pub user : s.kernel.table.current < s.kernel.table.count
  pub is_ready_now : is_ready (slot s.kernel.table s.kernel.table.current).state ≡ true

-- A round of a lock by the current task, its unlock, its sleep; a SysTick interrupt; a
-- context switch, which saves the stack pointer `sp`.
pub data Step (s : System) : System → Type 0 where
  locks : Runs s → Step s (lock_step s)
  unlocks : Runs s → Step s (unlock_step s)
  sleeps : (ms : ℕ) → Runs s → Step s (record s { kernel = sleep_ms ms s.kernel })
  ticks : Step s (record s { kernel = kernel_tick s.kernel })
  switches : (sp : ℕ) → Step s (record s { kernel = take_pendsv sp s.kernel })

pub data Steps (s : System) : System → Type 0 where
  here : Steps s s
  next : {t u : System} → Steps s t → Step t u → Steps s u

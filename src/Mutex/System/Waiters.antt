-- ===== src/Mutex/System/Waiters.antt =====
-- The one waiting slot of the mutex of src/kernel/mutex.c: with two tasks at the lock no waiter is
-- forgotten, and a third one strands the first.
use tinyrtos.Prelude.{ℕ, ◌≤◌, ◌<◌, ◌≡◌, ◌≢◌, refl, sym, ◌∙◌, ap, arith, length, Bool}
use tinyrtos.Task.{Task, TaskTable, TaskState, max_tasks, blocked_on_mutex, slot}
use tinyrtos.Kernel.{Kernel}
use tinyrtos.Kernel.Switch.{state-take_pendsv}
use tinyrtos.Kernel.Slots.{slot-block_current_on, slot-set_ready, slot-kernel_tick, slot-sleep_ms}
use tinyrtos.Mutex.{Mutex, mutex_no_owner, mutex_no_waiter}
use tinyrtos.Mutex.System.Moves.{
  Now, LockMove, takes, keeps, waits, UnlockMove, ignored, frees, wakes, lock_move, unlock_move,
}
use tinyrtos.Mutex.System.{
  System, lock_step, unlock_step, Runs, Step, locks, unlocks, sleeps, ticks, switches, Steps, here,
  next,
}
use tinyrtos.Mutex.System.Exclusion.{Inv, Step-Inv, Steps-Inv}

-- The state of task `i`.
abbrev pub state_of : System → ℕ → TaskState
state_of s i = (slot s.kernel.table i).state

-- The state of a task, read off the table that a step leaves.
pub state_of_table :
    (u : System) (i : ℕ) {t : TaskTable} {task : Task} {b : TaskState}
    → u.kernel.table ≡ t
    → slot t i ≡ task
    → task.state ≡ b
    → state_of u i ≡ b
state_of_table u i e same h =
    ap (λ (t : TaskTable). (slot t i).state) e ∙ ap (λ (x : Task). x.state) same ∙ h

-- Task `i` is blocked on the mutex, and nobody will wake it.
pub record Stranded (i : ℕ) (s : System) : Type 0 where
  pub small : i < max_tasks
  pub stuck : state_of s i ≡ blocked_on_mutex
  pub unseen : s.mutex.waiting_task ≢ i

module _ (s : System) (inv : Inv s) where
  pub sized : s.kernel.table.count ≤ length s.kernel.table.tasks
  sized = omega (arith, inv.table.size, inv.table.few)

  pub current-sized : Runs s → s.kernel.table.current < length s.kernel.table.tasks
  current-sized r = omega (arith, sized, r.user)

  pub not_current : (i : ℕ) → Runs s → state_of s i ≡ blocked_on_mutex → i ≢ s.kernel.table.current
  not_current i r stuck e = ground (arith, r.is_ready_now, stuck, e)

  Now-Stranded :
      (i : ℕ) (u : System) (m : Mutex) (t : TaskTable) (holds : ℕ → Bool)
      → Stranded i s
      → Now m t holds u
      → slot t i ≡ slot s.kernel.table i
      → m.waiting_task ≢ i
      → Stranded i u
  Now-Stranded i u m t holds st n same unseen = record {
    small = st.small;
    stuck = state_of_table u i n.table_is same st.stuck;
    unseen = rw n.mutex_is unseen;
  }

  LockMove-Stranded : (i : ℕ) → Stranded i s → Runs s → LockMove s → Stranded i (lock_step s)
  LockMove-Stranded i st r (takes free n) = Now-Stranded i _ _ _ _ st n refl st.unseen
  LockMove-Stranded i st r (keeps taken own n) = Now-Stranded i _ _ _ _ st n refl st.unseen
  LockMove-Stranded i st r (waits taken other n) =
      Now-Stranded i _ _ _ _ st n
        (slot-block_current_on blocked_on_mutex s.kernel.table i (current-sized r)
          (not_current i r st.stuck))
        (λ e. not_current i r st.stuck (sym e))

  none-ne : (i : ℕ) → i < max_tasks → mutex_no_waiter ≢ i
  none-ne i lt e = absurd (omega arith)

  UnlockMove-Stranded : (i : ℕ) → Stranded i s → Runs s → UnlockMove s → Stranded i (unlock_step s)
  UnlockMove-Stranded i st r (ignored other n) = Now-Stranded i _ _ _ _ st n refl st.unseen
  UnlockMove-Stranded i st r (frees own alone n) =
      Now-Stranded i _ _ _ _ st n refl (none-ne i st.small)
  UnlockMove-Stranded i st r (wakes own some_waits n) =
      Now-Stranded i _ _ _ _ st n
        (slot-set_ready s.mutex.waiting_task s.kernel.table i sized (λ e. st.unseen (sym e)))
        (none-ne i st.small)

  -- A step that leaves the mutex and slot `i` alone.
  kernel-Stranded :
      (i : ℕ) (k : Kernel)
      → Stranded i s
      → (slot k.table i).state ≡ (slot s.kernel.table i).state
      → Stranded i (record s { kernel = k })
  kernel-Stranded i k st same = record {
    small = st.small;
    stuck = same ∙ st.stuck;
    unseen = st.unseen;
  }

Step-Stranded : {i : ℕ} {s t : System} → Step s t → Inv s → Stranded i s → Stranded i t
Step-Stranded {i} {s} (locks r) inv st = LockMove-Stranded s inv i st r (lock_move s)
Step-Stranded {i} {s} (unlocks r) inv st = UnlockMove-Stranded s inv i st r (unlock_move s)
Step-Stranded {i} {s} (sleeps ms r) inv st = kernel-Stranded s inv i _ st (
    ap (λ (x : Task). x.state)
      (slot-sleep_ms ms s.kernel i (current-sized s inv r) (not_current s inv i r st.stuck)))
Step-Stranded {i} {s} ticks inv st =
    kernel-Stranded s inv i _ st
      (ap (λ (x : Task). x.state) (slot-kernel_tick s.kernel i (sized s inv) (rw st.stuck refl)))
Step-Stranded {i} {s} (switches sp) inv st =
    kernel-Stranded s inv i _ st (state-take_pendsv sp s.kernel i)

-- A task that is blocked on the mutex and is not its waiting task stays blocked, whatever the others
-- do: no unlock, tick or switch makes it ready.
pub Steps-Stranded : {i : ℕ} {s t : System} → Inv s → Stranded i s → Steps s t → Stranded i t
Steps-Stranded inv st here = st
Steps-Stranded inv st (next r step) = Step-Stranded step (Steps-Inv inv r) (Steps-Stranded inv st r)

-- A second waiter strands the first: when task `i` waits for the mutex and another task finds the
-- mutex taken, task `i` is blocked in every state that follows.
pub second_waiter_strands :
    {i : ℕ} {s t : System}
    → Inv s
    → i < max_tasks
    → state_of s i ≡ blocked_on_mutex
    → Runs s
    → s.mutex.owner ≢ mutex_no_owner
    → s.mutex.owner ≢ s.kernel.table.current
    → Steps (lock_step s) t
    → state_of t i ≡ blocked_on_mutex
second_waiter_strands {i} {s} inv small stuck r taken other steps =
    (Steps-Stranded (Step-Inv (locks r) inv) (overwritten (lock_move s)) steps).stuck
  where
    overwritten : LockMove s → Stranded i (lock_step s)
    overwritten (takes free n) = absurd (taken free)
    overwritten (keeps taken' own n) = absurd (other own)
    overwritten (waits taken' other' n) = record {
      small = small;
      stuck =
          state_of_table (lock_step s) i n.table_is
            (slot-block_current_on blocked_on_mutex s.kernel.table i (current-sized s inv r)
              (not_current s inv i r stuck))
            stuck;
      unseen = rw n.mutex_is (λ e. not_current s inv i r stuck (sym e));
    }

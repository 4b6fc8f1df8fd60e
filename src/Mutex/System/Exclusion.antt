-- ===== src/Mutex/System/Exclusion.antt =====
-- At most one task holds the mutex of src/kernel/mutex.c.
use tinyrtos.Prelude.{ℕ, ◌<◌, ◌≡◌, ◌≢◌, refl, sym, ◌∙◌, arith, some, Bool, true, false}
use tinyrtos.Task.{TaskTable, max_tasks, blocked_on_mutex}
use tinyrtos.Task.Valid.{IsValid}
use tinyrtos.Task.Keep.{block_current_on-IsValid, set_ready-IsValid}
use tinyrtos.Kernel.{Kernel}
use tinyrtos.Kernel.Valid.{sleep_ms-IsValid, kernel_tick-IsValid, take_pendsv-IsValid}
use tinyrtos.Mutex.{Mutex, mutex_init, mutex_no_owner, mutex_no_waiter}
use tinyrtos.Mutex.System.Moves.{
  Now, LockMove, takes, keeps, waits, UnlockMove, ignored, frees, wakes, lock_move, unlock_move,
}
use tinyrtos.Mutex.System.{
  System, lock_step, unlock_step, Runs, Step, locks, unlocks, sleeps, ticks, switches, Steps, here,
  next,
}

-- The table is valid, and exactly the owner holds the mutex.
pub record Inv (s : System) : Type 0 where
  pub table : IsValid s.kernel.table
  pub only : (i : ℕ) → s.holds i ≡ true → (s.mutex.owner ≡ i) × (i < max_tasks)
  pub holder : s.mutex.owner ≢ mutex_no_owner → s.holds s.mutex.owner ≡ true

Now-Inv :
    (s : System) (m : Mutex) (t : TaskTable) (holds : ℕ → Bool)
    → Now m t holds s
    → IsValid t
    → ((i : ℕ) → holds i ≡ true → (m.owner ≡ i) × (i < max_tasks))
    → (m.owner ≢ mutex_no_owner → holds m.owner ≡ true)
    → Inv s
Now-Inv s m t holds n v only holder = record {
  table = rw n.table_is v;
  only = rw (n.mutex_is, n.holds_is) only;
  holder = rw (n.mutex_is, n.holds_is) holder;
}

module _ (s : System) (inv : Inv s) (r : Runs s) where
  current-lt : s.kernel.table.current < max_tasks
  current-lt = ground (arith, r.user, inv.table.few)

  LockMove-Inv : LockMove s → Inv (lock_step s)
  LockMove-Inv (takes free n) =
      Now-Inv _ _ _ _ n inv.table (λ i h. ground (arith, inv.only i, current-lt))
        (λ ne. ground arith)
  LockMove-Inv (keeps taken own n) =
      Now-Inv _ _ _ _ n inv.table (λ i h. ground (arith, inv.only i, current-lt))
        (λ ne. ground arith)
  LockMove-Inv (waits taken other n) =
      Now-Inv _ _ _ _ n (block_current_on-IsValid inv.table blocked_on_mutex (λ q. cc) current-lt)
        inv.only inv.holder

  UnlockMove-Inv : UnlockMove s → Inv (unlock_step s)
  UnlockMove-Inv (ignored other n) =
      Now-Inv _ _ _ _ n inv.table (λ i h. ground (arith, inv.only i))
        (λ ne. ground (arith, inv.holder ne))
  UnlockMove-Inv (frees own alone n) =
      Now-Inv _ _ _ _ n inv.table (λ i h. ground (arith, inv.only i)) (λ ne. absurd (ne refl))
  UnlockMove-Inv (wakes own some_waits n) =
      Now-Inv _ _ _ _ n (set_ready-IsValid inv.table s.mutex.waiting_task)
        (λ i h. ground (arith, inv.only i)) (λ ne. absurd (ne refl))

-- Every step keeps the invariant.
pub Step-Inv : {s t : System} → Step s t → Inv s → Inv t
Step-Inv {s} (locks r) inv = LockMove-Inv s inv r (lock_move s)
Step-Inv {s} (unlocks r) inv = UnlockMove-Inv s inv r (unlock_move s)
Step-Inv {s} (sleeps ms r) inv = record {
  table = sleep_ms-IsValid ms s.kernel inv.table;
  only = inv.only;
  holder = inv.holder;
}
Step-Inv {s} ticks inv = record {
  table = kernel_tick-IsValid s.kernel inv.table;
  only = inv.only;
  holder = inv.holder;
}
Step-Inv {s} (switches sp) inv = record {
  table = take_pendsv-IsValid sp s.kernel inv.table;
  only = inv.only;
  holder = inv.holder;
}

pub Steps-Inv : {s t : System} → Inv s → Steps s t → Inv t
Steps-Inv inv here = inv
Steps-Inv inv (next r st) = Step-Inv st (Steps-Inv inv r)

-- A mutex that rtosk_mutex_init has set up, and nobody holding it.
abbrev pub initial : Kernel → System
initial k = record {
  kernel = k;
  mutex = record { owner = mutex_no_owner; waiting_task = mutex_no_waiter };
  holds = λ i. false;
}

initial-mutex_init : (m : Mutex) (k : Kernel) → mutex_init (some m) ≡ some ((initial k).mutex)
unfolding mutex_init
initial-mutex_init m k = refl

pub initial-Inv : (k : Kernel) → IsValid k.table → Inv (initial k)
initial-Inv k v = record { table = v; only = λ i h. cc; holder = λ ne. absurd (ne refl) }

-- Mutual exclusion: after rtosk_mutex_init, over a valid task table, no interleaving of locks,
-- unlocks, sleeps, ticks and context switches lets two tasks hold the mutex, and a task that holds
-- it is its owner.
pub mutual_exclusion :
    {k : Kernel} {t : System}
    → IsValid k.table
    → Steps (initial k) t
    → (i j : ℕ) → t.holds i ≡ true
    → t.holds j ≡ true
    → (i ≡ j) × (t.mutex.owner ≡ i)
mutual_exclusion {k} v r i j hi hj =
    let inv = Steps-Inv (initial-Inv k v) r in
    (sym ((inv.only i hi).0) ∙ (inv.only j hj).0, (inv.only i hi).0)

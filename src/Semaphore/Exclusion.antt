-- ===== src/Semaphore/Exclusion.antt =====
-- A semaphore of src/kernel/semaphore.c as a lock.
use tinyrtos.Prelude.{ℕ, ◌≤◌, ◌≡◌, refl, sym, ap, ◌∙◌, arith, some, ℕ_discrete}
use tinyrtos.Task.{Task, blocked_on_semaphore, slot}
use tinyrtos.Task.Valid.{IsValid}
use tinyrtos.Kernel.{Kernel, sleep_ms, kernel_tick, take_pendsv}
use tinyrtos.Kernel.Valid.{sleep_ms-IsValid, kernel_tick-IsValid, take_pendsv-IsValid}
use tinyrtos.Kernel.Switch.{state-take_pendsv}
use tinyrtos.Kernel.Slots.{slot-kernel_tick, slot-sleep_ms}
use tinyrtos.Semaphore.{Semaphore, semaphore_init}
use tinyrtos.Semaphore.System.{
  outside, waiting, holding, System, object, Step, takes, gives, sleeps, ticks, switches, Steps,
  here, next,
}
use tinyrtos.Semaphore.Guarded.{
  Inv, holding-outside, outside-waiting, waiting-ne, now-sized, take_step-Inv, give_step-Inv,
}

-- A change of the kernel that keeps the table valid and wakes no task that is inside a take.
kernel-Inv :
    (s : System) (k : Kernel)
    → Inv s
    → IsValid k.table
    → ((i : ℕ) → s.place i ≡ waiting → (slot k.table i).state ≡ (slot s.kernel.table i).state)
    → Inv (record s { kernel = k })
kernel-Inv s k inv v same = record {
  table = v;
  binary = inv.binary;
  one = inv.one;
  free = inv.free;
  stuck = λ i h. same i h ∙ inv.stuck i h;
  waiter = inv.waiter;
}

Step-Inv : {s t : System} → Step s t → Inv s → Inv t
Step-Inv {s} (takes r) inv = take_step-Inv s inv r
Step-Inv {s} (gives r own) inv = give_step-Inv s inv r own
Step-Inv {s} (sleeps ms r) inv =
    kernel-Inv s (sleep_ms ms s.kernel) inv (sleep_ms-IsValid ms s.kernel inv.table) (λ i h.
      ap (λ (x : Task). x.state)
        (slot-sleep_ms ms s.kernel i (now-sized s inv r) (λ e. waiting-ne s inv r i h (sym e))))
Step-Inv {s} ticks inv =
    kernel-Inv s (kernel_tick s.kernel) inv (kernel_tick-IsValid s.kernel inv.table) (λ i h.
      ap (λ (x : Task). x.state)
        (slot-kernel_tick s.kernel i (omega (arith, inv.table.size, inv.table.few))
          (rw (inv.stuck i h) refl)))
Step-Inv {s} (switches sp) inv =
    kernel-Inv s (take_pendsv sp s.kernel) inv (take_pendsv-IsValid sp s.kernel inv.table)
      (λ i h. state-take_pendsv sp s.kernel i)

Steps-Inv : {s t : System} → Inv s → Steps s t → Inv t
Steps-Inv inv here = inv
Steps-Inv inv (next r st) = Step-Inv st (Steps-Inv inv r)

-- The semaphore that rtosk_semaphore_init makes of `s`, and every task outside.
abbrev pub initial : Kernel → Semaphore → ℕ → System
initial k s count = record {
  kernel = k;
  semaphore = object s (semaphore_init count (some s));
  place = λ i. outside;
}

initial-Inv :
    (k : Kernel) (s : Semaphore) (count : ℕ) → IsValid k.table → count ≤ 1 → Inv (initial k s count)
unfolding semaphore_init
initial-Inv k s count v few = record {
  table = v;
  binary = few;
  one = λ i j h. absurd (holding-outside (sym h));
  free = λ more i h. holding-outside (sym h);
  stuck = λ i h. absurd (outside-waiting h);
  waiter = λ ne. absurd (ne refl);
}

-- A semaphore as a lock: after rtosk_semaphore_init with a count of 0 or 1, over a valid task table, and when a task
-- gives only while it holds, no interleaving of takes, gives, sleeps, ticks and context switches has two tasks hold
-- the semaphore, and its count is 0 while one does.
pub semaphore_exclusion :
    {k : Kernel} {t : System} (s : Semaphore) (count : ℕ)
    → IsValid k.table
    → count ≤ 1
    → Steps (initial k s count) t
    → (i j : ℕ) → t.place i ≡ holding
    → t.place j ≡ holding
    → (i ≡ j) × (t.semaphore.count ≡ 0)
semaphore_exclusion {k} s count v few r i j hi hj =
    let inv = Steps-Inv (initial-Inv k s count v few) r in
    (
      inv.one i j hi hj,
      elim (ℕ_discrete _ 0) [
        | yes empty ↦ empty
        | no some_left ↦ absurd (inv.free (omega arith) i hi)
      ],
    )

-- After rtosk_semaphore_init with a count of 0 or 1, over a valid task table, and when a task gives only while it
-- holds, a task whose take found the count 0, and which no give has served since, is blocked on the semaphore: no
-- tick, switch or call of another task makes it run.
pub unserved_blocked :
    {k : Kernel} {t : System} (s : Semaphore) (count : ℕ)
    → IsValid k.table
    → count ≤ 1
    → Steps (initial k s count) t
    → (i : ℕ) → t.place i ≡ waiting
    → (slot t.kernel.table i).state ≡ blocked_on_semaphore
unserved_blocked {k} s count v few r = (Steps-Inv (initial-Inv k s count v few) r).stuck

-- ===== src/Kernel/Frame.antt =====
-- What a critical section and a yield leave alone: rtosk_kernel_enter_critical,
-- rtosk_kernel_exit_critical and rtosk_kernel_yield of src/kernel/kernel.c.
use tinyrtos.Prelude.{ap, ◌≡◌, refl, arith}
use tinyrtos.Task.{TaskTable}
use tinyrtos.Kernel.{Kernel, on_table, enter_critical, exit_critical, kernel_yield}

-- The fields besides the processor and the critical section's own counters.
pub record SameBut (table : TaskTable) (k k' : Kernel) : Type 0 where
  pub same_table : k'.table ≡ table
  pub same_systicks : k'.systicks ≡ k.systicks
  pub same_init : k'.kernel_init ≡ k.kernel_init

pub enter_critical-SameBut : (k : Kernel) → SameBut k.table k (enter_critical k)
unfolding enter_critical
enter_critical-SameBut k = record { same_table = refl; same_systicks = refl; same_init = refl }

pub exit_critical-SameBut : (k : Kernel) → SameBut k.table k (exit_critical k)
unfolding exit_critical
exit_critical-SameBut k = ground arith

pub kernel_yield-SameBut : (k : Kernel) → SameBut k.table k (kernel_yield k)
unfolding kernel_yield
kernel_yield-SameBut k = record { same_table = refl; same_systicks = refl; same_init = refl }

pub on_table-SameBut :
    (f : TaskTable → TaskTable) (k : Kernel) → SameBut (f k.table) k (on_table f k)
unfolding on_table
on_table-SameBut f k = record { same_table = refl; same_systicks = refl; same_init = refl }

-- A table operation inside a critical section.
pub critical_section-SameBut :
    (f : TaskTable → TaskTable) (k : Kernel)
    → SameBut (f k.table) k (exit_critical (on_table f (enter_critical k)))
critical_section-SameBut f k =
    let e = enter_critical-SameBut k in
    let o = on_table-SameBut f (enter_critical k) in
    let x = exit_critical-SameBut (on_table f (enter_critical k)) in ground (arith, e, o, x)

-- The same, with the yield that follows it where the caller gives up the processor.
pub critical_yield-SameBut :
    (f : TaskTable → TaskTable) (k : Kernel)
    → SameBut (f k.table) k (kernel_yield (exit_critical (on_table f (enter_critical k))))
critical_yield-SameBut f k =
    let c = critical_section-SameBut f k in
    let y = kernel_yield-SameBut (exit_critical (on_table f (enter_critical k))) in
    ground (arith, c, y)

-- A critical section around nothing.
pub empty_section-SameBut : (k : Kernel) → SameBut k.table k (exit_critical (enter_critical k))
empty_section-SameBut k =
    let e = enter_critical-SameBut k in
    let x = exit_critical-SameBut (enter_critical k) in ground (arith, e, x)

-- The same, with the yield after it.
pub empty_yield-SameBut :
    (k : Kernel) → SameBut k.table k (kernel_yield (exit_critical (enter_critical k)))
empty_yield-SameBut k =
    let s = empty_section-SameBut k in
    let y = kernel_yield-SameBut (exit_critical (enter_critical k)) in ground (arith, s, y)

-- The task that runs inside a critical section is the one that entered it.
pub current-entered : (k : Kernel) → (enter_critical k).table.current ≡ k.table.current
current-entered k = ap (λ (t : TaskTable). t.current) (enter_critical-SameBut k).same_table

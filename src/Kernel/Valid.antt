-- ===== src/Kernel/Valid.antt =====
-- The functions of src/kernel/kernel.c that change the task table keep its invariant.
use tinyrtos.Prelude.{ℕ, Bool-cases, inl, inr, ◌&&◌, ◌%◌, ◌==◌, add32}
use tinyrtos.Task.Valid.{IsValid}
use tinyrtos.Task.Keep.{
  block_current_until-IsValid, update_blocked-IsValid, save_stack_pointer-IsValid,
}
use tinyrtos.Scheduler.Reach.{select_next-IsValid}
use tinyrtos.Kernel.{Kernel, sleep_ms, kernel_tick, take_pendsv, on_table, kernel_yield}
use tinyrtos.Kernel.Sleep.{sleep_ms-SameBut}

pub sleep_ms-IsValid : (ms : ℕ) (k : Kernel) → IsValid k.table → IsValid (sleep_ms ms k).table
sleep_ms-IsValid ms k v =
    rw (sleep_ms-SameBut ms k).same_table (block_current_until-IsValid v (add32 k.systicks ms))

pub kernel_tick-IsValid : (k : Kernel) → IsValid k.table → IsValid (kernel_tick k).table
unfolding kernel_tick on_table kernel_yield
kernel_tick-IsValid k v = elim (Bool-cases k.kernel_init) [
  | inl on ↦ simp on (update_blocked-IsValid v (add32 k.systicks 1))
  | inr off ↦ simp off v
]

pub take_pendsv-IsValid : (sp : ℕ) (k : Kernel) → IsValid k.table → IsValid (take_pendsv sp k).table
unfolding take_pendsv
take_pendsv-IsValid sp k v = elim (Bool-cases (k.cpu.pendsv && (k.cpu.primask % 2 == 0))) [
  | inl taken ↦ rw taken (select_next-IsValid (save_stack_pointer-IsValid v sp))
  | inr left ↦ rw left v
]

-- ===== src/Port.antt =====
-- The processor as src/kernel/port.c drives it. PRIMASK, the pending bit of PendSV and the trap bits
-- of SCB->CCR are kept; what NVIC_SetPriority (CMSIS) is called with is recorded as it is passed.
use tinyrtos.Prelude.{ℕ, ◌%◌, Bool, true, ◌==◌, if◌then◌else◌}

pub record Cpu : Type 0 where
  pub primask : ℕ
  pub pendsv : Bool
  pub pendsv_priority : ℕ
  pub systick_priority : ℕ
  pub div_0_trap : Bool
  pub unalign_trap : Bool
  -- SystemCoreClock, and the SysTick registers: LOAD, VAL, and the three bits of CTRL at once
  pub system_core_clock : ℕ
  pub systick_load : ℕ
  pub systick_val : ℕ
  pub systick_enabled : Bool

-- rtosk_port_irq_save: PRIMASK as it was, and interrupts off.
unfoldable pub irq_save : Cpu → ℕ × Cpu
irq_save c = (c.primask, record c { primask = 1 })

-- rtosk_port_irq_restore; `primask & 1` is the remainder modulo 2.
unfoldable pub irq_restore : ℕ → Cpu → Cpu
irq_restore primask c = if primask % 2 == 0 then record c { primask = 0 } else c

-- rtosk_port_yield: PendSV is made pending.
unfoldable pub port_yield : Cpu → Cpu
port_yield c = record c { pendsv = true }

unfoldable pub configure_exceptions : Cpu → Cpu
configure_exceptions c = record c { pendsv_priority = 0xFF; systick_priority = 0xFE }

unfoldable pub configure_faults : Cpu → Cpu
configure_faults c = record c { div_0_trap = true; unalign_trap = true }

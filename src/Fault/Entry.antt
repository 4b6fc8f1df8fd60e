-- ===== src/Fault/Entry.antt =====
-- The entry of the hard fault, HardFault_Handler of src/kernel/port.c.
use Prim.Native.Nat.{bit_and}
use tinyrtos.Prelude.{ℕ, zero, suc, List, [], ◌∷◌, add32, ◌==◌, if◌then◌else◌}
use tinyrtos.Port.{Cpu}
use tinyrtos.Fault.{Scb, fault_hardfault_handler}

-- `n` words of the memory from `a` on
abbrev pub words_at : (memory : ℕ → ℕ) → (n a : ℕ) → List ℕ
words_at memory zero a = []
words_at memory (suc n) a = memory a ∷ words_at memory n (add32 a 4)

-- The stack that was in use, by bit 2 of the link register
abbrev pub fault_stack : (msp psp lr : ℕ) → ℕ
fault_stack msp psp lr = if bit_and lr 4 == 0 then msp else psp

-- HardFault_Handler: the report of the words of that stack, R0 to R3, R12, LR, PC and xPSR.
unfoldable pub hardfault_entry : (memory : ℕ → ℕ) → (msp psp lr : ℕ) → Scb → Cpu → Cpu × List ℕ
unfolding fault_hardfault_handler
hardfault_entry memory msp psp lr =
    fault_hardfault_handler (words_at memory 8 (fault_stack msp psp lr)) lr

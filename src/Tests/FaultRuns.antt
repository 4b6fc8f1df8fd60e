-- ===== src/Tests/FaultRuns.antt =====
-- The hard fault report on concrete registers.
use tinyrtos.Prelude.{◌/◌, ◌∷◌, [], ℕ, ◌≡◌, refl, ◌++◌, List, length, codes, arith}
use tinyrtos.Fault.{fault_write_hex32, cfsr_flags}
use tinyrtos.Fault.Entry.{words_at, fault_stack}
use tinyrtos.Fault.Registers.{hex_from, fault_write_hex32_lem}
use tinyrtos.Fault.Flags.{named}

fault_write_hex32_lem_example :
    (digits : List ℕ) × (fault_write_hex32 0xDEAD_BEEF ≡ codes "0x" ++ digits)
    × (length digits ≡ 8)
    × (hex_from 0 digits ≡ 0xDEAD_BEEF)
fault_write_hex32_lem_example = fault_write_hex32_lem 0xDEAD_BEEF (omega arith)

fault_write_hex32_run : fault_write_hex32 0xDEAD_BEEF ≡ codes "0xDEADBEEF"
unfolding fault_write_hex32
fault_write_hex32_run = refl

-- Two flags on one line.
named_run :
    named 0x8200 cfsr_flags
    ≡ codes "  - PRECISERR: precise data bus error  - BFARVALID: BFAR contains valid address"
named_run = refl

-- A fault of a task, on the process stack at 0x2000_0400.
fault_stack_run :
    words_at (λ a. a / 4) 3 (fault_stack 0x2002_0000 0x2000_0400 0xFFFF_FFFD)
    ≡ 0x0800_0100 ∷ 0x0800_0101 ∷ 0x0800_0102 ∷ []
fault_stack_run = refl

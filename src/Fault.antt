-- ===== src/Fault.antt =====
-- The hard fault report of src/kernel/fault.c: the bytes that it sends over USART3.
pub mod Registers
pub mod Flags
pub mod Entry
use Prim.Native.Nat.{bit_and}
use tinyrtos.Prelude.{
  ℕ, ◌-◌, ◌*◌, ◌/◌, ◌%◌, ◌^◌, List, [], ◌∷◌, ◌++◌, not, get_or, for_range, bit_mask, String, codes,
  ◌==◌, if◌then◌else◌,
}
use tinyrtos.Bsp.Usart3.{usart3_write_char, usart3_write_string}
use tinyrtos.Port.{Cpu}

unfoldable pub fault_write : String → List ℕ
unfolding usart3_write_string
fault_write s = usart3_write_string (codes s)

-- `hex[(value >> i) & 0xF]`
abbrev pub hex_digit : (value i : ℕ) → ℕ
hex_digit value i = get_or (codes "0123456789ABCDEF") (value / 2 ^ i % 16) 0

-- Round `j` of the loop has `i` = 28 - 4 j.
unfoldable pub fault_write_hex32 : ℕ → List ℕ
unfolding fault_write
fault_write_hex32 value =
    for_range 8 0 (λ j sent. sent ++ usart3_write_char (hex_digit value (28 - 4 * j)))
      (fault_write "0x")

unfoldable pub fault_write_reg : String → ℕ → List ℕ
unfolding fault_write_hex32
fault_write_reg name value =
    fault_write name ++ (fault_write " : " ++ (fault_write_hex32 value ++ fault_write "\r\n"))

unfoldable pub fault_write_flag : (reg mask : ℕ) → String → List ℕ
unfolding fault_write
fault_write_flag reg mask name =
    if not (bit_and reg mask == 0) then fault_write "  - " ++ fault_write name else []

-- `if((word & (1UL << k)) != 0UL)`
abbrev pub if_bit : (word k : ℕ) → List ℕ → List ℕ → List ℕ
if_bit word k set clear = if not (bit_and word (bit_mask k) == 0) then set else clear

unfoldable pub fault_decode_exc_return : ℕ → List ℕ
unfolding fault_write
fault_decode_exc_return exc_return =
    fault_write "EXC_RETURN DECODE:\r\n"
    ++ (if_bit exc_return 2 (fault_write "  - stack used: PSP\r\n")
          (fault_write "  - stack used: MSP\r\n")
        ++ (if_bit exc_return 3 (fault_write "  - return mode: THREAD\r\n")
              (fault_write "  - return mode: HANDLER\r\n")
            ++ if_bit exc_return 4 (fault_write "  - frame type: BASIC\r\n")
                (fault_write "  - frame type: EXTENDED/FPU\r\n")))

-- The calls `fault_write_flag(reg, (1UL << k), name)` of a function, in their order, as the list of `k` and
-- `name`.
unfoldable pub fault_write_flags : ℕ → List (ℕ × String) → List ℕ
unfolding fault_write_flag
fault_write_flags reg [] = []
fault_write_flags reg ((k, name) ∷ calls) =
    fault_write_flag reg (bit_mask k) name ++ fault_write_flags reg calls

abbrev pub cfsr_flags : List (ℕ × String)
cfsr_flags =
    (0, "IACCVIOL: instruction access violation")
    ∷ (1, "DACCVIOL: data access violation")
    ∷ (3, "MUNSTKERR: fault during exception unstacking")
    ∷ (4, "MSTKERR: fault during exception stacking")
    ∷ (5, "MLSPERR: lazy FP stacking fault")
    ∷ (7, "MMARVALID: MMFAR contains valid address")
    ∷ (8, "IBUSERR: instruction bus error")
    ∷ (9, "PRECISERR: precise data bus error")
    ∷ (10, "IMPRECISERR: imprecise data bus error")
    ∷ (11, "UNSTKERR: bus fault during exception unstacking")
    ∷ (12, "STKERR: bus fault during exception stacking")
    ∷ (13, "LSPERR: lazy FP bus fault")
    ∷ (15, "BFARVALID: BFAR contains valid address")
    ∷ (16, "UNDEFINSTR: undefined instruction")
    ∷ (17, "INVSTATE: invalid EPSR/Thumb state")
    ∷ (18, "INVPC: invalid exception return")
    ∷ (19, "NOCP: coprocessor access fault")
    ∷ (24, "UNALIGNED: unaligned access")
    ∷ (25, "DIVBYZERO: divide by zero")
    ∷ []

unfoldable pub fault_decode_cfsr : ℕ → List ℕ
unfolding fault_write_flags
fault_decode_cfsr cfsr = fault_write "CFSR DECODE:\r\n" ++ fault_write_flags cfsr cfsr_flags

abbrev pub hfsr_flags : List (ℕ × String)
hfsr_flags =
    (1, "VECTTBL: fault during vector table read")
    ∷ (30, "FORCED: configurable fault escalated to HardFault")
    ∷ (31, "DEBUGEVT: debug event caused HardFault")
    ∷ []

unfoldable pub fault_decode_hfsr : ℕ → List ℕ
unfolding fault_write_flags
fault_decode_hfsr hfsr = fault_write "\r\nHFSR DECODE:\r\n" ++ fault_write_flags hfsr hfsr_flags

unfoldable pub fault_print_fault_summary : (cfsr hfsr : ℕ) → List ℕ
unfolding fault_write
fault_print_fault_summary cfsr hfsr =
    fault_write "\r\nLIKELY CAUSE:\r\n"
    ++ if_bit cfsr 16 (fault_write "  undefined instruction executed.\r\n") (
        if_bit cfsr 18 (fault_write "  invalid exception return or corrupted stack frame.\r\n") (
          if_bit cfsr 1 (fault_write "  invalid data memory access.\r\n") (
            if_bit cfsr 9 (fault_write "  precise bus fault. Check BFAR if valid.\r\n") (
              if_bit cfsr 24 (fault_write "  unaligned memory access.\r\n") (
                if_bit cfsr 25 (fault_write "  divide by zero.\r\n") (
                  if_bit hfsr 30 (fault_write "  configurable fault escalated to HardFault.\r\n")
                    (fault_write "  unknown. check PC, LR, CFSR, and HFSR.\r\n")))))))

-- The registers of the system control block that the report reads.
pub record Scb : Type 0 where
  pub cfsr : ℕ
  pub hfsr : ℕ
  pub dfsr : ℕ
  pub afsr : ℕ
  pub mmfar : ℕ
  pub bfar : ℕ

unfoldable pub fault_registers : (stacked : List ℕ) (exc_return : ℕ) → Scb → List ℕ
unfolding fault_write_reg
fault_registers stacked exc_return scb =
    fault_write_reg "EXC_RETURN" exc_return
    ++ (fault_write_reg "R0 " (get_or stacked 0 0)
        ++ (fault_write_reg "R1 " (get_or stacked 1 0)
            ++ (fault_write_reg "R2 " (get_or stacked 2 0)
                ++ (fault_write_reg "R3 " (get_or stacked 3 0)
                    ++ (fault_write_reg "R12" (get_or stacked 4 0)
                        ++ (fault_write_reg "LR " (get_or stacked 5 0)
                            ++ (fault_write_reg "PC " (get_or stacked 6 0)
                                ++ (fault_write_reg "xPSR" (get_or stacked 7 0)
                                    ++ (fault_write "----------------------------------------\r\n"
                                        ++ (fault_write_reg "CFSR" scb.cfsr
                                            ++ (fault_write_reg "HFSR" scb.hfsr
                                                ++ (fault_write_reg "DFSR" scb.dfsr
                                                    ++ (fault_write_reg "AFSR" scb.afsr
                                                        ++ (fault_write_reg "MMFAR" scb.mmfar
                                                            ++ (fault_write_reg "BFAR" scb.bfar
                                                            ++ fault_write
                                                            "----------------------------------------\r\n")))))))))))))))

-- rtosk_fault_hardfault_handler up to its endless loop: interrupts are off, and this has been sent.
unfoldable pub fault_hardfault_handler :
    (stacked : List ℕ) (exc_return : ℕ) → Scb → Cpu → Cpu × List ℕ
unfolding fault_registers fault_decode_exc_return fault_decode_cfsr fault_decode_hfsr
    fault_print_fault_summary
fault_hardfault_handler stacked exc_return scb cpu = (
  record cpu { primask = 1 },
  fault_write "\r\n"
      ++ (fault_write "========================================\r\n"
          ++ (fault_write "           TinyRTOS HARDFAULT           \r\n"
              ++ (fault_write "========================================\r\n"
                  ++ (fault_registers stacked exc_return scb
                      ++ (fault_decode_exc_return exc_return
                          ++ (fault_decode_cfsr scb.cfsr
                              ++ (fault_decode_hfsr scb.hfsr
                                  ++ (fault_print_fault_summary scb.cfsr scb.hfsr
                                      ++ (fault_write "========================================\r\n"
                                          ++ fault_write "SYSTEM HALTED.\r\n"))))))))),
)

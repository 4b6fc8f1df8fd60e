-- ===== src/Osi/Invoke.antt =====
-- osi_invoke and rtosk_osi_dispatch_command of src/osi/osi.c. The kernel goes on while a command runs:
-- `k i` is the kernel that the `i`-th read of the command finds. A buffer of `n` bytes takes the first
-- `n - 1` bytes of what is printed into it.
use tinyrtos.Prelude.{
  ℕ, zero, suc, ◌-◌, ◌/◌, ◌%◌, List, [], ◌∷◌, ◌++◌, Option, none, some, Bool, true, false, take,
  for_range, mul32, codes, same_text, decimal, zero_padded, left_justified,
}
use tinyrtos.Task.{TaskInfo, total_task_slots, state_to_string}
use tinyrtos.Kernel.{Kernel, get_ticks, get_cpu_freq, kernel_get_task_info}
use tinyrtos.Osi.{
  OsiCmd, unknown, help, tasks, ticks, uptime, freq, about, fault, reboot, osi_cmd_count, osi_cmd,
  osi_command_literal, Action, delays, undefined_instruction, resets, write_locked,
}

-- RTOSK_KERNEL_VERSION
abbrev pub kernel_version : List ℕ
kernel_version = codes "2026.5.22+4"

-- One round of the loop of `help`.
abbrev pub help_line : ℕ → List Action
help_line i =
    write_locked (codes "  ")
    ++ (write_locked (codes (osi_command_literal (osi_cmd i))) ++ write_locked (codes "\r\n"))

-- "%lu   %lu    %-6s  %luB   %luB   %s\r\n", into 128 bytes
unfoldable pub task_line : TaskInfo → List ℕ
unfolding decimal left_justified
task_line info = take 127 (
    decimal info.index
    ++ (codes "   "
        ++ (decimal info.priority
            ++ (codes "    "
                ++ (left_justified 6 (codes (state_to_string info.state))
                    ++ (codes "  "
                        ++ (decimal (mul32 info.stack_used_words 4)
                            ++ (codes "B   "
                                ++ (decimal (mul32 info.stack_free_words 4)
                                    ++ (codes "B   " ++ (codes info.name ++ codes "\r\n")))))))))))

-- One round of the loop of `tasks`.
abbrev pub task_row : Option TaskInfo → List Action
task_row none = []
task_row (some info) = write_locked (task_line info)

-- "\rticks: %lu\r\n", into 48 bytes
unfoldable pub ticks_line : ℕ → List ℕ
unfolding decimal
ticks_line n = take 47 (codes "\rticks: " ++ (decimal n ++ codes "\r\n"))

-- "\ruptime: %lu.%03lu sec\r\n", into 64 bytes
unfoldable pub uptime_line : ℕ → List ℕ
unfolding decimal zero_padded
uptime_line n = take 63 (
    codes "\ruptime: "
    ++ (decimal (n / 1000) ++ (codes "." ++ (zero_padded 3 (n % 1000) ++ codes " sec\r\n"))))

-- "\rcpu: %lu Hz\r\n", into 64 bytes
unfoldable pub freq_line : ℕ → List ℕ
unfolding decimal
freq_line n = take 63 (codes "\rcpu: " ++ (decimal n ++ codes " Hz\r\n"))

unfoldable pub about_text : List ℕ
about_text =
    codes "\rtinyrtos\r\nVersion : "
    ++ (kernel_version
        ++ (codes "\r\nAuthor  : Ian Wilkey\r\nTarget  : STM32F756ZG\r\n"
            ++ codes "Mode    : Preemptive Priority RTOS\r\nLicense : MIT\r\n"))

unfoldable pub osi_invoke : (k : ℕ → Kernel) → OsiCmd → List ℕ → List Action
unfolding task_line ticks_line uptime_line freq_line about_text
osi_invoke k help literal =
    for_range (osi_cmd_count - 1) 1 (λ i done. done ++ help_line i)
      (write_locked (codes "\rcommands:\r\n"))
osi_invoke k tasks literal =
    for_range total_task_slots 0 (λ i done. done ++ task_row (kernel_get_task_info i (k i)))
      (write_locked (codes "\rID  PRI  STATE   USED  FREE  NAME\r\n")
        ++ write_locked (codes "-----------------------------------\r\n"))
osi_invoke k ticks literal = write_locked (ticks_line (get_ticks (k 0)))
osi_invoke k uptime literal = write_locked (uptime_line (get_ticks (k 0)))
osi_invoke k freq literal = write_locked (freq_line (get_cpu_freq (k 0)))
osi_invoke k about literal = write_locked about_text
osi_invoke k fault literal =
    write_locked (codes "\rtriggering HardFault...") ++ undefined_instruction ∷ []
osi_invoke k reboot literal = write_locked (codes "\rrebooting...\r\n") ++ delays 250 ∷ resets ∷ []
osi_invoke k unknown literal =
    write_locked (codes "\runknown command: ")
    ++ (write_locked literal ++ write_locked (codes "\r\n"))

-- The loop of rtosk_osi_dispatch_command, from `i` on with `n` rounds left; OSI_CMD_UNKNOWN is 0.
abbrev pub find_command : (n i : ℕ) → List ℕ → ℕ
find_command zero i cmd = 0
find_command (suc n) i cmd = elim (same_text cmd (codes (osi_command_literal (osi_cmd i)))) [
  | true ↦ i
  | false ↦ find_command n (suc i) cmd
]

-- Whether osi_invoke never returns: `udf` ends in the hard fault handler, which is noreturn, and NVIC_SystemReset
-- does not return either.
abbrev pub never_returns : OsiCmd → Bool
never_returns fault = true
never_returns reboot = true
never_returns c = false

abbrev pub ends_program : List ℕ → Bool
ends_program cmd = never_returns (osi_cmd (find_command (osi_cmd_count - 1) 1 cmd))

unfoldable pub dispatch_command : (k : ℕ → Kernel) → List ℕ → List Action
unfolding osi_invoke
dispatch_command k cmd = osi_invoke k (osi_cmd (find_command (osi_cmd_count - 1) 1 cmd)) cmd

-- ===== src/Osi.antt =====
-- The operator shell of src/osi/osi.c and include/tinyrtos/osi/osi.h: its commands, its line editor and
-- what it does to the world, as a list of actions in their order. Texts are lists of bytes.
pub mod Invoke
pub mod Task
pub mod Typing
pub mod Editor
pub mod Line
pub mod Commands
pub mod Locked
pub mod Init
pub mod Feed
use tinyrtos.Prelude.{ℕ, zero, suc, List, [], ◌∷◌, ◌++◌, String, codes}

-- RTOSK_OSI_CMD_BUFFER_SIZE
abbrev pub osi_cmd_buffer_size : ℕ
osi_cmd_buffer_size = 128

-- osi_cmd_t, without OSI_CMD_COUNT
pub data OsiCmd : Type 0 where
  unknown help tasks ticks uptime freq about fault reboot : OsiCmd

-- OSI_CMD_COUNT
abbrev pub osi_cmd_count : ℕ
osi_cmd_count = 9

-- `(osi_cmd_t)i`
abbrev pub osi_cmd : ℕ → OsiCmd
osi_cmd zero = unknown
osi_cmd (suc zero) = help
osi_cmd (suc (suc zero)) = tasks
osi_cmd (suc (suc (suc zero))) = ticks
osi_cmd (suc (suc (suc (suc zero)))) = uptime
osi_cmd (suc (suc (suc (suc (suc zero))))) = freq
osi_cmd (suc (suc (suc (suc (suc (suc zero)))))) = about
osi_cmd (suc (suc (suc (suc (suc (suc (suc zero))))))) = fault
osi_cmd (suc (suc (suc (suc (suc (suc (suc (suc zero)))))))) = reboot
osi_cmd (suc (suc (suc (suc (suc (suc (suc (suc (suc i))))))))) = unknown

-- `OSI_COMMAND_LITERALS[cmd]`
abbrev pub osi_command_literal : OsiCmd → String
osi_command_literal unknown = "unknown"
osi_command_literal help = "help"
osi_command_literal tasks = "tasks"
osi_command_literal ticks = "ticks"
osi_command_literal uptime = "uptime"
osi_command_literal freq = "freq"
osi_command_literal about = "about"
osi_command_literal fault = "fault"
osi_command_literal reboot = "reboot"

-- What the shell calls: the mutex of the line, the two functions that write to it, the kernel's busy
-- wait, the undefined instruction of `fault`, and NVIC_SystemReset.
pub data Action : Type 0 where
  locks unlocks : Action
  writes_string : List ℕ → Action
  writes_char : ℕ → Action
  delays : ℕ → Action
  undefined_instruction resets : Action

-- rtosk_osi_usart3_write_locked
abbrev pub write_locked : List ℕ → List Action
write_locked s = locks ∷ writes_string s ∷ unlocks ∷ []

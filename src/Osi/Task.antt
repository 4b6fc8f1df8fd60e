-- ===== src/Osi/Task.antt =====
-- rtosk_osi_task of src/osi/osi.c, the loop's body as a function of the byte that it receives.
use tinyrtos.Prelude.{
  ℕ, ◌+◌, ◌-◌, List, [], ◌∷◌, ◌++◌, Bool, true, false, ◌||◌, set, ltb, ◌==◌, if◌then◌else◌, codes,
  c_string,
}
use tinyrtos.Kernel.{Kernel}
use tinyrtos.Osi.{Action, locks, unlocks, writes_char, delays, write_locked, osi_cmd_buffer_size}
use tinyrtos.Osi.Invoke.{dispatch_command, ends_program}

-- The locals of the task besides `c`; and whether a command has ended the program, after which the task does nothing
-- more.
pub record Osi : Type 0 where
  pub cmd : List ℕ
  pub len : ℕ
  pub saw_cr : Bool
  pub halted : Bool

-- The banner, before the loop.
unfoldable pub boot : List Action
boot =
    delays 1000
      ∷ write_locked (
          codes "\r========================================\r\n"
          ++ (codes "              TinyRTOS BOOT             \r\n"
              ++ (codes "========================================\r\n"
                  ++ (codes "  Author : Ian Wilkey\r\n"
                      ++ (codes "  Target : STM32F756ZG\r\n"
                          ++ (codes "  Mode   : Preemptive Priority RTOS\r\n"
                              ++ (codes "----------------------------------------\r\n"
                                  ++ (codes "  This is the built-in OSI for simple   \r\n"
                                      ++ (codes "  commands and OS exploration.          \r\n"
                                          ++ (codes "  Type 'help' for available commands.   \r\n"
                                              ++ codes
                                                  "========================================\r\n\r"))))))))))
    ++ write_locked (codes "> ")

-- What the two line ends share: the new line, the command if there is one, and the prompt if the command returns.
unfoldable pub end_line : (k : ℕ → Kernel) → Osi → Osi × List Action
unfolding dispatch_command
end_line k o =
    let cmd = set o.cmd o.len 0 in
    if ltb 0 o.len
    then (if ends_program (c_string cmd)
        then (
          record o { cmd = cmd; halted = true },
          write_locked (codes "\r\n") ++ dispatch_command k (c_string cmd),
        )
        else (
          record o { cmd = cmd; len = 0 },
          write_locked (codes "\r\n")
              ++ (dispatch_command k (c_string cmd) ++ write_locked (codes "> ")),
        ))
    else (o, write_locked (codes "\r\n") ++ write_locked (codes "> "))

-- A backspace or a delete.
unfoldable pub erase : Osi → Osi × List Action
erase o =
    if ltb 0 o.len
    then (record o { len = o.len - 1 }, write_locked (codes "\u{8} \u{8}"))
    else (o, [])

-- Any other byte.
unfoldable pub type_char : ℕ → Osi → Osi × List Action
type_char c o =
    if ltb o.len (osi_cmd_buffer_size - 1)
    then (
      record o { cmd = set o.cmd o.len c; len = o.len + 1 },
      locks ∷ writes_char c ∷ unlocks ∷ [],
    )
    else (o, [])

-- The body of the loop after rtosk_queue_receive.
unfoldable pub take_byte : (k : ℕ → Kernel) → ℕ → Osi → Osi × List Action
unfolding end_line erase type_char
take_byte k c o =
    if c == b'\r'
    then end_line k (record o { saw_cr = true })
    else if c == b'\n'
    then (if o.saw_cr then (record o { saw_cr = false }, []) else end_line k o)
    else if (c == 0x08) || (c == 0x7F)
    then erase (record o { saw_cr = false })
    else type_char c (record o { saw_cr = false })

unfoldable pub receive_byte : (k : ℕ → Kernel) → ℕ → Osi → Osi × List Action
unfolding take_byte
receive_byte k c o = if o.halted then (o, []) else take_byte k c o

-- The bytes of the queue in their order, each with the kernels that its command's reads find.
unfoldable pub receive_all : List (ℕ × (ℕ → Kernel)) → Osi → Osi × List Action
unfolding receive_byte
receive_all [] o = (o, [])
receive_all ((c, k) ∷ cs) o =
    let now = receive_byte k c o in let rest = receive_all cs now.0 in (rest.0, now.1 ++ rest.1)

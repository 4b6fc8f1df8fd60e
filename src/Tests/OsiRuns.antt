-- ===== src/Tests/OsiRuns.antt =====
-- The shell on "help" and on an unknown command.
use tinyrtos.Prelude.{
  ℕ, ◌≡◌, refl, List, [], ◌∷◌, ◌++◌, false, replicate, length-replicate, codes, arith,
}
use tinyrtos.Kernel.{Kernel}
use tinyrtos.Osi.Invoke.{uptime_line}
use tinyrtos.Osi.Task.{Osi, receive_all, boot}
use tinyrtos.Osi.Typing.{enter, edit_all}
use tinyrtos.Osi.Editor.{Holds, Agrees, receive_all_refines}
use tinyrtos.Osi.Line.{typed, echoes, line_entered}
use tinyrtos.Osi.Commands.{Dispatched, dispatch_command_lem}
use tinyrtos.Osi.Locked.{IsDisciplined, shell_is_disciplined}
use tinyrtos.Tests.Fixtures.{started}

abbrev idle_kernel : ℕ → Kernel
idle_kernel i = started

abbrev empty_shell : Osi
empty_shell = record { cmd = replicate 128 7; len = 0; saw_cr = false; halted = false }

empty_shell-Holds : Holds [] empty_shell
empty_shell-Holds = record {
  room = length-replicate {A = ℕ} 128 7;
  size = refl;
  short = omega arith;
  text = refl;
}

line_entered_example :
    ((receive_all (typed (codes "help") idle_kernel) empty_shell).1
      ≡ echoes (codes "help") ++ enter idle_kernel (codes "help"))
    × ((receive_all (typed (codes "help") idle_kernel) empty_shell).0.halted ≡ false)
    × Holds [] (receive_all (typed (codes "help") idle_kernel) empty_shell).0
line_entered_example =
    line_entered (codes "help") idle_kernel empty_shell empty_shell-Holds refl (omega arith)

-- "a", a backspace, "b" and a line feed.
abbrev corrected : List (ℕ × (ℕ → Kernel))
corrected =
    (b'a', idle_kernel) ∷ (0x08, idle_kernel) ∷ (b'b', idle_kernel) ∷ (b'\n', idle_kernel) ∷ []

receive_all_refines_example :
    Agrees (edit_all corrected false []) (receive_all corrected empty_shell)
receive_all_refines_example = receive_all_refines corrected [] empty_shell empty_shell-Holds refl

dispatch_command_lem_example : Dispatched idle_kernel (codes "help")
dispatch_command_lem_example = dispatch_command_lem idle_kernel (codes "help")

shell_is_disciplined_example : IsDisciplined (boot ++ (receive_all corrected empty_shell).1)
shell_is_disciplined_example = shell_is_disciplined corrected empty_shell

uptime_line_run : uptime_line 61_007 ≡ codes "\ruptime: 61.007 sec\r\n"
unfolding uptime_line
uptime_line_run = refl

-- ===== src/Osi/Typing.antt =====
-- What the shell's task (src/osi/osi.c) promises to do with the bytes that come, as an editor whose line is a list.
use tinyrtos.Prelude.{
  ℕ, List, [], ◌∷◌, ◌++◌, Bool, true, false, ◌||◌, length, ltb, ◌==◌, if◌then◌else◌, codes,
  c_string,
}
use tinyrtos.Kernel.{Kernel}
use tinyrtos.Osi.{Action, locks, unlocks, writes_char, write_locked}
use tinyrtos.Osi.Invoke.{dispatch_command}
use tinyrtos.Osi.Commands.{is_last}

-- The line without its last byte.
abbrev pub drop_last : List ℕ → List ℕ
drop_last [] = []
drop_last (c ∷ []) = []
drop_last (c ∷ d ∷ cs) = c ∷ drop_last (d ∷ cs)

-- The command of a line, if it is not empty.
abbrev pub run_line : (k : ℕ → Kernel) → List ℕ → List Action
run_line k [] = []
run_line k (c ∷ cs) = dispatch_command k (c_string (c ∷ cs))

-- Whether the command of a line is one of the two that end the program.
abbrev pub last_line : List ℕ → Bool
last_line [] = false
last_line (c ∷ cs) = is_last (c_string (c ∷ cs))

-- The prompt, unless the program has ended.
abbrev pub prompt : Bool → List Action
prompt true = []
prompt false = write_locked (codes "> ")

abbrev pub enter : (k : ℕ → Kernel) → List ℕ → List Action
enter k line = write_locked (codes "\r\n") ++ (run_line k line ++ prompt (last_line line))

-- What is on the line after that.
abbrev pub entered : List ℕ → List ℕ
entered line = if last_line line then line else []

-- The state of the editor: its line, whether the last byte was a carriage return, whether the program has ended; and
-- what was done.
pub record Edit : Type 0 where
  pub text : List ℕ
  pub saw_cr : Bool
  pub ended : Bool
  pub done : List Action

abbrev pub erased : List ℕ → List Action
erased [] = []
erased (c ∷ cs) = write_locked (codes "\u{8} \u{8}")

abbrev pub echo : ℕ → List Action
echo c = locks ∷ writes_char c ∷ unlocks ∷ []

abbrev pub entering : (k : ℕ → Kernel) → (saw_cr : Bool) → List ℕ → Edit
entering k saw_cr line = record {
  text = entered line;
  saw_cr = saw_cr;
  ended = last_line line;
  done = enter k line;
}

abbrev pub editing : List ℕ → Bool → List Action → Edit
editing line saw_cr done = record { text = line; saw_cr = saw_cr; ended = false; done = done }

-- A byte at the editor, whose line holds at most 127 bytes.
abbrev pub edit : (k : ℕ → Kernel) → ℕ → Bool → List ℕ → Edit
edit k c saw_cr line =
    if c == b'\r'
    then entering k true line
    else if c == b'\n'
    then (if saw_cr then editing line false [] else entering k saw_cr line)
    else if (c == 0x08) || (c == 0x7F)
    then editing (drop_last line) false (erased line)
    else if ltb (length line) 127
    then editing (line ++ c ∷ []) false (echo c)
    else editing line false []

-- Bytes at the editor, up to the end of the program.
unfoldable pub edit_all : List (ℕ × (ℕ → Kernel)) → Bool → List ℕ → Edit
edit_all [] saw_cr line = editing line saw_cr []
edit_all ((c, k) ∷ cs) saw_cr line =
    let now = edit k c saw_cr line in
    let rest = edit_all cs now.saw_cr now.text in
    if now.ended then now else record rest { done = now.done ++ rest.done }

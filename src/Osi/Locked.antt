-- ===== src/Osi/Locked.antt =====
-- The shell of src/osi/osi.c and the mutex of its line: it writes only while it holds the mutex, and holds it
-- for nothing else.
use tinyrtos.Prelude.{
  ℕ, ◌-◌, ◌≡◌, refl, ap, ◌∙◌, List, [], ◌∷◌, ◌++◌, Option, none, some, Bool, true, false,
  Bool-cases, inl, inr, ◌||◌, subst, sym, if◌then◌else◌, ltb, ◌==◌, for_range_inv, c_string, set,
  codes,
}
use tinyrtos.Task.{TaskInfo, total_task_slots}
use tinyrtos.Kernel.{Kernel, kernel_get_task_info}
use tinyrtos.Osi.{
  OsiCmd, unknown, help, tasks, ticks, uptime, freq, about, fault, reboot, Action, locks, unlocks,
  writes_string, writes_char, delays, undefined_instruction, resets, osi_cmd_buffer_size,
  write_locked,
}
use tinyrtos.Osi.Invoke.{task_row, osi_invoke, dispatch_command, ends_program}
use tinyrtos.Osi.Task.{Osi, boot, end_line, erase, type_char, take_byte, receive_byte, receive_all}

-- Whether the mutex is held after an action, from whether it is held before; `none` if the action is out of
-- place: a write without the mutex, a lock of a mutex that is held, anything but a write or an
-- unlock while it is held.
abbrev pub allowed : Bool → Action → Option Bool
allowed false locks = some true
allowed false unlocks = none
allowed false (writes_string s) = none
allowed false (writes_char c) = none
allowed false (delays ms) = some false
allowed false undefined_instruction = some false
allowed false resets = some false
allowed true locks = none
allowed true unlocks = some false
allowed true (writes_string s) = some true
allowed true (writes_char c) = some true
allowed true (delays ms) = none
allowed true undefined_instruction = none
allowed true resets = none

abbrev pub and_then : Option Bool → (Bool → Option Bool) → Option Bool
and_then none f = none
and_then (some held) f = f held

abbrev pub held_after : Bool → List Action → Option Bool
held_after held [] = some held
held_after held (a ∷ l) = and_then (allowed held a) (λ h. held_after h l)

-- From a free mutex to a free mutex, with nothing out of place.
abbrev pub IsDisciplined : List Action → Type 0
IsDisciplined l = held_after false l ≡ some false

step_on :
    (next : Option Bool) (f g : Bool → Option Bool) (final : Bool) (r : Option Bool)
    → ((h : Bool) → f h ≡ some final → g h ≡ r)
    → and_then next f ≡ some final
    → and_then next g ≡ r
step_on none f g final r go e = cc
step_on (some h) f g final r go e = go h e

pub held_after-append :
    (held final : Bool) (l m : List Action)
    → held_after held l ≡ some final
    → held_after held (l ++ m) ≡ held_after final m
held_after-append held final [] m e = ap (λ (o : Option Bool). and_then o (λ b. held_after b m)) e
held_after-append held final (a ∷ l) m e =
    step_on (allowed held a) (λ h. held_after h l) (λ h. held_after h (l ++ m)) final
      (held_after final m) (λ h q. held_after-append h final l m q) e

pub append-IsDisciplined :
    (l m : List Action) → IsDisciplined l → IsDisciplined m → IsDisciplined (l ++ m)
append-IsDisciplined l m a b = held_after-append false false l m a ∙ b

task_row-IsDisciplined : (o : Option TaskInfo) → IsDisciplined (task_row o)
task_row-IsDisciplined none = refl
task_row-IsDisciplined (some info) = refl

osi_invoke-IsDisciplined :
    (k : ℕ → Kernel) (c : OsiCmd) (s : List ℕ) → IsDisciplined (osi_invoke k c s)
unfolding osi_invoke
osi_invoke-IsDisciplined k unknown s = refl
osi_invoke-IsDisciplined k help s = refl
osi_invoke-IsDisciplined k tasks s =
    for_range_inv (λ i l. IsDisciplined l)
      (λ i done. done ++ task_row (kernel_get_task_info i (k i))) total_task_slots 0 5
      (write_locked (codes "\rID  PRI  STATE   USED  FREE  NAME\r\n")
        ++ write_locked (codes "-----------------------------------\r\n"))
      refl (λ i l lo hi p. append-IsDisciplined l _ p (task_row-IsDisciplined _)) refl
osi_invoke-IsDisciplined k ticks s = refl
osi_invoke-IsDisciplined k uptime s = refl
osi_invoke-IsDisciplined k freq s = refl
osi_invoke-IsDisciplined k about s = refl
osi_invoke-IsDisciplined k fault s = refl
osi_invoke-IsDisciplined k reboot s = refl

end_line-IsDisciplined : (k : ℕ → Kernel) (o : Osi) → IsDisciplined (end_line k o).1
unfolding end_line
end_line-IsDisciplined k o = elim (Bool-cases (ltb 0 o.len)) [
  | inl something ↦
      let cmd = c_string (set o.cmd o.len 0) in
      elim (Bool-cases (ends_program cmd)) [
        | inl ends ↦ rw (something, ends) (osi_invoke-IsDisciplined k _ cmd)
        | inr returns ↦
            rw (something, returns)
              (append-IsDisciplined (dispatch_command k cmd) (write_locked (codes "> "))
                (osi_invoke-IsDisciplined k _ cmd) refl)
      ]
  | inr nothing ↦ rw nothing refl
]

erase-IsDisciplined : (o : Osi) → IsDisciplined (erase o).1
unfolding erase
erase-IsDisciplined o = elim (Bool-cases (ltb 0 o.len)) [
  | inl something ↦ rw something refl
  | inr nothing ↦ rw nothing refl
]

type_char-IsDisciplined : (c : ℕ) (o : Osi) → IsDisciplined (type_char c o).1
unfolding type_char
type_char-IsDisciplined c o = elim (Bool-cases (ltb o.len (osi_cmd_buffer_size - 1))) [
  | inl fits ↦ rw fits refl
  | inr full ↦ rw full refl
]

take_byte-IsDisciplined : (k : ℕ → Kernel) (c : ℕ) (o : Osi) → IsDisciplined (take_byte k c o).1
unfolding take_byte
take_byte-IsDisciplined k c o = elim (Bool-cases (c == b'\r')) [
  | inl cr ↦ rw cr (end_line-IsDisciplined k (record o { saw_cr = true }))
  | inr not_cr ↦ rw not_cr (elim (Bool-cases (c == b'\n')) [
    | inl lf ↦ rw lf (elim (Bool-cases o.saw_cr) [
      | inl saw ↦ rw saw refl
      | inr not_seen ↦ rw not_seen (end_line-IsDisciplined k (record o { saw_cr = false }))
    ])
    | inr not_lf ↦ rw not_lf (elim (Bool-cases ((c == 0x08) || (c == 0x7F))) [
      | inl bs ↦ rw bs (erase-IsDisciplined (record o { saw_cr = false }))
      | inr other ↦ rw other (type_char-IsDisciplined c (record o { saw_cr = false }))
    ])
  ])
]

receive_byte-IsDisciplined :
    (k : ℕ → Kernel) (c : ℕ) (o : Osi) → IsDisciplined (receive_byte k c o).1
unfolding receive_byte
receive_byte-IsDisciplined k c o = elim (Bool-cases o.halted) [
  | inl ended ↦ rw ended refl
  | inr on ↦
      subst (λ (b : Bool). IsDisciplined (if b then (o, []) else take_byte k c o).1) (sym on)
        (take_byte-IsDisciplined k c o)
]

received : (cs : List (ℕ × (ℕ → Kernel))) (o : Osi) → IsDisciplined (receive_all cs o).1
unfolding receive_all
received [] o = refl
received ((c, k) ∷ cs) o =
    append-IsDisciplined (receive_byte k c o).1 _ (receive_byte-IsDisciplined k c o)
      (received cs (receive_byte k c o).0)

-- Whatever bytes come, and whatever the commands read, the shell writes only while it holds the mutex
-- of the line, takes it only when it does not hold it, gives it back each time, and neither waits, nor
-- faults, nor resets the board while it holds it; and so it does with its banner.
pub shell_is_disciplined :
    (cs : List (ℕ × (ℕ → Kernel))) (o : Osi) → IsDisciplined (boot ++ (receive_all cs o).1)
unfolding boot
shell_is_disciplined cs o = append-IsDisciplined boot (receive_all cs o).1 refl (received cs o)

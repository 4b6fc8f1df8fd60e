-- ===== src/Osi/Line.antt =====
-- Typing a command at the shell of src/osi/osi.c and ending it with a carriage return.
use tinyrtos.Prelude.{
  ℕ, zero, suc, ◌+◌, ◌≡◌, ◌≢◌, refl, ap, subst, ◌∙◌, List, [], ◌∷◌, ◌++◌, Bool, true, false,
  Bool-cases, inl, inr, ◌||◌, take, length, length-append, ltb, ◌==◌, if◌then◌else◌, arith,
}
use mathlib.Core.List.{append-nil, append_assoc}
use tinyrtos.Kernel.{Kernel}
use tinyrtos.Osi.{Action}
use tinyrtos.Osi.Task.{Osi, receive_all}
use tinyrtos.Osi.Typing.{enter, entered, entering, editing, last_line, echo, edit, edit_all, Edit}
use tinyrtos.Osi.Editor.{Holds, receive_all_refines}

-- No byte of the text ends the line or erases.
abbrev pub IsPlain : List ℕ → Type 0
IsPlain [] = Unit {0}
IsPlain (c ∷ cs) = ((c ≢ b'\r') × (c ≢ b'\n') × (c ≢ 0x08) × (c ≢ 0x7F)) × IsPlain cs

-- The bytes of a text and a carriage return, and the kernels that the reads of its command find.
abbrev pub typed : List ℕ → (ℕ → Kernel) → List (ℕ × (ℕ → Kernel))
typed [] k = (b'\r', k) ∷ []
typed (c ∷ cs) k = (c, k) ∷ typed cs k

abbrev pub echoes : List ℕ → List Action
echoes [] = []
echoes (c ∷ cs) = echo c ++ echoes cs

take-nil : (n : ℕ) → take {A = ℕ} n [] ≡ []
take-nil zero = refl
take-nil (suc n) = refl

edit_plain :
    (k : ℕ → Kernel) (c : ℕ) (saw_cr : Bool) (line : List ℕ)
    → (c ≢ b'\r') × (c ≢ b'\n') × (c ≢ 0x08) × (c ≢ 0x7F)
    → edit k c saw_cr line ≡ (
        if ltb (length line) 127
        then editing (line ++ c ∷ []) false (echo c)
        else editing line false [])
edit_plain k c saw_cr line h =
    let not_cr : (c == b'\r') ≡ false = ground (arith, h.0) in
    let not_lf : (c == b'\n') ≡ false = ground (arith, h.1) in
    let not_bs : ((c == 0x08) || (c == 0x7F)) ≡ false = ground (arith, h.2, h.3) in
    rw (not_cr, not_lf, not_bs)

-- The editor after the carriage return that enters a line, with what was done before.
abbrev entering_after : (k : ℕ → Kernel) → List Action → List ℕ → Edit
entering_after k done line = record (entering k true line) { done = done ++ enter k line }

edit_all_step :
    (k : ℕ → Kernel) (c : ℕ) (cs : List (ℕ × (ℕ → Kernel))) (saw_cr : Bool)
    (line now_line last : List ℕ) (done rest : List Action)
    → edit k c saw_cr line ≡ editing now_line false done
    → edit_all cs false now_line ≡ entering_after k rest last
    → edit_all ((c, k) ∷ cs) saw_cr line ≡ entering_after k (done ++ rest) last
unfolding edit_all
edit_all_step k c cs saw_cr line now_line last done rest now then_rest =
    rw (now, then_rest, append_assoc done rest (enter k last))

edit_all_end :
    (k : ℕ → Kernel) (saw_cr : Bool) (line : List ℕ)
    → edit_all ((b'\r', k) ∷ []) saw_cr line ≡ entering_after k [] line
unfolding edit_all
edit_all_end k saw_cr line = elim (Bool-cases (last_line line)) [
  | inl last ↦ rw last
  | inr returns ↦ rw (returns, append-nil)
]

-- `r` bytes of room are left on the line.
edit_typed :
    (s : List ℕ) (k : ℕ → Kernel) (saw_cr : Bool) (line : List ℕ) (r : ℕ)
    → IsPlain s
    → length line + r ≡ 127
    → edit_all (typed s k) saw_cr line ≡ entering_after k (echoes (take r s)) (line ++ take r s)
edit_typed [] k saw_cr line r p e = rw (take-nil r, append-nil line) (edit_all_end k saw_cr line)
edit_typed (c ∷ cs) k saw_cr line zero p e =
    let full : ltb (length line) 127 ≡ false = ground arith in
    let now : edit k c saw_cr line ≡ editing line false [] =
      edit_plain k c saw_cr line p.0
      ∙ ap (λ b. if b then editing (line ++ c ∷ []) false (echo c) else editing line false [])
          full in
    edit_all_step k c (typed cs k) saw_cr line line (line ++ take 0 cs) [] (echoes (take 0 cs)) now
      (edit_typed cs k false line zero p.1 e)
edit_typed (c ∷ cs) k saw_cr line (suc r) p e =
    let fits : ltb (length line) 127 ≡ true = ground arith in
    let now : edit k c saw_cr line ≡ editing (line ++ c ∷ []) false (echo c) =
      edit_plain k c saw_cr line p.0
      ∙ ap (λ b. if b then editing (line ++ c ∷ []) false (echo c) else editing line false [])
          fits in
    edit_all_step k c (typed cs k) saw_cr line (line ++ c ∷ []) ((line ++ c ∷ []) ++ take r cs)
      (echo c) (echoes (take r cs)) now
      (edit_typed cs k false (line ++ c ∷ []) r p.1 (omega (arith, length-append line (c ∷ []))))
    ∙ rw (append_assoc line (c ∷ []) (take r cs))

-- If the shell's array holds an empty line, in a program that has not ended, a text without a line end,
-- backspace or delete, typed and ended by a carriage return, is echoed byte by byte up to its 127th byte,
-- and then the new line and the command of those bytes follow, if there are any. If the command is fault or
-- reboot, which end the program, there is no prompt and nothing more is done; otherwise the prompt follows,
-- and the line is empty again.
pub line_entered :
    (s : List ℕ) (k : ℕ → Kernel) (o : Osi)
    → Holds [] o
    → o.halted ≡ false
    → IsPlain s
    → ((receive_all (typed s k) o).1 ≡ echoes (take 127 s) ++ enter k (take 127 s))
      × ((receive_all (typed s k) o).0.halted ≡ last_line (take 127 s))
      × Holds (entered (take 127 s)) (receive_all (typed s k) o).0
line_entered s k o h on p =
    let a = receive_all_refines (typed s k) [] o h on in
    let e = edit_typed s k o.saw_cr [] 127 p refl in
    (
      a.actions ∙ ap Edit.done e,
      a.halts ∙ ap Edit.ended e,
      subst (λ (r : Edit). Holds r.text (receive_all (typed s k) o).0) e a.holds,
    )

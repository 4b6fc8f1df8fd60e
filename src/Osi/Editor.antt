-- ===== src/Osi/Editor.antt =====
-- That the array of the shell's task (src/osi/osi.c), with its length, does just what the editor on lists does.
use mathlib.Core.List.{append-nil}
use tinyrtos.Prelude.{
  ℕ, zero, suc, ◌+◌, ◌-◌, ◌≤◌, ◌≡◌, refl, sym, ap, ap₂, ◌∙◌, List, [], ◌∷◌, ◌++◌, Bool, true, false,
  Bool-cases, inl, inr, ◌||◌, set, take, subst, length, length-set, length-append, take-set,
  c_string-set, ltb, ◌==◌, if◌then◌else◌, codes, c_string, arith,
}
use tinyrtos.Kernel.{Kernel}
use tinyrtos.Osi.{Action, write_locked, osi_cmd_buffer_size}
use tinyrtos.Osi.Commands.{ends_program_lem}
use tinyrtos.Osi.Task.{Osi, end_line, erase, type_char, take_byte, receive_byte, receive_all}
use tinyrtos.Osi.Typing.{
  drop_last, last_line, Edit, erased, echo, entering, editing, edit, edit_all,
}

-- The array holds the line.
pub record Holds (line : List ℕ) (o : Osi) : Type 0 where
  pub room : length o.cmd ≡ osi_cmd_buffer_size
  pub size : o.len ≡ length line
  pub short : length line ≤ 127
  pub text : take o.len o.cmd ≡ line

-- The same line, the same actions, and the same end.
pub record Agrees (e : Edit) (r : Osi × List Action) : Type 0 where
  pub holds : Holds e.text r.0
  pub saw : r.0.saw_cr ≡ e.saw_cr
  pub halts : r.0.halted ≡ e.ended
  pub actions : r.1 ≡ e.done

take-drop_last : (n : ℕ) (cs : List ℕ) → n ≤ length cs → take (n - 1) cs ≡ drop_last (take n cs)
take-drop_last zero cs h = refl
take-drop_last (suc zero) [] h = refl
take-drop_last (suc zero) (c ∷ cs) h = refl
take-drop_last (suc (suc n)) [] h = absurd (omega arith)
take-drop_last (suc (suc n)) (c ∷ []) h = absurd (omega arith)
take-drop_last (suc (suc n)) (c ∷ d ∷ cs) h =
    let n' : suc (suc n) - 1 ≡ suc n = omega arith in
    let m' : n ≡ suc n - 1 = omega arith in
    ap (λ (j : ℕ). take j (c ∷ d ∷ cs)) n'
    ∙ ap (λ (l : List ℕ). c ∷ l)
        (ap (λ (j : ℕ). take j (d ∷ cs)) m' ∙ take-drop_last (suc n) (d ∷ cs) (omega arith))

length-drop_last : (cs : List ℕ) → length (drop_last cs) ≡ length cs - 1
length-drop_last [] = refl
length-drop_last (c ∷ []) = refl
length-drop_last (c ∷ d ∷ cs) = omega (arith, length-drop_last (d ∷ cs))

take-set_end : (n : ℕ) (cs : List ℕ) (v : ℕ) → take n (set cs n v) ≡ take n cs
take-set_end zero cs v = refl
take-set_end (suc n) [] v = refl
take-set_end (suc n) (c ∷ cs) v = ap (λ (l : List ℕ). c ∷ l) (take-set_end n cs v)

Agrees-end_line :
    (k : ℕ → Kernel) (line : List ℕ) (o : Osi)
    → Holds line o
    → o.halted ≡ false
    → Agrees (entering k o.saw_cr line) (end_line k o)
unfolding end_line
Agrees-end_line k [] o h on =
    let nothing : ltb 0 o.len ≡ false = ground arith in
    rw nothing (record { holds = h; saw = refl; halts = on; actions = refl })
Agrees-end_line k (c ∷ cs) o h on =
    let something : ltb 0 o.len ≡ true = ground arith in
    let ended : c_string (set o.cmd o.len 0) ≡ c_string (c ∷ cs) =
      c_string-set o.cmd o.len (omega arith) ∙ ap c_string h.text in
    let room = length-set o.cmd o.len 0 ∙ h.room in
    let known = ends_program_lem (c_string (c ∷ cs)) in
    elim (Bool-cases (last_line (c ∷ cs))) [
      | inl last ↦
          rw (something, ended, known, last)
            (record {
              holds = record {
                room = room;
                size = h.size;
                short = h.short;
                text = take-set_end o.len o.cmd 0 ∙ h.text;
              };
              saw = refl;
              halts = refl;
              actions =
                  sym (ap (λ (l : List Action). write_locked (codes "\r\n") ++ l) (append-nil _));
            })
      | inr returns ↦
          rw (something, ended, known, returns)
            (record {
              holds = record { room = room; size = refl; short = omega arith; text = refl };
              saw = refl;
              halts = on;
              actions = refl;
            })
    ]

Agrees-erase :
    (line : List ℕ) (o : Osi)
    → Holds line o
    → o.halted ≡ false
    → Agrees (editing (drop_last line) o.saw_cr (erased line)) (erase o)
unfolding erase
Agrees-erase [] o h on =
    let nothing : ltb 0 o.len ≡ false = ground arith in
    rw nothing (record { holds = h; saw = refl; halts = on; actions = refl })
Agrees-erase (c ∷ cs) o h on =
    let something : ltb 0 o.len ≡ true = ground arith in
    rw something (record {
      holds = record {
        room = h.room;
        size = omega (arith, h.size, length-drop_last (c ∷ cs));
        short = omega (arith, h.short, length-drop_last (c ∷ cs));
        text = take-drop_last o.len o.cmd (omega arith) ∙ ap drop_last h.text;
      };
      saw = refl;
      halts = on;
      actions = refl;
    })

Agrees-type_char :
    (c : ℕ) (line : List ℕ) (o : Osi)
    → Holds line o
    → o.halted ≡ false
    → Agrees
        (if ltb (length line) 127
          then editing (line ++ c ∷ []) o.saw_cr (echo c)
          else editing line o.saw_cr [])
        (type_char c o)
unfolding type_char
Agrees-type_char c line o h on = elim (Bool-cases (ltb (length line) 127)) [
  | inl fits ↦
      let room : ltb o.len (osi_cmd_buffer_size - 1) ≡ true = ground (arith, fits) in
      let longer : o.len + 1 ≡ suc o.len = omega arith in
      rw (fits, room)
        (record {
          holds = record {
            room = length-set o.cmd o.len c ∙ h.room;
            size = omega (arith, length-append line (c ∷ []));
            short = ground (arith, fits, length-append line (c ∷ []));
            text = rw longer (
                take-set o.len o.cmd c (ground (arith, fits))
                ∙ ap (λ (l : List ℕ). l ++ c ∷ []) h.text);
          };
          saw = refl;
          halts = on;
          actions = refl;
        })
  | inr full ↦
      let no_room : ltb o.len (osi_cmd_buffer_size - 1) ≡ false = ground (arith, full) in
      rw (full, no_room) (record { holds = h; saw = refl; halts = on; actions = refl })
]

Holds-saw_cr :
    (line : List ℕ) (o : Osi) (b : Bool) → Holds line o → Holds line (record o { saw_cr = b })
Holds-saw_cr line o b h = record { room = h.room; size = h.size; short = h.short; text = h.text }

Agrees-line_feed :
    (k : ℕ → Kernel) (line : List ℕ) (o : Osi)
    → Holds line o
    → o.halted ≡ false
    → Agrees
        (if o.saw_cr then editing line false [] else entering k o.saw_cr line)
        (if o.saw_cr then (record o { saw_cr = false }, []) else end_line k o)
Agrees-line_feed k line o h on =
    let P : Bool → Type 0 = λ b.
      Agrees (if b then editing line false [] else entering k o.saw_cr line)
        (if b then (record o { saw_cr = false }, []) else end_line k o) in
    elim (Bool-cases o.saw_cr) [
      | inl saw ↦
          subst P (sym saw)
            (record { holds = Holds-saw_cr line o false h; saw = refl; halts = on; actions = refl })
      | inr not_seen ↦ subst P (sym not_seen) (Agrees-end_line k line o h on)
    ]

Agrees-take_byte :
    (k : ℕ → Kernel) (c : ℕ) (line : List ℕ) (o : Osi)
    → Holds line o
    → o.halted ≡ false
    → Agrees (edit k c o.saw_cr line) (take_byte k c o)
unfolding take_byte
Agrees-take_byte k c line o h on = elim (Bool-cases (c == b'\r')) [
  | inl cr ↦
      rw cr (Agrees-end_line k line (record o { saw_cr = true }) (Holds-saw_cr line o true h) on)
  | inr not_cr ↦ rw not_cr (elim (Bool-cases (c == b'\n')) [
    | inl lf ↦ rw lf (Agrees-line_feed k line o h on)
    | inr not_lf ↦ rw not_lf (elim (Bool-cases ((c == 0x08) || (c == 0x7F))) [
      | inl bs ↦
          rw bs (Agrees-erase line (record o { saw_cr = false }) (Holds-saw_cr line o false h) on)
      | inr other ↦
          rw other
            (Agrees-type_char c line (record o { saw_cr = false }) (Holds-saw_cr line o false h) on)
    ])
  ])
]

Agrees-receive_byte :
    (k : ℕ → Kernel) (c : ℕ) (line : List ℕ) (o : Osi)
    → Holds line o
    → o.halted ≡ false
    → Agrees (edit k c o.saw_cr line) (receive_byte k c o)
unfolding receive_byte
Agrees-receive_byte k c line o h on =
    subst (λ (b : Bool). Agrees (edit k c o.saw_cr line) (if b then (o, []) else take_byte k c o))
      (sym on) (Agrees-take_byte k c line o h on)

-- Nothing is done after the end.
halted_lem : (cs : List (ℕ × (ℕ → Kernel))) (o : Osi) → o.halted ≡ true → receive_all cs o ≡ (o, [])
unfolding receive_all receive_byte
halted_lem [] o ended = refl
halted_lem ((c, k) ∷ cs) o ended =
    let still : receive_byte k c o ≡ (o, []) = rw ended refl in rw still (halted_lem cs o ended)

-- If the shell's array of 128 bytes holds a line, in a program that has not ended, then after any bytes it
-- holds the line that an editor on lists of at most 127 bytes comes to, whatever the bytes are, and the
-- shell has done the actions of that editor, and has ended the program if the editor has: the editor takes
-- no byte after the line that is fault or reboot.
pub receive_all_refines :
    (cs : List (ℕ × (ℕ → Kernel))) (line : List ℕ) (o : Osi)
    → Holds line o
    → o.halted ≡ false
    → Agrees (edit_all cs o.saw_cr line) (receive_all cs o)
unfolding edit_all receive_all
receive_all_refines [] line o h on = record { holds = h; saw = refl; halts = on; actions = refl }
receive_all_refines ((c, k) ∷ cs) line o h on =
    let now = Agrees-receive_byte k c line o h on in
    let e = edit k c o.saw_cr line in
    let o' = (receive_byte k c o).0 in
    elim (Bool-cases e.ended) [
      | inl ended ↦
          let nothing = halted_lem cs o' (now.halts ∙ ended) in
          rw (ended, nothing)
            (record {
              holds = now.holds;
              saw = now.saw;
              halts = now.halts;
              actions = append-nil _ ∙ now.actions;
            })
      | inr goes_on ↦
          let rest =
            subst (λ (b : Bool). Agrees (edit_all cs b e.text) (receive_all cs o')) now.saw
              (receive_all_refines cs e.text o' now.holds (now.halts ∙ goes_on)) in
          rw goes_on (record {
            holds = rest.holds;
            saw = rest.saw;
            halts = rest.halts;
            actions = ap₂ (λ (xs ys : List Action). xs ++ ys) now.actions rest.actions;
          })
    ]

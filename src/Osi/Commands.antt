-- ===== src/Osi/Commands.antt =====
-- Which command rtosk_osi_dispatch_command of src/osi/osi.c runs, and what `uptime` prints.
use tinyrtos.Prelude.{
  ℕ, zero, suc, ◌+◌, ◌*◌, ◌/◌, ◌%◌, ◌^◌, ◌≤◌, ◌<◌, ◌≡◌, ◌≢◌, refl, sym, ap, ap₂, ◌||◌, Bool, ◌∙◌,
  inl, inr, List, ◌∷◌, ◌++◌, true, false, Bool-cases, length, length-append, take-short, codes,
  same_text, same_text_refl, same_text_eq, decimal, zero_padded, value_from, value-decimal,
  value-zero_padded, length-decimal, length-zero_padded_three, ℕ_discrete, arith,
}
use tinyrtos.Kernel.{Kernel}
use tinyrtos.Osi.{
  OsiCmd, unknown, help, tasks, ticks, uptime, freq, about, fault, reboot, osi_cmd, osi_cmd_count,
  osi_command_literal,
}
use tinyrtos.Osi.Invoke.{
  find_command, osi_invoke, dispatch_command, never_returns, ends_program, uptime_line,
}

-- The text that stands at index `i`.
abbrev literal : ℕ → List ℕ
literal i = codes (osi_command_literal (osi_cmd i))

-- What the search from `i` on, over `n` literals, comes to.
data Searched (n i : ℕ) (cmd : List ℕ) : Type 0 where
  hit : (j : ℕ) → i ≤ j → j < i + n → cmd ≡ literal j → find_command n i cmd ≡ j → Searched n i cmd
  miss :
      ((j : ℕ) → i ≤ j → j < i + n → cmd ≢ literal j) → find_command n i cmd ≡ 0 → Searched n i cmd

searched : (n i : ℕ) (cmd : List ℕ) → Searched n i cmd
searched zero i cmd = miss (λ j lo hi e. absurd (omega arith)) refl
searched (suc n) i cmd = elim (Bool-cases (same_text cmd (literal i))) [
  | inl same ↦
      hit i (omega arith) (omega arith) (same_text_eq cmd (literal i) same)
        (rw (same, find_command))
  | inr other ↦ onwards other (searched n (suc i) cmd)
]
  where
    onwards : same_text cmd (literal i) ≡ false → Searched n (suc i) cmd → Searched (suc n) i cmd
    onwards other (hit j lo hi e f) =
        hit j (omega arith) (omega arith) e (rw (other, find_command) f)
    onwards other (miss none_there f) =
        miss
          (λ j lo hi e. elim (ℕ_discrete i j) [
            | yes q ↦
                let same : same_text cmd (literal i) ≡ true =
                  ap (λ (s : List ℕ). same_text s (literal i)) (e ∙ ap literal (sym q))
                  ∙ same_text_refl (literal i) in
                cc
            | no ne ↦ none_there j (omega arith) (omega arith) e
          ])
          (rw (other, find_command) f)

osi_cmd_known : (j : ℕ) → 1 ≤ j → j < osi_cmd_count → osi_cmd j ≢ unknown
osi_cmd_known zero lo hi = absurd (omega arith)
osi_cmd_known (suc zero) lo hi = λ e. cc
osi_cmd_known (suc (suc zero)) lo hi = λ e. cc
osi_cmd_known (suc (suc (suc zero))) lo hi = λ e. cc
osi_cmd_known (suc (suc (suc (suc zero)))) lo hi = λ e. cc
osi_cmd_known (suc (suc (suc (suc (suc zero))))) lo hi = λ e. cc
osi_cmd_known (suc (suc (suc (suc (suc (suc zero)))))) lo hi = λ e. cc
osi_cmd_known (suc (suc (suc (suc (suc (suc (suc zero))))))) lo hi = λ e. cc
osi_cmd_known (suc (suc (suc (suc (suc (suc (suc (suc zero)))))))) lo hi = λ e. cc
osi_cmd_known (suc (suc (suc (suc (suc (suc (suc (suc (suc j))))))))) lo hi = absurd (omega arith)

-- Every command but `unknown` has its index in the search.
index_of : (c : OsiCmd) → c ≢ unknown → (j : ℕ) × (1 ≤ j) × (j < osi_cmd_count) × (osi_cmd j ≡ c)
index_of unknown ne = absurd (ne refl)
index_of help ne = (1, omega arith, omega arith, refl)
index_of tasks ne = (2, omega arith, omega arith, refl)
index_of ticks ne = (3, omega arith, omega arith, refl)
index_of uptime ne = (4, omega arith, omega arith, refl)
index_of freq ne = (5, omega arith, omega arith, refl)
index_of about ne = (6, omega arith, omega arith, refl)
index_of fault ne = (7, omega arith, omega arith, refl)
index_of reboot ne = (8, omega arith, omega arith, refl)

-- The text of a command but `unknown` has just that command run; any other text, the text "unknown" among
-- them, has the answer for an unknown command.
pub data Dispatched (k : ℕ → Kernel) (cmd : List ℕ) : Type 0 where
  known :
      (c : OsiCmd)
      → c ≢ unknown
      → cmd ≡ codes (osi_command_literal c)
      → dispatch_command k cmd ≡ osi_invoke k c cmd
      → Dispatched k cmd
  not_known :
      ((c : OsiCmd) → c ≢ unknown → cmd ≢ codes (osi_command_literal c))
      → dispatch_command k cmd ≡ osi_invoke k unknown cmd
      → Dispatched k cmd

pub dispatch_command_lem : (k : ℕ → Kernel) (cmd : List ℕ) → Dispatched k cmd
unfolding dispatch_command
dispatch_command_lem k cmd = resolve (searched 8 1 cmd)
  where
    resolve : Searched 8 1 cmd → Dispatched k cmd
    resolve (hit j lo hi e f) =
        known (osi_cmd j) (osi_cmd_known j lo hi) e (ap (λ (i : ℕ). osi_invoke k (osi_cmd i) cmd) f)
    resolve (miss none_there f) =
        not_known
          (λ c ne e.
            let x = index_of c ne in
            none_there x.0 x.1 (omega (arith, x.2))
              (e ∙ ap (λ (d : OsiCmd). codes (osi_command_literal d)) (sym x.3)))
          (ap (λ (i : ℕ). osi_invoke k (osi_cmd i) cmd) f)

-- The two commands that end the program.
abbrev pub is_last : List ℕ → Bool
is_last cmd = same_text cmd (codes "fault") || same_text cmd (codes "reboot")

last_literal : (j : ℕ) → 1 ≤ j → j < osi_cmd_count → never_returns (osi_cmd j) ≡ is_last (literal j)
last_literal zero lo hi = absurd (omega arith)
last_literal (suc zero) lo hi = refl
last_literal (suc (suc zero)) lo hi = refl
last_literal (suc (suc (suc zero))) lo hi = refl
last_literal (suc (suc (suc (suc zero)))) lo hi = refl
last_literal (suc (suc (suc (suc (suc zero))))) lo hi = refl
last_literal (suc (suc (suc (suc (suc (suc zero)))))) lo hi = refl
last_literal (suc (suc (suc (suc (suc (suc (suc zero))))))) lo hi = refl
last_literal (suc (suc (suc (suc (suc (suc (suc (suc zero)))))))) lo hi = refl
last_literal (suc (suc (suc (suc (suc (suc (suc (suc (suc j))))))))) lo hi = absurd (omega arith)

other_text : (s t : List ℕ) → s ≢ t → same_text s t ≡ false
other_text s t ne = elim (Bool-cases (same_text s t)) [
  | inl same ↦ absurd (ne (same_text_eq s t same))
  | inr other ↦ other
]

-- A text ends the program just if it is `fault` or `reboot`.
pub ends_program_lem : (cmd : List ℕ) → ends_program cmd ≡ is_last cmd
ends_program_lem cmd = resolve (searched 8 1 cmd)
  where
    resolve : Searched 8 1 cmd → ends_program cmd ≡ is_last cmd
    resolve (hit j lo hi e f) =
        ap (λ (i : ℕ). never_returns (osi_cmd i)) f
        ∙ last_literal j lo (omega (arith, hi))
        ∙ ap is_last (sym e)
    resolve (miss none_there f) =
        ap (λ (i : ℕ). never_returns (osi_cmd i)) f
        ∙ sym (
            ap₂ ◌||◌ (other_text cmd (codes "fault") (none_there 7 (omega arith) (omega arith)))
              (other_text cmd (codes "reboot") (none_there 8 (omega arith) (omega arith))))

-- `uptime` prints the ticks, that is milliseconds, as whole seconds, a point, and three digits of
-- milliseconds, and its buffer is long enough.
pub uptime_line_lem :
    (n : ℕ)
    → n < 2 ^ 32
    → (seconds ms : List ℕ) × (uptime_line n
        ≡ codes "\ruptime: " ++ (seconds ++ (codes "." ++ (ms ++ codes " sec\r\n"))))
      × (length ms ≡ 3)
      × (value_from 0 seconds * 1000 + value_from 0 ms ≡ n)
unfolding uptime_line
uptime_line_lem n h =
    let three = length-zero_padded_three (n % 1000) (omega arith) in
    (
      decimal (n / 1000),
      zero_padded 3 (n % 1000),
      take-short 63 _ (
          omega (
            arith,
            length-decimal (n / 1000),
            length-append (decimal (n / 1000))
                (b'.' ∷ zero_padded 3 (n % 1000) ++ codes " sec\r\n"),
            length-append (zero_padded 3 (n % 1000)) (codes " sec\r\n"),
            three,
          )),
      three,
      omega (
        arith,
        value-decimal (n / 1000) (omega arith),
        value-zero_padded 3 (n % 1000) (omega arith),
      ),
    )

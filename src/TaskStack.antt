-- ===== src/TaskStack.antt =====
-- The stack of a task: src/kernel/task.c (watermark, free words, initial exception frame) and
-- `rtosk_port_align_stack_pointer` of src/kernel/port.c. Pointers are byte addresses; `base` is the
-- address of `task->stack[0]`. A write outside the array changes nothing here; TaskStack.Build shows
-- that the code makes none.
pub mod Watermark
pub mod Build
use tinyrtos.Prelude.{
  ℕ, zero, suc, ◌+◌, ◌-◌, ◌*◌, ◌/◌, ◌%◌, List, Bool, true, false, ◌&&◌, get_or, set, for_range, ltb,
  ◌==◌, add32, sub32,
}

-- RTOSK_TASK_STACK_WORDS
abbrev pub task_stack_words : ℕ
task_stack_words = 256

-- RTOSK_STACK_WATERMARK
abbrev pub stack_watermark : ℕ
stack_watermark = 0xDEADBEEF

-- RTOSK_XPSR_T_BIT
abbrev pub xpsr_t_bit : ℕ
xpsr_t_bit = 0x01000000

-- `sp & ~0x7UL`: the low three bits are cleared.
unfoldable pub align_stack_pointer : ℕ → ℕ
align_stack_pointer sp = sp - sp % 8

unfoldable pub watermark_stack : List ℕ → List ℕ
watermark_stack stack = for_range task_stack_words 0 (λ i s. set s i stack_watermark) stack

-- The `while` of `rtosk_task_get_stack_free_words`; the fuel bounds the rounds.
unfoldable pub count_free_words : ℕ → List ℕ → ℕ → ℕ
count_free_words zero stack free_words = free_words
count_free_words (suc fuel) stack free_words =
    elim (ltb free_words task_stack_words && (get_or stack free_words 0 == stack_watermark)) [
      | true ↦ count_free_words fuel stack (suc free_words)
      | false ↦ free_words
    ]

unfoldable pub get_stack_free_words : List ℕ → ℕ
get_stack_free_words stack = count_free_words (task_stack_words + 1) stack 0

-- A stack pointer with the array that it points into.
pub record Frame : Type 0 where
  pub sp : ℕ
  pub stack : List ℕ

-- `*(--sp) = value` on the array at `base`.
unfoldable pub push_word : ℕ → ℕ → Frame → Frame
push_word base value f =
    let sp' = sub32 f.sp 4 in record { sp = sp'; stack = set f.stack ((sp' - base) / 4) value }

unfoldable pub push_zeros : ℕ → ℕ → Frame → Frame
push_zeros base zero f = f
push_zeros base (suc n) f = push_zeros base n (push_word base 0 f)

-- `rtosk_task_build_stack`: xPSR, PC, LR, then R12, R3 to R0, then R11 to R4.
unfoldable pub build_stack : (base exit_trap task_func : ℕ) → List ℕ → Frame
unfolding align_stack_pointer
build_stack base exit_trap task_func stack =
    let start : Frame = record {
      sp = align_stack_pointer (add32 base (task_stack_words * 4));
      stack = stack;
    } in
    let hardware =
      push_zeros base 5
        (push_word base exit_trap (push_word base task_func (push_word base xpsr_t_bit start))) in
    push_zeros base 8 hardware

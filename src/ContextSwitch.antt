-- ===== src/ContextSwitch.antt =====
-- The context switch: SVC_Handler and PendSV_Handler of src/kernel/port.c, instruction by instruction, on
-- the registers R4 to R11, the process stack pointer and the stacks in RTOSK_TASKS. The other
-- registers are the hardware's to save: they are the eight words at the process stack pointer when a
-- handler begins. A store outside every stack of the table, which the board would make in another
-- field of RTOSK_TASKS or beside it, is dropped here; the theorems suppose that the running task's stack has room for
-- the registers, so that no store is outside.
pub mod Memory
pub mod Saved
pub mod RoundTrip
pub mod FirstTask
pub mod Abstract
use tinyrtos.Prelude.{
  ℕ, zero, suc, ◌-◌, ◌/◌, ◌%◌, List, [], ◌∷◌, Option, none, some, Bool, true, false, ◌&&◌, ◌||◌,
  get_or, set, ltb, leb, ◌==◌, if◌then◌else◌, add32, sub32,
}
use tinyrtos.TaskStack.{task_stack_words}
use tinyrtos.Task.{
  TaskTable, Layout, total_task_slots, slot, set_slot, save_stack_pointer, get_stack_pointer,
}
use tinyrtos.Scheduler.{select_next}
use tinyrtos.Kernel.{Kernel}

-- The kernel's memory with the registers that the handlers move. `r4_r11` has R4 first; `spsel` is
-- the bit of CONTROL that has Thread mode use the process stack pointer.
pub record Machine : Type 0 where
  pub kernel : Kernel
  pub psp : ℕ
  pub r4_r11 : List ℕ
  pub spsel : Bool

-- The slot of RTOSK_TASKS that an address lies in, and its offset there: a slot is 1044 bytes, of
-- which the stack is those from 4 to 1027.
abbrev pub slot_of : Layout → ℕ → ℕ
slot_of l a = (a - l.tasks_address) / 1044

abbrev pub offset_of : Layout → ℕ → ℕ
offset_of l a = (a - l.tasks_address) % 1044

abbrev pub in_a_stack : Layout → ℕ → Bool
in_a_stack l a =
    leb l.tasks_address a
    && ltb (slot_of l a) total_task_slots
    && leb 4 (offset_of l a)
    && ltb (offset_of l a) 1028

abbrev pub word_of : Layout → ℕ → ℕ
word_of l a = (offset_of l a - 4) / 4

unfoldable pub store_word : Layout → (address value : ℕ) → TaskTable → TaskTable
store_word l a v t =
    if in_a_stack l a
    then set_slot t (slot_of l a)
        (record (slot t (slot_of l a)) { stack = set (slot t (slot_of l a)).stack (word_of l a) v })
    else t

unfoldable pub load_word : Layout → (address : ℕ) → TaskTable → ℕ
load_word l a t = if in_a_stack l a then get_or (slot t (slot_of l a)).stack (word_of l a) 0 else 0

-- The stores of a `stmdb`, from the lowest address up.
unfoldable pub store_words : Layout → (address : ℕ) → List ℕ → TaskTable → TaskTable
store_words l a [] t = t
store_words l a (v ∷ vs) t = store_words l (add32 a 4) vs (store_word l a v t)

-- The loads of an `ldmia`.
unfoldable pub load_words : Layout → (count address : ℕ) → TaskTable → List ℕ
load_words l zero a t = []
load_words l (suc n) a t = load_word l a t ∷ load_words l n (add32 a 4) t

-- The value of R0 after a call that returns a pointer.
abbrev pub pointer : Option ℕ → ℕ
pointer none = 0
pointer (some sp) = sp

unfoldable pub svc_handler : Layout → Machine → Machine
unfolding load_words
svc_handler l m =
    let sp = pointer (get_stack_pointer m.kernel.table) in
    record m { psp = add32 sp 32; r4_r11 = load_words l 8 sp m.kernel.table; spsel = true }

-- The task table after the first half of the handler: the registers are stored, the stack pointer
-- is saved, and the scheduler has chosen.
unfoldable pub switched_table : Layout → Machine → TaskTable
unfolding store_words
switched_table l m =
    let sp = sub32 m.psp 32 in
    select_next (save_stack_pointer sp (store_words l sp m.r4_r11 m.kernel.table))

unfoldable pub pendsv_handler : Layout → Machine → Machine
unfolding switched_table load_words
pendsv_handler l m =
    let table = switched_table l m in
    let sp = pointer (get_stack_pointer table) in
    record m {
      kernel = record (m.kernel) { table = table };
      psp = add32 sp 32;
      r4_r11 = load_words l 8 sp table;
    }

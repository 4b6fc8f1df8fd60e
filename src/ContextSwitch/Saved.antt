-- ===== src/ContextSwitch/Saved.antt =====
-- What the two halves of PendSV_Handler, src/kernel/port.c, do to the stack of one task.
use tinyrtos.Prelude.{
  ℕ, ◌+◌, ◌≤◌, ◌<◌, ◌≡◌, ◌≢◌, refl, sym, ap, subst, ◌∙◌, ◌⊎◌, inl, inr, List, true, false, some,
  get_or, length, store, length-store, get_or-store, list_ext, add32, sub32, if◌then◌else◌, ◌==◌,
  arith,
}
use tinyrtos.TaskStack.{task_stack_words}
use tinyrtos.Task.{
  Task, TaskTable, Layout, total_task_slots, idle_task_index, slot, set_slot, save_stack_pointer,
  get_stack_pointer,
}
use tinyrtos.Task.Table.{slot-set_slot, count-set_slot, set_slot-set_slot}
use tinyrtos.Task.Valid.{IsValid, set_slot-IsValid}
use tinyrtos.Task.Keep.{save_stack_pointer-IsValid}
use tinyrtos.Scheduler.{select_next}
use tinyrtos.Scheduler.Reach.{select_next-IsValid}
use tinyrtos.Scheduler.Frame.{slot-select_next, count-select_next}
use tinyrtos.ContextSwitch.{Machine, load_words, pointer, switched_table, pendsv_handler}
use tinyrtos.ContextSwitch.Memory.{
  Fits, word_address, with_stack, store_words_lem, length-load_words, get_or-load_words,
}

-- Task `i` exists: it was created, or it is the idle task.
abbrev pub Exists : TaskTable → ℕ → Type 0
Exists t i = (i < t.count) ⊎ (i ≡ idle_task_index)

-- A task runs, on its own stack, with room there for the eight registers.
pub record Runs (l : Layout) (m : Machine) : Type 0 where
  pub valid : IsValid m.kernel.table
  pub exists : Exists m.kernel.table m.kernel.table.current
  pub word : ℕ
  pub room : word + 8 ≤ task_stack_words
  pub stands : m.psp ≡ word_address l m.kernel.table.current (word + 8)
  pub registers : length m.r4_r11 ≡ 8

-- The registers `regs` of task `i` are on its stack, from word `u` on, where its saved pointer stands.
pub record Saved (l : Layout) (i u : ℕ) (regs : List ℕ) (t : TaskTable) : Type 0 where
  pub sp_is : (slot t i).sp ≡ word_address l i u
  pub words : (k : ℕ) → k < 8 → get_or (slot t i).stack (u + k) 0 ≡ get_or regs k 0

save_stack_pointer_lem :
    (sp : ℕ) (t : TaskTable)
    → IsValid t
    → Exists t t.current
    → save_stack_pointer sp t ≡ set_slot t t.current (record (slot t t.current) { sp = sp })
unfolding save_stack_pointer
save_stack_pointer_lem sp t v (inl lt) =
    let user : (t.current == idle_task_index) ≡ false = ground (arith, v.few) in
    let some_task : (t.count == 0) ≡ false = ground arith in rw (user, some_task)
save_stack_pointer_lem sp t v (inr e) =
    let idles : (t.current == idle_task_index) ≡ true = ground arith in
    rw idles (ap (λ (i : ℕ). set_slot t i (record (slot t i) { sp = sp })) (sym e))

pub get_stack_pointer_lem :
    (t : TaskTable)
    → IsValid t
    → Exists t t.current
    → get_stack_pointer t ≡ some (slot t t.current).sp
unfolding get_stack_pointer
get_stack_pointer_lem t v (inl lt) =
    let user : (t.current == idle_task_index) ≡ false = ground (arith, v.few) in
    let some_task : (t.count == 0) ≡ false = ground arith in rw (user, some_task)
get_stack_pointer_lem t v (inr e) =
    let idles : (t.current == idle_task_index) ≡ true = ground arith in
    rw idles (ap (λ (i : ℕ). some (slot t i).sp) (sym e))

pub table-pendsv_handler :
    (l : Layout) (m : Machine) → (pendsv_handler l m).kernel.table ≡ switched_table l m
unfolding pendsv_handler
table-pendsv_handler l m = refl

module _ (l : Layout) (fits : Fits l) (m : Machine) (r : Runs l m) where
  abbrev running : ℕ
  running = m.kernel.table.current

  -- The running task once its registers and its pointer are stored.
  abbrev put_away : Task
  put_away = record (slot m.kernel.table running) {
    sp = word_address l running r.word;
    stack = store (slot m.kernel.table running).stack r.word m.r4_r11;
  }

  running-lt : running < total_task_slots
  running-lt = ground (arith, r.exists, r.valid.few)

  -- The stored registers, in the table that the scheduler works on.
  abbrev pub stored_table : TaskTable
  stored_table = set_slot m.kernel.table running (
      with_stack (slot m.kernel.table running)
        (store (slot m.kernel.table running).stack r.word m.r4_r11))

  stored_table-IsValid : IsValid stored_table
  stored_table-IsValid =
      let g = r.valid.slots running running-lt in
      set_slot-IsValid m.kernel.table running _ r.valid running-lt (record {
        stack = length-store (slot m.kernel.table running).stack r.word m.r4_r11 ∙ g.stack;
        user = g.user;
        idler = g.idler;
      })

  -- Where the handler stores the registers.
  pub pushed_at : sub32 m.psp 32 ≡ word_address l running r.word
  pushed_at = omega (arith, r.stands, running-lt, r.room)

  pub switched_table_eq :
      switched_table l m
      ≡ select_next (save_stack_pointer (word_address l running r.word) stored_table)
  unfolding switched_table
  switched_table_eq = rw (
    pushed_at,
    store_words_lem l fits running running-lt r.word m.r4_r11 m.kernel.table
        (omega (arith, r.room, r.registers)) (omega (arith, r.valid.size, running-lt)),
  )

  pub switched_table-IsValid : IsValid (switched_table l m)
  switched_table-IsValid =
      rw switched_table_eq (select_next-IsValid (save_stack_pointer-IsValid stored_table-IsValid _))

  put_away_eq :
      save_stack_pointer (word_address l running r.word) stored_table
      ≡ set_slot m.kernel.table running put_away
  unfolding set_slot
  put_away_eq =
      let task =
        with_stack (slot m.kernel.table running)
          (store (slot m.kernel.table running).stack r.word m.r4_r11) in
      let same : (running == running) ≡ true = ground arith in
      let now : slot stored_table running ≡ task =
        slot-set_slot m.kernel.table running running task (omega (arith, r.valid.size, running-lt))
        ∙ ap (λ b. if b then task else slot m.kernel.table running) same in
      save_stack_pointer_lem (word_address l running r.word) stored_table stored_table-IsValid
        r.exists
      ∙ ap
          (λ (k : Task).
            set_slot stored_table running (record k { sp = word_address l running r.word }))
          now
      ∙ set_slot-set_slot m.kernel.table running task put_away

  switched_table_is : switched_table l m ≡ select_next (set_slot m.kernel.table running put_away)
  switched_table_is = switched_table_eq ∙ ap select_next put_away_eq

  pub switched_table_lem :
      (i : ℕ)
      → slot (switched_table l m) i ≡ (if running == i then put_away else slot m.kernel.table i)
  switched_table_lem i =
      ap (λ (t : TaskTable). slot t i) switched_table_is
      ∙ slot-select_next _ i
      ∙ slot-set_slot m.kernel.table running i put_away (omega (arith, r.valid.size, running-lt))

  pub count-switched_table : (switched_table l m).count ≡ m.kernel.table.count
  count-switched_table =
      ap (λ (t : TaskTable). t.count) switched_table_is
      ∙ count-select_next _
      ∙ count-set_slot m.kernel.table running put_away

  -- The running task's registers are saved.
  pub Saved-switched_table : Saved l running r.word m.r4_r11 (switched_table l m)
  Saved-switched_table =
      let same : (running == running) ≡ true = ground arith in
      let now : slot (switched_table l m) running ≡ put_away =
        switched_table_lem running
        ∙ ap (λ b. if b then put_away else slot m.kernel.table running) same in
      record {
        sp_is = ap (λ (k : Task). k.sp) now;
        words = λ k lt.
            ap (λ (t : Task). get_or t.stack (r.word + k) 0) now
            ∙ get_or-store (slot m.kernel.table running).stack r.word m.r4_r11 k 0
                (omega (arith, r.registers, r.room, (r.valid.slots running running-lt).stack))
                (omega (arith, r.registers));
      }

  -- Those of any other task stay where they are.
  pub Saved-other :
      (i u : ℕ) (regs : List ℕ)
      → running ≢ i
      → Saved l i u regs m.kernel.table
      → Saved l i u regs (switched_table l m)
  Saved-other i u regs ne s =
      let other : (running == i) ≡ false = ground arith in
      let now : slot (switched_table l m) i ≡ slot m.kernel.table i =
        switched_table_lem i ∙ ap (λ b. if b then put_away else slot m.kernel.table i) other in
      record {
        sp_is = ap (λ (k : Task). k.sp) now ∙ s.sp_is;
        words = λ k lt. ap (λ (t : Task). get_or t.stack (u + k) 0) now ∙ s.words k lt;
      }

  resumed_at : ℕ
  resumed_at = pointer (get_stack_pointer (switched_table l m))

  psp-pendsv_handler : (pendsv_handler l m).psp ≡ add32 resumed_at 32
  unfolding pendsv_handler resumed_at
  psp-pendsv_handler = refl

  r4_r11-pendsv_handler :
      (pendsv_handler l m).r4_r11 ≡ load_words l 8 resumed_at (switched_table l m)
  unfolding pendsv_handler resumed_at
  r4_r11-pendsv_handler = refl

  -- The second half of the handler gives the chosen task its registers and its stack pointer back.
  pub restored :
      (i u : ℕ) (regs : List ℕ)
      → Saved l i u regs (switched_table l m)
      → u + 8 ≤ task_stack_words
      → length regs ≡ 8
      → (switched_table l m).current ≡ i
      → Exists (switched_table l m) i
      → ((pendsv_handler l m).psp ≡ word_address l i (u + 8)) × ((pendsv_handler l m).r4_r11 ≡ regs)
  unfolding resumed_at
  restored i u regs s room size e ex =
      let t = switched_table l m in
      let lt : i < total_task_slots = ground (arith, ex, switched_table-IsValid.few) in
      let here : Exists t t.current = subst (Exists t) (sym e) ex in
      let at : resumed_at ≡ word_address l i u =
        ap pointer (get_stack_pointer_lem t switched_table-IsValid here)
        ∙ ap (λ (j : ℕ). (slot t j).sp) e
        ∙ s.sp_is in
      let loaded = length-load_words l fits i lt 8 (word_address l i u) t in
      (
        psp-pendsv_handler ∙ omega (arith, at, lt, room, fits),
        r4_r11-pendsv_handler
            ∙ ap (λ (a : ℕ). load_words l 8 a t) at
            ∙ list_ext _ regs 0 (loaded ∙ sym size) (λ k h.
              get_or-load_words l fits i lt 8 u k t room (omega (arith, loaded))
              ∙ s.words k (omega (arith, loaded))),
      )

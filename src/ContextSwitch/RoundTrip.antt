-- ===== src/ContextSwitch/RoundTrip.antt =====
-- A task that PendSV_Handler of src/kernel/port.c takes the processor from has its registers and its
-- stack pointer back when the processor comes back to it.
use tinyrtos.Prelude.{ℕ, ◌+◌, ◌≤◌, ◌≡◌, ◌≢◌, sym, ap, ◌∙◌, List, length, arith}
use tinyrtos.TaskStack.{task_stack_words}
use tinyrtos.Task.{TaskTable, Layout, slot}
use tinyrtos.ContextSwitch.{Machine, switched_table, pendsv_handler}
use tinyrtos.ContextSwitch.Memory.{Fits, word_address}
use tinyrtos.ContextSwitch.Saved.{
  Exists, Runs, Saved, count-switched_table, Saved-switched_table, Saved-other,
  table-pendsv_handler, restored,
}

-- What is done between two context switches leaves the stack and the saved pointer of task `i` alone,
-- and takes no task away; its state, its priority and everything else may change.
pub record Undisturbed (i : ℕ) (m m' : Machine) : Type 0 where
  pub same_sp : (slot m'.kernel.table i).sp ≡ (slot m.kernel.table i).sp
  pub same_stack : (slot m'.kernel.table i).stack ≡ (slot m.kernel.table i).stack
  pub no_fewer : m.kernel.table.count ≤ m'.kernel.table.count

-- The machine while task `i` is away: other tasks run on their own stacks, and switches go between them.
pub data Away (l : Layout) (i : ℕ) (m : Machine) : Machine → Type 0 where
  leaves : Away l i m m
  works : {m' m'' : Machine} → Away l i m m' → Undisturbed i m' m'' → Away l i m m''
  switches :
      {m' : Machine}
      → Away l i m m'
      → Runs l m'
      → m'.kernel.table.current ≢ i
      → Away l i m (pendsv_handler l m')

-- The switch that gives the processor back to the task that `m` runs: the very switch that took it, or
-- a later one.
pub data Resumes (l : Layout) (m : Machine) : Machine → Type 0 where
  at_once : Resumes l m (pendsv_handler l m)
  later :
      {m' : Machine}
      → Away l m.kernel.table.current (pendsv_handler l m) m'
      → Runs l m'
      → m'.kernel.table.current ≢ m.kernel.table.current
      → Resumes l m (pendsv_handler l m')

-- Task `i` is in the table, with its registers on its stack.
record Kept (l : Layout) (i u : ℕ) (regs : List ℕ) (t : TaskTable) : Type 0 where
  pub saved : Saved l i u regs t
  pub exists : Exists t i

module _ (l : Layout) (fits : Fits l) where
  Kept-switched_table :
      (i u : ℕ) (regs : List ℕ) (m : Machine)
      → Runs l m
      → m.kernel.table.current ≢ i
      → Kept l i u regs m.kernel.table
      → Kept l i u regs (switched_table l m)
  Kept-switched_table i u regs m r ne k = record {
    saved = Saved-other l fits m r i u regs ne k.saved;
    exists = rw (count-switched_table l fits m r) k.exists;
  }

  Kept-Away :
      (i u : ℕ) (regs : List ℕ) {m m' : Machine}
      → Away l i m m'
      → Kept l i u regs m.kernel.table
      → Kept l i u regs m'.kernel.table
  Kept-Away i u regs leaves k = k
  Kept-Away i u regs (works a h) k =
      let k' = Kept-Away i u regs a k in
      record {
        saved = record {
          sp_is = h.same_sp ∙ k'.saved.sp_is;
          words = λ j lt. rw h.same_stack (k'.saved.words j lt);
        };
        exists = ground (arith, k'.exists, h.no_fewer);
      }
  Kept-Away i u regs (switches {m'} a r ne) k =
      rw (table-pendsv_handler l m') (Kept-switched_table i u regs m' r ne (Kept-Away i u regs a k))

  handed_back :
      (i u : ℕ) (regs : List ℕ) (m : Machine)
      → Runs l m
      → Kept l i u regs (switched_table l m)
      → u + 8 ≤ task_stack_words
      → length regs ≡ 8
      → (pendsv_handler l m).kernel.table.current ≡ i
      → ((pendsv_handler l m).psp ≡ word_address l i (u + 8)) × ((pendsv_handler l m).r4_r11 ≡ regs)
  handed_back i u regs m r k room size e =
      restored l fits m r i u regs k.saved room size
        (ap (λ (t : TaskTable). t.current) (sym (table-pendsv_handler l m)) ∙ e) k.exists

  Kept-self :
      (m : Machine) (r : Runs l m)
      → Kept l m.kernel.table.current r.word m.r4_r11 (switched_table l m)
  Kept-self m r = record {
    saved = Saved-switched_table l fits m r;
    exists = rw (count-switched_table l fits m r) r.exists;
  }

  -- The task has its registers R4 to R11 and its stack pointer back as they were, however many
  -- switches between other tasks there were in between: if each task that runs has room for
  -- the registers on its own stack, and the others leave the stack of this one alone.
  pub switch_roundtrip :
      (m m' : Machine)
      → Runs l m
      → Resumes l m m'
      → m'.kernel.table.current ≡ m.kernel.table.current
      → (m'.psp ≡ m.psp) × (m'.r4_r11 ≡ m.r4_r11)
  switch_roundtrip m _ r at_once e =
      let h = handed_back _ r.word m.r4_r11 m r (Kept-self m r) r.room r.registers e in
      (h.0 ∙ sym r.stands, h.1)
  switch_roundtrip m _ r (later {m'} a r' ne) e =
      let i = m.kernel.table.current in
      let away = Kept-Away i r.word m.r4_r11 a (rw (table-pendsv_handler l m) (Kept-self m r)) in
      let k = Kept-switched_table i r.word m.r4_r11 m' r' ne away in
      let h = handed_back i r.word m.r4_r11 m' r' k r.room r.registers e in
      (h.0 ∙ sym r.stands, h.1)

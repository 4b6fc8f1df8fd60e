-- ===== src/ContextSwitch/Abstract.antt =====
-- PendSV_Handler instruction by instruction (src/kernel/port.c) and the step take_pendsv of the kernel
-- state, which the interleavings of tasks use, do the same but for the contents of the stacks.
use tinyrtos.Prelude.{
  ℕ, zero, suc, ◌≡◌, refl, sym, ap, ◌∙◌, List, [], ◌∷◌, map, Bool, true, false, ◌&&◌, get_or, set,
  store, for_range, leb, ◌==◌, if◌then◌else◌, ◌%◌, sub32, Bool-cases, inl, inr, arith,
}
use tinyrtos.Task.{
  Task, TaskTable, Layout, total_task_slots, idle_task_index, zero_task, slot, set_slot, get,
  save_stack_pointer, set_current_index,
}
use tinyrtos.Scheduler.{Best, consider, scan_round, scan, scan_start, ring_index, select_next}
use tinyrtos.Kernel.{take_pendsv}
use tinyrtos.ContextSwitch.{Machine, pendsv_handler}
use tinyrtos.ContextSwitch.Memory.{Fits}
use tinyrtos.ContextSwitch.Saved.{
  Runs, stored_table, pushed_at, switched_table_eq, table-pendsv_handler,
}

-- A task table without the contents of its stacks.
abbrev pub bare : Task → Task
bare task = record task { stack = [] }

abbrev pub forget : TaskTable → TaskTable
forget t = record t { tasks = map bare t.tasks }

-- Reading a slot, apart from its stack.
bare-slot :
    (l : List Task) (i : ℕ) → bare (get_or (map bare l) i zero_task) ≡ bare (get_or l i zero_task)
bare-slot [] i = refl
bare-slot (y ∷ l) zero = refl
bare-slot (y ∷ l) (suc i) = bare-slot l i

-- Writing another stack changes nothing that is kept.
same_but_stack :
    (l : List Task) (i : ℕ) (stack : List ℕ)
    → map bare (set l i (record (get_or l i zero_task) { stack = stack })) ≡ map bare l
same_but_stack [] i stack = refl
same_but_stack (y ∷ l) zero stack = refl
same_but_stack (y ∷ l) (suc i) stack = ap (λ l. bare y ∷ l) (same_but_stack l i stack)

forget-stored_table :
    (l : Layout) (fits : Fits l) (m : Machine) (r : Runs l m)
    → forget (stored_table l fits m r) ≡ forget m.kernel.table
unfolding set_slot slot
forget-stored_table l fits m r =
    let t = m.kernel.table in
    ap (λ (ts : List Task). record t { tasks = ts })
      (same_but_stack t.tasks t.current
        (store (get_or t.tasks t.current zero_task).stack r.word m.r4_r11))

bare_twice : (l : List Task) → map bare (map bare l) ≡ map bare l
bare_twice [] = refl
bare_twice (y ∷ l) = ap (λ l. bare y ∷ l) (bare_twice l)

-- A write of the saved stack pointer.
write_sp :
    (l : List Task) (i sp : ℕ)
    → map bare (set l i (record (get_or l i zero_task) { sp = sp }))
      ≡ map bare (set (map bare l) i (record (get_or (map bare l) i zero_task) { sp = sp }))
write_sp [] i sp = refl
write_sp (y ∷ l) zero sp = ap (λ l. bare (record y { sp = sp }) ∷ l) (sym (bare_twice l))
write_sp (y ∷ l) (suc i) sp = ap (λ l. bare y ∷ l) (write_sp l i sp)

forget-save_stack_pointer :
    (sp : ℕ) (t : TaskTable)
    → forget (save_stack_pointer sp t) ≡ forget (save_stack_pointer sp (forget t))
unfolding save_stack_pointer set_slot slot
forget-save_stack_pointer sp t = elim (Bool-cases (t.current == idle_task_index)) [
  | inl idle ↦
      rw idle
        (ap (λ (ts : List Task). record t { tasks = ts }) (write_sp t.tasks idle_task_index sp))
  | inr user ↦ rw user (elim (Bool-cases (t.count == 0)) [
    | inl empty ↦
        rw empty (ap (λ (ts : List Task). record t { tasks = ts }) (sym (bare_twice t.tasks)))
    | inr some_task ↦
        rw some_task
          (ap (λ (ts : List Task). record t { tasks = ts }) (write_sp t.tasks t.current sp))
  ])
]

-- The scheduler does not look at the stacks.
scan_round-forget :
    (t : TaskTable) (n current offset : ℕ) (b : Best)
    → scan_round (forget t) n current offset b ≡ scan_round t n current offset b
unfolding scan_round consider get slot
scan_round-forget t n current offset b =
    let i = ring_index n current offset in
    let state_is = ap (λ (x : Task). x.state) (bare-slot t.tasks i) in
    let priority_is = ap (λ (x : Task). x.priority) (bare-slot t.tasks i) in
    elim (Bool-cases (leb total_task_slots i)) [
      | inl out ↦ rw out refl
      | inr within ↦ rw (within, state_is, priority_is) refl
    ]

rounds-forget :
    (t : TaskTable) (count current n i : ℕ) (b : Best)
    → for_range n i (scan_round (forget t) count current) b
      ≡ for_range n i (scan_round t count current) b
rounds-forget t count current zero i b = refl
rounds-forget t count current (suc n) i b =
    ap (for_range n (suc i) (scan_round (forget t) count current))
      (scan_round-forget t count current i b)
    ∙ rounds-forget t count current n (suc i) (scan_round t count current i b)

scan-forget : (t : TaskTable) (n current : ℕ) → scan (forget t) n current ≡ scan t n current
unfolding scan
scan-forget t n current = rounds-forget t n current n 0 _

index-forget :
    (i : ℕ) (t : TaskTable)
    → forget (set_current_index i t) ≡ forget (set_current_index i (forget t))
unfolding set_current_index
index-forget i t = elim (Bool-cases (leb total_task_slots i)) [
  | inl out ↦ rw out (ap (λ (ts : List Task). record t { tasks = ts }) (sym (bare_twice t.tasks)))
  | inr within ↦
      rw within
        (ap (λ (ts : List Task). record t { tasks = ts; current = i }) (sym (bare_twice t.tasks)))
]

-- What the scheduler makes of the result of its loop.
abbrev chosen : Best → TaskTable → TaskTable
chosen b t =
    if b.found_ready
    then set_current_index b.best_index t
    else if t.idle_ready
    then set_current_index idle_task_index t
    else t

idle_choice-forget :
    (idles : Bool) (t : TaskTable)
    → forget (if idles then set_current_index idle_task_index t else t)
      ≡ forget (if idles then set_current_index idle_task_index (forget t) else forget t)
idle_choice-forget true t = index-forget idle_task_index t
idle_choice-forget false t =
    ap (λ (ts : List Task). record t { tasks = ts }) (sym (bare_twice t.tasks))

chosen-forget : (b : Best) (t : TaskTable) → forget (chosen b t) ≡ forget (chosen b (forget t))
chosen-forget b t = elim (Bool-cases b.found_ready) [
  | inl found ↦ rw found (index-forget b.best_index t)
  | inr none_found ↦ rw none_found (idle_choice-forget t.idle_ready t)
]

forget-select_next : (t : TaskTable) → forget (select_next t) ≡ forget (select_next (forget t))
unfolding select_next scan_start
forget-select_next t = elim (Bool-cases (t.count == 0)) [
  | inl empty ↦
      rw empty (ap (λ (ts : List Task). record t { tasks = ts }) (sym (bare_twice t.tasks)))
  | inr some_task ↦ rw some_task (
      chosen-forget (scan t t.count (scan_start t)) t
      ∙ ap (λ (b : Best). forget (chosen b (forget t)))
          (sym (scan-forget t t.count (scan_start t))))
]

-- PendSV_Handler, when PendSV is pending, interrupts are on, and the running task has room on its stack for the
-- eight registers, leaves the task table that the kernel's own step leaves from the table in which those registers
-- are stored on the running task's stack, with the stack pointer 32 bytes below the process stack pointer. So it leaves
-- the table that the kernel's step leaves from the table as it was, but for the contents of the stacks: the same saved
-- stack pointers, states, wake ticks, priorities, names and counters, and the same current task.
pub pendsv_handler-take_pendsv :
    (l : Layout) (fits : Fits l) (m : Machine) (r : Runs l m)
    → m.kernel.cpu.pendsv ≡ true
    → m.kernel.cpu.primask % 2 ≡ 0
    → ((pendsv_handler l m).kernel.table
        ≡ (take_pendsv
            (sub32 m.psp 32)
            (record m.kernel { table = stored_table l fits m r })).table)
      × (forget (pendsv_handler l m).kernel.table
          ≡ forget (take_pendsv (sub32 m.psp 32) m.kernel).table)
unfolding take_pendsv
pendsv_handler-take_pendsv l fits m r pending on =
    let sp = sub32 m.psp 32 in
    let t = m.kernel.table in
    let stored = stored_table l fits m r in
    let taken : ((m.kernel.cpu.pendsv) && (m.kernel.cpu.primask % 2 == 0)) ≡ true = ground arith in
    let at = pushed_at l fits m r in
    let switched : (pendsv_handler l m).kernel.table ≡ select_next (save_stack_pointer sp stored) =
      table-pendsv_handler l m
      ∙ switched_table_eq l fits m r
      ∙ ap (λ (a : ℕ). select_next (save_stack_pointer a stored)) (sym at) in
    let saved : forget (save_stack_pointer sp stored) ≡ forget (save_stack_pointer sp t) =
      forget-save_stack_pointer sp stored
      ∙ ap (λ (u : TaskTable). forget (save_stack_pointer sp u)) (forget-stored_table l fits m r)
      ∙ sym (forget-save_stack_pointer sp t) in
    let same : forget (pendsv_handler l m).kernel.table
        ≡ forget (select_next (save_stack_pointer sp t)) =
      ap forget switched
      ∙ forget-select_next (save_stack_pointer sp stored)
      ∙ ap (λ (u : TaskTable). forget (select_next u)) saved
      ∙ sym (forget-select_next (save_stack_pointer sp t)) in
    (rw taken switched, rw taken same)

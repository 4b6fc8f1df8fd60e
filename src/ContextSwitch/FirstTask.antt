-- ===== src/ContextSwitch/FirstTask.antt =====
-- How SVC_Handler of src/kernel/port.c starts a task that rtosk_task_create or rtosk_task_init_idle made.
use tinyrtos.Prelude.{
  ℕ, ◌+◌, ◌*◌, ◌%◌, ◌/◌, ◌-◌, ◌^◌, ◌<◌, ◌≡◌, refl, ap, ◌∙◌, List, [], ◌∷◌, ◌++◌, true, get_or,
  length, replicate, list_ext, get_or-append_left, get_or-append_right, add32, String, arith,
}
use tinyrtos.TaskStack.{task_stack_words, xpsr_t_bit, watermark_stack}
use tinyrtos.TaskStack.Watermark.{length-watermark_stack}
use tinyrtos.TaskStack.Build.{build_stack_lem}
use tinyrtos.Task.{
  Task, TaskState, Layout, total_task_slots, slot, stack_address, fresh_task, get_stack_pointer,
}
use tinyrtos.Task.Valid.{IsValid}
use tinyrtos.ContextSwitch.{Machine, load_words, pointer, svc_handler}
use tinyrtos.ContextSwitch.Memory.{Fits, word_address, length-load_words, get_or-load_words}
use tinyrtos.ContextSwitch.Saved.{Exists, get_stack_pointer_lem}

-- What the exception return pops: R0 to R3 and R12 are zero, LR is the exit trap, PC the task, and xPSR
-- has the Thumb bit.
abbrev pub entry_frame : (exit_trap task_func : ℕ) → List ℕ
entry_frame exit_trap task_func = replicate 5 0 ++ (exit_trap ∷ task_func ∷ xpsr_t_bit ∷ [])

-- The eight words at the process stack pointer.
abbrev pub popped : Layout → Machine → List ℕ
popped l m = load_words l 8 m.psp m.kernel.table

module _ (l : Layout) (fits : Fits l) (aligned : l.tasks_address % 4 ≡ 0) (m : Machine) where
  resumed_at : ℕ
  resumed_at = pointer (get_stack_pointer m.kernel.table)

  psp-svc_handler : (svc_handler l m).psp ≡ add32 resumed_at 32
  unfolding svc_handler resumed_at
  psp-svc_handler = refl

  r4_r11-svc_handler : (svc_handler l m).r4_r11 ≡ load_words l 8 resumed_at m.kernel.table
  unfolding svc_handler resumed_at
  r4_r11-svc_handler = refl

  spsel-svc_handler : (svc_handler l m).spsel ≡ true
  unfolding svc_handler
  spsel-svc_handler = refl

  kernel-svc_handler : (svc_handler l m).kernel ≡ m.kernel
  unfolding svc_handler
  kernel-svc_handler = refl

  -- A current task that was just created starts in Thread mode on its own stack, which is
  -- aligned to eight bytes, with R4 to R11 zero and the frame above for the hardware to pop.
  pub svc_handler_starts :
      (task_func : ℕ) (state : TaskState) (priority : ℕ) (name : String) (old : Task)
      → IsValid m.kernel.table
      → Exists m.kernel.table m.kernel.table.current
      → m.kernel.table.current < total_task_slots
      → length old.stack ≡ task_stack_words
      → slot m.kernel.table m.kernel.table.current
        ≡ fresh_task l m.kernel.table.current task_func state priority name old
      → ((svc_handler l m).spsel ≡ true)
        × ((svc_handler l m).psp % 8 ≡ 0)
        × ((svc_handler l m).r4_r11 ≡ replicate 8 0)
        × (popped l (svc_handler l m) ≡ entry_frame l.exit_trap task_func)
  unfolding fresh_task resumed_at
  svc_handler_starts task_func state priority name old v ex lt size e =
      let i = m.kernel.table.current in
      let base = stack_address l i in
      let room : base + 4 * task_stack_words < 2 ^ 32 = omega arith in
      let built =
        build_stack_lem base room l.exit_trap task_func (watermark_stack old.stack) (omega arith)
          (length-watermark_stack old.stack ∙ size) in
      let u : ℕ = 240 - base % 8 / 4 in
      let at : resumed_at ≡ word_address l i u =
        ap pointer (get_stack_pointer_lem m.kernel.table v ex)
        ∙ ap (λ (k : Task). k.sp) e
        ∙ built.1 in
      let word =
        λ (k : ℕ). λ (h : k < 16). ap (λ (t : Task). get_or t.stack (u + k) 0) e ∙ built.2 k h in
      let top : (svc_handler l m).psp ≡ word_address l i (u + 8) =
        psp-svc_handler ∙ omega (arith, at, lt, fits) in
      (
        spsel-svc_handler,
        omega (arith, top),
        r4_r11-svc_handler
            ∙ ap (λ (a : ℕ). load_words l 8 a m.kernel.table) at
            ∙ list_ext _ (replicate 8 0) 0 (length-load_words l fits i lt 8 _ m.kernel.table)
                (λ k h.
                  let h' : k < 8 =
                    omega (
                      arith,
                      length-load_words l fits i lt 8 (word_address l i u) m.kernel.table,
                    ) in
                  get_or-load_words l fits i lt 8 u k m.kernel.table (omega arith) h'
                  ∙ word k (omega arith)
                  ∙ get_or-append_left (replicate 8 0) (entry_frame l.exit_trap task_func) k 0 h'),
        rw (kernel-svc_handler, top)
            (list_ext _ (entry_frame l.exit_trap task_func) 0
              (length-load_words l fits i lt 8 _ m.kernel.table)
              (λ k h.
                let h' : k < 8 = omega (
                  arith,
                  length-load_words l fits i lt 8 (word_address l i (u + 8)) m.kernel.table,
                ) in
                let e' : u + 8 + k ≡ u + (8 + k) = omega arith in
                get_or-load_words l fits i lt 8 (u + 8) k m.kernel.table (omega arith) h'
                ∙ ap (λ (j : ℕ). get_or (slot m.kernel.table i).stack j 0) e'
                ∙ word (8 + k) (omega arith)
                ∙ get_or-append_right (replicate 8 0) (entry_frame l.exit_trap task_func) k 0)),
      )

-- ===== src/ContextSwitch/Memory.antt =====
-- Storing and loading words in the stack of one task: the `stmdb` and `ldmia` of src/kernel/port.c.
use tinyrtos.Prelude.{
  ℕ, zero, suc, ◌+◌, ◌*◌, ◌^◌, ◌≤◌, ◌<◌, ◌≡◌, refl, sym, ap, ◌∙◌, List, [], ◌∷◌, true, get_or, set,
  length, store, add32, if◌then◌else◌, ◌==◌, arith,
}
use tinyrtos.TaskStack.{task_stack_words}
use tinyrtos.Task.{Task, TaskTable, Layout, total_task_slots, slot, set_slot, stack_address}
use tinyrtos.Task.Table.{slot-set_slot, length-set_slot, set_slot-set_slot, set_slot-slot}
use tinyrtos.ContextSwitch.{
  slot_of, in_a_stack, word_of, store_word, load_word, store_words, load_words,
}

-- The table ends below 2 ^ 32.
abbrev pub Fits : Layout → Type 0
Fits l = l.tasks_address + 1044 * total_task_slots < 2 ^ 32

-- `&RTOSK_TASKS[i].stack[u]`
abbrev pub word_address : Layout → ℕ → ℕ → ℕ
word_address l i u = stack_address l i + 4 * u

-- Task `task` with other words on its stack.
abbrev pub with_stack : Task → List ℕ → Task
with_stack task s = record task { stack = s }

module _ (l : Layout) (fits : Fits l) (i : ℕ) (lt : i < total_task_slots) where
  slot_of-word_address : (u : ℕ) → u < task_stack_words → slot_of l (word_address l i u) ≡ i
  slot_of-word_address u h = omega arith

  word_of-word_address : (u : ℕ) → u < task_stack_words → word_of l (word_address l i u) ≡ u
  word_of-word_address u h = omega arith

  in_a_stack-word_address :
      (u : ℕ) → u < task_stack_words → in_a_stack l (word_address l i u) ≡ true
  in_a_stack-word_address u h = ground arith

  next_address :
      (u : ℕ) → u < task_stack_words → add32 (word_address l i u) 4 ≡ word_address l i (suc u)
  next_address u h = omega arith

  store_word_lem :
      (u v : ℕ) (t : TaskTable)
      → u < task_stack_words
      → store_word l (word_address l i u) v t
        ≡ set_slot t i (with_stack (slot t i) (set (slot t i).stack u v))
  unfolding store_word
  store_word_lem u v t h =
      rw (in_a_stack-word_address u h, slot_of-word_address u h, word_of-word_address u h)

  load_word_lem :
      (u : ℕ) (t : TaskTable)
      → u < task_stack_words
      → load_word l (word_address l i u) t ≡ get_or (slot t i).stack u 0
  unfolding load_word
  load_word_lem u t h =
      rw (in_a_stack-word_address u h, slot_of-word_address u h, word_of-word_address u h)

  -- A row of stores changes the words it is meant for, and nothing else in the table.
  pub store_words_lem :
      (u : ℕ) (vs : List ℕ) (t : TaskTable)
      → u + length vs ≤ task_stack_words
      → i < length t.tasks
      → store_words l (word_address l i u) vs t
        ≡ set_slot t i (with_stack (slot t i) (store (slot t i).stack u vs))
  unfolding store_words
  store_words_lem u [] t room h = sym (set_slot-slot t i h)
  store_words_lem u (v ∷ vs) t room h =
      let task = with_stack (slot t i) (set (slot t i).stack u v) in
      let t' = set_slot t i task in
      let same : (i == i) ≡ true = ground arith in
      let now : slot t' i ≡ task =
        slot-set_slot t i i task h ∙ ap (λ b. if b then task else slot t i) same in
      let ih =
        store_words_lem (suc u) vs t' (omega arith) (omega (arith, length-set_slot t i task)) in
      rw (next_address u (omega arith), store_word_lem u v t (omega arith))
        (ih
          ∙ ap (λ (k : Task). set_slot t' i (with_stack k (store k.stack (suc u) vs))) now
          ∙ set_slot-set_slot t i task (with_stack task (store task.stack (suc u) vs)))

  pub length-load_words : (n a : ℕ) (t : TaskTable) → length (load_words l n a t) ≡ n
  unfolding load_words
  length-load_words zero a t = refl
  length-load_words (suc n) a t = ap suc (length-load_words n (add32 a 4) t)

  -- A row of loads reads the words of the task's stack.
  pub get_or-load_words :
      (n u k : ℕ) (t : TaskTable)
      → u + n ≤ task_stack_words
      → k < n
      → get_or (load_words l n (word_address l i u) t) k 0 ≡ get_or (slot t i).stack (u + k) 0
  unfolding load_words
  get_or-load_words zero u k t room h = elim h [ ]
  get_or-load_words (suc n) u zero t room h =
      let e : u + zero ≡ u = omega arith in rw e (load_word_lem u t (omega arith))
  get_or-load_words (suc n) u (suc k) t room h =
      let e : u + suc k ≡ suc u + k = omega arith in
      rw (e, next_address u (omega arith))
        (get_or-load_words n (suc u) k t (omega arith) (omega arith))

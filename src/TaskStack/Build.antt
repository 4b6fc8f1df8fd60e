-- ===== src/TaskStack/Build.antt =====
-- rtosk_task_build_stack of src/kernel/task.c, word by word.
use tinyrtos.Prelude.{
  ℕ, zero, suc, ◌+◌, ◌-◌, ◌*◌, ◌/◌, ◌%◌, ◌^◌, ◌≤◌, ◌<◌, ◌≡◌, refl, ◌∙◌, ap, ◌⊎◌, inl, List, [], ◌∷◌,
  arith, length, get_or, set, length-set, get_or-set, add32, sub32, replicate, length-replicate,
  get_or-replicate, ◌++◌,
}
use tinyrtos.TaskStack.Watermark.{watermark_stack_lem, get_stack_free_words_lem}
use tinyrtos.TaskStack.{
  watermark_stack, task_stack_words, stack_watermark, xpsr_t_bit, align_stack_pointer,
  get_stack_free_words, Frame, push_word, push_zeros, build_stack,
}

-- `ws` written over `s` from index `i` on.
abbrev pub overlay : List ℕ → ℕ → List ℕ → List ℕ
overlay s i [] = s
overlay s i (w ∷ ws) = set (overlay s (suc i) ws) i w

length-overlay : (s : List ℕ) (i : ℕ) (ws : List ℕ) → length (overlay s i ws) ≡ length s
length-overlay s i [] = refl
length-overlay s i (w ∷ ws) = length-set _ i w ∙ length-overlay s (suc i) ws

pub get_or-overlay_out :
    (s : List ℕ) (i : ℕ) (ws : List ℕ) (j : ℕ)
    → i + length ws ≤ length s
    → (j < i) ⊎ (i + length ws ≤ j)
    → get_or (overlay s i ws) j 0 ≡ get_or s j 0
get_or-overlay_out s i [] j fit out = refl
get_or-overlay_out s i (w ∷ ws) j fit out = ground (
  arith,
  get_or-set (overlay s (suc i) ws) i j w 0,
  length-overlay s (suc i) ws,
  get_or-overlay_out s (suc i) ws j,
)

pub get_or-overlay :
    (s : List ℕ) (i : ℕ) (ws : List ℕ) (k : ℕ)
    → i + length ws ≤ length s
    → k < length ws
    → get_or (overlay s i ws) (i + k) 0 ≡ get_or ws k 0
get_or-overlay s i [] k fit lt = elim lt [ ]
get_or-overlay s i (w ∷ ws) zero fit lt =
    ground (arith, get_or-set (overlay s (suc i) ws) i (i + 0) w 0, length-overlay s (suc i) ws)
get_or-overlay s i (w ∷ ws) (suc k) fit lt = ground (
  arith,
  get_or-set (overlay s (suc i) ws) i (i + suc k) w 0,
  length-overlay s (suc i) ws,
  get_or-overlay s (suc i) ws k,
)

replicate-append_cons :
    (n a : ℕ) (ws : List ℕ) → replicate n a ++ (a ∷ ws) ≡ a ∷ (replicate n a ++ ws)
replicate-append_cons zero a ws = refl
replicate-append_cons (suc n) a ws = ap (λ l. a ∷ l) (replicate-append_cons n a ws)

-- R4 to R11, R0 to R3, R12, LR, PC and xPSR, in the order in which they are restored.
abbrev pub initial_frame : (exit_trap task_func : ℕ) → List ℕ
initial_frame exit_trap task_func =
    replicate 8 0 ++ (replicate 5 0 ++ (exit_trap ∷ task_func ∷ xpsr_t_bit ∷ []))

-- A frame whose pointer stands at word `i` of the array.
abbrev at_word : ℕ → ℕ → List ℕ → Frame
at_word base i s = record { sp = base + 4 * i; stack = s }

module _ (base : ℕ) (fits : base + 4 * task_stack_words < 2 ^ 32) where
  push_word_lem :
      (v i : ℕ) (s : List ℕ)
      → i < task_stack_words
      → push_word base v (at_word base (suc i) s) ≡ at_word base i (set s i v)
  unfolding push_word
  push_word_lem v i s lt =
      let e : sub32 (base + 4 * suc i) 4 ≡ base + 4 * i = omega arith in
      let d : (base + 4 * i - base) / 4 ≡ i = omega arith in rw e (rw d refl)

  push_zeros_lem :
      (n i j : ℕ) (ws s : List ℕ)
      → j ≡ i + n
      → j ≤ task_stack_words
      → push_zeros base n (at_word base j (overlay s j ws))
        ≡ at_word base i (overlay s i (replicate n 0 ++ ws))
  unfolding push_zeros
  push_zeros_lem zero i j ws s e h = let e' : j ≡ i = omega arith in rw e' refl
  push_zeros_lem (suc n) i j ws s e h =
      let e' : j ≡ suc (i + n) = omega arith in
      rw e' (
        rw (push_word_lem 0 (i + n) (overlay s (suc (i + n)) ws) (omega arith)) (
          push_zeros_lem n i (i + n) (0 ∷ ws) s refl (omega arith)
          ∙ ap (λ ws'. at_word base i (overlay s i ws')) (replicate-append_cons n 0 ws)))

  push_overlay :
      (v i j : ℕ) (ws s : List ℕ)
      → j ≡ suc i
      → j ≤ task_stack_words
      → push_word base v (at_word base j (overlay s j ws)) ≡ at_word base i (overlay s i (v ∷ ws))
  push_overlay v i j ws s e h = rw e (push_word_lem v i (overlay s (suc i) ws) (omega arith))

  build_stack_at :
      (f exit_trap task_func : ℕ) (s : List ℕ)
      → f + 16 ≤ task_stack_words
      → align_stack_pointer (add32 base (task_stack_words * 4)) ≡ base + 4 * (f + 16)
      → build_stack base exit_trap task_func s
        ≡ at_word base f (overlay s f (initial_frame exit_trap task_func))
  unfolding build_stack
  build_stack_at f exit_trap task_func s h e = rw e (
      rw (push_overlay xpsr_t_bit (f + 15) (f + 16) [] s (omega arith) (omega arith)) (
        rw (push_overlay task_func (f + 14) (f + 15) _ s (omega arith) (omega arith)) (
          rw (push_overlay exit_trap (f + 13) (f + 14) _ s (omega arith) (omega arith)) (
            rw (push_zeros_lem 5 (f + 8) (f + 13) _ s (omega arith) (omega arith)) (
              push_zeros_lem 8 f (f + 8)
                (replicate 5 0 ++ (exit_trap ∷ task_func ∷ xpsr_t_bit ∷ [])) s (omega arith)
                (omega arith))))))

  -- The first word of the stack that the initial frame takes: one further down where the end of the
  -- array is no multiple of eight.
  abbrev pub frame_start : ℕ
  frame_start = 240 - base % 8 / 4

  build_stack_eq :
      (exit_trap task_func : ℕ) (s : List ℕ)
      → base % 4 ≡ 0
      → build_stack base exit_trap task_func s
        ≡ at_word base frame_start (overlay s frame_start (initial_frame exit_trap task_func))
  unfolding align_stack_pointer
  build_stack_eq exit_trap task_func s aligned =
      build_stack_at frame_start exit_trap task_func s (omega arith) (omega arith)

  -- What rtosk_task_build_stack returns for a stack of RTOSK_TASK_STACK_WORDS words at a
  -- word-aligned address: a stack pointer that is a multiple of eight and stands at word
  -- `frame_start` of the array, 16 words from there on that hold the initial frame, and every other
  -- word of the stack as it was.
  pub build_stack_lem :
      (exit_trap task_func : ℕ) (s : List ℕ)
      → base % 4 ≡ 0
      → length s ≡ task_stack_words
      → let f = build_stack base exit_trap task_func s in
        (f.sp % 8 ≡ 0)
        × (f.sp ≡ base + 4 * frame_start)
        × ((k : ℕ)
            → k < 16
            → get_or f.stack (frame_start + k) 0 ≡ get_or (initial_frame exit_trap task_func) k 0)
        × ((j : ℕ) → (j < frame_start) ⊎ (frame_start + 16 ≤ j) → get_or f.stack j 0 ≡ get_or s j 0)
        × (length f.stack ≡ task_stack_words)
  build_stack_lem exit_trap task_func s aligned size =
      rw (build_stack_eq exit_trap task_func s aligned) (
        omega arith,
        refl,
        λ k lt. get_or-overlay s frame_start frame k (omega arith) lt,
        λ j out. get_or-overlay_out s frame_start frame j (omega arith) out,
        length-overlay s frame_start frame ∙ size,
      )
    where
      frame : List ℕ
      frame = initial_frame exit_trap task_func

  -- A freshly built task reports every word below its initial frame as never used: 240 words, or
  -- 239 where the frame had to move down for alignment.
  pub free_words-build_stack :
      (exit_trap task_func : ℕ) (s : List ℕ)
      → base % 4 ≡ 0
      → length s ≡ task_stack_words
      → get_stack_free_words (build_stack base exit_trap task_func (watermark_stack s)).stack
        ≡ frame_start
  free_words-build_stack exit_trap task_func s aligned size =
      let marked : List ℕ = replicate task_stack_words stack_watermark in
      let built =
        build_stack_lem exit_trap task_func marked aligned
          (length-replicate {0} task_stack_words stack_watermark) in
      rw (watermark_stack_lem s size) (
        get_stack_free_words_lem _ frame_start (omega arith)
          (λ k lt.
            built.3 k (inl lt)
            ∙ get_or-replicate {0} task_stack_words k stack_watermark 0 (omega arith))
          (λ lt e. ground (arith, e, built.2 0 (omega arith))))

length-push_word : (base v : ℕ) (f : Frame) → length (push_word base v f).stack ≡ length f.stack
unfolding push_word
length-push_word base v f = length-set f.stack _ v

length-push_zeros : (base n : ℕ) (f : Frame) → length (push_zeros base n f).stack ≡ length f.stack
unfolding push_zeros
length-push_zeros base zero f = refl
length-push_zeros base (suc n) f =
    length-push_zeros base n (push_word base 0 f) ∙ length-push_word base 0 f

-- Wherever the stack lies, building a frame keeps its length.
pub length-build_stack :
    (base exit_trap task_func : ℕ) (s : List ℕ)
    → length (build_stack base exit_trap task_func s).stack ≡ length s
unfolding build_stack
length-build_stack base exit_trap task_func s =
    length-push_zeros base 8 _
    ∙ length-push_zeros base 5 _
    ∙ length-push_word base exit_trap _
    ∙ length-push_word base task_func _
    ∙ length-push_word base xpsr_t_bit _

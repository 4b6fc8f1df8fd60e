-- ===== src/TaskStack/Watermark.antt =====
-- The watermark of src/kernel/task.c: rtosk_task_watermark_stack and
-- rtosk_task_get_stack_free_words.
use tinyrtos.Prelude.{
  ℕ, zero, suc, ◌+◌, ◌≤◌, ◌<◌, ◌≡◌, refl, ◌∙◌, ◌≢◌, List, arith, length, get_or, set, replicate,
  for_range_inv, length-set, get_or-set, length-replicate, get_or-replicate, list_ext,
}
use tinyrtos.TaskStack.{
  task_stack_words, stack_watermark, watermark_stack, count_free_words, get_stack_free_words,
}

-- The first `i` words hold the watermark.
record Marked (n i : ℕ) (stack : List ℕ) : Type 0 where
  size : length stack ≡ n
  marked : (k : ℕ) → k < i → get_or stack k 0 ≡ stack_watermark

Marked-step :
    (n k : ℕ) (s : List ℕ) → k < n → Marked n k s → Marked n (suc k) (set s k stack_watermark)
Marked-step n k s lt m = record {
  size = omega (arith, length-set s k stack_watermark, m.size);
  marked = λ j h. ground (arith, get_or-set s k j stack_watermark 0, m.marked j, m.size);
}

-- On an array of RTOSK_TASK_STACK_WORDS words, the loop fills exactly the array.
pub watermark_stack_lem :
    (stack : List ℕ)
    → length stack ≡ task_stack_words
    → watermark_stack stack ≡ replicate task_stack_words stack_watermark
unfolding watermark_stack
watermark_stack_lem stack e =
    list_ext _ _ 0 (m.size ∙ omega (arith, length-replicate {0} task_stack_words stack_watermark))
      λ i lt.
        m.marked i (omega (arith, m.size))
        ∙ (omega (
          arith,
          get_or-replicate {0} task_stack_words i stack_watermark 0 (omega (arith, m.size)),
        ))
  where
    m : Marked task_stack_words task_stack_words (watermark_stack stack)
    m =
        for_range_inv (Marked task_stack_words) (λ i s. set s i stack_watermark) task_stack_words 0
          task_stack_words stack (omega arith)
          (λ k t lo hi p. Marked-step task_stack_words k t hi p)
          (record { size = e; marked = λ k h. absurd (omega arith) })

-- The count ends at `n` if the words below it are marked and word `n`, if there is one, is not.
count_free_words_lem :
    (fuel i n : ℕ) (stack : List ℕ)
    → i ≤ n
    → n ≤ task_stack_words
    → n < i + fuel
    → ((k : ℕ) → k < n → get_or stack k 0 ≡ stack_watermark)
    → (n < task_stack_words → get_or stack n 0 ≢ stack_watermark)
    → count_free_words fuel stack i ≡ n
unfolding count_free_words
count_free_words_lem zero i n stack lo hi f m stop = absurd (omega arith)
count_free_words_lem (suc fuel) i n stack lo hi f m stop =
    ground (arith, m i, stop, count_free_words_lem fuel (suc i) n stack)

-- rtosk_task_get_stack_free_words returns the number of marked words at the low end of the stack,
-- whatever stands above the first unmarked word.
pub get_stack_free_words_lem :
    (stack : List ℕ) (n : ℕ)
    → n ≤ task_stack_words
    → ((k : ℕ) → k < n → get_or stack k 0 ≡ stack_watermark)
    → (n < task_stack_words → get_or stack n 0 ≢ stack_watermark)
    → get_stack_free_words stack ≡ n
unfolding get_stack_free_words
get_stack_free_words_lem stack n hi m stop =
    count_free_words_lem (task_stack_words + 1) 0 n stack (omega arith) hi (omega arith) m stop

-- The fuel suffices on every array: the count stops at a bound that does not exceed the stack.
count_free_words-le :
    (fuel i : ℕ) (stack : List ℕ)
    → i ≤ task_stack_words
    → count_free_words fuel stack i ≤ task_stack_words
unfolding count_free_words
count_free_words-le zero i stack h = h
count_free_words-le (suc fuel) i stack h = ground (arith, count_free_words-le fuel (suc i) stack)

pub get_stack_free_words-le : (stack : List ℕ) → get_stack_free_words stack ≤ task_stack_words
unfolding get_stack_free_words
get_stack_free_words-le stack = count_free_words-le (task_stack_words + 1) 0 stack (omega arith)

pub length-watermark_stack : (stack : List ℕ) → length (watermark_stack stack) ≡ length stack
unfolding watermark_stack
length-watermark_stack stack =
    for_range_inv (λ _ (s : List ℕ). length s ≡ length stack) (λ i s. set s i stack_watermark)
      task_stack_words 0 task_stack_words stack (omega arith)
      (λ k t lo hi p. length-set t k stack_watermark ∙ p) refl

-- ===== src/Scheduler/Scan.antt =====
-- The loop of rtosk_scheduler_select_next: after `n` rounds it holds the first of the ready tasks
-- of highest priority among those at the offsets below `n`.
use tinyrtos.Prelude.{
  ℕ, suc, ◌≤◌, ◌<◌, ◌≡◌, refl, ◌⊎◌, inl, inr, some, Bool, true, false, arith, Bool-cases, dec_lt,
  ℕ_discrete, for_range_inv,
}
use tinyrtos.Task.{Task, TaskTable, max_tasks, is_ready, slot, get}
use tinyrtos.Scheduler.{Best, ring_index, scan_round, scan}

module _ (t : TaskTable) (task_count current : ℕ) where
  -- The task that the round at `offset` looks at.
  abbrev pub at_offset : ℕ → Task
  at_offset offset = slot t (ring_index task_count current offset)

  abbrev pub ready_at : ℕ → Bool
  ready_at offset = is_ready (at_offset offset).state

  -- The task at `o` is ready, no ready task at an offset below `n` has a higher priority, and those
  -- before `o` have a lower one.
  pub record IsBest (n o : ℕ) : Type 0 where
    pub within : o < n
    pub is_ready_there : ready_at o ≡ true
    pub highest :
        (p : ℕ) → p < n → ready_at p ≡ true → (at_offset p).priority ≤ (at_offset o).priority
    pub earliest :
        (p : ℕ) → p < o → ready_at p ≡ true → (at_offset p).priority < (at_offset o).priority

  abbrev pub NoneReady : ℕ → Type 0
  NoneReady n = (p : ℕ) → p < n → ready_at p ≡ false

  -- What the loop's variables say after `n` rounds.
  pub data Scanned (n : ℕ) (b : Best) : Type 0 where
    nothing : b.found_ready ≡ false → NoneReady n → Scanned n b
    found :
        (o : ℕ)
        → b.found_ready ≡ true
        → b.best_index ≡ ring_index task_count current o
        → b.best_priority ≡ (at_offset o).priority
        → IsBest n o
        → Scanned n b

  -- A best task stays the best if the next one is no better.
  later :
      (k o : ℕ)
      → IsBest k o
      → (ready_at k ≡ true → (at_offset k).priority ≤ (at_offset o).priority)
      → IsBest (suc k) o
  later k o best le = record {
    within = omega (arith, best.within);
    is_ready_there = best.is_ready_there;
    highest = λ p h q. elim (ℕ_discrete p k) [
      | yes e ↦ rw e (le (rw e at q))
      | no ne ↦ best.highest p (omega arith) q
    ];
    earliest = best.earliest;
  }

  module _ (few : task_count ≤ max_tasks) (start : current < task_count) where
    round-get :
        (k : ℕ) → k < task_count → get (ring_index task_count current k) t ≡ some (at_offset k)
    unfolding get
    round-get k lt = ground arith

    -- What one round does, by the task that it looks at.
    scan_round_skip :
        (k : ℕ) (b : Best)
        → k < task_count
        → ready_at k ≡ false
        → scan_round t task_count current k b ≡ b
    unfolding scan_round
    scan_round_skip k b lt r = rw (round-get k lt) (ground arith)

    scan_round_take :
        (k : ℕ) (b : Best)
        → k < task_count
        → ready_at k ≡ true
        → (b.found_ready ≡ false) ⊎ (b.best_priority < (at_offset k).priority)
        → scan_round t task_count current k b ≡ record {
          best_index = ring_index task_count current k;
          best_priority = (at_offset k).priority;
          found_ready = true;
        }
    unfolding scan_round
    scan_round_take k b lt r better = rw (round-get k lt) (ground arith)

    scan_round_keep :
        (k : ℕ) (b : Best)
        → k < task_count
        → b.found_ready ≡ true
        → (at_offset k).priority ≤ b.best_priority
        → scan_round t task_count current k b ≡ b
    unfolding scan_round
    scan_round_keep k b lt f le = rw (round-get k lt) (ground arith)

    Scanned-take :
        (k : ℕ) (b : Best)
        → k < task_count
        → ready_at k ≡ true
        → (b.found_ready ≡ false) ⊎ (b.best_priority < (at_offset k).priority)
        → ((p : ℕ) → p < k → ready_at p ≡ true → (at_offset p).priority < (at_offset k).priority)
        → Scanned (suc k) (scan_round t task_count current k b)
    Scanned-take k b lt r better below = rw (scan_round_take k b lt r better) (
        found k refl refl refl (record {
          within = omega arith;
          is_ready_there = r;
          highest = λ p h q. elim (ℕ_discrete p k) [
            | yes e ↦ rw e (omega arith)
            | no ne ↦ omega (arith, below p (omega arith) q)
          ];
          earliest = below;
        }))

    Scanned-round :
        (k : ℕ) (b : Best)
        → k < task_count
        → Scanned k b
        → Scanned (suc k) (scan_round t task_count current k b)
    Scanned-round k b lt (nothing f none_ready) = elim (Bool-cases (ready_at k)) [
      | inl r ↦ Scanned-take k b lt r (inl f) (λ p h q. absurd (ground (arith, none_ready p h)))
      | inr r ↦ rw (scan_round_skip k b lt r) (
          nothing f
            (λ p h. elim (ℕ_discrete p k) [ yes e ↦ rw e r | no ne ↦ none_ready p (omega arith) ]))
    ]
    Scanned-round k b lt (found o f i p best) = elim (Bool-cases (ready_at k)) [
      | inl r ↦ elim (dec_lt b.best_priority (at_offset k).priority) [
        | yes more ↦
            Scanned-take k b lt r (inr more)
              (λ q h ready_q. omega (arith, p, best.highest q h ready_q))
        | no le ↦
            rw (scan_round_keep k b lt f (omega arith))
              (found o f i p (later k o best (λ _. omega (arith, p))))
      ]
      | inr r ↦
          rw (scan_round_skip k b lt r)
            (found o f i p (later k o best (λ q. absurd (ground (arith, r, q)))))
    ]

    -- The loop ends with the best of all the tasks.
    pub Scanned-scan : Scanned task_count (scan t task_count current)
    unfolding scan
    Scanned-scan =
        for_range_inv Scanned (scan_round t task_count current) task_count 0 task_count _
          (omega arith) (λ k b lo hi h. Scanned-round k b hi h)
          (nothing refl (λ p h. absurd (omega arith)))

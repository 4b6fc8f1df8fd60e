-- ===== src/Scheduler/Select.antt =====
-- Which task rtosk_scheduler_select_next of src/kernel/scheduler.c makes the current one.
use tinyrtos.Prelude.{
  ℕ, ◌+◌, ◌-◌, ◌≤◌, ◌<◌, ◌≡◌, refl, ◌⊎◌, inl, inr, true, false, arith, leb, if◌then◌else◌, dec_lt,
}
use tinyrtos.Task.{TaskTable, max_tasks, idle_task_index, is_ready, slot, set_current_index}
use tinyrtos.Scheduler.{ring_index, scan, scan_start, select_next}
use tinyrtos.Scheduler.Scan.{at_offset, ready_at, IsBest, Scanned, nothing, found, Scanned-scan}

-- The number of slots from `start` on to `j`, going round at `count`.
abbrev pub ring_distance : (count start j : ℕ) → ℕ
ring_distance count start j = if leb start j then j - start else j + count - start

ring_index-ring_distance :
    (count start j : ℕ)
    → count ≤ max_tasks
    → start < count
    → j < count
    → (ring_index count start (ring_distance count start j) ≡ j)
      × (ring_distance count start j < count)
ring_index-ring_distance count start j few lt hj = ground arith

ring_distance-ring_index :
    (count start o : ℕ)
    → count ≤ max_tasks
    → start < count
    → o < count
    → (ring_distance count start (ring_index count start o) ≡ o)
      × (ring_index count start o < count)
ring_distance-ring_index count start o few lt ho = ground arith

-- Task `c` is a ready task that no ready task exceeds in priority, and of those of its priority the first one from the
-- current task on. (The round robin among equals that the header promises is more: see Scheduler.Select.select_next_keeps.)
pub record IsSelected (t : TaskTable) (c : ℕ) : Type 0 where
  pub within : c < t.count
  pub is_ready_there : is_ready (slot t c).state ≡ true
  pub highest :
      (j : ℕ)
      → j < t.count
      → is_ready (slot t j).state ≡ true
      → (slot t j).priority ≤ (slot t c).priority
  pub earliest :
      (j : ℕ)
      → j < t.count
      → is_ready (slot t j).state ≡ true
      → (slot t j).priority ≡ (slot t c).priority
      → ring_distance t.count (scan_start t) c ≤ ring_distance t.count (scan_start t) j

module _ (t : TaskTable) (few : t.count ≤ max_tasks) (some_task : 0 < t.count) where
  scan_start-lt : scan_start t < t.count
  unfolding scan_start
  scan_start-lt = ground arith

  scanned : Scanned t t.count (scan_start t) t.count (scan t t.count (scan_start t))
  scanned = Scanned-scan t t.count (scan_start t) few scan_start-lt

  offset-lt : (j : ℕ) → j < t.count → ring_distance t.count (scan_start t) j < t.count
  offset-lt j h = (ring_index-ring_distance t.count (scan_start t) j few scan_start-lt h).1

  -- A fact of the offset at which the loop meets task `j` is a fact of `j`.
  ready-offset :
      (j : ℕ)
      → j < t.count
      → is_ready (slot t j).state ≡ true
      → ready_at t t.count (scan_start t) (ring_distance t.count (scan_start t) j) ≡ true
  ready-offset j h r =
      rw ((ring_index-ring_distance t.count (scan_start t) j few scan_start-lt h).0) r

  priority-offset :
      (j : ℕ)
      → j < t.count
      → (at_offset t t.count (scan_start t) (ring_distance t.count (scan_start t) j)).priority
        ≡ (slot t j).priority
  priority-offset j h =
      rw ((ring_index-ring_distance t.count (scan_start t) j few scan_start-lt h).0) refl

  -- A best offset is a best task.
  IsBest-IsSelected :
      (o : ℕ)
      → IsBest t t.count (scan_start t) t.count o
      → IsSelected t (ring_index t.count (scan_start t) o)
  IsBest-IsSelected o best = record {
    within = (ring_distance-ring_index t.count (scan_start t) o few scan_start-lt best.within).1;
    is_ready_there = best.is_ready_there;
    highest = λ j h r. omega (
      arith,
      priority-offset j h,
      best.highest (ring_distance t.count (scan_start t) j) (offset-lt j h) (ready-offset j h r),
    );
    earliest = λ j h r e. elim (dec_lt (ring_distance t.count (scan_start t) j) o) [
      | yes before ↦ absurd (
          omega (
            arith,
            e,
            priority-offset j h,
            best.earliest (ring_distance t.count (scan_start t) j) before (ready-offset j h r),
          ))
      | no after ↦
          rw ((ring_distance-ring_index t.count (scan_start t) o few scan_start-lt best.within).0)
            (omega arith)
    ];
  }

  select_next-nothing :
      (scan t t.count (scan_start t)).found_ready ≡ false
      → select_next t ≡ (if t.idle_ready then record t { current = idle_task_index } else t)
  unfolding select_next set_current_index
  select_next-nothing f = ground arith

  select_next-found :
      (i : ℕ)
      → i < t.count
      → (scan t t.count (scan_start t)).found_ready ≡ true
      → (scan t t.count (scan_start t)).best_index ≡ i
      → select_next t ≡ record t { current = i }
  unfolding select_next set_current_index
  select_next-found i lt f e = ground arith

  Scanned-Selected :
      (i : ℕ)
      → i < t.count
      → is_ready (slot t i).state ≡ true
      → Scanned t t.count (scan_start t) t.count (scan t t.count (scan_start t))
      → (c : ℕ) × (select_next t ≡ record t { current = c }) × IsSelected t c
  Scanned-Selected i lt r (nothing f none_ready) =
      absurd (ground (arith, ready-offset i lt r, none_ready _ (offset-lt i lt)))
  Scanned-Selected i lt r (found o f e p best) =
      let sel = IsBest-IsSelected o best in
      (ring_index t.count (scan_start t) o, select_next-found _ sel.within f e, sel)

  Scanned-Idle :
      ((j : ℕ) → j < t.count → is_ready (slot t j).state ≡ false)
      → Scanned t t.count (scan_start t) t.count (scan t t.count (scan_start t))
      → select_next t ≡ (if t.idle_ready then record t { current = idle_task_index } else t)
  Scanned-Idle quiet (nothing f none_ready) = select_next-nothing f
  Scanned-Idle quiet (found o f e p best) =
      let sel = IsBest-IsSelected o best in
      absurd (ground (arith, sel.is_ready_there, quiet _ sel.within))

  Scanned-cases :
      Scanned t t.count (scan_start t) t.count (scan t t.count (scan_start t))
      → ((c : ℕ) × (select_next t ≡ record t { current = c }) × (c < t.count))
        ⊎ (select_next t ≡ (if t.idle_ready then record t { current = idle_task_index } else t))
  Scanned-cases (nothing f none_ready) = inr (select_next-nothing f)
  Scanned-cases (found o f e p best) =
      let sel = IsBest-IsSelected o best in
      inl (ring_index t.count (scan_start t) o, select_next-found _ sel.within f e, sel.within)

  -- The scheduler picks a user task, or the idle task once that is ready, or changes nothing.
  pub select_next-cases :
      ((c : ℕ) × (select_next t ≡ record t { current = c }) × (c < t.count))
      ⊎ (select_next t ≡ (if t.idle_ready then record t { current = idle_task_index } else t))
  select_next-cases = Scanned-cases scanned

  -- If a user task is ready, the scheduler changes nothing but the current task, and makes it one
  -- that is ready, that no ready task exceeds in priority, and that is the first of its priority
  -- in the round from the old current task (from slot 0, if that was the idle task).
  pub select_next_selects :
      (i : ℕ)
      → i < t.count
      → is_ready (slot t i).state ≡ true
      → (c : ℕ) × (select_next t ≡ record t { current = c }) × IsSelected t c
  select_next_selects i lt r = Scanned-Selected i lt r scanned

  -- If no user task is ready, the scheduler switches to the idle task; before the idle task is
  -- ready it changes nothing.
  pub select_next_idles :
      ((j : ℕ) → j < t.count → is_ready (slot t j).state ≡ false)
      → select_next t ≡ (if t.idle_ready then record t { current = idle_task_index } else t)
  select_next_idles quiet = Scanned-Idle quiet scanned

  -- The scheduler leaves the processor with the current task as long as that task is ready and no
  -- ready task has a strictly higher priority: a ready task of equal priority does not get a turn.
  pub select_next_keeps :
      t.current < t.count
      → is_ready (slot t t.current).state ≡ true
      → ((j : ℕ)
          → j < t.count
          → is_ready (slot t j).state ≡ true
          → (slot t j).priority ≤ (slot t t.current).priority)
      → select_next t ≡ t
  unfolding scan_start
  select_next_keeps lt r highest =
      let (c, e, sel) = select_next_selects t.current lt r in
      let same : c ≡ t.current = ground (
        arith,
        highest c sel.within sel.is_ready_there,
        sel.highest t.current lt r,
        sel.earliest t.current lt r,
        sel.within,
      ) in
      rw (e, same) refl

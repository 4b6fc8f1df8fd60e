-- ===== src/Mutex/System/Pair.antt =====
-- Two tasks at one mutex of src/kernel/mutex.c: a waiter is always recorded, and the unlock wakes it.
use tinyrtos.Prelude.{ℕ, ◌<◌, ◌≡◌, ◌≢◌, refl, sym, ◌∙◌, ap, subst, ◌⊎◌, arith, Bool, ℕ_discrete}
use tinyrtos.Task.{
  Task, TaskTable, blocked, blocked_on_mutex, ready, slot, block_current_on_mutex, set_ready,
}
use tinyrtos.Task.Valid.{IsValid}
use tinyrtos.Kernel.{Kernel, sleep_ms, kernel_tick, take_pendsv}
use tinyrtos.Kernel.Switch.{count-take_pendsv, state-take_pendsv}
use tinyrtos.Kernel.Slots.{
  slot-block_current_on, slot-set_ready, count-block_current_on, count-set_ready, count-kernel_tick,
  count-sleep_ms, state-set_ready, slot-sleep_ms, state-sleep_ms, kernel_tick-slot,
}
use tinyrtos.Mutex.{Mutex, mutex_no_owner}
use tinyrtos.Mutex.System.Moves.{
  Now, LockMove, takes, keeps, waits, UnlockMove, ignored, frees, wakes, lock_move, unlock_move,
}
use tinyrtos.Mutex.System.{
  System, lock_step, unlock_step, Runs, Step, locks, unlocks, sleeps, ticks, switches,
}
use tinyrtos.Mutex.System.Exclusion.{Inv, Step-Inv, initial, initial-Inv}
use tinyrtos.Mutex.System.Waiters.{state_of, state_of_table, sized, current-sized}

module _ (a b : ℕ) where
  abbrev pub OneOf : ℕ → Type 0
  OneOf i = (i ≡ a) ⊎ (i ≡ b)

  -- Steps in which only tasks `a` and `b` lock the mutex.
  abbrev pub ByPair : {s t : System} → Step s t → Type 0
  ByPair {s} (locks r) = OneOf s.kernel.table.current
  ByPair _ = Unit

  pub data PairSteps (s : System) : System → Type 0 where
    here : PairSteps s s
    next : {t u : System} → PairSteps s t → (step : Step t u) → ByPair step → PairSteps s u

  -- The owner, if any, is of the two; a task that is blocked on the mutex is the other one, and the
  -- mutex has it recorded.
  pub record Recorded (m : Mutex) (t : TaskTable) : Type 0 where
    pub owners : m.owner ≢ mutex_no_owner → OneOf m.owner
    pub waiters :
        (i : ℕ)
        → i < t.count
        → (slot t i).state ≡ blocked_on_mutex
        → OneOf i × (m.owner ≢ mutex_no_owner) × (m.owner ≢ i) × (m.waiting_task ≡ i)

  -- A change of the table that blocks nobody on the mutex.
  quiet-Recorded :
      (m : Mutex) (t t' : TaskTable)
      → t'.count ≡ t.count
      → ((i : ℕ)
          → i < t.count
          → (slot t' i).state ≡ blocked_on_mutex
          → (slot t i).state ≡ blocked_on_mutex)
      → Recorded m t
      → Recorded m t'
  quiet-Recorded m t t' same back rec = record {
    owners = rec.owners;
    waiters = λ i lt stuck.
        let lt' : i < t.count = omega (arith, same) in rec.waiters i lt' (back i lt' stuck);
  }

  module _ (s : System) (inv : Inv s) (rec : Recorded s.mutex s.kernel.table) where
    abbrev After : System → Type 0
    After u = Recorded u.mutex u.kernel.table

    arrive :
        (u : System) (m : Mutex) (t : TaskTable) (holds : ℕ → Bool)
        → Now m t holds u
        → Recorded m t
        → Recorded u.mutex u.kernel.table
    arrive u m t holds n r = rw (n.mutex_is, n.table_is) r

    blocked_slot :
        (i : ℕ)
        → Runs s
        → i ≢ s.kernel.table.current
        → (slot (block_current_on_mutex s.kernel.table) i).state ≡ (slot s.kernel.table i).state
    blocked_slot i r ne =
        ap (λ (x : Task). x.state)
          (slot-block_current_on blocked_on_mutex s.kernel.table i (current-sized s inv r) ne)

    LockMove-Recorded :
        Runs s
        → OneOf s.kernel.table.current
        → LockMove s
        → Recorded (lock_step s).mutex (lock_step s).kernel.table
    LockMove-Recorded r one (takes free n) = arrive _ _ _ _ n (record {
      owners = λ _. one;
      waiters = λ i lt stuck. absurd ((rec.waiters i lt stuck).1 free);
    })
    LockMove-Recorded r one (keeps taken own n) = arrive _ _ _ _ n rec
    LockMove-Recorded r one (waits taken other n) = arrive _ _ _ _ n (record {
      owners = rec.owners;
      waiters = λ i lt stuck. elim (ℕ_discrete i s.kernel.table.current) [
        | yes e ↦ (rw e one, taken, rw e other, sym e)
        | no ne ↦
            let lt' : i < s.kernel.table.count =
              omega (arith, count-block_current_on blocked_on_mutex s.kernel.table) in
            absurd (
              ground (
                arith,
                rec.waiters i lt' (sym (blocked_slot i r ne) ∙ stuck),
                rec.owners taken,
                one,
              ))
      ];
    })

    UnlockMove-Recorded : UnlockMove s → Recorded (unlock_step s).mutex (unlock_step s).kernel.table
    UnlockMove-Recorded (ignored other n) = arrive _ _ _ _ n rec
    UnlockMove-Recorded (frees own alone n) = arrive _ _ _ _ n (record {
      owners = λ ne. absurd (ne refl);
      waiters =
          λ i lt stuck. absurd (omega (arith, (rec.waiters i lt stuck).3, alone, inv.table.few));
    })
    UnlockMove-Recorded (wakes own some_waits n) = arrive _ _ _ _ n (record {
      owners = λ ne. absurd (ne refl);
      waiters = λ i lt stuck.
          let lt' : i < s.kernel.table.count =
            omega (arith, count-set_ready s.mutex.waiting_task s.kernel.table) in
          absurd (awake i lt' stuck);
    })
      where
        awake :
            (i : ℕ)
            → i < s.kernel.table.count
            → (slot (set_ready s.mutex.waiting_task s.kernel.table) i).state ≢ blocked_on_mutex
        awake i lt stuck = elim (ℕ_discrete i s.mutex.waiting_task) [
          | yes e ↦
              let e' : ready ≡ blocked_on_mutex =
                sym
                  (state-set_ready s.mutex.waiting_task s.kernel.table (sized s inv) (rw (← e) lt))
                ∙ subst
                    (λ (j : ℕ).
                      (slot (set_ready s.mutex.waiting_task s.kernel.table) j).state
                      ≡ blocked_on_mutex)
                    e stuck in
              cc
          | no ne ↦ ne (
              sym (
                (rec.waiters i lt (
                  ap (λ (x : Task). x.state)
                    (sym (slot-set_ready s.mutex.waiting_task s.kernel.table i (sized s inv) ne))
                  ∙ stuck)).3))
        ]

    -- The steps that leave the mutex alone.
    sleeps-Recorded : (ms : ℕ) → Runs s → Recorded s.mutex (sleep_ms ms s.kernel).table
    sleeps-Recorded ms r =
        quiet-Recorded s.mutex s.kernel.table _ (count-sleep_ms ms s.kernel)
          (λ i lt stuck. elim (ℕ_discrete i s.kernel.table.current) [
            | yes e ↦
                let e' : blocked ≡ blocked_on_mutex =
                  sym (
                    state-sleep_ms ms s.kernel (current-sized s inv r)
                      (ground (arith, r.user, inv.table.few)))
                  ∙ subst
                      (λ (j : ℕ). (slot (sleep_ms ms s.kernel).table j).state ≡ blocked_on_mutex) e
                      stuck in
                cc
            | no ne ↦
                ap (λ (x : Task). x.state)
                  (sym (slot-sleep_ms ms s.kernel i (current-sized s inv r) ne))
                ∙ stuck
          ])
          rec

    ticks-Recorded : Recorded s.mutex (kernel_tick s.kernel).table
    ticks-Recorded =
        quiet-Recorded s.mutex s.kernel.table _ (count-kernel_tick s.kernel (sized s inv))
          (λ i lt stuck. ground (arith, kernel_tick-slot s.kernel i (sized s inv), stuck)) rec

    switches-Recorded : (sp : ℕ) → Recorded s.mutex (take_pendsv sp s.kernel).table
    switches-Recorded sp =
        quiet-Recorded s.mutex s.kernel.table _ (count-take_pendsv sp s.kernel)
          (λ i lt stuck. sym (state-take_pendsv sp s.kernel i) ∙ stuck) rec

  Step-Recorded :
      {s t : System} (step : Step s t)
      → ByPair step
      → Inv s
      → Recorded s.mutex s.kernel.table
      → Recorded t.mutex t.kernel.table
  Step-Recorded {s} (locks r) by inv rec = LockMove-Recorded s inv rec r by (lock_move s)
  Step-Recorded {s} (unlocks r) by inv rec = UnlockMove-Recorded s inv rec (unlock_move s)
  Step-Recorded {s} (sleeps ms r) by inv rec = sleeps-Recorded s inv rec ms r
  Step-Recorded {s} ticks by inv rec = ticks-Recorded s inv rec
  Step-Recorded {s} (switches sp) by inv rec = switches-Recorded s inv rec sp

  PairSteps-Inv : {s t : System} → Inv s → PairSteps s t → Inv t
  PairSteps-Inv inv here = inv
  PairSteps-Inv inv (next r step by) = Step-Inv step (PairSteps-Inv inv r)

  PairSteps-Recorded :
      {s t : System}
      → Inv s
      → Recorded s.mutex s.kernel.table
      → PairSteps s t
      → Recorded t.mutex t.kernel.table
  PairSteps-Recorded inv rec here = rec
  PairSteps-Recorded inv rec (next r step by) =
      Step-Recorded step by (PairSteps-Inv inv r) (PairSteps-Recorded inv rec r)

  -- The system when the owner has the processor.
  abbrev pub owner_runs : System → System
  owner_runs t = record t {
    kernel = record t.kernel { table = record t.kernel.table { current = t.mutex.owner } };
  }

  -- Two tasks at one mutex: after rtosk_mutex_init, over a valid table in which nobody is blocked on
  -- the mutex, and in any interleaving in which only tasks `a` and `b` lock it, a user task that is
  -- blocked on the mutex is one of the two, the mutex has an owner, which is the other one, and has the
  -- blocked task recorded, and the unlock by that owner, when the owner has the processor, makes the blocked
  -- task ready.
  pub pair_waiter_wakes :
      {k : Kernel} {t : System}
      → IsValid k.table
      → ((i : ℕ) → i < k.table.count → (slot k.table i).state ≢ blocked_on_mutex)
      → PairSteps (initial k) t
      → (i : ℕ) → i < t.kernel.table.count
      → state_of t i ≡ blocked_on_mutex
      → OneOf i
        × (t.mutex.owner ≢ mutex_no_owner)
        × OneOf t.mutex.owner
        × (t.mutex.owner ≢ i)
        × (t.mutex.waiting_task ≡ i)
        × (state_of (unlock_step (owner_runs t)) i ≡ ready)
  pair_waiter_wakes {k} {t} v quiet steps i lt stuck =
      let inv = PairSteps-Inv (initial-Inv k v) steps in
      let rec =
        PairSteps-Recorded (initial-Inv k v)
          (record {
            owners = λ ne. absurd (ne refl);
            waiters = λ j lt' stuck'. absurd (quiet j lt' stuck');
          })
          steps in
      let w = rec.waiters i lt stuck in
      (w.0, w.1, rec.owners w.1, w.2, w.3, woken inv w.3 (unlock_move (owner_runs t)))
    where
      woken :
          Inv t
          → t.mutex.waiting_task ≡ i
          → UnlockMove (owner_runs t)
          → state_of (unlock_step (owner_runs t)) i ≡ ready
      woken inv e (ignored other n) = absurd (other refl)
      woken inv e (frees own' alone n) = absurd (omega (arith, lt, inv.table.few))
      woken inv e (wakes own' some_waits n) =
          state_of_table (unlock_step (owner_runs t)) i n.table_is refl (
            subst (λ (w : ℕ). (slot (set_ready w (owner_runs t).kernel.table) i).state ≡ ready)
              (sym e) (state-set_ready i (owner_runs t).kernel.table (sized t inv) lt))

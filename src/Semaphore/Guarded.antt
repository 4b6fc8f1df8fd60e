-- ===== src/Semaphore/Guarded.antt =====
-- What tasks at one semaphore of src/kernel/semaphore.c keep to, and that takes and gives preserve it.
use tinyrtos.Prelude.{
  ℕ, ◌-◌, ◌≤◌, ◌<◌, ◌≡◌, ◌≢◌, refl, sym, ap, subst, ◌∙◌, arith, length, ℕ_discrete,
}
use tinyrtos.Task.{
  Task, TaskTable, max_tasks, blocked_on_semaphore, slot, set_ready, block_current_on_semaphore,
}
use tinyrtos.Task.Valid.{IsValid}
use tinyrtos.Task.Keep.{block_current_on-IsValid, set_ready-IsValid}
use tinyrtos.Kernel.Slots.{slot-block_current_on, state-block_current_on, slot-set_ready}
use tinyrtos.Semaphore.{Semaphore, semaphore_no_waiter}
use tinyrtos.Semaphore.System.{
  Place, outside, waiting, holding, System, update, take_step, give_step, Runs,
}
use tinyrtos.Semaphore.Moves.{Now, take-Now, wait-Now, hand-Now, count-Now}

-- What the tasks are, with the semaphore and the table.
pub record Guarded (s : Semaphore) (t : TaskTable) (place : ℕ → Place) : Type 0 where
  pub table : IsValid t
  pub binary : s.count ≤ 1
  pub one : (i j : ℕ) → place i ≡ holding → place j ≡ holding → i ≡ j
  pub free : 0 < s.count → (i : ℕ) → place i ≢ holding
  pub stuck : (i : ℕ) → place i ≡ waiting → (slot t i).state ≡ blocked_on_semaphore
  pub waiter : s.waiting_task ≢ semaphore_no_waiter → place s.waiting_task ≡ waiting

abbrev pub Inv : System → Type 0
Inv s = Guarded s.semaphore s.kernel.table s.place

Now-Inv :
    (u : System) (sem : Semaphore) (t : TaskTable) (place : ℕ → Place)
    → Now sem t place u
    → Guarded sem t place
    → Inv u
Now-Inv u sem t place n g = rw (n.semaphore_is, n.table_is, n.place_is) g

holding-waiting : holding ≢ waiting
holding-waiting e = cc

pub holding-outside : holding ≢ outside
holding-outside e = cc

pub outside-waiting : outside ≢ waiting
outside-waiting e = cc

-- A place after an update.
updated : (f : ℕ → Place) (i : ℕ) (p : Place) (j : ℕ) → i ≡ j → update f i p j ≡ p
updated f i p j e = ground arith

untouched : (f : ℕ → Place) (i : ℕ) (p : Place) (j : ℕ) → i ≢ j → update f i p j ≡ f j
untouched f i p j ne = ground arith

module _ (s : System) (inv : Inv s) (r : Runs s) where
  abbrev now : ℕ
  now = s.kernel.table.current

  sized : s.kernel.table.count ≤ length s.kernel.table.tasks
  sized = omega (arith, inv.table.size, inv.table.few)

  pub now-sized : now < length s.kernel.table.tasks
  now-sized = omega (arith, sized, r.user)

  now-lt : now < max_tasks
  now-lt = omega (arith, r.user, inv.table.few)

  -- A task inside a take does not run.
  pub waiting-ne : (i : ℕ) → s.place i ≡ waiting → now ≢ i
  waiting-ne i h e = ground (arith, r.is_ready_now, inv.stuck i h, e)

  take-Guarded :
      0 < s.semaphore.count
      → Guarded
          (record (s.semaphore) { count = s.semaphore.count - 1 })
          s.kernel.table
          (update s.place now holding)
  take-Guarded pos = record {
    table = inv.table;
    binary = omega (arith, inv.binary);
    one = λ i j hi hj. sym (is_now i hi) ∙ is_now j hj;
    free = λ more. absurd (omega (arith, inv.binary));
    stuck = λ i h. inv.stuck i (other i h);
    waiter = λ some_waits.
        let w = inv.waiter some_waits in untouched s.place now holding _ (waiting-ne _ w) ∙ w;
  }
    where
      is_now : (i : ℕ) → update s.place now holding i ≡ holding → now ≡ i
      is_now i h = elim (ℕ_discrete now i) [
        | yes e ↦ e
        | no ne ↦ absurd (inv.free pos i (sym (untouched s.place now holding i ne) ∙ h))
      ]

      other : (i : ℕ) → update s.place now holding i ≡ waiting → s.place i ≡ waiting
      other i h = elim (ℕ_discrete now i) [
        | yes e ↦ absurd (holding-waiting (sym (updated s.place now holding i e) ∙ h))
        | no ne ↦ sym (untouched s.place now holding i ne) ∙ h
      ]

  wait-Guarded :
      s.semaphore.count ≡ 0
      → Guarded
          (record (s.semaphore) { waiting_task = now })
          (block_current_on_semaphore s.kernel.table)
          (update s.place now waiting)
  wait-Guarded empty = record {
    table = block_current_on-IsValid inv.table blocked_on_semaphore (λ q. cc) now-lt;
    binary = inv.binary;
    one = λ i j hi hj. inv.one i j (other i hi) (other j hj);
    free = λ more. absurd (omega (arith, empty));
    stuck = λ i h. elim (ℕ_discrete now i) [
      | yes e ↦
          subst
            (λ i. (slot (block_current_on_semaphore s.kernel.table) i).state ≡ blocked_on_semaphore)
            e (state-block_current_on blocked_on_semaphore s.kernel.table now-sized)
      | no ne ↦
          ap (λ (x : Task). x.state)
            (slot-block_current_on blocked_on_semaphore s.kernel.table i now-sized
              (λ e. ne (sym e)))
          ∙ inv.stuck i (sym (untouched s.place now waiting i ne) ∙ h)
    ];
    waiter = λ _. updated s.place now waiting now refl;
  }
    where
      other : (i : ℕ) → update s.place now waiting i ≡ holding → s.place i ≡ holding
      other i h = elim (ℕ_discrete now i) [
        | yes e ↦ absurd (holding-waiting (sym h ∙ updated s.place now waiting i e))
        | no ne ↦ sym (untouched s.place now waiting i ne) ∙ h
      ]

  module _ (own : s.place now ≡ holding) where
    -- After a give by the only holder nobody else holds.
    abbrev given : ℕ → Place
    given = update s.place now outside

    nobody : (i : ℕ) → given i ≢ holding
    nobody i h = elim (ℕ_discrete now i) [
      | yes e ↦ holding-outside (sym h ∙ updated s.place now outside i e)
      | no ne ↦ ne (inv.one now i own (sym (untouched s.place now outside i ne) ∙ h))
    ]

    still : (i : ℕ) → given i ≡ waiting → s.place i ≡ waiting
    still i h = elim (ℕ_discrete now i) [
      | yes e ↦ absurd (outside-waiting (sym (updated s.place now outside i e) ∙ h))
      | no ne ↦ sym (untouched s.place now outside i ne) ∙ h
    ]

    count-Guarded :
        s.semaphore.waiting_task ≡ semaphore_no_waiter
        → Guarded (record (s.semaphore) { count = 1 }) s.kernel.table given
    count-Guarded alone = record {
      table = inv.table;
      binary = omega arith;
      one = λ i j hi. absurd (nobody i hi);
      free = λ _. nobody;
      stuck = λ i h. inv.stuck i (still i h);
      waiter = λ ne. absurd (ne alone);
    }

    hand-Guarded :
        s.semaphore.waiting_task ≢ semaphore_no_waiter
        → Guarded
            (record (s.semaphore) { waiting_task = semaphore_no_waiter })
            (set_ready s.semaphore.waiting_task s.kernel.table)
            (update given s.semaphore.waiting_task holding)
    hand-Guarded waits = record {
      table = set_ready-IsValid inv.table s.semaphore.waiting_task;
      binary = inv.binary;
      one = λ i j hi hj. sym (is_waiter i hi) ∙ is_waiter j hj;
      free = λ more i h. inv.free more now own;
      stuck = λ i h.
          let ne = not_waiter i h in
          ap (λ (x : Task). x.state)
            (slot-set_ready s.semaphore.waiting_task s.kernel.table i sized (λ e. ne (sym e)))
          ∙ inv.stuck i (still i (sym (untouched given _ holding i ne) ∙ h));
      waiter = λ ne. absurd (ne refl);
    }
      where
        is_waiter :
            (i : ℕ)
            → update given s.semaphore.waiting_task holding i ≡ holding
            → s.semaphore.waiting_task ≡ i
        is_waiter i h = elim (ℕ_discrete s.semaphore.waiting_task i) [
          | yes e ↦ e
          | no ne ↦
              absurd (nobody i (sym (untouched given s.semaphore.waiting_task holding i ne) ∙ h))
        ]

        not_waiter :
            (i : ℕ)
            → update given s.semaphore.waiting_task holding i ≡ waiting
            → s.semaphore.waiting_task ≢ i
        not_waiter i h e =
            holding-waiting (sym (updated given s.semaphore.waiting_task holding i e) ∙ h)

  pub take_step-Inv : Inv (take_step s)
  take_step-Inv = elim (ℕ_discrete s.semaphore.count 0) [
    | yes empty ↦ Now-Inv _ _ _ _ (wait-Now s empty) (wait-Guarded empty)
    | no some_left ↦
        let pos : 0 < s.semaphore.count = omega arith in
        Now-Inv _ _ _ _ (take-Now s pos) (take-Guarded pos)
  ]

  pub give_step-Inv : s.place now ≡ holding → Inv (give_step s)
  give_step-Inv own = elim (ℕ_discrete s.semaphore.waiting_task semaphore_no_waiter) [
    | yes alone ↦ Now-Inv _ _ _ _ (count-Now s alone) (count-Guarded own alone)
    | no waits ↦ Now-Inv _ _ _ _ (hand-Now s waits) (hand-Guarded own waits)
  ]

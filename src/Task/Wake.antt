-- ===== src/Task/Wake.antt =====
-- rtosk_task_update_blocked of src/kernel/task.c, slot by slot.
use tinyrtos.Prelude.{
  ℕ, suc, ◌≤◌, ◌<◌, ◌≡◌, refl, ◌∙◌, inl, inr, ◌≢◌, Bool, true, false, ◌&&◌, arith, ltb,
  if◌then◌else◌, Bool-cases, ℕ_discrete, length, for_range_inv,
}
use tinyrtos.Task.{
  Task, TaskTable, ready, is_blocked, expired, slot, set_slot, wake_slot, update_blocked,
}
use tinyrtos.Task.Table.{
  slot-set_slot, length-set_slot, count-set_slot, current-set_slot, idle_ready-set_slot,
}

-- Slot `j` holds a sleeping task whose time has come.
abbrev pub is_due : ℕ → TaskTable → ℕ → Bool
is_due tick t j = is_blocked (slot t j).state && expired tick (slot t j).wake_tick

abbrev pub woken : Task → Task
woken task = record task { state = ready }

-- The table after the slots below `i` have been looked at.
pub record Woken (tick : ℕ) (t : TaskTable) (i : ℕ) (r : TaskTable × Bool) : Type 0 where
  pub slots :
      (j : ℕ) → slot r.0 j ≡ (if ltb j i && is_due tick t j then woken (slot t j) else slot t j)
  pub size : length r.0.tasks ≡ length t.tasks
  pub count : r.0.count ≡ t.count
  pub current : r.0.current ≡ t.current
  pub idle_ready : r.0.idle_ready ≡ t.idle_ready
  pub woke : r.1 ≡ true → (j : ℕ) × (j < i) × (is_due tick t j ≡ true)
  pub none_woke : r.1 ≡ false → (j : ℕ) → j < i → is_due tick t j ≡ false

module _ (tick : ℕ) (t : TaskTable) where
  wake_slot-due :
      (i : ℕ) (r : TaskTable) (w : Bool)
      → is_due tick r i ≡ true
      → wake_slot tick i (r, w) ≡ (set_slot r i (woken (slot r i)), true)
  unfolding wake_slot
  wake_slot-due i r w h = rw h refl

  wake_slot-not_due :
      (i : ℕ) (r : TaskTable) (w : Bool)
      → is_due tick r i ≡ false
      → wake_slot tick i (r, w) ≡ (r, w)
  unfolding wake_slot
  wake_slot-not_due i r w h = rw h refl

  same-slot : (i : ℕ) (r : TaskTable × Bool) → Woken tick t i r → slot r.0 i ≡ slot t i
  same-slot i r h = h.slots i ∙ ground arith

  later_slot :
      (i j : ℕ)
      → i ≢ j
      → (if ltb j i && is_due tick t j then woken (slot t j) else slot t j)
        ≡ (if ltb j (suc i) && is_due tick t j then woken (slot t j) else slot t j)
  later_slot i j ne = let e : ltb j i ≡ ltb j (suc i) = ground arith in rw e refl

  Woken-slot_due :
      (i : ℕ) (r : TaskTable) (w : Bool)
      → i < length t.tasks
      → Woken tick t i (r, w)
      → is_due tick t i ≡ true
      → (j : ℕ)
      → slot (set_slot r i (woken (slot r i))) j
        ≡ (if ltb j (suc i) && is_due tick t j then woken (slot t j) else slot t j)
  Woken-slot_due i r w lt h due j =
      rw (slot-set_slot r i j (woken (slot r i)) (omega (arith, h.size))) (elim (ℕ_discrete i j) [
        | yes e ↦ rw (← e, due, same-slot i (r, w) h) (ground arith)
        | no ne ↦ ground (arith, h.slots j, later_slot i j ne)
      ])

  Woken-slot_not_due :
      (i : ℕ) (r : TaskTable) (w : Bool)
      → Woken tick t i (r, w)
      → is_due tick t i ≡ false
      → (j : ℕ)
      → slot r j ≡ (if ltb j (suc i) && is_due tick t j then woken (slot t j) else slot t j)
  Woken-slot_not_due i r w h not_due j = elim (ℕ_discrete i j) [
    | yes e ↦ rw (← e, not_due) (same-slot i (r, w) h ∙ ground arith)
    | no ne ↦ h.slots j ∙ later_slot i j ne
  ]

  Woken-round :
      (i : ℕ) (r : TaskTable × Bool)
      → i < length t.tasks
      → Woken tick t i r
      → Woken tick t (suc i) (wake_slot tick i r)
  Woken-round i (r, w) lt h = elim (Bool-cases (is_due tick t i)) [
    | inl due ↦ rw (wake_slot-due i r w (rw (same-slot i (r, w) h) due)) (record {
      slots = λ j. Woken-slot_due i r w lt h due j;
      size = length-set_slot r i _ ∙ h.size;
      count = count-set_slot r i _ ∙ h.count;
      current = current-set_slot r i _ ∙ h.current;
      idle_ready = idle_ready-set_slot r i _ ∙ h.idle_ready;
      woke = λ e. (i, omega arith, due);
      none_woke = λ e. cc;
    })
    | inr not_due ↦ rw (wake_slot-not_due i r w (rw (same-slot i (r, w) h) not_due)) (record {
      slots = λ j. Woken-slot_not_due i r w h not_due j;
      size = h.size;
      count = h.count;
      current = h.current;
      idle_ready = h.idle_ready;
      woke = λ e. let (j, lt', due) = h.woke e in (j, omega arith, due);
      none_woke = λ e j lt'. elim (ℕ_discrete j i) [
        | yes q ↦ rw q not_due
        | no ne ↦ h.none_woke e j (omega arith)
      ];
    })
  ]

-- The whole loop of rtosk_task_update_blocked: a user task that sleeps and whose wake tick has come
-- becomes ready, every other slot and every counter stays, and the result says whether there was one.
pub Woken-update_blocked :
    (tick : ℕ) (t : TaskTable)
    → t.count ≤ length t.tasks
    → Woken tick t t.count (update_blocked tick t)
unfolding update_blocked
Woken-update_blocked tick t fits =
    for_range_inv (Woken tick t) (wake_slot tick) t.count 0 t.count (t, false) (omega arith)
      (λ k r lo hi h. Woken-round tick t k r (omega arith) h)
      (record {
        slots = λ j. ground arith;
        size = refl;
        count = refl;
        current = refl;
        idle_ready = refl;
        woke = λ e. cc;
        none_woke = λ e j lt. absurd (omega arith);
      })

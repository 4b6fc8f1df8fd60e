-- ===== src/Queue/System/Sending.antt =====
-- What the calls of src/kernel/queue.c do to the waiting task and to the task table.
use tinyrtos.Prelude.{
  ℕ, ◌≤◌, ◌≡◌, ◌≢◌, refl, sym, subst, ◌∙◌, arith, List, some, Bool-cases, ℕ_discrete, inl, inr,
  true, false, leb, ltb, ◌==◌,
}
use tinyrtos.Task.{TaskTable, set_ready, block_current_on_queue}
use tinyrtos.Kernel.{Kernel, on_table, enter_critical}
use tinyrtos.Kernel.Frame.{
  empty_section-SameBut, empty_yield-SameBut, critical_yield-SameBut, on_table-SameBut,
  kernel_yield-SameBut, current-entered,
}
use tinyrtos.Queue.{Queue, queue_no_waiter, put_item, take_item, send, send_from_isr, receive_round}
use tinyrtos.Queue.System.{object}

-- A send: the queue is full; or it takes the item and nobody waits; or it takes it and makes the waiting task ready.
pub data Sending (q : Queue) (t : TaskTable) : Queue → TaskTable → Type 0 where
  full : q.capacity ≤ q.count → Sending q t q t
  puts :
      (q' : Queue)
      → q.waiting_task ≡ queue_no_waiter
      → q'.waiting_task ≡ queue_no_waiter
      → Sending q t q' t
  wakes :
      (q' : Queue)
      → q.waiting_task ≢ queue_no_waiter
      → q'.waiting_task ≡ queue_no_waiter
      → Sending q t q' (set_ready q.waiting_task t)

waiting-put_item : (q : Queue) (item : List ℕ) → (put_item q item).waiting_task ≡ q.waiting_task
unfolding put_item
waiting-put_item q item = refl

module _ (q : Queue) (item : List ℕ) where
  free :
      q.waiting_task ≡ queue_no_waiter → ((put_item q item).waiting_task == queue_no_waiter) ≡ true
  free e = ground (arith, waiting-put_item q item)

  held :
      q.waiting_task ≢ queue_no_waiter → ((put_item q item).waiting_task == queue_no_waiter) ≡ false
  held ne = ground (arith, waiting-put_item q item)

  -- A send leaves the queue and the table as one of the three.
  pub send-Sending :
      (k : Kernel)
      → Sending q k.table
          (object q (send (some q) (some item) k).1)
          (send (some q) (some item) k).2.table
  unfolding send
  send-Sending k = elim (Bool-cases (leb q.capacity q.count)) [
    | inl is_full ↦ rw is_full (
        subst (Sending q k.table q) (sym (empty_section-SameBut k).same_table)
          (full (ground (arith, is_full))))
    | inr room ↦ elim (ℕ_discrete q.waiting_task queue_no_waiter) [
      | yes e ↦
          rw (room, free e)
            (subst (Sending q k.table (put_item q item)) (sym (empty_yield-SameBut k).same_table)
              (puts (put_item q item) e (waiting-put_item q item ∙ e)))
      | no ne ↦
          rw (room, held ne)
            (subst (Sending q k.table _)
              (sym (critical_yield-SameBut (set_ready (put_item q item).waiting_task) k).same_table)
              (subst
                (λ w.
                  Sending q k.table (record (put_item q item) { waiting_task = queue_no_waiter })
                    (set_ready w k.table))
                (sym (waiting-put_item q item))
                (wakes (record (put_item q item) { waiting_task = queue_no_waiter }) ne refl)))
    ]
  ]

  pub send_from_isr-Sending :
      (k : Kernel)
      → Sending q k.table
          (object q (send_from_isr (some q) (some item) k).1)
          (send_from_isr (some q) (some item) k).2.table
  unfolding send_from_isr
  send_from_isr-Sending k = elim (Bool-cases (leb q.capacity q.count)) [
    | inl is_full ↦ rw is_full (full (ground (arith, is_full)))
    | inr room ↦ elim (ℕ_discrete q.waiting_task queue_no_waiter) [
      | yes e ↦ rw (room, free e) (puts (put_item q item) e (waiting-put_item q item ∙ e))
      | no ne ↦
          let woken = on_table (set_ready (put_item q item).waiting_task) k in
          rw (room, held ne)
            (subst (Sending q k.table _)
              (sym (
                (kernel_yield-SameBut woken).same_table
                ∙ (on_table-SameBut (set_ready (put_item q item).waiting_task) k).same_table))
              (subst
                (λ w.
                  Sending q k.table (record (put_item q item) { waiting_task = queue_no_waiter })
                    (set_ready w k.table))
                (sym (waiting-put_item q item))
                (wakes (record (put_item q item) { waiting_task = queue_no_waiter }) ne refl)))
    ]
  ]

-- A round of a receive: it takes an item; or the queue is empty and the caller waits.
pub data Receiving (q : Queue) (t : TaskTable) : Queue → TaskTable → Type 0 where
  takes : (q' : Queue) → q'.waiting_task ≡ q.waiting_task → Receiving q t q' t
  waits_for_item :
      (q' : Queue)
      → q'.count ≡ 0
      → q'.waiting_task ≡ t.current
      → Receiving q t q' (block_current_on_queue t)

pub receive_round-Receiving :
    (q : Queue) (item : List ℕ) (k : Kernel)
    → Receiving q k.table
        (object q (receive_round (some q) (some item) k).1)
        (receive_round (some q) (some item) k).2.table
unfolding receive_round take_item
receive_round-Receiving q item k = elim (Bool-cases (ltb 0 q.count)) [
  | inl some_item ↦ rw some_item (
      subst (Receiving q k.table (take_item q item).0) (sym (empty_section-SameBut k).same_table)
        (takes (take_item q item).0 refl))
  | inr empty ↦ rw empty (
      subst (Receiving q k.table _)
        (sym (critical_yield-SameBut block_current_on_queue k).same_table)
        (waits_for_item (record q { waiting_task = (enter_critical k).table.current })
          (ground (arith, empty)) (current-entered k)))
]

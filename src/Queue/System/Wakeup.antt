-- ===== src/Queue/System/Wakeup.antt =====
-- No wake-up of the task that receives from a queue of src/kernel/queue.c is lost.
use tinyrtos.Prelude.{
  ℕ, ◌≤◌, ◌<◌, ◌≡◌, ◌≢◌, sym, ap, subst, ◌∙◌, inl, inr, arith, length, List, true, ℕ_discrete,
}
use tinyrtos.Task.{
  Task, TaskTable, TaskState, idle_task_index, ready, blocked_on_queue, is_ready, slot, set_ready,
}
use tinyrtos.Task.Valid.{IsValid}
use tinyrtos.Task.Keep.{block_current_on-IsValid, set_ready-IsValid}
use tinyrtos.Kernel.{sleep_ms}
use tinyrtos.Kernel.Valid.{sleep_ms-IsValid, kernel_tick-IsValid, take_pendsv-IsValid}
use tinyrtos.Kernel.Switch.{state-take_pendsv, count-take_pendsv}
use tinyrtos.Kernel.Slots.{
  state-set_ready, slot-sleep_ms, state-sleep_ms, kernel_tick-slot, count-block_current_on,
  count-set_ready, count-kernel_tick, count-sleep_ms,
}
use tinyrtos.Queue.{Queue, queue_no_waiter}
use tinyrtos.Queue.System.{
  System, send_step, isr_step, receive_step, Step, receives, sends, interrupts, sleeps, ticks,
  switches, Steps, here, next,
}
use tinyrtos.Queue.System.Sending.{
  Sending, full, puts, wakes, Receiving, takes, waits_for_item, send-Sending, send_from_isr-Sending,
  receive_round-Receiving,
}

-- A queue and a task table in which task `c` alone receives: it waits only for a queue that is empty and that knows it.
pub record Awaited (c : ℕ) (q : Queue) (t : TaskTable) : Type 0 where
  pub table : IsValid t
  pub user : c < t.count
  pub waiter : q.waiting_task ≢ queue_no_waiter → q.waiting_task ≡ c
  pub asleep : (slot t c).state ≡ blocked_on_queue → (q.count ≡ 0) × (q.waiting_task ≡ c)

ready-blocked : ready ≢ blocked_on_queue
ready-blocked e = cc

Sending-Awaited :
    {c : ℕ} {q q' : Queue} {t t' : TaskTable} → Awaited c q t → Sending q t q' t' → Awaited c q' t'
Sending-Awaited a (full no_room) = a
Sending-Awaited {c} {q} {t = t} a (puts u nobody alone) = record {
  table = a.table;
  user = a.user;
  waiter = λ ne. absurd (ne alone);
  asleep = λ h. absurd (omega (arith, (a.asleep h).1, nobody, a.user, a.table.few));
}
Sending-Awaited {c} {q} {t = t} a (wakes u waits alone) =
    let is_c = a.waiter waits in
    let sized : t.count ≤ length t.tasks = omega (arith, a.table.size, a.table.few) in
    let woken : (slot (set_ready q.waiting_task t) c).state ≡ ready =
      subst (λ w. (slot (set_ready w t) c).state ≡ ready) (sym is_c)
        (state-set_ready c t sized a.user) in
    record {
      table = set_ready-IsValid a.table q.waiting_task;
      user = rw (count-set_ready q.waiting_task t) a.user;
      waiter = λ ne. absurd (ne alone);
      asleep = λ h. absurd (ready-blocked (sym woken ∙ h));
    }

-- A send that has room makes a waiting task ready.
Sending-ready :
    {c : ℕ} {q q' : Queue} {t t' : TaskTable}
    → Awaited c q t
    → (slot t c).state ≡ blocked_on_queue
    → 0 < q.capacity
    → Sending q t q' t'
    → (slot t' c).state ≡ ready
Sending-ready a h room (full no_room) = absurd (omega (arith, no_room, (a.asleep h).0, room))
Sending-ready a h room (puts u nobody alone) =
    absurd (omega (arith, (a.asleep h).1, nobody, a.user, a.table.few))
Sending-ready {c} {q} {t = t} a h room (wakes u waits alone) =
    subst (λ w. (slot (set_ready w t) c).state ≡ ready) (sym (a.asleep h).1)
      (state-set_ready c t (omega (arith, a.table.size, a.table.few)) a.user)

Receiving-Awaited :
    {c : ℕ} {q q' : Queue} {t t' : TaskTable}
    → Awaited c q t
    → t.current ≡ c
    → is_ready (slot t c).state ≡ true
    → Receiving q t q' t'
    → Awaited c q' t'
Receiving-Awaited {c} {q} {t = t} a now runs (takes u same) = record {
  table = a.table;
  user = a.user;
  waiter = λ ne. same ∙ a.waiter (λ e. ne (same ∙ e));
  asleep = λ h. absurd (ground (arith, runs, h));
}
Receiving-Awaited {c} {q} {t = t} a now runs (waits_for_item u empty is_current) = record {
  table =
      block_current_on-IsValid a.table blocked_on_queue (λ e. cc)
        (omega (arith, now, a.user, a.table.few));
  user = rw (count-block_current_on blocked_on_queue t) a.user;
  waiter = λ ne. is_current ∙ now;
  asleep = λ h. (empty, is_current ∙ now);
}

-- A change of the kernel that keeps the table valid and blocks no task on a queue.
kernel-Awaited :
    {c : ℕ} {q : Queue} {t t' : TaskTable}
    → Awaited c q t
    → IsValid t'
    → t'.count ≡ t.count
    → ((slot t' c).state ≡ blocked_on_queue → (slot t c).state ≡ blocked_on_queue)
    → Awaited c q t'
kernel-Awaited a v same before = record {
  table = v;
  user = rw same a.user;
  waiter = a.waiter;
  asleep = λ h. a.asleep (before h);
}

abbrev pub Inv : ℕ → System → Type 0
Inv c s = Awaited c s.queue s.kernel.table

Step-Inv : {c : ℕ} {s t : System} → Step c s t → Inv c s → Inv c t
unfolding send_step isr_step receive_step
Step-Inv {c} {s} (receives item r now) a =
    Receiving-Awaited a now
      (subst (λ i. is_ready (slot s.kernel.table i).state ≡ true) now r.is_ready_now)
      (receive_round-Receiving s.queue item s.kernel)
Step-Inv {c} {s} (sends item r) a = Sending-Awaited a (send-Sending s.queue item s.kernel)
Step-Inv {c} {s} (interrupts item) a =
    Sending-Awaited a (send_from_isr-Sending s.queue item s.kernel)
Step-Inv {c} {s} (sleeps ms r) a =
    kernel-Awaited a (sleep_ms-IsValid ms s.kernel a.table) (count-sleep_ms ms s.kernel) (λ h.
      elim (ℕ_discrete c s.kernel.table.current) [
        | yes e ↦
            let asleep_now = state-sleep_ms ms s.kernel inside (λ i. user i) in
            absurd (
              asleep-blocked (
                sym asleep_now
                ∙ subst (λ i. (slot (sleep_ms ms s.kernel).table i).state ≡ blocked_on_queue) e h))
        | no ne ↦ sym (ap (λ (x : Task). x.state) (slot-sleep_ms ms s.kernel c inside ne)) ∙ h
      ])
  where
    inside : s.kernel.table.current < length s.kernel.table.tasks
    inside = omega (arith, r.user, a.table.size, a.table.few)

    user : s.kernel.table.current ≢ idle_task_index
    user i = omega (arith, r.user, i, a.table.few)

    asleep-blocked : TaskState.blocked ≢ blocked_on_queue
    asleep-blocked e = cc
Step-Inv {c} {s} ticks a =
    let sized : s.kernel.table.count ≤ length s.kernel.table.tasks =
      omega (arith, a.table.size, a.table.few) in
    kernel-Awaited a (kernel_tick-IsValid s.kernel a.table) (count-kernel_tick s.kernel sized) (λ h.
      elim (kernel_tick-slot s.kernel c sized) [
        | inl same ↦ sym (ap (λ (x : Task). x.state) same) ∙ h
        | inr woken ↦ absurd (ready-blocked (sym woken ∙ h))
      ])
Step-Inv {c} {s} (switches sp) a =
    kernel-Awaited a (take_pendsv-IsValid sp s.kernel a.table) (count-take_pendsv sp s.kernel)
      (λ h. sym (state-take_pendsv sp s.kernel c) ∙ h)

Steps-Inv : {c : ℕ} {s t : System} → Inv c s → Steps c s t → Inv c t
Steps-Inv a here = a
Steps-Inv a (next r st) = Step-Inv st (Steps-Inv a r)

-- No lost wake-up: from a valid task table, a queue that nobody waits for, and a user task `c` that is not blocked on a
-- queue, and in any interleaving in which only `c` receives, with sends from tasks and from interrupts, sleeps, ticks and
-- context switches: when `c` is blocked on the queue, whose capacity is above 0, the queue is empty, and the next send,
-- from a task or from an interrupt, makes `c` ready.
pub no_lost_wakeup :
    {c : ℕ} {s t : System} (item : List ℕ)
    → IsValid s.kernel.table
    → c < s.kernel.table.count
    → s.queue.waiting_task ≡ queue_no_waiter
    → (slot s.kernel.table c).state ≢ blocked_on_queue
    → Steps c s t
    → (slot t.kernel.table c).state ≡ blocked_on_queue
    → 0 < t.queue.capacity
    → (t.queue.count ≡ 0)
      × ((slot (send_step item t).kernel.table c).state ≡ ready)
      × ((slot (isr_step item t).kernel.table c).state ≡ ready)
unfolding send_step isr_step
no_lost_wakeup {c} {s} {t} item v user alone awake r asleep room =
    let start : Inv c s = record {
      table = v;
      user = user;
      waiter = λ ne. absurd (ne alone);
      asleep = λ h. absurd (awake h);
    } in
    let a = Steps-Inv start r in
    (
      (a.asleep asleep).0,
      Sending-ready a asleep room (send-Sending t.queue item t.kernel),
      Sending-ready a asleep room (send_from_isr-Sending t.queue item t.kernel),
    )

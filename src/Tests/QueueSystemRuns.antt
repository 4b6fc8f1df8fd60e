-- ===== src/Tests/QueueSystemRuns.antt =====
-- A task that waits for a queue of four bytes.
use tinyrtos.Prelude.{◌<◌, ◌≡◌, ◌≢◌, refl, arith, [], ◌∷◌, replicate}
use tinyrtos.Task.{
  ready, blocked_on_queue, slot, init_idle, create, set_slot, fresh_task, block_current_on,
}
use tinyrtos.Port.{irq_save, irq_restore, port_yield}
use tinyrtos.Kernel.{on_table, enter_critical, exit_critical, kernel_yield}
use tinyrtos.Queue.{Queue, queue_no_waiter, receive_round}
use tinyrtos.Queue.System.{System, send_step, isr_step, receive_step, Runs, here, next, receives}
use tinyrtos.Queue.System.Wakeup.{no_lost_wakeup}
use tinyrtos.Tests.Fixtures.{started, three_tasks-IsValid}

abbrev empty_queue : Queue
empty_queue = record {
  buffer = replicate 4 0;
  item_size = 1;
  capacity = 4;
  head = 0;
  tail = 0;
  count = 0;
  waiting_task = queue_no_waiter;
}

abbrev at_start : System
at_start = record { kernel = started; queue = empty_queue }

start-Runs : Runs at_start
unfolding slot init_idle create set_slot fresh_task
start-Runs = record { user = user; is_ready_now = refl }
  where
    user : 0 < 3
    user = omega arith

waiting_state : (slot (receive_step (0 ∷ []) at_start).kernel.table 0).state ≡ blocked_on_queue
unfolding receive_step receive_round slot kernel_yield exit_critical on_table enter_critical
    block_current_on irq_save irq_restore port_yield init_idle create set_slot fresh_task
waiting_state = refl

room : 0 < (receive_step (0 ∷ []) at_start).queue.capacity
unfolding receive_step receive_round
room = at_four
  where
    at_four : 0 < 4
    at_four = omega arith

awake : (slot started.table 0).state ≢ blocked_on_queue
unfolding slot init_idle create set_slot fresh_task
awake = not_blocked
  where
    not_blocked : ready ≢ blocked_on_queue
    not_blocked e = cc

user_task : 0 < started.table.count
unfolding init_idle create set_slot
user_task = below
  where
    below : 0 < 3
    below = omega arith

no_lost_wakeup_example :
    ((receive_step (0 ∷ []) at_start).queue.count ≡ 0)
    × ((slot (send_step (65 ∷ []) (receive_step (0 ∷ []) at_start)).kernel.table 0).state ≡ ready)
    × ((slot (isr_step (65 ∷ []) (receive_step (0 ∷ []) at_start)).kernel.table 0).state ≡ ready)
unfolding init_idle create set_slot
no_lost_wakeup_example =
    no_lost_wakeup (65 ∷ []) three_tasks-IsValid user_task refl awake
      (next here (receives (0 ∷ []) start-Runs refl)) waiting_state room

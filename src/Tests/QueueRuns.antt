-- ===== src/Tests/QueueRuns.antt =====
-- A queue of three items of two bytes.
use tinyrtos.Prelude.{
  ◌≡◌, ◌<◌, length, inr, refl, arith, List, [], ◌∷◌, some, true, false, replicate,
}
use tinyrtos.Port.{irq_save, irq_restore, port_yield}
use tinyrtos.Task.{blocked_on_queue, slot, set_slot, block_current_on, set_ready, init_idle, create}
use tinyrtos.Kernel.{Kernel, on_table, enter_critical, exit_critical, kernel_yield}
use tinyrtos.Queue.{
  Queue, queue_no_waiter, queue_copy, queue_init, put_item, take_item, send, send_from_isr,
  receive_round,
}
use tinyrtos.Queue.Valid.{IsValid, contents}
use tinyrtos.Queue.Trace.{
  Op, put, put_from_isr, get, Reply, sent, got, goes_round, run, run_fifo, run_refines,
}
use tinyrtos.Tests.Fixtures.{started, three_tasks-IsValid}

abbrev raw : Queue
raw = record {
  buffer = [];
  item_size = 9;
  capacity = 9;
  head = 9;
  tail = 9;
  count = 9;
  waiting_task = 9;
}

abbrev fresh : Queue
fresh = record {
  buffer = replicate 6 0;
  item_size = 2;
  capacity = 3;
  head = 0;
  tail = 0;
  count = 0;
  waiting_task = queue_no_waiter;
}

queue_init-fresh : queue_init (some raw) (some (replicate 6 0)) 2 3 ≡ some fresh
unfolding queue_init
queue_init-fresh = refl

-- Two items, the second one in the last block: [5, 6] and then [7, 8]; the next send goes round.
abbrev two_items : Queue
two_items = record {
  buffer = 0 ∷ 0 ∷ 5 ∷ 6 ∷ 7 ∷ 8 ∷ [];
  item_size = 2;
  capacity = 3;
  head = 0;
  tail = 1;
  count = 2;
  waiting_task = 1;
}

two_items-IsValid : IsValid two_items
two_items-IsValid = record {
  some_size = omega arith;
  some_room = omega arith;
  storage = omega arith;
  addressable = omega arith;
  count_in = omega arith;
  head_in = omega arith;
  tail_in = omega arith;
  ring = inr refl;
}

abbrev ops : List (Kernel × Op)
ops =
    (started, put (1 ∷ 2 ∷ []))
    ∷ (started, put_from_isr (3 ∷ 4 ∷ []))
    ∷ (started, get)
    ∷ (started, put_from_isr (9 ∷ 9 ∷ []))
    ∷ (started, get)
    ∷ (started, get)
    ∷ (started, get)
    ∷ (started, get)
    ∷ []

abbrev replies : List Reply
replies =
    sent true
    ∷ sent false
    ∷ got (5 ∷ 6 ∷ [])
    ∷ sent true
    ∷ got (7 ∷ 8 ∷ [])
    ∷ got (1 ∷ 2 ∷ [])
    ∷ got (9 ∷ 9 ∷ [])
    ∷ goes_round 0 blocked_on_queue true
    ∷ []

run-ops : run 2 (some two_items) ops ≡ replies
unfolding run send send_from_isr receive_round put_item take_item queue_copy enter_critical
    exit_critical irq_save irq_restore on_table set_ready block_current_on kernel_yield port_yield
    slot set_slot init_idle create
run-ops = refl

present : started.table.current < length started.table.tasks
unfolding init_idle create set_slot slot
present = omega (arith, three_tasks-IsValid.size)

run_refines_example : run 2 (some two_items) ops ≡ run_fifo 3 (contents two_items) ops
run_refines_example =
    run_refines ops two_items-IsValid
      (refl, (refl, (present, (refl, (present, (present, (present, (present, tt))))))))

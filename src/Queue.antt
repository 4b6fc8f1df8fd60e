-- ===== src/Queue.antt =====
-- The message queue of src/kernel/queue.c: items of `item_size` bytes in a ring of `capacity` items.
-- A pointer is an Option, `none` the null pointer; the bytes behind `buffer` and `item` are lists. The
-- loop of rtosk_queue_receive is taken a round at a time.
pub mod System
pub mod Copy
pub mod Valid
pub mod Ring
pub mod Fifo
pub mod Calls
pub mod Receive
pub mod Trace
use tinyrtos.Prelude.{
  ℕ, zero, suc, ◌+◌, ◌-◌, List, Option, none, some, Bool, true, false, not, ◌||◌, ltb, leb, ◌==◌,
  if◌then◌else◌, add32, sub32, mul32, get_or, set, for_range,
}
use tinyrtos.Task.{set_ready, block_current_on_queue}
use tinyrtos.Kernel.{Kernel, on_table, enter_critical, exit_critical, kernel_yield}

-- RTOSK_QUEUE_NO_WAITER
abbrev pub queue_no_waiter : ℕ
queue_no_waiter = 0xFFFF_FFFF

-- rtosk_queue_t
pub record Queue : Type 0 where
  pub buffer : List ℕ
  pub item_size : ℕ
  pub capacity : ℕ
  pub head : ℕ
  pub tail : ℕ
  pub count : ℕ
  pub waiting_task : ℕ

-- rtosk_queue_copy, from `src + src_offset` to `dst + dst_offset`.
unfoldable pub queue_copy :
    (dst : List ℕ) (dst_offset : ℕ) (src : List ℕ) (src_offset size : ℕ) → List ℕ
queue_copy dst dst_offset src src_offset size =
    for_range size 0 (λ i d. set d (dst_offset + i) (get_or src (src_offset + i) 0)) dst

unfoldable pub queue_init : Option Queue → Option (List ℕ) → (item_size capacity : ℕ) → Option Queue
queue_init none buffer item_size capacity = none
queue_init (some q) none item_size capacity = some q
queue_init (some q) (some buffer) item_size capacity =
    if (item_size == 0) || (capacity == 0)
    then some q
    else some (record {
      buffer = buffer;
      item_size = item_size;
      capacity = capacity;
      head = 0;
      tail = 0;
      count = 0;
      waiting_task = queue_no_waiter;
    })

-- `x++; if(x >= capacity) x = 0;`
abbrev pub advance : ℕ → ℕ → ℕ
advance capacity x = if leb capacity (add32 x 1) then 0 else add32 x 1

-- The copy into the buffer and the new `head` and `count`, common to both ways to send.
unfoldable pub put_item : Queue → List ℕ → Queue
put_item q item = record q {
  buffer = queue_copy q.buffer (mul32 q.head q.item_size) item 0 q.item_size;
  head = advance q.capacity q.head;
  count = add32 q.count 1;
}

-- The copy out of the buffer, and the new `tail` and `count`.
unfoldable pub take_item : Queue → List ℕ → Queue × List ℕ
take_item q item = (
  record q { tail = advance q.capacity q.tail; count = q.count - 1 },
  queue_copy item 0 q.buffer (mul32 q.tail q.item_size) q.item_size,
)

-- Returns false for 0UL and true for 1UL.
unfoldable pub send : Option Queue → Option (List ℕ) → Kernel → Bool × Option Queue × Kernel
send none item k = (false, none, k)
send (some q) none k = (false, some q, k)
send (some q) (some item) k =
    let entered = enter_critical k in
    if leb q.capacity q.count
    then (false, some q, exit_critical entered)
    else let q' = put_item q item in
      if not (q'.waiting_task == queue_no_waiter)
      then (
        true,
        some (record q' { waiting_task = queue_no_waiter }),
        kernel_yield (exit_critical (on_table (set_ready q'.waiting_task) entered)),
      )
      else (true, some q', kernel_yield (exit_critical entered))

unfoldable pub send_from_isr :
    Option Queue → Option (List ℕ) → Kernel → Bool × Option Queue × Kernel
send_from_isr none item k = (false, none, k)
send_from_isr (some q) none k = (false, some q, k)
send_from_isr (some q) (some item) k =
    if leb q.capacity q.count
    then (false, some q, k)
    else let q' = put_item q item in
      if not (q'.waiting_task == queue_no_waiter)
      then (
        true,
        some (record q' { waiting_task = queue_no_waiter }),
        kernel_yield (on_table (set_ready q'.waiting_task) k),
      )
      else (true, some q', k)

-- One round of rtosk_queue_receive: it returns 0UL on a null pointer, returns 1UL with the caller's
-- item filled, or blocks and goes round.
pub data Received : Type 0 where
  refused : Received
  received : List ℕ → Received
  waits : Received

unfoldable pub receive_round :
    Option Queue → Option (List ℕ) → Kernel → Received × Option Queue × Kernel
receive_round none item k = (refused, none, k)
receive_round (some q) none k = (refused, some q, k)
receive_round (some q) (some item) k =
    let entered = enter_critical k in
    if ltb 0 q.count
    then (let (q', item') = take_item q item in (received item', some q', exit_critical entered))
    else (
      waits,
      some (record q { waiting_task = entered.table.current }),
      kernel_yield (exit_critical (on_table block_current_on_queue entered)),
    )

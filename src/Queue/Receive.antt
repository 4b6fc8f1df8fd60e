-- ===== src/Queue/Receive.antt =====
-- rtosk_queue_receive of src/kernel/queue.c against the bounded list of Queue.Fifo, and runs of sends
-- and receives.
use tinyrtos.Prelude.{
  ℕ, ◌≤◌, ◌<◌, ◌≡◌, refl, ap, List, [], arith, length, ltb, Option, none, some, Bool-cases, inl,
  inr,
}
use tinyrtos.Kernel.{Kernel, enter_critical}
use tinyrtos.Kernel.Frame.{enter_critical-SameBut}
use tinyrtos.Queue.{Queue, take_item, receive_round, Received, received, waits}
use tinyrtos.Queue.Copy.{slice}
use tinyrtos.Queue.Valid.{IsValid, contents}
use tinyrtos.Queue.Ring.{contents-take_item, take_item-IsValid}
use tinyrtos.Queue.Fifo.{Item, pop}

-- The answer of a round of a receive, by what the bounded list gives: the item's bytes at the start
-- of the caller's buffer and the waiting task left alone; or the caller as the waiting task.
abbrev pub Answer : (q after : Queue) → Kernel → Received → Option Item → Type 0
Answer q after k (received bytes) (some x) =
    (slice bytes 0 q.item_size ≡ x) × (after.waiting_task ≡ q.waiting_task)
Answer q after k waits none = after.waiting_task ≡ k.table.current
Answer q after k _ _ = ⊥

pub record Took (q : Queue) (k : Kernel) (r : Received) (o : Option Queue) : Type 0 where
  pub after : Queue
  pub is_after : o ≡ some after
  pub valid : IsValid after
  pub size : after.item_size ≡ q.item_size
  pub room : after.capacity ≡ q.capacity
  pub rest : contents after ≡ (pop (contents q)).1
  pub answer : Answer q after k r (pop (contents q)).0

contents-empty : (q : Queue) → q.count ≡ 0 → contents q ≡ []
contents-empty q e = rw e refl

item_size-take_item : (q : Queue) (item : List ℕ) → (take_item q item).0.item_size ≡ q.item_size
unfolding take_item
item_size-take_item q item = refl

capacity-take_item : (q : Queue) (item : List ℕ) → (take_item q item).0.capacity ≡ q.capacity
unfolding take_item
capacity-take_item q item = refl

waiting-take_item : (q : Queue) (item : List ℕ) → (take_item q item).0.waiting_task ≡ q.waiting_task
unfolding take_item
waiting-take_item q item = refl

module _ {q : Queue} (v : IsValid q) (item : List ℕ) (k : Kernel) where
  Took-item :
      0 < q.count
      → q.item_size ≤ length item
      → Took q k (received (take_item q item).1) (some (take_item q item).0)
  unfolding pop
  Took-item some_item fits =
      let c = contents-take_item v item some_item fits in
      record {
        after = (take_item q item).0;
        is_after = refl;
        valid = take_item-IsValid v item some_item;
        size = item_size-take_item q item;
        room = capacity-take_item q item;
        rest = rw c refl;
        answer = rw c (refl, waiting-take_item q item);
      }

  Took-none :
      q.count ≡ 0
      → Took q k waits (some (record q { waiting_task = (enter_critical k).table.current }))
  unfolding pop
  Took-none e = record {
    after = record q { waiting_task = (enter_critical k).table.current };
    is_after = refl;
    valid = record {
      some_size = v.some_size;
      some_room = v.some_room;
      storage = v.storage;
      addressable = v.addressable;
      count_in = v.count_in;
      head_in = v.head_in;
      tail_in = v.tail_in;
      ring = v.ring;
    };
    size = refl;
    room = refl;
    rest = rw (contents-empty q e) refl;
    answer = rw (contents-empty q e) (ap (λ t. t.current) (enter_critical-SameBut k).same_table);
  }

  -- A round of a receive on a valid queue takes the oldest item, byte for byte, leaves the others in
  -- their order and returns; on an empty queue it records the caller as the waiting task and goes
  -- round. It keeps the invariant.
  pub receive_round_refines :
      q.item_size ≤ length item
      → let (r, o, k') = receive_round (some q) (some item) k in Took q k r o
  unfolding receive_round
  receive_round_refines fits = elim (Bool-cases (ltb 0 q.count)) [
    | inl pos ↦ rw pos (Took-item (ground arith) fits)
    | inr empty ↦ rw empty (Took-none (ground arith))
  ]

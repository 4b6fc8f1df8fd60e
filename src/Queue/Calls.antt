-- ===== src/Queue/Calls.antt =====
-- rtosk_queue_send, rtosk_queue_send_from_isr and rtosk_queue_receive of src/kernel/queue.c against
-- the bounded list of Queue.Fifo.
use tinyrtos.Prelude.{
  ℕ, ◌*◌, ◌^◌, ◌≤◌, ◌<◌, ◌≡◌, refl, ap, subst, List, [], arith, length, leb, Option, some, Bool,
  true, false, ◌==◌, Bool-cases, inl, inr,
}
use tinyrtos.Kernel.{Kernel}
use tinyrtos.Queue.{Queue, queue_init, put_item, send, send_from_isr, queue_no_waiter}
use tinyrtos.Queue.Copy.{slice}
use tinyrtos.Queue.Valid.{IsValid, contents}
use tinyrtos.Queue.Ring.{
  length-window, contents-put_item, put_item-IsValid, item_size-put_item, capacity-put_item,
}
use tinyrtos.Queue.Fifo.{push}

-- What rtosk_queue_init accepts is a valid, empty queue, if the buffer holds `capacity` items and
-- lies in a 32-bit address space.
pub queue_init-IsValid :
    (q : Queue) (buffer : List ℕ) (item_size capacity : ℕ)
    → 0 < item_size
    → 0 < capacity
    → capacity * item_size ≤ length buffer
    → length buffer < 2 ^ 32
    → (q' : Queue) × (queue_init (some q) (some buffer) item_size capacity ≡ some q')
      × IsValid q'
      × (contents q' ≡ [])
      × (q'.waiting_task ≡ queue_no_waiter)
unfolding queue_init
queue_init-IsValid q buffer item_size capacity size room fits word = (
  record {
    buffer = buffer;
    item_size = item_size;
    capacity = capacity;
    head = 0;
    tail = 0;
    count = 0;
    waiting_task = queue_no_waiter;
  },
  ground arith,
  record {
    some_size = size;
    some_room = room;
    storage = fits;
    addressable = word;
    count_in = omega arith;
    head_in = room;
    tail_in = room;
    ring = omega arith;
  },
  refl,
  refl,
)

-- What a queue does is read off up to the waiting task, which the invariant does not name.
abbrev unwaited : Queue → Queue
unwaited q = record q { waiting_task = queue_no_waiter }

unwaited-IsValid : {q : Queue} → IsValid q → IsValid (unwaited q)
unwaited-IsValid v = record {
  some_size = v.some_size;
  some_room = v.some_room;
  storage = v.storage;
  addressable = v.addressable;
  count_in = v.count_in;
  head_in = v.head_in;
  tail_in = v.tail_in;
  ring = v.ring;
}

unwaited_eq : (q : Queue) → (q.waiting_task == queue_no_waiter) ≡ true → unwaited q ≡ q
unwaited_eq q e = ground arith

-- The queue that a send leaves, and whether it took the item.
pub record Sent (q : Queue) (item : List ℕ) (r : Bool) (o : Option Queue) : Type 0 where
  pub after : Queue
  pub is_after : o ≡ some after
  pub valid : IsValid after
  pub size : after.item_size ≡ q.item_size
  pub room : after.capacity ≡ q.capacity
  pub pushes : (r, contents after) ≡ push q.capacity (slice item 0 q.item_size) (contents q)
  pub no_waiter : r ≡ true → after.waiting_task ≡ queue_no_waiter

module _ {q : Queue} (v : IsValid q) (item : List ℕ) where
  Sent-full : leb q.capacity q.count ≡ true → Sent q item false (some q)
  unfolding push
  Sent-full full = record {
    after = q;
    is_after = refl;
    valid = v;
    size = refl;
    room = refl;
    pushes = rw (length-window q.buffer q.item_size q.capacity q.tail q.count, full) refl;
    no_waiter = λ e. cc;
  }

  Sent-taken : leb q.capacity q.count ≡ false → Sent q item true (some (unwaited (put_item q item)))
  unfolding push
  Sent-taken room =
      let lt : q.count < q.capacity = ground arith in
      record {
        after = unwaited (put_item q item);
        is_after = refl;
        valid = unwaited-IsValid (put_item-IsValid v item lt);
        size = item_size-put_item q item;
        room = capacity-put_item q item;
        pushes =
            rw (length-window q.buffer q.item_size q.capacity q.tail q.count, room)
              (ap (λ (c : List (List ℕ)). (true, c)) (contents-put_item v item lt));
        no_waiter = λ e. refl;
      }

  -- A send from a task: on a valid queue it does what the bounded list does with the item's bytes,
  -- keeps the invariant, and clears the waiting task if it took the item.
  pub send_refines : (k : Kernel) → let (r, o, k') = send (some q) (some item) k in Sent q item r o
  unfolding send
  send_refines k = elim (Bool-cases (leb q.capacity q.count)) [
    | inl full ↦ rw full (Sent-full full)
    | inr room ↦ rw room (elim (Bool-cases ((put_item q item).waiting_task == queue_no_waiter)) [
      | inl free ↦ rw free (
          subst (λ x. Sent q item true (some x)) (unwaited_eq (put_item q item) free)
            (Sent-taken room))
      | inr held ↦ rw held (Sent-taken room)
    ])
  ]

  -- A send from an interrupt handler does the same.
  pub send_from_isr_refines :
      (k : Kernel) → let (r, o, k') = send_from_isr (some q) (some item) k in Sent q item r o
  unfolding send_from_isr
  send_from_isr_refines k = elim (Bool-cases (leb q.capacity q.count)) [
    | inl full ↦ rw full (Sent-full full)
    | inr room ↦ rw room (elim (Bool-cases ((put_item q item).waiting_task == queue_no_waiter)) [
      | inl free ↦ rw free (
          subst (λ x. Sent q item true (some x)) (unwaited_eq (put_item q item) free)
            (Sent-taken room))
      | inr held ↦ rw held (Sent-taken room)
    ])
  ]

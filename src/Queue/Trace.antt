-- ===== src/Queue/Trace.antt =====
-- Runs of sends, sends from interrupt handlers and receives on one queue of src/kernel/queue.c,
-- against the same run on the bounded list of Queue.Fifo.
use tinyrtos.Prelude.{
  ℕ, ◌≡◌, refl, sym, ◌∙◌, ap, ap₂, List, [], ◌∷◌, arith, length, replicate, length-replicate,
  Option, none, some, Bool, true, ltb, Bool-cases, inl, inr, ◌<◌,
}
use tinyrtos.Port.{port_yield}
use tinyrtos.Task.{TaskTable, TaskState, blocked_on_queue, slot, block_current_on_queue}
use tinyrtos.Kernel.{Kernel, kernel_yield}
use tinyrtos.Kernel.Frame.{critical_yield-SameBut}
use tinyrtos.Kernel.Slots.{state-block_current_on}
use tinyrtos.Queue.{
  Queue, queue_no_waiter, send, send_from_isr, receive_round, Received, refused, received, waits,
}
use tinyrtos.Queue.Copy.{slice, slice_all}
use tinyrtos.Queue.Valid.{IsValid, contents}
use tinyrtos.Queue.Calls.{Sent, send_refines, send_from_isr_refines}
use tinyrtos.Queue.Receive.{Answer, receive_round_refines}
use tinyrtos.Queue.Fifo.{Item, push, pop}

pub data Op : Type 0 where
  put : Item → Op
  put_from_isr : Item → Op
  get : Op

-- What is seen of a call: whether the item was taken; the item; that nothing was received; or that the caller goes round
-- to receive again, and then the task that the queue has recorded, the state of the task that called, and whether
-- PendSV is pending, so that another task may run.
pub data Reply : Type 0 where
  sent : Bool → Reply
  got : Item → Reply
  refuses : Reply
  goes_round : (recorded : ℕ) → (caller : TaskState) → (pendsv : Bool) → Reply

abbrev pub recorded_in : Option Queue → ℕ
recorded_in none = queue_no_waiter
recorded_in (some q) = q.waiting_task

-- A receive by the current task of `k` that left the kernel `after`.
abbrev pub seen : ℕ → (k : Kernel) → Received → Option Queue → (after : Kernel) → Reply
seen n k refused q after = refuses
seen n k (received bytes) q after = got (slice bytes 0 n)
seen n k waits q after =
    goes_round (recorded_in q) (slot after.table k.table.current).state after.cpu.pendsv

-- One call with items of `n` bytes; a receive is given a buffer of `n` zeros.
abbrev pub call : ℕ → Op → Option Queue → Kernel → Reply × Option Queue × Kernel
call n (put item) q k = let (r, q', k') = send q (some item) k in (sent r, q', k')
call n (put_from_isr item) q k = let (r, q', k') = send_from_isr q (some item) k in (sent r, q', k')
call n get q k =
    let (r, q', k') = receive_round q (some (replicate n 0)) k in (seen n k r q' k', q', k')

-- Each call comes with the kernel state that it finds: what runs between two calls (context
-- switches, ticks, other tasks) is not restricted, as long as it leaves this queue alone.
unfoldable pub run : ℕ → Option Queue → List (Kernel × Op) → List Reply
run n q [] = []
run n q ((k, op) ∷ ops) = let (r, q', k') = call n op q k in r ∷ run n q' ops

-- What a receive is to show, by what the bounded list gives: the item; or the caller recorded, blocked on the queue and
-- about to lose the processor.
abbrev pub reply : Kernel → Option Item → Reply
reply k (some x) = got x
reply k none = goes_round k.table.current blocked_on_queue true

-- The same on the bounded list.
abbrev pub fifo_call : ℕ → Kernel → Op → List Item → Reply × List Item
fifo_call capacity k (put item) items =
    let (r, items') = push capacity item items in (sent r, items')
fifo_call capacity k (put_from_isr item) items =
    let (r, items') = push capacity item items in (sent r, items')
fifo_call capacity k get items = let (x, items') = pop items in (reply k x, items')

unfoldable pub run_fifo : ℕ → List Item → List (Kernel × Op) → List Reply
run_fifo capacity items [] = []
run_fifo capacity items ((k, op) ∷ ops) =
    let (r, items') = fifo_call capacity k op items in r ∷ run_fifo capacity items' ops

-- Every item that is sent has `n` bytes, and the task that receives is in the table.
abbrev pub Sized : ℕ → Kernel → Op → Type 0
Sized n k (put item) = n ≡ length item
Sized n k (put_from_isr item) = n ≡ length item
Sized n k get = k.table.current < length k.table.tasks

abbrev pub AllSized : ℕ → List (Kernel × Op) → Type 0
AllSized n [] = Unit
AllSized n ((k, op) ∷ ops) = Sized n k op × AllSized n ops

-- One call: the reply of the list, and a valid queue that holds what the list holds.
record Agrees (n capacity : ℕ) (k : Kernel) (items : List Item) (op : Op) (r : Reply)
    (o : Option Queue) : Type 0 where
  after : Queue
  is_after : o ≡ some after
  valid : IsValid after
  size : after.item_size ≡ n
  room : after.capacity ≡ capacity
  same : (r, contents after) ≡ fifo_call capacity k op items

Sent-Agrees :
    (q : Queue) (k : Kernel) (item : Item) {r : Bool} {o : Option Queue}
    → q.item_size ≡ length item
    → Sent q item r o
    → Agrees q.item_size q.capacity k (contents q) (put item) (sent r) o
Sent-Agrees q k item e s = record {
  after = s.after;
  is_after = s.is_after;
  valid = s.valid;
  size = s.size;
  room = s.room;
  same =
      ap (λ (p : Bool × List Item). (sent p.0, p.1))
        (s.pushes ∙ ap (λ x. push q.capacity x (contents q)) (slice_all item q.item_size e));
}

pendsv-kernel_yield : (k : Kernel) → (kernel_yield k).cpu.pendsv ≡ true
unfolding kernel_yield port_yield
pendsv-kernel_yield k = refl

-- A receive that waits has blocked its caller.
receive_round-blocks :
    (q : Queue) (item : List ℕ) (k : Kernel)
    → k.table.current < length k.table.tasks
    → let (r, o, k') = receive_round (some q) (some item) k in
      r ≡ waits
      → ((slot k'.table k.table.current).state ≡ blocked_on_queue) × (k'.cpu.pendsv ≡ true)
unfolding receive_round
receive_round-blocks q item k lt = elim (Bool-cases (ltb 0 q.count)) [
  | inl some_item ↦ rw some_item (λ e. cc)
  | inr empty ↦ rw empty (λ e. (
    ap (λ (t : TaskTable). (slot t k.table.current).state)
          (critical_yield-SameBut block_current_on_queue k).same_table
        ∙ state-block_current_on blocked_on_queue k.table lt,
    pendsv-kernel_yield _,
  ))
]

seen-Answer :
    (q after : Queue) (k : Kernel) (r : Received) (o : Option Queue) (k' : Kernel) (x : Option Item)
    → o ≡ some after
    → (r ≡ waits
        → ((slot k'.table k.table.current).state ≡ blocked_on_queue) × (k'.cpu.pendsv ≡ true))
    → Answer q after k r x
    → seen q.item_size k r o k' ≡ reply k x
seen-Answer q after k (received bytes) o k' (some x) is blocks h = ap got h.0
seen-Answer q after k waits o k' none is blocks h =
    let (state, pending) = blocks refl in rw (is, state, pending, h)
seen-Answer q after k refused o k' none is blocks h = absurd h
seen-Answer q after k refused o k' (some x) is blocks h = absurd h
seen-Answer q after k (received bytes) o k' none is blocks h = absurd h
seen-Answer q after k waits o k' (some x) is blocks h = absurd h

call-Agrees :
    (op : Op) {q : Queue} (k : Kernel)
    → IsValid q
    → Sized q.item_size k op
    → let (r, o, k') = call q.item_size op (some q) k in
      Agrees q.item_size q.capacity k (contents q) op r o
call-Agrees (put item) {q} k v e = Sent-Agrees q k item e (send_refines v item k)
call-Agrees (put_from_isr item) {q} k v e =
    let a = Sent-Agrees q k item e (send_from_isr_refines v item k) in
    record {
      after = a.after;
      is_after = a.is_after;
      valid = a.valid;
      size = a.size;
      room = a.room;
      same = a.same;
    }
call-Agrees get {q} k v e =
    let buffer = replicate q.item_size 0 in
    let t =
      receive_round_refines v buffer k (omega (arith, length-replicate {A = ℕ} q.item_size 0)) in
    record {
      after = t.after;
      is_after = t.is_after;
      valid = t.valid;
      size = t.size;
      room = t.room;
      same =
          ap₂ (λ (r : Reply) (items : List Item). (r, items))
            (seen-Answer q t.after k _ _ _ _ t.is_after (receive_round-blocks q buffer k e)
              t.answer)
            t.rest;
    }

-- No run of sends and receives of whole items tells a valid queue from the bounded first-in
-- first-out list of its items, whatever kernel state each call finds, if the task that receives is in its table: every
-- answer of a send and the bytes of every item received are those of the list, and a receive goes round just when the
-- list is empty, with the caller recorded in the queue and blocked on it, and PendSV pending.
pub run_refines :
    (ops : List (Kernel × Op)) {q : Queue}
    → IsValid q
    → AllSized q.item_size ops
    → run q.item_size (some q) ops ≡ run_fifo q.capacity (contents q) ops
unfolding run run_fifo
run_refines [] v sized = refl
run_refines ((k, op) ∷ ops) {q} v sized =
    let (r, o, k') = call q.item_size op (some q) k in
    let a = call-Agrees op k v sized.0 in
    let rest = run_refines ops {q = a.after} a.valid (rw a.size sized.1) in
    ap₂ ◌∷◌ (ap (λ (p : Reply × List Item). p.0) a.same) (
      ap (λ (x : Option Queue). run q.item_size x ops) a.is_after
      ∙ ap (λ (m : ℕ). run m (some a.after) ops) (sym a.size)
      ∙ rest
      ∙ ap₂ (λ (c : ℕ) (items : List Item). run_fifo c items ops) a.room
          (ap (λ (p : Reply × List Item). p.1) a.same))

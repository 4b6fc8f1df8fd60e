-- ===== src/Osi/Feed/Started.antt =====
-- The receive path from the start of the shell on: rtosk_osi_init of src/osi/osi.c, and the bytes that come
-- after it.
use tinyrtos.Prelude.{
  ℕ, ◌≤◌, ◌≡◌, refl, sym, ap, ◌∙◌, List, [], ◌++◌, map, length, Option, none, some, false, arith,
}
use tinyrtos.Task.{Layout}
use tinyrtos.Kernel.{Kernel}
use tinyrtos.Queue.{Queue, queue_init}
use tinyrtos.Queue.Calls.{queue_init-IsValid}
use tinyrtos.Bsp.Usart3.{Masks}
use tinyrtos.Osi.{osi_cmd_buffer_size}
use tinyrtos.Osi.Task.{Osi}
use tinyrtos.Osi.Init.{Board, osi_init}
use tinyrtos.Osi.Feed.{Event, run_events}
use tinyrtos.Osi.Feed.Log.{feed, arrived, conserved, all_accepted}
use tinyrtos.Osi.Feed.Holds.{HoldsBytes}
use tinyrtos.Osi.Feed.Delivered.{Delivered, deliver}

-- Whatever order the interrupts and the rounds of the shell's receive come in, and whatever kernel each finds: if the
-- receive queue is valid and holds `pending` at first, it is valid at the end and holds the bytes that are left; the
-- shell did just what it does for the bytes that it took; and these and those that are left are the pending bytes and
-- then the bytes that the queue had room for, each once and in their order.
pub shell_is_fed :
    (m : Masks) (n : ℕ) (es : List Event) (pending : List ℕ) (q : Queue) (o : Osi)
    → HoldsBytes n pending q
    → let log = feed m n es pending in
      Delivered n log o (run_events m es (some q, o))
      × (map (λ (x : ℕ × (ℕ → Kernel)). x.0) log.taken ++ log.left ≡ pending ++ log.accepted)
shell_is_fed m n es pending q o h = (deliver m n es pending q o h, conserved m n es pending)

abbrev item_size_of : Option Queue → ℕ
item_size_of none = 0
item_size_of (some q) = q.item_size

abbrev capacity_of : Option Queue → ℕ
capacity_of none = 0
capacity_of (some q) = q.capacity

-- After the first rtosk_osi_init, with the storage of 128 bytes, the queue is valid and empty.
started_holds :
    (m : Masks) (l : Layout) (osi_task baud priority : ℕ) (b : Board) (q : Queue)
    → b.statics.osi_init ≡ false
    → b.statics.rx_queue ≡ some q
    → length b.statics.storage ≡ osi_cmd_buffer_size
    → (q' : Queue) × ((osi_init m l osi_task baud priority b).statics.rx_queue ≡ some q')
      × HoldsBytes osi_cmd_buffer_size [] q'
unfolding osi_init queue_init
started_holds m l osi_task baud priority b q fresh there size =
    let i =
      queue_init-IsValid q b.statics.storage 1 osi_cmd_buffer_size (omega arith) (omega arith)
        (omega (arith, size)) (omega (arith, size)) in
    (
      i.0,
      rw (fresh, there) i.1,
      record {
        valid = i.2;
        size = ap item_size_of (sym i.1);
        room = ap capacity_of (sym i.1);
        items = i.3;
      },
    )

again :
    (m : Masks) (l : Layout) (osi_task baud priority : ℕ) (b : Board)
    → b.statics.osi_init ≡ false
    → osi_init m l osi_task baud priority (osi_init m l osi_task baud priority b)
      ≡ osi_init m l osi_task baud priority b
unfolding osi_init
again m l osi_task baud priority b fresh = rw fresh refl

-- After the first rtosk_osi_init, as long as at most 128 bytes have come in all, none is lost: in whatever order
-- interrupts and rounds of the receive come, the shell did what it does for the bytes that it took, and these and
-- those that the queue still holds are the bytes that came, each once and in their order; a second rtosk_osi_init
-- changes nothing.
pub nothing_lost :
    (m : Masks) (l : Layout) (osi_task baud priority : ℕ) (b : Board) (q : Queue) (es : List Event)
    (o : Osi)
    → b.statics.osi_init ≡ false
    → b.statics.rx_queue ≡ some q
    → length b.statics.storage ≡ osi_cmd_buffer_size
    → length (arrived m es) ≤ osi_cmd_buffer_size
    → let started = osi_init m l osi_task baud priority b in
      let log = feed m osi_cmd_buffer_size es [] in
      Delivered osi_cmd_buffer_size log o (run_events m es (started.statics.rx_queue, o))
      × (map (λ (x : ℕ × (ℕ → Kernel)). x.0) log.taken ++ log.left ≡ arrived m es)
      × (osi_init m l osi_task baud priority started ≡ started)
nothing_lost m l osi_task baud priority b q es o fresh there size few =
    let s = started_holds m l osi_task baud priority b q fresh there size in
    (
      rw s.1 (deliver m osi_cmd_buffer_size es [] s.0 o s.2),
      conserved m osi_cmd_buffer_size es []
          ∙ all_accepted m osi_cmd_buffer_size es [] (omega (arith, few)),
      again m l osi_task baud priority b fresh,
    )

-- ===== src/Osi/Feed/Delivered.antt =====
-- The receive path of src/osi/osi.c does what the bounded list of Osi.Feed.Log does.
use Prim.Native.Nat.{bit_and}
use mathlib.Core.List.{append-nil}
use tinyrtos.Prelude.{
  ℕ, ◌≡◌, refl, ap, List, [], ◌∷◌, ◌++◌, Option, some, if◌then◌else◌, ◌==◌, ◌%◌, Bool-cases, inl,
  inr,
}
use tinyrtos.Kernel.{Kernel}
use tinyrtos.Queue.{Queue}
use tinyrtos.Bsp.Usart3.{Masks, usart3_irq_handler}
use tinyrtos.Osi.{Action}
use tinyrtos.Osi.Task.{Osi, receive_byte, receive_all}
use tinyrtos.Osi.Feed.{Event, interrupt, round, event_step, run_events}
use tinyrtos.Osi.Feed.Log.{Log, byte_of, enters, one, feed}
use tinyrtos.Osi.Feed.Holds.{HoldsBytes, callback_keeps, round_takes, round_waits}

-- What the events make of a queue that can hold `n` bytes, and of the shell: the queue holds the bytes that are left,
-- and the shell did what it does for the bytes that were taken, one after the other.
pub record Delivered (n : ℕ) (log : Log) (o : Osi) (out : (Option Queue × Osi) × List Action)
    : Type 0 where
  pub queue : Queue
  pub queue_is : out.0.0 ≡ some queue
  pub holds : HoldsBytes n log.left queue
  pub shell : (out.0.1, out.1) ≡ receive_all log.taken o

-- A step in front of events.
module _ (m : Masks) (n : ℕ) (e : Event) (es : List Event) (o : Osi) (q q' : Queue) where
  quiet :
      (log : Log)
      → event_step m e (some q, o) ≡ ((some q', o), [])
      → Delivered n log o (run_events m es (some q', o))
      → Delivered n log o (run_events m (e ∷ es) (some q, o))
  unfolding run_events
  quiet log step d = rw step d

  answers :
      (log : Log) (b : ℕ) (reads : ℕ → Kernel)
      → event_step m e (some q, o)
        ≡ ((some q', (receive_byte reads b o).0), (receive_byte reads b o).1)
      → Delivered n log
          (receive_byte reads b o).0
          (run_events m es (some q', (receive_byte reads b o).0))
      → Delivered n
          (record log { taken = (b, reads) ∷ log.taken })
          o
          (run_events m (e ∷ es) (some q, o))
  unfolding run_events receive_all
  answers log b reads step d = rw step (record {
    queue = d.queue;
    queue_is = d.queue_is;
    holds = record {
      valid = d.holds.valid;
      size = d.holds.size;
      room = d.holds.room;
      items = d.holds.items;
    };
    shell = ap (λ (x : Osi × List Action). (x.0, (receive_byte reads b o).1 ++ x.1)) d.shell;
  })

-- The interrupt, whether it finds a byte or not.
pub interrupt_step :
    (m : Masks) (n : ℕ) (pending : List ℕ) (isr rdr : ℕ) (k : Kernel) (q : Queue) (o : Osi)
    → HoldsBytes n pending q
    → (q' : Queue) × (event_step m (interrupt isr rdr k) (some q, o) ≡ ((some q', o), []))
      × HoldsBytes n
          (pending
            ++ (if enters n pending (byte_of m isr rdr) then one (byte_of m isr rdr) else []))
          q'
unfolding event_step usart3_irq_handler
interrupt_step m n pending isr rdr k q o h = elim (Bool-cases (bit_and isr m.rxne == 0)) [
  | inl nothing ↦ (q, rw nothing refl, rw (nothing, append-nil pending) h)
  | inr byte ↦
      let c = callback_keeps n pending q (rdr % 256) k h in
      (c.0, rw byte (ap (λ (x : Option Queue). ((x, o), [])) c.1), rw byte c.2)
]

pub deliver :
    (m : Masks) (n : ℕ) (es : List Event) (pending : List ℕ) (q : Queue) (o : Osi)
    → HoldsBytes n pending q
    → Delivered n (feed m n es pending) o (run_events m es (some q, o))
unfolding feed run_events receive_all event_step
deliver m n [] pending q o h = record { queue = q; queue_is = refl; holds = h; shell = refl }
deliver m n (interrupt isr rdr k ∷ es) pending q o h =
    let s = interrupt_step m n pending isr rdr k q o h in
    let entered = if enters n pending (byte_of m isr rdr) then one (byte_of m isr rdr) else [] in
    let d = deliver m n es (pending ++ entered) s.0 o s.2 in
    quiet m n (interrupt isr rdr k) es o q s.0 (feed m n (interrupt isr rdr k ∷ es) pending) s.1
      (record { queue = d.queue; queue_is = d.queue_is; holds = d.holds; shell = d.shell })
deliver m n (round c k reads ∷ es) [] q o h =
    let w = round_waits n q c k h in
    quiet m n (round c k reads) es o q w.0 (feed m n es []) (rw (w.1, w.2) refl)
      (deliver m n es [] w.0 o w.3)
deliver m n (round c k reads ∷ es) (b ∷ pending) q o h =
    let t = round_takes n b pending q c k h in
    answers m n (round c k reads) es o q t.1 (feed m n es pending) b reads
      (rw (t.2, t.4)
        (ap (λ b. ((some t.1, (receive_byte reads b o).0), (receive_byte reads b o).1)) t.3))
      (deliver m n es pending t.1 _ t.5)

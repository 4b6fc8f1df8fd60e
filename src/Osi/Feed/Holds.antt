-- ===== src/Osi/Feed/Holds.antt =====
-- The receive queue of src/osi/osi.c as a bounded list of bytes.
use mathlib.Core.List.{append-nil}
use tinyrtos.Prelude.{
  ℕ, suc, ◌≡◌, refl, sym, ap, ap₂, ◌∙◌, List, [], ◌∷◌, ◌++◌, map, length, Option, none, some, Bool,
  get_or, leb, if◌then◌else◌, arith, Bool-cases, inl, inr, subst,
}
use tinyrtos.Kernel.{Kernel}
use tinyrtos.Queue.{Queue, receive_round, Received, refused, received, waits}
use tinyrtos.Queue.Copy.{slice, slice_all}
use tinyrtos.Queue.Valid.{IsValid, contents}
use tinyrtos.Queue.Calls.{send_from_isr_refines}
use tinyrtos.Queue.Receive.{Answer, receive_round_refines}
use tinyrtos.Queue.Fifo.{Item, push, pop}
use tinyrtos.Osi.Init.{rx_callback}
use tinyrtos.Osi.Feed.Log.{enters, one}

-- The items of one byte each.
abbrev pub bytes : List ℕ → List Item
bytes = map (λ (c : ℕ). c ∷ [])

-- A valid queue of at most `n` items of one byte each that holds `pending`.
pub record HoldsBytes (n : ℕ) (pending : List ℕ) (q : Queue) : Type 0 where
  pub valid : IsValid q
  pub size : q.item_size ≡ 1
  pub room : q.capacity ≡ n
  pub items : contents q ≡ bytes pending

length-bytes : (cs : List ℕ) → length (bytes cs) ≡ length cs
length-bytes [] = refl
length-bytes (c ∷ cs) = ap suc (length-bytes cs)

bytes-append : (cs ds : List ℕ) → bytes (cs ++ ds) ≡ bytes cs ++ bytes ds
bytes-append [] ds = refl
bytes-append (c ∷ cs) ds = ap (λ l. (c ∷ []) ∷ l) (bytes-append cs ds)

push_bytes :
    (n : ℕ) (pending : List ℕ) (c : ℕ)
    → (push n (c ∷ []) (bytes pending)).1
      ≡ bytes (pending ++ (if enters n pending (some c) then one (some c) else []))
unfolding push
push_bytes n pending c = elim (Bool-cases (leb n (length pending))) [
  | inl full ↦ rw (length-bytes pending, full, append-nil pending) refl
  | inr fits ↦ rw (length-bytes pending, fits, bytes-append pending (c ∷ [])) refl
]

-- A byte that is sent from the interrupt.
pub callback_keeps :
    (n : ℕ) (pending : List ℕ) (q : Queue) (c : ℕ) (k : Kernel)
    → HoldsBytes n pending q
    → (q' : Queue) × ((rx_callback c (some q, k)).0 ≡ some q')
      × HoldsBytes n (pending ++ (if enters n pending (some c) then one (some c) else [])) q'
unfolding rx_callback
callback_keeps n pending q c k h =
    let s = send_from_isr_refines h.valid (c ∷ []) k in
    let item : slice (c ∷ []) 0 q.item_size ≡ c ∷ [] = slice_all (c ∷ []) q.item_size h.size in
    let pushed : contents s.after ≡ (push n (c ∷ []) (bytes pending)).1 =
      ap (λ (x : Bool × List Item). x.1) s.pushes
      ∙ ap (λ (x : Item). (push q.capacity x (contents q)).1) item
      ∙ ap₂ (λ (r : ℕ) (l : List Item). (push r (c ∷ []) l).1) h.room h.items in
    (
      s.after,
      s.is_after,
      record {
        valid = s.valid;
        size = s.size ∙ h.size;
        room = s.room ∙ h.room;
        items = pushed ∙ push_bytes n pending c;
      },
    )

taken_byte :
    (q after : Queue) (k : Kernel) (b : ℕ) (r : Received)
    → q.item_size ≡ 1
    → Answer q after k r (some (b ∷ []))
    → (item : List ℕ) × (r ≡ received item) × (get_or item 0 0 ≡ b)
taken_byte q after k b (received item) e h =
    let first : slice item 0 1 ≡ b ∷ [] = ap (slice item 0) (sym e) ∙ h.0 in
    (item, refl, ap (λ (l : List ℕ). get_or l 0 0) first)
taken_byte q after k b refused e h = absurd h
taken_byte q after k b waits e h = absurd h

waits_lem : (q after : Queue) (k : Kernel) (r : Received) → Answer q after k r none → r ≡ waits
waits_lem q after k (received item) h = absurd h
waits_lem q after k refused h = absurd h
waits_lem q after k waits h = refl

-- A round of the receive.
pub round_takes :
    (n b : ℕ) (pending : List ℕ) (q : Queue) (c : ℕ) (k : Kernel)
    → HoldsBytes n (b ∷ pending) q
    → let (r, o, k') = receive_round (some q) (some (c ∷ [])) k in
      (item : List ℕ) × (q' : Queue) × (r ≡ received item)
      × (get_or item 0 0 ≡ b)
      × (o ≡ some q')
      × HoldsBytes n pending q'
unfolding pop
round_takes n b pending q c k h =
    let t = receive_round_refines h.valid (c ∷ []) k (omega (arith, h.size)) in
    let popped : pop (contents q) ≡ (some (b ∷ []), bytes pending) = ap pop h.items in
    let answer =
      subst (Answer q t.after k _) (ap (λ (x : Option Item × List Item). x.0) popped) t.answer in
    let byte = taken_byte q t.after k b _ h.size answer in
    (
      byte.0,
      t.after,
      byte.1,
      byte.2,
      t.is_after,
      record {
        valid = t.valid;
        size = t.size ∙ h.size;
        room = t.room ∙ h.room;
        items = t.rest ∙ ap (λ (x : Option Item × List Item). x.1) popped;
      },
    )

pub round_waits :
    (n : ℕ) (q : Queue) (c : ℕ) (k : Kernel)
    → HoldsBytes n [] q
    → let (r, o, k') = receive_round (some q) (some (c ∷ [])) k in
      (q' : Queue) × (r ≡ waits) × (o ≡ some q') × HoldsBytes n [] q'
unfolding pop
round_waits n q c k h =
    let t = receive_round_refines h.valid (c ∷ []) k (omega (arith, h.size)) in
    let popped : pop (contents q) ≡ (none, []) = ap pop h.items in
    let answer =
      subst (Answer q t.after k _) (ap (λ (x : Option Item × List Item). x.0) popped) t.answer in
    (
      t.after,
      waits_lem q t.after k _ answer,
      t.is_after,
      record {
        valid = t.valid;
        size = t.size ∙ h.size;
        room = t.room ∙ h.room;
        items = t.rest ∙ ap (λ (x : Option Item × List Item). x.1) popped;
      },
    )

-- ===== src/Queue/Ring.antt =====
-- The copy and index arithmetic of rtosk_queue_send and rtosk_queue_receive on the items of a queue.
use tinyrtos.Prelude.{
  ℕ, zero, suc, ◌+◌, ◌-◌, ◌*◌, ◌^◌, ◌≤◌, ◌<◌, ◌≡◌, ◌≢◌, refl, sym, ◌∙◌, ap, ap₂, ◌⊎◌, inl, inr,
  List, [], ◌∷◌, ◌++◌, arith, length, dec_lt, mul32, add32,
}
use tinyrtos.Queue.{Queue, advance, put_item, take_item, queue_copy}
use tinyrtos.Queue.Copy.{
  slice, length-queue_copy, slice-queue_copy_inside, slice-queue_copy_outside,
}
use tinyrtos.Queue.Valid.{IsValid, window, contents}

-- A block of `s` bytes among `cap` of them ends before the storage does.
block-le : (h cap s : ℕ) → h < cap → h * s + s ≤ cap * s
block-le h cap s lt = grind arith

block_apart : (h i s : ℕ) → h ≢ i → (i * s + s ≤ h * s) ⊎ (h * s + s ≤ i * s)
block_apart h i s ne = elim (dec_lt h i) [
  | yes lt ↦ inr (block-le h i s lt)
  | no ge ↦ inl (block-le i h s (omega arith))
]

pub length-window : (buffer : List ℕ) (s cap h n : ℕ) → length (window buffer s cap h n) ≡ n
length-window buffer s cap h zero = refl
length-window buffer s cap h (suc n) = ap suc (length-window buffer s cap (advance cap h) n)

-- `window` matches on `suc`, the code tests `count > 0`.
window_pos :
    (buffer : List ℕ) (s cap h n : ℕ)
    → 0 < n
    → window buffer s cap h n ≡ slice buffer (h * s) s ∷ window buffer s cap (advance cap h) (n - 1)
window_pos buffer s cap h zero lt = elim lt [ ]
window_pos buffer s cap h (suc n) lt =
    ap (λ m. slice buffer (h * s) s ∷ window buffer s cap (advance cap h) m) (omega arith)

module _ (buffer item : List ℕ) (s cap : ℕ) (fits : cap * s ≤ length buffer)
    (word : cap < 2 ^ 32) where
  -- Block `i` after an item has been copied into block `h`.
  slice-other :
      (h i : ℕ)
      → h < cap
      → h ≢ i
      → slice (queue_copy buffer (h * s) item 0 s) (i * s) s ≡ slice buffer (i * s) s
  slice-other h i lt ne =
      slice-queue_copy_outside buffer (h * s) item 0 s (omega (arith, block-le h cap s lt)) (i * s)
        s (block_apart h i s ne)

  slice-same :
      (h : ℕ) → h < cap → slice (queue_copy buffer (h * s) item 0 s) (h * s) s ≡ slice item 0 s
  slice-same h lt =
      slice-queue_copy_inside buffer (h * s) item 0 s (omega (arith, block-le h cap s lt))

  -- Copying into the block behind a window appends the item to it.
  pub window-queue_copy :
      (n t h : ℕ)
      → t < cap
      → h < cap
      → n < cap
      → (t + n ≡ h) ⊎ (t + n ≡ h + cap)
      → window (queue_copy buffer (h * s) item 0 s) s cap t (suc n)
        ≡ window buffer s cap t n ++ (slice item 0 s ∷ [])
  window-queue_copy zero t h ht hh hn ring =
      let e : t ≡ h = ground arith in rw e (ap (λ x. x ∷ []) (slice-same h hh))
  window-queue_copy (suc n) t h ht hh hn ring =
      ap₂ ◌∷◌ (slice-other h t hh (ground arith))
        (window-queue_copy n (advance cap t) h (ground arith) hh (omega arith) (ground arith))

module _ {q : Queue} (v : IsValid q) where
  capacity-word : q.capacity < 2 ^ 32
  capacity-word = grind (arith, v.storage, v.addressable, v.some_size)

  mul32-block : (h : ℕ) → h < q.capacity → mul32 h q.item_size ≡ h * q.item_size
  mul32-block h lt =
      omega (arith, block-le h q.capacity q.item_size lt, v.storage, v.addressable, v.some_size)

  -- Sending appends the item and keeps the invariant, if there is room.
  pub contents-put_item :
      (item : List ℕ)
      → q.count < q.capacity
      → contents (put_item q item) ≡ contents q ++ (slice item 0 q.item_size ∷ [])
  unfolding put_item
  contents-put_item item room =
      let e : add32 q.count 1 ≡ suc q.count = omega (arith, v.count_in, capacity-word) in
      rw (mul32-block q.head v.head_in, e)
        (window-queue_copy q.buffer item q.item_size q.capacity v.storage capacity-word q.count
          q.tail q.head v.tail_in v.head_in room v.ring)

  pub put_item-IsValid : (item : List ℕ) → q.count < q.capacity → IsValid (put_item q item)
  unfolding put_item
  put_item-IsValid item room =
      let e = mul32-block q.head v.head_in in
      let fits = block-le q.head q.capacity q.item_size v.head_in in
      let l =
        length-queue_copy q.buffer (mul32 q.head q.item_size) item 0 q.item_size
          (omega (arith, e, fits, v.storage)) in
      let word = capacity-word in
      record {
        some_size = v.some_size;
        some_room = v.some_room;
        storage = omega (arith, l, v.storage);
        addressable = omega (arith, l, v.addressable);
        count_in = omega arith;
        head_in = ground arith;
        tail_in = v.tail_in;
        ring = ground (arith, v.ring);
      }

  -- Receiving copies the oldest item out, leaves the others and keeps the invariant.
  pub contents-take_item :
      (item : List ℕ)
      → 0 < q.count
      → q.item_size ≤ length item
      → contents q ≡ slice (take_item q item).1 0 q.item_size ∷ contents (take_item q item).0
  unfolding take_item
  contents-take_item item some_item room =
      window_pos q.buffer q.item_size q.capacity q.tail q.count some_item
      ∙ rw (mul32-block q.tail v.tail_in) (
          ap
            (λ x.
              x ∷ window q.buffer q.item_size q.capacity (advance q.capacity q.tail) (q.count - 1))
            (sym (
              slice-queue_copy_inside item 0 q.buffer (q.tail * q.item_size) q.item_size
                (omega arith))))

  pub take_item-IsValid : (item : List ℕ) → 0 < q.count → IsValid (take_item q item).0
  unfolding take_item
  take_item-IsValid item some_item =
      let word = capacity-word in
      record {
        some_size = v.some_size;
        some_room = v.some_room;
        storage = v.storage;
        addressable = v.addressable;
        count_in = omega (arith, v.count_in);
        head_in = v.head_in;
        tail_in = ground arith;
        ring = ground (arith, v.ring);
      }

pub item_size-put_item : (q : Queue) (item : List ℕ) → (put_item q item).item_size ≡ q.item_size
unfolding put_item
item_size-put_item q item = refl

pub capacity-put_item : (q : Queue) (item : List ℕ) → (put_item q item).capacity ≡ q.capacity
unfolding put_item
capacity-put_item q item = refl

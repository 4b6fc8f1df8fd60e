-- ===== src/Queue/Valid.antt =====
-- The representation invariant of rtosk_queue_t and the list of items that a queue holds.
use tinyrtos.Prelude.{ℕ, zero, suc, ◌+◌, ◌*◌, ◌^◌, ◌≤◌, ◌<◌, ◌≡◌, ◌⊎◌, List, [], ◌∷◌, length}
use tinyrtos.Queue.{Queue, advance}
use tinyrtos.Queue.Copy.{slice}

pub record IsValid (q : Queue) : Type 0 where
  pub some_size : 0 < q.item_size
  pub some_room : 0 < q.capacity
  pub storage : q.capacity * q.item_size ≤ length q.buffer
  pub addressable : length q.buffer < 2 ^ 32
  pub count_in : q.count ≤ q.capacity
  pub head_in : q.head < q.capacity
  pub tail_in : q.tail < q.capacity
  pub ring : (q.tail + q.count ≡ q.head) ⊎ (q.tail + q.count ≡ q.head + q.capacity)

-- The `n` items from block `h` on, going round at `capacity`.
abbrev pub window : List ℕ → (item_size capacity h n : ℕ) → List (List ℕ)
window buffer item_size capacity h zero = []
window buffer item_size capacity h (suc n) =
    slice buffer (h * item_size) item_size ∷ window buffer item_size capacity (advance capacity h) n

-- The items of a queue, the oldest first.
abbrev pub contents : Queue → List (List ℕ)
contents q = window q.buffer q.item_size q.capacity q.tail q.count

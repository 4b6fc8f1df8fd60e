-- ===== src/Queue/Fifo.antt =====
-- The abstract queue: a bounded first-in first-out list of items.
use tinyrtos.Prelude.{
  ℕ, List, [], ◌∷◌, ◌++◌, Option, none, some, Bool, true, false, length, leb, if◌then◌else◌,
}

abbrev pub Item : Type 0
Item = List ℕ

-- At most `capacity` items; the result says whether the item was taken.
unfoldable pub push : (capacity : ℕ) → Item → List Item → Bool × List Item
push capacity x items =
    if leb capacity (length items) then (false, items) else (true, items ++ (x ∷ []))

unfoldable pub pop : List Item → Option Item × List Item
pop [] = (none, [])
pop (x ∷ items) = (some x, items)

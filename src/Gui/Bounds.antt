-- ===== src/Gui/Bounds.antt =====
-- The writes of gui_protocol_feed, examples/gui/renderer/src/parser.c, into its `payload` array.
use tinyrtos.Prelude.{ℕ, ◌≤◌, ◌<◌, ◌≡◌, refl, List, [], ◌∷◌, length, length-set, arith}
use tinyrtos.Gui.Parser.{
  Rx, RxState, rx_sof0, rx_sof1, rx_cmd, rx_len0, rx_len1, rx_payload, rx_checksum, gui_max_payload,
  feed_in, feed, feed_all,
}

-- Inside a payload the next write is within the array, and the payload does not outgrow it.
pub record IsValid (r : Rx) : Type 0 where
  pub room : length r.payload ≡ gui_max_payload
  pub in_range : r.state ≡ rx_payload → (r.index < r.len) × (r.len ≤ gui_max_payload)

feed_in-IsValid :
    (s : RxState) (byte : ℕ) (r : Rx) → r.state ≡ s → IsValid r → IsValid (feed_in s byte r).0
unfolding feed_in
feed_in-IsValid rx_sof0 byte r e v = ground (arith, v.in_range)
feed_in-IsValid rx_sof1 byte r e v = ground arith
feed_in-IsValid rx_cmd byte r e v = ground arith
feed_in-IsValid rx_len0 byte r e v = ground arith
feed_in-IsValid rx_len1 byte r e v = ground arith
feed_in-IsValid rx_payload byte r e v =
    ground (arith, v.in_range e, length-set r.payload r.index byte)
feed_in-IsValid rx_checksum byte r e v = ground arith

feed-IsValid : (byte : ℕ) (r : Rx) → IsValid r → IsValid (feed byte r).0
unfolding feed
feed-IsValid byte r v = feed_in-IsValid r.state byte r refl v

-- Whatever bytes come, from reset on, the parser writes its payload within its 32 bytes.
pub feed_all-IsValid : (bs : List ℕ) (r : Rx) → IsValid r → IsValid (feed_all bs r).0
unfolding feed_all
feed_all-IsValid [] r v = v
feed_all-IsValid (b ∷ bs) r v = feed_all-IsValid bs (feed b r).0 (feed-IsValid b r v)

-- ===== src/Gui/Primitives.antt =====
-- The encoder on the board, examples/gui/src/primitives.c. `packet` on the stack is not initialised:
-- what it holds at first is the argument `garbage`. `gui_write` is a function pointer; here it is
-- whether one is registered, and a call's result is the bytes that it is handed, if any.
use Prim.Native.Nat.{bit_xor}
use tinyrtos.Prelude.{
  ℕ, ◌+◌, ◌%◌, List, [], ◌∷◌, Option, none, some, Bool, get_or, set, take, for_range, if◌then◌else◌,
}
use tinyrtos.Gui.{gui_sof0, gui_sof1, gui_cmd_clear, gui_cmd_pixel, gui_cmd_line, gui_cmd_present}

-- `checksum(&buf[start], len)`
unfoldable pub checksum : (buf : List ℕ) (start len : ℕ) → ℕ
checksum buf start len = for_range len 0 (λ i c. bit_xor c (get_or buf (start + i) 0)) 0

-- `packet` and `n`
pub record Packet : Type 0 where
  pub bytes : List ℕ
  pub n : ℕ

-- `packet[n++] = byte`, with `n` a uint8_t.
unfoldable pub push : ℕ → Packet → Packet
push byte p = record { bytes = set p.bytes p.n byte; n = (p.n + 1) % 256 }

unfoldable pub header : (garbage : List ℕ) (cmd len : ℕ) → Packet
unfolding push
header garbage cmd len =
    push len (push cmd (push gui_sof1 (push gui_sof0 (record { bytes = garbage; n = 0 }))))

unfoldable pub with_payload : (payload : List ℕ) (len : ℕ) → Packet → Packet
with_payload payload len p = for_range len 0 (λ i q. push (get_or payload i 0) q) p

unfoldable pub send_cmd :
    (gui_write : Bool) (garbage : List ℕ) (cmd : ℕ) (payload : List ℕ) (len : ℕ) → Option (List ℕ)
unfolding push checksum header with_payload
send_cmd gui_write garbage cmd payload len =
    let filled = with_payload payload len (header garbage cmd len) in
    let packet = push (checksum filled.bytes 2 (2 + len)) filled in
    if gui_write then some (take packet.n packet.bytes) else none

module _ (gui_write : Bool) (garbage : List ℕ) where
  unfoldable pub gui_clear : ℕ → Option (List ℕ)
  gui_clear color = send_cmd gui_write garbage gui_cmd_clear (color ∷ []) 1

  unfoldable pub gui_draw_pixel : (x y color : ℕ) → Option (List ℕ)
  gui_draw_pixel x y color = send_cmd gui_write garbage gui_cmd_pixel (x ∷ y ∷ color ∷ []) 3

  unfoldable pub gui_draw_line : (x0 y0 x1 y1 color : ℕ) → Option (List ℕ)
  gui_draw_line x0 y0 x1 y1 color =
      send_cmd gui_write garbage gui_cmd_line (x0 ∷ y0 ∷ x1 ∷ y1 ∷ color ∷ []) 5

  unfoldable pub gui_present : Option (List ℕ)
  gui_present = send_cmd gui_write garbage gui_cmd_present [] 0

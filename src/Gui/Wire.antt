-- ===== src/Gui/Wire.antt =====
-- The board's drawing calls (examples/gui/src/primitives.c) and the renderer's calls that they lead to
-- (examples/gui/renderer/src/parser.c), over a line that loses no byte.
use tinyrtos.Prelude.{
  ℕ, ◌+◌, ◌≤◌, ◌<◌, ◌≡◌, refl, sym, ap, ◌∙◌, List, [], ◌∷◌, ◌++◌, Option, none, some, true, map,
  get_or, length, store, length-store, get_or-store, arith,
}
use tinyrtos.Gui.{gui_cmd_clear, gui_cmd_pixel, gui_cmd_line, gui_cmd_present}
use tinyrtos.Gui.Primitives.{gui_clear, gui_draw_pixel, gui_draw_line, gui_present}
use tinyrtos.Gui.Parser.{
  Rx, rx_sof0, Draw, clear_color, draw_pixel, draw_line, present, exec_cmd, feed_all,
}
use tinyrtos.Gui.Encoded.{frame, send_cmd-frame}
use tinyrtos.Gui.Received.{filled, ended, feed_all-append, frame_received}

-- A call of one of the functions of primitives.c.
pub data Call : Type 0 where
  clears : (color : ℕ) → Call
  draws_pixel : (x y color : ℕ) → Call
  draws_line : (x0 y0 x1 y1 color : ℕ) → Call
  presents : Call

-- What the call hands to `gui_write`, once one is registered.
unfoldable pub sent : List ℕ → Call → Option (List ℕ)
unfolding gui_clear gui_draw_pixel gui_draw_line gui_present
sent garbage (clears color) = gui_clear true garbage color
sent garbage (draws_pixel x y color) = gui_draw_pixel true garbage x y color
sent garbage (draws_line x0 y0 x1 y1 color) = gui_draw_line true garbage x0 y0 x1 y1 color
sent garbage presents = gui_present true garbage

-- The call of the renderer that it is meant to lead to.
abbrev pub drawn : Call → Draw
drawn (clears color) = clear_color color
drawn (draws_pixel x y color) = draw_pixel x y color
drawn (draws_line x0 y0 x1 y1 color) = draw_line x0 y0 x1 y1 color
drawn presents = present

abbrev pub bytes_of : Option (List ℕ) → List ℕ
bytes_of none = []
bytes_of (some bs) = bs

-- The bytes on the line after some calls, each with what its `packet` held before.
unfoldable pub transmitted : List (List ℕ × Call) → List ℕ
transmitted [] = []
transmitted ((garbage, c) ∷ calls) = bytes_of (sent garbage c) ++ transmitted calls

abbrev pub call_of : List ℕ × Call → Call
call_of (garbage, c) = c

-- `packet` has 32 bytes.
abbrev pub EachHasRoom : List (List ℕ × Call) → Type 0
EachHasRoom [] = Unit {0}
EachHasRoom ((garbage, c) ∷ calls) = (length garbage ≡ 32) × EachHasRoom calls

-- The parser between two frames.
pub record IsReady (r : Rx) : Type 0 where
  pub connected : r.renderer ≡ true
  pub between : r.state ≡ rx_sof0
  pub room : length r.payload ≡ 32

-- The command byte and the payload of a call.
abbrev command : Call → ℕ
command (clears color) = gui_cmd_clear
command (draws_pixel x y color) = gui_cmd_pixel
command (draws_line x0 y0 x1 y1 color) = gui_cmd_line
command presents = gui_cmd_present

abbrev arguments : Call → List ℕ
arguments (clears color) = color ∷ []
arguments (draws_pixel x y color) = x ∷ y ∷ color ∷ []
arguments (draws_line x0 y0 x1 y1 color) = x0 ∷ y0 ∷ x1 ∷ y1 ∷ color ∷ []
arguments presents = []

arguments-le : (c : Call) → length (arguments c) ≤ 5
arguments-le (clears color) = omega arith
arguments-le (draws_pixel x y color) = omega arith
arguments-le (draws_line x0 y0 x1 y1 color) = omega arith
arguments-le presents = omega arith

sent-frame :
    (garbage : List ℕ) (c : Call)
    → length garbage ≡ 32
    → sent garbage c ≡ some (frame (command c) (arguments c))
unfolding sent
sent-frame garbage (clears color) h = send_cmd-frame garbage _ _ h (omega arith)
sent-frame garbage (draws_pixel x y color) h = send_cmd-frame garbage _ _ h (omega arith)
sent-frame garbage (draws_line x0 y0 x1 y1 color) h = send_cmd-frame garbage _ _ h (omega arith)
sent-frame garbage presents h = send_cmd-frame garbage _ _ h (omega arith)

-- Byte `k` of the payload.
stored :
    (r : Rx) (bs : List ℕ) (k : ℕ)
    → IsReady r
    → length bs ≤ 5
    → k < length bs
    → get_or (store r.payload 0 bs) k 0 ≡ get_or bs k 0
stored r bs k v h lt =
    let e : 0 + k ≡ k = omega arith in
    ap (λ (j : ℕ). get_or (store r.payload 0 bs) j 0) (sym e)
    ∙ get_or-store r.payload 0 bs k 0 (omega (arith, v.room)) lt

exec_cmd-filled :
    (r : Rx) (c : Call) → IsReady r → exec_cmd (filled r (command c) (arguments c)) ≡ drawn c ∷ []
unfolding exec_cmd
exec_cmd-filled r (clears color) v =
    let byte = λ (k : ℕ). λ (h : k < 1). stored r (color ∷ []) k v (omega arith) h in
    rw (v.connected, byte 0 (omega arith))
exec_cmd-filled r (draws_pixel x y color) v =
    let byte = λ (k : ℕ). λ (h : k < 3). stored r (x ∷ y ∷ color ∷ []) k v (omega arith) h in
    rw (v.connected, byte 0 (omega arith), byte 1 (omega arith), byte 2 (omega arith))
exec_cmd-filled r (draws_line x0 y0 x1 y1 color) v =
    let bs = x0 ∷ y0 ∷ x1 ∷ y1 ∷ color ∷ [] in
    let byte = λ (k : ℕ). λ (h : k < 5). stored r bs k v (omega arith) h in
    rw (
      v.connected,
      byte 0 (omega arith),
      byte 1 (omega arith),
      byte 2 (omega arith),
      byte 3 (omega arith),
      byte 4 (omega arith),
    )
exec_cmd-filled r presents v = rw v.connected

ended-IsReady : (r : Rx) (c : Call) → IsReady r → IsReady (ended r (command c) (arguments c))
ended-IsReady r c v = record {
  connected = v.connected;
  between = refl;
  room = length-store r.payload 0 (arguments c) ∙ v.room;
}

-- One call, followed by any bytes.
sent_received :
    (r : Rx) (garbage : List ℕ) (c : Call) (rest : List ℕ)
    → IsReady r
    → length garbage ≡ 32
    → (r' : Rx) × IsReady r'
      × (feed_all (bytes_of (sent garbage c) ++ rest) r
          ≡ ((feed_all rest r').0, drawn c ∷ (feed_all rest r').1))
sent_received r garbage c rest v g = (
  ended r (command c) (arguments c),
  ended-IsReady r c v,
  rw (sent-frame garbage c g) (
      feed_all-append (frame (command c) (arguments c)) rest r
      ∙ rw (
        frame_received r (command c) (arguments c) v.between (omega (arith, arguments-le c)),
        exec_cmd-filled r c v,
      )),
)

-- The renderer makes just the calls that the board made, with their arguments and in their order, and
-- its parser is then between two frames: if it was so at the start, with the renderer set, and
-- if `packet` has its 32 bytes in every call.
pub wire_roundtrip :
    (calls : List (List ℕ × Call)) (r : Rx)
    → IsReady r
    → EachHasRoom calls
    → ((feed_all (transmitted calls) r).1 ≡ map (λ c. drawn (call_of c)) calls)
      × IsReady (feed_all (transmitted calls) r).0
unfolding transmitted feed_all
wire_roundtrip [] r v h = (refl, v)
wire_roundtrip ((garbage, c) ∷ calls) r v h =
    let s = sent_received r garbage c (transmitted calls) v h.0 in
    let ih = wire_roundtrip calls s.0 s.1 h.1 in
    (ap (λ (p : Rx × List Draw). p.1) s.2 ∙ ap (λ (l : List Draw). drawn c ∷ l) ih.0, rw s.2 ih.1)

-- ===== src/Gui/Parser.antt =====
-- The parser of the renderer, examples/gui/renderer/src/parser.c. Its statics are the record Rx; a
-- call's second result is the calls of the renderer that it makes.
use Prim.Native.Nat.{bit_xor}
use tinyrtos.Prelude.{
  ℕ, ◌+◌, ◌%◌, List, [], ◌∷◌, ◌++◌, Bool, false, not, get_or, set, replicate, ltb, leb, ◌==◌,
  if◌then◌else◌,
}
use tinyrtos.Gui.{gui_sof0, gui_sof1, gui_cmd_clear, gui_cmd_pixel, gui_cmd_line, gui_cmd_present}

-- GUI_MAX_PAYLOAD
abbrev pub gui_max_payload : ℕ
gui_max_payload = 32

-- rx_state_t
pub data RxState : Type 0 where
  rx_sof0 rx_sof1 rx_cmd rx_len0 rx_len1 rx_payload rx_checksum : RxState

-- The statics of parser.c; `renderer` is whether GUI_RENDERER is set.
pub record Rx : Type 0 where
  pub renderer : Bool
  pub state : RxState
  pub cmd : ℕ
  pub len : ℕ
  pub index : ℕ
  pub checksum : ℕ
  pub payload : List ℕ

abbrev pub reset_rx : Rx
reset_rx = record {
  renderer = false;
  state = rx_sof0;
  cmd = 0;
  len = 0;
  index = 0;
  checksum = 0;
  payload = replicate gui_max_payload 0;
}

-- A call of gui_renderer_clear_color, _draw_pixel, _draw_line or _present.
pub data Draw : Type 0 where
  clear_color : ℕ → Draw
  draw_pixel : (x y color : ℕ) → Draw
  draw_line : (x0 y0 x1 y1 color : ℕ) → Draw
  present : Draw

unfoldable pub set_renderer : Bool → Rx → Rx
set_renderer gui r = record r { renderer = gui }

-- `payload[i]`
abbrev pub at : List ℕ → ℕ → ℕ
at payload i = get_or payload i 0

-- The `switch` of exec_cmd.
unfoldable pub draws : (cmd len : ℕ) → List ℕ → List Draw
draws cmd len p =
    if cmd == gui_cmd_clear
    then (if len == 1 then clear_color (at p 0) ∷ [] else [])
    else if cmd == gui_cmd_pixel
    then (if len == 3 then draw_pixel (at p 0) (at p 1) (at p 2) ∷ [] else [])
    else if cmd == gui_cmd_line
    then (if len == 5 then draw_line (at p 0) (at p 1) (at p 2) (at p 3) (at p 4) ∷ [] else [])
    else if cmd == gui_cmd_present
    then (if len == 0 then present ∷ [] else [])
    else []

unfoldable pub exec_cmd : Rx → List Draw
unfolding draws
exec_cmd r = if not r.renderer then [] else draws r.cmd r.len r.payload

-- The cases of gui_protocol_feed.
unfoldable pub feed_in : RxState → ℕ → Rx → Rx × List Draw
unfolding exec_cmd
feed_in rx_sof0 byte r = (if byte == gui_sof0 then record r { state = rx_sof1 } else r, [])
feed_in rx_sof1 byte r = (record r { state = if byte == gui_sof1 then rx_cmd else rx_sof0 }, [])
feed_in rx_cmd byte r = (record r { cmd = byte; checksum = byte; state = rx_len0 }, [])
feed_in rx_len0 byte r =
    let counted = record r { len = byte; checksum = bit_xor r.checksum byte } in
    (
      if ltb gui_max_payload byte
          then record counted { state = rx_sof0 }
          else record counted { index = 0; state = if byte == 0 then rx_checksum else rx_payload },
      [],
    )
feed_in rx_len1 byte r = (record r { state = rx_sof0 }, [])
feed_in rx_payload byte r =
    let index = (r.index + 1) % 256 in
    (
      record r {
        payload = set r.payload r.index byte;
        index = index;
        checksum = bit_xor r.checksum byte;
        state = if leb r.len index then rx_checksum else rx_payload;
      },
      [],
    )
feed_in rx_checksum byte r =
    (record r { state = rx_sof0 }, if byte == r.checksum then exec_cmd r else [])

unfoldable pub feed : ℕ → Rx → Rx × List Draw
unfolding feed_in
feed byte r = feed_in r.state byte r

-- The bytes that the loop of the renderer's main reads, each fed to the parser in its order.
unfoldable pub feed_all : List ℕ → Rx → Rx × List Draw
unfolding feed
feed_all [] r = (r, [])
feed_all (b ∷ bs) r =
    let fed = feed b r in let rest = feed_all bs fed.0 in (rest.0, fed.1 ++ rest.1)

-- ===== src/Gui.antt =====
-- The GUI example: the wire format that examples/gui/common.h fixes between the board, which sends
-- drawing commands (examples/gui/src), and the renderer on the host (examples/gui/renderer/src).
pub mod Primitives
pub mod Parser
pub mod Encoded
pub mod Received
pub mod Wire
pub mod Noise
pub mod Bounds
pub mod Scene
pub mod Renderer
pub mod Dispatcher
pub mod Serial
pub mod Host
use tinyrtos.Prelude.{ℕ}

-- TINYRTOS_GUI_SOF0, TINYRTOS_GUI_SOF1
abbrev pub gui_sof0 : ℕ
gui_sof0 = 0xA5

abbrev pub gui_sof1 : ℕ
gui_sof1 = 0x5A

-- TINYRTOS_GUI_CMD_CLEAR, _PIXEL, _LINE, _PRESENT
abbrev pub gui_cmd_clear : ℕ
gui_cmd_clear = 0x01

abbrev pub gui_cmd_pixel : ℕ
gui_cmd_pixel = 0x02

abbrev pub gui_cmd_line : ℕ
gui_cmd_line = 0x03

abbrev pub gui_cmd_present : ℕ
gui_cmd_present = 0x04

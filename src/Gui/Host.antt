-- ===== src/Gui/Host.antt =====
-- The program on the host, examples/gui/renderer/src/main.c: the serial port, the parser and the window together.
pub mod Stream
pub mod Drawn
pub mod Ends
use tinyrtos.Prelude.{
  ℕ, zero, suc, List, [], ◌∷◌, ◌++◌, Option, none, some, Bool, true, false, ℤ, pos, eq_ℤ, get_or,
  ◌&&◌,
}
use tinyrtos.Gui.Serial.{SpCall, SerialPorts, GuiSerial, serial_read, serial_open_auto}
use tinyrtos.Gui.Parser.{Rx, Draw, feed, set_renderer}
use tinyrtos.Gui.Scene.{framebuffer_width, framebuffer_height}
use tinyrtos.Gui.Renderer.Life.{
  Sdl, WindowCall, GuiWindow, renderer_init, renderer_destroy, poll_quit, poll_calls,
}
use tinyrtos.Gui.Renderer.Perform.{perform}

-- TINYRTOS_RENDER_SCALE
abbrev pub render_scale : ℕ
render_scale = 4

-- `serial`, the calls of libserialport so far, the latest first, and the statics of the parser.
pub record Host : Type 0 where
  pub serial : GuiSerial
  pub calls : List SpCall
  pub rx : Rx

-- A function of serial.c never takes the object away.
abbrev pub object : GuiSerial → Option GuiSerial → GuiSerial
object s none = s
object s (some s') = s'

-- What the inner loop does with the answer of gui_serial_read; `again` is its next round.
abbrev pub take_answer :
    Host
    → (again : Host → Bool × Host × List Draw)
    → Option (ℤ × List ℕ) × Option GuiSerial × List SpCall
    → Bool × Host × List Draw
take_answer h again (none, s', calls') =
    (false, record h { serial = object h.serial s'; calls = calls' }, [])
take_answer h again (some a, s', calls') = elim (eq_ℤ a.0 (pos 1)) [
  | false ↦ (true, record h { serial = object h.serial s'; calls = calls' }, [])
  | true ↦
      let fed = feed (get_or a.1 0 0) h.rx in
      let (ended, last, drawing) =
        again (record { serial = object h.serial s'; calls = calls'; rx = fed.0 }) in
      (ended, last, fed.1 ++ drawing)
]

-- The inner loop of `main` on fuel, and gui_serial_read on fuel `waiting`: whether the loop has ended, and the drawing
-- calls that it made. What `rx` holds before a read is 0 here.
unfoldable pub read_bytes : (fuel waiting : ℕ) → SerialPorts → Host → Bool × Host × List Draw
unfolding serial_read feed
read_bytes zero waiting lib h = (false, h, [])
read_bytes (suc fuel) waiting lib h =
    take_answer h (read_bytes fuel waiting lib)
      (serial_read waiting lib (some h.serial) (some (0 ∷ [])) 1 h.calls)

-- The outer loop of `main`, on the events that each gui_renderer_poll_quit finds; whether it has ended, and the calls of
-- SDL. A line whose loop has not ended keeps the outer loop.
unfoldable pub draw_until_quit :
    (fuel waiting sdl_quit : ℕ)
    → SerialPorts
    → GuiWindow
    → (polls : List (List ℕ)) → Host
    → Bool × Host × List WindowCall
unfolding read_bytes poll_quit poll_calls perform
draw_until_quit fuel waiting sdl_quit lib gui [] h = (false, h, [])
draw_until_quit fuel waiting sdl_quit lib gui (events ∷ polls) h =
    let polled = poll_calls sdl_quit events in
    elim (poll_quit sdl_quit events) [
      | true ↦ (true, h, polled)
      | false ↦
          let (ended, h', now) = read_bytes fuel waiting lib h in
          let (drawn, calls) = perform gui.sizes gui.renderer now in
          elim (ended && drawn) [
            | false ↦ (false, h', polled ++ calls)
            | true ↦
                let (done, last, rest) = draw_until_quit fuel waiting sdl_quit lib gui polls h' in
                (done, last, polled ++ (calls ++ rest))
          ]
    ]

-- How `main` ends, or that it still runs.
pub data Exit : Type 0 where
  running : Exit
  exits : (status : ℕ) → Exit

-- The end of `main`, after its loop.
abbrev pub close_window :
    List WindowCall → Option GuiWindow → Bool × Host × List WindowCall → Exit × List WindowCall
close_window made window (false, h, calls) = (running, made ++ calls)
close_window made window (true, h, calls) = (exits 0, made ++ (calls ++ renderer_destroy window))

-- A function of renderer.c never takes the object away.
abbrev pub window_object : GuiWindow → Option GuiWindow → GuiWindow
window_object gui none = gui
window_object gui (some gui') = gui'

-- `main` after gui_renderer_init; `loop` is what its loop does with the window.
abbrev pub with_window :
    (gui : GuiWindow) (loop : GuiWindow → Bool × Host × List WindowCall)
    → Bool × Option GuiWindow × List WindowCall
    → Exit × List WindowCall
with_window gui loop (false, window, made) = (exits 1, made)
with_window gui loop (true, window, made) =
    close_window made window (loop (window_object gui window))

-- `main`, with the calls of SDL in their order. `serial`, `gui` and `rx` are what they are before; SDL_QUIT is
-- `sdl_quit`.
unfoldable pub host_main :
    (fuel waiting sdl_quit : ℕ)
    → SerialPorts
    → Sdl
    → (polls : List (List ℕ)) → GuiSerial
    → GuiWindow
    → Rx
    → Exit × List WindowCall
unfolding serial_open_auto renderer_init set_renderer draw_until_quit renderer_destroy
host_main fuel waiting sdl_quit lib sdl polls serial gui rx =
    let (there, s', calls) = serial_open_auto lib 921_600 (some serial) [] in
    let h : Host = record { serial = object serial s'; calls = calls; rx = set_renderer true rx } in
    elim there [
      | false ↦ (exits 1, [])
      | true ↦
          with_window gui (λ window. draw_until_quit fuel waiting sdl_quit lib window polls h)
            (renderer_init sdl (some gui) framebuffer_width framebuffer_height render_scale)
    ]

-- ===== src/Tests/HostRuns.antt =====
-- The program on the host, with a line that brings the frame of angle 200, and with a short line.
use tinyrtos.Prelude.{
  ℕ, suc, ◌+◌, ◌≡◌, refl, arith, List, [], ◌∷◌, map, length, none, some, true, pos, codes,
}
use tinyrtos.Gui.Parser.{reset_rx, set_renderer, feed}
use tinyrtos.Gui.Wire.{IsReady, drawn}
use tinyrtos.Gui.Scene.{scene_render}
use tinyrtos.Gui.Scene.InFrame.{AreInFrame}
use tinyrtos.Gui.Serial.{
  SerialPorts, serial_open_auto, open_auto, open_first, port_name_matches, serial_read, read_until,
  read_once, port_is_healthy, port_still_exists,
}
use tinyrtos.Gui.Renderer.{presents}
use tinyrtos.Gui.Renderer as Renderer
use tinyrtos.Gui.Renderer.Perform.{sdl_calls, perform}
use tinyrtos.Gui.Renderer.Life.{
  Sdl, GuiWindow, inits_video, creates_window, creates_renderer, destroys_renderer, destroys_window,
  quits, polls_event, draws_on, renderer_init, renderer_destroy, poll_quit, poll_calls,
}
use tinyrtos.Gui.Dispatcher.{dispatcher_round}
use tinyrtos.Gui.Dispatcher.Line.{written, dispatched}
use tinyrtos.Gui.Host.{Host, exits, read_bytes, draw_until_quit, host_main}
use tinyrtos.Gui.Host.Stream.{Brings, open_serial, read_count, next_byte, unread}
use tinyrtos.Gui.Host.Drawn.{round_is_drawn}
use tinyrtos.Gui.Host.Ends.{IsOrderly, host_main-IsOrderly}
use tinyrtos.Tests.SceneRuns.{connected, frame_at_200, gui_board, same_frame, has_room}
use tinyrtos.Tests.SerialRuns.{target, unset_serial}

-- The target is there, and its copy is port 7.
abbrev line_of : List ℕ → SerialPorts
line_of bytes = record {
  list_ports = λ calls. some (target ∷ []);
  copy_port = λ calls p. some (p + 5);
  open_port = λ calls p. true;
  set_baudrate = λ calls p baud. true;
  set_bits = λ calls p bits. true;
  set_no_parity = λ calls p. true;
  set_stopbits = λ calls p bits. true;
  set_no_flowcontrol = λ calls p. true;
  get_signals = λ calls p. true;
  nonblocking_read = λ calls p len. next_byte (unread (read_count calls) bytes);
  blocking_write = λ calls p bytes. pos 1;
}

abbrev name : List ℕ
name = codes "dev/ttyACM0"

line-Brings : (bytes : List ℕ) → Brings bytes 7 (b'/' ∷ name) (line_of bytes)
line-Brings bytes = record {
  byte_read = λ calls. refl;
  listed = λ calls. (target ∷ [], refl, refl);
  in_order = λ calls. refl;
}

abbrev bytes_of_round : List ℕ
bytes_of_round = written (dispatched frame_at_200)

abbrev waiting_host : Host
waiting_host = record { serial = open_serial 7 921_600 (b'/' ∷ name); calls = []; rx = connected }

round_is_drawn_example :
    ((read_bytes (suc (length bytes_of_round)) 1 (line_of bytes_of_round) waiting_host).0 ≡ true)
    × ((read_bytes (suc (length bytes_of_round)) 1 (line_of bytes_of_round) waiting_host).2
        ≡ map drawn (dispatcher_round gui_board).0)
    × AreInFrame
        (read_bytes (suc (length bytes_of_round)) 1 (line_of bytes_of_round) waiting_host).2
    × IsReady
        (read_bytes (suc (length bytes_of_round)) 1 (line_of bytes_of_round) waiting_host).1.rx
round_is_drawn_example =
    round_is_drawn gui_board frame_at_200 (line_of bytes_of_round) 7 921_600 b'/' name [] connected
      (suc (length bytes_of_round)) 0 (omega arith) same_frame (has_room (scene_render 200).0)
      (record { connected = refl; between = refl; room = refl }) (line-Brings bytes_of_round) refl
      (omega arith)

-- A present, and the end of the program at the second poll.
abbrev short_line : List ℕ
short_line = 0xA5 ∷ 0x5A ∷ 4 ∷ 0 ∷ 4 ∷ []

abbrev sdl : Sdl
sdl = record { video = true; new_window = some 11; new_renderer = some 12 }

abbrev no_window : GuiWindow
no_window = record {
  sizes = record { width = 0; height = 0; scale = 0 };
  window = none;
  renderer = none;
}

host_main_run :
    host_main 9 1 256
      (line_of short_line)
      sdl
      ([] ∷ (1 ∷ 256 ∷ []) ∷ [])
      unset_serial
      no_window
      reset_rx
    ≡ (
      exits 0,
      inits_video true
          ∷ creates_window (pos 1020) (pos 572) (some 11)
          ∷ creates_renderer 11 (some 12)
          ∷ polls_event none
          ∷ draws_on (some 12) presents
          ∷ polls_event (some 1)
          ∷ polls_event (some 256)
          ∷ destroys_renderer 12
          ∷ destroys_window 11
          ∷ quits
          ∷ [],
    )
unfolding host_main serial_open_auto open_auto open_first port_name_matches renderer_init
    set_renderer draw_until_quit poll_quit read_bytes serial_read read_until read_once
    port_is_healthy port_still_exists feed renderer_destroy poll_calls perform sdl_calls
    Renderer.present
host_main_run = refl

host_main-IsOrderly_example : IsOrderly (
    host_main 9 1 256
      (line_of short_line)
      sdl
      ([] ∷ (1 ∷ 256 ∷ []) ∷ [])
      unset_serial
      no_window
      reset_rx)
host_main-IsOrderly_example =
    host_main-IsOrderly 9 1 256 (line_of short_line) sdl ([] ∷ (1 ∷ 256 ∷ []) ∷ []) unset_serial
      no_window reset_rx

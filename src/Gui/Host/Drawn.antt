-- ===== src/Gui/Host/Drawn.antt =====
-- From the board to the window: a round of the dispatcher, the line, gui_serial_read, and the parser of the host, in
-- examples/gui/src/dispatcher.c and examples/gui/renderer/src/main.c.
use tinyrtos.Prelude.{ℕ, suc, ◌<◌, ◌≡◌, refl, sym, subst, ◌∙◌, List, ◌∷◌, map, length, true}
use tinyrtos.Gui.Serial.{SpCall, SerialPorts}
use tinyrtos.Gui.Parser.{Rx}
use tinyrtos.Gui.Wire.{Call, call_of, drawn, EachHasRoom, IsReady}
use tinyrtos.Gui.Scene.InFrame.{AreInFrame}
use tinyrtos.Gui.Dispatcher.{GuiBoard, dispatcher_round}
use tinyrtos.Gui.Dispatcher.Line.{written, dispatched, dispatcher_round_arrives}
use tinyrtos.Gui.Host.{Host, read_bytes}
use tinyrtos.Gui.Host.Stream.{Brings, open_serial, read_count, read_bytes_from}

-- A round of the dispatcher, at an angle below 256, is drawn on the host: if the line brings its bytes and then no more
-- to an open port that stays listed under its name, if nothing has been read from it before and the parser is between
-- two frames, then the inner loop of the host's `main` ends, on more fuel than there are bytes, after just the drawing
-- calls of the round, in their order and with every point inside the framebuffer, and the parser is between two frames
-- again. `packet` may hold any 32 bytes before each call.
pub round_is_drawn :
    (b : GuiBoard) (calls : List (List ℕ × Call)) (lib : SerialPorts) (p baud c : ℕ) (name : List ℕ)
    (past : List SpCall) (r : Rx) (fuel waiting : ℕ)
    → b.dispatcher.angle < 256
    → map call_of calls ≡ (dispatcher_round b).0
    → EachHasRoom calls
    → IsReady r
    → Brings (written (dispatched calls)) p (c ∷ name) lib
    → read_count past ≡ 0
    → length (written (dispatched calls)) < fuel
    → let h : Host = record { serial = open_serial p baud (c ∷ name); calls = past; rx = r } in
      let out = read_bytes fuel (suc waiting) lib h in
      (out.0 ≡ true)
      × (out.2 ≡ map drawn (dispatcher_round b).0)
      × AreInFrame out.2
      × IsReady out.1.rx
round_is_drawn b calls lib p baud c name past r fuel waiting l e room ready line unread_yet enough =
    let bytes = written (dispatched calls) in
    let fed = read_bytes_from baud line bytes fuel waiting past r (rw unread_yet refl) enough in
    let (disciplined, draws_are, inside, between, next) =
      dispatcher_round_arrives b calls r l e room ready in
    (
      fed.ended,
      fed.drawing_is ∙ draws_are,
      subst AreInFrame (sym fed.drawing_is) inside,
      subst IsReady (sym fed.rx_is) between,
    )

-- ===== src/Tests/SceneRuns.antt =====
-- The cube at angle 200.
use tinyrtos.Prelude.{ℕ, ◌≡◌, refl, ap, List, [], ◌∷◌, map, ◌<◌, none, true, replicate, pos, arith}
use tinyrtos.Gui.Parser.{Rx, reset_rx, feed_all}
use tinyrtos.Gui.Wire.{Call, IsReady, call_of, drawn, EachHasRoom}
use tinyrtos.Gui.Scene.{corner, project, scene_render}
use tinyrtos.Osi.Locked.{IsDisciplined}
use tinyrtos.Gui.Dispatcher.{GuiBoard, dispatcher_round}
use tinyrtos.Gui.Dispatcher.Line.{written, dispatched, dispatcher_round_arrives}
use tinyrtos.Tests.BoardRuns.{reset_port}
use tinyrtos.Tests.FeedRuns.{board}
use tinyrtos.Gui.Scene.InFrame.{AreInFrame}

abbrev pub connected : Rx
connected = record reset_rx { renderer = true }

abbrev with_garbage : List Call → List (List ℕ × Call)
with_garbage [] = []
with_garbage (c ∷ calls) = (replicate 32 7, c) ∷ with_garbage calls

same_calls : (calls : List Call) → map call_of (with_garbage calls) ≡ calls
same_calls [] = refl
same_calls (c ∷ calls) = ap (λ l. c ∷ l) (same_calls calls)

pub has_room : (calls : List Call) → EachHasRoom (with_garbage calls)
has_room [] = tt
has_room (c ∷ calls) = (refl, has_room calls)

abbrev pub frame_at_200 : List (List ℕ × Call)
frame_at_200 = with_garbage (scene_render 200).0

abbrev pub gui_board : GuiBoard
gui_board = record {
  dispatcher = record {
    dispatcher_init = true;
    rx_queue = none;
    tx_mutex = none;
    storage = replicate 128 0;
    gui_write = true;
    angle = 200;
  };
  leds = reset_port;
  port = board.port;
  kernel = board.kernel;
}

pub same_frame : map call_of frame_at_200 ≡ (dispatcher_round gui_board).0
unfolding dispatcher_round
same_frame = same_calls (scene_render 200).0

dispatcher_round_arrives_example :
    IsDisciplined (dispatched frame_at_200)
    × ((feed_all (written (dispatched frame_at_200)) connected).1
        ≡ map drawn (dispatcher_round gui_board).0)
    × AreInFrame (feed_all (written (dispatched frame_at_200)) connected).1
    × IsReady (feed_all (written (dispatched frame_at_200)) connected).0
    × ((dispatcher_round gui_board).1.dispatcher.angle < 256)
dispatcher_round_arrives_example =
    dispatcher_round_arrives gui_board frame_at_200 connected (omega arith) same_frame
      (has_room (scene_render 200).0) (record { connected = refl; between = refl; room = refl })

corner_run : corner 0 0 ≡ record { x = pos 106; y = pos 56 }
unfolding project
corner_run = refl

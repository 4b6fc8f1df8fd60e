-- ===== src/Tests/GuiRuns.antt =====
-- The wire of the GUI example on a line and a present, and on damaged frames.
use tinyrtos.Prelude.{ℕ, ◌≡◌, refl, List, [], ◌∷◌, true, replicate, arith}
use tinyrtos.Gui.{gui_sof0}
use tinyrtos.Gui.Parser.{Rx, rx_sof0, reset_rx, draw_line, present, set_renderer, feed_all}
use tinyrtos.Gui.Encoded.{frame}
use tinyrtos.Gui.Received.{ended}
use tinyrtos.Gui.Wire.{Call, draws_line, presents, IsReady, transmitted, wire_roundtrip}
use tinyrtos.Gui.Noise.{damaged, damaged_frame_ignored, stray_start_loses_frame}
use tinyrtos.Gui.Bounds.{IsValid, feed_all-IsValid}

abbrev connected : Rx
connected = record reset_rx { renderer = true }

-- `packet` holds something else before each call.
abbrev two_calls : List (List ℕ × Call)
two_calls = (replicate 32 7, draws_line 1 2 3 4 5) ∷ (replicate 32 9, presents) ∷ []

set_renderer_run : set_renderer true reset_rx ≡ connected
unfolding set_renderer
set_renderer_run = refl

wire_roundtrip_example :
    ((feed_all (transmitted two_calls) connected).1 ≡ draw_line 1 2 3 4 5 ∷ present ∷ [])
    × IsReady (feed_all (transmitted two_calls) connected).0
wire_roundtrip_example =
    wire_roundtrip two_calls connected (record { connected = refl; between = refl; room = refl })
      (refl, (refl, tt))

damaged_frame_ignored_example :
    feed_all (damaged 3 (1 ∷ 2 ∷ 3 ∷ 4 ∷ 5 ∷ []) 2 9) connected
    ≡ (ended connected 3 (1 ∷ 2 ∷ 9 ∷ 4 ∷ 5 ∷ []), [])
damaged_frame_ignored_example =
    damaged_frame_ignored connected 3 (1 ∷ 2 ∷ 3 ∷ 4 ∷ 5 ∷ []) 2 9 refl (omega arith) (omega arith)
      (omega arith)

stray_start_loses_frame_example :
    feed_all (gui_sof0 ∷ frame 4 []) connected ≡ (record connected { state = rx_sof0 }, [])
stray_start_loses_frame_example = stray_start_loses_frame connected 4 [] refl (omega arith)

feed_all-IsValid_example : IsValid (feed_all (frame 3 (1 ∷ 2 ∷ [])) reset_rx).0
feed_all-IsValid_example =
    feed_all-IsValid (frame 3 (1 ∷ 2 ∷ [])) reset_rx
      (record { room = refl; in_range = λ e. absurd (ground arith) })

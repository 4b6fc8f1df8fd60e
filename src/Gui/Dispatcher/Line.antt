-- ===== src/Gui/Dispatcher/Line.antt =====
-- What the dispatcher of examples/gui/src/dispatcher.c puts on the line in a round, and what the renderer makes of it.
use tinyrtos.Prelude.{
  ℕ, ◌<◌, ◌≡◌, refl, sym, ap, ap₂, ◌∙◌, List, [], ◌∷◌, ◌++◌, map, Option, none, some, true, false,
  length, get_or, take, take-suc, take-all, for_range, for_range_inv, arith,
}
use mathlib.Core.List.{append-nil, append_assoc}
use tinyrtos.Osi.{
  Action, locks, unlocks, writes_string, writes_char, delays, undefined_instruction, resets,
}
use tinyrtos.Osi.Locked.{IsDisciplined, held_after, held_after-append, append-IsDisciplined}
use tinyrtos.Bsp.Usart3.{usart3_write_char, usart3_write_string}
use tinyrtos.Gui.Parser.{Rx, feed_all}
use tinyrtos.Gui.Wire.{Call, call_of, drawn, sent, bytes_of, transmitted, EachHasRoom, IsReady}
use tinyrtos.Gui.Scene.{scene_render}
use tinyrtos.Gui.Scene.InFrame.{AreInFrame, frame_arrives}
use tinyrtos.Gui.Dispatcher.{GuiBoard, dispatch_bytes, dispatcher_round}

-- The bytes of some actions.
abbrev pub written : List Action → List ℕ
written [] = []
written (locks ∷ l) = written l
written (unlocks ∷ l) = written l
written (writes_string s ∷ l) = usart3_write_string s ++ written l
written (writes_char c ∷ l) = usart3_write_char c ++ written l
written (delays ms ∷ l) = written l
written (undefined_instruction ∷ l) = written l
written (resets ∷ l) = written l

written-append : (l m : List Action) → written (l ++ m) ≡ written l ++ written m
written-append [] m = refl
written-append (locks ∷ l) m = written-append l m
written-append (unlocks ∷ l) m = written-append l m
written-append (writes_string s ∷ l) m =
    ap (λ (w : List ℕ). usart3_write_string s ++ w) (written-append l m)
    ∙ sym (append_assoc (usart3_write_string s) (written l) (written m))
written-append (writes_char c ∷ l) m = ap (λ (w : List ℕ). c ∷ w) (written-append l m)
written-append (delays ms ∷ l) m = written-append l m
written-append (undefined_instruction ∷ l) m = written-append l m
written-append (resets ∷ l) m = written-append l m

-- A packet is written byte by byte, while the mutex is held.
dispatch_bytes_lem :
    (p : List ℕ)
    → (written (dispatch_bytes p (length p)) ≡ p) × IsDisciplined (dispatch_bytes p (length p))
unfolding dispatch_bytes
dispatch_bytes_lem p =
    let body : ℕ → List Action → List Action = λ i done. done ++ writes_char (get_or p i 0) ∷ [] in
    let sending =
      for_range_inv (λ i done. (written done ≡ take i p) × (held_after false done ≡ some true)) body
        (length p) 0 (length p) (locks ∷ []) (omega arith)
        (λ i done lo hi inv. (
          written-append done (writes_char (get_or p i 0) ∷ [])
              ∙ ap (λ (w : List ℕ). w ++ get_or p i 0 ∷ []) inv.0
              ∙ sym (take-suc i p 0 hi),
          held_after-append false true done (writes_char (get_or p i 0) ∷ []) inv.1,
        ))
        (refl, refl) in
    let all = for_range (length p) 0 body (locks ∷ []) in
    (
      written-append all (unlocks ∷ [])
          ∙ append-nil (written all)
          ∙ sending.0
          ∙ take-all (length p) p refl,
      held_after-append false true all (unlocks ∷ []) sending.1,
    )

-- The calls of `gui_write` of some drawing calls.
abbrev pub handed : Option (List ℕ) → List Action
handed none = []
handed (some p) = dispatch_bytes p (length p)

unfoldable pub dispatched : List (List ℕ × Call) → List Action
dispatched [] = []
dispatched ((garbage, c) ∷ calls) = handed (sent garbage c) ++ dispatched calls

handed_lem : (p : Option (List ℕ)) → (written (handed p) ≡ bytes_of p) × IsDisciplined (handed p)
handed_lem none = (refl, refl)
handed_lem (some p) = dispatch_bytes_lem p

dispatched_lem :
    (calls : List (List ℕ × Call))
    → (written (dispatched calls) ≡ transmitted calls) × IsDisciplined (dispatched calls)
unfolding dispatched transmitted
dispatched_lem [] = (refl, refl)
dispatched_lem ((garbage, c) ∷ calls) =
    let now = handed_lem (sent garbage c) in
    let rest = dispatched_lem calls in
    (
      written-append (handed (sent garbage c)) (dispatched calls) ∙ ap₂ ◌++◌ now.0 rest.0,
      append-IsDisciplined (handed (sent garbage c)) (dispatched calls) now.1 rest.1,
    )

next_angle : (angle : ℕ) → (scene_render angle).1 < 256
unfolding scene_render
next_angle angle = omega arith

-- One round of the dispatcher, at an angle below 256: it writes each packet while it holds the mutex of the line, and
-- over a line that loses no byte the renderer, whose parser is between two frames, makes just the drawing calls of the
-- round, in their order and with every point inside the framebuffer, and its parser is between two frames again; the
-- next round's angle is below 256 too. `packet` may hold any 32 bytes before each call.
pub dispatcher_round_arrives :
    (b : GuiBoard) (calls : List (List ℕ × Call)) (r : Rx)
    → b.dispatcher.angle < 256
    → map call_of calls ≡ (dispatcher_round b).0
    → EachHasRoom calls
    → IsReady r
    → IsDisciplined (dispatched calls)
      × ((feed_all (written (dispatched calls)) r).1 ≡ map drawn (dispatcher_round b).0)
      × AreInFrame (feed_all (written (dispatched calls)) r).1
      × IsReady (feed_all (written (dispatched calls)) r).0
      × ((dispatcher_round b).1.dispatcher.angle < 256)
unfolding dispatcher_round
dispatcher_round_arrives b calls r l e room ready =
    let sent_all = dispatched_lem calls in
    let host = frame_arrives b.dispatcher.angle calls r l e room ready in
    (
      sent_all.1,
      rw sent_all.0 host.0,
      rw sent_all.0 host.1,
      rw sent_all.0 host.2,
      next_angle b.dispatcher.angle,
    )

-- ===== src/Gui/Host/Ends.antt =====
-- The calls of SDL of `main` of examples/gui/renderer/src/main.c, to its end.
use tinyrtos.Prelude.{
  Bool, Option, ℕ, ◌≡◌, refl, ap, ◌∙◌, List, [], ◌∷◌, ◌++◌, some, none, true, false, Bool-cases,
  inl, inr, ◌&&◌,
}
use tinyrtos.Gui.Serial.{SerialPorts, GuiSerial, serial_open_auto}
use tinyrtos.Gui.Parser.{Rx, set_renderer}
use tinyrtos.Gui.Scene.{framebuffer_width, framebuffer_height}
use tinyrtos.Gui.Renderer.Life.{
  WindowCall, Sdl, GuiWindow, renderer_init, poll_quit, poll_calls, renderer_destroy,
}
use tinyrtos.Gui.Renderer.Alive.{
  Alive, LeavesNothing, renderer_init_lem, Starts, renderer_destroy_lem, and_then, and_then-append,
  nothing_alive, shown_window, poll_calls-kept,
}
use tinyrtos.Gui.Renderer.Perform.{perform, perform-kept}
use tinyrtos.Gui.Host.{
  Host, object, Exit, running, exits, render_scale, with_window, host_main, draw_until_quit,
  read_bytes,
}

-- No call of SDL comes out of order; while `main` runs on, its window and its renderer are there, and when it has
-- ended, nothing of SDL is.
abbrev pub IsOrderly : Exit × List WindowCall → Type 0
IsOrderly (running, calls) =
    (w : ℕ) × (r : ℕ) × (and_then (some nothing_alive) calls ≡ some (shown_window w (some r)))
IsOrderly (exits status, calls) = LeavesNothing calls

-- Calls one after the other.
after :
    (a : Option Alive) {b c : Option Alive} (l m : List WindowCall)
    → and_then a l ≡ b
    → and_then b m ≡ c
    → and_then a (l ++ m) ≡ c
after a l m p q = and_then-append a l m ∙ ap (λ (o : Option Alive). and_then o m) p ∙ q

module _ (fuel waiting sdl_quit : ℕ) (lib : SerialPorts) (w r : ℕ) where
  abbrev there : Option Alive
  there = some (shown_window w (some r))

  -- The loop polls events while SDL is started and draws on the renderer alone.
  loop-kept :
      (gui : GuiWindow) (polls : List (List ℕ)) (h : Host)
      → gui.renderer ≡ some r
      → and_then there (draw_until_quit fuel waiting sdl_quit lib gui polls h).2 ≡ there
  unfolding draw_until_quit
  loop-kept gui [] h e = refl
  loop-kept gui (events ∷ polls) h e =
      let polled = poll_calls-kept sdl_quit w (some r) events in
      let (ended, h', now) = read_bytes fuel waiting lib h in
      let calls = (perform gui.sizes gui.renderer now).1 in
      let drawn : and_then there calls ≡ there = rw e (perform-kept gui.sizes w r now) in
      elim (Bool-cases (poll_quit sdl_quit events)) [
        | inl quit ↦ rw (draw_until_quit, quit) polled
        | inr on ↦ elim (Bool-cases (ended && (perform gui.sizes gui.renderer now).0)) [
          | inr off ↦
              rw (draw_until_quit, on, off)
                (after there (poll_calls sdl_quit events) calls polled drawn)
          | inl goes_on ↦
              rw (draw_until_quit, on, goes_on)
                (after there (poll_calls sdl_quit events) _ polled
                  (after there calls _ drawn (loop-kept gui polls h' e)))
        ]
      ]

with_window-IsOrderly :
    (gui : GuiWindow) (loop : GuiWindow → Bool × Host × List WindowCall)
    (o : Bool × Option GuiWindow × List WindowCall)
    → Starts o
    → ((window : GuiWindow) (w r : ℕ)
        → window.renderer ≡ some r
        → and_then (some (shown_window w (some r))) (loop window).2
          ≡ some (shown_window w (some r)))
    → IsOrderly (with_window gui loop o)
with_window-IsOrderly gui loop (false, window, made) starts kept = starts
with_window-IsOrderly gui loop (true, none, made) starts kept = absurd starts
with_window-IsOrderly gui loop (true, some window, made) (w, r, window_is, renderer_is, e) kept =
    closed (loop window) (kept window w r renderer_is)
  where
    closed :
        (out : Bool × Host × List WindowCall)
        → and_then (some (shown_window w (some r))) out.2 ≡ some (shown_window w (some r))
        → IsOrderly (with_window gui (λ _. out) (true, some window, made))
    closed (false, h, calls) q = (w, r, after (some nothing_alive) made calls e q)
    closed (true, h, calls) q =
        after (some nothing_alive) made (calls ++ renderer_destroy (some window)) e (
          after (some (shown_window w (some r))) calls (renderer_destroy (some window)) q
            (renderer_destroy_lem window w r window_is renderer_is))

-- Whatever libserialport, SDL and its events answer, `main` makes no call of SDL out of order: it polls events only
-- while SDL is started, and draws only on the renderer that it has. As long as it runs on after its start, its window
-- and its renderer are there; when it has ended, with either status, it has left no window or renderer, nor SDL
-- started.
pub host_main-IsOrderly :
    (fuel waiting sdl_quit : ℕ) (lib : SerialPorts) (sdl : Sdl) (polls : List (List ℕ))
    (serial : GuiSerial) (gui : GuiWindow) (rx : Rx)
    → IsOrderly (host_main fuel waiting sdl_quit lib sdl polls serial gui rx)
unfolding host_main
host_main-IsOrderly fuel waiting sdl_quit lib sdl polls serial gui rx =
    let opened = serial_open_auto lib 921_600 (some serial) [] in
    let h : Host = record {
      serial = object serial opened.1;
      calls = opened.2;
      rx = set_renderer true rx;
    } in
    elim (Bool-cases opened.0) [
      | inr unplugged ↦ rw (host_main, unplugged) refl
      | inl plugged ↦
          rw (host_main, plugged)
            (with_window-IsOrderly gui
              (λ window. draw_until_quit fuel waiting sdl_quit lib window polls h)
              (renderer_init sdl (some gui) framebuffer_width framebuffer_height render_scale)
              (renderer_init_lem sdl (some gui) framebuffer_width framebuffer_height render_scale)
              (λ window w r e. loop-kept fuel waiting sdl_quit lib w r window polls h e))
    ]

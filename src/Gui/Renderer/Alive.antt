-- ===== src/Gui/Renderer/Alive.antt =====
-- In which order the calls of SDL of examples/gui/renderer may come, and that gui_renderer_init, gui_renderer_poll_quit and
-- gui_renderer_destroy keep to it.
use tinyrtos.Prelude.{
  ℕ, arith, ap, ◌∙◌, ◌≡◌, refl, List, [], ◌∷◌, ◌++◌, Option, none, some, Bool, true, false, ◌==◌,
  ◌&&◌, if◌then◌else◌, Bool-cases, inl, inr,
}
use tinyrtos.Gui.Renderer.Life.{
  WindowCall, inits_video, creates_window, creates_renderer, destroys_renderer, destroys_window,
  quits, polls_event, draws_on, Sdl, GuiWindow, renderer_init, renderer_destroy, poll_calls,
}

-- What the program has of SDL: whether it is started, a window, and a renderer.
pub record Alive : Type 0 where
  pub started : Bool
  pub has_window : Option ℕ
  pub has_renderer : Option ℕ

abbrev pub nothing_alive : Alive
nothing_alive = record { started = false; has_window = none; has_renderer = none }

abbrev pub is_absent : Option ℕ → Bool
is_absent none = true
is_absent (some x) = false

abbrev pub is_that : ℕ → Option ℕ → Bool
is_that x none = false
is_that x (some y) = x == y

abbrev pub are_that : Option ℕ → Option ℕ → Bool
are_that none o = false
are_that (some x) o = is_that x o

-- What a call does to it, or `none` if it may not come: SDL is started once and has one window with one renderer, which
-- goes first, and SDL ends when both are gone; events are polled while SDL is started, and drawing is on the renderer that
-- is there.
abbrev pub allow : WindowCall → Alive → Option Alive
allow (inits_video ok) a = if a.started then none else some (record a { started = ok })
allow (creates_window x y w) a =
    if a.started && is_absent a.has_window then some (record a { has_window = w }) else none
allow (creates_renderer w r) a =
    if is_that w a.has_window && is_absent a.has_renderer
    then some (record a { has_renderer = r })
    else none
allow (destroys_renderer r) a =
    if is_that r a.has_renderer then some (record a { has_renderer = none }) else none
allow (destroys_window w) a =
    if is_that w a.has_window && is_absent a.has_renderer
    then some (record a { has_window = none })
    else none
allow quits a =
    if a.started && (is_absent a.has_window && is_absent a.has_renderer)
    then some nothing_alive
    else none
allow (polls_event e) a = if a.started then some a else none
allow (draws_on r call) a = if are_that r a.has_renderer then some a else none

abbrev pub and_then : Option Alive → List WindowCall → Option Alive
and_then none calls = none
and_then (some a) [] = some a
and_then (some a) (c ∷ calls) = and_then (allow c a) calls

-- No call comes out of order, and nothing of SDL is left.
abbrev pub LeavesNothing : List WindowCall → Type 0
LeavesNothing calls = and_then (some nothing_alive) calls ≡ some nothing_alive

pub and_then-append :
    (o : Option Alive) (l m : List WindowCall) → and_then o (l ++ m) ≡ and_then (and_then o l) m
and_then-append none [] m = none_after m
  where
    none_after : (m : List WindowCall) → and_then none m ≡ and_then none m
    none_after m = refl
and_then-append none (c ∷ l) m = none_then m
  where
    none_then : (m : List WindowCall) → and_then none (c ∷ (l ++ m)) ≡ and_then none m
    none_then m = refl
and_then-append (some a) [] m = refl
and_then-append (some a) (c ∷ l) m = and_then-append (allow c a) l m

abbrev pub shown_window : ℕ → Option ℕ → Alive
shown_window w r = record { started = true; has_window = some w; has_renderer = r }

renderer_made :
    (w : ℕ) (r : Option ℕ)
    → allow (creates_renderer w r) (shown_window w none) ≡ some (shown_window w r)
renderer_made w r = let same : (w == w) ≡ true = ground arith in rw same refl

renderer_gone :
    (w r : ℕ) → allow (destroys_renderer r) (shown_window w (some r)) ≡ some (shown_window w none)
renderer_gone w r = let same : (r == r) ≡ true = ground arith in rw same refl

window_gone :
    (w : ℕ)
    → and_then (some (shown_window w none)) (destroys_window w ∷ quits ∷ []) ≡ some nothing_alive
window_gone w = ap (λ (o : Option Alive). and_then o (quits ∷ [])) (last w)
  where
    last :
        (x : ℕ)
        → allow (destroys_window x) (shown_window x none)
          ≡ some (record { started = true; has_window = none; has_renderer = none })
    last x = let same : (x == x) ≡ true = ground arith in rw same refl

-- How gui_renderer_init may end: it has failed, and has released everything itself; or a window with a renderer is
-- there, as gui_renderer_t says.
abbrev pub Starts : Bool × Option GuiWindow × List WindowCall → Type 0
Starts (false, gui, calls) = LeavesNothing calls
Starts (true, none, calls) = ⊥
Starts (true, some gui, calls) =
    (w : ℕ) × (r : ℕ) × (gui.window ≡ some w)
    × (gui.renderer ≡ some r)
    × (and_then (some nothing_alive) calls ≡ some (shown_window w (some r)))

from_answers :
    (video : Bool) (w r : Option ℕ) (gui : Option GuiWindow) (width height scale : ℕ)
    → let sdl : Sdl = record { video = video; new_window = w; new_renderer = r } in
      Starts (renderer_init sdl gui width height scale)
unfolding renderer_init
from_answers video w r none width height scale = refl
from_answers false w r (some gui) width height scale = refl
from_answers true none r (some gui) width height scale = refl
from_answers true (some w) none (some gui) width height scale =
    ap (λ (o : Option Alive). and_then o (destroys_window w ∷ quits ∷ [])) (renderer_made w none)
    ∙ window_gone w
from_answers true (some w) (some r) (some gui) width height scale =
    (w, r, refl, refl, ap (λ (o : Option Alive). and_then o []) (renderer_made w (some r)))

pub renderer_init_lem :
    (sdl : Sdl) (gui : Option GuiWindow) (width height scale : ℕ)
    → Starts (renderer_init sdl gui width height scale)
renderer_init_lem sdl gui width height scale =
    from_answers sdl.video sdl.new_window sdl.new_renderer gui width height scale

-- gui_renderer_destroy leaves nothing of what is there.
pub renderer_destroy_lem :
    (gui : GuiWindow) (w r : ℕ)
    → gui.window ≡ some w
    → gui.renderer ≡ some r
    → and_then (some (shown_window w (some r))) (renderer_destroy (some gui)) ≡ some nothing_alive
unfolding renderer_destroy
renderer_destroy_lem gui w r window_is renderer_is =
    rw (window_is, renderer_is)
      (ap (λ (o : Option Alive). and_then o (destroys_window w ∷ quits ∷ [])) (renderer_gone w r)
        ∙ window_gone w)

pub poll_calls-kept :
    (sdl_quit w : ℕ) (r : Option ℕ) (events : List ℕ)
    → and_then (some (shown_window w r)) (poll_calls sdl_quit events) ≡ some (shown_window w r)
unfolding poll_calls
poll_calls-kept sdl_quit w r [] = refl
poll_calls-kept sdl_quit w r (event ∷ events) = elim (Bool-cases (event == sdl_quit)) [
  | inl quit ↦ rw (poll_calls, quit) refl
  | inr other ↦ rw (poll_calls, other) (poll_calls-kept sdl_quit w r events)
]

-- ===== src/Gui/Renderer/Life.antt =====
-- The window of the renderer, examples/gui/renderer/src/renderer.c: its start, its end and its events.
use tinyrtos.Prelude.{
  ℕ, List, [], ◌∷◌, ◌++◌, Option, none, some, Bool, true, false, ℤ, mul32, ◌==◌, not, if◌then◌else◌,
}
use tinyrtos.Gui.Renderer.{GuiRenderer, SdlCall, int32}

-- SDL_Init, SDL_CreateWindow, SDL_CreateRenderer, SDL_DestroyRenderer, SDL_DestroyWindow and SDL_Quit, with whether
-- SDL_Init answered 0 and with what the two others answered; SDL_PollEvent, with the type of the event that it found,
-- `none` if it found none; and the drawing calls, with the renderer that they are given.
pub data WindowCall : Type 0 where
  inits_video : Bool → WindowCall
  creates_window : (width height : ℤ) → Option ℕ → WindowCall
  creates_renderer : (window : ℕ) → Option ℕ → WindowCall
  destroys_renderer : ℕ → WindowCall
  destroys_window : ℕ → WindowCall
  quits : WindowCall
  polls_event : Option ℕ → WindowCall
  draws_on : (renderer : Option ℕ) → SdlCall → WindowCall

-- What SDL answers.
pub record Sdl : Type 0 where
  pub video : Bool
  pub new_window : Option ℕ
  pub new_renderer : Option ℕ

-- gui_renderer_t
pub record GuiWindow : Type 0 where
  pub sizes : GuiRenderer
  pub window : Option ℕ
  pub renderer : Option ℕ

abbrev pub destroy_renderer : Option ℕ → List WindowCall
destroy_renderer none = []
destroy_renderer (some r) = destroys_renderer r ∷ []

abbrev pub destroy_window : Option ℕ → List WindowCall
destroy_window none = []
destroy_window (some w) = destroys_window w ∷ []

-- gui_renderer_init
unfoldable pub renderer_init :
    Sdl → Option GuiWindow → (width height scale : ℕ) → Bool × Option GuiWindow × List WindowCall
renderer_init sdl none width height scale = (false, none, [])
renderer_init sdl (some gui) width height scale =
    if not sdl.video then (false, some gui, inits_video false ∷ []) else with_video
  where
    sized : GuiWindow
    sized = record gui { sizes = record { width = width; height = height; scale = scale } }

    shown : ℕ → List WindowCall → Bool × Option GuiWindow × List WindowCall
    shown w made = elim sdl.new_renderer [
      | none ↦ (
        false,
        some (record sized { window = some w; renderer = none }),
        made ++ creates_renderer w none ∷ destroys_window w ∷ quits ∷ [],
      )
      | some r ↦ (
        true,
        some (record sized { window = some w; renderer = some r }),
        made ++ creates_renderer w (some r) ∷ [],
      )
    ]

    with_video : Bool × Option GuiWindow × List WindowCall
    with_video =
        let made : Option ℕ → List WindowCall = λ w.
          inits_video true
          ∷ creates_window (int32 (mul32 width scale)) (int32 (mul32 height scale)) w
          ∷ [] in
        elim sdl.new_window [
          | none ↦ (false, some (record sized { window = none }), made none ++ quits ∷ [])
          | some w ↦ shown w (made (some w))
        ]

-- gui_renderer_destroy
unfoldable pub renderer_destroy : Option GuiWindow → List WindowCall
renderer_destroy none = []
renderer_destroy (some gui) =
    destroy_renderer gui.renderer ++ (destroy_window gui.window ++ quits ∷ [])

-- gui_renderer_poll_quit, on the types of the events that SDL has; SDL_QUIT is `sdl_quit`.
unfoldable pub poll_quit : (sdl_quit : ℕ) → List ℕ → Bool
poll_quit sdl_quit [] = false
poll_quit sdl_quit (event ∷ events) = elim (event == sdl_quit) [
  | true ↦ true
  | false ↦ poll_quit sdl_quit events
]

-- The calls of SDL_PollEvent that it makes.
unfoldable pub poll_calls : (sdl_quit : ℕ) → List ℕ → List WindowCall
poll_calls sdl_quit [] = polls_event none ∷ []
poll_calls sdl_quit (event ∷ events) = elim (event == sdl_quit) [
  | true ↦ polls_event (some event) ∷ []
  | false ↦ polls_event (some event) ∷ poll_calls sdl_quit events
]

-- ===== src/Gui/Serial/Plugged.antt =====
-- That gui_serial_reconnect of examples/gui/renderer/src/serial.c comes to an end when the target is plugged in.
use tinyrtos.Prelude.{ℕ, suc, ◌≤◌, ◌≡◌, List, [], ◌∷◌, some, Bool, true, false, ◌||◌}
use tinyrtos.Gui.Serial.{SpCall, SerialPorts, Listed, port_name_matches, sleeps_500_ms}

-- How often the program has slept.
abbrev pub slept : SpCall → ℕ → ℕ
slept c k = elim c [ SpCall.sleeps_500_ms ↦ suc k | _ ↦ k ]

abbrev pub sleeps : List SpCall → ℕ
sleeps [] = 0
sleeps (c ∷ calls) = slept c (sleeps calls)

abbrev pub any_matches : List Listed → Bool
any_matches [] = false
any_matches (p ∷ ps) = port_name_matches p.listed_name || any_matches ps

-- From the `n`-th sleep on, a port of the target is listed, and ports can be copied and opened.
pub record Plugged (n : ℕ) (lib : SerialPorts) : Type 0 where
  pub listed :
      (calls : List SpCall)
      → n ≤ sleeps calls
      → (ports : List Listed) × (lib.list_ports calls ≡ some ports) × (any_matches ports ≡ true)
  pub copied :
      (calls : List SpCall) (p : ℕ) → n ≤ sleeps calls → (q : ℕ) × (lib.copy_port calls p ≡ some q)
  pub opens : (calls : List SpCall) (p : ℕ) → n ≤ sleeps calls → lib.open_port calls p ≡ true

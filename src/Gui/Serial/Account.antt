-- ===== src/Gui/Serial/Account.antt =====
-- The protocol of libserialport that the calls of examples/gui/renderer/src/serial.c are held to.
use tinyrtos.Prelude.{
  ℕ, List, [], ◌∷◌, Option, none, some, Bool, true, false, ◌&&◌, ◌||◌, not, ◌==◌, ◌≡◌,
  if◌then◌else◌,
}
use tinyrtos.Gui.Serial.{SpCall, SerialPorts, GuiSerial}

-- How an open port is set up.
pub record Settings : Type 0 where
  pub baudrate : Option ℕ
  pub bits : ℕ
  pub parity_off : Bool
  pub stopbits : ℕ
  pub flowcontrol_off : Bool

-- The port that the program has of libserialport.
pub data Held : Type 0 where
  nothing : Held
  copied : ℕ → Held
  opened : ℕ → Settings → Held
  closed : ℕ → Held

-- What the program owes: a list to be freed, and its port.
pub record Account : Type 0 where
  pub list_owed : Bool
  pub held : Held

abbrev pub unset : Settings
unset = record {
  baudrate = none;
  bits = 0;
  parity_off = false;
  stopbits = 0;
  flowcontrol_off = false;
}

-- Eight bits, no parity, one stop bit, no flow control.
abbrev pub line_settings : (baud : ℕ) → Settings
line_settings baud = record {
  baudrate = some baud;
  bits = 8;
  parity_off = true;
  stopbits = 1;
  flowcontrol_off = true;
}

abbrev pub is_set_up : Settings → Bool
is_set_up s =
    has_baud s.baudrate
    && ((s.bits == 8) && (s.parity_off && ((s.stopbits == 1) && s.flowcontrol_off)))
  where
    has_baud : Option ℕ → Bool
    has_baud none = false
    has_baud (some b) = true

-- A change of the settings of port `p`, which must be the open one, and whether the change is made.
abbrev pub on_settings : ℕ → Bool → (Settings → Settings) → Held → Option Held
on_settings p made f (opened q s) =
    if p == q then some (opened q (if made then f s else s)) else none
on_settings p made f h = none

-- A use of the open port, which must be set up.
abbrev pub on_line : Option ℕ → Held → Option Held
on_line (some p) (opened q s) = if (p == q) && is_set_up s then some (opened q s) else none
on_line p h = none

abbrev pub copy_held : Option ℕ → Held → Option Held
copy_held none nothing = some nothing
copy_held (some p) nothing = some (copied p)
copy_held p h = none

abbrev pub open_held : ℕ → Bool → Held → Option Held
open_held p ok (copied q) = if p == q then some (if ok then opened q unset else copied q) else none
open_held p ok h = none

abbrev pub close_held : Option ℕ → Held → Option Held
close_held (some p) (opened q s) = if p == q then some (closed q) else none
close_held p h = none

-- A copy is freed when it was never opened or is closed.
abbrev pub free_held : Option ℕ → Held → Option Held
free_held (some p) (copied q) = if p == q then some nothing else none
free_held (some p) (closed q) = if p == q then some nothing else none
free_held p h = none

abbrev pub keeping : Bool → Option Held → Option Account
keeping owed none = none
keeping owed (some h) = some (record { list_owed = owed; held = h })

-- What a call does to the account, or `none` if the protocol forbids it: a list is not asked for while one is owed,
-- ports are copied from a list alone and one at a time, settings and use need the open port, use needs it set up,
-- an open port is closed before it is freed, and nothing sleeps over a list. With `heed` a setting is made only if
-- libserialport grants it; without, it is enough to ask for it.
abbrev pub charge : (heed : Bool) → SpCall → Account → Option Account
charge heed (SpCall.lists_ports ok) a =
    if a.list_owed then none else some (record a { list_owed = ok })
charge heed SpCall.frees_port_list a =
    if a.list_owed then some (record a { list_owed = false }) else none
charge heed (SpCall.copies_port p) a =
    if a.list_owed then keeping true (copy_held p a.held) else none
charge heed (SpCall.opens_port p ok) a = keeping a.list_owed (open_held p ok a.held)
charge heed (SpCall.sets_baudrate p b ok) a =
    keeping a.list_owed
      (on_settings p (ok || not heed) (λ s. record s { baudrate = some b }) a.held)
charge heed (SpCall.sets_bits p n ok) a =
    keeping a.list_owed (on_settings p (ok || not heed) (λ s. record s { bits = n }) a.held)
charge heed (SpCall.sets_no_parity p ok) a =
    keeping a.list_owed
      (on_settings p (ok || not heed) (λ s. record s { parity_off = true }) a.held)
charge heed (SpCall.sets_stopbits p n ok) a =
    keeping a.list_owed (on_settings p (ok || not heed) (λ s. record s { stopbits = n }) a.held)
charge heed (SpCall.sets_no_flowcontrol p ok) a =
    keeping a.list_owed
      (on_settings p (ok || not heed) (λ s. record s { flowcontrol_off = true }) a.held)
charge heed (SpCall.gets_signals p) a = keeping a.list_owed (on_line p a.held)
charge heed (SpCall.reads_port p len) a = keeping a.list_owed (on_line p a.held)
charge heed (SpCall.writes_port p bytes timeout) a = keeping a.list_owed (on_line p a.held)
charge heed (SpCall.closes_port p) a = keeping a.list_owed (close_held p a.held)
charge heed (SpCall.frees_port p) a = keeping a.list_owed (free_held p a.held)
charge heed SpCall.sleeps_500_ms a = if a.list_owed then none else some a

abbrev pub and_charge : (heed : Bool) → SpCall → Option Account → Option Account
and_charge heed c none = none
and_charge heed c (some a) = charge heed c a

-- The account after calls, the latest first.
abbrev pub audit : (heed : Bool) → List SpCall → Option Account
audit heed [] = some (record { list_owed = false; held = nothing })
audit heed (c ∷ calls) = and_charge heed c (audit heed calls)

-- libserialport grants every setting.
pub record Grants (lib : SerialPorts) : Type 0 where
  pub baudrate : (calls : List SpCall) (p baud : ℕ) → lib.set_baudrate calls p baud ≡ true
  pub bits : (calls : List SpCall) (p bits : ℕ) → lib.set_bits calls p bits ≡ true
  pub no_parity : (calls : List SpCall) (p : ℕ) → lib.set_no_parity calls p ≡ true
  pub stopbits : (calls : List SpCall) (p bits : ℕ) → lib.set_stopbits calls p bits ≡ true
  pub no_flowcontrol : (calls : List SpCall) (p : ℕ) → lib.set_no_flowcontrol calls p ≡ true

-- What gui_serial_t says of the account between two of its functions: its port, open and set up, and no list.
abbrev pub held_of : GuiSerial → Held
held_of s = elim s.port [ none ↦ nothing | some p ↦ opened p (line_settings s.baud) ]

abbrev pub settled : Held → Option Account
settled h = some (record { list_owed = false; held = h })

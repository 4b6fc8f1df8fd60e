-- ===== src/Gui/Serial.antt =====
-- The serial port on the host, examples/gui/renderer/src/serial.c, over libserialport.
pub mod Account
pub mod Protocol
pub mod Reading
pub mod Use
pub mod Plugged
use tinyrtos.Prelude.{
  ℕ, zero, suc, List, [], ◌∷◌, Option, none, some, Bool, true, false, ◌&&◌, ◌||◌, not, ℤ, pos,
  negsuc, leb_ℤ, eq_ℤ, same_text, codes, take, if◌then◌else◌, ◌==◌,
}

-- A port of sp_list_ports, with the answer of sp_get_port_name.
pub record Listed : Type 0 where
  pub listed_port : ℕ
  pub listed_name : Option (List ℕ)

-- The calls of libserialport and of reconnect_sleep, with the part of the answer that the code goes on with, or,
-- where it does not look at it, that decides what state libserialport is in: whether ports were listed, the copy that
-- sp_copy_port made, whether sp_open opened the port, and whether each setting was made.
pub data SpCall : Type 0 where
  lists_ports : Bool → SpCall
  frees_port_list : SpCall
  copies_port : Option ℕ → SpCall
  opens_port : ℕ → Bool → SpCall
  sets_baudrate : ℕ → (baud : ℕ) → Bool → SpCall
  sets_bits : ℕ → (bits : ℕ) → Bool → SpCall
  sets_no_parity : ℕ → Bool → SpCall
  sets_stopbits : ℕ → (bits : ℕ) → Bool → SpCall
  sets_no_flowcontrol : ℕ → Bool → SpCall
  gets_signals : Option ℕ → SpCall
  reads_port : Option ℕ → (len : ℕ) → SpCall
  writes_port : Option ℕ → (buffer : List ℕ) → (timeout : ℕ) → SpCall
  closes_port : Option ℕ → SpCall
  frees_port : Option ℕ → SpCall
  sleeps_500_ms : SpCall

-- The answers of libserialport, which may depend on all the calls before, the latest first: `none` for an answer
-- other than SP_OK. A read answers its result and the bytes that it put into the buffer.
pub record SerialPorts : Type 0 where
  pub list_ports : List SpCall → Option (List Listed)
  pub copy_port : List SpCall → ℕ → Option ℕ
  pub open_port : List SpCall → ℕ → Bool
  pub set_baudrate : List SpCall → ℕ → (baud : ℕ) → Bool
  pub set_bits : List SpCall → ℕ → (bits : ℕ) → Bool
  pub set_no_parity : List SpCall → ℕ → Bool
  pub set_stopbits : List SpCall → ℕ → (bits : ℕ) → Bool
  pub set_no_flowcontrol : List SpCall → ℕ → Bool
  pub get_signals : List SpCall → Option ℕ → Bool
  pub nonblocking_read : List SpCall → Option ℕ → ℕ → ℤ × List ℕ
  pub blocking_write : List SpCall → Option ℕ → List ℕ → ℤ

-- gui_serial_t; `port_name` is the text in the array.
pub record GuiSerial : Type 0 where
  pub port : Option ℕ
  pub baud : ℕ
  pub port_name : List ℕ

-- `strstr(name, part) == name`
abbrev pub begins_with : (part name : List ℕ) → Bool
begins_with [] name = true
begins_with (c ∷ part) [] = false
begins_with (c ∷ part) (d ∷ name) = (c == d) && begins_with part name

-- `strstr(name, part) != 0`
abbrev pub has_part : (part name : List ℕ) → Bool
has_part part [] = begins_with part []
has_part part (d ∷ name) = begins_with part (d ∷ name) || has_part part name

unfoldable pub port_name_matches : Option (List ℕ) → Bool
port_name_matches none = false
port_name_matches (some name) =
    has_part (codes "usbmodem") name
    || (has_part (codes "ttyACM") name
        || (has_part (codes "ttyUSB") name || begins_with (codes "COM3") name))

-- The loop of gui_port_still_exists
abbrev pub any_named : (target : List ℕ) → List Listed → Bool
any_named target [] = false
any_named target (p ∷ ps) = named p.listed_name || any_named target ps
  where
    named : Option (List ℕ) → Bool
    named none = false
    named (some name) = same_text name target

-- gui_port_still_exists; the list is freed whether a port was found or not.
unfoldable pub port_still_exists : SerialPorts → List ℕ → List SpCall → Bool × List SpCall
port_still_exists lib [] calls = (false, calls)
port_still_exists lib (c ∷ target) calls = elim (lib.list_ports calls) [
  | none ↦ (false, lists_ports false ∷ calls)
  | some ports ↦ (any_named (c ∷ target) ports, frees_port_list ∷ lists_ports true ∷ calls)
]

unfoldable pub port_is_healthy : SerialPorts → Option GuiSerial → List SpCall → Bool × List SpCall
unfolding port_still_exists
port_is_healthy lib none calls = (false, calls)
port_is_healthy lib (some s) calls = elim s.port [
  | none ↦ (false, calls)
  | some p ↦
      let (exists_now, seen) = port_still_exists lib s.port_name calls in
      if exists_now
      then (lib.get_signals seen (some p), gets_signals (some p) ∷ seen)
      else (false, seen)
]

-- The calls that set up an open port, the latest first; the code does not look at their answers.
abbrev pub set_up : SerialPorts → (port baud : ℕ) → List SpCall → List SpCall
set_up lib port baud calls =
    let with_baud = sets_baudrate port baud (lib.set_baudrate calls port baud) ∷ calls in
    let with_bits = sets_bits port 8 (lib.set_bits with_baud port 8) ∷ with_baud in
    let with_parity = sets_no_parity port (lib.set_no_parity with_bits port) ∷ with_bits in
    let with_stop = sets_stopbits port 1 (lib.set_stopbits with_parity port 1) ∷ with_parity in
    sets_no_flowcontrol port (lib.set_no_flowcontrol with_stop port) ∷ with_stop

abbrev pub name_of : Option (List ℕ) → List ℕ
name_of none = []
name_of (some name) = name

-- What the loop of gui_serial_open_auto does with a port whose name matches: the port to keep, or `none` to go on.
abbrev pub try_port : SerialPorts → ℕ → Listed → List SpCall → Option ℕ × List SpCall
try_port lib baud p calls = elim (lib.copy_port calls p.listed_port) [
  | none ↦ (none, copies_port none ∷ calls)
  | some port ↦
      let copied = copies_port (some port) ∷ calls in
      if lib.open_port copied port
      then (some port, set_up lib port baud (opens_port port true ∷ copied))
      else (none, frees_port (some port) ∷ opens_port port false ∷ copied)
]

-- The loop of gui_serial_open_auto, with the name of the port to keep.
unfoldable pub open_first :
    SerialPorts → ℕ → List Listed → List SpCall → Option (ℕ × List ℕ) × List SpCall
unfolding port_name_matches
open_first lib baud [] calls = (none, calls)
open_first lib baud (p ∷ ps) calls = elim (port_name_matches p.listed_name) [
  | false ↦ open_first lib baud ps calls
  | true ↦
      let (kept, tried) = try_port lib baud p calls in
      elim kept [
        | some port ↦ (some (port, name_of p.listed_name), tried)
        | none ↦ open_first lib baud ps tried
      ]
]

-- gui_serial_open_auto of a serial port that is there
unfoldable pub open_auto :
    SerialPorts → ℕ → GuiSerial → List SpCall → Bool × GuiSerial × List SpCall
unfolding open_first
open_auto lib baud s calls =
    let fresh = record s { port = none; baud = baud } in
    elim (lib.list_ports calls) [
      | none ↦ (false, fresh, lists_ports false ∷ calls)
      | some ports ↦
          let (kept, tried) = open_first lib baud ports (lists_ports true ∷ calls) in
          elim kept [
            | none ↦ (false, fresh, frees_port_list ∷ tried)
            | some k ↦ (
              true,
              record fresh { port = some k.0; port_name = take 255 k.1 },
              frees_port_list ∷ tried,
            )
          ]
    ]

-- gui_serial_open_auto
unfoldable pub serial_open_auto :
    SerialPorts → ℕ → Option GuiSerial → List SpCall → Bool × Option GuiSerial × List SpCall
unfolding open_auto
serial_open_auto lib baud none calls = (false, none, calls)
serial_open_auto lib baud (some s) calls =
    let (answer, s', calls') = open_auto lib baud s calls in (answer, some s', calls')

-- gui_serial_close of a serial port that is there
unfoldable pub close : GuiSerial → List SpCall → GuiSerial × List SpCall
close s calls = elim s.port [
  | none ↦ (record s { port_name = [] }, calls)
  | some p ↦
      (record s { port = none; port_name = [] }, frees_port (some p) ∷ closes_port (some p) ∷ calls)
]

-- gui_serial_close
unfoldable pub serial_close : Option GuiSerial → List SpCall → Option GuiSerial × List SpCall
unfolding close
serial_close none calls = (none, calls)
serial_close (some s) calls = let (s', calls') = close s calls in (some s', calls')

-- The loop of gui_serial_reconnect on fuel; says whether it has ended.
unfoldable pub open_until :
    (fuel : ℕ) → SerialPorts → ℕ → GuiSerial → List SpCall → Bool × GuiSerial × List SpCall
unfolding open_auto
open_until zero lib baud s calls = (false, s, calls)
open_until (suc fuel) lib baud s calls =
    let (answer, s', calls') = open_auto lib baud s calls in
    elim answer [
      | true ↦ (true, s', calls')
      | false ↦ open_until fuel lib baud s' (sleeps_500_ms ∷ calls')
    ]

unfoldable pub reconnect :
    (fuel : ℕ) → SerialPorts → GuiSerial → List SpCall → Bool × GuiSerial × List SpCall
unfolding close open_until
reconnect fuel lib s calls =
    let (closed, calls') = close s calls in open_until fuel lib s.baud closed calls'

-- From sp_nonblocking_read to the end of a round of gui_serial_read: the result with the bytes read, or `none` to
-- reconnect and go round.
unfoldable pub read_once :
    SerialPorts → ℕ → GuiSerial → List SpCall → Option (ℤ × List ℕ) × List SpCall
unfolding port_is_healthy
read_once lib len s calls =
    let (result, bytes) = lib.nonblocking_read calls s.port len in
    let called = reads_port s.port len ∷ calls in
    if not (leb_ℤ result (pos 0))
    then (some (result, bytes), called)
    else (if eq_ℤ result (pos 0) then zero_answer bytes called else (none, called))
  where
    zero_answer : List ℕ → List SpCall → Option (ℤ × List ℕ) × List SpCall
    zero_answer bytes called =
        let (healthy, seen) = port_is_healthy lib (some s) called in
        (if healthy then some (pos 0, bytes) else none, seen)

abbrev pub with_port :
    (fuel : ℕ) → SerialPorts → GuiSerial → List SpCall → Bool × GuiSerial × List SpCall
with_port fuel lib s calls = elim s.port [
  | none ↦ reconnect fuel lib s calls
  | some p ↦ (true, s, calls)
]

-- The loop of gui_serial_read on fuel: no result while it has not ended.
unfoldable pub read_until :
    (fuel : ℕ)
    → SerialPorts
    → ℕ
    → GuiSerial
    → List SpCall
    → Option (ℤ × List ℕ) × GuiSerial × List SpCall
unfolding reconnect read_once
read_until zero lib len s calls = (none, s, calls)
read_until (suc fuel) lib len s calls =
    let (on, s1, calls1) = with_port fuel lib s calls in
    elim on [
      | false ↦ (none, s1, calls1)
      | true ↦
          let (answer, calls2) = read_once lib len s1 calls1 in
          elim answer [
            | some r ↦ (some r, s1, calls2)
            | none ↦
                let (again, s3, calls3) = reconnect fuel lib s1 calls2 in
                elim again [ false ↦ (none, s3, calls3) | true ↦ read_until fuel lib len s3 calls3 ]
          ]
    ]

-- gui_serial_read into a buffer, which is `none` for a null pointer
unfoldable pub serial_read :
    (fuel : ℕ)
    → SerialPorts
    → Option GuiSerial
    → (buffer : Option (List ℕ)) → (len : ℕ) → List SpCall
    → Option (ℤ × List ℕ) × Option GuiSerial × List SpCall
unfolding read_until
serial_read fuel lib none buffer len calls = (some (negsuc 0, []), none, calls)
serial_read fuel lib (some s) none len calls = (some (negsuc 0, []), some s, calls)
serial_read fuel lib (some s) (some b) len calls =
    let (answer, s', calls') = read_until fuel lib len s calls in (answer, some s', calls')

-- gui_serial_write
unfoldable pub serial_write :
    SerialPorts → Option GuiSerial → Option (List ℕ) → List SpCall → ℤ × List SpCall
serial_write lib none buffer calls = (negsuc 0, calls)
serial_write lib (some s) none calls = (negsuc 0, calls)
serial_write lib (some s) (some b) calls = elim s.port [
  | none ↦ (negsuc 0, calls)
  | some p ↦ (lib.blocking_write calls (some p) b, writes_port (some p) b 100 ∷ calls)
]

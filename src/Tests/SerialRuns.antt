-- ===== src/Tests/SerialRuns.antt =====
-- The serial port on the host, with a target that is plugged in during the first sleep and that a first read finds
-- gone.
use tinyrtos.Prelude.{
  false, ◌+◌, ℕ, zero, suc, ◌≡◌, refl, List, [], ◌∷◌, Option, none, some, true, ℤ, pos, negsuc,
  codes,
}
use tinyrtos.Gui.Serial.{
  SpCall, SerialPorts, GuiSerial, Listed, serial_open_auto, reconnect, open_auto, reads_port,
  closes_port, frees_port, writes_port, frees_port_list, set_up, opens_port, copies_port,
  lists_ports, sleeps_500_ms, port_name_matches, serial_read, serial_write, serial_close,
  read_until, read_once, open_until, close, open_first,
}
use tinyrtos.Gui.Serial.Account.{audit, settled, nothing, Grants}
use tinyrtos.Gui.Serial.Use.{
  serial_op, SerialOp, reads, writes, closes, use_serial, held_by, serial_keeps_protocol,
}
use tinyrtos.Gui.Serial.Plugged.{sleeps, Plugged}

abbrev other_port : Listed
other_port = record { listed_port = 1; listed_name = some (codes "/dev/ttyS0") }

abbrev pub target : Listed
target = record { listed_port = 2; listed_name = some (codes "/dev/ttyACM0") }

abbrev ports_after : ℕ → List Listed
ports_after zero = other_port ∷ []
ports_after (suc n) = other_port ∷ target ∷ []

abbrev answer_after : ℕ → ℤ × List ℕ
answer_after zero = (negsuc 0, [])
answer_after (suc n) = (pos 1, 65 ∷ [])

-- The copy of port 2 is port 7; the first read fails, the next ones find a byte.
abbrev host : SerialPorts
host = record {
  list_ports = λ calls. some (ports_after (sleeps calls));
  copy_port = λ calls p. some (p + 5);
  open_port = λ calls p. true;
  set_baudrate = λ calls p baud. true;
  set_bits = λ calls p bits. true;
  set_no_parity = λ calls p. true;
  set_stopbits = λ calls p bits. true;
  set_no_flowcontrol = λ calls p. true;
  get_signals = λ calls p. true;
  nonblocking_read = λ calls p len. answer_after (sleeps calls);
  blocking_write = λ calls p bytes. pos 1;
}

abbrev pub unset_serial : GuiSerial
unset_serial = record { port = none; baud = 0; port_name = [] }

host-Grants : Grants host
host-Grants = record {
  baudrate = λ calls p baud. refl;
  bits = λ calls p bits. refl;
  no_parity = λ calls p. refl;
  stopbits = λ calls p bits. refl;
  no_flowcontrol = λ calls p. refl;
}

abbrev plugged_serial : GuiSerial
plugged_serial = record { port = some 7; baud = 115_200; port_name = codes "/dev/ttyACM0" }

-- At first only another port is there, so that the port is not opened; the read waits for the target.
abbrev read_write_close : List SerialOp
read_write_close = reads (some (0 ∷ [])) 1 ∷ writes (some (66 ∷ [])) ∷ closes ∷ []

abbrev after_open : Option GuiSerial × List SpCall
after_open = let first = serial_open_auto host 921_600 (some unset_serial) [] in (first.1, first.2)

serial_run : use_serial 3 host read_write_close after_open ≡ (
  some (record { port = none; baud = 921_600; port_name = [] }),
  frees_port (some 7)
      ∷ closes_port (some 7)
      ∷ writes_port (some 7) (66 ∷ []) 100
      ∷ reads_port (some 7) 1
      ∷ frees_port_list
      ∷ set_up host 7 921_600 (
          opens_port 7 true
          ∷ copies_port (some 7)
          ∷ lists_ports true
          ∷ sleeps_500_ms
          ∷ frees_port_list
          ∷ lists_ports true
          ∷ frees_port_list
          ∷ lists_ports true
          ∷ []),
)
unfolding use_serial serial_open_auto serial_op serial_read serial_write serial_close read_until
    reconnect read_once open_until close open_auto open_first port_name_matches
serial_run = refl

serial_keeps_protocol_example :
    audit true (use_serial 3 host read_write_close after_open).1
    ≡ settled (held_by (use_serial 3 host read_write_close after_open).0)
serial_keeps_protocol_example =
    serial_keeps_protocol 3 true host (λ e. host-Grants) 921_600 (some unset_serial)
      read_write_close

-- A port that refuses its baud rate is used nevertheless.
abbrev refusing : SerialPorts
refusing = record host { set_baudrate = λ calls p baud. false }

abbrev after_refusal : Option GuiSerial × List SpCall
after_refusal =
    let first = serial_open_auto refusing 921_600 (some unset_serial) [] in
    use_serial 3 refusing read_write_close (first.1, first.2)

refused_run : (audit true after_refusal.1 ≡ none) × (audit false after_refusal.1 ≡ settled nothing)
unfolding use_serial serial_open_auto serial_op serial_read serial_write serial_close read_until
    reconnect read_once open_until close open_auto open_first port_name_matches
refused_run = (refl, refl)

-- A port that was open and is lost.
abbrev calls_of_lost : List SpCall
calls_of_lost =
    frees_port_list
    ∷ set_up host 7 115_200 (opens_port 7 true ∷ copies_port (some 7) ∷ lists_ports true ∷ [])

-- ===== src/Gui/Serial/Use.antt =====
-- A program that opens its serial port once and then calls the other functions of
-- examples/gui/renderer/src/serial.c in any order.
use tinyrtos.Prelude.{
  ℕ, ◌≡◌, refl, ap, ◌∙◌, List, [], ◌∷◌, Option, none, some, Bool, true, inl, inr,
}
use tinyrtos.Gui.Serial.{
  SpCall, SerialPorts, GuiSerial, open_auto, serial_open_auto, serial_read, serial_write,
  serial_close,
}
use tinyrtos.Gui.Serial.Account.{Held, nothing, audit, settled, held_of, Grants}
use tinyrtos.Gui.Serial.Reading.{read_until-audit}
use tinyrtos.Gui.Serial.Protocol.{Option-cases, same_port, open_auto-audit, close-audit}

-- A call of gui_serial_read, gui_serial_write or gui_serial_close.
pub data SerialOp : Type 0 where
  reads : (buffer : Option (List ℕ)) → (len : ℕ) → SerialOp
  writes : (buffer : Option (List ℕ)) → SerialOp
  closes : SerialOp

unfoldable pub serial_op :
    (fuel : ℕ)
    → SerialPorts
    → SerialOp
    → Option GuiSerial × List SpCall
    → Option GuiSerial × List SpCall
unfolding serial_read serial_write serial_close
serial_op fuel lib (reads buffer len) (s, calls) =
    let (answer, s', calls') = serial_read fuel lib s buffer len calls in (s', calls')
serial_op fuel lib (writes buffer) (s, calls) = (s, (serial_write lib s buffer calls).1)
serial_op fuel lib closes (s, calls) = serial_close s calls

unfoldable pub use_serial :
    (fuel : ℕ)
    → SerialPorts
    → List SerialOp
    → Option GuiSerial × List SpCall
    → Option GuiSerial × List SpCall
unfolding serial_op
use_serial fuel lib [] b = b
use_serial fuel lib (op ∷ ops) b = use_serial fuel lib ops (serial_op fuel lib op b)

abbrev pub held_by : Option GuiSerial → Held
held_by none = nothing
held_by (some s) = held_of s

serial_op-audit :
    (fuel : ℕ) (heed : Bool) (lib : SerialPorts) (grants : heed ≡ true → Grants lib) (op : SerialOp)
    (b : Option GuiSerial × List SpCall)
    → audit heed b.1 ≡ settled (held_by b.0)
    → audit heed (serial_op fuel lib op b).1 ≡ settled (held_by (serial_op fuel lib op b).0)
unfolding serial_op serial_read serial_write serial_close
serial_op-audit fuel heed lib grants (reads buffer len) (none, calls) a = a
serial_op-audit fuel heed lib grants (reads none len) (some s, calls) a = a
serial_op-audit fuel heed lib grants (reads (some b) len) (some s, calls) a =
    read_until-audit fuel heed lib grants len s calls a
serial_op-audit fuel heed lib grants (writes buffer) (none, calls) a = a
serial_op-audit fuel heed lib grants (writes none) (some s, calls) a = a
serial_op-audit fuel heed lib grants (writes (some b)) (some s, calls) a =
    elim (Option-cases s.port) [
      | inl e ↦ rw (serial_write, e) (a ∙ rw (held_of, e) refl)
      | inr (p, e) ↦ rw (serial_write, e, a, held_of, e, same_port p) refl
    ]
serial_op-audit fuel heed lib grants closes (none, calls) a = a
serial_op-audit fuel heed lib grants closes (some s, calls) a =
    let (balance, free, same) = close-audit heed s calls a in
    balance ∙ ap settled (rw (held_of, free) refl)

use_serial-audit :
    (fuel : ℕ) (heed : Bool) (lib : SerialPorts) (grants : heed ≡ true → Grants lib)
    (ops : List SerialOp) (b : Option GuiSerial × List SpCall)
    → audit heed b.1 ≡ settled (held_by b.0)
    → audit heed (use_serial fuel lib ops b).1 ≡ settled (held_by (use_serial fuel lib ops b).0)
unfolding use_serial
use_serial-audit fuel heed lib grants [] b a = a
use_serial-audit fuel heed lib grants (op ∷ ops) b a =
    use_serial-audit fuel heed lib grants ops (serial_op fuel lib op b)
      (serial_op-audit fuel heed lib grants op b a)

-- Whatever libserialport answers, and wherever a waiting loop is looked at: a program that calls gui_serial_open_auto
-- first, and then gui_serial_read, gui_serial_write and gui_serial_close in any order, keeps to the protocol of
-- libserialport. Each list of ports is freed before the next call that waits or lists, each copy of a port is freed,
-- after it is closed if it was opened, and a port is used only while it is open, and after eight bits, no parity, one
-- stop bit and no flow control have been asked for. Between two functions the port of gui_serial_t is the one port held,
-- with its baud rate asked for. If libserialport grants every setting (`heed`), the port is so set up whenever it is
-- used, and has that baud rate.
pub serial_keeps_protocol :
    (fuel : ℕ) (heed : Bool) (lib : SerialPorts) (grants : heed ≡ true → Grants lib) (baud : ℕ)
    (s : Option GuiSerial) (ops : List SerialOp)
    → let first = serial_open_auto lib baud s [] in
      let out = use_serial fuel lib ops (first.1, first.2) in
      audit heed out.1 ≡ settled (held_by out.0)
unfolding serial_open_auto
serial_keeps_protocol fuel heed lib grants baud none ops =
    use_serial-audit fuel heed lib grants ops (none, []) refl
serial_keeps_protocol fuel heed lib grants baud (some s) ops =
    let first = open_auto-audit heed lib grants baud s [] refl in
    use_serial-audit fuel heed lib grants ops
      (some (open_auto lib baud s []).1, (open_auto lib baud s []).2) first.balance

-- ===== src/Gui/Host/Stream.antt =====
-- The bytes of the line through gui_serial_read and the parser, in the inner loop of
-- examples/gui/renderer/src/main.c.
use tinyrtos.Prelude.{
  ℕ, zero, suc, ◌<◌, ◌≡◌, refl, sym, subst, ap, List, [], ◌∷◌, ◌++◌, length, Option, some, Bool,
  true, ℤ, pos, arith,
}
use tinyrtos.Gui.Serial.{
  SpCall, SerialPorts, GuiSerial, Listed, any_named, serial_read, read_until, read_once,
  port_is_healthy, port_still_exists, reads_port, lists_ports, frees_port_list, gets_signals,
}
use tinyrtos.Gui.Parser.{Rx, Draw, feed, feed_all}
use tinyrtos.Gui.Host.{Host, take_answer, read_bytes}

-- How often the program has read.
abbrev pub and_read : SpCall → ℕ → ℕ
and_read c k = elim c [ SpCall.reads_port p len ↦ suc k | _ ↦ k ]

abbrev pub read_count : List SpCall → ℕ
read_count [] = 0
read_count (c ∷ calls) = and_read c (read_count calls)

-- What is left of a line after `k` reads.
abbrev pub unread : ℕ → List ℕ → List ℕ
unread zero bytes = bytes
unread (suc k) [] = []
unread (suc k) (b ∷ bytes) = unread k bytes

-- A read of one byte: the next one, or no byte.
abbrev pub next_byte : List ℕ → ℤ × List ℕ
next_byte [] = (pos 0, [])
next_byte (b ∷ bytes) = (pos 1, b ∷ [])

-- A line that brings `bytes` and then no more to the port `p`, which stays listed under the name `name` and in order.
pub record Brings (bytes : List ℕ) (p : ℕ) (name : List ℕ) (lib : SerialPorts) : Type 0 where
  pub byte_read :
      (calls : List SpCall)
      → lib.nonblocking_read calls (some p) 1 ≡ next_byte (unread (read_count calls) bytes)
  pub listed :
      (calls : List SpCall)
      → (ports : List Listed) × (lib.list_ports calls ≡ some ports) × (any_named name ports ≡ true)
  pub in_order : (calls : List SpCall) → lib.get_signals calls (some p) ≡ true

unread-more :
    (k : ℕ) (bytes : List ℕ) {b : ℕ} {rest : List ℕ}
    → unread k bytes ≡ b ∷ rest
    → unread (suc k) bytes ≡ rest
unread-more zero [] e = cc
unread-more zero (c ∷ bytes) e = cc
unread-more (suc k) [] e = cc
unread-more (suc k) (c ∷ bytes) e = unread-more k bytes e

abbrev pub open_serial : (p baud : ℕ) → List ℕ → GuiSerial
open_serial p baud name = record { port = some p; baud = baud; port_name = name }

module _ {bytes : List ℕ} {lib : SerialPorts} {p c : ℕ} {name : List ℕ} (baud : ℕ)
    (line : Brings bytes p (c ∷ name) lib) where
  still_there :
      (calls : List SpCall)
      → port_is_healthy lib (some (open_serial p baud (c ∷ name))) calls
        ≡ (true, gets_signals (some p) ∷ frees_port_list ∷ lists_ports true ∷ calls)
  unfolding port_is_healthy port_still_exists
  still_there calls =
      let (ports, e, n) = line.listed calls in
      let seen = frees_port_list ∷ lists_ports true ∷ calls in
      let exists_now : port_still_exists lib (c ∷ name) calls ≡ (true, seen) =
        rw (port_still_exists, e, n) refl in
      rw (exists_now, line.in_order seen) refl

  once_byte :
      (calls : List SpCall) (b : ℕ) (rest : List ℕ)
      → unread (read_count calls) bytes ≡ b ∷ rest
      → read_once lib 1 (open_serial p baud (c ∷ name)) calls
        ≡ (some (pos 1, b ∷ []), reads_port (some p) 1 ∷ calls)
  unfolding read_once
  once_byte calls b rest e = rw (line.byte_read calls, e) refl

  once_none :
      (calls : List SpCall)
      → unread (read_count calls) bytes ≡ []
      → read_once lib 1 (open_serial p baud (c ∷ name)) calls ≡ (
        some (pos 0, []),
        gets_signals (some p) ∷ frees_port_list ∷ lists_ports true ∷ reads_port (some p) 1 ∷ calls,
      )
  unfolding read_once
  once_none calls e = rw (line.byte_read calls, e, still_there (reads_port (some p) 1 ∷ calls)) refl

  read_byte :
      (waiting : ℕ) (calls : List SpCall) (b : ℕ) (rest : List ℕ)
      → unread (read_count calls) bytes ≡ b ∷ rest
      → read_until (suc waiting) lib 1 (open_serial p baud (c ∷ name)) calls
        ≡ (some (pos 1, b ∷ []), open_serial p baud (c ∷ name), reads_port (some p) 1 ∷ calls)
  unfolding read_until
  read_byte waiting calls b rest e =
      let once = once_byte calls b rest e in
      rw (read_until, once)
        (ap
          (λ (o : Option (ℤ × List ℕ) × List SpCall).
            (some (pos 1, b ∷ []), open_serial p baud (c ∷ name), o.1))
          once)

  read_no_byte :
      (waiting : ℕ) (calls : List SpCall)
      → unread (read_count calls) bytes ≡ []
      → read_until (suc waiting) lib 1 (open_serial p baud (c ∷ name)) calls ≡ (
        some (pos 0, []),
        open_serial p baud (c ∷ name),
        gets_signals (some p) ∷ frees_port_list ∷ lists_ports true ∷ reads_port (some p) 1 ∷ calls,
      )
  unfolding read_until
  read_no_byte waiting calls e =
      let once = once_none calls e in
      rw (read_until, once)
        (ap
          (λ (o : Option (ℤ × List ℕ) × List SpCall).
            (some (pos 0, []), open_serial p baud (c ∷ name), o.1))
          once)

  through :
      (waiting : ℕ) (calls : List SpCall) {answer : Option (ℤ × List ℕ)} {s : GuiSerial}
      {after : List SpCall}
      → read_until (suc waiting) lib 1 (open_serial p baud (c ∷ name)) calls ≡ (answer, s, after)
      → serial_read (suc waiting) lib (some (open_serial p baud (c ∷ name))) (some (0 ∷ [])) 1 calls
        ≡ (answer, some s, after)
  unfolding serial_read
  through waiting calls e =
      ap (λ (o : Option (ℤ × List ℕ) × GuiSerial × List SpCall). (o.0, some o.1, o.2)) e

  -- The inner loop has ended with the port as it was, and has fed `rest` to the parser `r`.
  pub record Fed (rest : List ℕ) (r : Rx) (out : Bool × Host × List Draw) : Type 0 where
    pub ended : out.0 ≡ true
    pub rx_is : out.1.rx ≡ (feed_all rest r).0
    pub serial_is : out.1.serial ≡ open_serial p baud (c ∷ name)
    pub drawing_is : out.2 ≡ (feed_all rest r).1

  pub read_bytes_from :
      (rest : List ℕ) (fuel waiting : ℕ) (calls : List SpCall) (r : Rx)
      → unread (read_count calls) bytes ≡ rest
      → length rest < fuel
      → let h : Host = record { serial = open_serial p baud (c ∷ name); calls = calls; rx = r } in
        Fed rest r (read_bytes fuel (suc waiting) lib h)
  unfolding read_bytes feed_all
  read_bytes_from rest zero waiting calls r e enough = absurd (omega arith)
  read_bytes_from [] (suc fuel) waiting calls r e enough =
      let h : Host = record { serial = open_serial p baud (c ∷ name); calls = calls; rx = r } in
      subst (λ o. Fed [] r (take_answer h (read_bytes fuel (suc waiting) lib) o))
        (sym (through waiting calls (read_no_byte waiting calls e)))
        (record { ended = refl; rx_is = refl; serial_is = refl; drawing_is = refl })
  read_bytes_from (b ∷ rest) (suc fuel) waiting calls r e enough =
      let h : Host = record { serial = open_serial p baud (c ∷ name); calls = calls; rx = r } in
      let more =
        read_bytes_from rest fuel waiting (reads_port (some p) 1 ∷ calls) (feed b r).0
          (unread-more (read_count calls) bytes e) (omega (arith, enough)) in
      subst (λ o. Fed (b ∷ rest) r (take_answer h (read_bytes fuel (suc waiting) lib) o))
        (sym (through waiting calls (read_byte waiting calls b rest e)))
        (record {
          ended = more.ended;
          rx_is = more.rx_is;
          serial_is = more.serial_is;
          drawing_is = ap (λ (l : List Draw). (feed b r).1 ++ l) more.drawing_is;
        })

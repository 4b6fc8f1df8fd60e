-- ===== src/Gui/Serial/Reading.antt =====
-- gui_serial_read of examples/gui/renderer/src/serial.c keeps to the protocol of libserialport.
use tinyrtos.Prelude.{
  ℕ, zero, suc, ◌≡◌, refl, ◌∙◌, List, ◌∷◌, some, Bool, true, pos, Bool-cases, inl, inr, not, leb_ℤ,
  eq_ℤ,
}
use tinyrtos.Gui.Serial.{
  SpCall, SerialPorts, GuiSerial, reconnect, port_still_exists, port_is_healthy, read_once,
  with_port, read_until, reads_port,
}
use tinyrtos.Gui.Serial.Account.{audit, settled, held_of, Grants}
use tinyrtos.Gui.Serial.Protocol.{Option-cases, same_port, port_still_exists-audit, reconnect-audit}

port_is_healthy-audit :
    (heed : Bool) (lib : SerialPorts) (grants : heed ≡ true → Grants lib) (s : GuiSerial)
    (calls : List SpCall)
    → audit heed calls ≡ settled (held_of s)
    → audit heed (port_is_healthy lib (some s) calls).1 ≡ settled (held_of s)
unfolding port_is_healthy
port_is_healthy-audit heed lib grants s calls a = elim (Option-cases s.port) [
  | inl e ↦ rw (port_is_healthy, e) (a ∙ rw (held_of, e) refl)
  | inr (p, e) ↦
      let seen = port_still_exists-audit heed lib grants s.port_name calls a in
      elim (Bool-cases (port_still_exists lib s.port_name calls).0) [
        | inl on ↦ rw (port_is_healthy, e, on, seen, held_of, e, same_port p) refl
        | inr off ↦ rw (port_is_healthy, e, off) (seen ∙ rw (held_of, e) refl)
      ]
]

read_once-audit :
    (heed : Bool) (lib : SerialPorts) (grants : heed ≡ true → Grants lib) (len p : ℕ)
    (s : GuiSerial) (calls : List SpCall)
    → s.port ≡ some p
    → audit heed calls ≡ settled (held_of s)
    → audit heed (read_once lib len s calls).1 ≡ settled (held_of s)
unfolding read_once
read_once-audit heed lib grants len p s calls e a =
    let result = (lib.nonblocking_read calls s.port len).0 in
    let called : audit heed (reads_port s.port len ∷ calls) ≡ settled (held_of s) =
      rw (a, held_of, e, same_port p) refl in
    elim (Bool-cases (not (leb_ℤ result (pos 0)))) [
      | inl some_bytes ↦ rw (read_once, some_bytes) called
      | inr no_byte ↦ elim (Bool-cases (eq_ℤ result (pos 0))) [
        | inl quiet ↦
            rw (read_once, no_byte, quiet)
              (port_is_healthy-audit heed lib grants s (reads_port s.port len ∷ calls) called)
        | inr failed ↦ rw (read_once, no_byte, failed) called
      ]
    ]

with_port-audit :
    (fuel : ℕ) (heed : Bool) (lib : SerialPorts) (grants : heed ≡ true → Grants lib) (s : GuiSerial)
    (calls : List SpCall)
    → audit heed calls ≡ settled (held_of s)
    → (audit heed (with_port fuel lib s calls).2 ≡ settled (held_of (with_port fuel lib s calls).1))
      × ((with_port fuel lib s calls).0 ≡ true
          → (p : ℕ) × ((with_port fuel lib s calls).1.port ≡ some p))
with_port-audit fuel heed lib grants s calls a = elim (Option-cases s.port) [
  | inl e ↦
      let there = reconnect-audit fuel heed lib grants s calls a in
      rw (with_port, e) (there.balance, there.port_there)
  | inr (p, e) ↦ rw (with_port, e) (a, λ t. (p, e))
]

pub read_until-audit :
    (fuel : ℕ) (heed : Bool) (lib : SerialPorts) (grants : heed ≡ true → Grants lib) (len : ℕ)
    (s : GuiSerial) (calls : List SpCall)
    → audit heed calls ≡ settled (held_of s)
    → audit heed (read_until fuel lib len s calls).2
      ≡ settled (held_of (read_until fuel lib len s calls).1)
unfolding read_until
read_until-audit zero heed lib grants len s calls a = a
read_until-audit (suc fuel) heed lib grants len s calls a =
    let (balance, there) = with_port-audit fuel heed lib grants s calls a in
    let s1 = (with_port fuel lib s calls).1 in
    let calls1 = (with_port fuel lib s calls).2 in
    elim (Bool-cases (with_port fuel lib s calls).0) [
      | inr off ↦ rw (read_until, off) balance
      | inl on ↦
          let (p, e) = there on in
          let once = read_once-audit heed lib grants len p s1 calls1 e balance in
          elim (Option-cases (read_once lib len s1 calls1).0) [
            | inr (r, done) ↦ rw (read_until, on, done) once
            | inl lost ↦
                let again =
                  reconnect-audit fuel heed lib grants s1 (read_once lib len s1 calls1).1 once in
                elim (Bool-cases (reconnect fuel lib s1 (read_once lib len s1 calls1).1).0) [
                  | inr off ↦ rw (read_until, on, lost, off) again.balance
                  | inl back ↦
                      rw (read_until, on, lost, back)
                        (read_until-audit fuel heed lib grants len _ _ again.balance)
                ]
          ]
    ]

-- ===== src/Gui/Serial/Protocol.antt =====
-- The functions of examples/gui/renderer/src/serial.c that open and close keep to the protocol of libserialport.
use tinyrtos.Prelude.{
  ℕ, zero, suc, ◌≡◌, refl, ap, ◌∙◌, ◌⊎◌, List, [], ◌∷◌, Option, none, some, Bool, true, false, ◌==◌,
  Bool-cases, inl, inr, arith, ◌||◌, if◌then◌else◌,
}
use tinyrtos.Gui.Serial.{
  SpCall, SerialPorts, GuiSerial, Listed, set_up, try_port, open_first, open_auto, close,
  open_until, reconnect, port_still_exists, port_name_matches, opens_port, lists_ports,
  sleeps_500_ms, copies_port,
}
use tinyrtos.Gui.Serial.Account.{
  Account, Held, nothing, opened, copied, Settings, unset, line_settings, audit, settled, held_of,
  Grants,
}

abbrev owing : Held → Option Account
owing h = some (record { list_owed = true; held = h })

pub Option-cases {ℓ} : {A : Type ℓ} (o : Option A) → (o ≡ none) ⊎ ((x : A) × (o ≡ some x))
Option-cases none = inl refl
Option-cases (some x) = inr (x, refl)

pub same_port : (p : ℕ) → (p == p) ≡ true
same_port p = ground arith

pub port_still_exists-audit :
    (heed : Bool) (lib : SerialPorts) (grants : heed ≡ true → Grants lib) (name : List ℕ)
    (calls : List SpCall) {h : Held}
    → audit heed calls ≡ settled h
    → audit heed (port_still_exists lib name calls).1 ≡ settled h
unfolding port_still_exists
port_still_exists-audit heed lib grants [] calls a = a
port_still_exists-audit heed lib grants (c ∷ name) calls a =
    elim (Option-cases (lib.list_ports calls)) [
      | inl e ↦ rw (port_still_exists, e, a) refl
      | inr (ports, e) ↦ rw (port_still_exists, e, a) refl
    ]

any_or_true : (b : Bool) → (b || true) ≡ true
any_or_true true = refl
any_or_true false = refl

set_up-audit :
    (heed : Bool) (lib : SerialPorts)
    → (heed ≡ true → Grants lib)
    → (p baud : ℕ) (s : Settings) (calls : List SpCall) → audit heed calls ≡ owing (opened p s)
    → audit heed (set_up lib p baud calls) ≡ owing (opened p (line_settings baud))
set_up-audit false lib grants p baud s calls a =
    let same = same_port p in
    let made = any_or_true in
    rw (a, same, made, same, made, same, made, same, made, same, made) refl
set_up-audit true lib grants p baud s calls a =
    let same = same_port p in
    let g = grants refl in
    rw
      (
        a, same, g.baudrate, same, g.bits, same, g.no_parity, same, g.stopbits, same,
        g.no_flowcontrol,
      )
      refl

abbrev kept_held : ℕ → Option ℕ → Held
kept_held baud none = nothing
kept_held baud (some p) = opened p (line_settings baud)

opened-audit :
    (heed : Bool) (port : ℕ) (ok : Bool) (calls : List SpCall)
    → audit heed calls ≡ owing nothing
    → audit heed (opens_port port ok ∷ copies_port (some port) ∷ calls)
      ≡ owing (if ok then opened port unset else copied port)
opened-audit heed port ok calls a = rw (a, same_port port) refl

try_port-audit :
    (heed : Bool) (lib : SerialPorts) (grants : heed ≡ true → Grants lib) (baud : ℕ) (p : Listed)
    (calls : List SpCall)
    → audit heed calls ≡ owing nothing
    → audit heed (try_port lib baud p calls).1
      ≡ owing (kept_held baud (try_port lib baud p calls).0)
try_port-audit heed lib grants baud p calls a =
    elim (Option-cases (lib.copy_port calls p.listed_port)) [
      | inl e ↦ rw (try_port, e, a) refl
      | inr (port, e) ↦ elim (Bool-cases (lib.open_port (copies_port (some port) ∷ calls) port)) [
        | inl on ↦
            rw (try_port, e, on)
              (set_up-audit heed lib grants port baud unset
                (opens_port port true ∷ copies_port (some port) ∷ calls)
                (opened-audit heed port true calls a))
        | inr off ↦ rw (try_port, e, off, opened-audit heed port false calls a, same_port port) refl
      ]
    ]

abbrev named_held : ℕ → Option (ℕ × List ℕ) → Held
named_held baud none = nothing
named_held baud (some k) = opened k.0 (line_settings baud)

open_first-audit :
    (heed : Bool) (lib : SerialPorts) (grants : heed ≡ true → Grants lib) (baud : ℕ)
    (ps : List Listed) (calls : List SpCall)
    → audit heed calls ≡ owing nothing
    → audit heed (open_first lib baud ps calls).1
      ≡ owing (named_held baud (open_first lib baud ps calls).0)
unfolding open_first
open_first-audit heed lib grants baud [] calls a = a
open_first-audit heed lib grants baud (p ∷ ps) calls a =
    elim (Bool-cases (port_name_matches p.listed_name)) [
      | inr other ↦ rw (open_first, other) (open_first-audit heed lib grants baud ps calls a)
      | inl matches ↦
          let tried = try_port-audit heed lib grants baud p calls a in
          elim (Option-cases (try_port lib baud p calls).0) [
            | inl e ↦
                rw (open_first, matches, e)
                  (open_first-audit heed lib grants baud ps _
                    (tried ∙ ap (λ o. owing (kept_held baud o)) e))
            | inr (port, e) ↦
                rw (open_first, matches, e) (tried ∙ ap (λ o. owing (kept_held baud o)) e)
          ]
    ]

-- What opening a port leaves, or a loop that does: the books balance, and a port is there just if it has been opened.
pub record Opens (heed : Bool) (baud : ℕ) (out : Bool × GuiSerial × List SpCall) : Type 0 where
  pub balance : audit heed out.2 ≡ settled (held_of out.1)
  pub port_there : out.0 ≡ true → (p : ℕ) × (out.1.port ≡ some p)
  pub no_port : out.0 ≡ false → out.1.port ≡ none
  pub baud_is : out.1.baud ≡ baud

pub open_auto-audit :
    (heed : Bool) (lib : SerialPorts) (grants : heed ≡ true → Grants lib) (baud : ℕ) (s : GuiSerial)
    (calls : List SpCall)
    → audit heed calls ≡ settled nothing
    → Opens heed baud (open_auto lib baud s calls)
unfolding open_auto
open_auto-audit heed lib grants baud s calls a = elim (Option-cases (lib.list_ports calls)) [
  | inl e ↦
      rw (open_auto, e)
        (record { balance = rw a refl; port_there = λ t. cc; no_port = λ t. refl; baud_is = refl })
  | inr (ports, e) ↦
      let found =
        open_first-audit heed lib grants baud ports (lists_ports true ∷ calls) (rw a refl) in
      elim (Option-cases (open_first lib baud ports (lists_ports true ∷ calls)).0) [
        | inl n ↦
            rw (open_auto, e, n)
              (record {
                balance = rw (found, n) refl;
                port_there = λ t. cc;
                no_port = λ t. refl;
                baud_is = refl;
              })
        | inr (k, n) ↦
            rw (open_auto, e, n)
              (record {
                balance = rw (found, n) refl;
                port_there = λ t. (k.0, refl);
                no_port = λ t. cc;
                baud_is = refl;
              })
      ]
]

pub close-audit :
    (heed : Bool) (s : GuiSerial) (calls : List SpCall)
    → audit heed calls ≡ settled (held_of s)
    → (audit heed (close s calls).1 ≡ settled nothing)
      × ((close s calls).0.port ≡ none)
      × ((close s calls).0.baud ≡ s.baud)
unfolding close
close-audit heed s calls a = elim (Option-cases s.port) [
  | inl e ↦ rw (close, e) (a ∙ rw (held_of, e) refl, e, refl)
  | inr (p, e) ↦ rw (close, e) (rw (a, held_of, e, same_port p, same_port p) refl, refl, refl)
]

open_until-audit :
    (fuel : ℕ) (heed : Bool) (lib : SerialPorts) (grants : heed ≡ true → Grants lib) (baud : ℕ)
    (s : GuiSerial) (calls : List SpCall)
    → audit heed calls ≡ settled nothing
    → s.port ≡ none
    → s.baud ≡ baud
    → Opens heed baud (open_until fuel lib baud s calls)
unfolding open_until
open_until-audit zero heed lib grants baud s calls a e b = record {
  balance = a ∙ rw (held_of, e) refl;
  port_there = λ t. cc;
  no_port = λ t. e;
  baud_is = b;
}
open_until-audit (suc fuel) heed lib grants baud s calls a e b =
    let once = open_auto-audit heed lib grants baud s calls a in
    elim (Bool-cases (open_auto lib baud s calls).0) [
      | inl on ↦
          rw (open_until, on)
            (record {
              balance = once.balance;
              port_there = λ t. once.port_there on;
              no_port = λ t. cc;
              baud_is = once.baud_is;
            })
      | inr off ↦
          let free = once.no_port off in
          let asleep : audit heed (sleeps_500_ms ∷ (open_auto lib baud s calls).2)
              ≡ settled nothing =
            rw (once.balance, held_of, free) refl in
          rw (open_until, off)
            (open_until-audit fuel heed lib grants baud (open_auto lib baud s calls).1
              (sleeps_500_ms ∷ (open_auto lib baud s calls).2) asleep free once.baud_is)
    ]

pub reconnect-audit :
    (fuel : ℕ) (heed : Bool) (lib : SerialPorts) (grants : heed ≡ true → Grants lib) (s : GuiSerial)
    (calls : List SpCall)
    → audit heed calls ≡ settled (held_of s)
    → Opens heed s.baud (reconnect fuel lib s calls)
unfolding reconnect
reconnect-audit fuel heed lib grants s calls a =
    let (balance, free, same) = close-audit heed s calls a in
    open_until-audit fuel heed lib grants s.baud (close s calls).0 (close s calls).1 balance free
      same

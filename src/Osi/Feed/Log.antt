-- ===== src/Osi/Feed/Log.antt =====
-- What a bounded list of bytes makes of the events of Osi.Feed (src/osi/osi.c): the specification.
use Prim.Native.Nat.{bit_and}
use mathlib.Core.List.{append-nil, append_assoc}
use tinyrtos.Prelude.{
  ℕ, ◌+◌, ◌≤◌, ◌≡◌, refl, sym, ap, ◌∙◌, List, [], ◌∷◌, ◌++◌, map, length, length-append, Option,
  none, some, Bool, false, leb, if◌then◌else◌, arith, not, ◌==◌, ◌%◌,
}
use tinyrtos.Kernel.{Kernel}
use tinyrtos.Bsp.Usart3.{Masks}
use tinyrtos.Osi.Feed.{Event, interrupt, round}

-- The byte of an interrupt, if there is one.
abbrev pub byte_of : Masks → (isr rdr : ℕ) → Option ℕ
byte_of m isr rdr = if bit_and isr m.rxne == 0 then none else some (rdr % 256)

-- What a queue of `n` bytes that holds `pending` makes of the events: the bytes that the shell takes, each with the
-- kernels that its command's reads find, those that are left, and those that the queue had room for.
pub record Log : Type 0 where
  pub taken : List (ℕ × (ℕ → Kernel))
  pub left : List ℕ
  pub accepted : List ℕ

abbrev pub enters : (n : ℕ) → List ℕ → Option ℕ → Bool
enters n pending none = false
enters n pending (some c) = not (leb n (length pending))

abbrev pub one : Option ℕ → List ℕ
one none = []
one (some c) = c ∷ []

unfoldable pub feed : Masks → (n : ℕ) → List Event → List ℕ → Log
feed m n [] pending = record { taken = []; left = pending; accepted = [] }
feed m n (interrupt isr rdr k ∷ es) pending =
    let entered = if enters n pending (byte_of m isr rdr) then one (byte_of m isr rdr) else [] in
    let rest = feed m n es (pending ++ entered) in
    record rest { accepted = entered ++ rest.accepted }
feed m n (round c k reads ∷ es) [] = feed m n es []
feed m n (round c k reads ∷ es) (b ∷ pending) =
    let rest = feed m n es pending in record rest { taken = (b, reads) ∷ rest.taken }

-- The bytes of the interrupts, whether the queue had room or not.
abbrev pub arrived : Masks → List Event → List ℕ
arrived m [] = []
arrived m (interrupt isr rdr k ∷ es) = one (byte_of m isr rdr) ++ arrived m es
arrived m (round c k reads ∷ es) = arrived m es

pub conserved :
    (m : Masks) (n : ℕ) (es : List Event) (pending : List ℕ)
    → let log = feed m n es pending in
      map (λ (x : ℕ × (ℕ → Kernel)). x.0) log.taken ++ log.left ≡ pending ++ log.accepted
unfolding feed
conserved m n [] pending = sym (append-nil pending)
conserved m n (interrupt isr rdr k ∷ es) pending =
    let entered = if enters n pending (byte_of m isr rdr) then one (byte_of m isr rdr) else [] in
    conserved m n es (pending ++ entered) ∙ append_assoc pending entered _
conserved m n (round c k reads ∷ es) [] = conserved m n es []
conserved m n (round c k reads ∷ es) (b ∷ pending) = ap (λ l. b ∷ l) (conserved m n es pending)

entered_all :
    (n : ℕ) (pending : List ℕ) (x : Option ℕ)
    → length pending + length (one x) ≤ n
    → (if enters n pending x then one x else []) ≡ one x
entered_all n pending none fits = refl
entered_all n pending (some c) fits = ground arith

pub all_accepted :
    (m : Masks) (n : ℕ) (es : List Event) (pending : List ℕ)
    → length pending + length (arrived m es) ≤ n
    → (feed m n es pending).accepted ≡ arrived m es
unfolding feed
all_accepted m n [] pending fits = refl
all_accepted m n (interrupt isr rdr k ∷ es) pending fits =
    let byte = byte_of m isr rdr in
    let enough : length pending + (length (one byte) + length (arrived m es)) ≤ n =
      omega (arith, length-append (one byte) (arrived m es)) in
    let e = entered_all n pending byte (omega (arith, enough)) in
    let rest =
      all_accepted m n es (pending ++ one byte)
        (omega (arith, enough, length-append pending (one byte))) in
    rw e (ap (λ (l : List ℕ). one byte ++ l) rest)
all_accepted m n (round c k reads ∷ es) [] fits = all_accepted m n es [] fits
all_accepted m n (round c k reads ∷ es) (b ∷ pending) fits =
    all_accepted m n es pending (omega arith)

-- ===== src/Gui/Encoded.antt =====
-- The bytes that send_cmd of examples/gui/src/primitives.c writes: a frame around the payload.
use Prim.Native.Nat.{bit_xor}
use tinyrtos.Prelude.{
  ℕ, suc, ◌+◌, ◌%◌, ◌≤◌, ◌<◌, ◌≡◌, refl, sym, ap, ◌∙◌, List, [], ◌∷◌, ◌++◌, some, true, get_or,
  take, length, length-append, length-set, take-suc, take-set, take-all, get_or-take, length-take,
  subst, ap₂, for_range_inv, arith,
}
use mathlib.Core.List.{append-nil, append_assoc}
use tinyrtos.Gui.{gui_sof0, gui_sof1}
use tinyrtos.Gui.Primitives.{checksum, Packet, push, header, with_payload, send_cmd}

-- The checksum of a list of bytes, from the value `c` on.
abbrev pub xor_all : ℕ → List ℕ → ℕ
xor_all c [] = c
xor_all c (b ∷ bs) = xor_all (bit_xor c b) bs

pub xor_all-append :
    (c : ℕ) (bs : List ℕ) (b : ℕ) → xor_all c (bs ++ b ∷ []) ≡ bit_xor (xor_all c bs) b
xor_all-append c [] b = refl
xor_all-append c (d ∷ bs) b = xor_all-append (bit_xor c d) bs b

-- A frame on the wire.
abbrev pub frame : (cmd : ℕ) → List ℕ → List ℕ
frame cmd payload =
    gui_sof0 ∷ gui_sof1 ∷ cmd ∷ length payload ∷ payload
    ++ xor_all 0 (cmd ∷ length payload ∷ payload) ∷ []

-- The packet holds the bytes `bs`, and has room for 32.
record Written (bs : List ℕ) (p : Packet) : Type 0 where
  pub counted : p.n ≡ length bs
  pub room : length p.bytes ≡ 32
  pub kept : take p.n p.bytes ≡ bs

Written-push :
    (bs : List ℕ) (b : ℕ) (p : Packet)
    → Written bs p
    → length bs < 32
    → Written (bs ++ b ∷ []) (push b p)
unfolding push
Written-push bs b p w h =
    let next : (p.n + 1) % 256 ≡ suc p.n = omega (arith, w.counted) in
    record {
      counted = omega (arith, w.counted, length-append bs (b ∷ []));
      room = length-set p.bytes p.n b ∙ w.room;
      kept = rw next (
          take-set p.n p.bytes b (omega (arith, w.counted, w.room))
          ∙ ap (λ (l : List ℕ). l ++ b ∷ []) w.kept);
    }

Written-header :
    (garbage : List ℕ) (cmd len : ℕ)
    → length garbage ≡ 32
    → Written (gui_sof0 ∷ gui_sof1 ∷ cmd ∷ len ∷ []) (header garbage cmd len)
unfolding header
Written-header garbage cmd len h =
    Written-push _ _ _
      (Written-push _ _ _
        (Written-push _ _ _
          (Written-push [] gui_sof0 _ (record { counted = refl; room = h; kept = refl })
            (omega arith))
          (omega arith))
        (omega arith))
      (omega arith)

Written-with_payload :
    (bs payload : List ℕ) (p : Packet)
    → Written bs p
    → length bs + length payload ≤ 32
    → Written (bs ++ payload) (with_payload payload (length payload) p)
unfolding with_payload
Written-with_payload bs payload p w h =
    let r =
      for_range_inv (λ k q. Written (bs ++ take k payload) q) (λ i q. push (get_or payload i 0) q)
        (length payload) 0 (length payload) p (omega arith) (λ k q lo hi wq. step k q hi wq)
        (rw (append-nil bs) w) in
    rw (take-all (length payload) payload refl) at r
  where
    step :
        (k : ℕ) (q : Packet)
        → k < length payload
        → Written (bs ++ take k payload) q
        → Written (bs ++ take (suc k) payload) (push (get_or payload k 0) q)
    step k q hi wq =
        let w' =
          Written-push (bs ++ take k payload) (get_or payload k 0) q wq (
            omega
              (arith, length-append bs (take k payload), length-take k payload (omega arith))) in
        let e : (bs ++ take k payload) ++ get_or payload k 0 ∷ [] ≡ bs ++ take (suc k) payload =
          append_assoc bs (take k payload) (get_or payload k 0 ∷ [])
          ∙ ap (λ (l : List ℕ). bs ++ l) (sym (take-suc k payload 0 hi)) in
        subst (λ l. Written l (push (get_or payload k 0) q)) e w'

checksum-xor_all :
    (bs buf : List ℕ) (a b : ℕ)
    → take (2 + length bs) buf ≡ a ∷ b ∷ bs
    → checksum buf 2 (length bs) ≡ xor_all 0 bs
unfolding checksum
checksum-xor_all bs buf a b e =
    let r =
      for_range_inv (λ k c. c ≡ xor_all 0 (take k bs)) (λ i c. bit_xor c (get_or buf (2 + i) 0))
        (length bs) 0 (length bs) 0 (omega arith) (λ k c lo hi ih. step k c hi ih) refl in
    rw (take-all (length bs) bs refl) at r
  where
    byte : (k : ℕ) → k < length bs → get_or buf (2 + k) 0 ≡ get_or bs k 0
    byte k hi =
        let two : 2 + k ≡ suc (suc k) = omega arith in
        sym (get_or-take (2 + length bs) (2 + k) buf 0 (omega arith))
        ∙ ap (λ (l : List ℕ). get_or l (2 + k) 0) e
        ∙ ap (λ (j : ℕ). get_or (a ∷ b ∷ bs) j 0) two

    step :
        (k c : ℕ)
        → k < length bs
        → c ≡ xor_all 0 (take k bs)
        → bit_xor c (get_or buf (2 + k) 0) ≡ xor_all 0 (take (suc k) bs)
    step k c hi ih =
        ap₂ bit_xor ih (byte k hi)
        ∙ sym (xor_all-append 0 (take k bs) (get_or bs k 0))
        ∙ ap (xor_all 0) (sym (take-suc k bs 0 hi))

pub send_cmd-frame :
    (garbage : List ℕ) (cmd : ℕ) (payload : List ℕ)
    → length garbage ≡ 32
    → length payload ≤ 27
    → send_cmd true garbage cmd payload (length payload) ≡ some (frame cmd payload)
unfolding send_cmd push
send_cmd-frame garbage cmd payload g h =
    let n = length payload in
    let body = gui_sof0 ∷ gui_sof1 ∷ cmd ∷ n ∷ payload in
    let filled = with_payload payload n (header garbage cmd n) in
    let w : Written body filled =
      Written-with_payload (gui_sof0 ∷ gui_sof1 ∷ cmd ∷ n ∷ []) payload (header garbage cmd n)
        (Written-header garbage cmd n g) (omega arith) in
    let two : 2 + n ≡ suc (suc n) = omega arith in
    let size : filled.n ≡ 2 + (2 + n) = omega (arith, w.counted) in
    let sum : checksum filled.bytes 2 (2 + n) ≡ xor_all 0 (cmd ∷ n ∷ payload) = rw two (
      checksum-xor_all (cmd ∷ n ∷ payload) filled.bytes gui_sof0 gui_sof1
        (rw (← two, ← size) w.kept)) in
    let done = Written-push body (xor_all 0 (cmd ∷ n ∷ payload)) filled w (omega arith) in
    ap some (ap (λ (c : ℕ). take (push c filled).n (push c filled).bytes) sum ∙ done.kept)

-- ===== src/Gui/Noise.antt =====
-- Frames of the GUI example that arrive damaged, or after a stray byte:
-- examples/gui/renderer/src/parser.c.
use Prim.Native.Nat.{bit_xor}
use tinyrtos.Prelude.{
  ℕ, zero, suc, ◌≤◌, ◌<◌, ◌≡◌, ◌≢◌, refl, sym, ap, ◌∙◌, List, [], ◌∷◌, ◌++◌, Bool, false, ◌==◌,
  if◌then◌else◌, get_or, set, length, length-set, subst, bit_xor_cancel_left, bit_xor_cancel_right,
  arith,
}
use tinyrtos.Gui.{gui_sof0, gui_sof1}
use tinyrtos.Gui.Parser.{
  Rx, RxState, rx_sof0, rx_sof1, rx_len0, rx_checksum, exec_cmd, feed_in, feed, feed_all,
}
use tinyrtos.Gui.Encoded.{xor_all, frame}
use tinyrtos.Gui.Received.{
  filled, ended, feed_all-append, feed_all_quiet, feed_all-nil, start_received, body_received,
}

xor_all_cancel : (c c' : ℕ) (bs : List ℕ) → xor_all c bs ≡ xor_all c' bs → c ≡ c'
xor_all_cancel c c' [] e = e
xor_all_cancel c c' (b ∷ bs) e =
    bit_xor_cancel_right c c' b (xor_all_cancel (bit_xor c b) (bit_xor c' b) bs e)

-- The checksum tells two payloads apart that differ in one byte.
xor_all-set :
    (c : ℕ) (bs : List ℕ) (i v : ℕ)
    → i < length bs
    → v ≢ get_or bs i 0
    → xor_all c (set bs i v) ≢ xor_all c bs
xor_all-set c [] i v lt ne = elim lt [ ]
xor_all-set c (b ∷ bs) zero v lt ne =
    λ e. ne (bit_xor_cancel_left v b c (xor_all_cancel (bit_xor c v) (bit_xor c b) bs e))
xor_all-set c (b ∷ bs) (suc i) v lt ne = xor_all-set (bit_xor c b) bs i v (omega arith) ne

-- A checksum that does not fit has nothing done.
sum_refused :
    (r : Rx) (b : ℕ)
    → r.state ≡ rx_checksum
    → b ≢ r.checksum
    → feed_all (b ∷ []) r ≡ (record r { state = rx_sof0 }, [])
unfolding feed
sum_refused r b e ne =
    let differs : (b == r.checksum) ≡ false = ground arith in
    feed_all_quiet b [] r (record r { state = rx_sof0 })
      (ap (λ (s : RxState). feed_in s b r) e
        ∙ ap (λ (t : Bool). (record r { state = rx_sof0 }, if t then exec_cmd r else [])) differs)
    ∙ feed_all-nil _

wrong_sum_ignored :
    (r : Rx) (cmd : ℕ) (bs : List ℕ) (sum : ℕ)
    → r.state ≡ rx_sof0
    → length bs ≤ 32
    → sum ≢ xor_all 0 (cmd ∷ length bs ∷ bs)
    → feed_all (gui_sof0 ∷ gui_sof1 ∷ cmd ∷ length bs ∷ bs ++ sum ∷ []) r ≡ (ended r cmd bs, [])
wrong_sum_ignored r cmd bs sum e h ne =
    start_received r cmd (length bs ∷ bs ++ sum ∷ []) e
    ∙ feed_all-append (length bs ∷ bs) (sum ∷ [])
        (record r { cmd = cmd; checksum = cmd; state = rx_len0 })
    ∙ rw (body_received r cmd bs h) (sum_refused (filled r cmd bs) sum refl ne)

-- A frame with byte `i` of its payload turned into `v`.
abbrev pub damaged : (cmd : ℕ) (payload : List ℕ) (i v : ℕ) → List ℕ
damaged cmd payload i v =
    gui_sof0 ∷ gui_sof1 ∷ cmd ∷ length payload ∷ set payload i v
    ++ xor_all 0 (cmd ∷ length payload ∷ payload) ∷ []

-- A frame of which one payload byte has changed on the line draws nothing, and the parser is then
-- between two frames again, with the renderer as it was.
pub damaged_frame_ignored :
    (r : Rx) (cmd : ℕ) (payload : List ℕ) (i v : ℕ)
    → r.state ≡ rx_sof0
    → length payload ≤ 32
    → i < length payload
    → v ≢ get_or payload i 0
    → feed_all (damaged cmd payload i v) r ≡ (ended r cmd (set payload i v), [])
damaged_frame_ignored r cmd payload i v e h lt ne =
    let n = length-set payload i v in
    let sum = xor_all 0 (cmd ∷ length payload ∷ payload) in
    subst
      (λ (m : ℕ).
        feed_all (gui_sof0 ∷ gui_sof1 ∷ cmd ∷ m ∷ set payload i v ++ sum ∷ []) r
        ≡ (ended r cmd (set payload i v), []))
      n
      (wrong_sum_ignored r cmd (set payload i v) sum e (omega (arith, n)) (
        rw n
          (λ q. xor_all-set (bit_xor (bit_xor 0 cmd) (length payload)) payload i v lt ne (sym q))))

-- No byte of the list is the first start byte.
abbrev pub NoStart : List ℕ → Type 0
NoStart [] = Unit {0}
NoStart (b ∷ bs) = (b ≢ gui_sof0) × NoStart bs

skipped : (r : Rx) (bs : List ℕ) → r.state ≡ rx_sof0 → NoStart bs → feed_all bs r ≡ (r, [])
unfolding feed
skipped r [] e h = feed_all-nil r
skipped r (b ∷ bs) e h =
    let other : (b == gui_sof0) ≡ false = ground arith in
    feed_all_quiet b bs r r (
      ap (λ (s : RxState). feed_in s b r) e
      ∙ ap (λ (t : Bool). (if t then record r { state = rx_sof1 } else r, [])) other)
    ∙ skipped r bs e h.1

-- A stray start byte just before a frame has the parser miss the whole frame, if no later byte of
-- the frame is a start byte too: nothing is drawn, and the parser is between two frames.
pub stray_start_loses_frame :
    (r : Rx) (cmd : ℕ) (payload : List ℕ)
    → r.state ≡ rx_sof0
    → NoStart (cmd ∷ length payload ∷ payload ++ xor_all 0 (cmd ∷ length payload ∷ payload) ∷ [])
    → feed_all (gui_sof0 ∷ frame cmd payload) r ≡ (record r { state = rx_sof0 }, [])
unfolding feed
stray_start_loses_frame r cmd payload e h =
    let rest = cmd ∷ length payload ∷ payload ++ xor_all 0 (cmd ∷ length payload ∷ payload) ∷ [] in
    feed_all_quiet gui_sof0 (gui_sof0 ∷ gui_sof1 ∷ rest) r (record r { state = rx_sof1 })
      (ap (λ (s : RxState). feed_in s gui_sof0 r) e)
    ∙ feed_all_quiet gui_sof0 (gui_sof1 ∷ rest) (record r { state = rx_sof1 })
        (record r { state = rx_sof0 }) refl
    ∙ feed_all_quiet gui_sof1 rest (record r { state = rx_sof0 }) (record r { state = rx_sof0 })
        refl
    ∙ skipped (record r { state = rx_sof0 }) rest refl h

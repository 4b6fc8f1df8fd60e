-- ===== src/Gui/Received.antt =====
-- What gui_protocol_feed of examples/gui/renderer/src/parser.c makes of the bytes of a frame.
use Prim.Native.Nat.{bit_xor, bit_xor-bitwise}
use tinyrtos.Prelude.{
  ℕ, suc, ◌+◌, ◌%◌, ◌≤◌, ◌<◌, ◌≡◌, refl, sym, ap, ◌∙◌, List, [], ◌∷◌, ◌++◌, Bool, true, false, ◌==◌,
  leb, ltb, if◌then◌else◌, set, length, store, arith,
}
use mathlib.Core.List.{append_assoc, append-nil}
use tinyrtos.Gui.Parser.{
  Rx, RxState, rx_sof0, rx_sof1, rx_cmd, rx_len0, rx_payload, rx_checksum, Draw, exec_cmd, feed_in,
  feed, feed_all,
}
use tinyrtos.Gui.{gui_sof0, gui_sof1}
use tinyrtos.Gui.Encoded.{xor_all, frame}

-- The parser inside a payload.
abbrev inside : (renderer : Bool) (cmd len index checksum : ℕ) (payload : List ℕ) → Rx
inside renderer cmd len index checksum payload = record {
  renderer = renderer;
  state = rx_payload;
  cmd = cmd;
  len = len;
  index = index;
  checksum = checksum;
  payload = payload;
}

-- The parser in front of the checksum.
abbrev complete : (renderer : Bool) (cmd len index checksum : ℕ) (payload : List ℕ) → Rx
complete renderer cmd len index checksum payload = record {
  renderer = renderer;
  state = rx_checksum;
  cmd = cmd;
  len = len;
  index = index;
  checksum = checksum;
  payload = payload;
}

pub feed_all-nil : (r : Rx) → feed_all [] r ≡ (r, [])
unfolding feed_all
feed_all-nil r = refl

-- A byte that makes the renderer draw nothing.
pub feed_all_quiet :
    (b : ℕ) (bs : List ℕ) (r r' : Rx) → feed b r ≡ (r', []) → feed_all (b ∷ bs) r ≡ feed_all bs r'
unfolding feed_all
feed_all_quiet b bs r r' e = rw e

module _ (renderer : Bool) (cmd len : ℕ) where
  payload_byte :
      (index chk : ℕ) (payload : List ℕ) (b : ℕ)
      → index < len
      → len ≤ 32
      → feed b (inside renderer cmd len index chk payload) ≡ (
        record (inside renderer cmd len (suc index) (bit_xor chk b) (set payload index b)) {
          state = if leb len (suc index) then rx_checksum else rx_payload;
        },
        [],
      )
  unfolding feed
  payload_byte index chk payload b lt le =
      let e : (index + 1) % 256 ≡ suc index = omega arith in rw e

  payload_received :
      (index chk : ℕ) (payload : List ℕ) (b : ℕ) (bs : List ℕ)
      → index + suc (length bs) ≡ len
      → len ≤ 32
      → feed_all (b ∷ bs) (inside renderer cmd len index chk payload)
        ≡ (complete renderer cmd len len (xor_all chk (b ∷ bs)) (store payload index (b ∷ bs)), [])
  payload_received index chk payload b [] e le =
      let last : suc index ≡ len = omega arith in
      let full : leb len (suc index) ≡ true = ground arith in
      let s =
        feed_all_quiet b [] (inside renderer cmd len index chk payload) _
          (payload_byte index chk payload b (omega arith) le) in
      s
      ∙ feed_all-nil _
      ∙ (rw full (
          ap (λ (j : ℕ). (complete renderer cmd len j (bit_xor chk b) (set payload index b), []))
            last))
  payload_received index chk payload b (b' ∷ bs) e le =
      let more : leb len (suc index) ≡ false = ground arith in
      let s =
        feed_all_quiet b (b' ∷ bs) (inside renderer cmd len index chk payload) _
          (payload_byte index chk payload b (omega arith) le) in
      s
      ∙ rw more (
          payload_received (suc index) (bit_xor chk b) (set payload index b) b' bs (omega arith) le)

pub feed_all-append :
    (xs ys : List ℕ) (r : Rx)
    → feed_all (xs ++ ys) r
      ≡ ((feed_all ys (feed_all xs r).0).0, (feed_all xs r).1 ++ (feed_all ys (feed_all xs r).0).1)
unfolding feed_all
feed_all-append [] ys r = refl
feed_all-append (x ∷ xs) ys r = rw (feed_all-append xs ys (feed x r).0, append_assoc)

-- The parser after a frame with the command `cmd` and the bytes `bs`, in front of the checksum.
abbrev pub filled : Rx → (cmd : ℕ) → List ℕ → Rx
filled r cmd bs =
    complete r.renderer cmd (length bs) (length bs) (xor_all 0 (cmd ∷ length bs ∷ bs))
      (store r.payload 0 bs)

-- The parser once it has taken the checksum.
abbrev pub ended : Rx → (cmd : ℕ) → List ℕ → Rx
ended r cmd bs = record (filled r cmd bs) { state = rx_sof0 }

pub start_received :
    (r : Rx) (cmd : ℕ) (rest : List ℕ)
    → r.state ≡ rx_sof0
    → feed_all (gui_sof0 ∷ gui_sof1 ∷ cmd ∷ rest) r
      ≡ feed_all rest (record r { cmd = cmd; checksum = cmd; state = rx_len0 })
unfolding feed
start_received r cmd rest e =
    feed_all_quiet gui_sof0 (gui_sof1 ∷ cmd ∷ rest) r (record r { state = rx_sof1 })
      (ap (λ (s : RxState). feed_in s gui_sof0 r) e)
    ∙ feed_all_quiet gui_sof1 (cmd ∷ rest) (record r { state = rx_sof1 })
        (record r { state = rx_cmd }) refl
    ∙ feed_all_quiet cmd rest (record r { state = rx_cmd })
        (record r { cmd = cmd; checksum = cmd; state = rx_len0 }) refl

pub body_received :
    (r : Rx) (cmd : ℕ) (bs : List ℕ)
    → length bs ≤ 32
    → feed_all (length bs ∷ bs) (record r { cmd = cmd; checksum = cmd; state = rx_len0 })
      ≡ (filled r cmd bs, [])
unfolding feed
body_received r cmd [] h =
    let sum : bit_xor 0 cmd ≡ cmd = bit_xor-bitwise 0 cmd in
    feed_all_quiet 0 [] (record r { cmd = cmd; checksum = cmd; state = rx_len0 }) _ refl
    ∙ feed_all-nil _
    ∙ ap (λ (c : ℕ). (complete r.renderer cmd 0 0 (bit_xor c 0) r.payload, [])) (sym sum)
body_received r cmd (b ∷ bs) h =
    let sum : bit_xor 0 cmd ≡ cmd = bit_xor-bitwise 0 cmd in
    let n = length (b ∷ bs) in
    let fits : ltb 32 n ≡ false = ground arith in
    let some_bytes : (n == 0) ≡ false = ground arith in
    feed_all_quiet n (b ∷ bs) (record r { cmd = cmd; checksum = cmd; state = rx_len0 })
      (inside r.renderer cmd n 0 (bit_xor cmd n) r.payload) (rw (fits, some_bytes))
    ∙ payload_received r.renderer cmd n 0 (bit_xor cmd n) r.payload b bs (omega arith) h
    ∙ ap
        (λ (c : ℕ). (
          complete r.renderer cmd n n (xor_all (bit_xor c n) (b ∷ bs)) (store r.payload 0 (b ∷ bs)),
          [],
        ))
        (sym sum)

-- The checksum that fits has the command done.
sum_received :
    (r : Rx)
    → r.state ≡ rx_checksum
    → feed_all (r.checksum ∷ []) r ≡ (record r { state = rx_sof0 }, exec_cmd r)
unfolding feed_all
sum_received r e =
    let same : (r.checksum == r.checksum) ≡ true = ground arith in
    let fed : feed r.checksum r ≡ (record r { state = rx_sof0 }, exec_cmd r) =
      ap (λ (s : RxState). feed_in s r.checksum r) e
      ∙ ap (λ (t : Bool). (record r { state = rx_sof0 }, if t then exec_cmd r else [])) same in
    rw fed (ap (λ (l : List Draw). (record r { state = rx_sof0 }, l)) (append-nil (exec_cmd r)))

-- A frame makes the renderer do its command, and leaves the parser ready for the next one.
pub frame_received :
    (r : Rx) (cmd : ℕ) (bs : List ℕ)
    → r.state ≡ rx_sof0
    → length bs ≤ 32
    → feed_all (frame cmd bs) r ≡ (ended r cmd bs, exec_cmd (filled r cmd bs))
unfolding feed
frame_received r cmd bs e h =
    let sum = xor_all 0 (cmd ∷ length bs ∷ bs) in
    start_received r cmd (length bs ∷ bs ++ sum ∷ []) e
    ∙ feed_all-append (length bs ∷ bs) (sum ∷ [])
        (record r { cmd = cmd; checksum = cmd; state = rx_len0 })
    ∙ rw (body_received r cmd bs h) (sum_received (filled r cmd bs) refl)

-- ===== src/ReadLoop/Bounds.antt =====
-- What the loop keeps and hands on, on any stream: sizes within the limit.
use wispurr.Base.{
  if_intro, ℕ, zero, suc, ◌+◌, ◌-◌, ◌/◌, ◌%◌, ◌^◌, ◌≤◌, ◌<◌, ◌≡◌, refl, List, [], ◌∷◌, ◌++◌, Bool,
  false, ◌&&◌, ◌||◌, not, Option, some, ◌==◌, leb, ltb, length, take, get_or, if◌then◌else◌, arith,
  length-take, length-append,
}
use wispurr.Masking.{MaskKey, mask_xor}
use wispurr.Masking.Length.{length-mask_xor}
use wispurr.FrameReader.{FrameReader, peek, consume}
use wispurr.FrameReader.Fill.{Inv, stream, ltb-false}
use wispurr.FrameReader.Reads.{
  Peeked, sees, short_of, PayloadRead, reads, too_short, peek_lem, consume_lem, read_payload_lem,
}
use wispurr.ReadLoop.{
  Loop, Handed, nothing, wisp_frame, ping, Round, next, stop, dispatch, on_payload, read_sized,
  on_header, on_start, round, header_len, payload_len, mask_key, continuation, binary, closing,
}

pub record IsBounded (limit : ℕ) (l : Loop) : Type 0 where
  pub sound : Inv l.reader
  pub fragments : length l.fragmented ≤ limit

abbrev pub Fits : ℕ → Handed → Type 0
Fits limit nothing = Unit {0}
Fits limit (wisp_frame packet) = length packet ≤ limit
Fits limit (ping payload) = length payload ≤ 125

abbrev pub RoundFits : ℕ → Round → Type 0
RoundFits limit (stop code) = Unit {0}
RoundFits limit (next l h) = IsBounded limit l × Fits limit h

continuation_fits :
    (limit : ℕ) (l : Loop) (fin : Bool) (payload : List ℕ)
    → limit < 2 ^ 63
    → IsBounded limit l
    → length payload ≤ limit
    → RoundFits limit (continuation limit l fin payload)
unfolding continuation
continuation_fits limit l fin payload b v h =
    if_intro (RoundFits limit) (l.fragmented_opcode == 0) _ _ (λ e. tt)
      (λ e.
        if_intro (RoundFits limit) (ltb limit ((length l.fragmented + length payload) % 2 ^ 64)) _ _
          (λ k. tt)
          (λ k.
            let total : length (l.fragmented ++ payload) ≤ limit = omega (
              arith,
              b,
              v.fragments,
              h,
              ltb-false limit ((length l.fragmented + length payload) % 2 ^ 64) k,
              length-append l.fragmented payload,
            ) in
            if_intro (RoundFits limit) fin _ _
              (λ f. (record { sound = v.sound; fragments = omega arith }, total))
              (λ f. (record { sound = v.sound; fragments = total }, tt))))

binary_fits :
    (limit : ℕ) (l : Loop) (fin : Bool) (payload : List ℕ)
    → IsBounded limit l
    → length payload ≤ limit
    → RoundFits limit (binary l fin payload)
unfolding binary
binary_fits limit l fin payload v h =
    if_intro (RoundFits limit) (not (l.fragmented_opcode == 0)) _ _ (λ e. tt)
      (λ e.
        if_intro (RoundFits limit) fin _ _ (λ f. (v, h))
          (λ f. (record { sound = v.sound; fragments = h }, tt)))

closing_fits : (limit : ℕ) (payload : List ℕ) → RoundFits limit (closing payload)
unfolding closing
closing_fits limit [] = tt
closing_fits limit (c ∷ []) = tt
closing_fits limit (c ∷ d ∷ cs) = tt

dispatch_fits :
    (limit : ℕ) (l : Loop) (fin : Bool) (opcode : ℕ) (payload : List ℕ)
    → limit < 2 ^ 63
    → IsBounded limit l
    → length payload ≤ limit
    → (8 ≤ opcode → length payload ≤ 125)
    → RoundFits limit (dispatch limit l fin opcode payload)
unfolding dispatch
dispatch_fits limit l fin opcode payload b v h c =
    if_intro (RoundFits limit) (opcode == 0) _ _ (λ e. continuation_fits limit l fin payload b v h)
      (λ e0.
        if_intro (RoundFits limit) (opcode == 2) _ _ (λ e. binary_fits limit l fin payload v h)
          (λ e2.
            if_intro (RoundFits limit) (opcode == 1) _ _ (λ e. tt)
              (λ e1.
                if_intro (RoundFits limit) (opcode == 9) _ _ (λ e. (v, c (ground arith)))
                  (λ e9.
                    if_intro (RoundFits limit) (opcode == 10) _ _ (λ e. (v, tt))
                      (λ e10.
                        if_intro (RoundFits limit) (opcode == 8) _ _
                          (λ e. closing_fits limit payload) (λ e8. tt))))))

length-unmasked :
    (payload : List ℕ) (key : MaskKey)
    → length (if ltb 0 (length payload) then mask_xor payload key else payload) ≡ length payload
length-unmasked payload key = ground (arith, length-mask_xor payload key)

on_payload_fits :
    (limit n opcode : ℕ) (l : Loop) (fin : Bool) (key : MaskKey) (f : FrameReader)
    (o : Option (List ℕ × FrameReader))
    → limit < 2 ^ 63
    → IsBounded limit l
    → n ≤ limit
    → (8 ≤ opcode → n ≤ 125)
    → PayloadRead n f o
    → RoundFits limit (on_payload limit l fin opcode key o)
unfolding on_payload
on_payload_fits limit n opcode l fin key f o b v h c (too_short s) = tt
on_payload_fits limit n opcode l fin key f o b v h c (reads g sound same) =
    dispatch_fits limit (record l { reader = g }) fin opcode _ b
      (record { sound = sound; fragments = v.fragments }) (omega (arith, h, len))
      (λ e. omega (arith, c e, len))
  where
    len :
        length (
          if ltb 0 (length (take n (stream f)))
          then mask_xor (take n (stream f)) key
          else take n (stream f))
        ≤ n
    len = omega (arith, length-unmasked (take n (stream f)) key, length-take n (stream f))

read_sized_lem : (n : ℕ) (f : FrameReader) → Inv f → PayloadRead n f (read_sized n f)
unfolding read_sized
read_sized_lem zero f v = reads f v refl
read_sized_lem (suc n) f v =
    if_intro (PayloadRead (suc n) f) (ltb 0 (suc n)) _ _ (λ e. read_payload_lem (suc n) f v)
      (λ e. absurd (ground arith))

control_short :
    (opcode n : ℕ) (fin : Bool)
    → (leb 8 opcode && (not fin || ltb 125 n)) ≡ false
    → 8 ≤ opcode
    → n ≤ 125
control_short opcode n fin e h = ground arith

on_header_fits :
    (limit b0 b1 : ℕ) (l : Loop) (hdr : List ℕ) (g : FrameReader)
    → limit < 2 ^ 63
    → IsBounded limit l
    → Inv g
    → header_len (b1 % 128) ≤ g.w - g.r
    → RoundFits limit (on_header limit l b0 b1 (some (hdr, g)))
unfolding on_header
on_header_fits limit b0 b1 l hdr g b v sound room =
    let n = payload_len (b1 % 128) hdr in
    if_intro (RoundFits limit) (b1 % 128 == 127 && leb 128 (get_or hdr 2 0)) _ _ (λ e. tt)
      (λ e.
        if_intro (RoundFits limit) (leb 8 (b0 % 16) && (not (leb 128 b0) || ltb 125 n)) _ _
          (λ k. tt)
          (λ control.
            if_intro (RoundFits limit) (ltb limit n) _ _ (λ k. tt)
              (λ allowed.
                on_payload_fits limit n (b0 % 16) l (leb 128 b0)
                  (mask_key (header_len (b1 % 128)) hdr) (consume (header_len (b1 % 128)) g) _ b v
                  (ltb-false limit n allowed) (control_short (b0 % 16) n (leb 128 b0) control)
                  (read_sized_lem n _ (consume_lem (header_len (b1 % 128)) g sound room).0))))

header_fits :
    (limit b0 b1 : ℕ) (l : Loop) (f : FrameReader) (o : Option (List ℕ × FrameReader))
    → limit < 2 ^ 63
    → IsBounded limit l
    → Peeked (header_len (b1 % 128)) f o
    → RoundFits limit (on_header limit l b0 b1 o)
header_fits limit b0 b1 l f o b v (sees g sound same room) =
    on_header_fits limit b0 b1 l (take (header_len (b1 % 128)) (stream f)) g b v sound room
header_fits limit b0 b1 l f o b v (short_of s) = unfold on_header in tt

header_len_lem : (code : ℕ) → header_len code ≤ 14
unfolding header_len
header_len_lem code = ground arith

on_start_fits :
    (limit : ℕ) (l : Loop) (o : Option (List ℕ × FrameReader))
    → limit < 2 ^ 63
    → IsBounded limit l
    → Peeked 2 l.reader o
    → RoundFits limit (on_start limit l o)
unfolding on_start
on_start_fits limit l o b v (short_of s) = tt
on_start_fits limit l o b v (sees g sound same room) =
    let hdr = take 2 (stream l.reader) in
    let b0 = get_or hdr 0 0 in
    let b1 = get_or hdr 1 0 in
    if_intro (RoundFits limit) (not (b0 / 16 % 8 == 0) || not (leb 128 b1)) _ _ (λ e. tt)
      (λ e.
        header_fits limit b0 b1 l g _ b v
          (peek_lem (header_len (b1 % 128)) g sound (header_len_lem (b1 % 128))))

-- From a sound reader with no more fragments kept than a limit below 2 ^ 63, on any stream, a round
-- that goes on leaves them so, and hands on no packet longer than the limit and no ping longer than
-- 125 bytes.
pub round_fits :
    (limit : ℕ) (l : Loop) → limit < 2 ^ 63 → IsBounded limit l → RoundFits limit (round limit l)
unfolding round
round_fits limit l b v =
    on_start_fits limit l (peek 2 l.reader) b v (peek_lem 2 l.reader v.sound (omega arith))

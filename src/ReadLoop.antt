-- ===== src/ReadLoop.antt =====
-- The WebSocket side of a connection: readLoop, maxPayloadSize and handleWispFrame of wisp/wsreader.go.
-- A round of the loop reads one frame, and goes on, with what it hands to the rest of the program, or
-- stops, with the code of the closing frame that it sends, if it sends one. Of a byte `b`, `b & 0x80`
-- is tested as 128 ≤ b, `b & 0x7F` is b % 128, `b & 0x0F` is b % 16, and `b & 0x70` is zero when
-- b / 16 % 8 is. Payload buffers come from a pool and go back to it, which is left out.
pub mod Decode
pub mod Rounds
pub mod Bounds
pub mod Gate
use wispurr.Base.{
  ℕ, zero, suc, ◌+◌, ◌-◌, ◌*◌, ◌/◌, ◌%◌, ◌^◌, List, [], ◌∷◌, ◌++◌, Bool, true, false, ◌&&◌, ◌||◌,
  not, Option, none, some, ◌==◌, leb, ltb, length, drop, get_or, if◌then◌else◌,
}
use wispurr.Base.Int.{ℤ, pos, pos_part, ltb_ℤ}
use wispurr.Base.Bytes.{be16, be64, le32}
use wispurr.Masking.{MaskKey, mask_xor}
use wispurr.FrameReader.{FrameReader, peek, consume, read_payload}
use wispurr.Protocol.PacketType

abbrev default_max_payload_size : ℕ
default_max_payload_size = 256 * 1024

pub max_payload_size : ℤ → ℕ
max_payload_size max_message_size =
    if ltb_ℤ (pos 0) max_message_size then pos_part max_message_size else default_max_payload_size

pub record Loop : Type 0 where
  pub reader : FrameReader
  pub fragmented_opcode : ℕ
  pub fragmented : List ℕ

-- What a round hands on: a packet for handleWispFrame, or the payload of a ping for writeRawPong.
pub data Handed : Type 0 where
  nothing : Handed
  wisp_frame ping : List ℕ → Handed

pub data Round : Type 0 where
  next : Loop → Handed → Round
  stop : Option ℕ → Round

-- case 0x0
continuation : ℕ → Loop → Bool → List ℕ → Round
continuation limit l fin payload =
    if l.fragmented_opcode == 0
    then stop (some 1002)
    else if ltb limit ((length l.fragmented + length payload) % 2 ^ 64)
    then stop (some 1009)
    else if fin
    then next (record l { fragmented_opcode = 0; fragmented = [] })
        (wisp_frame (l.fragmented ++ payload))
    else next (record l { fragmented = l.fragmented ++ payload }) nothing

-- case 0x2
binary : Loop → Bool → List ℕ → Round
binary l fin payload =
    if not (l.fragmented_opcode == 0)
    then stop (some 1002)
    else if fin
    then next l (wisp_frame payload)
    else next (record l { fragmented_opcode = 2; fragmented = payload }) nothing

-- case 0x8
closing : List ℕ → Round
closing [] = stop (some 1000)
closing (c ∷ []) = stop (some 1002)
closing (c ∷ d ∷ cs) = stop (some (be16 c d))

-- switch opcode
pub dispatch : ℕ → Loop → Bool → ℕ → List ℕ → Round
unfolding continuation binary closing
dispatch limit l fin opcode payload =
    if opcode == 0
    then continuation limit l fin payload
    else if opcode == 2
    then binary l fin payload
    else if opcode == 1
    then stop (some 1003)
    else if opcode == 9
    then next l (ping payload)
    else if opcode == 10
    then next l nothing
    else if opcode == 8
    then closing payload
    else stop (some 1002)

pub header_len : ℕ → ℕ
header_len length_code =
    2 + (if length_code == 126 then 2 else if length_code == 127 then 8 else 0) + 4

pub payload_len : ℕ → List ℕ → ℕ
payload_len length_code hdr =
    if leb length_code 125
    then length_code
    else if length_code == 126
    then be16 (get_or hdr 2 0) (get_or hdr 3 0)
    else be64 (get_or hdr 2 0) (get_or hdr 3 0) (get_or hdr 4 0) (get_or hdr 5 0) (get_or hdr 6 0)
        (get_or hdr 7 0) (get_or hdr 8 0) (get_or hdr 9 0)

pub mask_key : ℕ → List ℕ → MaskKey
mask_key n hdr = record {
  k0 = get_or hdr (n - 4) 0;
  k1 = get_or hdr (n - 3) 0;
  k2 = get_or hdr (n - 2) 0;
  k3 = get_or hdr (n - 1) 0;
}

-- The payload, unless the read failed.
pub on_payload : ℕ → Loop → Bool → ℕ → MaskKey → Option (List ℕ × FrameReader) → Round
unfolding dispatch
on_payload limit l fin opcode key none = stop none
on_payload limit l fin opcode key (some (payload, f)) =
    dispatch limit (record l { reader = f }) fin opcode
      (if ltb 0 (length payload) then mask_xor payload key else payload)

pub read_sized : ℕ → FrameReader → Option (List ℕ × FrameReader)
read_sized n f = if ltb 0 n then read_payload n f else some ([], f)

-- From the whole header on.
pub on_header : ℕ → Loop → ℕ → ℕ → Option (List ℕ × FrameReader) → Round
unfolding on_payload read_sized header_len payload_len mask_key
on_header limit l b0 b1 none = stop none
on_header limit l b0 b1 (some (hdr, f)) =
    let fin = leb 128 b0 in
    let opcode = b0 % 16 in
    let code = b1 % 128 in
    let n = payload_len code hdr in
    if code == 127 && leb 128 (get_or hdr 2 0)
    then stop (some 1002)
    else if leb 8 opcode && (not fin || ltb 125 n)
    then stop (some 1002)
    else if ltb limit n
    then stop (some 1009)
    else on_payload limit l fin opcode (mask_key (header_len code) hdr)
        (read_sized n (consume (header_len code) f))

-- The first two bytes.
pub on_start : ℕ → Loop → Option (List ℕ × FrameReader) → Round
unfolding on_header
on_start limit l none = stop none
on_start limit l (some (hdr, f)) =
    let b0 = get_or hdr 0 0 in
    let b1 = get_or hdr 1 0 in
    if not (b0 / 16 % 8 == 0) || not (leb 128 b1)
    then stop (some 1002)
    else on_header limit l b0 b1 (peek (header_len (b1 % 128)) f)

pub round : ℕ → Loop → Round
unfolding on_start
round limit l = on_start limit l (peek 2 l.reader)

-- handleWispFrame: what becomes of a packet. Until a connection of version 2 has finished its
-- handshake, only INFO packets and the CLOSE of stream 0 are looked at.
pub data Routed : Type 0 where
  dropped : Routed
  to_packet : ℕ → ℕ → List ℕ → Routed
  to_data : ℕ → List ℕ → Routed

route : Bool → ℕ → ℕ → List ℕ → Routed
route waits packet_type stream_id payload =
    if waits
    then if packet_type == PacketType.info || (packet_type == PacketType.close && stream_id == 0)
      then to_packet packet_type stream_id payload
      else dropped
    else if packet_type == PacketType.stream_data
    then to_data stream_id payload
    else to_packet packet_type stream_id payload

-- `handshake_done` is the channel: nil, open or closed.
waits_for_info : Bool → Option Bool → Bool
waits_for_info is_v2 none = false
waits_for_info is_v2 (some is_done) = is_v2 && not is_done

pub handle_wisp_frame : Bool → Option Bool → List ℕ → Routed
unfolding route waits_for_info
handle_wisp_frame is_v2 handshake_done (t ∷ s0 ∷ s1 ∷ s2 ∷ s3 ∷ payload) =
    route (waits_for_info is_v2 handshake_done) t (le32 s0 s1 s2 s3) payload
handle_wisp_frame is_v2 handshake_done packet = dropped

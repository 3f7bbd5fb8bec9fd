-- ===== src/Frames.antt =====
-- The WebSocket frames that the server writes: sendRawFrame of wisp/v2.go, sendPacket,
-- buildClosePacket and writeRawPong of wisp/wisp-connection.go, sendWSClose of wisp/wsreader.go, and
-- the frame that readFromConnection of wisp/wisp-stream.go builds in place.
pub mod RoundTrip
use wispurr.Base.{
  ℕ, ◌+◌, ◌-◌, ◌/◌, ◌^◌, List, [], ◌∷◌, ◌++◌, length, take, drop, leb, if◌then◌else◌, set,
}
use wispurr.Base.Bytes.{byte, put_le32, put_be16, put_be64}
use wispurr.Protocol.PacketType
use wispurr.Protocol.PacketType.{continue, close}

-- v2.go, sendRawFrame: one final binary frame around a packet.
pub raw_frame : List ℕ → List ℕ
raw_frame packet =
    let total_len = length packet in
    if leb total_len 125
    then 0x82 ∷ byte total_len ∷ packet
    else if leb total_len 65535
    then 0x82 ∷ 126 ∷ byte (total_len / 2 ^ 8) ∷ byte total_len ∷ packet
    else 0x82 ∷ 127 ∷ (put_be64 total_len ++ packet)

-- sendPacket: a CONTINUE packet with the credit that is left.
pub continue_frame : ℕ → ℕ → List ℕ
continue_frame stream_id buffer_remaining =
    0x82
    ∷ 9
    ∷ continue
    ∷ byte stream_id
    ∷ byte (stream_id / 2 ^ 8)
    ∷ byte (stream_id / 2 ^ 16)
    ∷ byte (stream_id / 2 ^ 24)
    ∷ put_le32 buffer_remaining

pub build_close_packet : ℕ → ℕ → List ℕ
build_close_packet stream_id reason =
    0x82
    ∷ 6
    ∷ close
    ∷ byte stream_id
    ∷ byte (stream_id / 2 ^ 8)
    ∷ byte (stream_id / 2 ^ 16)
    ∷ byte (stream_id / 2 ^ 24)
    ∷ reason
    ∷ []

-- writeRawPong
pub pong_frame : List ℕ → List ℕ
pong_frame payload = 0x8a ∷ byte (length payload) ∷ payload

-- sendWSClose
pub ws_close_frame : ℕ → List ℕ
ws_close_frame code = 0x88 ∷ 2 ∷ put_be16 code

-- buf[i] = v for each pair, in order.
abbrev pub store : List (ℕ × ℕ) → List ℕ → List ℕ
store [] buf = buf
store ((i, v) ∷ writes) buf = store writes (set buf i v)

-- readFromConnection: a read left `n` bytes in `buf` from index 15 on. The header is written in
-- front of them, and the frame is `buf[frameStart : 15+n]`.
unfoldable pub max_header_len : ℕ
max_header_len = 15

unfoldable pub header_writes : ℕ → ℕ × List (ℕ × ℕ)
unfolding max_header_len
header_writes total_payload =
    if leb total_payload 125
    then (8, (8, 0x82) ∷ (9, byte total_payload) ∷ [])
    else if leb total_payload 65535
    then (
      6,
      (6, 0x82) ∷ (7, 126) ∷ (8, byte (total_payload / 2 ^ 8)) ∷ (9, byte total_payload) ∷ [],
    )
    else (
      0,
      (0, 0x82)
          ∷ (1, 127)
          ∷ (2, byte (total_payload / 2 ^ 56))
          ∷ (3, byte (total_payload / 2 ^ 48))
          ∷ (4, byte (total_payload / 2 ^ 40))
          ∷ (5, byte (total_payload / 2 ^ 32))
          ∷ (6, byte (total_payload / 2 ^ 24))
          ∷ (7, byte (total_payload / 2 ^ 16))
          ∷ (8, byte (total_payload / 2 ^ 8))
          ∷ (9, byte total_payload)
          ∷ [],
    )

unfoldable pub wisp_writes : ℕ → List (ℕ × ℕ)
wisp_writes stream_id =
    (10, PacketType.stream_data)
    ∷ (11, byte stream_id)
    ∷ (12, byte (stream_id / 2 ^ 8))
    ∷ (13, byte (stream_id / 2 ^ 16))
    ∷ (14, byte (stream_id / 2 ^ 24))
    ∷ []

unfoldable pub data_frame : ℕ → List ℕ → ℕ → List ℕ
unfolding header_writes wisp_writes max_header_len
data_frame stream_id buf n =
    let (frame_start, writes) = header_writes (5 + n) in
    let buf' = store (wisp_writes stream_id) (store writes buf) in
    take (max_header_len + n - frame_start) (drop frame_start buf')

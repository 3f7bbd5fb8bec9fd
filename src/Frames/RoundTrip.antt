-- ===== src/Frames/RoundTrip.antt =====
-- What a client reads back from the frames of the server.
use wispurr.Base.{
  ℕ, ◌+◌, ◌-◌, ◌/◌, ◌^◌, ◌<◌, ◌≤◌, ◌≡◌, refl, List, [], ◌∷◌, ◌++◌, length, take, drop, leb, ◌==◌,
  if◌then◌else◌, Option, none, some, arith, take-append, drop-append, length-append, take-append_eq,
}
use wispurr.Base.Bytes.{
  byte, be16, be64, put_le32, put_be16, put_be64, be16-put_be16, be64-put_be64,
}
use wispurr.Frames.{
  raw_frame, continue_frame, build_close_packet, pong_frame, ws_close_frame, data_frame,
}

-- RFC 6455 on the receiving side: the first byte and payload of one unmasked frame, and the bytes
-- that follow it.
pub record Frame : Type 0 where
  pub first : ℕ
  pub payload : List ℕ
  pub rest : List ℕ

split_payload : ℕ → ℕ → List ℕ → Option Frame
split_payload first n bytes =
    if leb n (length bytes)
    then some (record { first = first; payload = take n bytes; rest = drop n bytes })
    else none

read_len16 : ℕ → List ℕ → Option Frame
unfolding split_payload
read_len16 first (b0 ∷ b1 ∷ bytes) = split_payload first (be16 b0 b1) bytes
read_len16 first bytes = none

read_len64 : ℕ → List ℕ → Option Frame
unfolding split_payload
read_len64 first (b0 ∷ b1 ∷ b2 ∷ b3 ∷ b4 ∷ b5 ∷ b6 ∷ b7 ∷ bytes) =
    split_payload first (be64 b0 b1 b2 b3 b4 b5 b6 b7) bytes
read_len64 first bytes = none

pub read_frame : List ℕ → Option Frame
read_frame (first ∷ code ∷ bytes) =
    if leb code 125
    then split_payload first code bytes
    else if code == 126
    then read_len16 first bytes
    else read_len64 first bytes
read_frame bytes = none

split_payload-append :
    (first n : ℕ) (p rest : List ℕ)
    → n ≡ length p
    → split_payload first n (p ++ rest) ≡ some (record { first = first; payload = p; rest = rest })
unfolding split_payload
split_payload-append first n p rest e =
    ground (arith, take-append p rest, drop-append p rest, length-append p rest)

-- A client reads back the packet that `raw_frame` wraps, in one final binary frame, at each of the
-- three length encodings, and is left with the bytes that follow; a packet is shorter than 2 ^ 64.
pub read_frame-raw_frame :
    (packet rest : List ℕ)
    → length packet < 2 ^ 64
    → read_frame (raw_frame packet ++ rest)
      ≡ some (record { first = 0x82; payload = packet; rest = rest })
unfolding raw_frame read_frame read_len16 read_len64
read_frame-raw_frame packet rest h = ground (
  arith,
  split_payload-append 0x82 (length packet) packet rest,
  split_payload-append 0x82 (byte (length packet)) packet rest,
  be16-put_be16 (length packet),
  be64-put_be64 (length packet),
)

-- Built in place, the frame of a DATA packet is byte for byte the one that `raw_frame` builds around
-- the packet, whatever the 15 header bytes and the bytes behind the read held before.
pub data_frame-raw_frame :
    (stream_id : ℕ) (header bytes stale : List ℕ)
    → length header ≡ 15
    → data_frame stream_id (header ++ (bytes ++ stale)) (length bytes)
      ≡ raw_frame (0x02 ∷ (put_le32 stream_id ++ bytes))
unfolding data_frame raw_frame
data_frame-raw_frame stream_id
      (a0 ∷ a1 ∷ a2 ∷ a3 ∷ a4 ∷ a5 ∷ a6 ∷ a7 ∷ a8 ∷ a9 ∷ b0 ∷ b1 ∷ b2 ∷ b3 ∷ b4 ∷ []) bytes stale
      h =
    ground (
      arith,
      take-append_eq (15 + n - 8) (0x82 ∷ byte (5 + n) ∷ packet) stale,
      take-append_eq (15 + n - 6) (0x82 ∷ 126 ∷ byte ((5 + n) / 2 ^ 8) ∷ byte (5 + n) ∷ packet)
          stale,
      take-append_eq (15 + n) (0x82 ∷ 127 ∷ (put_be64 (5 + n) ++ packet)) stale,
    )
  where
    n : ℕ
    n = length bytes

    packet : List ℕ
    packet = 0x02 ∷ (put_le32 stream_id ++ bytes)
data_frame-raw_frame stream_id header bytes stale h = absurd (omega arith)

-- The three packets whose frames are written out byte by byte are framed as `raw_frame` frames them:
-- CONTINUE with its stream and credit, and CLOSE with its stream and reason.
pub control_packets-raw_frame :
    (stream_id credit reason : ℕ)
    → (continue_frame stream_id credit ≡ raw_frame (0x03 ∷ (put_le32 stream_id ++ put_le32 credit)))
      × (build_close_packet stream_id reason
          ≡ raw_frame (0x04 ∷ (put_le32 stream_id ++ (reason ∷ []))))
unfolding continue_frame build_close_packet raw_frame
control_packets-raw_frame stream_id credit reason = (refl, refl)

-- A client reads back the payload of a pong of at most 125 bytes, and the code of a closing frame.
pub read_frame-control :
    (payload rest : List ℕ) (code : ℕ)
    → length payload ≤ 125
    → (read_frame (pong_frame payload ++ rest)
        ≡ some (record { first = 0x8a; payload = payload; rest = rest }))
      × (read_frame (ws_close_frame code ++ rest)
          ≡ some (record { first = 0x88; payload = put_be16 code; rest = rest }))
unfolding pong_frame ws_close_frame read_frame
read_frame-control payload rest code h = ground (
  arith,
  split_payload-append 0x8a (byte (length payload)) payload rest,
  split_payload-append 0x88 2 (put_be16 code) rest,
)

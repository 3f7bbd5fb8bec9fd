-- ===== src/Downstream/Pty.antt =====
-- readPty of wisp/twisp.go, which hands the output of a terminal to the client, with the frame that it
-- builds in its buffer and copies out of it.
use wispurr.Base.{
  ℕ, ◌+◌, ◌-◌, ◌/◌, ◌^◌, List, [], ◌∷◌, ◌++◌, Option, none, some, ◌==◌, leb, take, drop,
  if◌then◌else◌,
}
use wispurr.Base.Bytes.{byte}
use wispurr.Protocol.PacketType
use wispurr.Protocol.CloseReason
use wispurr.Frames.{store}
use wispurr.Downstream.{ReadError, eof, read_failed, Read, Ending, closes}

-- The index frameStart, and the bytes of the frame's header by their places in the buffer.
unfoldable pub pty_header : ℕ → ℕ × List (ℕ × ℕ)
pty_header total_payload =
    if leb total_payload 125
    then (15 - 7, (15 - 7, 0x82) ∷ (15 - 7 + 1, byte total_payload) ∷ [])
    else if leb total_payload 65535
    then (
      15 - 9,
      (15 - 9, 0x82)
          ∷ (15 - 9 + 1, 126)
          ∷ (15 - 9 + 2, byte (total_payload / 2 ^ 8))
          ∷ (15 - 9 + 3, byte total_payload)
          ∷ [],
    )
    else (
      0,
      (0, 0x82)
          ∷ (1, 127)
          ∷ (2, byte (total_payload / 2 ^ 56))
          ∷ (3, byte (total_payload / 2 ^ 48))
          ∷ (4, byte (total_payload / 2 ^ 40))
          ∷ (5, byte (total_payload / 2 ^ 32))
          ∷ (6, byte (total_payload / 2 ^ 24))
          ∷ (7, byte (total_payload / 2 ^ 16))
          ∷ (8, byte (total_payload / 2 ^ 8))
          ∷ (9, byte total_payload)
          ∷ [],
    )

-- The bytes from wispStart on.
unfoldable pub pty_packet : ℕ → List (ℕ × ℕ)
pty_packet stream_id =
    (15 - 5, PacketType.stream_data)
    ∷ (15 - 5 + 1, byte stream_id)
    ∷ (15 - 5 + 2, byte (stream_id / 2 ^ 8))
    ∷ (15 - 5 + 3, byte (stream_id / 2 ^ 16))
    ∷ (15 - 5 + 4, byte (stream_id / 2 ^ 24))
    ∷ []

-- The copy of the buffer from frameStart on, behind a read of `n` bytes.
unfoldable pub pty_frame : ℕ → List ℕ → ℕ → List ℕ
unfolding pty_header pty_packet
pty_frame stream_id buf n =
    let (frame_start, writes) = pty_header (5 + n) in
    take (15 + n - frame_start) (drop frame_start (store (pty_packet stream_id) (store writes buf)))

-- if err != io.EOF
unfoldable pub pty_reason : ReadError → ℕ
pty_reason read_failed = CloseReason.network_error
pty_reason eof = CloseReason.voluntary

-- The frames handed to queueWrite, and the end.
pub record PtyReader : Type 0 where
  pub handed : List (List ℕ)
  pub ended : Option Ending

abbrev pub new_pty : PtyReader
new_pty = record { handed = []; ended = none }

unfoldable pub pty_after : PtyReader → Option ReadError → PtyReader
pty_after r none = r
pty_after r (some e) = record r { ended = some (closes (pty_reason e)) }

module _ (stream_id : ℕ) where
  unfoldable pub pty_round : PtyReader → Read → PtyReader
  pty_round r read =
      if read.n == 0
      then pty_after r read.err
      else pty_after (record r { handed = r.handed ++ (pty_frame stream_id read.buf read.n ∷ []) })
          read.err

  unfoldable pub pty_step : PtyReader → Option Ending → Read → PtyReader
  pty_step r none read = pty_round r read
  pty_step r (some e) read = r

  unfoldable pub read_pty : PtyReader → List Read → PtyReader
  read_pty r [] = r
  read_pty r (read ∷ rest) = read_pty (pty_step r r.ended read) rest

-- ===== src/Examples/Downloads.antt =====
-- The bytes of a target at concrete inputs.
use wispurr.Base.{ℕ, ◌+◌, ◌≡◌, refl, List, [], ◌∷◌, none, some, false, arith, length}
use wispurr.Base.Bytes.{put_le32}
use wispurr.Protocol.CloseReason
use wispurr.Downstream.{Read, eof, closes, new_reader, read_from_connection}
use wispurr.Downstream.Client.{concat, download}
use wispurr.Downstream.Received.{open_count, received}
use wispurr.Downstream.Pty.{new_pty, read_pty}
use wispurr.Downstream.Terminal.{read_pty-download}

-- A buffer with 15 bytes in front, "hi", and a stale byte.
abbrev buffer : List ℕ
buffer = 1 ∷ 2 ∷ 3 ∷ 4 ∷ 5 ∷ 6 ∷ 7 ∷ 8 ∷ 9 ∷ 10 ∷ 11 ∷ 12 ∷ 13 ∷ 14 ∷ 15 ∷ b'h' ∷ b'i' ∷ 99 ∷ []

-- A read of two bytes, one of one byte at the end of the target's bytes, and one that never happens.
abbrev reads : List Read
reads =
    record { buf = buffer; n = 2; err = none; now = 5; later = 6; stopped = false }
    ∷ record { buf = buffer; n = 1; err = some eof; now = 8; later = 8; stopped = false }
    ∷ record { buf = buffer; n = 3; err = none; now = 9; later = 9; stopped = false }
    ∷ []

received_example :
    let q = read_from_connection ◌+◌ 258 "192.0.2.1" (new_reader none) reads in
    (download (length q.handed) (0x02 ∷ put_le32 258) (concat q.handed)
      ≡ some (b'h' ∷ b'i' ∷ b'h' ∷ []))
    × (q.egress_bytes ≡ 3)
    × (q.ended ≡ some (closes CloseReason.voluntary))
    × (q.got ≡ length q.handed + (q.put_back + open_count q.ended))
unfolding wispurr.Downstream.reason_of
received_example = received ◌+◌ 258 "192.0.2.1" none reads (
  ((omega arith, omega arith), refl),
  (((omega arith, omega arith), refl), (((omega arith, omega arith), refl), tt)),
)

read_pty-download_example :
    let q = read_pty 7 new_pty reads in
    (download (length q.handed) (0x02 ∷ put_le32 7) (concat q.handed)
      ≡ some (b'h' ∷ b'i' ∷ b'h' ∷ []))
    × (q.ended ≡ some (closes CloseReason.voluntary))
unfolding wispurr.Downstream.reason_of
read_pty-download_example =
    read_pty-download 7 reads
      ((omega arith, omega arith), ((omega arith, omega arith), ((omega arith, omega arith), tt)))

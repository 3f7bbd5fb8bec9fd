-- ===== src/Protocol/StreamType.antt =====
-- The stream types of wisp/constants.go.
use wispurr.Base.{ℕ}

abbrev pub tcp : ℕ
tcp = 0x01

abbrev pub udp : ℕ
udp = 0x02

abbrev pub term : ℕ
term = 0x03

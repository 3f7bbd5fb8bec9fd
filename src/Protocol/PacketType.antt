-- ===== src/Protocol/PacketType.antt =====
-- The packet types of wisp/constants.go.
use wispurr.Base.{ℕ}

abbrev pub connect : ℕ
connect = 0x01

abbrev pub stream_data : ℕ
stream_data = 0x02

abbrev pub continue : ℕ
continue = 0x03

abbrev pub close : ℕ
close = 0x04

abbrev pub info : ℕ
info = 0x05

-- twispExtensionID
abbrev pub twisp_extension : ℕ
twisp_extension = 0xF0

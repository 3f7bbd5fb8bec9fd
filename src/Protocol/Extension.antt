-- ===== src/Protocol/Extension.antt =====
-- The extension identifiers of wisp/constants.go.
use wispurr.Base.{ℕ}

abbrev pub udp : ℕ
udp = 0x01

abbrev pub password_auth : ℕ
password_auth = 0x02

abbrev pub certificate_auth : ℕ
certificate_auth = 0x03

abbrev pub motd : ℕ
motd = 0x04

abbrev pub stream_confirm : ℕ
stream_confirm = 0x05

-- ===== src/Protocol/CloseReason.antt =====
-- The close reasons of wisp/constants.go.
use wispurr.Base.{ℕ}

abbrev pub unspecified : ℕ
unspecified = 0x01

abbrev pub voluntary : ℕ
voluntary = 0x02

abbrev pub network_error : ℕ
network_error = 0x03

abbrev pub incompatible : ℕ
incompatible = 0x04

abbrev pub invalid_info : ℕ
invalid_info = 0x41

abbrev pub unreachable : ℕ
unreachable = 0x42

abbrev pub timeout : ℕ
timeout = 0x43

abbrev pub connection_refused : ℕ
connection_refused = 0x44

abbrev pub blocked : ℕ
blocked = 0x48

abbrev pub throttled : ℕ
throttled = 0x49

abbrev pub auth_bad_password : ℕ
auth_bad_password = 0xc0

abbrev pub auth_required : ℕ
auth_required = 0xc2

-- ===== src/Protocol.antt =====
-- The numbers of the Wisp protocol: wisp/constants.go.
pub mod PacketType
pub mod StreamType
pub mod Extension
pub mod CloseReason
use wispurr.Base.{ℕ, ◌*◌}

abbrev pub default_pending_queue_bytes : ℕ
default_pending_queue_bytes = 64 * 1024 * 1024

abbrev pub twisp_extension_id : ℕ
twisp_extension_id = 0xf0

abbrev pub wisp_major_version : ℕ
wisp_major_version = 2

abbrev pub wisp_minor_version : ℕ
wisp_minor_version = 1

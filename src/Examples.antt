-- ===== src/Examples.antt =====
-- The theorems at concrete inputs.
mod Wire
mod Queue
mod Limits
mod Access
mod Settings
mod Streams
mod Frames
mod Connections
mod Requests
mod Dialing
mod Names
mod Shared
mod Downloads
mod Lists

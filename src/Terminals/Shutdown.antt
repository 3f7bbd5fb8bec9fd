-- ===== src/Terminals/Shutdown.antt =====
-- The terminals when the connection ends.
use wispurr.Base.{ℕ, ◌≡◌, true, some, get_elem?}
use wispurr.Base.Map.{nat_key}
use wispurr.Protocol.CloseReason
use wispurr.Terminals.{TwispStream, Terminals}

-- What was started at the address, if anything was, is killed.
abbrev Killed : Terminals → ℕ → Type 0
Killed t b = (s : TwispStream) → get_elem? t.store b ≡ some s → s.killed ≡ true

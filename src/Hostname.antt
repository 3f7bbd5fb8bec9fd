-- ===== src/Hostname.antt =====
-- NormalizeTargetHostname of wisp/wisp-stream.go, on bytes; strings.TrimSpace and strings.ToLower are
-- those of ASCII text.
pub mod Twice
use wispurr.Base.{ℕ, List, [], ◌∷◌, Bool, ◌==◌, if◌then◌else◌}
use wispurr.Config.Text.{trim_space, to_lower}

-- strings.TrimSuffix(host, ".")
unfoldable pub trim_dot : List ℕ → List ℕ
trim_dot [] = []
trim_dot (c ∷ []) = if c == b'.' then [] else c ∷ []
trim_dot (c ∷ d ∷ ds) = c ∷ trim_dot (d ∷ ds)

unfoldable pub normalize_target_hostname : List ℕ → List ℕ
normalize_target_hostname host = trim_dot (trim_space (to_lower host))

-- ===== src/Signature.antt =====
-- The detectors of wisp/signature.go: a ring of samples for a connection and a target. `reaches` is the
-- float64 comparison of the failed share of the samples with the configured ratio, and `per` has its
-- keys as connection and target, of which the code makes one text.
pub mod Verdict
pub mod Window
use wispurr.Base.{
  ℕ, zero, suc, ◌+◌, List, [], ◌∷◌, ◌++◌, Bool, true, false, ◌&&◌, ◌||◌, not, Option, none, some,
  ◌==◌, ltb, length, if◌then◌else◌, String,
}
use wispurr.Base.Int.{ℤ, pos, ltb_ℤ}
use wispurr.Base.Map.{Map, insert, string_key}

pub record Sample : Type 0 where
  pub time : ℕ
  pub ok : Bool

pub record SignatureConfig : Type 0 where
  pub enabled : Bool
  pub window : ℕ
  pub min_samples : ℤ

-- d.ring = d.ring[1:], while its first sample is before the window that ends now.
unfoldable pub drop_stale : ℕ → ℕ → List Sample → List Sample
drop_stale window now [] = []
drop_stale window now (s ∷ rest) =
    let later = drop_stale window now rest in if ltb (s.time + window) now then later else s ∷ rest

-- Record
unfoldable pub record_sample : ℕ → List Sample → Sample → List Sample
record_sample zero ring s = ring
record_sample (suc w) ring s = drop_stale (suc w) s.time (ring ++ (s ∷ []))

unfoldable pub record_all : ℕ → List Sample → List Sample → List Sample
record_all window ring [] = ring
record_all window ring (s ∷ rest) = record_all window (record_sample window ring s) rest

unfoldable pub failed_of : List Sample → ℕ
failed_of [] = 0
failed_of (s ∷ rest) = if s.ok then failed_of rest else suc (failed_of rest)

-- Match
module _ (reaches : ℕ → ℕ → Bool) where
  unfoldable pub matches : SignatureConfig → List Sample → Bool
  matches cfg ring =
      if cfg.window == 0 || ltb_ℤ (pos (length ring)) cfg.min_samples
      then false
      else reaches (failed_of ring) (length ring)

-- The rings of one connection after another: For, Record and Forget. A target is the text of an address
-- and its port.
abbrev pub Rings : Type 0
Rings = ℕ → Map String (List Sample)

unfoldable pub ring_of : Option (List Sample) → List Sample
ring_of none = []
ring_of (some ring) = ring

unfoldable pub record_for : SignatureConfig → Rings → ℕ → String → Sample → Rings
record_for cfg rings conn_id target s i =
    if cfg.enabled && i == conn_id
    then insert target (record_sample cfg.window (ring_of (rings conn_id target)) s) (rings conn_id)
    else rings i

unfoldable pub forget : Rings → ℕ → Rings
forget rings conn_id i = if i == conn_id then (λ target. none) else rings i

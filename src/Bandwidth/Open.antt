-- ===== src/Bandwidth/Open.antt =====
-- Wait on a connection that does not close.
use wispurr.Base.{ℕ, ◌≡◌, refl, true, false, Option, none, some, arith, String}
use wispurr.Bandwidth.{BandwidthLimiter, wait_on, wait}

module _ (cost : ℕ → ℕ → ℕ) (key : String) (size now later : ℕ) where
  pub wait_open : (l : Option BandwidthLimiter) → (wait cost l key size now later false).1 ≡ true
  unfolding wait wait_on
  wait_open none = refl
  wait_open (some l) = ground arith

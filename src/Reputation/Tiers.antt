-- ===== src/Reputation/Tiers.antt =====
-- The tiers of a score.
use wispurr.Base.{ℕ, ◌+◌, ◌≤◌, ◌≡◌, arith, some, if◌then◌else◌}
use wispurr.Base.Int.{ℤ, pos, ◌≤ℤ◌, ◌<ℤ◌, leb_ℤ}
use wispurr.Reputation.{
  Reputation, Thresholds, Tier, tier_normal, tier_warn, tier_throttle, tier_strict, tier,
}

abbrev pub severity : Tier → ℕ
severity tier_normal = 0
severity tier_warn = 1
severity tier_throttle = 2
severity tier_strict = 3

pub record Ordered (t : Thresholds) : Type 0 where
  pub warn_positive : pos 0 <ℤ t.warn
  pub warn-throttle : t.warn ≤ℤ t.throttle
  pub throttle-strict : t.throttle ≤ℤ t.strict

-- The number of thresholds that a score has reached.
abbrev pub reached : Thresholds → ℤ → ℕ
reached t score =
    (if leb_ℤ t.warn score then 1 else 0)
    + (if leb_ℤ t.throttle score then 1 else 0)
    + (if leb_ℤ t.strict score then 1 else 0)

-- With thresholds that are positive and in order, the tier of a score is the number of thresholds
-- that the score has reached; so it never falls as a score rises.
pub severity-tier :
    (r : Reputation) (score higher : ℤ)
    → Ordered r.cfg.thresholds
    → score ≤ℤ higher
    → (severity (tier (some r) score) ≡ reached r.cfg.thresholds score)
      × (severity (tier (some r) score) ≤ severity (tier (some r) higher))
unfolding tier
severity-tier r score higher o h = ground arith

-- ===== src/Egress/Safety.antt =====
-- Which addresses the policy lets through.
use wispurr.Base.{
  ℕ, ◌≡◌, refl, true, false, ◌||◌, Option, none, some, arith, List, [], ◌∷◌, ◌↔◌, ◌≢◌, ◌≤◌, ◌<◌,
}
use wispurr.Base.Map.{contains, bytes_key}
use wispurr.Base.Bits.{high_nibble}
use wispurr.IpAddress.{
  Ip, normal, mapped, is_unspecified, is_loopback, is_link_local_unicast, is_link_local_multicast,
  is_private, is_multicast, any_contains,
}
use wispurr.Egress.{EgressPolicy, policy_from_config, evaluate, ok}

-- What the policy's flags let through of the addresses that no list names.
pub record Permitted (p : EgressPolicy) (ip : Ip) : Type 0 where
  pub specified : is_unspecified ip ≡ false
  pub loopback : is_loopback ip ≡ true → p.allow_loopback ≡ true
  pub local :
      is_loopback ip ≡ false
      → (is_link_local_unicast ip || is_link_local_multicast ip || is_private ip) ≡ true
      → p.allow_private ≡ true
  pub multicast :
      is_multicast ip ≡ true
      → (is_loopback ip || is_link_local_unicast ip || is_link_local_multicast ip || is_private ip)
        ≡ true

-- The ranges of IPv4 that the flags guard, as numbers.
pub record IsPublic (a b c d : ℕ) : Type 0 where
  pub not_zero : ¬ ((a ≡ 0) × (b ≡ 0) × (c ≡ 0) × (d ≡ 0))
  pub not_loopback : a ≢ 127
  pub not_ten : a ≢ 10
  pub not_172 : ¬ ((a ≡ 172) × (16 ≤ b) × (b ≤ 31))
  pub not_192 : ¬ ((a ≡ 192) × (b ≡ 168))
  pub not_link_local : ¬ ((a ≡ 169) × (b ≡ 254))
  pub not_multicast : ¬ ((224 ≤ a) × (a ≤ 239))

module _ (ip_string : Ip → List ℕ) where
  -- Of the addresses that stand in none of the policy's four lists, in the form that To4 makes of them,
  -- exactly those pass that are specified, loopback only under its flag, link-local or private only
  -- under theirs, and multicast only as link-local multicast.
  pub evaluate-Permitted :
      (p : EgressPolicy) (ip : Ip)
      → (contains (ip_string (normal ip)) p.deny_ips || any_contains p.deny_cidrs (normal ip))
        ≡ false
      → (contains (ip_string (normal ip)) p.allow_ips || any_contains p.allow_cidrs (normal ip))
        ≡ false
      → (ok (evaluate ip_string (some p) (some ip)) ≡ true) ↔ Permitted p (normal ip)
  unfolding evaluate
  evaluate-Permitted p ip d a = (ground arith, ground arith)

  -- An IPv4 address gets the same verdict in its 4-byte and its 16-byte form.
  pub evaluate-mapped :
      (p : Option EgressPolicy) (a b c d : ℕ)
      → evaluate ip_string p (some (mapped a b c d))
        ≡ evaluate ip_string p (some (a ∷ b ∷ c ∷ d ∷ []))
  unfolding evaluate normal
  evaluate-mapped none a b c d = refl
  evaluate-mapped (some p) a b c d = refl

  -- With both flags off, exactly those IPv4 addresses pass that are not 0.0.0.0 and lie outside 127/8,
  -- 10/8, 172.16/12, 192.168/16, 169.254/16 and 224/4.
  pub policy_from_config-ipv4 :
      (a b c d : ℕ)
      → a < 256
      → b < 256
      → (ok (evaluate ip_string (some (policy_from_config false false)) (some (a ∷ b ∷ c ∷ d ∷ [])))
          ≡ true)
        ↔ IsPublic a b c d
  unfolding evaluate policy_from_config normal is_unspecified is_loopback is_link_local_unicast
      is_link_local_multicast is_private is_multicast
  policy_from_config-ipv4 a b c d ha hb = (
    λ e. ground (arith, high_nibble a, high_nibble b),
    λ h. ground (arith, high_nibble a, high_nibble b),
  )

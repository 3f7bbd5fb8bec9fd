-- ===== src/Egress.antt =====
-- The egress policy of wisp/egress.go. `ip_string` is the text of an address, by which the lists of
-- single addresses are keyed. A nil policy or address is `none`.
pub mod Safety
use wispurr.Base.{Bool, true, false, ◌||◌, Option, none, some, List, [], ◌∷◌, if◌then◌else◌, ℕ}
use wispurr.Base.Map.{contains, bytes_key}
use wispurr.IpAddress.{
  Ip, normal, is_unspecified, is_loopback, is_link_local_unicast, is_link_local_multicast,
  is_private, is_multicast, IpNet, any_contains,
}

pub record EgressPolicy : Type 0 where
  pub allow_loopback : Bool
  pub allow_private : Bool
  pub allow_ips : List (List ℕ)
  pub allow_cidrs : List IpNet
  pub deny_ips : List (List ℕ)
  pub deny_cidrs : List IpNet

pub policy_from_config : Bool → Bool → EgressPolicy
policy_from_config allow_loopback_ips allow_private_ips = record {
  allow_loopback = allow_loopback_ips;
  allow_private = allow_private_ips;
  allow_ips = [];
  allow_cidrs = [];
  deny_ips = [];
  deny_cidrs = [];
}

-- The second result of Evaluate: why the address is refused.
pub data Verdict : Type 0 where
  allowed : Verdict
  invalid deny_ip deny_cidr unspecified loopback link_local private_ip multicast : Verdict

evaluate_class : EgressPolicy → Ip → Verdict
evaluate_class p ip =
    if is_unspecified ip
    then unspecified
    else if is_loopback ip
    then if p.allow_loopback then allowed else loopback
    else if is_link_local_unicast ip || is_link_local_multicast ip
    then if p.allow_private then allowed else link_local
    else if is_private ip
    then if p.allow_private then allowed else private_ip
    else if is_multicast ip
    then multicast
    else allowed

module _ (ip_string : Ip → List ℕ) where
  evaluate_ip : EgressPolicy → Ip → Verdict
  unfolding evaluate_class
  evaluate_ip p ip =
      if contains (ip_string ip) p.deny_ips
      then deny_ip
      else if any_contains p.deny_cidrs ip
      then deny_cidr
      else if contains (ip_string ip) p.allow_ips || any_contains p.allow_cidrs ip
      then allowed
      else evaluate_class p ip

  pub evaluate : Option EgressPolicy → Option Ip → Verdict
  unfolding evaluate_ip
  evaluate none ip = allowed
  evaluate (some p) none = invalid
  evaluate (some p) (some ip) = evaluate_ip p (normal ip)

-- The first result of Evaluate.
abbrev pub ok : Verdict → Bool
ok allowed = true
ok v = false

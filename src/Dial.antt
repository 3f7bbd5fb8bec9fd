-- ===== src/Dial.antt =====
-- What handleConnect of wisp/wisp-stream.go decides before it dials a target, and mapDialError. The
-- parsing and the text of an address, the resolver behind the DNS cache and the text of an address with
-- a port are parameters; a hostname is what NormalizeTargetHostname has made of it.
pub mod After
pub mod Syns
pub mod Safety
pub mod Bypass
use wispurr.Base.{
  ℕ, ◌+◌, List, [], ◌∷◌, Bool, true, false, ◌&&◌, ◌||◌, not, Option, none, some, ◌==◌,
  if◌then◌else◌, String,
}
use wispurr.Base.Int.{ℤ, pos}
use wispurr.Base.Map.{contains, bytes_key, nat_key}
use wispurr.Protocol.StreamType.{tcp, udp}
use wispurr.Protocol.CloseReason
use wispurr.IpAddress.{Ip}
use wispurr.Egress.{EgressPolicy, policy_from_config, evaluate, ok}
use wispurr.SlidingWindow
use wispurr.SlidingWindow.{SlidingWindow}
use wispurr.Semaphore
use wispurr.Semaphore.{Semaphore}
use wispurr.Reputation
use wispurr.Reputation.{
  Reputation, Tier, tier_normal, tier_warn, tier_throttle, tier_strict, tier, dest_score,
}

-- `dns_cache` says that the cache is not nil, and `proxy` that one is configured.
pub record DialConfig : Type 0 where
  pub whitelist_hostnames : List (List ℕ)
  pub blacklist_hostnames : List (List ℕ)
  pub whitelist_ports : List ℕ
  pub blacklist_ports : List ℕ
  pub allow_tcp : Bool
  pub allow_udp : Bool
  pub allow_direct_ip : Bool
  pub allow_loopback_ips : Bool
  pub allow_private_ips : Bool
  pub dns_cache : Bool
  pub proxy : Bool

-- The limits that all connections share; a nil one is `none`.
pub record Globals : Type 0 where
  pub per_dest_sec : Option SlidingWindow
  pub per_dest_min : Option SlidingWindow
  pub reputation : Option Reputation
  pub in_flight_syns : Option Semaphore

-- A close reason, and whether the connection counts a violation; or the host to dial.
pub data Decision : Type 0 where
  refuses : ℕ → Bool → Decision
  dials : List ℕ → Decision

abbrev pub is_empty {ℓ} : {A : Type ℓ} → List A → Bool
is_empty [] = true
is_empty (x ∷ xs) = false

-- A whitelist decides alone when it has an entry.
unfoldable pub blocks_host : DialConfig → List ℕ → Bool
blocks_host cfg host =
    if not (is_empty cfg.whitelist_hostnames)
    then not (contains host cfg.whitelist_hostnames)
    else contains host cfg.blacklist_hostnames

unfoldable pub blocks_port : DialConfig → ℕ → Bool
blocks_port cfg port =
    if not (is_empty cfg.whitelist_ports)
    then not (contains port cfg.whitelist_ports)
    else contains port cfg.blacklist_ports

unfoldable pub blocks_type : DialConfig → ℕ → Bool
blocks_type cfg stream_type =
    (stream_type == tcp && not cfg.allow_tcp) || (stream_type == udp && not cfg.allow_udp)

unfoldable pub refused_filter : DialConfig → ℕ → ℕ → List ℕ → Option ℕ
refused_filter cfg stream_type port host =
    if blocks_host cfg host || blocks_port cfg port || blocks_type cfg stream_type
    then some CloseReason.blocked
    else if not (stream_type == tcp) && not (stream_type == udp)
    then some CloseReason.invalid_info
    else none

-- What comes from the packages net and fmt: ParseIP, the text of an address, a lookup, where `none` is
-- an error, JoinHostPort, and Sprintf with "%s:%d"; `source_key` is the text of what ParseIP makes of the
-- client's address.
pub record Net : Type 0 where
  pub parse_ip : List ℕ → Option Ip
  pub ip_string : Ip → List ℕ
  pub source_key : String → Option String
  pub lookup : List ℕ → Option (List Ip)
  pub join_host_port : List ℕ → ℕ → String
  pub dest_key : List ℕ → ℕ → String

module _ (net : Net) where
  abbrev pub policy : DialConfig → Option EgressPolicy
  policy cfg = some (policy_from_config cfg.allow_loopback_ips cfg.allow_private_ips)

  abbrev pub permits : DialConfig → Ip → Bool
  permits cfg ip = ok (evaluate net.ip_string (policy cfg) (some ip))

  -- The first address that the policy permits.
  unfoldable pub pick : DialConfig → List Ip → Decision
  pick cfg [] = refuses CloseReason.blocked false
  pick cfg (ip ∷ ips) =
      let rest = pick cfg ips in if permits cfg ip then dials (net.ip_string ip) else rest

  unfoldable pub pick_found : DialConfig → Option (List Ip) → Decision
  pick_found cfg none = refuses CloseReason.unreachable false
  pick_found cfg (some []) = refuses CloseReason.unreachable false
  pick_found cfg (some (ip ∷ ips)) = pick cfg (ip ∷ ips)

  unfoldable pub direct : DialConfig → Ip → Decision
  direct cfg ip =
      if cfg.allow_direct_ip && permits cfg ip
      then dials (net.ip_string ip)
      else refuses CloseReason.blocked false

  -- The host that is dialled, after the filters.
  unfoldable pub resolve_on : DialConfig → List ℕ → Option Ip → Decision
  resolve_on cfg host (some ip) = direct cfg ip
  resolve_on cfg host none = if cfg.dns_cache then pick_found cfg (net.lookup host) else dials host

  unfoldable pub resolve_after : DialConfig → List ℕ → Option ℕ → Decision
  resolve_after cfg host none = resolve_on cfg host (net.parse_ip host)
  resolve_after cfg host (some reason) = refuses reason false

  unfoldable pub resolve : DialConfig → ℕ → ℕ → List ℕ → Decision
  resolve cfg stream_type port host =
      resolve_after cfg host (refused_filter cfg stream_type port host)

  -- The semaphore of dials under way, which only TCP takes.
  unfoldable pub take_syn : DialConfig → Globals → ℕ → List ℕ → Globals × Decision
  take_syn cfg g stream_type target =
      let (syns, acquired) = Semaphore.try_acquire g.in_flight_syns in
      if stream_type == tcp
      then if acquired
        then (record g { in_flight_syns = syns }, dials target)
        else (g, refuses CloseReason.throttled true)
      else if cfg.proxy || not cfg.allow_udp
      then (g, refuses CloseReason.blocked false)
      else (g, dials target)

  unfoldable pub is_strict : Tier → Bool
  is_strict tier_strict = true
  is_strict tier_normal = false
  is_strict tier_warn = false
  is_strict tier_throttle = false

  unfoldable pub add_source : Globals → String → String → ℕ → Globals
  add_source g ip reason now = record g {
    reputation = Reputation.add_source g.reputation ip reason now;
  }

  unfoldable pub ask_reputation :
      DialConfig → Globals → ℕ → List ℕ → ℕ → String → ℕ → Globals × Decision
  ask_reputation cfg g stream_type target port remote_ip now =
      if is_strict (tier g.reputation (dest_score g.reputation (net.dest_key target port)))
      then (add_source g remote_ip "requestKnownBadDest" now, refuses CloseReason.blocked false)
      else take_syn cfg g stream_type target

  unfoldable pub after_minute :
      DialConfig → Globals → ℕ → List ℕ → ℕ → String → ℕ → Bool → Globals × Decision
  after_minute cfg g stream_type target port remote_ip now allowed =
      if allowed
      then ask_reputation cfg g stream_type target port remote_ip now
      else (g, refuses CloseReason.throttled true)

  unfoldable pub ask_minute :
      DialConfig → Globals → ℕ → List ℕ → ℕ → String → ℕ → Globals × Decision
  ask_minute cfg g stream_type target port remote_ip now =
      let (w, allowed) = SlidingWindow.allow g.per_dest_min (net.join_host_port target port) now in
      after_minute cfg (record g { per_dest_min = w }) stream_type target port remote_ip now allowed

  unfoldable pub report_burst : Globals → List ℕ → ℕ → String → ℕ → Globals
  report_burst g target port remote_ip now =
      let g' : Globals = add_source g remote_ip "burstRate" now in
      record g' {
        reputation =
            Reputation.add_dest g'.reputation (net.dest_key target port) "burstRate"
              (net.source_key remote_ip) now;
      }

  unfoldable pub after_second :
      DialConfig → Globals → ℕ → List ℕ → ℕ → String → ℕ → Bool → Globals × Decision
  after_second cfg g stream_type target port remote_ip now allowed =
      if allowed
      then ask_minute cfg g stream_type target port remote_ip now
      else (report_burst g target port remote_ip now, refuses CloseReason.throttled true)

  unfoldable pub ask_second :
      DialConfig → Globals → ℕ → List ℕ → ℕ → String → ℕ → Globals × Decision
  ask_second cfg g stream_type target port remote_ip now =
      let (w, allowed) = SlidingWindow.allow g.per_dest_sec (net.join_host_port target port) now in
      after_second cfg (record g { per_dest_sec = w }) stream_type target port remote_ip now allowed

  unfoldable pub decide_on :
      DialConfig → Globals → ℕ → ℕ → String → ℕ → Decision → Globals × Decision
  decide_on cfg g stream_type port remote_ip now (refuses reason blames) =
      (g, refuses reason blames)
  decide_on cfg g stream_type port remote_ip now (dials target) =
      ask_second cfg g stream_type target port remote_ip now

  -- Everything before the dial: the globals afterwards, and a refusal or the host to dial.
  unfoldable pub decide : DialConfig → Globals → ℕ → ℕ → List ℕ → String → ℕ → Globals × Decision
  decide cfg g stream_type port host remote_ip now =
      decide_on cfg g stream_type port remote_ip now (resolve cfg stream_type port host)

-- After the dial, whatever came of it.
unfoldable pub release_syn : Globals → ℕ → Globals
release_syn g stream_type =
    if stream_type == tcp
    then record g { in_flight_syns = Semaphore.release g.in_flight_syns }
    else g

-- mapDialError of the error's text, or of no error; `has` is strings.Contains.
unfoldable pub map_dial_error : (String → String → Bool) → Option String → ℕ
map_dial_error has none = CloseReason.unspecified
map_dial_error has (some text) =
    if has text "connection refused"
    then CloseReason.connection_refused
    else if has text "no such host" || has text "no address"
    then CloseReason.unreachable
    else if has text "timeout" || has text "deadline exceeded"
    then CloseReason.timeout
    else if has text "network is unreachable" || has text "host is unreachable"
    then CloseReason.unreachable
    else CloseReason.network_error

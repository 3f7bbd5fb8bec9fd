-- ===== src/Runtime.antt =====
-- The limits that all connections share (wisp/runtime.go): BuildGlobals, the rounds of runMaintenance,
-- Stats and Shutdown, with the end of a connection in deleteAllWispStreams (wisp/wisp-connection.go).
-- A time is a number of nanoseconds; a window that would be negative is 0 here, which Allow
-- cannot tell apart. Reputation.Load reads a file, and is left out.
pub mod Maintenance
pub mod Answers
pub mod Traffic
pub mod Totals
use wispurr.Base.{
  ℕ, suc, ◌+◌, ◌-◌, ◌*◌, ◌/◌, ◌%◌, ◌^◌, List, [], ◌∷◌, Bool, true, false, ◌&&◌, ◌||◌, not, Option,
  none, some, ◌==◌, if◌then◌else◌, String, ltb,
}
use wispurr.Base.Map.{retain}
use wispurr.Base.Int.{ℤ, pos, negsuc, pos_part, ltb_ℤ, int_64, duration, seconds}
use wispurr.Config.{Config, FloodProtectionConfig, SynFloodSignature}
use wispurr.Egress.{EgressPolicy, policy_from_config}
use wispurr.SlidingWindow
use wispurr.SlidingWindow.{SlidingWindow, new_sliding_window}
use wispurr.Semaphore.{Semaphore, new_semaphore}
use wispurr.Bandwidth
use wispurr.Bandwidth.{BandwidthLimiter, new_bandwidth_limiter}
use wispurr.Reputation.{Reputation, ReputationConfig, new_reputation}
use wispurr.Signature.{SignatureConfig}

pub record ReputationOptions : Type 0 where
  pub enabled : Bool
  pub evict_days : ℤ
  pub settings : ReputationConfig

pub record RuntimeConfig : Type 0 where
  pub config : Config
  pub open config use *
  pub allow_loopback_ips : Bool
  pub allow_private_ips : Bool
  pub reputation : Option ReputationOptions

-- What Stats and Shutdown use of a wispConnection.
pub record ActiveConnection : Type 0 where
  pub conn_id : ℕ
  pub stream_count : ℕ
  pub ingress_bytes : ℕ
  pub egress_bytes : ℕ
  pub is_closed : Bool

pub record Globals : Type 0 where
  pub per_source : Option SlidingWindow
  pub connection_rate : Option SlidingWindow
  pub bandwidth : Option BandwidthLimiter
  pub per_dest_sec : Option SlidingWindow
  pub per_dest_min : Option SlidingWindow
  pub in_flight_syns : Option Semaphore
  pub connections : Option Semaphore
  pub egress : EgressPolicy
  pub reputation : Option Reputation
  pub signature : Option SignatureConfig
  pub active : List ActiveConnection
  pub stopped : Bool
  pub started_at : ℕ
  pub total_ingress_bytes : ℕ
  pub total_egress_bytes : ℕ

abbrev pub minute : ℕ
minute = 60 * 10 ^ 9

abbrev pub positive : ℤ → Bool
positive n = ltb_ℤ (pos 0) n

-- A limiter that is there when its limit is positive.
unfoldable pub window_of : ℤ → ℕ → Option SlidingWindow
window_of limit window = if positive limit then some (new_sliding_window limit window) else none

unfoldable pub semaphore_of : ℤ → Option Semaphore
semaphore_of max = if positive max then some (new_semaphore max) else none

unfoldable pub rate_of : Config → Option SlidingWindow
rate_of cfg =
    if positive cfg.connections_limit_per_ip && positive cfg.connection_window_seconds
    then some (
        new_sliding_window cfg.connections_limit_per_ip
          (pos_part (seconds cfg.connection_window_seconds)))
    else none

-- int64(cfg.BandwidthLimitKbps) * 1000 / 8
unfoldable pub bandwidth_of : Config → Option BandwidthLimiter
bandwidth_of cfg =
    if positive cfg.bandwidth_limit_kbps
    then new_bandwidth_limiter
        (pos (pos_part (int_64 (pos_part cfg.bandwidth_limit_kbps * 1000 % 2 ^ 64)) / 8))
    else none

unfoldable pub signature_of : SynFloodSignature → SignatureConfig
signature_of s = record {
  enabled = s.enabled;
  window = pos_part (duration (10 ^ 6) s.window_ms);
  min_samples = s.min_samples;
}

unfoldable pub reputation_of : ReputationOptions → ℕ → Option Reputation
reputation_of r now =
    let evict_after =
      if r.settings.evict_after == 0 && positive r.evict_days
      then pos_part (duration (24 * 3600 * 10 ^ 9) r.evict_days)
      else r.settings.evict_after in
    if r.enabled
    then some (new_reputation (record r.settings { evict_after = evict_after }) now)
    else none

unfoldable pub reputation_from : Option ReputationOptions → ℕ → Option Reputation
reputation_from none now = none
reputation_from (some r) now = reputation_of r now

unfoldable pub bare_globals : RuntimeConfig → ℕ → Globals
bare_globals cfg now = record {
  per_source = none;
  connection_rate = rate_of cfg.config;
  bandwidth = bandwidth_of cfg.config;
  per_dest_sec = none;
  per_dest_min = none;
  in_flight_syns = none;
  connections = none;
  egress = policy_from_config cfg.allow_loopback_ips cfg.allow_private_ips;
  reputation = reputation_from cfg.reputation now;
  signature = none;
  active = [];
  stopped = false;
  started_at = now;
  total_ingress_bytes = 0;
  total_egress_bytes = 0;
}

unfoldable pub add_flood : Globals → Option FloodProtectionConfig → Globals
add_flood g none = g
add_flood g (some fp) =
    if fp.enabled
    then record g {
      per_source = window_of fp.max_connects_per_source_ip_per_second (10 ^ 9);
      per_dest_sec = window_of fp.max_connects_per_dest_per_second (10 ^ 9);
      per_dest_min = window_of fp.max_connects_per_dest_per_minute minute;
      in_flight_syns = semaphore_of fp.max_in_flight_syns;
      connections = semaphore_of fp.max_concurrent_connections;
      signature = some (signature_of fp.syn_flood_signature);
    }
    else g

-- BuildGlobals, of a configuration that has none yet.
unfoldable pub build_globals : RuntimeConfig → ℕ → Globals
build_globals cfg now = add_flood (bare_globals cfg now) cfg.flood_protection

-- Evict of a Duration that may be negative.
unfoldable pub evict_by : SlidingWindow → ℤ → ℕ → SlidingWindow
unfolding SlidingWindow.evict_on
evict_by w (pos idle) now = SlidingWindow.evict_on w idle now
evict_by w (negsuc k) now = record w {
  entries = retain (λ e. not (ltb e.start (now + suc k))) w.entries;
}

-- 2 * g.ConnectionRate.window, of an int64
unfoldable pub evict_rate : Option SlidingWindow → ℕ → Option SlidingWindow
unfolding evict_by
evict_rate none now = none
evict_rate (some w) now = some (evict_by w (int_64 (2 * w.window % 2 ^ 64)) now)

-- A round of runMaintenance.
unfoldable pub maintain : Globals → ℕ → Globals
maintain g now = record g {
  per_source = SlidingWindow.evict g.per_source (2 * minute) now;
  connection_rate = evict_rate g.connection_rate now;
  bandwidth = Bandwidth.evict g.bandwidth (10 * minute) now;
  per_dest_sec = SlidingWindow.evict g.per_dest_sec (2 * minute) now;
  per_dest_min = SlidingWindow.evict g.per_dest_min (120 * minute) now;
}

pub record ServerStats : Type 0 where
  pub uptime : ℕ
  pub active_connections : ℕ
  pub active_streams : ℕ
  pub ingress_bytes : ℕ
  pub egress_bytes : ℕ

abbrev pub word : ℕ → ℕ
word n = n % 2 ^ 64

unfoldable pub add_one : ServerStats → ActiveConnection → ServerStats
add_one s c = record s {
  active_connections = s.active_connections + 1;
  active_streams = s.active_streams + c.stream_count;
  ingress_bytes = word (s.ingress_bytes + c.ingress_bytes);
  egress_bytes = word (s.egress_bytes + c.egress_bytes);
}

unfoldable pub add_stats : ServerStats → List ActiveConnection → ServerStats
add_stats s [] = s
add_stats s (c ∷ rest) = add_stats (add_one s c) rest

unfoldable pub stats : Globals → ℕ → ServerStats
stats g now =
    add_stats
      (record {
        uptime = now - g.started_at;
        active_connections = 0;
        active_streams = 0;
        ingress_bytes = g.total_ingress_bytes;
        egress_bytes = g.total_egress_bytes;
      })
      g.active

-- The stores of a new connection, and what handleDataPacket and readFromConnection count for one.
unfoldable pub begin_connection : Globals → ℕ → Globals
begin_connection g id =
    let c : ActiveConnection = record {
      conn_id = id;
      stream_count = 0;
      ingress_bytes = 0;
      egress_bytes = 0;
      is_closed = false;
    } in
    record g { active = c ∷ g.active }

unfoldable pub count_in : ℕ → ℕ → ℕ → List ActiveConnection → List ActiveConnection
count_in id ingress egress [] = []
count_in id ingress egress (c ∷ rest) =
    let others = count_in id ingress egress rest in
    if c.conn_id == id
    then record c {
      ingress_bytes = word (c.ingress_bytes + ingress);
      egress_bytes = word (c.egress_bytes + egress);
    }
      ∷ others
    else c ∷ others

unfoldable pub count_bytes : Globals → ℕ → ℕ → ℕ → Globals
count_bytes g id ingress egress = record g { active = count_in id ingress egress g.active }

unfoldable pub find_connection : ℕ → List ActiveConnection → Option ActiveConnection
find_connection id [] = none
find_connection id (c ∷ rest) =
    let later = find_connection id rest in if c.conn_id == id then some c else later

unfoldable pub without : ℕ → List ActiveConnection → List ActiveConnection
without id [] = []
without id (c ∷ rest) =
    let others = without id rest in if c.conn_id == id then others else c ∷ others

-- The end of deleteAllWispStreams: active.Delete, and the counts of the connection.
unfoldable pub end_connection : Globals → ActiveConnection → Globals
end_connection g c = record g {
  active = without c.conn_id g.active;
  total_ingress_bytes = word (g.total_ingress_bytes + c.ingress_bytes);
  total_egress_bytes = word (g.total_egress_bytes + c.egress_bytes);
}

unfoldable pub close_each : List ActiveConnection → List ActiveConnection
close_each [] = []
close_each (c ∷ rest) = record c { is_closed = true } ∷ close_each rest

unfoldable pub shutdown : Globals → Globals
shutdown g = record g { stopped = true; active = close_each g.active }

unfoldable pub end_found : Globals → Option ActiveConnection → Globals
end_found g none = g
end_found g (some c) = end_connection g c

-- What the connections do to the shared counts: a connection begins, carries bytes in and out, and
-- ends. A connection that has ended is counted nowhere.
pub data Event : Type 0 where
  begins : ℕ → Event
  carries : ℕ → ℕ → ℕ → Event
  ends : ℕ → Event

unfoldable pub step : Globals → Event → Globals
step g (begins id) = begin_connection g id
step g (carries id ingress egress) = count_bytes g id ingress egress
step g (ends id) = end_found g (find_connection id g.active)

unfoldable pub run : Globals → List Event → Globals
run g [] = g
run g (e ∷ rest) = run (step g e) rest

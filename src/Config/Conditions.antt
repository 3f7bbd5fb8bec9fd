-- ===== src/Config/Conditions.antt =====
-- The conditions that Validate puts on the fields of a configuration, each by itself.
use wispurr.Base.{ℕ, List, All, suc, ◌<◌, ◌≡◌, ◌≢◌, ◌↔◌, ◌⊎◌, [], true, false, Option, none, some}
use wispurr.Base.Int.{pos, ◌≤ℤ◌, ◌<ℤ◌}
use wispurr.Config.{Config, Fraction, FloodProtectionConfig, SynFloodSignature, Url}
use wispurr.Config.Text.{schemes, methods, orders, levels, one_of, to_lower, trim_space}

-- The texts that strings.TrimSpace and strings.ToLower act on.
abbrev pub IsAscii : List ℕ → Type 0
IsAscii text = All (λ c. c < 128) text

pub record AsciiTexts (cfg : Config) : Type 0 where
  pub proxy : IsAscii cfg.proxy
  pub dns_method : IsAscii cfg.dns_method
  pub dns_result_order : IsAscii cfg.dns_result_order
  pub log_level : IsAscii cfg.log_level
  pub trusted_proxies : All IsAscii cfg.trusted_proxies

pub record BuffersFit (cfg : Config) : Type 0 where
  pub port : (pos 1 ≤ℤ cfg.port) × (cfg.port ≤ℤ pos 65535)
  pub tcp : (pos 1024 ≤ℤ cfg.tcp_buffer_size) × (cfg.tcp_buffer_size ≤ℤ pos 16777216)
  pub socket : (pos 65536 ≤ℤ cfg.socket_buffer_size) × (cfg.socket_buffer_size ≤ℤ pos 268435456)
  pub pending :
      (cfg.tcp_buffer_size ≤ℤ cfg.pending_queue_size) × (cfg.pending_queue_size ≤ℤ pos 1073741824)
  pub no_deflate : cfg.websocket_permessage_deflate ≡ false

pub record LimitsFit (cfg : Config) : Type 0 where
  pub remaining : 0 < cfg.buffer_remaining_length
  pub message :
      (cfg.max_message_size ≡ pos 0)
      ⊎ ((pos 5 ≤ℤ cfg.max_message_size) × (cfg.max_message_size ≤ℤ pos 1073741824))
  pub connections : pos 0 ≤ℤ cfg.connections_limit_per_ip
  pub window : pos 0 ≤ℤ cfg.connection_window_seconds
  pub together : (cfg.connections_limit_per_ip ≡ pos 0) ↔ (cfg.connection_window_seconds ≡ pos 0)
  pub bandwidth : (pos 0 ≤ℤ cfg.bandwidth_limit_kbps) × (cfg.bandwidth_limit_kbps ≤ℤ pos 1000000000)

pub record AuthFits (cfg : Config) : Type 0 where
  pub enabled : cfg.password_auth_required ≡ true → cfg.password_auth ≡ true
  pub users : cfg.password_auth_required ≡ true → 0 < cfg.password_users
  pub timeout :
      (pos 1 ≤ℤ cfg.handshake_timeout_seconds) × (cfg.handshake_timeout_seconds ≤ℤ pos 300)

-- Of a ratio that is a number: that it is from 0 to 1, and above 0.
abbrev pub IsPart : Option Fraction → Type 0
IsPart none = Unit {0}
IsPart (some q) = (pos 0 ≤ℤ q.numerator) × (q.numerator ≤ℤ pos (suc q.denominator))

abbrev pub IsAbove : Option Fraction → Type 0
IsAbove none = Unit {0}
IsAbove (some q) = pos 0 <ℤ q.numerator

pub record SignatureFits (s : SynFloodSignature) : Type 0 where
  pub ratio : IsPart s.failed_handshake_ratio
  pub enabled :
      s.enabled ≡ true
      → (pos 0 <ℤ s.window_ms) × (pos 0 <ℤ s.min_samples) × IsAbove s.failed_handshake_ratio

pub record FloodFits (fp : FloodProtectionConfig) : Type 0 where
  pub source : pos 0 ≤ℤ fp.max_connects_per_source_ip_per_second
  pub dest_second : pos 0 ≤ℤ fp.max_connects_per_dest_per_second
  pub dest_minute : pos 0 ≤ℤ fp.max_connects_per_dest_per_minute
  pub syns : pos 0 ≤ℤ fp.max_in_flight_syns
  pub streams : pos 0 ≤ℤ fp.max_concurrent_streams_per_connection
  pub connections : pos 0 ≤ℤ fp.max_concurrent_connections
  pub violations : pos 0 ≤ℤ fp.ws_close_after_violations

abbrev pub FloodsFit : Option FloodProtectionConfig → Type 0
FloodsFit none = Unit {0}
FloodsFit (some fp) = FloodFits fp × SignatureFits fp.syn_flood_signature

pub record WordsFit (cfg : Config) : Type 0 where
  pub dns_method : one_of methods (to_lower (trim_space cfg.dns_method)) ≡ true
  pub dns_result_order : one_of orders (to_lower (trim_space cfg.dns_result_order)) ≡ true
  pub log_level : one_of levels (to_lower (trim_space cfg.log_level)) ≡ true

-- What Validate asks of the lists of proxies and headers, and of the URL of a proxy.
pub record UrlFits (u : Url) : Type 0 where
  pub host : u.hostname ≢ []
  pub bare : (u.path ≡ []) × (u.raw_query ≡ []) × (u.fragment ≡ [])
  pub scheme : one_of schemes (to_lower u.scheme) ≡ true

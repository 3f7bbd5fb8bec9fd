-- ===== src/Config.antt =====
-- The checks on a configuration: Validate and validHTTPHeaderName of wisp/config.go, and
-- validateProxyURL of wisp/proxy.go. Text is the list of its bytes, and strings.TrimSpace and
-- strings.ToLower are those of ASCII text. net.ParseIP and net.ParseCIDR are the parameters `is_ip` and
-- `is_cidr`, which say whether an entry parses, and url.Parse is `parse_url`. A float64 is an exact
-- fraction here.
pub mod Header
pub mod Conditions
pub mod Text
pub mod Validity
use wispurr.Base.{
  ℕ, suc, ◌+◌, ◌*◌, List, [], ◌∷◌, Bool, true, false, ◌&&◌, ◌||◌, not, Option, none, some, ltb, leb,
  ◌==◌, if◌then◌else◌,
}
use wispurr.Base.Int.{ℤ, pos, ltb_ℤ, leb_ℤ}
use wispurr.Base.Map.{same_list}
use wispurr.Config.Text.{
  is_space, trim_left, trim_right, trim_space, to_lower, one_of, empty_text, methods, orders,
  levels, schemes, alphanumeric, mark, name_bytes, valid_http_header_name, every,
}

-- `numerator / (denominator + 1)`; a float64 that is no number is `none` where one is asked for.
pub record Fraction : Type 0 where
  pub numerator : ℤ
  pub denominator : ℕ

pub record SynFloodSignature : Type 0 where
  pub enabled : Bool
  pub window_ms : ℤ
  pub min_samples : ℤ
  pub failed_handshake_ratio : Option Fraction

pub record FloodProtectionConfig : Type 0 where
  pub enabled : Bool
  pub max_connects_per_source_ip_per_second : ℤ
  pub max_connects_per_dest_per_second : ℤ
  pub max_connects_per_dest_per_minute : ℤ
  pub max_in_flight_syns : ℤ
  pub max_concurrent_streams_per_connection : ℤ
  pub max_concurrent_connections : ℤ
  pub syn_flood_signature : SynFloodSignature
  pub ws_close_after_violations : ℤ

-- The fields that Validate reads; of the users' table, their number.
pub record Config : Type 0 where
  pub port : ℤ
  pub tcp_buffer_size : ℤ
  pub socket_buffer_size : ℤ
  pub pending_queue_size : ℤ
  pub websocket_permessage_deflate : Bool
  pub proxy : List ℕ
  pub buffer_remaining_length : ℕ
  pub max_message_size : ℤ
  pub connections_limit_per_ip : ℤ
  pub connection_window_seconds : ℤ
  pub bandwidth_limit_kbps : ℤ
  pub dns_method : List ℕ
  pub dns_result_order : List ℕ
  pub log_level : List ℕ
  pub trusted_proxies : List (List ℕ)
  pub trusted_headers : List (List ℕ)
  pub password_auth : Bool
  pub password_auth_required : Bool
  pub password_users : ℕ
  pub handshake_timeout_seconds : ℤ
  pub flood_protection : Option FloodProtectionConfig

-- What the code uses of a *url.URL.
pub record Url : Type 0 where
  pub scheme : List ℕ
  pub hostname : List ℕ
  pub path : List ℕ
  pub raw_query : List ℕ
  pub fragment : List ℕ

-- The errors, in the order of the tests.
pub data ConfigError : Type 0 where
  nil_config bad_port bad_tcp_buffer bad_socket_buffer bad_pending_queue deflate bad_proxy :
      ConfigError
  no_buffer_remaining bad_message_size bad_limits bad_dns_method bad_dns_order bad_log_level :
      ConfigError
  bad_trusted_proxy bad_trusted_header auth_off no_users bad_timeout bad_flood_limit : ConfigError
  bad_ratio bad_signature : ConfigError

-- if test { return err }, and the tests that follow.
abbrev pub fails : Bool → ConfigError → Option ConfigError → Option ConfigError
fails test err rest = if test then some err else rest

abbrev pub outside : ℤ → ℤ → ℤ → Bool
outside v low high = ltb_ℤ v low || ltb_ℤ high v

abbrev negative : ℤ → Bool
negative v = ltb_ℤ v (pos 0)

abbrev zero_int : ℤ → Bool
zero_int v = leb_ℤ v (pos 0) && leb_ℤ (pos 0) v

-- The range checks up to pendingQueueSize, then the others, in the order of the code.
unfoldable pub validate_buffers : Config → Option ConfigError → Option ConfigError
validate_buffers cfg rest = fails (outside cfg.port (pos 1) (pos 65535)) bad_port (
    fails (outside cfg.tcp_buffer_size (pos 1024) (pos (16 * 1024 * 1024))) bad_tcp_buffer (
      fails (outside cfg.socket_buffer_size (pos (64 * 1024)) (pos (256 * 1024 * 1024)))
        bad_socket_buffer
        (fails (outside cfg.pending_queue_size cfg.tcp_buffer_size (pos (1024 * 1024 * 1024)))
          bad_pending_queue (fails cfg.websocket_permessage_deflate deflate rest))))

unfoldable pub validate_limits : Config → Option ConfigError → Option ConfigError
validate_limits cfg rest = fails (cfg.buffer_remaining_length == 0) no_buffer_remaining (
    fails
      (negative cfg.max_message_size
        || (ltb_ℤ (pos 0) cfg.max_message_size && ltb_ℤ cfg.max_message_size (pos 5))
        || ltb_ℤ (pos (1024 * 1024 * 1024)) cfg.max_message_size)
      bad_message_size
      (fails
        (negative cfg.connections_limit_per_ip
          || negative cfg.connection_window_seconds
          || negative cfg.bandwidth_limit_kbps
          || ltb_ℤ (pos 1000000000) cfg.bandwidth_limit_kbps
          || (if zero_int cfg.connections_limit_per_ip
              then not (zero_int cfg.connection_window_seconds)
              else zero_int cfg.connection_window_seconds))
        bad_limits rest))

unfoldable pub validate_words : Config → Option ConfigError → Option ConfigError
validate_words cfg rest =
    fails (not (one_of methods (to_lower (trim_space cfg.dns_method)))) bad_dns_method (
      fails (not (one_of orders (to_lower (trim_space cfg.dns_result_order)))) bad_dns_order
        (fails (not (one_of levels (to_lower (trim_space cfg.log_level)))) bad_log_level rest))

unfoldable pub validate_auth : Config → Option ConfigError → Option ConfigError
validate_auth cfg rest = fails (cfg.password_auth_required && not cfg.password_auth) auth_off (
    fails (cfg.password_auth_required && cfg.password_users == 0) no_users
      (fails (outside cfg.handshake_timeout_seconds (pos 1) (pos 300)) bad_timeout rest))

abbrev pub below_zero : Option Fraction → Bool
below_zero none = false
below_zero (some q) = negative q.numerator

abbrev pub above_one : Option Fraction → Bool
above_one none = false
above_one (some q) = ltb_ℤ (pos (suc q.denominator)) q.numerator

abbrev pub not_above_zero : Option Fraction → Bool
not_above_zero none = false
not_above_zero (some q) = leb_ℤ q.numerator (pos 0)

unfoldable pub validate_signature : SynFloodSignature → Option ConfigError
validate_signature s =
    fails (below_zero s.failed_handshake_ratio || above_one s.failed_handshake_ratio) bad_ratio (
      fails
        (s.enabled
          && (leb_ℤ s.window_ms (pos 0)
              || leb_ℤ s.min_samples (pos 0)
              || not_above_zero s.failed_handshake_ratio))
        bad_signature none)

abbrev any_negative : List ℤ → Bool
any_negative [] = false
any_negative (v ∷ vs) = if negative v then true else any_negative vs

unfoldable pub any_limit_negative : FloodProtectionConfig → Bool
any_limit_negative fp = any_negative (
    fp.max_connects_per_source_ip_per_second ∷ fp.max_connects_per_dest_per_second
    ∷ fp.max_connects_per_dest_per_minute ∷ fp.max_in_flight_syns
    ∷ fp.max_concurrent_streams_per_connection ∷ fp.max_concurrent_connections
    ∷ fp.ws_close_after_violations ∷ [])

unfoldable pub validate_flood : Option FloodProtectionConfig → Option ConfigError
unfolding any_limit_negative validate_signature
validate_flood none = none
validate_flood (some fp) =
    fails (any_limit_negative fp) bad_flood_limit (validate_signature fp.syn_flood_signature)

module _ (is_ip is_cidr : List ℕ → Bool) (parse_url : List ℕ → Option Url) where
  abbrev trusted_entry : List ℕ → Bool
  trusted_entry entry = is_ip (trim_space entry) || is_cidr (trim_space entry)

  unfoldable pub validate_trusted : Config → Option ConfigError → Option ConfigError
  validate_trusted cfg rest =
      fails (not (every trusted_entry cfg.trusted_proxies)) bad_trusted_proxy
        (fails (not (every valid_http_header_name cfg.trusted_headers)) bad_trusted_header rest)

  -- Whether validateProxyURL returns an error.
  unfoldable pub refuses_url : Option Url → Bool
  refuses_url none = true
  refuses_url (some u) =
      empty_text u.hostname
      || not (empty_text u.path)
      || not (empty_text u.raw_query)
      || not (empty_text u.fragment)
      || not (one_of schemes (to_lower u.scheme))

  unfoldable pub refuses_proxy : List ℕ → Bool
  unfolding refuses_url
  refuses_proxy raw = if empty_text (trim_space raw) then false else refuses_url (parse_url raw)

  unfoldable pub validate_config : Config → Option ConfigError
  unfolding validate_buffers validate_limits validate_words validate_trusted validate_auth
      validate_flood refuses_proxy
  validate_config cfg = validate_buffers cfg (
      fails (refuses_proxy cfg.proxy) bad_proxy (
        validate_limits cfg (
          validate_words cfg
            (validate_trusted cfg (validate_auth cfg (validate_flood cfg.flood_protection))))))

  unfoldable pub validate : Option Config → Option ConfigError
  unfolding validate_config
  validate none = some nil_config
  validate (some cfg) = validate_config cfg

-- ===== src/Examples/Settings.antt =====
-- The checks on a configuration at concrete inputs.
use wispurr.Base.{
  arith, refl, ℕ, ◌≡◌, ◌↔◌, List, [], ◌∷◌, Bool, true, false, Option, none, some, leb, length,
}
use wispurr.Base.Int.{pos}
use wispurr.Config.{Config, Url, FloodProtectionConfig, validate}
use wispurr.ProxyDial.{ProxyUrl, Network, dial_proxy}
use wispurr.ProxyDial.Leaks.{Clean, Dialled}
use wispurr.ProxyDial.Validated.{as_url, dial_proxy-Clean}
use wispurr.Config.Validity.{Valid, validate_lem}

-- "X-IP"
abbrev header_name : List ℕ
header_name = b'X' ∷ b'-' ∷ b'I' ∷ b'P' ∷ []

-- Parsers that take a text of at most four bytes for an address, and none for a network or a URL.
abbrev four_bytes_long : List ℕ → Bool
four_bytes_long text = leb (length text) 4

abbrev no_network : List ℕ → Bool
no_network text = false

abbrev no_url : List ℕ → Option Url
no_url text = none

abbrev flood : FloodProtectionConfig
flood = record {
  enabled = true;
  max_connects_per_source_ip_per_second = pos 0;
  max_connects_per_dest_per_second = pos 10;
  max_connects_per_dest_per_minute = pos 100;
  max_in_flight_syns = pos 64;
  max_concurrent_streams_per_connection = pos 0;
  max_concurrent_connections = pos 0;
  syn_flood_signature = record {
    enabled = true;
    window_ms = pos 1000;
    min_samples = pos 5;
    failed_handshake_ratio = some (record { numerator = pos 1; denominator = 1 });
  };
  ws_close_after_violations = pos 3;
}

abbrev pub server : Config
server = record {
  port = pos 6001;
  tcp_buffer_size = pos 131072;
  socket_buffer_size = pos 4194304;
  pending_queue_size = pos 67108864;
  websocket_permessage_deflate = false;
  proxy = b' ' ∷ [];
  buffer_remaining_length = 128;
  max_message_size = pos 0;
  connections_limit_per_ip = pos 0;
  connection_window_seconds = pos 0;
  bandwidth_limit_kbps = pos 0;
  dns_method = b'L' ∷ b'o' ∷ b'o' ∷ b'k' ∷ b'u' ∷ b'p' ∷ [];
  dns_result_order = b'v' ∷ b'e' ∷ b'r' ∷ b'b' ∷ b'a' ∷ b't' ∷ b'i' ∷ b'm' ∷ [];
  log_level = b'i' ∷ b'n' ∷ b'f' ∷ b'o' ∷ b' ' ∷ [];
  trusted_proxies = (1 ∷ 2 ∷ 3 ∷ 4 ∷ []) ∷ [];
  trusted_headers = header_name ∷ [];
  password_auth = false;
  password_auth_required = false;
  password_users = 0;
  handshake_timeout_seconds = pos 10;
  flood_protection = some flood;
}

validate_lem_example :
    (validate four_bytes_long no_network no_url (some server) ≡ none)
    ↔ Valid four_bytes_long no_network no_url server
validate_lem_example =
    validate_lem four_bytes_long no_network no_url server
      (record {
        proxy = ground arith;
        dns_method = ground arith;
        dns_result_order = ground arith;
        log_level = ground arith;
        trusted_proxies = ground arith;
      })
      (λ raw u e. cc)

-- A proxy "P", which the network can reach.
abbrev proxy_text : List ℕ
proxy_text = b'P' ∷ []

abbrev proxy_url : ProxyUrl
proxy_url = record {
  url = record {
    scheme = b'h' ∷ b't' ∷ b't' ∷ b'p' ∷ [];
    hostname = proxy_text;
    path = [];
    raw_query = [];
    fragment = [];
  };
  host = proxy_text;
  port = [];
  user = none;
}

abbrev network : Network
network = record {
  timeout = pos 15;
  parse_url = λ raw. some proxy_url;
  join_host_port = λ host port. host;
  base_64 = λ text. text;
  dials = λ address. true;
  socks_dials = λ address user destination. false;
  handshakes = true;
  writes = true;
  status = some 403;
}

abbrev proxied : Config
proxied = record server { proxy = proxy_text }

accepted :
    validate four_bytes_long no_network (λ raw. as_url (network.parse_url raw)) (some proxied)
    ≡ none
unfolding validate wispurr.Config.Text.valid_http_header_name
accepted = refl

dial_proxy-Clean_example :
    Clean network header_name (dial_proxy network proxied.proxy header_name)
    × Dialled (dial_proxy network proxied.proxy header_name)
dial_proxy-Clean_example =
    dial_proxy-Clean four_bytes_long no_network network proxied header_name accepted refl

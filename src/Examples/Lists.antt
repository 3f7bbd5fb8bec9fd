-- ===== src/Examples/Lists.antt =====
-- The filter sets at concrete inputs.
use wispurr.Base.{ℕ, ◌≡◌, refl, List, [], ◌∷◌, Option, none, some, true}
use wispurr.Base.Int.{pos}
use wispurr.Protocol.StreamType.{tcp}
use wispurr.Protocol.CloseReason
use wispurr.Hostname.{normalize_target_hostname}
use wispurr.Dial.{DialConfig, refused_filter}
use wispurr.Filters.{FilterJson, names, entries, number, range, unmarshal_json}
use wispurr.Filters.Blocked.{no_filter, unmarshal_json-refused_filter}
use wispurr.Examples.Dialing.{dial_settings, target_name}

-- The host "Ex.com.", the port 25, and the ports from 8000 to 8002, written the other way round.
abbrev filter_json : FilterJson
filter_json = record {
  fields = (b'p' ∷ b'o' ∷ b'r' ∷ b't' ∷ b's' ∷ []) ∷ [];
  hostnames = names ((b'E' ∷ b'x' ∷ b'.' ∷ b'c' ∷ b'o' ∷ b'm' ∷ b'.' ∷ []) ∷ []);
  ports = entries (
      number (record { whole = true; integral = pos 25 })
      ∷ range (
          some (record { whole = true; integral = pos 8002 })
          ∷ some (record { whole = true; integral = pos 8000 })
          ∷ [])
      ∷ []);
}

abbrev no_uint : List ℕ → Option ℕ
no_uint key = none

decodes : (unmarshal_json no_uint no_filter (some filter_json)).1 ≡ none
unfolding unmarshal_json wispurr.Filters.has_unknown wispurr.Filters.go_on
    wispurr.Filters.add_hostnames wispurr.Filters.add_names wispurr.Filters.add_hostname
    normalize_target_hostname wispurr.Hostname.trim_dot wispurr.Filters.add_ports
    wispurr.Filters.add_entries wispurr.Filters.add_entry wispurr.Filters.add_one
    wispurr.Filters.valid_port_number wispurr.Filters.add_range wispurr.Filters.add_valid
decodes = refl

abbrev black : DialConfig
black = record dial_settings {
  whitelist_ports = [];
  blacklist_hostnames = (unmarshal_json no_uint no_filter (some filter_json)).0.hostnames;
  blacklist_ports = (unmarshal_json no_uint no_filter (some filter_json)).0.ports;
}

unmarshal_json-refused_filter_example :
    refused_filter black tcp 8001 (normalize_target_hostname target_name) ≡ some CloseReason.blocked
unfolding normalize_target_hostname wispurr.Hostname.trim_dot
unmarshal_json-refused_filter_example =
    unmarshal_json-refused_filter no_uint filter_json black 8001 target_name (λ key n e. cc) decodes
      refl refl refl refl refl

-- ===== src/Filters/Blocked.antt =====
-- A decoded filter set in front of handleConnect.
use wispurr.Base.{
  ℕ, ◌<◌, ◌^◌, ◌≡◌, refl, ◌∙◌, List, [], Bool, true, false, ◌||◌, Option, none, some, if◌then◌else◌,
}
use wispurr.Base.Map.{contains, nat_key, bytes_key}
use wispurr.Protocol.StreamType.{tcp}
use wispurr.Protocol.CloseReason
use wispurr.Hostname.{normalize_target_hostname}
use wispurr.Dial.{DialConfig, blocks_host, blocks_port, blocks_type, refused_filter}
use wispurr.Filters.{FilterSet, FilterJson, unmarshal_json}
use wispurr.Filters.Numbers.{names_port}
use wispurr.Filters.Listed.{names_host, unmarshal_json-Listed}

abbrev pub no_filter : FilterSet
no_filter = record { hostnames = []; ports = [] }

or_false : (b : Bool) → (b || false) ≡ b
or_false true = refl
or_false false = refl

black_host :
    (cfg : DialConfig) (hosts : List (List ℕ)) (h : List ℕ) (b : Bool)
    → cfg.whitelist_hostnames ≡ []
    → cfg.blacklist_hostnames ≡ hosts
    → contains h hosts ≡ (b || false)
    → blocks_host cfg h ≡ b
unfolding blocks_host
black_host cfg hosts h b w k e = rw (w, k) (e ∙ or_false b)

black_port :
    (cfg : DialConfig) (ports : List ℕ) (p : ℕ) (b : Bool)
    → cfg.whitelist_ports ≡ []
    → cfg.blacklist_ports ≡ ports
    → contains p ports ≡ (b || false)
    → blocks_port cfg p ≡ b
unfolding blocks_port
black_port cfg ports p b w k e = rw (w, k) (e ∙ or_false b)

refused_by :
    (cfg : DialConfig) (port : ℕ) (host : List ℕ) (a b : Bool)
    → blocks_host cfg host ≡ a
    → blocks_port cfg port ≡ b
    → cfg.allow_tcp ≡ true
    → refused_filter cfg tcp port host ≡ (if a || b then some CloseReason.blocked else none)
unfolding refused_filter blocks_type
refused_by cfg port host true b h p t = rw h refl
refused_by cfg port host false true h p t = rw (h, p) refl
refused_by cfg port host false false h p t = rw (h, p, t) refl

-- With a blacklist that was decoded and no whitelist, and TCP allowed: handleConnect refuses a TCP
-- stream before it resolves anything exactly when the decoded fields name its hostname, both normalised,
-- or its port, ends and inside of a range included, and it refuses it as blocked.
pub unmarshal_json-refused_filter :
    (parse_uint : List ℕ → Option ℕ) (j : FilterJson) (cfg : DialConfig) (port : ℕ) (raw : List ℕ)
    → ((key : List ℕ) (n : ℕ) → parse_uint key ≡ some n → n < 2 ^ 16)
    → (unmarshal_json parse_uint no_filter (some j)).1 ≡ none
    → cfg.whitelist_hostnames ≡ []
    → cfg.whitelist_ports ≡ []
    → cfg.blacklist_hostnames ≡ (unmarshal_json parse_uint no_filter (some j)).0.hostnames
    → cfg.blacklist_ports ≡ (unmarshal_json parse_uint no_filter (some j)).0.ports
    → cfg.allow_tcp ≡ true
    → let host = normalize_target_hostname raw in
      refused_filter cfg tcp port host ≡ (
        if names_host host j.hostnames || names_port parse_uint port j.ports
        then some CloseReason.blocked
        else none)
unmarshal_json-refused_filter parse_uint j cfg port raw bounded e w v h p t =
    let host = normalize_target_hostname raw in
    let l = unmarshal_json-Listed parse_uint no_filter j bounded e in
    let g = (unmarshal_json parse_uint no_filter (some j)).0 in
    refused_by cfg port host (names_host host j.hostnames) (names_port parse_uint port j.ports)
      (black_host cfg g.hostnames host (names_host host j.hostnames) w h (l.hosts host))
      (black_port cfg g.ports port (names_port parse_uint port j.ports) v p (l.ports port)) t

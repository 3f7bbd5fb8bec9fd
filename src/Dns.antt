-- ===== src/Dns.antt =====
-- The DNS cache of wisp/dnscache.go. A hostname is the list of its bytes, a time a number of
-- nanoseconds; the resolver is a parameter: what it answers when it is asked, with `none` for an error,
-- is an argument of the lookup, and so is net.ParseIP. A call of group.Do whose function runs for
-- another caller is one step with that caller's.
pub mod Order
pub mod Backed
pub mod Expiry
use wispurr.Base.{
  ℕ, suc, ◌+◌, ◌*◌, ◌-◌, ◌/◌, ◌%◌, ◌^◌, List, [], ◌∷◌, ◌++◌, Bool, true, false, ◌&&◌, ◌||◌, not,
  Option, none, some, ltb, leb, length, if◌then◌else◌,
}
use wispurr.Base.Int.{seconds, ℤ, pos, negsuc, leb_ℤ, pos_part}
use wispurr.Base.Map.{Map, empty, insert, retain, same_list, bytes_key}
use wispurr.Config.Text.{trim_space, to_lower, empty_text}
use wispurr.Hostname.{normalize_target_hostname}
use wispurr.IpAddress.{Ip, to_4}

pub record DnsEntry : Type 0 where
  pub ips : List Ip
  pub expires_at : ℕ
  pub failed : Bool

pub record DnsCache : Type 0 where
  pub ttl : ℕ
  pub result_order : List ℕ
  pub cache : Map (List ℕ) DnsEntry

unfoldable pub new_dns_cache : ℤ → List ℕ → DnsCache
new_dns_cache ttl_seconds result_order = record {
  ttl =
      if leb_ℤ (seconds ttl_seconds) (pos 0) then 120 * 10 ^ 9 else pos_part (seconds ttl_seconds);
  result_order = result_order;
  cache = empty;
}

-- The time between two rounds of the goroutine that cleanup starts.
unfoldable pub cleanup_interval : DnsCache → ℕ
cleanup_interval d = if ltb (d.ttl / 2) (60 * 10 ^ 9) then 60 * 10 ^ 9 else d.ttl / 2

unfoldable pub expire : DnsCache → ℕ → DnsCache
expire d now = record d { cache = retain (λ e. not (ltb e.expires_at now)) d.cache }

-- Whether an address has an IPv4 form.
unfoldable pub is_v4 : Ip → Bool
is_v4 ip = elim (to_4 ip) [ none ↦ false | some v ↦ true ]

unfoldable pub select : Bool → List Ip → List Ip
select family [] = []
select family (ip ∷ ips) =
    let rest = select family ips in
    if (is_v4 ip && family) || not (is_v4 ip || family) then ip ∷ rest else rest

abbrev pub verbatim : List ℕ
verbatim = b'v' ∷ b'e' ∷ b'r' ∷ b'b' ∷ b'a' ∷ b't' ∷ b'i' ∷ b'm' ∷ []

abbrev pub ipv4_first : List ℕ
ipv4_first = b'i' ∷ b'p' ∷ b'v' ∷ b'4' ∷ b'f' ∷ b'i' ∷ b'r' ∷ b's' ∷ b't' ∷ []

abbrev pub ipv6_first : List ℕ
ipv6_first = b'i' ∷ b'p' ∷ b'v' ∷ b'6' ∷ b'f' ∷ b'i' ∷ b'r' ∷ b's' ∷ b't' ∷ []

-- reorderIPs, of an order that has been trimmed and lowered
unfoldable pub reorder_by : List Ip → List ℕ → List Ip
reorder_by ips order =
    if same_list order verbatim || empty_text order
    then ips
    else if same_list order ipv4_first
    then select true ips ++ select false ips
    else if same_list order ipv6_first
    then select false ips ++ select true ips
    else ips

unfoldable pub reorder_ips : List Ip → List ℕ → List Ip
reorder_ips ips order =
    if leb (length ips) 1 then ips else reorder_by ips (to_lower (trim_space order))

-- An entry as LookupIPAddr returns it; `none` is an error.
unfoldable pub entry_answer : DnsEntry → Option (List Ip)
entry_answer e = if e.failed then none else some e.ips

-- The entry that the resolver's answer makes; `later` is the clock once it has answered.
unfoldable pub make_entry : ℕ → List ℕ → Option (List Ip) → ℕ → DnsEntry
make_entry ttl order none later = record { ips = []; expires_at = later + ttl; failed = true }
make_entry ttl order (some ips) later = record {
  ips = reorder_ips ips order;
  expires_at = later + ttl;
  failed = false;
}

-- What a lookup does: the address itself, the entry that is still good, or a question.
pub data Source : Type 0 where
  literal : Ip → Source
  cached : DnsEntry → Source
  asked : Source

unfoldable pub usable : Option DnsEntry → ℕ → Source
usable none now = asked
usable (some e) now = if ltb now e.expires_at then cached e else asked

unfoldable pub source_of : Option Ip → Option DnsEntry → ℕ → Source
source_of (some ip) entry now = literal ip
source_of none entry now = usable entry now

unfoldable pub take_source :
    DnsCache → List ℕ → Option (List Ip) → ℕ → Source → DnsCache × Option (List Ip)
take_source d host answer later (literal ip) = (d, some (ip ∷ []))
take_source d host answer later (cached e) = (d, entry_answer e)
take_source d host answer later asked =
    let e = make_entry d.ttl d.result_order answer later in
    (record d { cache = insert host e d.cache }, entry_answer e)

pub data Event : Type 0 where
  looks_up : List ℕ → ℕ → Option (List Ip) → ℕ → Event
  expires : ℕ → Event

module _ (parse_ip : List ℕ → Option Ip) where
  unfoldable pub lookup_on :
      DnsCache → List ℕ → ℕ → Option (List Ip) → ℕ → DnsCache × Option (List Ip)
  lookup_on d host now answer later =
      take_source d host answer later (source_of (parse_ip host) (d.cache host) now)

  -- LookupIPAddr
  unfoldable pub lookup_ip_addr :
      DnsCache → List ℕ → ℕ → Option (List Ip) → ℕ → DnsCache × Option (List Ip)
  lookup_ip_addr d host now answer later =
      lookup_on d (normalize_target_hostname host) now answer later

  -- Lookups and rounds of expire, one after another, and the answers to the lookups.
  unfoldable pub step : DnsCache → Event → DnsCache
  step d (looks_up host now answer later) = (lookup_ip_addr d host now answer later).0
  step d (expires now) = expire d now

  unfoldable pub run : DnsCache → List Event → DnsCache
  run d [] = d
  run d (e ∷ rest) = run (step d e) rest

  unfoldable pub answers : DnsCache → List Event → List (Option (List Ip))
  answers d [] = []
  answers d (looks_up host now answer later ∷ rest) =
      let (d', result) = lookup_ip_addr d host now answer later in result ∷ answers d' rest
  answers d (expires now ∷ rest) = answers (expire d now) rest

-- net.SplitHostPort says whether a text has a port; net.JoinHostPort adds one.
module _ (has_port : List ℕ → Bool) (join_host_port : List ℕ → List ℕ → List ℕ) where
  unfoldable pub normalize_dns_server : List ℕ → List ℕ
  normalize_dns_server server =
      if has_port server then server else join_host_port server (b'5' ∷ b'3' ∷ [])

  unfoldable pub first_dns_server : List (List ℕ) → List ℕ
  first_dns_server [] = []
  first_dns_server (s ∷ rest) =
      let others = first_dns_server rest in
      if empty_text (trim_space s) then others else normalize_dns_server (trim_space s)

  -- The server that initResolver asks, or the resolver of the system.
  unfoldable pub resolver_server : List ℕ → List (List ℕ) → Option (List ℕ)
  resolver_server method servers =
      if same_list (to_lower (trim_space method))
          (b'r' ∷ b'e' ∷ b's' ∷ b'o' ∷ b'l' ∷ b'v' ∷ b'e' ∷ [])
        && not (empty_text (first_dns_server servers))
      then some (first_dns_server servers)
      else none

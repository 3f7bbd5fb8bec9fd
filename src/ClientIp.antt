-- ===== src/ClientIp.antt =====
-- ResolveClientIP and ipInAny of wisp/clientip.go: the address of the client behind trusted proxies.
-- net.SplitHostPort with net.ParseIP, and strings.TrimSpace with net.ParseIP, are the parameters
-- `parse_peer` and `parse_entry`; a header value is a list of bytes, empty if the header is missing.
pub mod Trust
use wispurr.Base.{ℕ, List, [], ◌∷◌, ◌++◌, Bool, Option, none, some, ◌==◌, if◌then◌else◌}
use wispurr.IpAddress.{Ip, IpNet, any_contains}
use mathlib.Core.List.{reverse, map}

abbrev pub ipv4_zero : Ip
ipv4_zero = 0 ∷ 0 ∷ 0 ∷ 0 ∷ []

-- strings.Split(v, ","): `current` is the entry under way.
split_from : List ℕ → List ℕ → List (List ℕ)
split_from current [] = current ∷ []
split_from current (c ∷ cs) = elim (c == b',') [
  | Bool.true ↦ current ∷ split_from [] cs
  | Bool.false ↦ split_from (current ++ (c ∷ [])) cs
]

unfoldable pub split_commas : List ℕ → List (List ℕ)
unfolding split_from
split_commas v = split_from [] v

module _ (parse_entry : List ℕ → Option Ip) (trusted : List IpNet) where
  -- One header's entries, from the last to the first.
  pub scan : List (List ℕ) → Option Ip
  scan [] = none
  scan (part ∷ parts) = elim (parse_entry part) [
    | none ↦ scan parts
    | some candidate ↦ if any_contains trusted candidate then scan parts else some candidate
  ]

  pub scan_header : List ℕ → Option Ip
  unfolding scan split_commas
  scan_header [] = none
  scan_header (c ∷ cs) = scan (reverse (split_commas (c ∷ cs)))

  scan_headers : List (List ℕ) → Option Ip
  unfolding scan_header
  scan_headers [] = none
  scan_headers (v ∷ vs) = elim (scan_header v) [ none ↦ scan_headers vs | some ip ↦ some ip ]

  or_peer : Ip → Option Ip → Ip
  or_peer peer none = peer
  or_peer peer (some ip) = ip

  resolve_from : Option Ip → List (List ℕ) → Ip
  unfolding scan_headers or_peer
  resolve_from none headers = ipv4_zero
  resolve_from (some peer) headers =
      if any_contains trusted peer then or_peer peer (scan_headers headers) else peer

  pub resolve_client_ip : (List ℕ → Option Ip) → List ℕ → List (List ℕ) → Ip
  unfolding resolve_from
  resolve_client_ip parse_peer remote_addr headers = resolve_from (parse_peer remote_addr) headers

-- ===== src/Dial/Bypass.antt =====
-- A name on the list of blocked hostnames that is resolved all the same.
use wispurr.Base.{ℕ, List, Option}
use wispurr.Base.Map.{bytes_key}
use wispurr.Protocol.CloseReason
use wispurr.IpAddress.{Ip}
use wispurr.Hostname.{normalize_target_hostname}
use wispurr.Dns.{DnsCache, lookup_ip_addr}
use wispurr.Dial.{Net}

-- A lookup through the DNS cache as it is then: `ask` is what the resolver answers for a name, `now` and
-- `later` are the clock before and after it.
abbrev pub through_cache :
    Net → DnsCache → (List ℕ → Option (List Ip)) → ℕ → ℕ → List ℕ → Option (List Ip)
through_cache net d ask now later host =
    (lookup_ip_addr net.parse_ip d host now (ask (normalize_target_hostname host)) later).1

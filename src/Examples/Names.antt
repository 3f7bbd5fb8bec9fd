-- ===== src/Examples/Names.antt =====
-- Hostnames and the DNS cache at concrete inputs.
use wispurr.Base.{ℕ, ◌^◌, ◌*◌, ◌≡◌, refl, List, [], ◌∷◌, Option, none, some, arith}
use wispurr.Base.Int.{pos}
use wispurr.Protocol.CloseReason
use wispurr.IpAddress.{Ip, mapped}
use wispurr.Hostname.{normalize_target_hostname}
use wispurr.Dial.{Net}
use wispurr.Dial.Bypass.{through_cache}
use wispurr.Dns.{
  DnsCache, verbatim, Event, looks_up, expires, new_dns_cache, lookup_ip_addr, run, answers,
}
use wispurr.Dns.Expiry.{lookups, answers-lookups}
use wispurr.Dns.Backed.{Explained, run_log, run-Explained}
use wispurr.Examples.Dialing.{target_name}

abbrev ask : List ℕ → Option (List Ip)
ask host = some (mapped 127 0 0 1 ∷ [])

abbrev asking : Net
asking = record {
  parse_ip = λ host. none;
  ip_string = λ ip. ip;
  source_key = λ ip. some ip;
  lookup = ask;
  join_host_port = λ host port. "target";
  dest_key = λ host port. "target";
}

abbrev empty_cache : DnsCache
empty_cache = new_dns_cache (pos 0) verbatim

abbrev asking_cache : Net
asking_cache = record asking { lookup = through_cache asking empty_cache ask 5 7 }

-- An answer with addresses of both families.
abbrev mixed : List Ip
mixed =
    (0x20 ∷ 1 ∷ 0xd ∷ 0xb8 ∷ 0 ∷ 0 ∷ 0 ∷ 0 ∷ 0 ∷ 0 ∷ 0 ∷ 0 ∷ 0 ∷ 0 ∷ 0 ∷ 1 ∷ [])
    ∷ mapped 192 0 2 1
    ∷ mapped 192 0 2 2
    ∷ []

-- "IPv4First "
abbrev order : List ℕ
order = b'I' ∷ b'P' ∷ b'v' ∷ b'4' ∷ b'F' ∷ b'i' ∷ b'r' ∷ b's' ∷ b't' ∷ b' ' ∷ []

abbrev no_address : List ℕ → Option Ip
no_address host = none

-- A name that is looked up, fails, and is looked up again after its entry is over.
abbrev lookups_of_one : List Event
lookups_of_one =
    looks_up target_name 5 none 7
    ∷ looks_up target_name 9 (some mixed) 11
    ∷ expires (200 * 10 ^ 9)
    ∷ looks_up target_name (200 * 10 ^ 9) (some mixed) (201 * 10 ^ 9)
    ∷ []

answers-lookups_example :
    answers no_address (new_dns_cache (pos 0) order) lookups_of_one
    ≡ answers no_address (new_dns_cache (pos 0) order) (lookups lookups_of_one)
answers-lookups_example =
    answers-lookups no_address (new_dns_cache (pos 0) order) 0 lookups_of_one
      (omega arith, (omega arith, (omega arith, (omega arith, tt))))

run-Explained_example :
    Explained
      (120 * 10 ^ 9)
      order
      none
      target_name
      (202 * 10 ^ 9)
      none
      (203 * 10 ^ 9)
      (run_log (120 * 10 ^ 9) order no_address (new_dns_cache (pos 0) order) [] lookups_of_one)
      (lookup_ip_addr no_address
        (run no_address (new_dns_cache (pos 0) order) lookups_of_one)
        target_name
        (202 * 10 ^ 9)
        none
        (203 * 10 ^ 9)).1
unfolding new_dns_cache normalize_target_hostname wispurr.Hostname.trim_dot
run-Explained_example =
    run-Explained (120 * 10 ^ 9) order no_address (new_dns_cache (pos 0) order) lookups_of_one
      target_name (202 * 10 ^ 9) none (203 * 10 ^ 9) (λ host. refl) refl refl

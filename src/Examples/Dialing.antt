-- ===== src/Examples/Dialing.antt =====
-- The decision to dial, the names and the cache at concrete inputs.
use wispurr.Base.{arith, ltb, if◌then◌else◌, ℕ, ◌≡◌, refl, List, [], ◌∷◌, true, false, none, some}
use wispurr.Base.Int.{pos}
use wispurr.IpAddress.{mapped}
use wispurr.Semaphore.{new_semaphore}
use wispurr.Protocol.StreamType.{tcp}
use wispurr.Signature.{SignatureConfig, matches}
use wispurr.Signature.Window.{fresh}
use wispurr.Signature.Verdict.{Event, tries, run, no_rings}
use wispurr.Dial.After.{cuts, settle_dial, after_dial, after_dial-verdict}
use wispurr.Dial.{DialConfig, Globals, Net, decide}
use wispurr.Dial.Safety.{Passes, decide-Passes}
use wispurr.Dial.Syns.{syns_after, decide_syns}

abbrev pub local_name : List ℕ
local_name = b'l' ∷ b'o' ∷ b'c' ∷ b'a' ∷ b'l' ∷ []

abbrev pub target_name : List ℕ
target_name = b'e' ∷ b'x' ∷ b'.' ∷ b'c' ∷ b'o' ∷ b'm' ∷ []

-- A resolver that names a private address and then a public one.
abbrev net : Net
net = record {
  parse_ip = λ host. none;
  ip_string = λ ip. ip;
  source_key = λ ip. some ip;
  lookup = λ host. some (mapped 10 0 0 1 ∷ mapped 93 184 216 34 ∷ []);
  join_host_port = λ host port. "target";
  dest_key = λ host port. "target";
}

abbrev pub dial_settings : DialConfig
dial_settings = record {
  whitelist_hostnames = [];
  blacklist_hostnames = local_name ∷ [];
  whitelist_ports = 80 ∷ 443 ∷ [];
  blacklist_ports = [];
  allow_tcp = true;
  allow_udp = false;
  allow_direct_ip = false;
  allow_loopback_ips = false;
  allow_private_ips = false;
  dns_cache = true;
  proxy = false;
}

abbrev globals : Globals
globals = record {
  per_dest_sec = none;
  per_dest_min = none;
  reputation = none;
  in_flight_syns = some (new_semaphore (pos 4));
}

decide-Passes_example :
    Passes net dial_settings 1 80 target_name
      (decide net dial_settings globals 1 80 target_name "192.0.2.1" 0).1
decide-Passes_example = decide-Passes net dial_settings globals 1 80 target_name "192.0.2.1" 0 refl

decide_syns_example :
    syns_after net 1 (decide net dial_settings globals 1 80 target_name "192.0.2.1" 0)
    ≡ globals.in_flight_syns
decide_syns_example = decide_syns net dial_settings globals 1 80 target_name "192.0.2.1" 0

-- Two dials of the target by connection 5, and one of another connection.
abbrev detectors : SignatureConfig
detectors = record { enabled = true; window = 10; min_samples = pos 2 }

abbrev tried : List Event
tried =
    tries 5 "target" (record { time = 3; ok = false })
    ∷ tries 6 "target" (record { time = 4; ok = true })
    ∷ tries 5 "target" (record { time = 8; ok = false })
    ∷ []

after_dial-verdict_example :
    (after_dial net ltb
      (λ text part. true)
      (some detectors)
      globals
      (run detectors no_rings tried)
      5
      tcp
      target_name
      80
      "192.0.2.1"
      15
      (some "connection refused")).result
    ≡ (if matches ltb detectors (
          fresh 10 15 (
            record { time = 3; ok = false }
            ∷ record { time = 8; ok = false }
            ∷ record { time = 15; ok = false }
            ∷ []))
        then cuts false
        else settle_dial net ltb (λ text part. true) (some "connection refused"))
after_dial-verdict_example =
    after_dial-verdict net ltb (λ text part. true) detectors 9 globals tried 5 target_name 80
      "192.0.2.1" 15 (some "connection refused") refl refl
      (omega arith, (omega arith, (omega arith, tt)))

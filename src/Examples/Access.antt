-- ===== src/Examples/Access.antt =====
-- The handshake, the egress policy and the client's address at concrete inputs.
use wispurr.Base.{
  ℕ, ◌≡◌, refl, List, [], ◌∷◌, ◌++◌, Bool, true, false, Option, none, some, arith, inr, ◌==◌,
  if◌then◌else◌, length,
}
use wispurr.Base.Int.{pos}
use wispurr.Base.Map.{empty, insert, bytes_key}
use wispurr.WriteQueue.{open_queue}
use wispurr.Handshake.Extensions.{InfoConfig}
use wispurr.Handshake.Session.{Session, SessionConfig, handle_info}
use wispurr.Handshake.Session.Admission.{Judged, handle_info-Judged}
use wispurr.IpAddress.{Ip, IpNet, net_contains}
use wispurr.Egress.{EgressPolicy}
use wispurr.ClientIp.{resolve_client_ip, split_commas}
use wispurr.ClientIp.Trust.{resolve_client_ip-forged}

-- No password stands as a hash, so nothing is compared with one.
abbrev no_hashes : List ℕ → List ℕ → Bool
no_hashes stored provided = false

abbrev info_config : InfoConfig
info_config = record {
  allow_udp = true;
  password_auth = true;
  password_auth_required = true;
  motd = [];
}

abbrev session_config : SessionConfig
session_config = record {
  info = info_config;
  password_users = insert (97 ∷ []) (98 ∷ []) empty;
  buffer_remaining_length = 128;
  pending_queue_size = pos 0;
}

abbrev waiting : Session
waiting = record {
  queue = open_queue;
  is_v2 = true;
  handshake_done = some false;
  read_deadline = true;
  stream_confirm = false;
  authenticated = false;
  next_done = 0;
}

-- The user "a" with the password "b".
abbrev info_payload : List ℕ
info_payload = 2 ∷ 1 ∷ 0x02 ∷ 3 ∷ 0 ∷ 0 ∷ 0 ∷ 1 ∷ 97 ∷ 98 ∷ []

handle_info-Judged_example :
    Judged no_hashes session_config waiting info_payload
      (handle_info no_hashes session_config waiting 0 info_payload (some 3))
handle_info-Judged_example =
    handle_info-Judged no_hashes session_config waiting info_payload (some 3) false refl

-- The text of an address, told apart by its length alone.
abbrev family_name : Ip → List ℕ
family_name ip = if length ip == 4 then b'4' ∷ [] else b'6' ∷ []

-- A policy for a private network, with one network denied.
abbrev private_policy : EgressPolicy
private_policy = record {
  allow_loopback = false;
  allow_private = true;
  allow_ips = [];
  allow_cidrs = [];
  deny_ips = (b'6' ∷ []) ∷ [];
  deny_cidrs = record { number = 10 ∷ 1 ∷ 0 ∷ 0 ∷ []; mask = 255 ∷ 255 ∷ 0 ∷ 0 ∷ [] } ∷ [];
}

abbrev host : Ip
host = 10 ∷ 2 ∷ 0 ∷ 1 ∷ []

-- An entry is the four bytes of an address, and the proxies stand in 9.9.0.0/16.
abbrev four_bytes : List ℕ → Option Ip
four_bytes text = if length text == 4 then some text else none

abbrev proxy_nets : List IpNet
proxy_nets = record { number = 9 ∷ 9 ∷ 0 ∷ 0 ∷ []; mask = 255 ∷ 255 ∷ 0 ∷ 0 ∷ [] } ∷ []

abbrev proxy : Ip
proxy = 9 ∷ 9 ∷ 1 ∷ 1 ∷ []

abbrev written_by_proxies : List ℕ
written_by_proxies = 7 ∷ 7 ∷ 7 ∷ 7 ∷ b',' ∷ 9 ∷ 9 ∷ 1 ∷ 2 ∷ []

resolve_client_ip-forged_example :
    resolve_client_ip four_bytes proxy_nets four_bytes proxy
      (((1 ∷ 2 ∷ 3 ∷ 4 ∷ []) ++ (b',' ∷ written_by_proxies)) ∷ [])
    ≡ (7 ∷ 7 ∷ 7 ∷ 7 ∷ [])
unfolding net_contains split_commas
resolve_client_ip-forged_example =
    resolve_client_ip-forged four_bytes proxy_nets four_bytes proxy (1 ∷ 2 ∷ 3 ∷ 4 ∷ [])
      written_by_proxies (7 ∷ 7 ∷ 7 ∷ 7 ∷ []) ((9 ∷ 9 ∷ 1 ∷ 2 ∷ []) ∷ []) [] proxy
      (7 ∷ 7 ∷ 7 ∷ 7 ∷ []) refl (ground arith) refl (inr (_, refl, ground arith), tt) refl
      (ground arith)

abbrev stranger : Ip
stranger = 8 ∷ 8 ∷ 8 ∷ 8 ∷ []

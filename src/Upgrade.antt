-- ===== src/Upgrade.antt =====
-- The handler of createWispHandler and requiresV2 (wisp/wisp.go), with the end of deleteAllWispStreams
-- (wisp/wisp-connection.go). Requests are served by goroutines of their own, so a request that was let
-- in and its upgrade are two steps.
pub mod Permits
use wispurr.Base.{
  ℕ, zero, suc, ◌+◌, ◌-◌, List, [], ◌∷◌, Bool, true, false, ◌&&◌, ◌||◌, not, Option, none, some,
  ◌==◌, if◌then◌else◌, String,
}
use wispurr.Base.Map.{contains, nat_key}
use wispurr.SlidingWindow
use wispurr.SlidingWindow.{SlidingWindow}
use wispurr.Semaphore
use wispurr.Semaphore.{Semaphore}

pub record HandlerConfig : Type 0 where
  pub enable_v2 : Bool
  pub enable_twisp : Bool
  pub password_auth_required : Bool
  pub has_non_ws_response : Bool

-- `upgrading` counts the requests between the semaphore and the end of their upgrade, `active` lists
-- the connections, and `next_id` is connIDCounter.
pub record Server : Type 0 where
  pub connection_rate : Option SlidingWindow
  pub connections : Option Semaphore
  pub upgrading : ℕ
  pub active : List ℕ
  pub next_id : ℕ

-- `websocket` says that the header Upgrade names websocket, `has_protocol` that
-- Sec-WebSocket-Protocol is not empty, and `remote_ip` is what ResolveClientIP returns.
pub record Request : Type 0 where
  pub websocket : Bool
  pub has_protocol : Bool
  pub remote_ip : String

pub data Answer : Type 0 where
  page upgrade_required too_many_requests service_unavailable : Answer
  upgrades : Bool → Answer

-- requiresV2
unfoldable pub requires_v2 : HandlerConfig → Bool
requires_v2 cfg = cfg.password_auth_required || cfg.enable_twisp

unfoldable pub release_permit : Server → Server
release_permit s = record s { connections = Semaphore.release s.connections }

unfoldable pub after_permit : HandlerConfig → Server → Request → Server × Answer
after_permit cfg s r =
    let use_v2 = cfg.enable_v2 && r.has_protocol in
    if requires_v2 cfg && not use_v2
    then (release_permit s, upgrade_required)
    else (record s { upgrading = s.upgrading + 1 }, upgrades use_v2)

unfoldable pub take_permit :
    HandlerConfig → Server → Request → Option Semaphore × Bool → Server × Answer
take_permit cfg s r (permits, acquired) =
    if acquired
    then after_permit cfg (record s { connections = permits }) r
    else (s, service_unavailable)

unfoldable pub after_rate : HandlerConfig → Server → Request → Bool → Server × Answer
after_rate cfg s r allowed =
    if allowed
    then take_permit cfg s r (Semaphore.try_acquire s.connections)
    else (s, too_many_requests)

-- The handler, up to the upgrade.
unfoldable pub handle_request : HandlerConfig → Server → Request → ℕ → Server × Answer
handle_request cfg s r now =
    let (w, allowed) = SlidingWindow.allow s.connection_rate r.remote_ip now in
    if not r.websocket
    then (s, if cfg.has_non_ws_response then page else upgrade_required)
    else after_rate cfg (record s { connection_rate = w }) r allowed

-- The rest of it, for a request that is upgrading: `failed` says that Upgrade returns an error.
unfoldable pub finish_on : Server → ℕ → Bool → Server
finish_on s zero failed = s
finish_on s (suc n) failed =
    if failed
    then release_permit (record s { upgrading = n })
    else record s { upgrading = n; active = (s.next_id + 1) ∷ s.active; next_id = s.next_id + 1 }

unfoldable pub finish_upgrade : Server → Bool → Server
finish_upgrade s failed = finish_on s s.upgrading failed

-- active.Delete(id)
abbrev pub remove : ℕ → List ℕ → List ℕ
remove id [] = []
remove id (j ∷ js) = let rest = remove id js in if j == id then js else j ∷ rest

-- The end of deleteAllWispStreams, which runs once for a connection.
unfoldable pub end_connection : Server → ℕ → Server
end_connection s id =
    if contains id s.active then release_permit (record s { active = remove id s.active }) else s

pub data Event : Type 0 where
  requests : Request → ℕ → Event
  upgraded : Bool → Event
  ends : ℕ → Event

unfoldable pub step : HandlerConfig → Server → Event → Server
step cfg s (requests r now) = (handle_request cfg s r now).0
step cfg s (upgraded failed) = finish_upgrade s failed
step cfg s (ends id) = end_connection s id

unfoldable pub run : HandlerConfig → Server → List Event → Server
run cfg s [] = s
run cfg s (e ∷ rest) = run cfg (step cfg s e) rest

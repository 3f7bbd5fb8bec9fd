-- ===== src/Examples/Requests.antt =====
-- The handler and the detectors at concrete inputs.
use wispurr.Base.{refl, List, [], ◌∷◌, true, false, none, some, arith}
use wispurr.Base.Int.{pos}
use wispurr.Semaphore.{new_semaphore}
use wispurr.Upgrade.{HandlerConfig, Server, Request, Event, requests, upgraded, ends, run}
use wispurr.Upgrade.Permits.{Counts, run-Counts}

abbrev settings : HandlerConfig
settings = record {
  enable_v2 = true;
  enable_twisp = true;
  password_auth_required = true;
  has_non_ws_response = false;
}

abbrev server : Server
server = record {
  connection_rate = none;
  connections = some (new_semaphore (pos 2));
  upgrading = 0;
  active = [];
  next_id = 0;
}

abbrev modern : Request
modern = record { websocket = true; has_protocol = true; remote_ip = "192.0.2.1" }

abbrev dated : Request
dated = record { websocket = true; has_protocol = false; remote_ip = "192.0.2.2" }

-- One request is refused after it took a permit, one upgrade fails, and one connection ends.
abbrev history : List Event
history =
    requests modern 0
    ∷ requests dated 1
    ∷ upgraded false
    ∷ requests modern 2
    ∷ upgraded true
    ∷ requests modern 3
    ∷ requests modern 4
    ∷ ends 1
    ∷ []

run-Counts_example : Counts 1 (run settings server history)
unfolding new_semaphore
run-Counts_example = run-Counts 1 settings server history (refl, refl, omega arith)

-- ===== src/Examples/Connections.antt =====
-- The table of streams and the decision to dial at concrete inputs.
use wispurr.Base.{ℕ, ◌≡◌, refl, List, [], ◌∷◌, true, false, none, some}
use wispurr.Base.Int.{pos}
use wispurr.Base.Map.{empty}
use wispurr.WriteQueue.{open_queue}
use wispurr.Stream.Packets.{connects, flushes, shuts}
use wispurr.Connection.State.{Connection, ConnectionConfig}
use wispurr.Connection.Handlers.{Event, packets, data_packets, acts, run, find_stream}
use wispurr.Connection.Handlers.{delete_all_wisp_streams}
use wispurr.Connection.Table.{Inv, open_count}
use wispurr.Connection.Shutdown.{delete_all_wisp_streams-Over}
use wispurr.Connection.Invariant.{run-Inv}
use wispurr.Connection.Lookup.{find_stream-streams}

abbrev settings : ConnectionConfig
settings = record {
  pending_queue_size = pos 0;
  buffer_remaining_length = 128;
  flood = some (record { max_concurrent_streams = pos 2; ws_close_after_violations = pos 3 });
  enable_twisp = false;
  password_auth = false;
  remote_ip = "192.0.2.1";
}

abbrev fresh : Connection
fresh = record {
  queue = open_queue;
  is_v2 = true;
  authenticated = false;
  store = [];
  streams = empty;
  stream_cache = empty;
  stream_count = pos 0;
  violations = 0;
  per_source = none;
  reputation = none;
  terminals = λ id. false;
  crashed = false;
}

fresh-Inv : Inv fresh
fresh-Inv = record {
  linked = λ id address e. cc;
  registered = λ address s e o. cc;
  cached = λ slot address e. cc;
  counted = refl;
}

-- Two streams are opened, one takes data and is closed, and its id is used again.
abbrev history : List Event
history =
    packets 1 7 (1 ∷ 80 ∷ 0 ∷ 97 ∷ []) 0
    ∷ packets 1 263 (1 ∷ 80 ∷ 0 ∷ 98 ∷ []) 1
    ∷ data_packets 7 (1 ∷ 2 ∷ []) true true false
    ∷ acts 0 (connects 1)
    ∷ acts 0 (flushes false)
    ∷ data_packets 263 (3 ∷ []) true true false
    ∷ acts 0 (shuts 2)
    ∷ packets 1 7 (1 ∷ 80 ∷ 0 ∷ 97 ∷ []) 2
    ∷ []

run-Inv_example : Inv (run (λ host. true) settings fresh history)
run-Inv_example = run-Inv (λ host. true) settings fresh history fresh-Inv

find_stream-streams_example :
    (find_stream (run (λ host. true) settings fresh history) 7).1
    ≡ (run (λ host. true) settings fresh history).streams 7
find_stream-streams_example =
    find_stream-streams (run (λ host. true) settings fresh history) 7
      (run-Inv (λ host. true) settings fresh history fresh-Inv)

-- The same without the last packets, when both streams are open.
abbrev two_streams : Connection
two_streams =
    run (λ host. true) settings fresh
      (packets 1 7 (1 ∷ 80 ∷ 0 ∷ 97 ∷ []) 0 ∷ packets 1 263 (1 ∷ 80 ∷ 0 ∷ 98 ∷ []) 1 ∷ [])

delete_all_wisp_streams-Over_example :
    (open_count (delete_all_wisp_streams settings two_streams).store ≡ 0)
    × ((delete_all_wisp_streams settings two_streams).stream_count ≡ pos 0)
    × ((id : ℕ) → (delete_all_wisp_streams settings two_streams).streams id ≡ none)
delete_all_wisp_streams-Over_example = delete_all_wisp_streams-Over settings two_streams (
    run-Inv (λ host. true) settings fresh
      (packets 1 7 (1 ∷ 80 ∷ 0 ∷ 97 ∷ []) 0 ∷ packets 1 263 (1 ∷ 80 ∷ 0 ∷ 98 ∷ []) 1 ∷ [])
      fresh-Inv)

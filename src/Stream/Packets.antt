-- ===== src/Stream/Packets.antt =====
-- The part of handleDataPacket of wisp/wisp-connection.go that gives a payload to its stream, and the
-- end of handleConnect of wisp/wisp-stream.go, which writes what came before the target was connected.
use wispurr.Base.{
  ℕ, ◌+◌, ◌-◌, ◌*◌, ◌%◌, ◌^◌, List, [], ◌∷◌, ◌++◌, Bool, true, false, ◌&&◌, ◌||◌, not, length, ltb,
  ◌==◌, if◌then◌else◌,
}
use wispurr.Protocol.StreamType.{tcp}
use wispurr.Protocol.CloseReason.{network_error, throttled}
use wispurr.Stream.State.{
  Connector, Stream, Effect, signal_conn_ready, close_stream, dialing, reading, returned, flushing,
  nothing, panic, credit,
}
use wispurr.Stream.Ingress.{queue_ingress_owned, run_ingress_step}

-- stream.bufferRemaining--, of a uint32, with a CONTINUE packet when it comes to 0; `full` is the
-- configuration's bufferRemainingLength.
unfoldable pub spend_credit : ℕ → Stream → Stream × Effect
spend_credit full s =
    let left = (s.buffer_remaining + 2 ^ 32 - 1) % 2 ^ 32 in
    if left == 0
    then (record s { buffer_remaining = full }, credit full)
    else (record s { buffer_remaining = left }, nothing)

abbrev pub max_pending_bytes : ℕ
max_pending_bytes = 16 * 1024 * 1024

-- handleDataPacket, from the test of connReadyDone on. Before the target is connected the payload is
-- copied and waits, up to 16 MiB.
unfoldable pub hold_back : Stream → List ℕ → Stream × Effect
hold_back s payload =
    if ltb max_pending_bytes (s.pending_bytes + length payload) then close_stream s throttled else (
      record s {
        pending_data = s.pending_data ++ (payload ∷ []);
        pending_bytes = s.pending_bytes + length payload;
      },
      nothing,
    )

unfoldable pub after_queue : ℕ → Stream × Effect × Bool → Stream × Effect
after_queue full (s, e, ok) = if ok then spend_credit full s else (s, e)

-- writeAll(stream.conn, payload): no byte is written of an empty payload.
unfoldable pub write_direct : ℕ → Stream → List ℕ → Bool → Stream × Effect
write_direct full s [] failed = if s.stream_type == tcp then spend_credit full s else (s, nothing)
write_direct full s (b ∷ bs) failed =
    if not s.has_conn
    then (s, panic)
    else if failed
    then close_stream s network_error
    else let s' : Stream = record s { written = s.written ++ (b ∷ bs) } in
      if s.stream_type == tcp then spend_credit full s' else (s', nothing)

-- `limit` is maxPendingQueueBytes, `bufp` says that the payload comes in a buffer of the pool, and
-- `failed` that a write made on the spot fails.
unfoldable pub give_data : ℕ → ℕ → Stream → List ℕ → Bool → Bool → Stream × Effect
give_data limit full s payload bufp failed =
    if not s.conn_ready_done
    then hold_back s payload
    else if s.stream_type == tcp && s.ingress_active
    then after_queue full (queue_ingress_owned limit s payload bufp)
    else write_direct full s payload failed

-- handleDataPacket for a stream that it has found, with no other goroutine in between.
unfoldable pub data_packet : ℕ → ℕ → Stream → List ℕ → Bool → Bool → Stream × Effect
data_packet limit full s payload bufp failed =
    if s.is_open then give_data limit full s payload bufp failed else (s, nothing)

-- handleConnect, once the target is connected: it takes what waits, and writes it.
unfoldable pub connected : ℕ → ℕ → Stream → Stream
connected stream_type full s = record s {
  stream_type = stream_type;
  buffer_remaining = full;
  has_conn = true;
  conn_closed = false;
  pending_data = [];
  pending_bytes = 0;
  connector = flushing s.pending_data;
}

-- The end of handleConnect, from which the stream takes data by itself.
unfoldable pub ready : Stream → Stream
unfolding signal_conn_ready
ready s =
    signal_conn_ready
      (record s { ingress_active = s.stream_type == tcp || s.ingress_active; connector = reading })

unfoldable pub flush_one : Stream → List ℕ → List (List ℕ) → Bool → Stream × Effect
unfolding signal_conn_ready
flush_one s d ds failed =
    if not s.is_open
    then (signal_conn_ready (record s { connector = returned }), nothing)
    else if not s.has_conn
    then (s, panic)
    else if failed
    then close_stream (record s { connector = returned }) network_error
    else (record s { written = s.written ++ d; connector = flushing ds }, nothing)

unfoldable pub connect_step : Connector → Stream → Bool → Stream × Effect
connect_step (flushing []) s failed = (ready s, nothing)
connect_step (flushing (d ∷ ds)) s failed = flush_one s d ds failed
connect_step dialing s failed = (s, nothing)
connect_step reading s failed = (s, nothing)
connect_step returned s failed = (s, nothing)

-- The next thing that handleConnect does after `connected`.
unfoldable pub run_connect_step : Stream → Bool → Stream × Effect
run_connect_step s failed = connect_step s.connector s failed

-- The way of handleConnect that ends without a target.
unfoldable pub abandoned : Stream → ℕ → Stream × Effect
abandoned s reason = close_stream (record s { connector = returned }) reason

-- What the goroutines can do to a stream, in any order: a data packet, the steps of handleConnect,
-- those of runIngressWriter, and a close.
pub data Action : Type 0 where
  gives : List ℕ → Bool → Bool → Action
  connects : ℕ → Action
  flushes drains : Bool → Action
  abandons shuts : ℕ → Action

unfoldable pub connects_now : Connector → ℕ → ℕ → Stream → Stream
connects_now dialing stream_type full s = connected stream_type full s
connects_now c stream_type full s = s

unfoldable pub abandons_now : Connector → Stream → ℕ → Stream × Effect
abandons_now dialing s reason = abandoned s reason
abandons_now c s reason = (s, nothing)

unfoldable pub act : ℕ → ℕ → Stream → Action → Stream × Effect
act limit full s (gives payload bufp failed) = data_packet limit full s payload bufp failed
act limit full s (connects stream_type) = (connects_now s.connector stream_type full s, nothing)
act limit full s (flushes failed) = run_connect_step s failed
act limit full s (drains failed) = run_ingress_step s failed
act limit full s (abandons reason) = abandons_now s.connector s reason
act limit full s (shuts reason) = close_stream s reason

unfoldable pub run : ℕ → ℕ → Stream → List Action → Stream
run limit full s [] = s
run limit full s (a ∷ rest) = run limit full (act limit full s a).0 rest

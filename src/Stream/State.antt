-- ===== src/Stream/State.antt =====
-- wispStream of wisp/types.go with its ingress jobs, and signalConnReady and close of
-- wisp/wisp-stream.go as far as they touch the stream.
use wispurr.Base.{ℕ, ◌+◌, List, [], ◌∷◌, ◌++◌, Bool, true, false, ◌||◌, length, if◌then◌else◌}

pub data IngressPool : Type 0 where
  pool_none pool_ws pool_copy : IngressPool

-- `bufp` says that the payload stands in a buffer, which `pool` owns.
pub record IngressJob : Type 0 where
  pub payload : List ℕ
  pub bufp : Bool
  pub pool : IngressPool

-- The goroutine of runIngressWriter: none, at the top of its loop, or with a batch in its hands.
pub data IngressRunner : Type 0 where
  stopped running : IngressRunner
  writing : List IngressJob → IngressRunner

-- Where handleConnect is: not connected yet, writing what came before, reading from the target, or
-- gone.
pub data Connector : Type 0 where
  dialing reading returned : Connector
  flushing : List (List ℕ) → Connector

-- `has_conn` says that `conn` is not nil, `conn_closed` that it was closed, and `ws_puts` counts the buffers given back to the pool of
-- payloads.
pub record Stream : Type 0 where
  pub stream_id : ℕ
  pub stream_type : ℕ
  pub has_conn : Bool
  pub conn_closed : Bool
  pub buffer_remaining : ℕ
  pub conn_ready_done : Bool
  pub is_open : Bool
  pub pending_data : List (List ℕ)
  pub pending_bytes : ℕ
  pub ingress_active : Bool
  pub pending_ingress : List IngressJob
  pub pending_ing_bytes : ℕ
  pub ingress_writing : Bool
  pub runner : IngressRunner
  pub connector : Connector
  pub written : List ℕ
  pub ws_puts : ℕ

-- &wispStream{…} of handleConnectPacket
unfoldable pub new_stream : ℕ → Stream
new_stream stream_id = record {
  stream_id = stream_id;
  stream_type = 0;
  has_conn = false;
  conn_closed = false;
  buffer_remaining = 0;
  conn_ready_done = false;
  is_open = true;
  pending_data = [];
  pending_bytes = 0;
  ingress_active = false;
  pending_ingress = [];
  pending_ing_bytes = 0;
  ingress_writing = false;
  runner = stopped;
  connector = dialing;
  written = [];
  ws_puts = 0;
}

-- What an operation leaves to the connection: the rest of a close, a CONTINUE packet with the credit,
-- or the end of the program by a nil pointer.
pub data Effect : Type 0 where
  nothing panic : Effect
  closes credit : ℕ → Effect

abbrev pub put_ws : IngressPool → ℕ
put_ws pool_none = 0
put_ws pool_ws = 1
put_ws pool_copy = 0

-- releaseIngressJob
abbrev pub release : IngressJob → ℕ
release j = if j.bufp then put_ws j.pool else 0

abbrev pub release_all : List IngressJob → ℕ
release_all [] = 0
release_all (j ∷ js) = release j + release_all js

abbrev pub batch_bytes : List IngressJob → ℕ
batch_bytes [] = 0
batch_bytes (j ∷ js) = length j.payload + batch_bytes js

abbrev pub payloads : List IngressJob → List ℕ
payloads [] = []
payloads (j ∷ js) = j.payload ++ payloads js

-- signalConnReady
unfoldable pub signal_conn_ready : Stream → Stream
signal_conn_ready s = if s.conn_ready_done then s else record s { conn_ready_done = true }

unfoldable pub drain_ingress : Stream → Stream
drain_ingress s =
    if s.ingress_active
    then record s {
      ingress_active = false;
      pending_ingress = [];
      pending_ing_bytes = 0;
      ws_puts = s.ws_puts + release_all s.pending_ingress;
    }
    else s

-- close, for a stream whose CompareAndSwap succeeds; the connection does the rest.
unfoldable pub shut : Stream → Stream
unfolding drain_ingress signal_conn_ready
shut s =
    drain_ingress
      (signal_conn_ready (record s { is_open = false; conn_closed = s.conn_closed || s.has_conn }))

unfoldable pub close_stream : Stream → ℕ → Stream × Effect
unfolding shut
close_stream s reason = if s.is_open then (shut s, closes reason) else (s, nothing)

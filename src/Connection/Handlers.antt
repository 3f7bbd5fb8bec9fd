-- ===== src/Connection/Handlers.antt =====
-- The packets of a client after the handshake (wisp/wisp-connection.go): handlePacket,
-- handleConnectPacket, handleTwispConnect, violation, handleDataPacket, handleClosePacket, and
-- deleteAllWispStreams. The counts of bytes are left out.
use wispurr.Base.{
  ℕ, zero, suc, ◌+◌, ◌*◌, ◌%◌, List, [], ◌∷◌, ◌++◌, Bool, true, false, ◌&&◌, ◌||◌, not, Option,
  none, some, ◌==◌, length, if◌then◌else◌, String,
}
use wispurr.Base.Int.{ℤ, pos, ◌+ℤ◌, leb_ℤ}
use wispurr.Base.Map.{insert, nat_key}
use wispurr.Protocol.PacketType
use wispurr.Protocol.StreamType
use wispurr.Protocol.CloseReason
use wispurr.SlidingWindow
use wispurr.Reputation
use wispurr.Stream.State.{new_stream}
use wispurr.Stream.Packets
use wispurr.Stream.Packets.{gives, shuts}
use wispurr.Connection.State.{
  ConnectionConfig, FloodLimits, Connection, stream_cache_size, send_close_packet, close, id_at,
  on_stream, int_32,
}

-- What a handler leaves to another goroutine, to a terminal, or to the handshake.
pub data Task : Type 0 where
  idle : Task
  dials : ℕ → ℕ → Task
  shuts_stream : ℕ → Task
  runs_terminal : ℕ → List ℕ → Task
  writes_terminal : ℕ → List ℕ → Task
  closes_terminal : ℕ → Task
  resizes_terminal : ℕ → ℕ → ℕ → Task
  reads_info : ℕ → List ℕ → Task

unfoldable pub count_violation : ConnectionConfig → Connection → ℤ → Connection
count_violation cfg c most =
    let c' : Connection = record c { violations = c.violations + 1 } in
    if leb_ℤ (int_32 most) (pos c'.violations) then close c' else c'

unfoldable pub violation_of : ConnectionConfig → Connection → Option FloodLimits → Connection
violation_of cfg c none = c
violation_of cfg c (some limits) =
    if leb_ℤ limits.ws_close_after_violations (pos 0)
    then c
    else count_violation cfg c limits.ws_close_after_violations

unfoldable pub violation : ConnectionConfig → Connection → Connection
violation cfg c = violation_of cfg c cfg.flood

unfoldable pub rep_add_source : ConnectionConfig → Connection → String → ℕ → Connection
rep_add_source cfg c reason now = record c {
  reputation = Reputation.add_source c.reputation cfg.remote_ip reason now;
}

-- handleTwispConnect, with twispAuthorized.
unfoldable pub handle_twisp_connect :
    ConnectionConfig → Connection → ℕ → List ℕ → ℕ → Connection × Task
handle_twisp_connect cfg c stream_id command now =
    let blocked = send_close_packet cfg c stream_id CloseReason.blocked in
    let reported =
      send_close_packet cfg (rep_add_source cfg c "twispNoAuth" now) stream_id
        CloseReason.blocked in
    if not cfg.enable_twisp
    then (blocked, idle)
    else if not c.is_v2 || not cfg.password_auth || not (c.is_v2 && c.authenticated)
    then (reported, idle)
    else (c, runs_terminal stream_id command)

-- LoadOrStore, and what follows it: a stream of that id is there already, or the new one enters.
unfoldable pub register_on : ConnectionConfig → Connection → ℕ → ℕ → Option ℕ → Connection × Task
register_on cfg c stream_id stream_type (some address) =
    (send_close_packet cfg c stream_id CloseReason.invalid_info, idle)
register_on cfg c stream_id stream_type none = (
  record c {
    store = c.store ++ (new_stream stream_id ∷ []);
    streams = insert stream_id (length c.store) c.streams;
    stream_count = c.stream_count +ℤ pos 1;
  },
  dials (length c.store) stream_type,
)

unfoldable pub register : ConnectionConfig → Connection → ℕ → ℕ → Connection × Task
register cfg c stream_id stream_type = register_on cfg c stream_id stream_type (c.streams stream_id)

unfoldable pub full_of_streams : Option FloodLimits → ℤ → Bool
full_of_streams none count = false
full_of_streams (some limits) count =
    not (leb_ℤ limits.max_concurrent_streams (pos 0))
    && leb_ℤ (int_32 limits.max_concurrent_streams) count

-- PerSource.Allow has answered.
unfoldable pub after_source :
    ConnectionConfig → Connection → ℕ → ℕ → List ℕ → ℕ → Bool → Connection × Task
after_source cfg c stream_id stream_type hostname now allowed =
    let throttled =
      send_close_packet cfg (rep_add_source cfg (violation cfg c) "burstRate" now) stream_id
        CloseReason.throttled in
    if not allowed
    then (throttled, idle)
    else if stream_type == StreamType.term
    then handle_twisp_connect cfg c stream_id hostname now
    else register cfg c stream_id stream_type

unfoldable pub ask_source : ConnectionConfig → Connection → ℕ → ℕ → List ℕ → ℕ → Connection × Task
ask_source cfg c stream_id stream_type hostname now =
    let (w, allowed) = SlidingWindow.allow c.per_source cfg.remote_ip now in
    after_source cfg (record c { per_source = w }) stream_id stream_type hostname now allowed

unfoldable pub is_empty : List ℕ → Bool
is_empty [] = true
is_empty (b ∷ bs) = false

module _ (valid_utf8 : List ℕ → Bool) where
  unfoldable pub refuses_connect : ℕ → ℕ → ℕ → List ℕ → Bool
  refuses_connect stream_id stream_type port hostname =
      stream_id == 0
      || (port == 0 && not (stream_type == StreamType.term))
      || is_empty hostname
      || not (valid_utf8 hostname)

  unfoldable pub handle_connect_packet :
      ConnectionConfig → Connection → ℕ → List ℕ → ℕ → Connection × Task
  handle_connect_packet cfg c stream_id (stream_type ∷ p0 ∷ p1 ∷ hostname) now =
      let throttled = send_close_packet cfg (violation cfg c) stream_id CloseReason.throttled in
      if refuses_connect stream_id stream_type (p0 + 256 * p1) hostname
      then (send_close_packet cfg c stream_id CloseReason.invalid_info, idle)
      else if full_of_streams cfg.flood c.stream_count
      then (throttled, idle)
      else ask_source cfg c stream_id stream_type hostname now
  handle_connect_packet cfg c stream_id payload now =
      (send_close_packet cfg c stream_id CloseReason.invalid_info, idle)

-- The stream of a data packet: from the cached slot if it is of that id, or from the table, and then
-- cached.
unfoldable pub cached_stream : Connection → ℕ → Option ℕ → Option ℕ
cached_stream c stream_id none = none
cached_stream c stream_id (some address) = elim (id_at c.store address) [
  | none ↦ none
  | some i ↦ if i == stream_id then some address else none
]

unfoldable pub load_stream : Connection → ℕ → Option ℕ → Connection × Option ℕ
load_stream c stream_id none = (c, none)
load_stream c stream_id (some address) = (
  record c { stream_cache = insert (stream_id % stream_cache_size) address c.stream_cache },
  some address,
)

unfoldable pub find_on : Connection → ℕ → Option ℕ → Connection × Option ℕ
find_on c stream_id none = load_stream c stream_id (c.streams stream_id)
find_on c stream_id (some address) = (c, some address)

unfoldable pub find_stream : Connection → ℕ → Connection × Option ℕ
find_stream c stream_id =
    find_on c stream_id (cached_stream c stream_id (c.stream_cache (stream_id % stream_cache_size)))

-- `waited` is the answer of the bandwidth limiter; `bufp` and `failed` are as for a stream.
unfoldable pub give_found :
    ConnectionConfig → Connection → ℕ → List ℕ → Bool → Bool → Bool → Option ℕ → Connection × Task
give_found cfg c stream_id payload bufp waited failed none =
    if c.terminals stream_id
    then (c, writes_terminal stream_id payload)
    else (send_close_packet cfg c stream_id CloseReason.invalid_info, idle)
give_found cfg c stream_id payload bufp waited failed (some address) =
    if waited then (on_stream cfg c address (gives payload bufp failed), idle) else (c, idle)

unfoldable pub handle_data_packet :
    ConnectionConfig → Connection → ℕ → List ℕ → Bool → Bool → Bool → Connection × Task
handle_data_packet cfg c stream_id payload bufp waited failed =
    let (c', found) = find_stream c stream_id in
    give_found cfg c' stream_id payload bufp waited failed found

unfoldable pub close_found : Connection → ℕ → Option ℕ → Task
close_found c stream_id none = if c.terminals stream_id then closes_terminal stream_id else idle
close_found c stream_id (some address) = shuts_stream address

unfoldable pub handle_close_packet : Connection → ℕ → List ℕ → Connection × Task
handle_close_packet c stream_id [] = (c, idle)
handle_close_packet c stream_id (reason ∷ rest) =
    if stream_id == 0 then (close c, idle) else (c, close_found c stream_id (c.streams stream_id))

unfoldable pub resize : ConnectionConfig → Connection → ℕ → List ℕ → Task
resize cfg c stream_id (r0 ∷ r1 ∷ c0 ∷ c1 ∷ rest) =
    if cfg.enable_twisp && c.terminals stream_id
    then resizes_terminal stream_id (r0 + 256 * r1) (c0 + 256 * c1)
    else idle
resize cfg c stream_id payload = idle

unfoldable pub handle_packet :
    (List ℕ → Bool) → ConnectionConfig → Connection → ℕ → ℕ → List ℕ → ℕ → Connection × Task
handle_packet valid_utf8 cfg c packet_type stream_id payload now =
    if packet_type == PacketType.info
    then (c, if c.is_v2 then reads_info stream_id payload else idle)
    else if packet_type == PacketType.connect
    then handle_connect_packet valid_utf8 cfg c stream_id payload now
    else if packet_type == PacketType.close
    then handle_close_packet c stream_id payload
    else if packet_type == PacketType.twisp_extension
    then (c, resize cfg c stream_id payload)
    else (c, idle)

-- deleteAllWispStreams: the connection is closed, and then each stream of the table.
unfoldable pub is_at : Option ℕ → ℕ → Bool
is_at none address = false
is_at (some a) address = a == address

unfoldable pub listed : Connection → ℕ → Bool
listed c address = elim (id_at c.store address) [
  | none ↦ false
  | some i ↦ is_at (c.streams i) address
]

unfoldable pub shut_listed : ConnectionConfig → Connection → ℕ → Connection
shut_listed cfg c address =
    if listed c address then on_stream cfg c address (shuts CloseReason.unspecified) else c

unfoldable pub shut_below : ConnectionConfig → Connection → ℕ → Connection
shut_below cfg c zero = c
shut_below cfg c (suc n) = shut_listed cfg (shut_below cfg c n) n

unfoldable pub delete_all_wisp_streams : ConnectionConfig → Connection → Connection
delete_all_wisp_streams cfg c = shut_below cfg (close c) (length c.store)

-- The goroutines of a connection: a packet other than data, a data packet, an operation on a stream by
-- a goroutine of its own, and a close.
pub data Event : Type 0 where
  packets : ℕ → ℕ → List ℕ → ℕ → Event
  data_packets : ℕ → List ℕ → Bool → Bool → Bool → Event
  acts : ℕ → Packets.Action → Event
  closes_connection : Event

unfoldable pub step : (List ℕ → Bool) → ConnectionConfig → Connection → Event → Connection
step valid_utf8 cfg c (packets packet_type stream_id payload now) =
    (handle_packet valid_utf8 cfg c packet_type stream_id payload now).0
step valid_utf8 cfg c (data_packets stream_id payload bufp waited failed) =
    (handle_data_packet cfg c stream_id payload bufp waited failed).0
step valid_utf8 cfg c (acts address a) = on_stream cfg c address a
step valid_utf8 cfg c closes_connection = close c

unfoldable pub run : (List ℕ → Bool) → ConnectionConfig → Connection → List Event → Connection
run valid_utf8 cfg c [] = c
run valid_utf8 cfg c (e ∷ rest) = run valid_utf8 cfg (step valid_utf8 cfg c e) rest

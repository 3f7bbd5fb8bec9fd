-- ===== src/Connection/State.antt =====
-- The table of streams, its cache and its count, and the store of the streams themselves: a stream is
-- known by its address, which is its position in `store`.
use wispurr.Base.{
  ℕ, ◌-◌, ◌%◌, ◌^◌, List, Bool, true, false, Option, none, some, ◌==◌, ltb, get_elem?, set,
  if◌then◌else◌, String,
}
use wispurr.Base.Int.{ℤ, pos, negsuc, ◌+ℤ◌}
use wispurr.Base.Map.{Map, delete, nat_key}
use wispurr.Frames.{build_close_packet, continue_frame}
use wispurr.WriteQueue
use wispurr.WriteQueue.{WriteQueue, open_queue, queue_write, max_pending_queue_bytes}
use wispurr.SlidingWindow.{SlidingWindow}
use wispurr.Reputation.{Reputation}
use wispurr.Stream.State.{Stream, Effect, nothing, panic, closes, credit}
use wispurr.Stream.Packets
use wispurr.Stream.Packets.{Action}

-- `flood` is FloodProtection, with its two limits of a connection.
pub record FloodLimits : Type 0 where
  pub max_concurrent_streams : ℤ
  pub ws_close_after_violations : ℤ

pub record ConnectionConfig : Type 0 where
  pub pending_queue_size : ℤ
  pub buffer_remaining_length : ℕ
  pub flood : Option FloodLimits
  pub enable_twisp : Bool
  pub password_auth : Bool
  pub remote_ip : String

-- `terminals` says of which ids twispRegistry has an open terminal, and `crashed` that a nil pointer
-- was used.
pub record Connection : Type 0 where
  pub queue : WriteQueue
  pub open queue use {is_closed}
  pub is_v2 : Bool
  pub authenticated : Bool
  pub store : List Stream
  pub streams : Map ℕ ℕ
  pub stream_cache : Map ℕ ℕ
  pub stream_count : ℤ
  pub violations : ℕ
  pub per_source : Option SlidingWindow
  pub reputation : Option Reputation
  pub terminals : ℕ → Bool
  pub crashed : Bool

abbrev pub stream_cache_size : ℕ
stream_cache_size = 256

-- int32(n)
abbrev pub signed : ℕ → ℤ
signed m = if ltb m (2 ^ 31) then pos m else negsuc (2 ^ 32 - 1 - m)

abbrev pub int_32 : ℤ → ℤ
int_32 (pos n) = signed (n % 2 ^ 32)
int_32 (negsuc n) = signed (2 ^ 32 - 1 - n % 2 ^ 32)

abbrev pub queue_limit : ConnectionConfig → ℕ
queue_limit cfg = max_pending_queue_bytes cfg.pending_queue_size

unfoldable pub send_packet : ConnectionConfig → Connection → ℕ → ℕ → Connection
send_packet cfg c stream_id buffer_remaining = if c.is_closed then c else record c {
  queue = queue_write (queue_limit cfg) c.queue (continue_frame stream_id buffer_remaining);
}

unfoldable pub send_close_packet : ConnectionConfig → Connection → ℕ → ℕ → Connection
send_close_packet cfg c stream_id reason = if c.is_closed then c else record c {
  queue = queue_write (queue_limit cfg) c.queue (build_close_packet stream_id reason);
}

unfoldable pub close : Connection → Connection
close c = record c { queue = WriteQueue.close c.queue }

-- deleteWispStream
unfoldable pub id_at : List Stream → ℕ → Option ℕ
id_at store address = elim (get_elem? store address) [ none ↦ none | some s ↦ some s.stream_id ]

unfoldable pub caches : List Stream → Option ℕ → ℕ → Bool
caches store none stream_id = false
caches store (some address) stream_id = elim (id_at store address) [
  | none ↦ false
  | some i ↦ i == stream_id
]

unfoldable pub uncache : List Stream → Map ℕ ℕ → ℕ → Map ℕ ℕ
uncache store cache stream_id =
    if caches store (cache (stream_id % stream_cache_size)) stream_id
    then delete (stream_id % stream_cache_size) cache
    else cache

unfoldable pub delete_wisp_stream : Connection → ℕ → Connection
delete_wisp_stream c stream_id = record c {
  streams = delete stream_id c.streams;
  stream_cache = uncache c.store c.stream_cache stream_id;
  stream_count = c.stream_count +ℤ negsuc 0;
}

-- What an operation on a stream leaves to its connection; for a close, that is the rest of the close.
unfoldable pub settle : ConnectionConfig → Connection → ℕ → Effect → Connection
settle cfg c stream_id nothing = c
settle cfg c stream_id panic = record c { crashed = true }
settle cfg c stream_id (credit n) = send_packet cfg c stream_id n
settle cfg c stream_id (closes reason) =
    send_close_packet cfg (delete_wisp_stream c stream_id) stream_id reason

unfoldable pub put_back : ConnectionConfig → Connection → ℕ → ℕ → Stream × Effect → Connection
put_back cfg c address stream_id (s, e) =
    settle cfg (record c { store = set c.store address s }) stream_id e

unfoldable pub on_found : ConnectionConfig → Connection → ℕ → Action → Option Stream → Connection
on_found cfg c address a none = c
on_found cfg c address a (some s) =
    put_back cfg c address s.stream_id
      (Packets.act (queue_limit cfg) cfg.buffer_remaining_length s a)

-- One operation on the stream at an address.
unfoldable pub on_stream : ConnectionConfig → Connection → ℕ → Action → Connection
on_stream cfg c address a = on_found cfg c address a (get_elem? c.store address)

-- ===== src/Connection/Invariant.antt =====
-- The table of streams along every history of packets, goroutines and closes.
use wispurr.Base.{
  ℕ, ◌+◌, ◌*◌, ◌%◌, ◌≡◌, refl, List, [], ◌∷◌, Bool, ◌&&◌, ◌||◌, not, Option, none, some, ◌==◌,
  get_elem?, set, if_intro,
}
use wispurr.Base.Int.{pos, leb_ℤ}
use wispurr.Protocol.StreamType
use wispurr.Protocol.CloseReason
use wispurr.Protocol.PacketType
use wispurr.SlidingWindow
use wispurr.Stream.State.{Stream, new_stream, Effect, nothing, panic, closes, credit}
use wispurr.Stream.Packets
use wispurr.Stream.Packets.{Action, gives}
use wispurr.Stream.Turns.{Turns, TurnsTo, act-Turns}
use wispurr.Connection.State.{
  stream_cache_size, Connection, ConnectionConfig, FloodLimits, send_packet, send_close_packet,
  close, delete_wisp_stream, settle, put_back, on_found, on_stream, queue_limit, int_32,
}
use wispurr.Connection.Handlers.{
  Task, count_violation, violation_of, violation, rep_add_source, handle_twisp_connect, register_on,
  register, after_source, ask_source, full_of_streams, refuses_connect, handle_connect_packet,
  cached_stream, load_stream, find_on, find_stream, give_found, handle_data_packet,
  handle_close_packet, handle_packet, Event, packets, data_packets, acts, closes_connection, step,
  run,
}
use wispurr.Connection.Table.{Inv}
use wispurr.Connection.Updates.{changed-Lists, ended-Lists}
use wispurr.Connection.Entries.{entered-Lists, cached-Lists}

send_packet-Inv :
    (cfg : ConnectionConfig) (c : Connection) (id n : ℕ) → Inv c → Inv (send_packet cfg c id n)
unfolding send_packet
send_packet-Inv cfg c id n v = if_intro Inv c.is_closed _ _ (λ e. v) (λ e. v)

send_close_packet-Inv :
    (cfg : ConnectionConfig) (c : Connection) (id n : ℕ)
    → Inv c
    → Inv (send_close_packet cfg c id n)
unfolding send_close_packet
send_close_packet-Inv cfg c id n v = if_intro Inv c.is_closed _ _ (λ e. v) (λ e. v)

violation_of-Inv :
    (cfg : ConnectionConfig) (c : Connection) (f : Option FloodLimits)
    → Inv c
    → Inv (violation_of cfg c f)
unfolding violation_of count_violation close
violation_of-Inv cfg c none v = v
violation_of-Inv cfg c (some l) v =
    if_intro Inv (leb_ℤ l.ws_close_after_violations (pos 0)) _ _ (λ e. v)
      (λ e.
        if_intro Inv (leb_ℤ (int_32 l.ws_close_after_violations) (pos (c.violations + 1))) _ _
          (λ k. v) (λ k. v))

violation-Inv : (cfg : ConnectionConfig) (c : Connection) → Inv c → Inv (violation cfg c)
unfolding violation
violation-Inv cfg c v = violation_of-Inv cfg c cfg.flood v

-- One operation on a stream of the connection.
settle-Inv :
    (cfg : ConnectionConfig) (c : Connection) (a : ℕ) (s t : Stream) (e : Effect)
    → get_elem? c.store a ≡ some s
    → Turns s t e
    → Inv c
    → Inv (settle cfg (record c { store = set c.store a t }) s.stream_id e)
unfolding settle delete_wisp_stream
settle-Inv cfg c a s t nothing h u v =
    changed-Lists c.store c.streams c.stream_cache c.stream_count a s t h u.same (u.still refl) v
settle-Inv cfg c a s t panic h u v =
    changed-Lists c.store c.streams c.stream_cache c.stream_count a s t h u.same (u.still refl) v
settle-Inv cfg c a s t (credit n) h u v =
    send_packet-Inv cfg (record c { store = set c.store a t }) s.stream_id n
      (changed-Lists c.store c.streams c.stream_cache c.stream_count a s t h u.same (u.still refl)
        v)
settle-Inv cfg c a s t (closes reason) h u v =
    send_close_packet-Inv cfg
      (delete_wisp_stream (record c { store = set c.store a t }) s.stream_id) s.stream_id reason
      (ended-Lists c.store c.streams c.stream_cache c.stream_count a s t h u.same (u.over refl).0
        (u.over refl).1 v)

put_back-Inv :
    (cfg : ConnectionConfig) (c : Connection) (a : ℕ) (s : Stream) (q : Stream × Effect)
    → get_elem? c.store a ≡ some s
    → TurnsTo s q
    → Inv c
    → Inv (put_back cfg c a s.stream_id q)
unfolding put_back
put_back-Inv cfg c a s (t, e) h u v = settle-Inv cfg c a s t e h u v

on_found-Inv :
    (cfg : ConnectionConfig) (c : Connection) (a : ℕ) (b : Action) (o : Option Stream)
    → get_elem? c.store a ≡ o
    → Inv c
    → Inv (on_found cfg c a b o)
unfolding on_found
on_found-Inv cfg c a b none e v = v
on_found-Inv cfg c a b (some s) e v =
    put_back-Inv cfg c a s (Packets.act (queue_limit cfg) cfg.buffer_remaining_length s b) e
      (act-Turns (queue_limit cfg) cfg.buffer_remaining_length s b) v

pub on_stream-Inv :
    (cfg : ConnectionConfig) (c : Connection) (a : ℕ) (b : Action)
    → Inv c
    → Inv (on_stream cfg c a b)
unfolding on_stream
on_stream-Inv cfg c a b v = on_found-Inv cfg c a b (get_elem? c.store a) refl v

-- The packet that opens a stream.
register_on-Inv :
    (cfg : ConnectionConfig) (c : Connection) (id t : ℕ) (o : Option ℕ)
    → c.streams id ≡ o
    → Inv c
    → Inv (register_on cfg c id t o).0
unfolding register_on new_stream
register_on-Inv cfg c id t (some a) e v = send_close_packet-Inv cfg c id CloseReason.invalid_info v
register_on-Inv cfg c id t none e v =
    entered-Lists c.store c.streams c.stream_cache c.stream_count (new_stream id) e refl v

twisp-Inv :
    (cfg : ConnectionConfig) (c : Connection) (id : ℕ) (command : List ℕ) (now : ℕ)
    → Inv c
    → Inv (handle_twisp_connect cfg c id command now).0
unfolding handle_twisp_connect rep_add_source
twisp-Inv cfg c id command now v =
    if_intro (λ (q : Connection × Task). Inv q.0) (not cfg.enable_twisp) _ _
      (λ e. send_close_packet-Inv cfg c id CloseReason.blocked v)
      (λ e.
        if_intro (λ (q : Connection × Task). Inv q.0)
          (not c.is_v2 || not cfg.password_auth || not (c.is_v2 && c.authenticated)) _ _
          (λ k.
            send_close_packet-Inv cfg (rep_add_source cfg c "twispNoAuth" now) id
              CloseReason.blocked v)
          (λ k. v))

after_source-Inv :
    (cfg : ConnectionConfig) (c : Connection) (id t : ℕ) (host : List ℕ) (now : ℕ) (ok : Bool)
    → Inv c
    → Inv (after_source cfg c id t host now ok).0
unfolding after_source rep_add_source register
after_source-Inv cfg c id t host now ok v =
    if_intro (λ (q : Connection × Task). Inv q.0) (not ok) _ _
      (λ e.
        send_close_packet-Inv cfg (rep_add_source cfg (violation cfg c) "burstRate" now) id
          CloseReason.throttled (violation-Inv cfg c v))
      (λ e.
        if_intro (λ (q : Connection × Task). Inv q.0) (t == StreamType.term) _ _
          (λ k. twisp-Inv cfg c id host now v)
          (λ k. register_on-Inv cfg c id t (c.streams id) refl v))

connect-Inv :
    (utf8 : List ℕ → Bool) (cfg : ConnectionConfig) (c : Connection) (id : ℕ) (payload : List ℕ)
    (now : ℕ)
    → Inv c
    → Inv (handle_connect_packet utf8 cfg c id payload now).0
unfolding handle_connect_packet ask_source
connect-Inv utf8 cfg c id [] now v = send_close_packet-Inv cfg c id CloseReason.invalid_info v
connect-Inv utf8 cfg c id (t ∷ []) now v = send_close_packet-Inv cfg c id CloseReason.invalid_info v
connect-Inv utf8 cfg c id (t ∷ p0 ∷ []) now v =
    send_close_packet-Inv cfg c id CloseReason.invalid_info v
connect-Inv utf8 cfg c id (t ∷ p0 ∷ p1 ∷ host) now v =
    if_intro (λ (q : Connection × Task). Inv q.0) (refuses_connect utf8 id t (p0 + 256 * p1) host) _
      _ (λ e. send_close_packet-Inv cfg c id CloseReason.invalid_info v)
      (λ e.
        if_intro (λ (q : Connection × Task). Inv q.0) (full_of_streams cfg.flood c.stream_count) _ _
          (λ k.
            send_close_packet-Inv cfg (violation cfg c) id CloseReason.throttled
              (violation-Inv cfg c v))
          (λ k.
            after_source-Inv cfg
              (record c { per_source = (SlidingWindow.allow c.per_source cfg.remote_ip now).0 }) id
              t host now (SlidingWindow.allow c.per_source cfg.remote_ip now).1 v))

-- The packets to a stream.
load_stream-Inv :
    (c : Connection) (id : ℕ) (o : Option ℕ) → c.streams id ≡ o → Inv c → Inv (load_stream c id o).0
unfolding load_stream
load_stream-Inv c id none e v = v
load_stream-Inv c id (some a) e v =
    cached-Lists c.store c.streams c.stream_cache c.stream_count id a e v

find_on-Inv : (c : Connection) (id : ℕ) (o : Option ℕ) → Inv c → Inv (find_on c id o).0
unfolding find_on
find_on-Inv c id none v = load_stream-Inv c id (c.streams id) refl v
find_on-Inv c id (some a) v = v

found-Inv :
    (cfg : ConnectionConfig) (c : Connection) (id : ℕ) (payload : List ℕ) (b w f : Bool)
    (o : Option ℕ)
    → Inv c
    → Inv (give_found cfg c id payload b w f o).0
unfolding give_found
found-Inv cfg c id payload b w f none v =
    if_intro (λ (q : Connection × Task). Inv q.0) (c.terminals id) _ _ (λ e. v)
      (λ e. send_close_packet-Inv cfg c id CloseReason.invalid_info v)
found-Inv cfg c id payload b w f (some a) v =
    if_intro (λ (q : Connection × Task). Inv q.0) w _ _
      (λ e. on_stream-Inv cfg c a (gives payload b f) v) (λ e. v)

data-Inv :
    (cfg : ConnectionConfig) (c : Connection) (id : ℕ) (payload : List ℕ) (b w f : Bool)
    → Inv c
    → Inv (handle_data_packet cfg c id payload b w f).0
unfolding handle_data_packet find_stream
data-Inv cfg c id payload b w f v =
    found-Inv cfg (find_stream c id).0 id payload b w f (find_stream c id).1
      (find_on-Inv c id (cached_stream c id (c.stream_cache (id % stream_cache_size))) v)

close_packet-Inv :
    (c : Connection) (id : ℕ) (payload : List ℕ) → Inv c → Inv (handle_close_packet c id payload).0
unfolding handle_close_packet close
close_packet-Inv c id [] v = v
close_packet-Inv c id (r ∷ rest) v =
    if_intro (λ (q : Connection × Task). Inv q.0) (id == 0) _ _ (λ e. v) (λ e. v)

packet-Inv :
    (utf8 : List ℕ → Bool) (cfg : ConnectionConfig) (c : Connection) (packet_type id : ℕ)
    (payload : List ℕ) (now : ℕ)
    → Inv c
    → Inv (handle_packet utf8 cfg c packet_type id payload now).0
unfolding handle_packet
packet-Inv utf8 cfg c packet_type id payload now v =
    let P : Connection × Task → Type 0 = λ q. Inv q.0 in
    if_intro P (packet_type == PacketType.info) _ _ (λ e. v)
      (λ e.
        if_intro P (packet_type == PacketType.connect) _ _
          (λ e. connect-Inv utf8 cfg c id payload now v)
          (λ e.
            if_intro P (packet_type == PacketType.close) _ _ (λ e. close_packet-Inv c id payload v)
              (λ e. if_intro P (packet_type == PacketType.twisp_extension) _ _ (λ e. v) (λ e. v))))

pub step-Inv :
    (utf8 : List ℕ → Bool) (cfg : ConnectionConfig) (c : Connection) (e : Event)
    → Inv c
    → Inv (step utf8 cfg c e)
unfolding step close
step-Inv utf8 cfg c (packets packet_type id payload now) v =
    packet-Inv utf8 cfg c packet_type id payload now v
step-Inv utf8 cfg c (data_packets id payload b w f) v = data-Inv cfg c id payload b w f v
step-Inv utf8 cfg c (acts a b) v = on_stream-Inv cfg c a b v
step-Inv utf8 cfg c closes_connection v = v

-- Whatever the client sends and the goroutines do, in any order of whole operations: if the table lists
-- the open streams and no other, each under its id, a cached slot holds an open stream whose id belongs
-- there, and the count is that of the open streams, then all of this is still so.
pub run-Inv :
    (utf8 : List ℕ → Bool) (cfg : ConnectionConfig) (c : Connection) (rest : List Event)
    → Inv c
    → Inv (run utf8 cfg c rest)
unfolding run
run-Inv utf8 cfg c [] v = v
run-Inv utf8 cfg c (e ∷ rest) v =
    run-Inv utf8 cfg (step utf8 cfg c e) rest (step-Inv utf8 cfg c e v)

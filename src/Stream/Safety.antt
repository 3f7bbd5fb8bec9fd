-- ===== src/Stream/Safety.antt =====
-- The invariant of a stream along every history, and the absence of a nil pointer.
use wispurr.Base.{
  ℕ, ◌+◌, ◌≡◌, ◌≢◌, refl, List, [], ◌∷◌, Bool, true, ◌&&◌, not, length, ltb, ◌==◌, arith, if_intro,
}
use wispurr.Protocol.CloseReason.{throttled, network_error}
use wispurr.Protocol.StreamType.{tcp}
use wispurr.Stream.State.{
  Stream, IngressJob, IngressRunner, stopped, running, writing, Connector, dialing, reading,
  returned, flushing, Effect, panic, pool_ws, new_stream, close_stream,
}
use wispurr.Stream.Ingress.{
  queue_ingress_owned, runner_step, run_ingress_step, enter_ingress, submit_ingress, write_jobs,
}
use wispurr.Stream.Packets.{
  max_pending_bytes, spend_credit, hold_back, after_queue, write_direct, give_data, data_packet,
  connected, ready, flush_one, connect_step, run_connect_step, abandoned, connects_now,
  abandons_now, Action, gives, connects, flushes, drains, abandons, shuts, act, run,
}
use wispurr.Stream.Invariant.{
  Inv, Fits, Fits-has_conn, total-append, close_stream-Inv, queue_ingress_owned-Inv,
  runner_step-Inv,
}

-- The invariant after an operation that does not end the program.
abbrev pub Safe : ℕ → Stream × Effect → Type 0
Safe limit (s, e) = Inv limit s × (e ≢ panic)

close_stream-Safe :
    (limit : ℕ) (s : Stream) (reason : ℕ) → Inv limit s → Safe limit (close_stream s reason)
unfolding close_stream
close_stream-Safe limit s reason v = (close_stream-Inv limit s reason v, ground arith)

spend_credit-Safe : (limit full : ℕ) (s : Stream) → Inv limit s → Safe limit (spend_credit full s)
unfolding spend_credit
spend_credit-Safe limit full s v = ground arith

hold_back-Safe :
    (limit : ℕ) (s : Stream) (payload : List ℕ) → Inv limit s → Safe limit (hold_back s payload)
unfolding hold_back
hold_back-Safe limit s payload v =
    if_intro (Safe limit) (ltb max_pending_bytes (s.pending_bytes + length payload)) _ _
      (λ e. close_stream-Safe limit s throttled v)
      (λ e. ground (arith, total-append s.pending_data payload))

submit_ingress-safe :
    (limit : ℕ) (s : Stream) (j : IngressJob) → (submit_ingress limit s j).1 ≢ panic
unfolding submit_ingress enter_ingress close_stream
submit_ingress-safe limit s j = ground arith

queue_ingress_owned-safe :
    (limit : ℕ) (s : Stream) (payload : List ℕ) (bufp : Bool)
    → (queue_ingress_owned limit s payload bufp).1 ≢ panic
unfolding queue_ingress_owned
queue_ingress_owned-safe limit s payload bufp =
    ground (
      arith,
      submit_ingress-safe limit s (record { payload = payload; bufp = bufp; pool = pool_ws }),
    )

after_queue-Safe :
    (limit full : ℕ) (q : Stream × Effect × Bool)
    → Inv limit q.0
    → q.1 ≢ panic
    → Safe limit (after_queue full q)
unfolding after_queue
after_queue-Safe limit full (s, e, ok) v p =
    if_intro (Safe limit) ok _ _ (λ h. spend_credit-Safe limit full s v) (λ h. (v, p))

write_direct-Safe :
    (limit full : ℕ) (s : Stream) (payload : List ℕ) (failed : Bool)
    → Inv limit s
    → s.has_conn ≡ true
    → Safe limit (write_direct full s payload failed)
unfolding write_direct
write_direct-Safe limit full s [] failed v h =
    if_intro (Safe limit) (s.stream_type == tcp) _ _ (λ e. spend_credit-Safe limit full s v)
      (λ e. (v, λ p. cc))
write_direct-Safe limit full s (b ∷ bs) failed v h =
    if_intro (Safe limit) (not s.has_conn) _ _ (λ e. absurd (ground arith))
      (λ n.
        if_intro (Safe limit) failed _ _ (λ e. close_stream-Safe limit s network_error v)
          (λ e.
            if_intro (Safe limit) (s.stream_type == tcp) _ _
              (λ k. spend_credit-Safe limit full _ (ground arith)) (λ k. ground arith)))

give_data-Safe :
    (limit full : ℕ) (s : Stream) (payload : List ℕ) (bufp failed : Bool)
    → s.is_open ≡ true
    → Inv limit s
    → Safe limit (give_data limit full s payload bufp failed)
unfolding give_data
give_data-Safe limit full s payload bufp failed o v =
    if_intro (Safe limit) (not s.conn_ready_done) _ _ (λ e. hold_back-Safe limit s payload v)
      (λ r.
        if_intro (Safe limit) (s.stream_type == tcp && s.ingress_active) _ _
          (λ e.
            after_queue-Safe limit full (queue_ingress_owned limit s payload bufp)
              (queue_ingress_owned-Inv limit s payload bufp v)
              (queue_ingress_owned-safe limit s payload bufp))
          (λ e.
            write_direct-Safe limit full s payload failed v
              (Fits-has_conn s.connector _ _ s.has_conn o r v.placed)))

-- A change of the connector alone.
placed-Inv :
    (limit : ℕ) (s : Stream) (c : Connector)
    → Inv limit s
    → Fits c s.is_open s.conn_ready_done s.has_conn
    → Inv limit (record s { connector = c })
placed-Inv limit s c v f = record {
  held = v.held;
  held_bounded = v.held_bounded;
  queued = v.queued;
  queued_bounded = v.queued_bounded;
  flagged = v.flagged;
  served = v.served;
  open_to_data = v.open_to_data;
  placed = f;
}

-- A close with the connector gone: the stream is shut, or was already.
leaves-Safe :
    (limit : ℕ) (s : Stream) (reason : ℕ)
    → Inv limit s
    → Safe limit (close_stream (record s { connector = returned }) reason)
unfolding close_stream
leaves-Safe limit s reason v =
    if_intro (Safe limit) s.is_open _ _ (λ e. ground arith) (λ e. ground arith)

ready-Safe :
    (limit : ℕ) (s : Stream) → s.connector ≡ flushing [] → Inv limit s → Inv limit (ready s)
unfolding ready
ready-Safe limit s e v = ground arith

flush_one-Safe :
    (limit : ℕ) (s : Stream) (d : List ℕ) (ds : List (List ℕ)) (failed : Bool)
    → s.connector ≡ flushing (d ∷ ds)
    → Inv limit s
    → Safe limit (flush_one s d ds failed)
unfolding flush_one
flush_one-Safe limit s d ds failed e v =
    if_intro (Safe limit) (not s.is_open) _ _ (λ o. ground arith)
      (λ o.
        if_intro (Safe limit) (not s.has_conn) _ _ (λ h. absurd (ground arith))
          (λ h.
            if_intro (Safe limit) failed _ _ (λ f. leaves-Safe limit s network_error v)
              (λ f. ground arith)))

connect_step-Safe :
    (limit : ℕ) (c : Connector) (s : Stream) (failed : Bool)
    → s.connector ≡ c
    → Inv limit s
    → Safe limit (connect_step c s failed)
unfolding connect_step
connect_step-Safe limit (flushing []) s failed e v = (ready-Safe limit s e v, λ p. cc)
connect_step-Safe limit (flushing (d ∷ ds)) s failed e v = flush_one-Safe limit s d ds failed e v
connect_step-Safe limit dialing s failed e v = (v, λ p. cc)
connect_step-Safe limit reading s failed e v = (v, λ p. cc)
connect_step-Safe limit returned s failed e v = (v, λ p. cc)

connects_now-Inv :
    (limit full stream_type : ℕ) (c : Connector) (s : Stream)
    → s.connector ≡ c
    → Inv limit s
    → Inv limit (connects_now c stream_type full s)
unfolding connects_now connected
connects_now-Inv limit full stream_type dialing s e v = ground arith
connects_now-Inv limit full stream_type (flushing ds) s e v = v
connects_now-Inv limit full stream_type reading s e v = v
connects_now-Inv limit full stream_type returned s e v = v

abandons_now-Safe :
    (limit reason : ℕ) (c : Connector) (s : Stream)
    → Inv limit s
    → Safe limit (abandons_now c s reason)
unfolding abandons_now abandoned
abandons_now-Safe limit reason dialing s v = leaves-Safe limit s reason v
abandons_now-Safe limit reason (flushing ds) s v = (v, λ p. cc)
abandons_now-Safe limit reason reading s v = (v, λ p. cc)
abandons_now-Safe limit reason returned s v = (v, λ p. cc)

runner_step-safe :
    (limit : ℕ) (r : IngressRunner) (s : Stream) (failed : Bool)
    → s.runner ≡ r
    → Inv limit s
    → (runner_step r s failed).1 ≢ panic
unfolding runner_step write_jobs close_stream
runner_step-safe limit stopped s failed e v = λ p. cc
runner_step-safe limit running s failed e v = λ p. cc
runner_step-safe limit (writing batch) s failed e v = ground arith

act-Safe :
    (limit full : ℕ) (s : Stream) (a : Action) → Inv limit s → Safe limit (act limit full s a)
unfolding act data_packet run_connect_step run_ingress_step
act-Safe limit full s (gives payload bufp failed) v =
    if_intro (Safe limit) s.is_open _ _ (λ o. give_data-Safe limit full s payload bufp failed o v)
      (λ o. (v, λ p. cc))
act-Safe limit full s (connects stream_type) v =
    (connects_now-Inv limit full stream_type s.connector s refl v, λ p. cc)
act-Safe limit full s (flushes failed) v = connect_step-Safe limit s.connector s failed refl v
act-Safe limit full s (drains failed) v = (
  runner_step-Inv limit s.runner s failed refl v,
  runner_step-safe limit s.runner s failed refl v,
)
act-Safe limit full s (abandons reason) v = abandons_now-Safe limit reason s.connector s v
act-Safe limit full s (shuts reason) v = close_stream-Safe limit s reason v

run-Inv :
    (limit full : ℕ) (s : Stream) (rest : List Action)
    → Inv limit s
    → Inv limit (run limit full s rest)
unfolding run
run-Inv limit full s [] v = v
run-Inv limit full s (a ∷ rest) v =
    run-Inv limit full (act limit full s a).0 rest (act-Safe limit full s a v).0

-- After any history of operations on a new stream, in which a data packet is handled with no other
-- goroutine in between, and so is a failed write with the close behind it: the two byte counts are those
-- of what waits, at most 16 MiB before the target is connected and at most the limit afterwards; the flag
-- is set exactly when a writer goroutine is at work, and then, and whenever the queue takes data, there is
-- a connection; and no operation that follows writes to a nil connection, be it a data packet, handleConnect
-- or the writer goroutine.
pub run-new_stream-Safe :
    (limit full id : ℕ) (rest : List Action) (a : Action)
    → Inv limit (run limit full (new_stream id) rest)
      × ((act limit full (run limit full (new_stream id) rest) a).1 ≢ panic)
unfolding new_stream
run-new_stream-Safe limit full id rest a =
    let v : Inv limit (run limit full (new_stream id) rest) =
      run-Inv limit full (new_stream id) rest (record {
        held = refl;
        held_bounded = omega arith;
        queued = refl;
        queued_bounded = omega arith;
        flagged = refl;
        served = λ e. cc;
        open_to_data = λ e. cc;
        placed = λ e. refl;
      }) in
    (v, (act-Safe limit full _ a v).1)

-- ===== src/Stream/Races.antt =====
-- Orders of the goroutines in which a stream goes wrong.
use wispurr.Base.{ℕ, ◌≡◌, ◌≢◌, refl, List, [], ◌∷◌, Bool, true, false, arith}
use wispurr.Stream.State.{
  Stream, Connector, dialing, reading, returned, flushing, panic, close_stream, stopped, running,
  writing, IngressRunner, IngressJob,
}
use wispurr.Stream.Ingress.{run_ingress_step, runner_step, take_jobs, write_jobs, leave_jobs}
use wispurr.Stream.Packets.{
  write_direct, give_data, data_packet, connected, ready, flush_one, connect_step, run_connect_step,
  abandoned, connects_now, abandons_now, Action, gives, connects, flushes, drains, abandons, shuts,
  act, run,
}

-- What handleDataPacket does with a stream that it has seen open, when handleConnect gives up in
-- between, which it can while the packet waits for the bandwidth limiter: a payload of one byte or
-- more is written to a nil connection, which ends the program.
pub give_data-abandoned :
    (limit full : ℕ) (s : Stream) (b : ℕ) (payload : List ℕ) (bufp failed : Bool) (reason : ℕ)
    → s.connector ≡ dialing
    → s.is_open ≡ true
    → s.has_conn ≡ false
    → s.ingress_active ≡ false
    → (give_data limit full (abandons_now s.connector s reason).0 (b ∷ payload) bufp failed).1
      ≡ panic
unfolding give_data abandons_now abandoned close_stream write_direct
give_data-abandoned limit full s b payload bufp failed reason c o h a = ground arith

-- A stream that was closed, whose target stays connected.
pub record Leaks (s : Stream) : Type 0 where
  pub over : s.is_open ≡ false
  pub dialled : s.connector ≢ dialing
  pub connection : s.has_conn ≡ true
  pub unclosed : s.conn_closed ≡ false

close_stream-Leaks : (s : Stream) (reason : ℕ) → Leaks s → Leaks (close_stream s reason).0
unfolding close_stream
close_stream-Leaks s reason v = ground arith

connect_step-Leaks :
    (c : Connector) (s : Stream) (failed : Bool)
    → s.connector ≡ c
    → Leaks s
    → Leaks (connect_step c s failed).0
unfolding connect_step ready flush_one
connect_step-Leaks (flushing []) s failed e v = ground arith
connect_step-Leaks (flushing (d ∷ ds)) s failed e v = ground arith
connect_step-Leaks dialing s failed e v = v
connect_step-Leaks reading s failed e v = v
connect_step-Leaks returned s failed e v = v

take_jobs-Leaks : (s : Stream) (batch : List IngressJob) → Leaks s → Leaks (take_jobs s batch)
unfolding take_jobs
take_jobs-Leaks s [] v = ground arith
take_jobs-Leaks s (j ∷ js) v = ground arith

runner_step-Leaks :
    (r : IngressRunner) (s : Stream) (failed : Bool) → Leaks s → Leaks (runner_step r s failed).0
unfolding runner_step write_jobs leave_jobs
runner_step-Leaks stopped s failed v = v
runner_step-Leaks running s failed v = take_jobs-Leaks s s.pending_ingress v
runner_step-Leaks (writing batch) s failed v = ground arith

connects_now-Leaks :
    (c : Connector) (stream_type full : ℕ) (s : Stream)
    → s.connector ≡ c
    → Leaks s
    → Leaks (connects_now c stream_type full s)
unfolding connects_now
connects_now-Leaks dialing stream_type full s e v = absurd (v.dialled e)
connects_now-Leaks (flushing ds) stream_type full s e v = v
connects_now-Leaks reading stream_type full s e v = v
connects_now-Leaks returned stream_type full s e v = v

abandons_now-Leaks :
    (c : Connector) (s : Stream) (reason : ℕ)
    → s.connector ≡ c
    → Leaks s
    → Leaks (abandons_now c s reason).0
unfolding abandons_now
abandons_now-Leaks dialing s reason e v = absurd (v.dialled e)
abandons_now-Leaks (flushing ds) s reason e v = v
abandons_now-Leaks reading s reason e v = v
abandons_now-Leaks returned s reason e v = v

close_stream_closes :
    (s : Stream) (reason : ℕ)
    → s.connector ≡ dialing
    → s.is_open ≡ true
    → ((close_stream s reason).0.connector ≡ dialing) × ((close_stream s reason).0.is_open ≡ false)
unfolding close_stream
close_stream_closes s reason c o = ground arith

late_connect :
    (t : Stream) (stream_type full : ℕ)
    → t.connector ≡ dialing
    → t.is_open ≡ false
    → Leaks (connects_now t.connector stream_type full t)
unfolding connects_now connected
late_connect t stream_type full c o = ground arith

act-Leaks : (limit full : ℕ) (s : Stream) (a : Action) → Leaks s → Leaks (act limit full s a).0
unfolding act data_packet run_connect_step run_ingress_step
act-Leaks limit full s (gives payload bufp failed) v = ground arith
act-Leaks limit full s (connects t) v = connects_now-Leaks s.connector t full s refl v
act-Leaks limit full s (flushes failed) v = connect_step-Leaks s.connector s failed refl v
act-Leaks limit full s (drains failed) v = runner_step-Leaks s.runner s failed v
act-Leaks limit full s (abandons reason) v = abandons_now-Leaks s.connector s reason refl v
act-Leaks limit full s (shuts reason) v = close_stream-Leaks s reason v

run-Leaks :
    (limit full : ℕ) (s : Stream) (rest : List Action) → Leaks s → Leaks (run limit full s rest)
unfolding run
run-Leaks limit full s [] v = v
run-Leaks limit full s (a ∷ rest) v =
    run-Leaks limit full (act limit full s a).0 rest (act-Leaks limit full s a v)

-- A stream that is closed while its target is being dialled, and whose target is connected after
-- that, keeps the connection: whatever happens later, nothing closes it.
pub late_connect-Leaks :
    (limit full stream_type reason : ℕ) (s : Stream) (rest : List Action)
    → s.connector ≡ dialing
    → s.is_open ≡ true
    → Leaks (run limit full s (shuts reason ∷ connects stream_type ∷ rest))
unfolding run act
late_connect-Leaks limit full stream_type reason s rest c o =
    let (still, shut) = close_stream_closes s reason c o in
    run-Leaks limit full
      (connects_now (close_stream s reason).0.connector stream_type full (close_stream s reason).0)
      rest (late_connect (close_stream s reason).0 stream_type full still shut)

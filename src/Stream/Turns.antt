-- ===== src/Stream/Turns.antt =====
-- What an operation on a stream says of `is_open` and `stream_id`.
use wispurr.Base.{◌≡◌, refl, ℕ, List, [], ◌∷◌, Bool, true, false, arith, if_intro, not, ◌==◌, ◌&&◌}
use wispurr.Protocol.StreamType.{tcp}
use wispurr.Stream.State.{
  Stream, Connector, IngressRunner, IngressJob, Effect, nothing, panic, closes, credit,
  close_stream, dialing, reading, returned, flushing, stopped, running, writing,
}
use wispurr.Stream.Ingress.{
  run_ingress_step, runner_step, take_jobs, write_jobs, leave_jobs, queue_ingress_owned,
  submit_ingress, enter_ingress, start_runner, give_back, refused,
}
use wispurr.Stream.Packets.{
  spend_credit, hold_back, after_queue, write_direct, give_data, data_packet, connected, ready,
  flush_one, connect_step, run_connect_step, abandoned, connects_now, abandons_now, Action, gives,
  connects, flushes, drains, abandons, shuts, act,
}

abbrev pub closing : Effect → Bool
closing nothing = false
closing panic = false
closing (closes reason) = true
closing (credit n) = false

-- A close comes with a stream that was open and is no more, and nothing else opens or closes one.
pub record Turns (s t : Stream) (e : Effect) : Type 0 where
  pub same : t.stream_id ≡ s.stream_id
  pub over : closing e ≡ true → (s.is_open ≡ true) × (t.is_open ≡ false)
  pub still : closing e ≡ false → t.is_open ≡ s.is_open

abbrev pub TurnsTo : Stream → Stream × Effect → Type 0
TurnsTo s (t, e) = Turns s t e

unmoved :
    (s t : Stream) (e : Effect)
    → t.stream_id ≡ s.stream_id
    → t.is_open ≡ s.is_open
    → closing e ≡ false
    → Turns s t e
unmoved s t e i o n = record { same = i; over = λ k. cc; still = λ k. o }

shut-Turns :
    (s t : Stream) (reason : ℕ)
    → t.stream_id ≡ s.stream_id
    → t.is_open ≡ s.is_open
    → TurnsTo s (close_stream t reason)
unfolding close_stream
shut-Turns s t reason i o = ground arith

spend-Turns :
    (full : ℕ) (s t : Stream)
    → t.stream_id ≡ s.stream_id
    → t.is_open ≡ s.is_open
    → TurnsTo s (spend_credit full t)
unfolding spend_credit
spend-Turns full s t i o = ground arith

hold-Turns : (s : Stream) (payload : List ℕ) → TurnsTo s (hold_back s payload)
unfolding hold_back close_stream
hold-Turns s payload = ground arith

submit-Turns :
    (limit full : ℕ) (s : Stream) (payload : List ℕ) (bufp : Bool)
    → TurnsTo s (after_queue full (queue_ingress_owned limit s payload bufp))
unfolding after_queue queue_ingress_owned submit_ingress enter_ingress start_runner refused
    give_back close_stream spend_credit
submit-Turns limit full s payload bufp = ground arith

direct-Turns :
    (full : ℕ) (s : Stream) (payload : List ℕ) (failed : Bool)
    → TurnsTo s (write_direct full s payload failed)
unfolding write_direct close_stream spend_credit
direct-Turns full s [] failed = ground arith
direct-Turns full s (b ∷ bs) failed = ground arith

data-Turns :
    (limit full : ℕ) (s : Stream) (payload : List ℕ) (bufp failed : Bool)
    → TurnsTo s (data_packet limit full s payload bufp failed)
unfolding data_packet give_data
data-Turns limit full s payload bufp failed =
    if_intro (TurnsTo s) s.is_open _ _
      (λ o.
        if_intro (TurnsTo s) (not s.conn_ready_done) _ _ (λ e. hold-Turns s payload)
          (λ e.
            if_intro (TurnsTo s) (s.stream_type == tcp && s.ingress_active) _ _
              (λ k. submit-Turns limit full s payload bufp)
              (λ k. direct-Turns full s payload failed)))
      (λ o. unmoved s s nothing refl refl refl)

connect_step-Turns :
    (c : Connector) (s : Stream) (failed : Bool) → TurnsTo s (connect_step c s failed)
unfolding connect_step ready flush_one close_stream
connect_step-Turns (flushing []) s failed = ground arith
connect_step-Turns (flushing (d ∷ ds)) s failed = ground arith
connect_step-Turns dialing s failed = unmoved s s nothing refl refl refl
connect_step-Turns reading s failed = unmoved s s nothing refl refl refl
connect_step-Turns returned s failed = unmoved s s nothing refl refl refl

take_jobs-Turns : (s : Stream) (batch : List IngressJob) → Turns s (take_jobs s batch) nothing
unfolding take_jobs
take_jobs-Turns s [] = unmoved s _ nothing refl refl refl
take_jobs-Turns s (j ∷ js) = unmoved s _ nothing refl refl refl

runner_step-Turns :
    (r : IngressRunner) (s : Stream) (failed : Bool) → TurnsTo s (runner_step r s failed)
unfolding runner_step write_jobs leave_jobs close_stream
runner_step-Turns stopped s failed = unmoved s s nothing refl refl refl
runner_step-Turns running s failed = take_jobs-Turns s s.pending_ingress
runner_step-Turns (writing batch) s failed = ground arith

connects_now-Turns :
    (c : Connector) (stream_type full : ℕ) (s : Stream)
    → Turns s (connects_now c stream_type full s) nothing
unfolding connects_now connected
connects_now-Turns dialing stream_type full s = unmoved s _ nothing refl refl refl
connects_now-Turns (flushing ds) stream_type full s = unmoved s _ nothing refl refl refl
connects_now-Turns reading stream_type full s = unmoved s _ nothing refl refl refl
connects_now-Turns returned stream_type full s = unmoved s _ nothing refl refl refl

abandons_now-Turns : (c : Connector) (s : Stream) (reason : ℕ) → TurnsTo s (abandons_now c s reason)
unfolding abandons_now abandoned
abandons_now-Turns dialing s reason =
    shut-Turns s (record s { connector = returned }) reason refl refl
abandons_now-Turns (flushing ds) s reason = unmoved s s nothing refl refl refl
abandons_now-Turns reading s reason = unmoved s s nothing refl refl refl
abandons_now-Turns returned s reason = unmoved s s nothing refl refl refl

pub act-Turns : (limit full : ℕ) (s : Stream) (a : Action) → TurnsTo s (act limit full s a)
unfolding act run_connect_step run_ingress_step
act-Turns limit full s (gives payload bufp failed) = data-Turns limit full s payload bufp failed
act-Turns limit full s (connects t) = connects_now-Turns s.connector t full s
act-Turns limit full s (flushes failed) = connect_step-Turns s.connector s failed
act-Turns limit full s (drains failed) = runner_step-Turns s.runner s failed
act-Turns limit full s (abandons reason) = abandons_now-Turns s.connector s reason
act-Turns limit full s (shuts reason) = shut-Turns s s reason refl refl

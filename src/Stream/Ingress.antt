-- ===== src/Stream/Ingress.antt =====
-- submitIngress, queueIngressOwned and runIngressWriter of wisp/wisp-stream.go.
use wispurr.Base.{
  ℕ, ◌+◌, ◌-◌, List, [], ◌∷◌, ◌++◌, Bool, true, false, ◌||◌, not, length, ltb, if◌then◌else◌,
}
use wispurr.Protocol.CloseReason.{network_error, throttled}
use wispurr.Stream.State.{
  IngressJob, IngressRunner, Stream, Effect, release, release_all, batch_bytes, payloads,
  close_stream, pool_ws, stopped, running, writing, nothing, panic,
}

unfoldable pub give_back : Stream → IngressJob → Stream
give_back s j = record s { ws_puts = s.ws_puts + release j }

-- `go s.runIngressWriter()`, unless one is there already.
unfoldable pub start_runner : Stream → Stream
start_runner s =
    if s.ingress_writing then s else record s { ingress_writing = true; runner = running }

unfoldable pub refused : Stream × Effect → Stream × Effect × Bool
refused (s, e) = (s, e, false)

-- submitIngress from the lock on; the last part is its result.
unfoldable pub enter_ingress : ℕ → Stream → IngressJob → Stream × Effect × Bool
unfolding give_back start_runner refused
enter_ingress limit s job =
    if ltb limit (s.pending_ing_bytes + length job.payload)
    then refused (close_stream (give_back s job) throttled)
    else (
      start_runner (record s {
        pending_ingress = s.pending_ingress ++ (job ∷ []);
        pending_ing_bytes = s.pending_ing_bytes + length job.payload;
      }),
      nothing,
      true,
    )

unfoldable pub submit_ingress : ℕ → Stream → IngressJob → Stream × Effect × Bool
submit_ingress limit s job =
    if not s.ingress_active || not s.is_open
    then (give_back s job, nothing, false)
    else enter_ingress limit s job

-- queueIngressOwned
unfoldable pub queue_ingress_owned : ℕ → Stream → List ℕ → Bool → Stream × Effect × Bool
queue_ingress_owned limit s payload bufp =
    let job : IngressJob = record { payload = payload; bufp = bufp; pool = pool_ws } in
    if not s.ingress_active || not s.is_open
    then (give_back s job, nothing, false)
    else submit_ingress limit s job

-- runIngressWriter: the part under the lock, and the rest of the round; `failed` says that the write
-- failed.
unfoldable pub take_jobs : Stream → List IngressJob → Stream
take_jobs s [] = record s { ingress_writing = false; runner = stopped }
take_jobs s (j ∷ js) = record s {
  pending_ingress = [];
  pending_ing_bytes = s.pending_ing_bytes - batch_bytes (j ∷ js);
  runner = writing (j ∷ js);
}

unfoldable pub leave_jobs : Stream → List IngressJob → Stream
leave_jobs s batch = record s {
  ingress_writing = false;
  runner = stopped;
  ws_puts = s.ws_puts + release_all batch;
}

unfoldable pub write_jobs : Stream → List IngressJob → Bool → Stream × Effect
unfolding leave_jobs
write_jobs s batch failed =
    if not s.is_open
    then (leave_jobs s batch, nothing)
    else if not s.has_conn
    then (s, panic)
    else if failed
    then close_stream (leave_jobs s batch) network_error
    else (
      record s {
        runner = running;
        written = s.written ++ payloads batch;
        ws_puts = s.ws_puts + release_all batch;
      },
      nothing,
    )

unfoldable pub runner_step : IngressRunner → Stream → Bool → Stream × Effect
runner_step stopped s failed = (s, nothing)
runner_step running s failed = (take_jobs s s.pending_ingress, nothing)
runner_step (writing batch) s failed = write_jobs s batch failed

unfoldable pub run_ingress_step : Stream → Bool → Stream × Effect
run_ingress_step s failed = runner_step s.runner s failed

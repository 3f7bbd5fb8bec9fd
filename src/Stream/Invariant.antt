-- ===== src/Stream/Invariant.antt =====
-- The counts, their limits and the target: what holds of a stream between any two operations.
use wispurr.Base.{
  ℕ, ◌+◌, ◌≤◌, ◌≡◌, refl, ap, List, [], ◌∷◌, ◌++◌, Bool, true, false, not, length, ltb, arith,
  Bool-cases, inl, inr, if_intro, ◌||◌,
}
use wispurr.Stream.State.{
  Stream, Effect, IngressJob, IngressRunner, stopped, running, writing, Connector, dialing, reading,
  returned, flushing, batch_bytes, pool_ws, close_stream,
}
use wispurr.Protocol.CloseReason.{throttled, network_error}
use wispurr.Stream.Ingress.{
  give_back, leave_jobs, take_jobs, submit_ingress, queue_ingress_owned, write_jobs, runner_step,
  enter_ingress,
}
use wispurr.Stream.Packets.{max_pending_bytes}

abbrev pub total : List (List ℕ) → ℕ
total [] = 0
total (d ∷ ds) = length d + total ds

abbrev pub runs : IngressRunner → Bool
runs stopped = false
runs running = true
runs (writing batch) = true

-- What the place of handleConnect says of `is_open`, `conn_ready_done` and `has_conn`.
abbrev pub Fits : Connector → Bool → Bool → Bool → Type 0
Fits dialing o r h = o ≡ true → r ≡ false
Fits (flushing ds) o r h = (h ≡ true) × (o ≡ true → r ≡ false)
Fits reading o r h = h ≡ true
Fits returned o r h = o ≡ false

pub record Inv (limit : ℕ) (s : Stream) : Type 0 where
  pub held : s.pending_bytes ≡ total s.pending_data
  pub held_bounded : s.pending_bytes ≤ max_pending_bytes
  pub queued : s.pending_ing_bytes ≡ batch_bytes s.pending_ingress
  pub queued_bounded : s.pending_ing_bytes ≤ limit
  pub flagged : s.ingress_writing ≡ runs s.runner
  pub served : s.ingress_writing ≡ true → s.has_conn ≡ true
  pub open_to_data : s.ingress_active ≡ true → s.has_conn ≡ true
  pub placed : Fits s.connector s.is_open s.conn_ready_done s.has_conn

pub total-append : (xs : List (List ℕ)) (d : List ℕ) → total (xs ++ (d ∷ [])) ≡ total xs + length d
total-append [] d = omega arith
total-append (x ∷ xs) d = omega (arith, total-append xs d)

batch_bytes-append :
    (xs : List IngressJob) (j : IngressJob)
    → batch_bytes (xs ++ (j ∷ [])) ≡ batch_bytes xs + length j.payload
batch_bytes-append [] j = omega arith
batch_bytes-append (x ∷ xs) j = omega (arith, batch_bytes-append xs j)

-- A target is there once an open stream takes data by itself.
pub Fits-has_conn :
    (c : Connector) (o r h : Bool) → o ≡ true → not r ≡ false → Fits c o r h → h ≡ true
Fits-has_conn dialing o r h e n f = ground (arith, f e)
Fits-has_conn (flushing ds) o r h e n f = f.0
Fits-has_conn reading o r h e n f = f
Fits-has_conn returned o r h e n f = cc

Fits-shut : (c : Connector) (o r h : Bool) → Fits c o r h → Fits c false true h
Fits-shut dialing o r h f = λ e. cc
Fits-shut (flushing ds) o r h f = (f.0, λ e. cc)
Fits-shut reading o r h f = f
Fits-shut returned o r h f = refl

pub close_stream-Inv :
    (limit : ℕ) (s : Stream) (reason : ℕ) → Inv limit s → Inv limit (close_stream s reason).0
unfolding close_stream
close_stream-Inv limit s reason v =
    ground (arith, Fits-shut s.connector s.is_open s.conn_ready_done s.has_conn v.placed)

give_back-Inv : (limit : ℕ) (s : Stream) (j : IngressJob) → Inv limit s → Inv limit (give_back s j)
unfolding give_back
give_back-Inv limit s j v = ground arith

enter_ingress-Inv :
    (limit : ℕ) (s : Stream) (j : IngressJob)
    → s.has_conn ≡ true
    → Inv limit s
    → Inv limit (enter_ingress limit s j).0
unfolding enter_ingress
enter_ingress-Inv limit s j h v =
    elim (Bool-cases (ltb limit (s.pending_ing_bytes + length j.payload))) [
      | inl e ↦
          rw (e, enter_ingress) (close_stream-Inv limit _ throttled (give_back-Inv limit s j v))
      | inr e ↦ rw (e, enter_ingress) (ground (arith, batch_bytes-append s.pending_ingress j))
    ]

submit_ingress-Inv :
    (limit : ℕ) (s : Stream) (j : IngressJob) → Inv limit s → Inv limit (submit_ingress limit s j).0
unfolding submit_ingress
submit_ingress-Inv limit s j v =
    if_intro (λ (q : Stream × Effect × Bool). Inv limit q.0) (not s.ingress_active || not s.is_open)
      _ _ (λ e. give_back-Inv limit s j v)
      (λ e. enter_ingress-Inv limit s j (v.open_to_data (ground arith)) v)

pub queue_ingress_owned-Inv :
    (limit : ℕ) (s : Stream) (payload : List ℕ) (bufp : Bool)
    → Inv limit s
    → Inv limit (queue_ingress_owned limit s payload bufp).0
unfolding queue_ingress_owned
queue_ingress_owned-Inv limit s payload bufp v =
    let j : IngressJob = record { payload = payload; bufp = bufp; pool = pool_ws } in
    ground (arith, give_back-Inv limit s j v, submit_ingress-Inv limit s j v)

leave_jobs-Inv :
    (limit : ℕ) (s : Stream) (batch : List IngressJob)
    → Inv limit s
    → Inv limit (leave_jobs s batch)
unfolding leave_jobs
leave_jobs-Inv limit s batch v = ground arith

write_jobs-Inv :
    (limit : ℕ) (s : Stream) (batch : List IngressJob) (failed : Bool)
    → s.runner ≡ writing batch
    → Inv limit s
    → Inv limit (write_jobs s batch failed).0
unfolding write_jobs
write_jobs-Inv limit s batch failed e v = ground (
  arith,
  leave_jobs-Inv limit s batch v,
  close_stream-Inv limit (leave_jobs s batch) network_error,
)

take_jobs-Inv :
    (limit : ℕ) (s : Stream) (batch : List IngressJob)
    → s.pending_ingress ≡ batch
    → s.runner ≡ running
    → Inv limit s
    → Inv limit (take_jobs s batch)
unfolding take_jobs
take_jobs-Inv limit s [] e r v = ground arith
take_jobs-Inv limit s (j ∷ js) e r v = ground (arith, ap batch_bytes e)

pub runner_step-Inv :
    (limit : ℕ) (r : IngressRunner) (s : Stream) (failed : Bool)
    → s.runner ≡ r
    → Inv limit s
    → Inv limit (runner_step r s failed).0
unfolding runner_step
runner_step-Inv limit stopped s failed e v = v
runner_step-Inv limit running s failed e v = take_jobs-Inv limit s s.pending_ingress refl e v
runner_step-Inv limit (writing batch) s failed e v = write_jobs-Inv limit s batch failed e v

-- ===== src/Stream/Forgotten.antt =====
-- What a stream forgets of the data that came before its target was connected.
use wispurr.Base.{
  if_intro, ℕ, ◌+◌, ◌≤◌, ◌≡◌, ◌≢◌, refl, List, [], ◌∷◌, Bool, true, false, length, arith,
}
use wispurr.Stream.State.{
  Stream, Connector, dialing, reading, returned, flushing, Effect, close_stream, stopped, running,
  writing, pool_ws, IngressRunner, IngressJob,
}
use wispurr.Stream.Ingress.{
  run_ingress_step, runner_step, take_jobs, write_jobs, queue_ingress_owned, submit_ingress,
  enter_ingress, give_back,
}
use wispurr.Stream.Packets.{
  spend_credit, hold_back, after_queue, write_direct, give_data, data_packet, ready, flush_one,
  connect_step, run_connect_step, connects_now, abandons_now, Action, gives, connects, flushes,
  drains, abandons, shuts, act, run, max_pending_bytes,
}

-- A stream that takes data by itself, with something left of what waited.
pub record Forgets (ds : List (List ℕ)) (s : Stream) : Type 0 where
  pub announced : s.conn_ready_done ≡ true
  pub past : s.connector ≢ dialing
  pub kept : s.pending_data ≡ ds

shut-Forgets :
    (ds : List (List ℕ)) (s : Stream) (reason : ℕ)
    → Forgets ds s
    → Forgets ds (close_stream s reason).0
unfolding close_stream
shut-Forgets ds s reason v = ground arith

spend-Forgets :
    (full : ℕ) (ds : List (List ℕ)) (s : Stream) → Forgets ds s → Forgets ds (spend_credit full s).0
unfolding spend_credit
spend-Forgets full ds s v = ground arith

enter-Forgets :
    (limit : ℕ) (ds : List (List ℕ)) (s : Stream) (j : IngressJob)
    → Forgets ds s
    → Forgets ds (enter_ingress limit s j).0
unfolding enter_ingress close_stream
enter-Forgets limit ds s j v = ground arith

queue-Forgets :
    (limit : ℕ) (ds : List (List ℕ)) (s : Stream) (payload : List ℕ) (bufp : Bool)
    → Forgets ds s
    → Forgets ds (queue_ingress_owned limit s payload bufp).0
unfolding queue_ingress_owned submit_ingress give_back
queue-Forgets limit ds s payload bufp v =
    ground (
      arith,
      enter-Forgets limit ds s (record { payload = payload; bufp = bufp; pool = pool_ws }) v,
    )

after_queue-Forgets :
    (full : ℕ) (ds : List (List ℕ)) (q : Stream × Effect × Bool)
    → Forgets ds q.0
    → Forgets ds (after_queue full q).0
unfolding after_queue
after_queue-Forgets full ds (s, e, ok) v =
    if_intro (λ r. Forgets ds r.0) ok (spend_credit full s) (s, e) (λ h. spend-Forgets full ds s v)
      (λ h. v)

write-Forgets :
    (full : ℕ) (ds : List (List ℕ)) (s : Stream) (payload : List ℕ) (failed : Bool)
    → Forgets ds s
    → Forgets ds (write_direct full s payload failed).0
unfolding write_direct close_stream spend_credit
write-Forgets full ds s [] failed v = ground arith
write-Forgets full ds s (b ∷ bs) failed v = ground arith

give-Forgets :
    (limit full : ℕ) (ds : List (List ℕ)) (s : Stream) (payload : List ℕ) (bufp failed : Bool)
    → Forgets ds s
    → Forgets ds (data_packet limit full s payload bufp failed).0
unfolding data_packet give_data
give-Forgets limit full ds s payload bufp failed v = ground (
  arith,
  after_queue-Forgets full ds (queue_ingress_owned limit s payload bufp)
      (queue-Forgets limit ds s payload bufp v),
  write-Forgets full ds s payload failed v,
)

connect_step-Forgets :
    (ds : List (List ℕ)) (c : Connector) (s : Stream) (failed : Bool)
    → Forgets ds s
    → Forgets ds (connect_step c s failed).0
unfolding connect_step ready flush_one close_stream
connect_step-Forgets ds (flushing []) s failed v = ground arith
connect_step-Forgets ds (flushing (e ∷ es)) s failed v = ground arith
connect_step-Forgets ds dialing s failed v = v
connect_step-Forgets ds reading s failed v = v
connect_step-Forgets ds returned s failed v = v

take_jobs-Forgets :
    (ds : List (List ℕ)) (s : Stream) (batch : List IngressJob)
    → Forgets ds s
    → Forgets ds (take_jobs s batch)
unfolding take_jobs
take_jobs-Forgets ds s [] v = ground arith
take_jobs-Forgets ds s (j ∷ js) v = ground arith

runner_step-Forgets :
    (ds : List (List ℕ)) (r : IngressRunner) (s : Stream) (failed : Bool)
    → Forgets ds s
    → Forgets ds (runner_step r s failed).0
unfolding runner_step write_jobs close_stream
runner_step-Forgets ds stopped s failed v = v
runner_step-Forgets ds running s failed v = take_jobs-Forgets ds s s.pending_ingress v
runner_step-Forgets ds (writing batch) s failed v = ground arith

past_dialing :
    (c : Connector) (stream_type full : ℕ) (s : Stream)
    → s.connector ≡ c
    → s.connector ≢ dialing
    → connects_now c stream_type full s ≡ s
unfolding connects_now
past_dialing dialing stream_type full s e p = absurd (p e)
past_dialing (flushing ds) stream_type full s e p = refl
past_dialing reading stream_type full s e p = refl
past_dialing returned stream_type full s e p = refl

past_abandoning :
    (c : Connector) (s : Stream) (reason : ℕ)
    → s.connector ≡ c
    → s.connector ≢ dialing
    → (abandons_now c s reason).0 ≡ s
unfolding abandons_now
past_abandoning dialing s reason e p = absurd (p e)
past_abandoning (flushing ds) s reason e p = refl
past_abandoning reading s reason e p = refl
past_abandoning returned s reason e p = refl

act-Forgets :
    (limit full : ℕ) (ds : List (List ℕ)) (s : Stream) (a : Action)
    → Forgets ds s
    → Forgets ds (act limit full s a).0
unfolding act run_connect_step run_ingress_step
act-Forgets limit full ds s (gives payload bufp failed) v =
    give-Forgets limit full ds s payload bufp failed v
act-Forgets limit full ds s (connects t) v = rw (past_dialing s.connector t full s refl v.past) v
act-Forgets limit full ds s (flushes failed) v = connect_step-Forgets ds s.connector s failed v
act-Forgets limit full ds s (drains failed) v = runner_step-Forgets ds s.runner s failed v
act-Forgets limit full ds s (abandons reason) v =
    rw (past_abandoning s.connector s reason refl v.past) v
act-Forgets limit full ds s (shuts reason) v = shut-Forgets ds s reason v

run-Forgets :
    (limit full : ℕ) (ds : List (List ℕ)) (s : Stream) (rest : List Action)
    → Forgets ds s
    → Forgets ds (run limit full s rest)
unfolding run
run-Forgets limit full ds s [] v = v
run-Forgets limit full ds s (a ∷ rest) v =
    run-Forgets limit full ds (act limit full s a).0 rest (act-Forgets limit full ds s a v)

held_while_flushing :
    (limit full : ℕ) (s : Stream) (d : List ℕ) (bufp failed : Bool)
    → s.is_open ≡ true
    → s.conn_ready_done ≡ false
    → s.connector ≡ flushing []
    → s.pending_data ≡ []
    → s.pending_bytes + length d ≤ max_pending_bytes
    → Forgets (d ∷ []) (run limit full s (gives d bufp failed ∷ flushes false ∷ []))
unfolding run act data_packet give_data hold_back run_connect_step connect_step ready
held_while_flushing limit full s d bufp failed o r c p h = ground arith

-- A payload that comes when handleConnect has written all that waited, and has not yet announced the
-- target, is accepted and forgotten: it stays in `pending_data` for ever, whatever happens later.
pub held_while_flushing-Forgets :
    (limit full : ℕ) (s : Stream) (d : List ℕ) (bufp failed : Bool) (rest : List Action)
    → s.is_open ≡ true
    → s.conn_ready_done ≡ false
    → s.connector ≡ flushing []
    → s.pending_data ≡ []
    → s.pending_bytes + length d ≤ max_pending_bytes
    → Forgets
        (d ∷ [])
        (run limit full (run limit full s (gives d bufp failed ∷ flushes false ∷ [])) rest)
held_while_flushing-Forgets limit full s d bufp failed rest o r c p h =
    run-Forgets limit full (d ∷ []) _ rest
      (held_while_flushing limit full s d bufp failed o r c p h)

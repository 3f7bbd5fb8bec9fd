-- ===== src/Stream/Order.antt =====
-- The bytes of a stream on their way to the target, in order.
use wispurr.Base.{
  ℕ, ◌+◌, ◌≡◌, refl, sym, ap, ◌∙◌, List, [], ◌∷◌, ◌++◌, Bool, true, false, not, arith, ◌||◌,
  append_assoc, append-nil, if_intro,
}
use wispurr.Stream.State.{
  release_all, Stream, Connector, dialing, reading, returned, flushing, Effect, new_stream, stopped,
  running, writing, IngressRunner, IngressJob, payloads,
}
use wispurr.Stream.Ingress.{run_ingress_step, runner_step, take_jobs, write_jobs}
use wispurr.Stream.Invariant.{runs}
use wispurr.Stream.Packets.{
  data_packet, connected, ready, flush_one, connect_step, run_connect_step, connects_now, Action,
  gives, connects, flushes, drains, abandons, shuts, act, run,
}
use wispurr.Stream.Line.{
  join, flush_bytes, batch_of, line, Calm, AllCalm, given, all_given, Early, Late, Tidy, Advances,
  IfOpen, line_taken, line_flushed, line_announced, line_idle, line_moved, line_written, unchanged,
  not_idle,
}
use wispurr.Stream.Line.{early, passing, late}
use wispurr.Stream.Arrivals.{data-IfOpen}

or_false : (a b : Bool) → b ≡ false → (a || b) ≡ a
or_false true b h = refl
or_false false b h = h

-- The target is connected, and takes what waits.
connected-Advances :
    (stream_type full : ℕ) (s : Stream)
    → s.connector ≡ dialing
    → Early s
    → Advances [] s (connected stream_type full s)
unfolding connected
connected-Advances stream_type full s c v = record {
  tidy =
      passing s.pending_data refl refl
        (record {
          unready = v.unready;
          inactive = v.inactive;
          unrun = v.unrun;
          unqueued = v.unqueued;
          unset = v.unset;
        })
        refl;
  grown =
      line_taken s.written s.pending_data s.connector
        (batch_of s.runner ++ payloads s.pending_ingress) c;
}

flushed-Advances :
    (s : Stream) (d : List ℕ) (ds : List (List ℕ))
    → s.connector ≡ flushing (d ∷ ds)
    → s.has_conn ≡ true
    → Early s
    → s.pending_data ≡ []
    → Advances [] s (record s { written = s.written ++ d; connector = flushing ds })
flushed-Advances s d ds c h v p = record {
  tidy =
      passing ds refl h
        (record {
          unready = v.unready;
          inactive = v.inactive;
          unrun = v.unrun;
          unqueued = v.unqueued;
          unset = v.unset;
        })
        p;
  grown =
      line_flushed s.written d ds s.connector
        (join s.pending_data ++ (batch_of s.runner ++ payloads s.pending_ingress)) c;
}

ready-Advances :
    (s : Stream)
    → s.connector ≡ flushing []
    → s.has_conn ≡ true
    → Early s
    → s.pending_data ≡ []
    → Advances [] s (ready s)
unfolding ready
ready-Advances s c h v p =
    if_intro (Advances [] s) s.conn_ready_done _ _ (λ e. absurd (ground (arith, v.unready)))
      (λ e. record {
        tidy = late refl (record {
          announced = refl;
          taken = p;
          flagged = v.unset ∙ sym (ap runs v.unrun);
          target = h;
          by_queue = or_false _ _ v.inactive;
          direct = λ n. (v.unrun, v.unqueued);
        });
        grown =
            line_announced s.written s.connector
              (join s.pending_data ++ (batch_of s.runner ++ payloads s.pending_ingress)) c;
      })

taken_jobs-Advances :
    (s : Stream) (batch : List IngressJob)
    → s.pending_ingress ≡ batch
    → s.runner ≡ running
    → s.connector ≡ reading
    → Late s
    → Advances [] s (take_jobs s batch)
unfolding take_jobs
taken_jobs-Advances s [] e r c v = record {
  tidy = late c (record {
    announced = v.announced;
    taken = v.taken;
    flagged = refl;
    target = v.target;
    by_queue = v.by_queue;
    direct = λ n. (refl, (v.direct n).1);
  });
  grown =
      line_idle s.written (flush_bytes s.connector) (join s.pending_data)
        (payloads s.pending_ingress) s.runner r;
}
taken_jobs-Advances s (j ∷ js) e r c v = record {
  tidy = late c (record {
    announced = v.announced;
    taken = v.taken;
    flagged = v.flagged ∙ ap runs r;
    target = v.target;
    by_queue = v.by_queue;
    direct = λ n. absurd (ground (arith, v.direct n));
  });
  grown =
      line_moved s.written (flush_bytes s.connector) (join s.pending_data) (j ∷ js) s.runner
        s.pending_ingress r e;
}

batch-Advances :
    (s : Stream) (batch : List IngressJob)
    → s.is_open ≡ true
    → s.runner ≡ writing batch
    → s.connector ≡ reading
    → Late s
    → Advances [] s (record s {
      runner = running;
      written = s.written ++ payloads batch;
      ws_puts = s.ws_puts + release_all batch;
    })
batch-Advances s batch o r c v = record {
  tidy = late c (record {
    announced = v.announced;
    taken = v.taken;
    flagged = v.flagged ∙ ap runs r;
    target = v.target;
    by_queue = v.by_queue;
    direct = λ n. absurd (not_idle batch s.runner r (v.direct n).0);
  });
  grown =
      line_written s.written s.connector s.pending_data batch s.runner (payloads s.pending_ingress)
        c v.taken r;
}

written_jobs-Advances :
    (s : Stream) (batch : List IngressJob)
    → s.is_open ≡ true
    → s.runner ≡ writing batch
    → s.connector ≡ reading
    → Late s
    → Advances [] s (write_jobs s batch false).0
unfolding write_jobs
written_jobs-Advances s batch o r c v =
    if_intro (λ (q : Stream × Effect). Advances [] s q.0) (not s.is_open) _ _
      (λ e. absurd (ground arith))
      (λ e.
        if_intro (λ (q : Stream × Effect). Advances [] s q.0) (not s.has_conn) _ _
          (λ k. absurd (ground (arith, v.target))) (λ k. batch-Advances s batch o r c v))

step-Advances :
    (r : IngressRunner) (s : Stream)
    → s.runner ≡ r
    → s.is_open ≡ true
    → Tidy s
    → Advances [] s (runner_step r s false).0
unfolding runner_step
step-Advances stopped s r o v = unchanged s v
step-Advances running s r o (early c v) = absurd (ground (arith, v.unrun))
step-Advances running s r o (passing ds c h v p) = absurd (ground (arith, v.unrun))
step-Advances running s r o (late c v) = taken_jobs-Advances s s.pending_ingress refl r c v
step-Advances (writing batch) s r o (early c v) = absurd (ground (arith, v.unrun))
step-Advances (writing batch) s r o (passing ds c h v p) = absurd (ground (arith, v.unrun))
step-Advances (writing batch) s r o (late c v) = written_jobs-Advances s batch o r c v

flush-Advances :
    (c : Connector) (s : Stream)
    → s.connector ≡ c
    → s.is_open ≡ true
    → Tidy s
    → Advances [] s (connect_step c s false).0
unfolding connect_step flush_one
flush-Advances dialing s e o v = unchanged s v
flush-Advances reading s e o v = unchanged s v
flush-Advances returned s e o v = unchanged s v
flush-Advances (flushing ds) s e o (early c v) = absurd (ground (arith, c))
flush-Advances (flushing ds) s e o (late c v) = absurd (ground (arith, c))
flush-Advances (flushing []) s e o (passing ds c h v p) = ready-Advances s e h v p
flush-Advances (flushing (d ∷ ds)) s e o (passing es c h v p) =
    if_intro (λ (q : Stream × Effect). Advances [] s q.0) (not s.is_open) _ _
      (λ k. absurd (ground arith))
      (λ k.
        if_intro (λ (q : Stream × Effect). Advances [] s q.0) (not s.has_conn) _ _
          (λ n. absurd (ground (arith, h))) (λ n. flushed-Advances s d ds e h v p))

connect-Advances :
    (c : Connector) (stream_type full : ℕ) (s : Stream)
    → s.connector ≡ c
    → Tidy s
    → Advances [] s (connects_now c stream_type full s)
unfolding connects_now
connect-Advances dialing t full s e (early c v) = connected-Advances t full s c v
connect-Advances dialing t full s e (passing ds c h v p) = absurd (ground (arith, c))
connect-Advances dialing t full s e (late c v) = absurd (ground (arith, c))
connect-Advances (flushing ds) t full s e v = unchanged s v
connect-Advances reading t full s e v = unchanged s v
connect-Advances returned t full s e v = unchanged s v

act-Advances :
    (limit full : ℕ) (s : Stream) (a : Action)
    → Calm s a
    → s.is_open ≡ true
    → (act limit full s a).0.is_open ≡ true
    → Tidy s
    → Advances (given a) s (act limit full s a).0
unfolding act data_packet run_connect_step run_ingress_step
act-Advances limit full s (gives payload bufp true) (f, n) o k v = cc
act-Advances limit full s (gives payload bufp false) (f, n) o k v =
    if_intro (IfOpen payload s) s.is_open _ _ (λ e. data-IfOpen limit full s payload bufp n o v)
      (λ e. absurd (ground arith)) k
act-Advances limit full s (connects t) h o k v = connect-Advances s.connector t full s refl v
act-Advances limit full s (flushes true) h o k v = cc
act-Advances limit full s (flushes false) h o k v = flush-Advances s.connector s refl o v
act-Advances limit full s (drains true) h o k v = cc
act-Advances limit full s (drains false) h o k v = step-Advances s.runner s refl o v
act-Advances limit full s (abandons reason) h o k v = absurd h
act-Advances limit full s (shuts reason) h o k v = absurd h

run-line :
    (limit full : ℕ) (s : Stream) (rest : List Action)
    → s.is_open ≡ true
    → AllCalm limit full s rest
    → Tidy s
    → line (run limit full s rest) ≡ line s ++ all_given rest
unfolding run
run-line limit full s [] o h v = sym (append-nil (line s))
run-line limit full s (a ∷ rest) o h v =
    let step = act-Advances limit full s a h.0 o h.1 v in
    run-line limit full (act limit full s a).0 rest h.1 h.2 step.tidy
    ∙ ap (λ xs. xs ++ all_given rest) step.grown
    ∙ append_assoc (line s) (given a) (all_given rest)

-- On a new stream that stays open, without failures, and with no data packet while handleConnect
-- writes what waited: whatever the order of the goroutines, what the target has taken, what
-- handleConnect and the writer goroutine have in their hands, and what waits before the target is
-- connected and after, are in this order the bytes of the packets, none lost, repeated or reordered.
pub run-new_stream-line :
    (limit full id : ℕ) (rest : List Action)
    → AllCalm limit full (new_stream id) rest
    → line (run limit full (new_stream id) rest) ≡ all_given rest
unfolding new_stream
run-new_stream-line limit full id rest h = run-line limit full (new_stream id) rest refl h (
    early refl
      (record { unready = refl; inactive = refl; unrun = refl; unqueued = refl; unset = refl }))

-- ===== src/Stream/Arrivals.antt =====
-- A data packet of an open stream and the order of the bytes.
use wispurr.Base.{
  ℕ, ◌+◌, ◌-◌, ◌%◌, ◌^◌, ◌≡◌, refl, sym, ap, ◌∙◌, List, [], ◌∷◌, ◌++◌, Bool, true, false, not,
  length, arith, ◌==◌, ◌&&◌, ◌||◌, ltb, if_intro, Bool-cases, inl, inr,
}
use wispurr.Protocol.StreamType.{tcp}
use wispurr.Protocol.CloseReason.{throttled}
use wispurr.Stream.State.{
  Stream, dialing, reading, Effect, close_stream, IngressJob, payloads, pool_ws,
}
use wispurr.Stream.Ingress.{
  queue_ingress_owned, submit_ingress, enter_ingress, start_runner, give_back, refused,
}
use wispurr.Stream.Packets.{
  spend_credit, hold_back, after_queue, write_direct, give_data, max_pending_bytes,
}
use wispurr.Stream.Line.{
  join, flush_bytes, batch_of, is_flushing, Early, Late, Tidy, Advances, line_held, line_queued,
  line_direct, shut_closed, IfOpen, shut-IfOpen, idle_batch, unchanged,
}
use wispurr.Stream.Line.{early, passing, late}

hold_back-Advances :
    (s : Stream) (payload : List ℕ)
    → s.connector ≡ dialing
    → Early s
    → IfOpen payload s (hold_back s payload)
unfolding hold_back
hold_back-Advances s payload c v =
    if_intro (IfOpen payload s) (ltb max_pending_bytes (s.pending_bytes + length payload)) _ _
      (λ e. shut-IfOpen payload s s throttled)
      (λ e o. record {
        tidy = early c (record {
          unready = v.unready;
          inactive = v.inactive;
          unrun = v.unrun;
          unqueued = v.unqueued;
          unset = v.unset;
        });
        grown =
            line_held s.written (flush_bytes s.connector) s.pending_data payload s.runner
              s.pending_ingress v.unrun v.unqueued;
      })

credit-Tidy : (x : ℕ) (t : Stream) → Tidy t → Tidy (record t { buffer_remaining = x })
credit-Tidy x t (early c v) = early c (record {
  unready = v.unready;
  inactive = v.inactive;
  unrun = v.unrun;
  unqueued = v.unqueued;
  unset = v.unset;
})
credit-Tidy x t (passing ds c h v p) =
    passing ds c h
      (record {
        unready = v.unready;
        inactive = v.inactive;
        unrun = v.unrun;
        unqueued = v.unqueued;
        unset = v.unset;
      })
      p
credit-Tidy x t (late c v) = late c (record {
  announced = v.announced;
  taken = v.taken;
  flagged = v.flagged;
  target = v.target;
  by_queue = v.by_queue;
  direct = v.direct;
})

-- Spending a credit leaves the line and the state of the stream alone.
spend-IfOpen :
    (full : ℕ) (bytes : List ℕ) (s t : Stream)
    → Advances bytes s t
    → IfOpen bytes s (spend_credit full t)
unfolding spend_credit
spend-IfOpen full bytes s t h =
    if_intro (IfOpen bytes s) ((t.buffer_remaining + 2 ^ 32 - 1) % 2 ^ 32 == 0) _ _
      (λ e o. record { tidy = credit-Tidy full t h.tidy; grown = h.grown })
      (λ e o. record { tidy = credit-Tidy _ t h.tidy; grown = h.grown })

both_true : (a b : Bool) → a ≡ true → b ≡ true → (a && b) ≡ false → ⊥
both_true a b x y h = ground arith

left_false : (a b : Bool) → a ≡ false → (a && b) ≡ true → ⊥
left_false a b x h = ground arith

queued-Tidy :
    (s : Stream) (j : IngressJob)
    → s.connector ≡ reading
    → (s.stream_type == tcp) ≡ true
    → Late s
    → Advances j.payload s (
        start_runner (record s {
          pending_ingress = s.pending_ingress ++ (j ∷ []);
          pending_ing_bytes = s.pending_ing_bytes + length j.payload;
        }))
unfolding start_runner
queued-Tidy s j c t v =
    if_intro (Advances j.payload s) s.ingress_writing _ _
      (λ e. record {
        tidy = late c (record {
          announced = v.announced;
          taken = v.taken;
          flagged = v.flagged;
          target = v.target;
          by_queue = v.by_queue;
          direct = λ n. cc;
        });
        grown =
            line_queued s.written (flush_bytes s.connector) (join s.pending_data)
              (batch_of s.runner) s.pending_ingress j;
      })
      (λ e. record {
        tidy = late c (record {
          announced = v.announced;
          taken = v.taken;
          flagged = refl;
          target = v.target;
          by_queue = v.by_queue;
          direct = λ n. cc;
        });
        grown =
            ap
              (λ b.
                s.written
                ++ (flush_bytes s.connector
                    ++ (join s.pending_data ++ (b ++ payloads (s.pending_ingress ++ (j ∷ []))))))
              (sym (idle_batch s.runner (sym v.flagged ∙ e)))
            ∙ line_queued s.written (flush_bytes s.connector) (join s.pending_data)
                (batch_of s.runner) s.pending_ingress j;
      })

abbrev QueueOk : List ℕ → Stream → Stream × Effect × Bool → Type 0
QueueOk bytes s (t, e, ok) = (ok ≡ true → Advances bytes s t) × (ok ≡ false → t.is_open ≡ true → ⊥)

refused_shut :
    (bytes : List ℕ) (s t : Stream) (reason : ℕ) → QueueOk bytes s (refused (close_stream t reason))
unfolding refused
refused_shut bytes s t reason = (λ e. cc, λ e o. shut_closed t reason o)

enter-QueueOk :
    (limit : ℕ) (s : Stream) (j : IngressJob)
    → s.connector ≡ reading
    → (s.stream_type == tcp) ≡ true
    → Late s
    → QueueOk j.payload s (enter_ingress limit s j)
unfolding enter_ingress
enter-QueueOk limit s j c t v =
    if_intro (QueueOk j.payload s) (ltb limit (s.pending_ing_bytes + length j.payload)) _ _
      (λ e. refused_shut j.payload s (give_back s j) throttled)
      (λ e. (λ k. queued-Tidy s j c t v, λ k o. cc))

queue-QueueOk :
    (limit : ℕ) (s : Stream) (payload : List ℕ) (bufp : Bool)
    → s.is_open ≡ true
    → s.ingress_active ≡ true
    → s.connector ≡ reading
    → (s.stream_type == tcp) ≡ true
    → Late s
    → QueueOk payload s (queue_ingress_owned limit s payload bufp)
unfolding queue_ingress_owned submit_ingress
queue-QueueOk limit s payload bufp o a c t v =
    let j : IngressJob = record { payload = payload; bufp = bufp; pool = pool_ws } in
    if_intro (QueueOk payload s) (not s.ingress_active || not s.is_open) _ _
      (λ e. absurd (ground arith))
      (λ e.
        if_intro (QueueOk payload s) (not s.ingress_active || not s.is_open) _ _
          (λ e. absurd (ground arith)) (λ e. enter-QueueOk limit s j c t v))

after_queue-IfOpen :
    (full : ℕ) (bytes : List ℕ) (s : Stream) (q : Stream × Effect × Bool)
    → QueueOk bytes s q
    → IfOpen bytes s (after_queue full q)
unfolding after_queue
after_queue-IfOpen full bytes s (t, e, ok) h =
    if_intro (IfOpen bytes s) ok _ _ (λ k. spend-IfOpen full bytes s t (h.0 k))
      (λ k o. absurd (h.1 k o))

direct-Advances :
    (s : Stream) (payload : List ℕ)
    → s.connector ≡ reading
    → (s.stream_type == tcp) ≡ false
    → Late s
    → Advances payload s (record s { written = s.written ++ payload })
direct-Advances s payload c t v = record {
  tidy = late c (record {
    announced = v.announced;
    taken = v.taken;
    flagged = v.flagged;
    target = v.target;
    by_queue = v.by_queue;
    direct = v.direct;
  });
  grown =
      line_direct s.written s.connector s.pending_data payload s.runner s.pending_ingress c v.taken
        (v.direct t).0 (v.direct t).1;
}

write-IfOpen :
    (full : ℕ) (s : Stream) (payload : List ℕ)
    → s.connector ≡ reading
    → (s.stream_type == tcp) ≡ false
    → Late s
    → IfOpen payload s (write_direct full s payload false)
unfolding write_direct
write-IfOpen full s [] c t v =
    if_intro (IfOpen [] s) (s.stream_type == tcp) _ _ (λ e. absurd (ground arith))
      (λ e o. unchanged s (late c v))
write-IfOpen full s (b ∷ bs) c t v =
    if_intro (IfOpen (b ∷ bs) s) (not s.has_conn) _ _ (λ e. absurd (ground (arith, v.target)))
      (λ n.
        if_intro (IfOpen (b ∷ bs) s) (s.stream_type == tcp) _ _ (λ e. absurd (ground arith))
          (λ e o. direct-Advances s (b ∷ bs) c t v))

pub data-IfOpen :
    (limit full : ℕ) (s : Stream) (payload : List ℕ) (bufp : Bool)
    → is_flushing s.connector ≡ false
    → s.is_open ≡ true
    → Tidy s
    → IfOpen payload s (give_data limit full s payload bufp false)
unfolding give_data
data-IfOpen limit full s payload bufp n o (early c v) =
    if_intro (IfOpen payload s) (not s.conn_ready_done) _ _ (λ e. hold_back-Advances s payload c v)
      (λ e. absurd (ground (arith, v.unready)))
data-IfOpen limit full s payload bufp n o (passing ds c h v p) = absurd (ground (arith, c, n))
data-IfOpen limit full s payload bufp n o (late c v) =
    if_intro (IfOpen payload s) (not s.conn_ready_done) _ _
      (λ e. absurd (ground (arith, v.announced)))
      (λ e. elim (Bool-cases (s.stream_type == tcp)) [
        | inl t ↦
            if_intro (IfOpen payload s) (s.stream_type == tcp && s.ingress_active) _ _
              (λ k.
                after_queue-IfOpen full payload s (queue_ingress_owned limit s payload bufp)
                  (queue-QueueOk limit s payload bufp o (v.by_queue ∙ t) c t v))
              (λ k. absurd (both_true _ _ t (v.by_queue ∙ t) k))
        | inr t ↦
            if_intro (IfOpen payload s) (s.stream_type == tcp && s.ingress_active) _ _
              (λ k. absurd (left_false _ _ t k)) (λ k. write-IfOpen full s payload c t v)
      ])

-- ===== src/WriteQueue/Invariant.antt =====
-- The byte count, the limit, and the writer: what holds of the queue between any two operations.
use wispurr.Base.{
  ℕ, ◌+◌, ◌≤◌, ◌≡◌, refl, List, [], ◌∷◌, ◌++◌, Bool, true, false, arith, Option, none, some,
  if_intro, ◌==◌, ◌-◌, ◌⊎◌, inl,
}
use wispurr.WriteQueue.{
  WriteQueue, WriteReq, Runner, stopped, running, writing, Action, submits, enters, writes,
  gives_up, closes, give_up, batch_bytes, close, enqueue, submit_write, take_batch, writer_step,
  act, run, open_queue,
}

abbrev pub runs : Runner → Bool
runs stopped = false
runs running = true
runs (writing batch) = true

pub record Inv (limit : ℕ) (w : WriteQueue) : Type 0 where
  pub counted : w.pending_bytes ≡ batch_bytes w.pending_writes
  pub bounded : w.pending_bytes ≤ limit
  pub flagged : w.write_active ≡ runs w.runner
  pub served :
      (w.pending_writes ≡ []) ⊎ ((w.write_active ≡ true) ⊎ ((w.is_closed ≡ true) ⊎ (1 ≤ w.failing)))

pub batch_bytes-append :
    (xs ys : List WriteReq) → batch_bytes (xs ++ ys) ≡ batch_bytes xs + batch_bytes ys
batch_bytes-append [] ys = omega arith
batch_bytes-append (x ∷ xs) ys = omega (arith, batch_bytes-append xs ys)

pub close-is_closed : (w : WriteQueue) → (close w).is_closed ≡ true
unfolding close
close-is_closed w = ground arith

close-Inv : (limit : ℕ) (w : WriteQueue) → Inv limit w → Inv limit (close w)
unfolding close
close-Inv limit w v = ground arith

closed-Inv :
    (limit : ℕ) (w : WriteQueue) (n : ℕ)
    → Inv limit w
    → Inv limit (close (record w { failing = n }))
unfolding close
closed-Inv limit w n v = ground arith

enqueue-Inv :
    (limit : ℕ) (w : WriteQueue) (req : WriteReq) → Inv limit w → Inv limit (enqueue limit w req)
unfolding enqueue
enqueue-Inv limit w req v = ground (arith, batch_bytes-append w.pending_writes (req ∷ []))

submit_write-Inv :
    (limit : ℕ) (w : WriteQueue) (req : WriteReq)
    → Inv limit w
    → Inv limit (submit_write limit w req)
unfolding submit_write
submit_write-Inv limit w req v = ground (arith, batch_bytes-append w.pending_writes (req ∷ []))

take_batch-Inv :
    (limit : ℕ) (w : WriteQueue) (batch : List WriteReq)
    → w.pending_writes ≡ batch
    → w.runner ≡ running
    → Inv limit w
    → Inv limit (take_batch w batch)
unfolding take_batch
take_batch-Inv limit w [] e r v = ground arith
take_batch-Inv limit w (x ∷ xs) e r v = ground arith

writer_step-Inv :
    (limit : ℕ) (r : Runner) (w : WriteQueue) (failed : Option ℕ)
    → w.runner ≡ r
    → Inv limit w
    → Inv limit (writer_step r w failed)
unfolding writer_step
writer_step-Inv limit stopped w failed e v = v
writer_step-Inv limit running w failed e v = take_batch-Inv limit w w.pending_writes refl e v
writer_step-Inv limit (writing batch) w none e v = ground arith
writer_step-Inv limit (writing batch) w (some k) e v = ground arith

give_up-Inv : (limit : ℕ) (w : WriteQueue) → Inv limit w → Inv limit (give_up w)
unfolding give_up
give_up-Inv limit w v =
    if_intro (Inv limit) (w.failing == 0) _ _ (λ e. v) (λ e. closed-Inv limit w (w.failing - 1) v)

pub act-Inv : (limit : ℕ) (w : WriteQueue) (a : Action) → Inv limit w → Inv limit (act limit w a)
unfolding act
act-Inv limit w (submits req) v = submit_write-Inv limit w req v
act-Inv limit w (enters req) v = enqueue-Inv limit w req v
act-Inv limit w (writes failed) v = writer_step-Inv limit w.runner w failed refl v
act-Inv limit w gives_up v = give_up-Inv limit w v
act-Inv limit w closes v = close-Inv limit w v

run-Inv :
    (limit : ℕ) (w : WriteQueue) (rest : List Action) → Inv limit w → Inv limit (run limit w rest)
unfolding run
run-Inv limit w [] v = v
run-Inv limit w (a ∷ rest) v = run-Inv limit (act limit w a) rest (act-Inv limit w a v)

-- After any history of calls, writer rounds, failures and closes on a new connection, `pending_bytes`
-- is the total length of the pending frames and at most the limit, the flag is set exactly when a writer
-- goroutine is at work, and whenever a frame is pending on an open connection one is, or one whose write
-- has failed has still to close the connection.
pub run-open_queue-Inv : (limit : ℕ) (rest : List Action) → Inv limit (run limit open_queue rest)
unfolding open_queue
run-open_queue-Inv limit rest =
    run-Inv limit _ rest
      (record { counted = refl; bounded = omega arith; flagged = refl; served = inl refl })

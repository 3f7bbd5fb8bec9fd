-- ===== src/WriteQueue/Whole.antt =====
-- The frames of the batches written, as long as no write has failed.
use wispurr.Base.{
  ℕ, ◌-◌, ◌==◌, ◌≡◌, refl, sym, ◌∙◌, List, [], ◌∷◌, Option, none, some, false, length, arith, All,
  All-append, if_intro,
}
use mathlib.Core.Path.{subst}
use wispurr.WriteQueue.Invariant.{close-is_closed}
use wispurr.WriteQueue.{
  WriteQueue, WriteReq, SentFrame, Runner, stopped, running, writing, whole_batch, close, enqueue,
  submit_write, take_batch, finish_batch, writer_step, run_writer_step, give_up, open_queue, Action,
  submits, enters, writes, gives_up, closes, act, run,
}

-- A frame that the connection took to its last byte.
abbrev pub IsWhole : SentFrame → Type 0
IsWhole s = s.bytes ≡ length s.frame

abbrev pub Unbroken : WriteQueue → Type 0
Unbroken w = w.is_closed ≡ false → w.failing ≡ 0 → All IsWhole w.wire

-- An operation that writes nothing.
record Still (w v : WriteQueue) : Type 0 where
  wire : v.wire ≡ w.wire
  failing : v.failing ≡ w.failing
  unclosed : v.is_closed ≡ false → w.is_closed ≡ false

Still-Unbroken : (w v : WriteQueue) → Still w v → Unbroken w → Unbroken v
Still-Unbroken w v s u =
    λ o f. subst (All IsWhole) (sym s.wire) (u (s.unclosed o) (sym s.failing ∙ f))

closed-Unbroken : (w : WriteQueue) → Unbroken (close w)
closed-Unbroken w = λ o f. absurd (ground (arith, o, close-is_closed w))

submit_write-Still :
    (limit : ℕ) (w : WriteQueue) (req : WriteReq) → Still w (submit_write limit w req)
unfolding submit_write
submit_write-Still limit w req = ground arith

enqueue-Still : (limit : ℕ) (w : WriteQueue) (req : WriteReq) → Still w (enqueue limit w req)
unfolding enqueue
enqueue-Still limit w req = ground arith

take_batch-Still : (w : WriteQueue) (batch : List WriteReq) → Still w (take_batch w batch)
unfolding take_batch
take_batch-Still w [] = ground arith
take_batch-Still w (r ∷ rs) = ground arith

whole_batch-IsWhole : (batch : List WriteReq) → All IsWhole (whole_batch batch)
whole_batch-IsWhole [] = tt
whole_batch-IsWhole (r ∷ rs) = (refl, whole_batch-IsWhole rs)

writer_step-Unbroken :
    (r : Runner) (w : WriteQueue) (failed : Option ℕ)
    → Unbroken w
    → Unbroken (writer_step r w failed)
unfolding writer_step finish_batch
writer_step-Unbroken stopped w failed u = u
writer_step-Unbroken running w failed u =
    Still-Unbroken w (take_batch w w.pending_writes) (take_batch-Still w w.pending_writes) u
writer_step-Unbroken (writing batch) w none u =
    λ o f. All-append IsWhole w.wire (whole_batch batch) (u o f) (whole_batch-IsWhole batch)
writer_step-Unbroken (writing batch) w (some k) u = λ o f. absurd (omega arith)

give_up-Unbroken : (w : WriteQueue) → Unbroken w → Unbroken (give_up w)
unfolding give_up
give_up-Unbroken w u =
    if_intro Unbroken (w.failing == 0) _ _ (λ e. u)
      (λ e. closed-Unbroken (record w { failing = w.failing - 1 }))

act-Unbroken : (limit : ℕ) (w : WriteQueue) (a : Action) → Unbroken w → Unbroken (act limit w a)
unfolding act run_writer_step
act-Unbroken limit w (submits req) u =
    Still-Unbroken w (submit_write limit w req) (submit_write-Still limit w req) u
act-Unbroken limit w (enters req) u =
    Still-Unbroken w (enqueue limit w req) (enqueue-Still limit w req) u
act-Unbroken limit w (writes failed) u = writer_step-Unbroken w.runner w failed u
act-Unbroken limit w gives_up u = give_up-Unbroken w u
act-Unbroken limit w closes u = closed-Unbroken w

run-Unbroken :
    (limit : ℕ) (w : WriteQueue) (rest : List Action) → Unbroken w → Unbroken (run limit w rest)
unfolding run
run-Unbroken limit w [] u = u
run-Unbroken limit w (a ∷ rest) u =
    run-Unbroken limit (act limit w a) rest (act-Unbroken limit w a u)

pub run-open_queue-Unbroken :
    (limit : ℕ) (rest : List Action) → Unbroken (run limit open_queue rest)
unfolding open_queue
run-open_queue-Unbroken limit rest = run-Unbroken limit open_queue rest (λ o f. tt)

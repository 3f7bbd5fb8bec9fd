-- ===== src/WriteQueue/Answers.antt =====
-- Every caller that waits on a done channel is answered once.
use wispurr.Base.{
  ℕ, ◌+◌, ◌≡◌, refl, List, [], ◌∷◌, ◌++◌, arith, Option, none, some, ◌==◌, if◌then◌else◌, ltb,
  length, if_intro, ◌-◌, Bool-cases, inl, inr, ◌∙◌,
}
use wispurr.WriteQueue.{
  WriteQueue, WriteReq, Runner, refuse, start_writer, written, write_error, stopped, running,
  writing, Outcome, err_closed, answer, answer_all, close, enqueue, submit_write, take_batch,
  finish_batch, writer_step, run_writer_step, give_up, Action, submits, enters, writes, gives_up,
  closes, act, run,
}
use wispurr.WriteQueue.Order.{in_flight, not-runs}
use wispurr.WriteQueue.Invariant.{Inv, runs, act-Inv}

-- How often the channel `d` stands among some requests, and among some answers.
abbrev asks : ℕ → Option ℕ → ℕ
asks d none = 0
asks d (some e) = if e == d then 1 else 0

abbrev asked : ℕ → List WriteReq → ℕ
asked d [] = 0
asked d (r ∷ rs) = asks d r.done + asked d rs

abbrev answered : ℕ → List (ℕ × Outcome) → ℕ
answered d [] = 0
answered d ((e, o) ∷ as') = asks d (some e) + answered d as'

-- The places in which a channel that was handed over can be.
abbrev pub accounts : ℕ → WriteQueue → ℕ
accounts d w = answered d w.answers + asked d (in_flight w.runner) + asked d w.pending_writes

asked-append : (d : ℕ) (xs ys : List WriteReq) → asked d (xs ++ ys) ≡ asked d xs + asked d ys
asked-append d [] ys = omega arith
asked-append d (x ∷ xs) ys = omega (arith, asked-append d xs ys)

answered-append :
    (d : ℕ) (xs ys : List (ℕ × Outcome)) → answered d (xs ++ ys) ≡ answered d xs + answered d ys
answered-append d [] ys = omega arith
answered-append d ((e, o) ∷ xs) ys = omega (arith, answered-append d xs ys)

answered-answer : (d : ℕ) (o : Outcome) (r : Option ℕ) → answered d (answer o r) ≡ asks d r
answered-answer d o none = refl
answered-answer d o (some e) = omega arith

answered-answer_all :
    (d : ℕ) (o : Outcome) (rs : List WriteReq) → answered d (answer_all o rs) ≡ asked d rs
answered-answer_all d o [] = refl
answered-answer_all d o (r ∷ rs) = omega (
  arith,
  answered-append d (answer o r.done) (answer_all o rs),
  answered-answer d o r.done,
  answered-answer_all d o rs,
)

close-accounts : (d : ℕ) (w : WriteQueue) → accounts d (close w) ≡ accounts d w
unfolding close
close-accounts d w = ground (
  arith,
  answered-append d w.answers (answer_all err_closed w.pending_writes),
  answered-answer_all d err_closed w.pending_writes,
)

refuse-accounts :
    (d : ℕ) (w : WriteQueue) (req : WriteReq)
    → accounts d (refuse w req) ≡ accounts d w + asks d req.done
unfolding refuse
refuse-accounts d w req = omega (
  arith,
  answered-append d w.answers (answer err_closed req.done),
  answered-answer d err_closed req.done,
)

start_writer-accounts :
    (d : ℕ) (w : WriteQueue)
    → w.write_active ≡ runs w.runner
    → accounts d (start_writer w) ≡ accounts d w
unfolding start_writer
start_writer-accounts d w v = ground (arith, not-runs w.runner)

enqueue-accounts :
    (limit d : ℕ) (w : WriteQueue) (req : WriteReq)
    → w.write_active ≡ runs w.runner
    → accounts d (enqueue limit w req) ≡ accounts d w + asks d req.done
unfolding enqueue
enqueue-accounts limit d w req v =
    elim (Bool-cases (ltb limit (w.pending_bytes + length req.frame))) [
      | inl over ↦ rw over (close-accounts d (refuse w req) ∙ refuse-accounts d w req)
      | inr fits ↦
          rw fits (
            start_writer-accounts d _ v ∙ omega (arith, asked-append d w.pending_writes (req ∷ [])))
    ]

submit_write-accounts :
    (limit d : ℕ) (w : WriteQueue) (req : WriteReq)
    → w.write_active ≡ runs w.runner
    → accounts d (submit_write limit w req) ≡ accounts d w + asks d req.done
unfolding submit_write
submit_write-accounts limit d w req v =
    ground (arith, refuse-accounts d w req, enqueue-accounts limit d w req v)

take_batch-accounts :
    (d : ℕ) (w : WriteQueue) (batch : List WriteReq)
    → w.pending_writes ≡ batch
    → w.runner ≡ running
    → accounts d (take_batch w batch) ≡ accounts d w
unfolding take_batch
take_batch-accounts d w [] e r = ground arith
take_batch-accounts d w (x ∷ xs) e r = ground arith

finish_batch-accounts :
    (d : ℕ) (w : WriteQueue) (batch : List WriteReq) (failed : Option ℕ)
    → w.runner ≡ writing batch
    → accounts d (finish_batch w batch failed) ≡ accounts d w
unfolding finish_batch
finish_batch-accounts d w batch none e = ground (
  arith,
  answered-append d w.answers (answer_all written batch),
  answered-answer_all d written batch,
)
finish_batch-accounts d w batch (some k) e = ground (
  arith,
  answered-append d w.answers (answer_all write_error batch),
  answered-answer_all d write_error batch,
)

give_up-accounts : (d : ℕ) (w : WriteQueue) → accounts d (give_up w) ≡ accounts d w
unfolding give_up
give_up-accounts d w =
    if_intro (λ (v : WriteQueue). accounts d v ≡ accounts d w) (w.failing == 0) _ _ (λ e. refl)
      (λ e. close-accounts d (record w { failing = w.failing - 1 }))

writer_step-accounts :
    (d : ℕ) (r : Runner) (w : WriteQueue) (failed : Option ℕ)
    → w.runner ≡ r
    → accounts d (writer_step r w failed) ≡ accounts d w
unfolding writer_step
writer_step-accounts d stopped w failed e = refl
writer_step-accounts d running w failed e = take_batch-accounts d w w.pending_writes refl e
writer_step-accounts d (writing batch) w failed e = finish_batch-accounts d w batch failed e

-- The number of requests among some actions that hand over the channel `d`.
abbrev pub handed : ℕ → List Action → ℕ
handed d [] = 0
handed d (submits req ∷ rest) = asks d req.done + handed d rest
handed d (enters req ∷ rest) = asks d req.done + handed d rest
handed d (writes failed ∷ rest) = handed d rest
handed d (gives_up ∷ rest) = handed d rest
handed d (closes ∷ rest) = handed d rest

-- From a queue whose invariant holds, whatever is called, fails or closes in between, a done channel
-- is answered, being written for or pending exactly as often as it was before and was handed over
-- since: no answer is lost, and none is sent twice.
pub run-accounts :
    (limit d : ℕ) (w : WriteQueue) (rest : List Action)
    → Inv limit w
    → accounts d (run limit w rest) ≡ accounts d w + handed d rest
unfolding run act
run-accounts limit d w [] v = omega arith
run-accounts limit d w (submits req ∷ rest) v = omega (
  arith,
  run-accounts limit d (submit_write limit w req) rest (act-Inv limit w (submits req) v),
  submit_write-accounts limit d w req v.flagged,
)
run-accounts limit d w (enters req ∷ rest) v = omega (
  arith,
  run-accounts limit d (enqueue limit w req) rest (act-Inv limit w (enters req) v),
  enqueue-accounts limit d w req v.flagged,
)
run-accounts limit d w (writes failed ∷ rest) v = omega (
  arith,
  run-accounts limit d (run_writer_step w failed) rest (act-Inv limit w (writes failed) v),
  writer_step-accounts d w.runner w failed refl,
)
run-accounts limit d w (gives_up ∷ rest) v = omega (
  arith,
  run-accounts limit d (give_up w) rest (act-Inv limit w gives_up v),
  give_up-accounts d w,
)
run-accounts limit d w (closes ∷ rest) v =
    omega
      (arith, run-accounts limit d (close w) rest (act-Inv limit w closes v), close-accounts d w)

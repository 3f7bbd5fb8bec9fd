-- ===== src/WriteQueue.antt =====
-- The write queue of a connection: maxPendingQueueBytes, close, runWriter, submitWrite, queueWrite,
-- queueWritePooled and writeAndWait of wisp/wisp-connection.go. What a goroutine does while it holds
-- `pendingMutex`, with the sends and returns that follow, is one operation on the state here;
-- `write_active` is the flag, and `runner` the goroutine that it stands for; one whose write has failed
-- lets the flag go and closes the connection in a later step.
pub mod Invariant
pub mod Order
pub mod Answers
pub mod Late
pub mod Sent
pub mod Whole
use wispurr.Base.{
  ℕ, suc, ◌+◌, ◌-◌, ◌≡◌, refl, List, [], ◌∷◌, ◌++◌, map, Bool, true, false, Option, none, some,
  length, ltb, ◌==◌, if◌then◌else◌,
}
use wispurr.Base.Int.{ℤ, pos, pos_part, ltb_ℤ}
use wispurr.Protocol.{default_pending_queue_bytes}

-- `buf` says that the frame stands in a pooled buffer; `done` names the channel of a caller that waits.
pub record WriteReq : Type 0 where
  pub frame : List ℕ
  pub buf : Bool
  pub done : Option ℕ

pub data Outcome : Type 0 where
  written write_error err_closed : Outcome

-- The goroutine of `runWriter`: none, at the top of its loop, or writing a batch to the connection.
pub data Runner : Type 0 where
  stopped running : Runner
  writing : List WriteReq → Runner

-- A frame of a batch that was written, and how many of its bytes the connection took.
pub record SentFrame : Type 0 where
  pub frame : List ℕ
  pub bytes : ℕ

-- `wire` holds the frames of the batches written, oldest first, `answers` what was sent on the done
-- channels, `pool_puts` counts the buffers given back to the pool, and `failing` the goroutines that
-- have let the flag go after a failed write and have not called `close` yet.
pub record WriteQueue : Type 0 where
  pub is_closed : Bool
  pub pending_writes : List WriteReq
  pub pending_bytes : ℕ
  pub write_active : Bool
  pub runner : Runner
  pub wire : List SentFrame
  pub answers : List (ℕ × Outcome)
  pub pool_puts : ℕ
  pub failing : ℕ

pub max_pending_queue_bytes : ℤ → ℕ
max_pending_queue_bytes size =
    if ltb_ℤ (pos 0) size then pos_part size else default_pending_queue_bytes

abbrev pub batch_bytes : List WriteReq → ℕ
batch_bytes [] = 0
batch_bytes (r ∷ rs) = length r.frame + batch_bytes rs

-- `r.done <- outcome`, and `ReadBufPool.Put(r.buf)`, for each request that has them.
abbrev pub answer : Outcome → Option ℕ → List (ℕ × Outcome)
answer o none = []
answer o (some d) = (d, o) ∷ []

abbrev pub answer_all : Outcome → List WriteReq → List (ℕ × Outcome)
answer_all o [] = []
answer_all o (r ∷ rs) = answer o r.done ++ answer_all o rs

abbrev pub put : Bool → ℕ
put b = if b then 1 else 0

abbrev pub put_all : List WriteReq → ℕ
put_all [] = 0
put_all (r ∷ rs) = put r.buf + put_all rs

abbrev pub frames : List WriteReq → List (List ℕ)
frames = map λ r. r.frame

-- The frames of a batch that was written, and of one whose write failed after `k` bytes.
abbrev pub whole_batch : List WriteReq → List SentFrame
whole_batch [] = []
whole_batch (r ∷ rs) = record { frame = r.frame; bytes = length r.frame } ∷ whole_batch rs

abbrev pub cut_batch : ℕ → List WriteReq → List SentFrame
cut_batch k [] = []
cut_batch k (r ∷ rs) =
    let rest = cut_batch (k - length r.frame) rs in
    record { frame = r.frame; bytes = if ltb k (length r.frame) then k else length r.frame } ∷ rest

pub close : WriteQueue → WriteQueue
close w = if w.is_closed then w else record w {
  is_closed = true;
  pending_writes = [];
  pending_bytes = 0;
  answers = w.answers ++ answer_all err_closed w.pending_writes;
  pool_puts = w.pool_puts + put_all w.pending_writes;
}

-- The request comes back to its caller unsent.
pub refuse : WriteQueue → WriteReq → WriteQueue
refuse w req = record w {
  answers = w.answers ++ answer err_closed req.done;
  pool_puts = w.pool_puts + put req.buf;
}

-- `go c.runWriter()`, unless one is there already.
start_writer : WriteQueue → WriteQueue
start_writer w = if w.write_active then w else record w { write_active = true; runner = running }

-- submitWrite from the lock on. The caller has seen the connection open, some time before.
pub enqueue : ℕ → WriteQueue → WriteReq → WriteQueue
unfolding close refuse start_writer
enqueue limit w req =
    if ltb limit (w.pending_bytes + length req.frame)
    then close (refuse w req)
    else start_writer (record w {
      pending_writes = w.pending_writes ++ (req ∷ []);
      pending_bytes = w.pending_bytes + length req.frame;
    })

pub submit_write : ℕ → WriteQueue → WriteReq → WriteQueue
unfolding enqueue refuse
submit_write limit w req = if w.is_closed then refuse w req else enqueue limit w req

pub queue_write : ℕ → WriteQueue → List ℕ → WriteQueue
unfolding submit_write
queue_write limit w frame =
    submit_write limit w (record { frame = frame; buf = false; done = none })

pub queue_write_pooled : ℕ → WriteQueue → List ℕ → WriteQueue
unfolding submit_write
queue_write_pooled limit w frame =
    submit_write limit w (record { frame = frame; buf = true; done = none })

-- `done` is a fresh channel; the answer on it is what the call returns.
pub write_and_wait : ℕ → WriteQueue → List ℕ → ℕ → WriteQueue
unfolding submit_write
write_and_wait limit w frame done =
    submit_write limit w (record { frame = frame; buf = false; done = some done })

-- runWriter, the part under the lock at the top of the loop.
pub take_batch : WriteQueue → List WriteReq → WriteQueue
take_batch w [] = record w { write_active = false; runner = stopped }
take_batch w (r ∷ rs) = record w {
  pending_writes = [];
  pending_bytes = w.pending_bytes - batch_bytes (r ∷ rs);
  runner = writing (r ∷ rs);
}

-- runWriter, from the write of a batch to the end of the round, or to where it lets the flag go: with
-- `some k` the write fails once the connection has taken `k` bytes.
finish_batch : WriteQueue → List WriteReq → Option ℕ → WriteQueue
finish_batch w batch none = record w {
  runner = running;
  wire = w.wire ++ whole_batch batch;
  answers = w.answers ++ answer_all written batch;
  pool_puts = w.pool_puts + put_all batch;
}
finish_batch w batch (some k) = record w {
  write_active = false;
  runner = stopped;
  wire = w.wire ++ cut_batch k batch;
  answers = w.answers ++ answer_all write_error batch;
  pool_puts = w.pool_puts + put_all batch;
  failing = w.failing + 1;
}

-- `c.close()`, by which the goroutine ends whose write has failed.
pub give_up : WriteQueue → WriteQueue
unfolding close
give_up w = if w.failing == 0 then w else close (record w { failing = w.failing - 1 })

-- The next thing that the goroutine of `runWriter` does.
pub writer_step : Runner → WriteQueue → Option ℕ → WriteQueue
unfolding take_batch finish_batch
writer_step stopped w failed = w
writer_step running w failed = take_batch w w.pending_writes
writer_step (writing batch) w failed = finish_batch w batch failed

pub run_writer_step : WriteQueue → Option ℕ → WriteQueue
unfolding writer_step
run_writer_step w failed = writer_step w.runner w failed

-- The goroutine of `runWriter` left alone until it returns, with writes that all end alike: it
-- finishes the batch under way, and takes what is pending by then as one more.
pub settle : WriteQueue → Option ℕ → WriteQueue
unfolding run_writer_step give_up
settle w failed = give_up (
    run_writer_step
      (run_writer_step (run_writer_step (run_writer_step (run_writer_step w failed) failed) failed)
        failed)
      failed)

-- A connection as it is made.
pub open_queue : WriteQueue
open_queue = record {
  is_closed = false;
  pending_writes = [];
  pending_bytes = 0;
  write_active = false;
  runner = stopped;
  wire = [];
  answers = [];
  pool_puts = 0;
  failing = 0;
}

-- What the goroutines of a connection can do to its queue, in any order.
pub data Action : Type 0 where
  submits enters : WriteReq → Action
  writes : Option ℕ → Action
  gives_up closes : Action

pub act : ℕ → WriteQueue → Action → WriteQueue
unfolding submit_write run_writer_step give_up
act limit w (submits req) = submit_write limit w req
act limit w (enters req) = enqueue limit w req
act limit w (writes failed) = run_writer_step w failed
act limit w gives_up = give_up w
act limit w closes = close w

pub run : ℕ → WriteQueue → List Action → WriteQueue
run limit w [] = w
run limit w (a ∷ rest) = run limit (act limit w a) rest

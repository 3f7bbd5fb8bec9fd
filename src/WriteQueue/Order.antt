-- ===== src/WriteQueue/Order.antt =====
-- The order in which frames reach the connection.
use wispurr.Base.{
  ℕ, ◌≡◌, refl, sym, ap, ◌∙◌, map, Option, none, some, ◌-◌, List, [], ◌∷◌, ◌++◌, false, arith,
  append_assoc, append-nil, ltb, length, ◌+◌, ◌≤◌,
}
use mathlib.Core.List.{map-append}
use wispurr.WriteQueue.Invariant.{Inv, runs}
use wispurr.WriteQueue.{
  WriteQueue, WriteReq, Runner, stopped, running, writing, frames, enqueue, submit_write,
  take_batch, writer_step, run_writer_step, SentFrame, whole_batch, cut_batch, finish_batch,
}

-- The batch that is being written.
abbrev pub in_flight : Runner → List WriteReq
in_flight stopped = []
in_flight running = []
in_flight (writing batch) = batch

-- All frames accepted and not dropped: those written or cut short, being written, and pending, in that order.
abbrev pub sent_frames : List SentFrame → List (List ℕ)
sent_frames = map λ s. s.frame

abbrev pub line : WriteQueue → List (List ℕ)
line w = sent_frames w.wire ++ (frames (in_flight w.runner) ++ frames w.pending_writes)

pub not-runs : (r : Runner) → runs r ≡ false → in_flight r ≡ []
not-runs stopped e = refl
not-runs running e = refl
not-runs (writing batch) e = cc

line-append :
    (xs ys zs : List (List ℕ)) (f : List ℕ)
    → xs ++ (ys ++ (zs ++ (f ∷ []))) ≡ (xs ++ (ys ++ zs)) ++ (f ∷ [])
line-append xs ys zs f = simp append_assoc

-- An open connection whose invariant holds accepts a frame that fits under the limit, at the end of
-- the line, whether a writer is at work or has to be started.
pub submit_write-line :
    (limit : ℕ) (w : WriteQueue) (req : WriteReq)
    → w.is_closed ≡ false
    → w.pending_bytes + length req.frame ≤ limit
    → Inv limit w
    → line (submit_write limit w req) ≡ line w ++ (req.frame ∷ [])
unfolding submit_write
submit_write-line limit w req o h v = ground (
  arith,
  not-runs w.runner,
  v.flagged,
  map-append (λ (r : WriteReq). r.frame) w.pending_writes (req ∷ []),
  line-append (sent_frames w.wire) (frames (in_flight w.runner)) (frames w.pending_writes)
      req.frame,
)

-- The same of a frame that gets past the limit, whether the connection is closed by then or not.
pub enqueue-line :
    (limit : ℕ) (w : WriteQueue) (req : WriteReq)
    → ltb limit (w.pending_bytes + length req.frame) ≡ false
    → Inv limit w
    → line (enqueue limit w req) ≡ line w ++ (req.frame ∷ [])
unfolding enqueue
enqueue-line limit w req h v = ground (
  arith,
  not-runs w.runner,
  v.flagged,
  map-append (λ (r : WriteReq). r.frame) w.pending_writes (req ∷ []),
  line-append (sent_frames w.wire) (frames (in_flight w.runner)) (frames w.pending_writes)
      req.frame,
)

pub take_batch-line :
    (w : WriteQueue) (batch : List WriteReq)
    → w.pending_writes ≡ batch
    → w.runner ≡ running
    → line (take_batch w batch) ≡ line w
unfolding take_batch
take_batch-line w [] e r = ground arith
take_batch-line w (x ∷ xs) e r = ground (arith, append-nil (frames xs))

whole_batch-frames : (batch : List WriteReq) → sent_frames (whole_batch batch) ≡ frames batch
whole_batch-frames [] = refl
whole_batch-frames (r ∷ rs) = ap (◌∷◌ r.frame) (whole_batch-frames rs)

cut_batch-frames : (k : ℕ) (batch : List WriteReq) → sent_frames (cut_batch k batch) ≡ frames batch
cut_batch-frames k [] = refl
cut_batch-frames k (r ∷ rs) = ap (◌∷◌ r.frame) (cut_batch-frames (k - length r.frame) rs)

batch-line :
    (wire : List SentFrame) (batch : List WriteReq) (sent : List SentFrame) (r : Runner)
    (pending : List (List ℕ))
    → sent_frames sent ≡ frames batch
    → r ≡ writing batch
    → sent_frames (wire ++ sent) ++ pending ≡ sent_frames wire ++ (frames (in_flight r) ++ pending)
batch-line wire batch sent r pending f e =
    ap (λ xs. xs ++ pending) (map-append (λ (s : SentFrame). s.frame) wire sent)
    ∙ ap (λ xs. (sent_frames wire ++ xs) ++ pending) f
    ∙ append_assoc (sent_frames wire) (frames batch) pending
    ∙ ap (λ q. sent_frames wire ++ (frames (in_flight q) ++ pending)) (sym e)

pub writer_step-line :
    (r : Runner) (w : WriteQueue) (failed : Option ℕ)
    → w.runner ≡ r
    → line (writer_step r w failed) ≡ line w
unfolding writer_step finish_batch
writer_step-line stopped w failed e = refl
writer_step-line running w failed e = take_batch-line w w.pending_writes refl e
writer_step-line (writing batch) w none e =
    batch-line w.wire batch (whole_batch batch) w.runner (frames w.pending_writes)
      (whole_batch-frames batch) e
writer_step-line (writing batch) w (some k) e =
    batch-line w.wire batch (cut_batch k batch) w.runner (frames w.pending_writes)
      (cut_batch-frames k batch) e

-- A round of the writer, whether its write succeeds or is cut short, moves frames along the line, and
-- neither loses, repeats nor reorders any.
pub run_writer_step-line :
    (w : WriteQueue) (failed : Option ℕ) → line (run_writer_step w failed) ≡ line w
unfolding run_writer_step
run_writer_step-line w failed = writer_step-line w.runner w failed refl

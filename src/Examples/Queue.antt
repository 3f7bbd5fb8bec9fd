-- ===== src/Examples/Queue.antt =====
-- The write queue at concrete inputs.
use wispurr.Base.{◌+◌, ◌≡◌, refl, List, [], ◌∷◌, true, false, none, some, arith, inl, inr}
use wispurr.WriteQueue.{
  WriteQueue, WriteReq, Action, submits, enters, writes, gives_up, closes, writing, open_queue, run,
}
use wispurr.WriteQueue.Invariant.{Inv, run-open_queue-Inv}
use wispurr.WriteQueue.Answers.{accounts, handed, run-accounts}
use wispurr.WriteQueue.Late.{Stranded, late_entry-stays}

abbrev ping : WriteReq
ping = record { frame = 0x82 ∷ 1 ∷ 7 ∷ []; buf = false; done = some 4 }

abbrev pooled : WriteReq
pooled = record { frame = 0x82 ∷ 0 ∷ []; buf = true; done = none }

abbrev history : List Action
history =
    submits ping
    ∷ writes none
    ∷ submits pooled
    ∷ writes none
    ∷ writes (some 2)
    ∷ gives_up
    ∷ closes
    ∷ []

-- A writer that writes one frame while another is pending.
abbrev busy : WriteQueue
busy = record {
  is_closed = false;
  pending_writes = pooled ∷ [];
  pending_bytes = 2;
  write_active = true;
  runner = writing (ping ∷ []);
  wire = [];
  answers = [];
  pool_puts = 0;
  failing = 0;
}

busy-Inv : Inv 64 busy
busy-Inv = record { counted = refl; bounded = omega arith; flagged = refl; served = inr (inl refl) }

run-open_queue-Inv_example : Inv 64 (run 64 open_queue history)
run-open_queue-Inv_example = run-open_queue-Inv 64 history

run-accounts_example : accounts 4 (run 64 busy history) ≡ accounts 4 busy + handed 4 history
run-accounts_example = run-accounts 64 4 busy history busy-Inv

late_entry-stays_example : Stranded ping (
    run 64
      (run 64 busy (closes ∷ enters ping ∷ writes (some 1) ∷ gives_up ∷ []))
      (submits pooled ∷ writes none ∷ closes ∷ []))
late_entry-stays_example =
    late_entry-stays 64 busy ping (ping ∷ []) 1 (submits pooled ∷ writes none ∷ closes ∷ []) refl
      refl refl (omega arith) (tt, (tt, (tt, tt)))

-- ===== src/WriteQueue/Late.antt =====
-- A request that reaches the queue after the connection was closed and drained.
use wispurr.Base.{ℕ, ◌≤◌, ◌≡◌, List, [], ◌∷◌, true, false, arith, length, some}
use wispurr.WriteQueue.{
  WriteQueue, WriteReq, stopped, writing, close, enqueue, Action, submits, enters, writes, gives_up,
  closes, give_up, act, run,
}

-- Nobody serves the queue of a closed connection, and something is left in it.
pub record Stranded (req : WriteReq) (w : WriteQueue) : Type 0 where
  pub shut : w.is_closed ≡ true
  pub unserved : w.runner ≡ stopped
  pub left : w.pending_writes ≡ req ∷ []

-- The calls that begin once the connection is closed: they see it closed and do not enter the queue.
abbrev pub IsLate : Action → Type 0
IsLate (submits req) = Unit {0}
IsLate (enters req) = ⊥
IsLate (writes failed) = Unit {0}
IsLate gives_up = Unit {0}
IsLate closes = Unit {0}

abbrev pub AllLate : List Action → Type 0
AllLate [] = Unit {0}
AllLate (a ∷ rest) = IsLate a × AllLate rest

-- If a caller saw the connection open, and enters the queue after a close and before the write under
-- way fails, then its request stays pending with no writer: the failing writer's own call of `close`
-- returns early, and no later call takes the request out or answers it.
late_entry-Stranded :
    (limit : ℕ) (w : WriteQueue) (req : WriteReq) (batch : List WriteReq) (k : ℕ)
    → w.is_closed ≡ false
    → w.runner ≡ writing batch
    → w.write_active ≡ true
    → length req.frame ≤ limit
    → Stranded req (run limit w (closes ∷ enters req ∷ writes (some k) ∷ gives_up ∷ []))
unfolding run act close enqueue give_up
late_entry-Stranded limit w req batch k o r a h = ground arith

act-Stranded :
    (limit : ℕ) (req : WriteReq) (w : WriteQueue) (a : Action)
    → IsLate a
    → Stranded req w
    → Stranded req (act limit w a)
unfolding act
act-Stranded limit req w (submits other) h s = ground arith
act-Stranded limit req w (enters other) h s = absurd h
act-Stranded limit req w (writes failed) h s = ground arith
act-Stranded limit req w gives_up h s = unfold give_up in unfold close in ground arith
act-Stranded limit req w closes h s = unfold close in ground arith

run-Stranded :
    (limit : ℕ) (req : WriteReq) (w : WriteQueue) (rest : List Action)
    → AllLate rest
    → Stranded req w
    → Stranded req (run limit w rest)
unfolding run
run-Stranded limit req w [] h s = s
run-Stranded limit req w (a ∷ rest) h s =
    run-Stranded limit req (act limit w a) rest h.1 (act-Stranded limit req w a h.0 s)

-- A caller that saw the connection open, and enters the queue after a close and before the write that
-- is under way fails, after however many bytes, is stranded: its request that fits the limit stays pending with no writer on the
-- closed connection, whatever calls come later that see the connection closed.
pub late_entry-stays :
    (limit : ℕ) (w : WriteQueue) (req : WriteReq) (batch : List WriteReq) (k : ℕ)
    (rest : List Action)
    → w.is_closed ≡ false
    → w.runner ≡ writing batch
    → w.write_active ≡ true
    → length req.frame ≤ limit
    → AllLate rest
    → Stranded req
        (run limit (run limit w (closes ∷ enters req ∷ writes (some k) ∷ gives_up ∷ [])) rest)
late_entry-stays limit w req batch k rest o r a h l =
    run-Stranded limit req _ rest l (late_entry-Stranded limit w req batch k o r a h)

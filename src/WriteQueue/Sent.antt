-- ===== src/WriteQueue/Sent.antt =====
-- What a history of the queue writes, against the frames that its callers handed over.
use wispurr.Base.{ℕ, ◌≡◌, List, [], ◌∷◌, ◌++◌, false}
use mathlib.Core.List.{Sublist}
use mathlib.Core.List.Sublist
use wispurr.WriteQueue.Order.{line}
use wispurr.WriteQueue.{WriteQueue, Action, submits, enters, writes, gives_up, closes}

abbrev pub handed : Action → List (List ℕ)
handed (submits req) = req.frame ∷ []
handed (enters req) = req.frame ∷ []
handed (writes failed) = []
handed gives_up = []
handed closes = []

abbrev pub handed_all : List Action → List (List ℕ)
handed_all [] = []
handed_all (a ∷ rest) = handed a ++ handed_all rest

-- What an operation does to the line: it loses some of it, or takes the frame at its end; an open
-- connection afterwards has lost nothing.
record Passed (w v : WriteQueue) (given : List (List ℕ)) : Type 0 where
  inside : Sublist (line v) (line w ++ given)
  whole : v.is_closed ≡ false → (w.is_closed ≡ false) × (line v ≡ line w ++ given)

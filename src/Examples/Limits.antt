-- ===== src/Examples/Limits.antt =====
-- The limiters and the reputation table at concrete inputs.
use wispurr.Base.{ℕ, ◌+◌, ◌-◌, ◌≤◌, ◌≡◌, refl, List, [], ◌∷◌, true, some, arith}
use Prim.Native.Nat.{min}
use wispurr.Base.Int.{pos}
use wispurr.Base.Map.{empty, insert, string_key}
use wispurr.SlidingWindow.{SlidingWindow, WindowEntry}
use wispurr.SlidingWindow.Admission.{Calls, admitted, calls_of, admitted_inside}
use wispurr.Semaphore.{new_semaphore, try_acquire_on, release_on}
use wispurr.Semaphore.Bounds.{Use, Reach, here, next, acquires, releases, fresh}
use wispurr.Bandwidth.{BandwidthLimiter, bucket_of, reserve}
use wispurr.Bandwidth.Rate.{Request, reserve_all, total_cost, reserve_all-rate}
use wispurr.Reputation.{Reputation, ReputationConfig, new_reputation}
use wispurr.Reputation.Scores.{
  Inv, Event, reports_source, reports_dest, maintains, apply_all, new_reputation-Inv,
}

abbrev opened : WindowEntry
opened = record { start = 100; count = 1 }

abbrev two_calls : SlidingWindow
two_calls = record { limit = pos 2; window = 60; entries = insert "a" opened empty }

abbrev calls : Calls
calls = ("a", 110) ∷ ("b", 111) ∷ ("a", 112) ∷ ("a", 113) ∷ []

admitted_inside_example : admitted "a" two_calls calls ≡ min (calls_of "a" calls) (2 - 1)
admitted_inside_example =
    admitted_inside "a" two_calls 2 opened calls refl (omega arith) refl (ground arith)

-- One user holds a permit of two, and another has come and gone.
abbrev one_held : Use
one_held = record { semaphore = record { max = pos 2; current = pos 1 }; holders = 1 }

one_held-Reach : Reach (fresh 2) one_held
unfolding try_acquire_on release_on new_semaphore
one_held-Reach =
    next (next (next here (acquires _ true refl)) (acquires _ true refl)) (releases (omega arith))

-- A byte costs the billionth part of a second, at any rate.
abbrev byte_cost : ℕ → ℕ → ℕ
byte_cost size rate = size

abbrev limiter : BandwidthLimiter
limiter = record { bytes_per_second = 100; burst = 50; buckets = empty }

abbrev later_requests : List Request
later_requests =
    record { key = "b"; size = 9; now = 201 } ∷ record { key = "a"; size = 30; now = 202 } ∷ []

reserve_all-rate_example :
    200 + total_cost byte_cost 100 "a" (record { key = "a"; size = 20; now = 200 } ∷ later_requests)
    ≤ 200 + 50
unfolding reserve_all reserve bucket_of
reserve_all-rate_example =
    reserve_all-rate byte_cost limiter "a" 20 200 200 later_requests (ground arith)

abbrev settings : ReputationConfig
settings = record {
  decay_per_hour = pos 5;
  evict_after = 3600;
  weights = insert "violation" (pos 10) empty;
  dest_weights = insert "distinctSourcesEscalation" (pos 2) empty;
  thresholds = record { warn = pos 25; throttle = pos 50; strict = pos 80 };
}

abbrev seen : Reputation
seen = record {
  cfg = settings;
  sources =
      insert "a" (record { score = pos 30; first_seen = 1; last_seen = 2; events = empty }) empty;
  dests = empty;
  last_decay = 0;
}

abbrev events : List Event
events =
    reports_source "a" "violation" 5
    ∷ reports_dest "x:80" "violation" (some "a") 6
    ∷ reports_dest "x:80" "violation" (some "a") 7
    ∷ maintains 7200
    ∷ []

new_reputation-Inv_example : Inv (apply_all (new_reputation settings 0) events)
new_reputation-Inv_example = new_reputation-Inv settings 0 events

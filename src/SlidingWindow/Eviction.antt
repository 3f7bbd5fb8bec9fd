-- ===== src/SlidingWindow/Eviction.antt =====
-- What Evict removes no later call can tell.
use text.Mathlib.TextEquality.{eq_iff}
use wispurr.Base.{ℕ, ◌≤◌, ◌≡◌, String, arith}
use wispurr.Base.Int.{pos, ◌<ℤ◌}
use wispurr.SlidingWindow.{SlidingWindow, allow_on, evict_on}

-- After evicting at some time the entries that started more than `idle` before, a call at that time or
-- later gets the same answer as without, and leaves the same entry for its key, if the limiter has
-- a limit and `idle` is at least the window.
pub allow_on-evict_on :
    (w : SlidingWindow) (key : String) (idle now later : ℕ)
    → pos 0 <ℤ w.limit
    → w.window ≤ idle
    → now ≤ later
    → ((allow_on (evict_on w idle now) key later).1 ≡ (allow_on w key later).1)
      × ((allow_on (evict_on w idle now) key later).0.entries key
          ≡ (allow_on w key later).0.entries key)
unfolding allow_on evict_on
allow_on-evict_on w key idle now later p h l = ground (arith, eq_iff key key)

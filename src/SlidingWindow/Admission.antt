-- ===== src/SlidingWindow/Admission.antt =====
-- How many calls a window lets through.
use Prim.Native.Nat.{min}
use text.Mathlib.Text.{◌==◌ as str_eq}
use text.Mathlib.TextEquality.{eq_iff}
use wispurr.Base.{
  ℕ, ◌+◌, ◌-◌, ◌<◌, ◌≡◌, List, [], ◌∷◌, true, some, arith, if◌then◌else◌, String, ltb, ◌∙◌,
}
use wispurr.Base.Int.{pos}
use wispurr.SlidingWindow.{SlidingWindow, WindowEntry, allow_on}

-- Calls as pairs of a key and a time.
abbrev pub Calls : Type 0
Calls = List (String × ℕ)

-- How many calls of `key` are let through, and how many there are.
pub admitted : String → SlidingWindow → Calls → ℕ
admitted key w [] = 0
admitted key w ((k, now) ∷ calls) =
    (if str_eq k key then (if (allow_on w k now).1 then 1 else 0) else 0)
    + admitted key (allow_on w k now).0 calls

abbrev pub calls_of : String → Calls → ℕ
calls_of key [] = 0
calls_of key ((k, now) ∷ calls) = (if str_eq k key then 1 else 0) + calls_of key calls

-- Every call stands before the time `end`.
abbrev pub Before : ℕ → Calls → Type 0
Before end [] = Unit {0}
Before end ((k, now) ∷ calls) = (now < end) × Before end calls

-- Inside the window of `key`, a call of it is counted and passes while the count is below the limit;
-- a call of another key leaves its entry alone.
allow_on_inside :
    (w : SlidingWindow) (k key : String) (now limit : ℕ) (e : WindowEntry)
    → w.limit ≡ pos limit
    → 0 < limit
    → w.entries key ≡ some e
    → now < e.start + w.window
    → ((allow_on w k now).0.entries key
        ≡ some (record e { count = (if str_eq k key then 1 else 0) + e.count }))
      × (str_eq k key ≡ true → (allow_on w k now).1 ≡ ltb e.count limit)
unfolding allow_on
allow_on_inside w k key now limit e l p h b = ground (arith, eq_iff k key, eq_iff key k)

allow_on_config :
    (w : SlidingWindow) (k : String) (now : ℕ)
    → ((allow_on w k now).0.limit ≡ w.limit) × ((allow_on w k now).0.window ≡ w.window)
unfolding allow_on
allow_on_config w k now = ground arith

-- While its window lasts, a key gets through exactly as many of its calls as the limit has left, the
-- first ones, however they interleave with the calls of other keys.
pub admitted_inside :
    (key : String) (w : SlidingWindow) (limit : ℕ) (e : WindowEntry) (calls : Calls)
    → w.limit ≡ pos limit
    → 0 < limit
    → w.entries key ≡ some e
    → Before (e.start + w.window) calls
    → admitted key w calls ≡ min (calls_of key calls) (limit - e.count)
unfolding admitted
admitted_inside key w limit e [] l p h b = omega arith
admitted_inside key w limit e ((k, now) ∷ calls) l p h b = ground (
  arith,
  allow_on_inside w k key now limit e l p h b.0,
  allow_on_config w k now,
  admitted_inside key (allow_on w k now).0 limit
      (record e { count = (if str_eq k key then 1 else 0) + e.count }) calls (allow_on_limit) p
      (allow_on_inside w k key now limit e l p h b.0).0 later,
)
  where
    allow_on_limit : (allow_on w k now).0.limit ≡ pos limit
    allow_on_limit = (allow_on_config w k now).0 ∙ l

    later : Before (e.start + (allow_on w k now).0.window) calls
    later = rw (allow_on_config w k now).1 b.1

-- ===== src/SlidingWindow.antt =====
-- The fixed-window rate limiter of wisp/limits.go: NewSlidingWindow, Allow and Evict. A time is a
-- number of nanoseconds and an argument of the call that reads the clock; a nil limiter is `none`.
pub mod Admission
pub mod Eviction
pub mod History
use wispurr.Base.{
  ℕ, ◌+◌, Bool, true, false, Option, none, some, leb, ltb, if◌then◌else◌, String, not, suc,
}
use wispurr.Base.Int.{ℤ, pos, leb_ℤ}
use wispurr.Base.Map.{Map, empty, insert, retain, string_key}

pub record WindowEntry : Type 0 where
  pub start : ℕ
  pub count : ℕ

pub record SlidingWindow : Type 0 where
  pub limit : ℤ
  pub window : ℕ
  pub entries : Map String WindowEntry

unfoldable pub new_sliding_window : ℤ → ℕ → SlidingWindow
new_sliding_window limit window = record { limit = limit; window = window; entries = empty }

-- w.entries[key] = &windowEntry{start: now, count: 1}
unfoldable open_window : SlidingWindow → String → ℕ → SlidingWindow × Bool
open_window w key now =
    (record w { entries = insert key (record { start = now; count = 1 }) w.entries }, true)

-- e.count++; return e.count <= w.limit
unfoldable count_call : SlidingWindow → String → WindowEntry → SlidingWindow × Bool
count_call w key e =
    let e' : WindowEntry = record e { count = e.count + 1 } in
    (record w { entries = insert key e' w.entries }, leb_ℤ (pos e'.count) w.limit)

unfoldable allow_entry : SlidingWindow → String → ℕ → Option WindowEntry → SlidingWindow × Bool
unfolding open_window count_call
allow_entry w key now none = open_window w key now
allow_entry w key now (some e) =
    if leb (e.start + w.window) now then open_window w key now else count_call w key e

pub allow_on : SlidingWindow → String → ℕ → SlidingWindow × Bool
unfolding allow_entry
allow_on w key now =
    if leb_ℤ w.limit (pos 0) then (w, true) else allow_entry w key now (w.entries key)

-- `allow` and `evict` of a limiter that may be nil.
unfoldable pub allow : Option SlidingWindow → String → ℕ → Option SlidingWindow × Bool
unfolding allow_on
allow none key now = (none, true)
allow (some w) key now = let (w', ok) = allow_on w key now in (some w', ok)

unfoldable pub evict_on : SlidingWindow → ℕ → ℕ → SlidingWindow
evict_on w idle now = record w { entries = retain (λ e. not (ltb (e.start + idle) now)) w.entries }

unfoldable pub evict : Option SlidingWindow → ℕ → ℕ → Option SlidingWindow
unfolding evict_on
evict none idle now = none
evict (some w) idle now = some (evict_on w idle now)

-- ===== src/Runtime/Maintenance.antt =====
-- The rounds of runMaintenance and the answers of the limiters.
use wispurr.Base.Int.{int_64, pos}
use wispurr.Base.{
  ◌<◌, ◌%◌, ◌^◌, ℕ, ◌*◌, ◌≤◌, ◌≡◌, refl, sym, ap, List, [], ◌∷◌, Bool, Option, none, some, String,
  arith,
}
use wispurr.SlidingWindow
use wispurr.SlidingWindow.{SlidingWindow, new_sliding_window, allow_on, evict_on}
use wispurr.SlidingWindow.History.{
  SameLimiter, SameLimiter-later, evict_on-SameLimiter, allow_on-SameLimiter, allow_on_window,
}
use wispurr.Runtime.{evict_by, Globals, minute, evict_rate, maintain}

-- The four limiters of calls.
pub data Limiter : Type 0 where
  source rate dest_sec dest_min : Limiter

abbrev pub limiter_of : Globals → Limiter → Option SlidingWindow
limiter_of g source = g.per_source
limiter_of g rate = g.connection_rate
limiter_of g dest_sec = g.per_dest_sec
limiter_of g dest_min = g.per_dest_min

abbrev pub put_limiter : Globals → Limiter → Option SlidingWindow → Globals
put_limiter g source o = record g { per_source = o }
put_limiter g rate o = record g { connection_rate = o }
put_limiter g dest_sec o = record g { per_dest_sec = o }
put_limiter g dest_min o = record g { per_dest_min = o }

-- Calls of Allow on the limiters, and rounds of maintenance; and the answers to the calls.
pub data Event : Type 0 where
  asks : Limiter → String → ℕ → Event
  maintains : ℕ → Event

abbrev pub ask : Globals → Limiter → String → ℕ → Option SlidingWindow × Bool
ask g l key now = SlidingWindow.allow (limiter_of g l) key now

abbrev pub answers : Globals → List Event → List Bool
answers g [] = []
answers g (asks l key now ∷ rest) =
    (ask g l key now).1 ∷ answers (put_limiter g l (ask g l key now).0) rest
answers g (maintains now ∷ rest) = answers (maintain g now) rest

abbrev pub asks_of : List Event → List Event
asks_of [] = []
asks_of (asks l key now ∷ rest) = asks l key now ∷ asks_of rest
asks_of (maintains now ∷ rest) = asks_of rest

-- Times that do not go back.
abbrev pub Ordered : ℕ → List Event → Type 0
Ordered now [] = Unit {0}
Ordered now (asks l key at ∷ rest) = (now ≤ at) × Ordered at rest
Ordered now (maintains at ∷ rest) = (now ≤ at) × Ordered at rest

-- How long an entry is left idle, and a limiter whose entries are over by then; that of the rate of
-- connections is a product of int64.
abbrev pub idle : Limiter → SlidingWindow → ℕ
idle source w = 2 * minute
idle rate w = 2 * w.window
idle dest_sec w = 2 * minute
idle dest_min w = 120 * minute

abbrev pub IsShort : Limiter → SlidingWindow → Type 0
IsShort source w = w.window ≤ 2 * minute
IsShort rate w = 2 * w.window < 2 ^ 63
IsShort dest_sec w = w.window ≤ 2 * minute
IsShort dest_min w = w.window ≤ 120 * minute

abbrev pub Fits : Limiter → Option SlidingWindow → Type 0
Fits l none = Unit {0}
Fits l (some w) = IsShort l w

IsShort-idle : (l : Limiter) (w : SlidingWindow) → IsShort l w → w.window ≤ idle l w
IsShort-idle source w f = f
IsShort-idle rate w f = omega arith
IsShort-idle dest_sec w f = f
IsShort-idle dest_min w f = f

abbrev pub evict_limiter : Limiter → Option SlidingWindow → ℕ → Option SlidingWindow
evict_limiter l none now = none
evict_limiter l (some w) now = some (evict_on w (idle l w) now)

evict_same :
    (l : Limiter) (o : Option SlidingWindow) (n now : ℕ)
    → ((w : SlidingWindow) → idle l w ≡ n)
    → SlidingWindow.evict o n now ≡ evict_limiter l o now
unfolding SlidingWindow.evict
evict_same l none n now h = refl
evict_same l (some w) n now h = ap (λ k. some (evict_on w k now)) (sym (h w))

pub int_64_small : (n : ℕ) → n < 2 ^ 63 → int_64 (n % 2 ^ 64) ≡ pos n
int_64_small n h = let e : n % 2 ^ 64 ≡ n = omega arith in rw e (ground arith)

rate_same :
    (o : Option SlidingWindow) (now : ℕ) → Fits rate o → evict_rate o now ≡ evict_limiter rate o now
unfolding evict_rate
rate_same none now f = refl
rate_same (some w) now f = ap (λ z. some (evict_by w z now)) (int_64_small (2 * w.window) f)

pub limiter_of-maintain :
    (g : Globals) (now : ℕ) (l : Limiter)
    → Fits rate g.connection_rate
    → limiter_of (maintain g now) l ≡ evict_limiter l (limiter_of g l) now
unfolding maintain
limiter_of-maintain g now source f = evict_same source g.per_source (2 * minute) now (λ w. refl)
limiter_of-maintain g now rate f = rate_same g.connection_rate now f
limiter_of-maintain g now dest_sec f =
    evict_same dest_sec g.per_dest_sec (2 * minute) now (λ w. refl)
limiter_of-maintain g now dest_min f =
    evict_same dest_min g.per_dest_min (120 * minute) now (λ w. refl)

abbrev pub SameOption : ℕ → Option SlidingWindow → Option SlidingWindow → Type 0
SameOption now none none = Unit {0}
SameOption now none (some w) = ⊥
SameOption now (some v) none = ⊥
SameOption now (some v) (some w) = SameLimiter now v w

pub same_itself : (now : ℕ) (o : Option SlidingWindow) → SameOption now o o
same_itself now none = tt
same_itself now (some w) = record { limits = refl; windows = refl; entries_alike = λ k t h. refl }

pub same_later :
    (now later : ℕ) (o p : Option SlidingWindow)
    → now ≤ later
    → SameOption now o p
    → SameOption later o p
same_later now later none none h s = tt
same_later now later none (some w) h s = s
same_later now later (some v) none h s = s
same_later now later (some v) (some w) h s = SameLimiter-later v w now later h s

pub same_evicted :
    (l : Limiter) (now later : ℕ) (o p : Option SlidingWindow)
    → now ≤ later
    → Fits l o
    → SameOption now o p
    → SameOption later (evict_limiter l o later) p
same_evicted l now later none none h f s = tt
same_evicted l now later none (some w) h f s = s
same_evicted l now later (some v) none h f s = s
same_evicted l now later (some v) (some w) h f s =
    evict_on-SameLimiter v w now later (idle l v) (IsShort-idle l v f) h s

pub same_allowed :
    (now : ℕ) (key : String) (o p : Option SlidingWindow)
    → SameOption now o p
    → ((SlidingWindow.allow o key now).1 ≡ (SlidingWindow.allow p key now).1)
      × SameOption now (SlidingWindow.allow o key now).0 (SlidingWindow.allow p key now).0
unfolding SlidingWindow.allow
same_allowed now key none none s = (refl, tt)
same_allowed now key none (some w) s = absurd s
same_allowed now key (some v) none s = absurd s
same_allowed now key (some v) (some w) s = allow_on-SameLimiter v w key now s

pub Fits-evicted :
    (l : Limiter) (now : ℕ) (o : Option SlidingWindow) → Fits l o → Fits l (evict_limiter l o now)
unfolding SlidingWindow.evict_on
Fits-evicted source now none f = tt
Fits-evicted source now (some w) f = f
Fits-evicted rate now none f = tt
Fits-evicted rate now (some w) f = f
Fits-evicted dest_sec now none f = tt
Fits-evicted dest_sec now (some w) f = f
Fits-evicted dest_min now none f = tt
Fits-evicted dest_min now (some w) f = f

pub Fits-allowed :
    (l : Limiter) (key : String) (now : ℕ) (o : Option SlidingWindow)
    → Fits l o
    → Fits l (SlidingWindow.allow o key now).0
unfolding SlidingWindow.allow
Fits-allowed l key now none f = tt
Fits-allowed source key now (some w) f = omega (arith, f, allow_on_window w key now)
Fits-allowed rate key now (some w) f = omega (arith, f, allow_on_window w key now)
Fits-allowed dest_sec key now (some w) f = omega (arith, f, allow_on_window w key now)
Fits-allowed dest_min key now (some w) f = omega (arith, f, allow_on_window w key now)

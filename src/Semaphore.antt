-- ===== src/Semaphore.antt =====
-- The counting semaphore of wisp/limits.go: NewSemaphore, TryAcquire and Release. A round of the loop
-- in TryAcquire whose compare-and-swap fails changes nothing and is left out; the round that ends the
-- loop is one step. A nil semaphore is `none`.
pub mod Bounds
use wispurr.Base.{Bool, true, false, Option, none, some, if◌then◌else◌, ℕ}
use wispurr.Base.Int.{ℤ, pos, negsuc, ◌+ℤ◌, leb_ℤ}

pub record Semaphore : Type 0 where
  pub max : ℤ
  pub current : ℤ

unfoldable pub new_semaphore : ℤ → Semaphore
new_semaphore max = record { max = max; current = pos 0 }

unfoldable pub try_acquire_on : Semaphore → Semaphore × Bool
try_acquire_on s =
    if leb_ℤ s.max (pos 0)
    then (s, true)
    else if leb_ℤ s.max s.current
    then (s, false)
    else (record s { current = s.current +ℤ pos 1 }, true)

unfoldable pub release_on : Semaphore → Semaphore
release_on s = if leb_ℤ s.max (pos 0) then s else record s { current = s.current +ℤ negsuc 0 }

unfoldable pub try_acquire : Option Semaphore → Option Semaphore × Bool
unfolding try_acquire_on
try_acquire none = (none, true)
try_acquire (some s) = let (s', ok) = try_acquire_on s in (some s', ok)

unfoldable pub release : Option Semaphore → Option Semaphore
unfolding release_on
release none = none
release (some s) = some (release_on s)

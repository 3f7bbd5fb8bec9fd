-- ===== src/Semaphore/Bounds.antt =====
-- The semaphore among its users: any number of goroutines that acquire, and release what they hold.
use wispurr.Base.{ℕ, ◌+◌, ◌-◌, ◌≤◌, ◌<◌, ◌≡◌, refl, Bool, if◌then◌else◌, arith, ltb}
use wispurr.Base.Int.{pos}
use wispurr.Semaphore.{Semaphore, new_semaphore, try_acquire_on, release_on}

-- The semaphore, and the number of permits that its users hold.
pub record Use : Type 0 where
  pub semaphore : Semaphore
  pub holders : ℕ

-- A user that acquires holds a permit if it was told so; only a holder releases.
pub data Step (u : Use) : Use → Type 0 where
  acquires :
      (s : Semaphore) (ok : Bool)
      → try_acquire_on u.semaphore ≡ (s, ok)
      → Step u (record { semaphore = s; holders = (if ok then 1 else 0) + u.holders })
  releases :
      0 < u.holders
      → Step u (record { semaphore = release_on u.semaphore; holders = u.holders - 1 })

pub data Reach (u : Use) : Use → Type 0 where
  here : Reach u u
  next : {v w : Use} → Reach u v → Step v w → Reach u w

pub record Inv (limit : ℕ) (u : Use) : Type 0 where
  pub fixed : u.semaphore.max ≡ pos limit
  pub counts : u.semaphore.current ≡ pos u.holders
  pub bounded : u.holders ≤ limit

Step-Inv : {limit : ℕ} {u v : Use} → 0 < limit → Step u v → Inv limit u → Inv limit v
unfolding try_acquire_on release_on
Step-Inv h (acquires s ok e) v = ground arith
Step-Inv h (releases p) v = ground arith

Reach-Inv : {limit : ℕ} {u v : Use} → 0 < limit → Inv limit u → Reach u v → Inv limit v
Reach-Inv h i here = i
Reach-Inv h i (next r st) = Step-Inv h st (Reach-Inv h i r)

abbrev pub fresh : ℕ → Use
unfolding new_semaphore
fresh limit = record { semaphore = new_semaphore (pos limit); holders = 0 }

-- From a new semaphore with a positive maximum, whatever its users do, the counter is the number of
-- permits held, at most the maximum, and an attempt to acquire succeeds exactly below it.
pub fresh-bounded :
    (limit : ℕ) {u : Use}
    → 0 < limit
    → Reach (fresh limit) u
    → (u.semaphore.current ≡ pos u.holders)
      × (u.holders ≤ limit)
      × ((try_acquire_on u.semaphore).1 ≡ ltb u.holders limit)
unfolding new_semaphore try_acquire_on
fresh-bounded limit {u} h r = ground (arith, inv.fixed, inv.counts, inv.bounded)
  where
    inv : Inv limit u
    inv = Reach-Inv h (record { fixed = refl; counts = refl; bounded = omega arith }) r

-- ===== src/Bandwidth/Rate.antt =====
-- The rate that the reservations keep to.
use text.Mathlib.Text.{◌==◌ as str_eq}
use text.Mathlib.TextEquality.{eq_iff}
use wispurr.Base.{ℕ, ◌+◌, ◌≤◌, ◌≡◌, refl, List, [], ◌∷◌, arith, if◌then◌else◌, String}
use wispurr.Bandwidth.{BandwidthLimiter, bucket_of, reserve}

-- Reservations as a key, a size and a time.
pub record Request : Type 0 where
  pub key : String
  pub size : ℕ
  pub now : ℕ

module _ (cost : ℕ → ℕ → ℕ) where
  unfoldable pub reserve_all : BandwidthLimiter → List Request → BandwidthLimiter
  reserve_all l [] = l
  reserve_all l (r ∷ rs) = reserve_all (reserve cost l r.key r.size r.now).0 rs

  -- The time that the bytes of one key cost together, at some rate.
  abbrev pub total_cost : ℕ → String → List Request → ℕ
  total_cost rate key [] = 0
  total_cost rate key (r ∷ rs) =
      (if str_eq r.key key then cost r.size rate else 0) + total_cost rate key rs

  reserve_config :
      (l : BandwidthLimiter) (key : String) (size now : ℕ)
      → ((reserve cost l key size now).0.bytes_per_second ≡ l.bytes_per_second)
        × ((reserve cost l key size now).0.burst ≡ l.burst)
  unfolding reserve
  reserve_config l key size now = (refl, refl)

  reserve-next :
      (l : BandwidthLimiter) (key k : String) (size now : ℕ)
      → (bucket_of l key).next + (if str_eq k key then cost size l.bytes_per_second else 0)
        ≤ (bucket_of (reserve cost l k size now).0 key).next
  unfolding reserve
  reserve-next l key k size now = ground (arith, eq_iff k key, eq_iff key k)

  reserve-starts :
      (l : BandwidthLimiter) (key : String) (size now : ℕ)
      → now + cost size l.bytes_per_second
        ≤ (bucket_of (reserve cost l key size now).0 key).next + l.burst
  unfolding reserve
  reserve-starts l key size now = ground (arith, eq_iff key key)

  -- However the reservations of different keys interleave, and whenever they are made, the time at
  -- which a key has paid grows by at least the cost of all its bytes.
  pub reserve_all-next :
      (l : BandwidthLimiter) (key : String) (rs : List Request)
      → (bucket_of l key).next + total_cost l.bytes_per_second key rs
        ≤ (bucket_of (reserve_all l rs) key).next
  unfolding reserve_all
  reserve_all-next l key [] = omega arith
  reserve_all-next l key (r ∷ rs) = omega (
    arith,
    reserve-next l key r.key r.size r.now,
    rw ((reserve_config l r.key r.size r.now).0) at
        (reserve_all-next (reserve cost l r.key r.size r.now).0 key rs),
  )

  -- From a key's first reservation on, what all its bytes cost is at most the time until it has paid
  -- for them, and the burst; other keys may reserve in between.
  pub reserve_all-rate :
      (l : BandwidthLimiter) (key : String) (size now end : ℕ) (rs : List Request)
      → let first : Request = record { key = key; size = size; now = now } in
        (bucket_of (reserve_all l (first ∷ rs)) key).next ≤ end
        → now + total_cost l.bytes_per_second key (first ∷ rs) ≤ end + l.burst
  unfolding reserve_all
  reserve_all-rate l key size now end rs h = ground (
    arith,
    eq_iff key key,
    reserve-starts l key size now,
    reserve_config l key size now,
    reserve_all-next (reserve cost l key size now).0 key rs,
  )

-- ===== src/Bandwidth.antt =====
-- The bandwidth limiter of wisp/bandwidth.go: NewBandwidthLimiter, Wait and Evict. Times are numbers
-- of nanoseconds. `cost` is the float64 computation of the time that a size takes, which the model
-- takes as a parameter; what Wait does after it has reserved its time is a wait for a timer or for
-- the connection to close, of which the caller of the model says which comes first.
pub mod Open
pub mod Rate
use wispurr.Base.{
  ℕ, ◌+◌, ◌-◌, ◌*◌, ◌^◌, Bool, true, false, Option, none, some, leb, ltb, ◌==◌, if◌then◌else◌,
  String, not, ◌||◌,
}
use wispurr.Base.Int.{ℤ, pos, pos_part, leb_ℤ}
use wispurr.Base.Map.{Map, empty, insert, retain, string_key}

pub record BandwidthBucket : Type 0 where
  pub next : ℕ
  pub last_seen : ℕ

pub record BandwidthLimiter : Type 0 where
  pub bytes_per_second : ℕ
  pub burst : ℕ
  pub buckets : Map String BandwidthBucket

pub new_bandwidth_limiter : ℤ → Option BandwidthLimiter
new_bandwidth_limiter bytes_per_second =
    if leb_ℤ bytes_per_second (pos 0)
    then none
    else some
        (record { bytes_per_second = pos_part bytes_per_second; burst = 10 ^ 9; buckets = empty })

-- l.buckets[key], with the zero bucket for a key that is not there.
unfoldable pub bucket_of : BandwidthLimiter → String → BandwidthBucket
bucket_of l key = elim (l.buckets key) [ none ↦ record { next = 0; last_seen = 0 } | some b ↦ b ]

-- max(bucket.next, now - burst)
start_of : ℕ → ℕ → ℕ → ℕ
start_of next burst now = if ltb (next + burst) now then now - burst else next

module _ (cost : ℕ → ℕ → ℕ) where
  -- The part of Wait under the lock: the time at which the bytes have been paid for.
  unfoldable pub reserve : BandwidthLimiter → String → ℕ → ℕ → BandwidthLimiter × ℕ
  unfolding bucket_of start_of
  reserve l key size now =
      let finish = start_of (bucket_of l key).next l.burst now + cost size l.bytes_per_second in
      (
        record l { buckets = insert key (record { next = finish; last_seen = now }) l.buckets },
        finish,
      )

  -- `stopped` says that the connection closes before the delay is over; `later` is the clock after
  -- the lock.
  wait_on : BandwidthLimiter → String → ℕ → ℕ → ℕ → Bool → BandwidthLimiter × Bool
  unfolding reserve
  wait_on l key size now later stopped =
      if size == 0 || cost size l.bytes_per_second == 0
      then (l, true)
      else let (l', finish) = reserve l key size now in (l', leb finish later || not stopped)

  pub wait : Option BandwidthLimiter → String → ℕ → ℕ → ℕ → Bool → Option BandwidthLimiter × Bool
  unfolding wait_on
  wait none key size now later stopped = (none, true)
  wait (some l) key size now later stopped =
      let (l', ok) = wait_on l key size now later stopped in (some l', ok)

evict_on : BandwidthLimiter → ℕ → ℕ → BandwidthLimiter
evict_on l idle now = record l {
  buckets = retain (λ b. not (ltb (b.last_seen + idle) now)) l.buckets;
}

pub evict : Option BandwidthLimiter → ℕ → ℕ → Option BandwidthLimiter
unfolding evict_on
evict none idle now = none
evict (some l) idle now = some (evict_on l idle now)

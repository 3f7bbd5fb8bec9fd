-- ===== src/Connection/Table.antt =====
-- The table of streams and the streams that are open: what holds between any two operations.
use wispurr.Base.{
  ℕ, zero, suc, ◌+◌, ◌%◌, ◌≡◌, List, [], ◌∷◌, ◌++◌, true, some, arith, get_elem?, set,
  if◌then◌else◌,
}
use wispurr.Base.Int.{ℤ, pos}
use wispurr.Base.Map.{Map, nat_key}
use wispurr.Stream.State.{Stream}
use wispurr.Connection.State.{Connection, stream_cache_size}

abbrev pub opens : Stream → ℕ
opens s = if s.is_open then 1 else 0

abbrev pub open_count : List Stream → ℕ
open_count [] = 0
open_count (s ∷ rest) = opens s + open_count rest

-- An open stream of that id stands at the address.
abbrev pub OpenAt : List Stream → ℕ → ℕ → Type 0
OpenAt store id address =
    (s : Stream) × (get_elem? store address ≡ some s) × (s.is_open ≡ true) × (s.stream_id ≡ id)

-- The table lists the open streams and no other, each under its id; a cached slot holds an open stream
-- that belongs there; and the count is that of the open streams.
pub record Lists (store : List Stream) (streams stream_cache : Map ℕ ℕ) (count : ℤ) : Type 0 where
  pub linked : (id address : ℕ) → streams id ≡ some address → OpenAt store id address
  pub registered :
      (address : ℕ) (s : Stream)
      → get_elem? store address ≡ some s
      → s.is_open ≡ true
      → streams s.stream_id ≡ some address
  pub cached :
      (slot address : ℕ)
      → stream_cache slot ≡ some address
      → (id : ℕ) × (id % stream_cache_size ≡ slot) × OpenAt store id address
  pub counted : count ≡ pos (open_count store)

abbrev pub Inv : Connection → Type 0
Inv c = Lists c.store c.streams c.stream_cache c.stream_count

pub open_count-set :
    (xs : List Stream) (i : ℕ) (s t : Stream)
    → get_elem? xs i ≡ some s
    → open_count (set xs i t) + opens s ≡ open_count xs + opens t
open_count-set [] i s t e = cc
open_count-set (x ∷ xs) zero s t e =
    let h : opens x ≡ opens s = ground (arith, e) in omega (arith, h)
open_count-set (x ∷ xs) (suc i) s t e = omega (arith, open_count-set xs i s t e)

pub open_count-append :
    (xs : List Stream) (t : Stream) → open_count (xs ++ (t ∷ [])) ≡ open_count xs + opens t
open_count-append [] t = omega arith
open_count-append (x ∷ xs) t = omega (arith, open_count-append xs t)

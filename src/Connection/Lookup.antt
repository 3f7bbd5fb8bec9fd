-- ===== src/Connection/Lookup.antt =====
-- The cached lookup of a stream and the table; and what is left when the connection ends.
use wispurr.Base.{
  ℕ, ◌%◌, ◌≡◌, refl, ap, ◌⊎◌, Option, none, some, ◌==◌, arith, get_elem?, Bool-cases, inl, inr,
  ==_iff,
}
use wispurr.Stream.State.{Stream}
use wispurr.Connection.State.{Connection, stream_cache_size, id_at}
use wispurr.Connection.Handlers.{cached_stream, load_stream, find_on, find_stream}
use wispurr.Connection.Table.{Inv}

load_stream_lem : (c : Connection) (id : ℕ) (o : Option ℕ) → (load_stream c id o).1 ≡ o
unfolding load_stream
load_stream_lem c id none = refl
load_stream_lem c id (some a) = refl

find_on_lem :
    (c : Connection) (id : ℕ) (o : Option ℕ)
    → (o ≡ none) ⊎ (o ≡ c.streams id)
    → (find_on c id o).1 ≡ c.streams id
unfolding find_on
find_on_lem c id none h = load_stream_lem c id (c.streams id)
find_on_lem c id (some a) (inl e) = cc
find_on_lem c id (some a) (inr e) = e

-- A cached stream is that of the table, or is not of the id.
cached_at :
    (c : Connection) (id a : ℕ) (s : Stream)
    → get_elem? c.store a ≡ some s
    → c.streams s.stream_id ≡ some a
    → (cached_stream c id (some a) ≡ none) ⊎ (cached_stream c id (some a) ≡ c.streams id)
unfolding cached_stream id_at
cached_at c id a s e r = elim (Bool-cases (s.stream_id == id)) [
  | inl k ↦
      let h : s.stream_id ≡ id = (==_iff s.stream_id id).0 k in
      let w = ap c.streams h in inr (ground (arith, e, k, r, w))
  | inr k ↦ inl (ground (arith, e, k))
]

cached_lem :
    (c : Connection) (id : ℕ) (o : Option ℕ)
    → c.stream_cache (id % stream_cache_size) ≡ o
    → Inv c
    → (cached_stream c id o ≡ none) ⊎ (cached_stream c id o ≡ c.streams id)
unfolding cached_stream
cached_lem c id none e v = inl refl
cached_lem c id (some a) e v =
    let (i, h, (s, f, p, j)) = v.cached (id % stream_cache_size) a e in
    cached_at c id a s f (v.registered a s f p)

-- While the table, the cache and the open streams agree, the stream that a data packet finds, by way
-- of the cache, is the one that the table lists under its id, and none when the table has none.
pub find_stream-streams : (c : Connection) (id : ℕ) → Inv c → (find_stream c id).1 ≡ c.streams id
unfolding find_stream
find_stream-streams c id v =
    find_on_lem c id (cached_stream c id (c.stream_cache (id % stream_cache_size)))
      (cached_lem c id (c.stream_cache (id % stream_cache_size)) refl v)

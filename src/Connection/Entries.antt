-- ===== src/Connection/Entries.antt =====
-- The table of streams when a stream enters or is cached.
use wispurr.Base.{nat_cases}
use wispurr.Base.{
  ℕ, ◌%◌, ◌≡◌, sym, ap, ◌∙◌, List, [], ◌∷◌, ◌++◌, true, none, some, arith, get_elem?, length,
  if◌then◌else◌, inl, inr,
}
use wispurr.Base.Int.{ℤ, pos, ◌+ℤ◌}
use wispurr.Base.Map.{Map, insert, nat_key}
use wispurr.Stream.State.{Stream}
use wispurr.Connection.State.{stream_cache_size}
use wispurr.Connection.Table.{opens, OpenAt, Lists, open_count-append}
use wispurr.Base.{get_elem?-append, get_elem?-last, last-cases}

OpenAt-append :
    (store : List Stream) (t : Stream) (id b : ℕ)
    → OpenAt store id b
    → OpenAt (store ++ (t ∷ [])) id b
OpenAt-append store t id b (u, e, o, i) = (u, get_elem?-append store b u t e, o, i)

module _ (store : List Stream) (streams cache : Map ℕ ℕ) (count : ℤ) (t : Stream) where
  entered_linked :
      t.is_open ≡ true
      → Lists store streams cache count
      → (id b : ℕ) → insert t.stream_id (length store) streams id ≡ some b
      → OpenAt (store ++ (t ∷ [])) id b
  entered_linked o v id b f = elim (nat_cases id t.stream_id) [
    | inl h ↦
        let k : length store ≡ b = ground (arith, f, h) in
        (t, ap (get_elem? (store ++ (t ∷ []))) (sym k) ∙ get_elem?-last store t, o, sym h)
    | inr n ↦ OpenAt-append store t id b (v.linked id b (ground (arith, f, n)))
  ]

  entered_registered :
      streams t.stream_id ≡ none
      → Lists store streams cache count
      → (b : ℕ) (u : Stream) → get_elem? (store ++ (t ∷ [])) b ≡ some u
      → u.is_open ≡ true
      → insert t.stream_id (length store) streams u.stream_id ≡ some b
  entered_registered n v b u f o = elim (last-cases store b u t f) [
    | inl g ↦
        let r = v.registered b u g o in
        elim (nat_cases u.stream_id t.stream_id) [
          | inl h ↦ absurd (let w = ap streams h in cc)
          | inr h ↦ ground (arith, r, h)
        ]
    | inr (g, h) ↦ let w = ap (λ (x : Stream). x.stream_id) h in ground (arith, g, w)
  ]

  -- A new stream enters the table, which has none of its id.
  pub entered-Lists :
      streams t.stream_id ≡ none
      → t.is_open ≡ true
      → Lists store streams cache count
      → Lists (store ++ (t ∷ [])) (insert t.stream_id (length store) streams) cache (count +ℤ pos 1)
  entered-Lists n o v = record {
    linked = entered_linked o v;
    registered = entered_registered n v;
    cached =
        λ slot b k. let (id, h, p) = v.cached slot b k in (id, h, OpenAt-append store t id b p);
    counted =
        let h = open_count-append store t in
        let k : opens t ≡ 1 = ap (λ b. if b then 1 else 0) o in rw v.counted (ground (arith, h, k));
  }

module _ (store : List Stream) (streams cache : Map ℕ ℕ) (count : ℤ) where
  -- A stream of the table is cached.
  pub cached-Lists :
      (id a : ℕ)
      → streams id ≡ some a
      → Lists store streams cache count
      → Lists store streams (insert (id % stream_cache_size) a cache) count
  cached-Lists id a e v = record {
    linked = v.linked;
    registered = v.registered;
    cached = λ slot b k. elim (nat_cases slot (id % stream_cache_size)) [
      | inl h ↦ let g : a ≡ b = ground (arith, k, h) in (id, sym h, v.linked id b (e ∙ ap some g))
      | inr n ↦ v.cached slot b (ground (arith, k, n))
    ];
    counted = v.counted;
  }

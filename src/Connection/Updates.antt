-- ===== src/Connection/Updates.antt =====
-- The table of streams when a stream changes or ends.
use wispurr.Base.{nat_cases, one_some, set-cases}
use wispurr.Base.{
  ℕ, ◌%◌, ◌≡◌, sym, ap, ◌∙◌, List, true, false, some, ◌==◌, arith, get_elem?, set, if_intro,
  if◌then◌else◌, Bool-cases, inl, inr, ==_iff,
}
use wispurr.Base.Int.{ℤ, pos, negsuc, ◌+ℤ◌}
use wispurr.Base.Map.{Map, delete, nat_key}
use wispurr.Stream.State.{Stream}
use wispurr.Connection.State.{stream_cache_size, id_at, caches, uncache}
use wispurr.Connection.Table.{opens, open_count, OpenAt, Lists, open_count-set}
use wispurr.Base.{get_elem?-set_same, get_elem?-set_other}

OpenAt-id :
    (store : List Stream) (s : Stream) (id address : ℕ)
    → get_elem? store address ≡ some s
    → OpenAt store id address
    → s.stream_id ≡ id
OpenAt-id store s id address e (t, f, o, i) =
    ap (λ (u : Stream). u.stream_id) (one_some _ s t e f) ∙ i

OpenAt-set_other :
    (store : List Stream) (t : Stream) (id a b : ℕ)
    → (b ≡ a → ⊥)
    → OpenAt store id b
    → OpenAt (set store a t) id b
OpenAt-set_other store t id a b n (u, e, o, i) = (u, get_elem?-set_other store a b t n ∙ e, o, i)

OpenAt-set :
    (store : List Stream) (s t : Stream) (id a b : ℕ)
    → get_elem? store a ≡ some s
    → t.stream_id ≡ s.stream_id
    → t.is_open ≡ s.is_open
    → OpenAt store id b
    → OpenAt (set store a t) id b
OpenAt-set store s t id a b e i o (u, f, p, j) = elim (nat_cases b a) [
  | inr n ↦ OpenAt-set_other store t id a b n (u, f, p, j)
  | inl k ↦
      let h : s ≡ u = one_some _ s u e (sym (ap (get_elem? store) k) ∙ f) in
      (
        t,
        ap (get_elem? (set store a t)) k ∙ get_elem?-set_same store a s t e,
        o ∙ ap (λ (v : Stream). v.is_open) h ∙ p,
        i ∙ ap (λ (v : Stream). v.stream_id) h ∙ j,
      )
]

same_count :
    (store : List Stream) (s t : Stream) (a : ℕ) (count : ℤ)
    → get_elem? store a ≡ some s
    → t.is_open ≡ s.is_open
    → count ≡ pos (open_count store)
    → count ≡ pos (open_count (set store a t))
same_count store s t a count e o c =
    let h = open_count-set store a s t e in
    let k : opens t ≡ opens s = ap (λ b. if b then 1 else 0) o in c ∙ ap pos (omega (arith, h, k))

less_count :
    (store : List Stream) (s t : Stream) (a : ℕ) (count : ℤ)
    → get_elem? store a ≡ some s
    → s.is_open ≡ true
    → t.is_open ≡ false
    → count ≡ pos (open_count store)
    → count +ℤ negsuc 0 ≡ pos (open_count (set store a t))
less_count store s t a count e o n c =
    let h = open_count-set store a s t e in
    let k : opens s ≡ 1 = ap (λ b. if b then 1 else 0) o in
    let l : opens t ≡ 0 = ap (λ b. if b then 1 else 0) n in rw c (ground (arith, h, k, l))

module _ (store : List Stream) (streams cache : Map ℕ ℕ) (count : ℤ) (a : ℕ) (s t : Stream) where
  changed_registered :
      get_elem? store a ≡ some s
      → t.stream_id ≡ s.stream_id
      → t.is_open ≡ s.is_open
      → Lists store streams cache count
      → (b : ℕ) (u : Stream) → get_elem? (set store a t) b ≡ some u
      → u.is_open ≡ true
      → streams u.stream_id ≡ some b
  changed_registered e i o v b u f p = elim (set-cases store s t u a b e f) [
    | inl (k, h) ↦
        let r = v.registered a s e (sym o ∙ ap (λ (x : Stream). x.is_open) h ∙ p) in
        ap streams (sym (ap (λ (x : Stream). x.stream_id) h) ∙ i) ∙ r ∙ ap some (sym k)
    | inr (n, g) ↦ v.registered b u g p
  ]

  -- A stream changes, and stays what the table knows of it.
  pub changed-Lists :
      get_elem? store a ≡ some s
      → t.stream_id ≡ s.stream_id
      → t.is_open ≡ s.is_open
      → Lists store streams cache count
      → Lists (set store a t) streams cache count
  changed-Lists e i o v = record {
    linked = λ id b k. OpenAt-set store s t id a b e i o (v.linked id b k);
    registered = changed_registered e i o v;
    cached = λ slot b k.
        let (id, h, p) = v.cached slot b k in (id, h, OpenAt-set store s t id a b e i o p);
    counted = same_count store s t a count e o v.counted;
  }

  ended_linked :
      get_elem? store a ≡ some s
      → Lists store streams cache count
      → (id b : ℕ) → delete s.stream_id streams id ≡ some b
      → OpenAt (set store a t) id b
  ended_linked e v id b k = elim (nat_cases id s.stream_id) [
    | inl h ↦ absurd (ground (arith, k, h))
    | inr n ↦
        let l : OpenAt store id b = v.linked id b (ground (arith, k, n)) in
        OpenAt-set_other store t id a b
          (λ g. n (sym (OpenAt-id store s id b (ap (get_elem? store) g ∙ e) l))) l
  ]

  ended_registered :
      get_elem? store a ≡ some s
      → s.is_open ≡ true
      → t.is_open ≡ false
      → Lists store streams cache count
      → (b : ℕ) (u : Stream) → get_elem? (set store a t) b ≡ some u
      → u.is_open ≡ true
      → delete s.stream_id streams u.stream_id ≡ some b
  ended_registered e o n v b u f p = elim (set-cases store s t u a b e f) [
    | inl (k, h) ↦ absurd (let w = ap (λ (x : Stream). x.is_open) h in ground (arith, w, n, p))
    | inr (m, g) ↦
        let r = v.registered b u g p in
        let q = v.registered a s e o in
        elim (nat_cases u.stream_id s.stream_id) [
          | inl h ↦ absurd (m (let w = ap streams h in ground (arith, r, q, w)))
          | inr h ↦ ground (arith, r, h)
        ]
  ]

  -- Another slot is left alone, and the slot of the stream does not hold it any more.
  uncache_elsewhere :
      (slot b : ℕ) → uncache (set store a t) cache s.stream_id slot ≡ some b → cache slot ≡ some b
  unfolding uncache
  uncache_elsewhere slot b =
      if_intro (λ (m : Map ℕ ℕ). m slot ≡ some b → cache slot ≡ some b)
        (caches (set store a t) (cache (s.stream_id % stream_cache_size)) s.stream_id) _ _
        (λ k f. elim (Bool-cases (slot == s.stream_id % stream_cache_size)) [
          | inl h ↦ absurd (ground (arith, f, h))
          | inr h ↦ ground (arith, f, h)
        ])
        (λ k f. f)

  caches_itself :
      get_elem? store a ≡ some s
      → t.stream_id ≡ s.stream_id
      → caches (set store a t) (some a) s.stream_id ≡ true
  unfolding caches id_at
  caches_itself e i =
      let h = get_elem?-set_same store a s t e in
      let k : (t.stream_id == s.stream_id) ≡ true = (==_iff t.stream_id s.stream_id).1 i in
      ground (arith, h, k)

  not_cached :
      get_elem? store a ≡ some s
      → t.stream_id ≡ s.stream_id
      → uncache (set store a t) cache s.stream_id (s.stream_id % stream_cache_size) ≡ some a
      → ⊥
  unfolding uncache
  not_cached e i =
      if_intro (λ (m : Map ℕ ℕ). m (s.stream_id % stream_cache_size) ≡ some a → ⊥)
        (caches (set store a t) (cache (s.stream_id % stream_cache_size)) s.stream_id) _ _
        (λ k f. ground (arith, f))
        (λ k f.
          let h = ap (λ o. caches (set store a t) o s.stream_id) f in
          let g = caches_itself e i in cc)

  ended_cached :
      get_elem? store a ≡ some s
      → t.stream_id ≡ s.stream_id
      → Lists store streams cache count
      → (slot b : ℕ) → uncache (set store a t) cache s.stream_id slot ≡ some b
      → (id : ℕ) × (id % stream_cache_size ≡ slot) × OpenAt (set store a t) id b
  ended_cached e i v slot b f =
      let (id, h, p) = v.cached slot b (uncache_elsewhere slot b f) in
      elim (nat_cases b a) [
        | inr n ↦ (id, h, OpenAt-set_other store t id a b n p)
        | inl g ↦
            let j = OpenAt-id store s id b (ap (get_elem? store) g ∙ e) p in
            let k : s.stream_id % stream_cache_size ≡ slot =
              ap (λ x. x % stream_cache_size) j ∙ h in
            absurd
              (not_cached e i (ap (uncache (set store a t) cache s.stream_id) k ∙ f ∙ ap some g))
      ]

  -- A stream ends, and leaves the table.
  pub ended-Lists :
      get_elem? store a ≡ some s
      → t.stream_id ≡ s.stream_id
      → s.is_open ≡ true
      → t.is_open ≡ false
      → Lists store streams cache count
      → Lists
          (set store a t)
          (delete s.stream_id streams)
          (uncache (set store a t) cache s.stream_id)
          (count +ℤ negsuc 0)
  ended-Lists e i o n v = record {
    linked = ended_linked e v;
    registered = ended_registered e o n v;
    cached = ended_cached e i v;
    counted = less_count store s t a count e o n v.counted;
  }

-- ===== src/Dns/Expiry.antt =====
-- What expire removes no later lookup can tell.
use wispurr.Base.{
  ℕ, ◌≡◌, ◌≤◌, refl, ap, ◌∙◌, List, [], ◌∷◌, Bool-cases, inl, inr, not, Option, none, some, ltb,
  arith,
}
use wispurr.Base.Map.{filter, insert, same_list, bytes_key}
use wispurr.Hostname.{normalize_target_hostname}
use wispurr.IpAddress.{Ip}
use mathlib.Core.Path.{subst}
use wispurr.Dns.{
  DnsEntry, DnsCache, expire, Source, literal, cached, asked, usable, source_of, take_source,
  lookup_on, lookup_ip_addr, make_entry, entry_answer, Event, looks_up, expires, answers,
}

usable-filter :
    (o : Option DnsEntry) (now later : ℕ)
    → now ≤ later
    → usable (filter (λ (e : DnsEntry). not (ltb e.expires_at now)) o) later ≡ usable o later
unfolding usable
usable-filter none now later h = refl
usable-filter (some e) now later h = ground (arith, h)

-- Two caches between which no lookup from now on can tell.
record Alike (now : ℕ) (d e : DnsCache) : Type 0 where
  ttls : d.ttl ≡ e.ttl
  orders : d.result_order ≡ e.result_order
  views :
      (host : List ℕ) (later : ℕ)
      → now ≤ later
      → usable (d.cache host) later ≡ usable (e.cache host) later

expire-Alike :
    (now later : ℕ) (d e : DnsCache) → now ≤ later → Alike now d e → Alike later (expire d later) e
unfolding expire
expire-Alike now later d e h a = record {
  ttls = a.ttls;
  orders = a.orders;
  views = λ host t k. usable-filter (d.cache host) later t k ∙ a.views host t (omega (arith, h, k));
}

Alike-later : (now later : ℕ) (d e : DnsCache) → now ≤ later → Alike now d e → Alike later d e
Alike-later now later d e h a = record {
  ttls = a.ttls;
  orders = a.orders;
  views = λ host t k. a.views host t (omega (arith, h, k));
}

usable-insert :
    (host other : List ℕ) (x : DnsEntry) (m n : List ℕ → Option DnsEntry) (t : ℕ)
    → usable (m other) t ≡ usable (n other) t
    → usable (insert host x m other) t ≡ usable (insert host x n other) t
usable-insert host other x m n t h = elim (Bool-cases (same_list other host)) [
  | inl e ↦ rw e refl
  | inr e ↦ rw e h
]

inserted-Alike :
    (now : ℕ) (d e : DnsCache) (host : List ℕ) (x : DnsEntry)
    → Alike now d e
    → Alike now
        (record d { cache = insert host x d.cache })
        (record e { cache = insert host x e.cache })
inserted-Alike now d e host x a = record {
  ttls = a.ttls;
  orders = a.orders;
  views = λ other t k. usable-insert host other x d.cache e.cache t (a.views other t k);
}

take-Alike :
    (now : ℕ) (d e : DnsCache) (host : List ℕ) (answer : Option (List Ip)) (later : ℕ) (s : Source)
    → Alike now d e
    → ((take_source d host answer later s).1 ≡ (take_source e host answer later s).1)
      × Alike now (take_source d host answer later s).0 (take_source e host answer later s).0
unfolding take_source
take-Alike now d e host answer later (literal ip) a = (refl, a)
take-Alike now d e host answer later (cached x) a = (refl, a)
take-Alike now d e host answer later asked a =
    let k : make_entry d.ttl d.result_order answer later
        ≡ make_entry e.ttl e.result_order answer later =
      rw (a.ttls, a.orders) refl in
    (
      ap entry_answer k,
      subst
          (λ x.
            Alike now
              (record d {
                cache = insert host (make_entry d.ttl d.result_order answer later) d.cache;
              })
              (record e { cache = insert host x e.cache }))
          k (inserted-Alike now d e host (make_entry d.ttl d.result_order answer later) a),
    )

source_views :
    (ip : Option Ip) (o p : Option DnsEntry) (now : ℕ)
    → usable o now ≡ usable p now
    → source_of ip o now ≡ source_of ip p now
unfolding source_of
source_views none o p now h = h
source_views (some ip) o p now h = refl

-- Times that do not go back, and a history without the rounds of expire.
abbrev pub Ordered : ℕ → List Event → Type 0
Ordered now [] = Unit {0}
Ordered now (looks_up host at answer later ∷ rest) = (now ≤ at) × Ordered at rest
Ordered now (expires at ∷ rest) = (now ≤ at) × Ordered at rest

abbrev pub lookups : List Event → List Event
lookups [] = []
lookups (looks_up host at answer later ∷ rest) = looks_up host at answer later ∷ lookups rest
lookups (expires at ∷ rest) = lookups rest

module _ (parse_ip : List ℕ → Option Ip) where
  lookup-Alike :
      (now : ℕ) (d e : DnsCache) (host : List ℕ) (answer : Option (List Ip)) (later : ℕ)
      → Alike now d e
      → ((lookup_on parse_ip d host now answer later).1
          ≡ (lookup_on parse_ip e host now answer later).1)
        × Alike now
            (lookup_on parse_ip d host now answer later).0
            (lookup_on parse_ip e host now answer later).0
  unfolding lookup_on
  lookup-Alike now d e host answer later a =
      let s : source_of (parse_ip host) (d.cache host) now
          ≡ source_of (parse_ip host) (e.cache host) now =
        source_views (parse_ip host) (d.cache host) (e.cache host) now
          (a.views host now (omega arith)) in
      subst
        (λ x.
          ((take_source d host answer later (source_of (parse_ip host) (d.cache host) now)).1
            ≡ (take_source e host answer later x).1)
          × Alike now
              (take_source d host answer later (source_of (parse_ip host) (d.cache host) now)).0
              (take_source e host answer later x).0)
        s (take-Alike now d e host answer later (source_of (parse_ip host) (d.cache host) now) a)

  Alike-answers :
      (now : ℕ) (d e : DnsCache) (rest : List Event)
      → Ordered now rest
      → Alike now d e
      → answers parse_ip d rest ≡ answers parse_ip e (lookups rest)
  unfolding answers lookup_ip_addr
  Alike-answers now d e [] o a = refl
  Alike-answers now d e (looks_up host at answer later ∷ rest) o a =
      let name = normalize_target_hostname host in
      let (r, b) = lookup-Alike at d e name answer later (Alike-later now at d e o.0 a) in
      let ih =
        Alike-answers at (lookup_on parse_ip d name at answer later).0
          (lookup_on parse_ip e name at answer later).0 rest o.1 b in
      ap (λ x. x ∷ answers parse_ip (lookup_on parse_ip d name at answer later).0 rest) r
      ∙ ap (λ xs. (lookup_on parse_ip e name at answer later).1 ∷ xs) ih
  Alike-answers now d e (expires at ∷ rest) o a =
      Alike-answers at (expire d at) e rest o.1 (expire-Alike now at d e o.0 a)

  -- When the clock does not go back, the rounds in which the cache throws out old entries change no
  -- answer: a history of lookups and such rounds gives the answers that its lookups give alone.
  pub answers-lookups :
      (d : DnsCache) (now : ℕ) (rest : List Event)
      → Ordered now rest
      → answers parse_ip d rest ≡ answers parse_ip d (lookups rest)
  answers-lookups d now rest o =
      Alike-answers now d d rest o (record { ttls = refl; orders = refl; views = λ host t k. refl })

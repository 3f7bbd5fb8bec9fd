-- ===== src/Dns/Backed.antt =====
-- Where the cached answers come from.
use wispurr.Base.{
  ℕ, ◌+◌, ◌<◌, ◌≡◌, ◌⊎◌, refl, sym, ap, ◌∙◌, List, [], ◌∷◌, Bool, Bool-cases, inl, inr, Option,
  none, some, ltb, arith,
}
use wispurr.Base.Map.{Map, insert, filter, same_list, same_list_iff, bytes_key}
use wispurr.Hostname.{normalize_target_hostname}
use wispurr.IpAddress.{Ip}
use wispurr.Dns.{
  DnsEntry, DnsCache, expire, Source, literal, cached, asked, usable, source_of, take_source,
  lookup_on, lookup_ip_addr, make_entry, entry_answer, Event, looks_up, expires, step, run,
}

-- A question to the resolver, its answer, and the clock once it has answered.
pub record Question : Type 0 where
  pub host : List ℕ
  pub answer : Option (List Ip)
  pub later : ℕ

-- The entry was made of an answer of the log for that name.
abbrev pub FromLog : ℕ → List ℕ → List ℕ → DnsEntry → List Question → Type 0
FromLog ttl order host e [] = ⊥
FromLog ttl order host e (q ∷ log) =
    ((q.host ≡ host) × (e ≡ make_entry ttl order q.answer q.later)) ⊎ FromLog ttl order host e log

pub record Backed (ttl : ℕ) (order : List ℕ) (d : DnsCache) (log : List Question) : Type 0 where
  pub same_ttl : d.ttl ≡ ttl
  pub same_order : d.result_order ≡ order
  pub entries :
      (host : List ℕ) (e : DnsEntry) → d.cache host ≡ some e → FromLog ttl order host e log

abbrev pub note : Source → List ℕ → Option (List Ip) → ℕ → List Question → List Question
note (literal ip) host answer later log = log
note (cached e) host answer later log = log
note asked host answer later log = record { host = host; answer = answer; later = later } ∷ log

insert_cases :
    (host other : List ℕ) (x e : DnsEntry) (m : Map (List ℕ) DnsEntry)
    → insert host x m other ≡ some e
    → ((host ≡ other) × (e ≡ x)) ⊎ (m other ≡ some e)
insert_cases host other x e m h = elim (Bool-cases (same_list other host)) [
  | inl k ↦ inl (sym ((same_list_iff other host).0 k), ground (arith, h, k))
  | inr k ↦ inr (ground (arith, h, k))
]

filter-some :
    (o : Option DnsEntry) (keep : DnsEntry → Bool) (e : DnsEntry)
    → filter keep o ≡ some e
    → o ≡ some e
filter-some none keep e h = h
filter-some (some x) keep e h = elim (Bool-cases (keep x)) [
  | inl k ↦ ground (arith, h, k)
  | inr k ↦ absurd (ground (arith, h, k))
]

none_not_some : (o : Option DnsEntry) (x : DnsEntry) → o ≡ none → o ≡ some x → ⊥
none_not_some o x e h = cc

expires_later :
    (ttl : ℕ) (order : List ℕ) (now : ℕ) (e : DnsEntry) (answer : Option (List Ip)) (later : ℕ)
    → now < e.expires_at
    → e ≡ make_entry ttl order answer later
    → now < later + ttl
unfolding make_entry
expires_later ttl order now e none later h x =
    let k = ap (λ (y : DnsEntry). y.expires_at) x in omega (arith, h, k)
expires_later ttl order now e (some ips) later h x =
    let k = ap (λ (y : DnsEntry). y.expires_at) x in omega (arith, h, k)

module _ (ttl : ℕ) (order : List ℕ) where
  take-Backed :
      (d : DnsCache) (log : List Question) (host : List ℕ) (answer : Option (List Ip)) (later : ℕ)
      (s : Source)
      → Backed ttl order d log
      → Backed ttl order (take_source d host answer later s).0 (note s host answer later log)
  unfolding take_source
  take-Backed d log host answer later (literal ip) v = v
  take-Backed d log host answer later (cached e) v = v
  take-Backed d log host answer later asked v = record {
    same_ttl = v.same_ttl;
    same_order = v.same_order;
    entries = λ other e h.
        elim (insert_cases host other (make_entry d.ttl d.result_order answer later) e d.cache h) [
          | inl (k, x) ↦ inl (k, x ∙ rw (v.same_ttl, v.same_order) refl)
          | inr k ↦ inr (v.entries other e k)
        ];
  }

  expire-Backed :
      (d : DnsCache) (log : List Question) (now : ℕ)
      → Backed ttl order d log
      → Backed ttl order (expire d now) log
  unfolding expire
  expire-Backed d log now v = record {
    same_ttl = v.same_ttl;
    same_order = v.same_order;
    entries = λ host e h. v.entries host e (filter-some (d.cache host) _ e h);
  }

  -- What an answer rests on: the name is an address itself; or the resolver has answered just now; or it
  -- has answered for that name before, and less than the time to live has passed since.
  abbrev pub Recent : List ℕ → ℕ → Option (List Ip) → List Question → Type 0
  Recent host now result [] = ⊥
  Recent host now result (q ∷ log) =
      ((q.host ≡ host)
        × (now < q.later + ttl)
        × (result ≡ entry_answer (make_entry ttl order q.answer q.later)))
      ⊎ Recent host now result log

  abbrev pub Explained :
      Option Ip → List ℕ → ℕ → Option (List Ip) → ℕ → List Question → Option (List Ip) → Type 0
  Explained ip host now answer later log result =
      ((x : Ip) × (ip ≡ some x) × (result ≡ some (x ∷ [])))
      ⊎ (result ≡ entry_answer (make_entry ttl order answer later))
      ⊎ Recent host now result log

  FromLog-Recent :
      (host : List ℕ) (now : ℕ) (e : DnsEntry) (log : List Question)
      → now < e.expires_at
      → FromLog ttl order host e log
      → Recent host now (entry_answer e) log
  unfolding make_entry
  FromLog-Recent host now e [] h x = elim x [ ]
  FromLog-Recent host now e (q ∷ log) h (inl (k, x)) =
      inl (k, expires_later ttl order now e q.answer q.later h x, ap entry_answer x)
  FromLog-Recent host now e (q ∷ log) h (inr r) = inr (FromLog-Recent host now e log h r)

  usable-Explained :
      (d : DnsCache) (log : List Question) (host : List ℕ) (now : ℕ) (answer : Option (List Ip))
      (later : ℕ) (o : Option DnsEntry)
      → d.cache host ≡ o
      → Backed ttl order d log
      → Explained none host now answer later log (take_source d host answer later (usable o now)).1
  unfolding usable take_source
  usable-Explained d log host now answer later none e v =
      inr (inl (rw (v.same_ttl, v.same_order) refl))
  usable-Explained d log host now answer later (some x) e v =
      elim (Bool-cases (ltb now x.expires_at)) [
        | inl k ↦
            inr
              (inr (rw k (FromLog-Recent host now x log (ground (arith, k)) (v.entries host x e))))
        | inr k ↦ inr (inl (rw (k, v.same_ttl, v.same_order) refl))
      ]

  source-Explained :
      (d : DnsCache) (log : List Question) (host : List ℕ) (now : ℕ) (answer : Option (List Ip))
      (later : ℕ) (ip : Option Ip)
      → Backed ttl order d log
      → Explained ip host now answer later log
          (take_source d host answer later (source_of ip (d.cache host) now)).1
  unfolding source_of take_source
  source-Explained d log host now answer later none v =
      usable-Explained d log host now answer later (d.cache host) refl v
  source-Explained d log host now answer later (some ip) v = inl (ip, refl, refl)

  module _ (parse_ip : List ℕ → Option Ip) where
    -- The questions that a history asks the resolver, the last one first.
    abbrev pub run_log : DnsCache → List Question → List Event → List Question
    run_log d log [] = log
    run_log d log (looks_up raw now answer later ∷ rest) =
        let host = normalize_target_hostname raw in
        run_log (step parse_ip d (looks_up raw now answer later))
          (note (source_of (parse_ip host) (d.cache host) now) host answer later log) rest
    run_log d log (expires now ∷ rest) = run_log (expire d now) log rest

    run-Backed :
        (d : DnsCache) (log : List Question) (rest : List Event)
        → Backed ttl order d log
        → Backed ttl order (run parse_ip d rest) (run_log d log rest)
    unfolding run step lookup_ip_addr lookup_on
    run-Backed d log [] v = v
    run-Backed d log (looks_up raw now answer later ∷ rest) v =
        let host = normalize_target_hostname raw in
        let s = source_of (parse_ip host) (d.cache host) now in
        run-Backed (take_source d host answer later s).0 (note s host answer later log) rest
          (take-Backed d log host answer later s v)
    run-Backed d log (expires now ∷ rest) v =
        run-Backed (expire d now) log rest (expire-Backed d log now v)

    -- After any history of lookups and rounds of expire on an empty cache, a lookup returns the address
    -- itself if the name is one, or what the resolver answers at that moment, or what it answered to a
    -- question of the history for the same name less than the time to live before, an error included.
    pub run-Explained :
        (d : DnsCache) (rest : List Event) (raw : List ℕ) (now : ℕ) (answer : Option (List Ip))
        (later : ℕ)
        → ((host : List ℕ) → d.cache host ≡ none)
        → d.ttl ≡ ttl
        → d.result_order ≡ order
        → Explained
            (parse_ip (normalize_target_hostname raw))
            (normalize_target_hostname raw)
            now
            answer
            later
            (run_log d [] rest)
            (lookup_ip_addr parse_ip (run parse_ip d rest) raw now answer later).1
    unfolding lookup_ip_addr lookup_on
    run-Explained d rest raw now answer later e t o =
        source-Explained (run parse_ip d rest) (run_log d [] rest) (normalize_target_hostname raw)
          now answer later (parse_ip (normalize_target_hostname raw))
          (run-Backed d [] rest (record {
            same_ttl = t;
            same_order = o;
            entries = λ host x h. absurd (none_not_some (d.cache host) x (e host) h);
          }))

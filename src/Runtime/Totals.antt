-- ===== src/Runtime/Totals.antt =====
-- What Stats reports, and the bytes that were carried.
use mathlib.Core.Path.{subst}
use wispurr.Base.{
  ℕ, ◌+◌, ◌-◌, ◌^◌, ◌<◌, ◌≡◌, refl, sym, ap, ◌∙◌, List, [], ◌∷◌, true, false, Option, none, some,
  arith, length, if_intro, if◌then◌else◌, Option-cases, Bool-cases, inl, inr,
}
use wispurr.Config.{FloodProtectionConfig}
use wispurr.Runtime.{
  RuntimeConfig, Globals, ActiveConnection, ServerStats, word, add_one, add_stats, stats,
  build_globals, add_flood, bare_globals, begin_connection, count_bytes, find_connection,
  end_connection, end_found, Event, begins, carries, ends, step, run,
}
use wispurr.Runtime.Traffic.{
  has, remove, ids, sum, Distinct, length-ids, ids-without, ids-count_in, remove-Distinct,
  count_in_absent, sum-count_in, sum-without, find_connection-none, find_connection-id,
  remove_absent,
}

-- What should be reported: the ids of the open connections, and all the bytes they carried while open.
pub record Ledger : Type 0 where
  pub open_ids : List ℕ
  pub ingress : ℕ
  pub egress : ℕ

abbrev pub no_traffic : Ledger
no_traffic = record { open_ids = []; ingress = 0; egress = 0 }

unfoldable pub book : Ledger → Event → Ledger
book l (begins id) = record l { open_ids = id ∷ l.open_ids }
book l (carries id n m) =
    if has id l.open_ids then record l { ingress = l.ingress + n; egress = l.egress + m } else l
book l (ends id) = record l { open_ids = remove id l.open_ids }

abbrev pub book_all : Ledger → List Event → Ledger
book_all l [] = l
book_all l (e ∷ rest) = book_all (book l e) rest

-- The ids that begin are not open: connIDCounter gives each once.
abbrev pub Fresh : Ledger → Event → Type 0
Fresh l (begins id) = has id l.open_ids ≡ false
Fresh l (carries id n m) = Unit {0}
Fresh l (ends id) = Unit {0}

abbrev pub AllFresh : Ledger → List Event → Type 0
AllFresh l [] = Unit {0}
AllFresh l (e ∷ rest) = Fresh l e × AllFresh (book l e) rest

record Booked (l : Ledger) (g : Globals) : Type 0 where
  open_alike : ids g.active ≡ l.open_ids
  distinct : Distinct (ids g.active)
  in_range : g.total_ingress_bytes < 2 ^ 64
  out_range : g.total_egress_bytes < 2 ^ 64
  in_total : word (g.total_ingress_bytes + sum (λ c. c.ingress_bytes) g.active) ≡ word l.ingress
  out_total : word (g.total_egress_bytes + sum (λ c. c.egress_bytes) g.active) ≡ word l.egress

module _ (l : Ledger) (g : Globals) (b : Booked l g) where
  begin-Booked :
      (id : ℕ) → has id l.open_ids ≡ false → Booked (book l (begins id)) (begin_connection g id)
  unfolding book begin_connection
  begin-Booked id h = record {
    open_alike = ap (◌∷◌ id) b.open_alike;
    distinct = (subst (λ xs. has id xs ≡ false) (sym b.open_alike) h, b.distinct);
    in_range = b.in_range;
    out_range = b.out_range;
    in_total = omega (arith, b.in_total);
    out_total = omega (arith, b.out_total);
  }

  count-Booked : (id n m : ℕ) → Booked (book l (carries id n m)) (count_bytes g id n m)
  unfolding book count_bytes
  count-Booked id n m = elim (Bool-cases (has id l.open_ids)) [
    | inl e ↦
        let there : has id (ids g.active) ≡ true = ap (has id) b.open_alike ∙ e in
        let i =
          sum-count_in (λ c. c.ingress_bytes) n m n (λ c. omega arith) id g.active b.distinct
            there in
        let o =
          sum-count_in (λ c. c.egress_bytes) n m m (λ c. omega arith) id g.active b.distinct
            there in
        rw e (record {
          open_alike = ids-count_in id n m g.active ∙ b.open_alike;
          distinct = subst Distinct (sym (ids-count_in id n m g.active)) b.distinct;
          in_range = b.in_range;
          out_range = b.out_range;
          in_total = omega (arith, i, b.in_total);
          out_total = omega (arith, o, b.out_total);
        })
    | inr e ↦ rw (e, count_in_absent id n m g.active (ap (has id) b.open_alike ∙ e)) b
  ]

  end-Booked : (id : ℕ) → Booked (book l (ends id)) (end_found g (find_connection id g.active))
  unfolding book end_found end_connection
  end-Booked id = elim (Option-cases (find_connection id g.active)) [
    | inl e ↦
        let absent = find_connection-none id g.active e in
        rw e (record {
          open_alike =
              b.open_alike
              ∙ sym (remove_absent id l.open_ids (ap (has id) (sym b.open_alike) ∙ absent));
          distinct = b.distinct;
          in_range = b.in_range;
          out_range = b.out_range;
          in_total = b.in_total;
          out_total = b.out_total;
        })
    | inr (c, e) ↦
        let i = sum-without (λ x. x.ingress_bytes) id g.active c b.distinct e in
        let o = sum-without (λ x. x.egress_bytes) id g.active c b.distinct e in
        let same : c.conn_id ≡ id = find_connection-id id g.active c e in
        rw (e, same)
          (record {
            open_alike = ids-without id g.active ∙ ap (remove id) b.open_alike;
            distinct =
                subst Distinct (sym (ids-without id g.active))
                  (remove-Distinct id (ids g.active) b.distinct);
            in_range = omega arith;
            out_range = omega arith;
            in_total = omega (arith, i, b.in_total);
            out_total = omega (arith, o, b.out_total);
          })
  ]

step-Booked :
    (l : Ledger) (g : Globals) (e : Event) → Fresh l e → Booked l g → Booked (book l e) (step g e)
unfolding step
step-Booked l g (begins id) f b = begin-Booked l g b id f
step-Booked l g (carries id n m) f b = count-Booked l g b id n m
step-Booked l g (ends id) f b = end-Booked l g b id

run-Booked :
    (l : Ledger) (g : Globals) (rest : List Event)
    → AllFresh l rest
    → Booked l g
    → Booked (book_all l rest) (run g rest)
unfolding run
run-Booked l g [] f b = b
run-Booked l g (e ∷ rest) f b = run-Booked (book l e) (step g e) rest f.1 (step-Booked l g e f.0 b)

-- The counts of Stats in one sum each.
add_stats-active :
    (s : ServerStats) (cs : List ActiveConnection)
    → (add_stats s cs).active_connections ≡ s.active_connections + length cs
unfolding add_stats add_one
add_stats-active s [] = omega arith
add_stats-active s (c ∷ rest) = omega (arith, add_stats-active (add_one s c) rest)

add_stats-ingress :
    (s : ServerStats) (cs : List ActiveConnection)
    → s.ingress_bytes < 2 ^ 64
    → (add_stats s cs).ingress_bytes ≡ word (s.ingress_bytes + sum (λ c. c.ingress_bytes) cs)
unfolding add_stats add_one
add_stats-ingress s [] h = omega arith
add_stats-ingress s (c ∷ rest) h = omega (arith, add_stats-ingress (add_one s c) rest (omega arith))

add_stats-egress :
    (s : ServerStats) (cs : List ActiveConnection)
    → s.egress_bytes < 2 ^ 64
    → (add_stats s cs).egress_bytes ≡ word (s.egress_bytes + sum (λ c. c.egress_bytes) cs)
unfolding add_stats add_one
add_stats-egress s [] h = omega arith
add_stats-egress s (c ∷ rest) h = omega (arith, add_stats-egress (add_one s c) rest (omega arith))

bare-Booked : (cfg : RuntimeConfig) (now : ℕ) → Booked no_traffic (bare_globals cfg now)
unfolding bare_globals
bare-Booked cfg now = record {
  open_alike = refl;
  distinct = tt;
  in_range = omega arith;
  out_range = omega arith;
  in_total = refl;
  out_total = refl;
}

flood-Booked :
    (g : Globals) (o : Option FloodProtectionConfig)
    → Booked no_traffic g
    → Booked no_traffic (add_flood g o)
unfolding add_flood
flood-Booked g none b = b
flood-Booked g (some fp) b =
    if_intro (λ (x : Globals). Booked no_traffic x) fp.enabled _ _
      (λ e. record {
        open_alike = b.open_alike;
        distinct = b.distinct;
        in_range = b.in_range;
        out_range = b.out_range;
        in_total = b.in_total;
        out_total = b.out_total;
      })
      (λ e. b)

fresh-Booked : (cfg : RuntimeConfig) (now : ℕ) → Booked no_traffic (build_globals cfg now)
unfolding build_globals
fresh-Booked cfg now =
    flood-Booked (bare_globals cfg now) cfg.flood_protection (bare-Booked cfg now)

-- Whatever connections begin, carry bytes and end, with an id that is not open for each that begins:
-- Stats reports as many connections as are open, and modulo 2^64 all bytes that connections carried
-- while they were open, also those of connections that have ended.
pub stats-run :
    (cfg : RuntimeConfig) (now later : ℕ) (rest : List Event)
    → AllFresh no_traffic rest
    → let s = stats (run (build_globals cfg now) rest) later in
      let l = book_all no_traffic rest in
      (s.active_connections ≡ length l.open_ids)
      × (s.ingress_bytes ≡ word l.ingress)
      × (s.egress_bytes ≡ word l.egress)
unfolding stats
stats-run cfg now later rest f =
    let g = run (build_globals cfg now) rest in
    let b = run-Booked no_traffic (build_globals cfg now) rest f (fresh-Booked cfg now) in
    let start : ServerStats = record {
      uptime = later - g.started_at;
      active_connections = 0;
      active_streams = 0;
      ingress_bytes = g.total_ingress_bytes;
      egress_bytes = g.total_egress_bytes;
    } in
    (
      omega (arith, add_stats-active start g.active, length-ids g.active, ap length b.open_alike),
      add_stats-ingress start g.active b.in_range ∙ b.in_total,
      add_stats-egress start g.active b.out_range ∙ b.out_total,
    )

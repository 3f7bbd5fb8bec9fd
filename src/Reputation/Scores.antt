-- ===== src/Reputation/Scores.antt =====
-- Scores stay between 0 and 100, and destinations count their sources.
use wispurr.Base.{
  ℕ, ◌-◌, ◌≡◌, refl, List, [], ◌∷◌, false, Option, none, some, arith, length, String, Bool-cases,
  inl, inr, ◌||◌, ◌==◌,
}
use wispurr.Base.Int.{ℤ, pos, ◌≤ℤ◌, ◌+ℤ◌, ◌-ℤ◌, leb_ℤ}
use wispurr.Base.Map.{
  AllValues, AllValues-insert, Holds, Holds-retain, Holds-map, string_key, contains,
}
use wispurr.Reputation.{
  Reputation, ReputationConfig, SourceEntry, DestEntry, clamp_score, add_source_on, add_dest_on,
  force_decay_on, evict_on, maintain, new_reputation, touched_dest, source_or_new, dest_or_new,
  touch_dest, see_source, lower_source, lower_dest, decay_delta, is_zero, weight,
}

abbrev pub InRange : ℤ → Type 0
InRange s = (pos 0 ≤ℤ s) × (s ≤ℤ pos 100)

-- No source is counted twice.
abbrev pub Distinct : List String → Type 0
Distinct [] = Unit {0}
Distinct (s ∷ ss) = (contains s ss ≡ false) × Distinct ss

pub record IsSound (e : DestEntry) : Type 0 where
  pub in_range : InRange e.score
  pub counted : e.distinct_sources ≡ length e.seen_sources
  pub distinct : Distinct e.seen_sources

pub record Inv (r : Reputation) : Type 0 where
  pub sources_in_range : AllValues (λ (e : SourceEntry). InRange e.score) r.sources
  pub dests_sound : AllValues IsSound r.dests

pub clamp_score-InRange : (v : ℤ) → InRange (clamp_score v)
unfolding clamp_score
clamp_score-InRange v = ground arith

add_source_on-Inv :
    (r : Reputation) (key reason : String) (now : ℕ) → Inv r → Inv (add_source_on r key reason now)
unfolding add_source_on
add_source_on-Inv r key reason now v = record {
  sources_in_range =
      AllValues-insert (λ (e : SourceEntry). InRange e.score) key _ r.sources
        (clamp_score-InRange
          ((source_or_new (r.sources key) now).score +ℤ weight r.cfg.weights reason))
        v.sources_in_range;
  dests_sound = v.dests_sound;
}

dest_or_new-IsSound :
    (o : Option DestEntry) (now : ℕ) → Holds IsSound o → IsSound (dest_or_new o now)
unfolding dest_or_new
dest_or_new-IsSound none now h = record { in_range = omega arith; counted = refl; distinct = tt }
dest_or_new-IsSound (some e) now h = h

touch_dest-IsSound :
    (e : DestEntry) (w : ℤ) (reason : String) (now : ℕ)
    → IsSound e
    → IsSound (touch_dest e w reason now)
unfolding touch_dest
touch_dest-IsSound e w reason now h = record {
  in_range = clamp_score-InRange (e.score +ℤ w);
  counted = h.counted;
  distinct = h.distinct;
}

see_source-IsSound :
    (e : DestEntry) (esc : ℤ) (src : Option String) → IsSound e → IsSound (see_source e esc src)
unfolding see_source
see_source-IsSound e esc none h = h
see_source-IsSound e esc (some s) h = ground (arith, clamp_score-InRange (e.score +ℤ esc))

touched_dest-IsSound :
    (r : Reputation) (key reason : String) (src : Option String) (now : ℕ)
    → Inv r
    → IsSound (touched_dest r key reason src now)
unfolding touched_dest
touched_dest-IsSound r key reason src now v =
    see_source-IsSound _ (weight r.cfg.dest_weights "distinctSourcesEscalation") src (
      touch_dest-IsSound _ _ reason now (dest_or_new-IsSound (r.dests key) now (v.dests_sound key)))

add_dest_on-Inv :
    (r : Reputation) (key reason : String) (src : Option String) (now : ℕ)
    → Inv r
    → Inv (add_dest_on r key reason src now)
unfolding add_dest_on
add_dest_on-Inv r key reason src now v = record {
  sources_in_range = v.sources_in_range;
  dests_sound =
      AllValues-insert IsSound key _ r.dests (touched_dest-IsSound r key reason src now v)
        v.dests_sound;
}

lower_source-InRange : (delta : ℤ) (e : SourceEntry) → InRange (lower_source delta e).score
unfolding lower_source
lower_source-InRange delta e = clamp_score-InRange (e.score -ℤ delta)

lower_dest-IsSound : (delta : ℤ) (e : DestEntry) → IsSound e → IsSound (lower_dest delta e)
unfolding lower_dest
lower_dest-IsSound delta e h = record {
  in_range = clamp_score-InRange (e.score -ℤ delta);
  counted = h.counted;
  distinct = h.distinct;
}

force_decay_on-Inv : (r : Reputation) (elapsed now : ℕ) → Inv r → Inv (force_decay_on r elapsed now)
unfolding force_decay_on
force_decay_on-Inv r elapsed now v =
    elim (Bool-cases
      (is_zero r.cfg.decay_per_hour || leb_ℤ (decay_delta r.cfg.decay_per_hour elapsed) (pos 0))) [
        | inl idle ↦ rw idle v
        | inr decays ↦ rw decays (record {
          sources_in_range = λ k.
              Holds-map (λ (e : SourceEntry). InRange e.score) _ (r.sources k)
                (λ e h. lower_source-InRange (decay_delta r.cfg.decay_per_hour elapsed) e)
                (v.sources_in_range k);
          dests_sound = λ k.
              Holds-map IsSound _ (r.dests k)
                (lower_dest-IsSound (decay_delta r.cfg.decay_per_hour elapsed)) (v.dests_sound k);
        })
      ]

evict_on-Inv : (r : Reputation) (now : ℕ) → Inv r → Inv (evict_on r now)
unfolding evict_on
evict_on-Inv r now v = elim (Bool-cases (r.cfg.evict_after == 0)) [
  | inl off ↦ rw off v
  | inr on ↦ rw on (record {
    sources_in_range = λ k. Holds-retain _ _ (r.sources k) (v.sources_in_range k);
    dests_sound = λ k. Holds-retain _ _ (r.dests k) (v.dests_sound k);
  })
]

pub data Event : Type 0 where
  reports_source : String → String → ℕ → Event
  reports_dest : String → String → Option String → ℕ → Event
  maintains : ℕ → Event

pub apply : Reputation → Event → Reputation
apply r (reports_source key reason now) = add_source_on r key reason now
apply r (reports_dest key reason src now) = add_dest_on r key reason src now
apply r (maintains now) = maintain r now

pub apply_all : Reputation → List Event → Reputation
apply_all r [] = r
apply_all r (e ∷ es) = apply_all (apply r e) es

apply-Inv : (r : Reputation) (e : Event) → Inv r → Inv (apply r e)
unfolding apply maintain
apply-Inv r (reports_source key reason now) v = add_source_on-Inv r key reason now v
apply-Inv r (reports_dest key reason src now) v = add_dest_on-Inv r key reason src now v
apply-Inv r (maintains now) v = evict_on-Inv _ now (force_decay_on-Inv r (now - r.last_decay) now v)

apply_all-Inv : (r : Reputation) (es : List Event) → Inv r → Inv (apply_all r es)
unfolding apply_all
apply_all-Inv r [] v = v
apply_all-Inv r (e ∷ es) v = apply_all-Inv (apply r e) es (apply-Inv r e v)

-- After any reports and rounds of maintenance on a new reputation table, with any weights, every score
-- lies between 0 and 100, and each destination's count of distinct sources is the number of sources
-- recorded with it, none of them twice.
pub new_reputation-Inv :
    (cfg : ReputationConfig) (start : ℕ) (es : List Event)
    → Inv (apply_all (new_reputation cfg start) es)
unfolding new_reputation
new_reputation-Inv cfg start es =
    apply_all-Inv _ es (record { sources_in_range = λ k. tt; dests_sound = λ k. tt })

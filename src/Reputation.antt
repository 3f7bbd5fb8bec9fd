-- ===== src/Reputation.antt =====
-- The IP reputation of wisp/reputation.go, with SourceEntry, DestEntry and Reputation of
-- wisp/types.go: scores of sources and destinations, their tiers, decay and eviction. A time is a
-- number of nanoseconds, and an argument of the call that reads the clock. A destination's key is the
-- pair that fmt.Sprintf("%s:%d") prints, taken as an argument. The float64 product of ForceDecay is
-- the exact one, rounded down. A nil *Reputation is `none`.
pub mod Scores
pub mod Tiers
pub mod Sources
use wispurr.Base.{
  ℕ, ◌+◌, ◌-◌, ◌*◌, ◌/◌, ◌^◌, Bool, true, false, Option, none, some, List, [], ◌∷◌, leb, ltb, ◌==◌,
  if◌then◌else◌, String, not, ◌&&◌, ◌||◌,
}
use wispurr.Base.Int.{ℤ, pos, negsuc, ◌+ℤ◌, ◌-ℤ◌, ltb_ℤ, leb_ℤ}
use wispurr.Base.Map.{Map, empty, insert, retain, map_values, contains, string_key}

pub record Thresholds : Type 0 where
  pub warn : ℤ
  pub throttle : ℤ
  pub strict : ℤ

pub record ReputationConfig : Type 0 where
  pub decay_per_hour : ℤ
  pub evict_after : ℕ
  pub weights : Map String ℤ
  pub dest_weights : Map String ℤ
  pub thresholds : Thresholds

pub record SourceEntry : Type 0 where
  pub score : ℤ
  pub first_seen : ℕ
  pub last_seen : ℕ
  pub events : Map String ℕ

pub record DestEntry : Type 0 where
  pub score : ℤ
  pub first_seen : ℕ
  pub last_seen : ℕ
  pub events : Map String ℕ
  pub distinct_sources : ℕ
  pub seen_sources : List String

pub record Reputation : Type 0 where
  pub cfg : ReputationConfig
  pub sources : Map String SourceEntry
  pub dests : Map String DestEntry
  pub last_decay : ℕ

pub new_reputation : ReputationConfig → ℕ → Reputation
new_reputation cfg now = record { cfg = cfg; sources = empty; dests = empty; last_decay = now }

pub clamp_score : ℤ → ℤ
clamp_score v = if ltb_ℤ v (pos 0) then pos 0 else if ltb_ℤ (pos 100) v then pos 100 else v

abbrev is_zero : ℤ → Bool
is_zero v = leb_ℤ v (pos 0) && leb_ℤ (pos 0) v

-- A map of numbers read at a key that may be missing.
abbrev pub weight : Map String ℤ → String → ℤ
weight m key = elim (m key) [ none ↦ pos 0 | some w ↦ w ]

-- events[reason]++
bump : String → Map String ℕ → Map String ℕ
bump reason events = insert reason (elim (events reason) [ none ↦ 1 | some n ↦ n + 1 ]) events

source_or_new : Option SourceEntry → ℕ → SourceEntry
source_or_new none now = record { score = pos 0; first_seen = now; last_seen = 0; events = empty }
source_or_new (some e) now = e

touch_source : SourceEntry → ℤ → String → ℕ → SourceEntry
unfolding clamp_score bump
touch_source e w reason now = record e {
  last_seen = now;
  events = bump reason e.events;
  score = clamp_score (e.score +ℤ w);
}

pub add_source_on : Reputation → String → String → ℕ → Reputation
unfolding source_or_new touch_source
add_source_on r key reason now = record r {
  sources =
      insert key
        (touch_source (source_or_new (r.sources key) now) (weight r.cfg.weights reason) reason now)
        r.sources;
}

dest_or_new : Option DestEntry → ℕ → DestEntry
dest_or_new none now = record {
  score = pos 0;
  first_seen = now;
  last_seen = 0;
  events = empty;
  distinct_sources = 0;
  seen_sources = [];
}
dest_or_new (some e) now = e

touch_dest : DestEntry → ℤ → String → ℕ → DestEntry
unfolding clamp_score bump
touch_dest e w reason now = record e {
  last_seen = now;
  events = bump reason e.events;
  score = clamp_score (e.score +ℤ w);
}

-- The source of the report, counted once: `esc` is the weight "distinctSourcesEscalation".
see_source : DestEntry → ℤ → Option String → DestEntry
unfolding clamp_score
see_source e esc none = e
see_source e esc (some s) = if contains s e.seen_sources then e else record e {
  seen_sources = s ∷ e.seen_sources;
  distinct_sources = e.distinct_sources + 1;
  score = if is_zero esc then e.score else clamp_score (e.score +ℤ esc);
}

touched_dest : Reputation → String → String → Option String → ℕ → DestEntry
unfolding dest_or_new touch_dest see_source
touched_dest r key reason src now =
    see_source
      (touch_dest (dest_or_new (r.dests key) now) (weight r.cfg.dest_weights reason) reason now)
      (weight r.cfg.dest_weights "distinctSourcesEscalation") src

pub add_dest_on : Reputation → String → String → Option String → ℕ → Reputation
unfolding touched_dest
add_dest_on r key reason src now = record r {
  dests = insert key (touched_dest r key reason src now) r.dests;
}

pub add_source : Option Reputation → String → String → ℕ → Option Reputation
unfolding add_source_on
add_source none key reason now = none
add_source (some r) key reason now = some (add_source_on r key reason now)

pub add_dest : Option Reputation → String → String → Option String → ℕ → Option Reputation
unfolding add_dest_on
add_dest none key reason src now = none
add_dest (some r) key reason src now = some (add_dest_on r key reason src now)

unfoldable pub source_score : Option Reputation → String → ℤ
source_score none key = pos 0
source_score (some r) key = elim (r.sources key) [ none ↦ pos 0 | some e ↦ e.score ]

pub dest_score : Option Reputation → String → ℤ
dest_score none key = pos 0
dest_score (some r) key = elim (r.dests key) [ none ↦ pos 0 | some e ↦ e.score ]

pub data Tier : Type 0 where
  tier_normal tier_warn tier_throttle tier_strict : Tier

tier_on : Thresholds → ℤ → Tier
tier_on t score =
    if ltb_ℤ (pos 0) t.strict && leb_ℤ t.strict score
    then tier_strict
    else if ltb_ℤ (pos 0) t.throttle && leb_ℤ t.throttle score
    then tier_throttle
    else if ltb_ℤ (pos 0) t.warn && leb_ℤ t.warn score
    then tier_warn
    else tier_normal

pub tier : Option Reputation → ℤ → Tier
unfolding tier_on
tier none score = tier_normal
tier (some r) score = tier_on r.cfg.thresholds score

-- int(float64(DecayPerHour) * elapsed.Hours()), of a rate that may be negative.
decay_delta : ℤ → ℕ → ℤ
decay_delta (pos rate) elapsed = pos (rate * elapsed / (3600 * 10 ^ 9))
decay_delta (negsuc rate) elapsed = pos 0 -ℤ pos ((rate + 1) * elapsed / (3600 * 10 ^ 9))

lower_source : ℤ → SourceEntry → SourceEntry
unfolding clamp_score
lower_source delta e = record e { score = clamp_score (e.score -ℤ delta) }

lower_dest : ℤ → DestEntry → DestEntry
unfolding clamp_score
lower_dest delta e = record e { score = clamp_score (e.score -ℤ delta) }

pub force_decay_on : Reputation → ℕ → ℕ → Reputation
unfolding decay_delta lower_source lower_dest
force_decay_on r elapsed now =
    let delta = decay_delta r.cfg.decay_per_hour elapsed in
    if is_zero r.cfg.decay_per_hour || leb_ℤ delta (pos 0) then r else record r {
      sources = map_values (lower_source delta) r.sources;
      dests = map_values (lower_dest delta) r.dests;
      last_decay = now;
    }

-- e.Score < 5 && e.LastSeen.Before(cutoff)
keeps : ℕ → ℤ → ℕ → ℕ → Bool
keeps evict_after score last_seen now =
    not (ltb_ℤ score (pos 5) && ltb (last_seen + evict_after) now)

pub evict_on : Reputation → ℕ → Reputation
unfolding keeps
evict_on r now = if r.cfg.evict_after == 0 then r else record r {
  sources = retain (λ e. keeps r.cfg.evict_after e.score e.last_seen now) r.sources;
  dests = retain (λ e. keeps r.cfg.evict_after e.score e.last_seen now) r.dests;
}

-- One round of RunMaintenance, up to the save.
pub maintain : Reputation → ℕ → Reputation
unfolding force_decay_on evict_on
maintain r now = evict_on (force_decay_on r (now - r.last_decay) now) now

-- ===== src/Reputation/Sources.antt =====
-- What the operations do to the score that a source is read with.
use text.Mathlib.Text.{◌==◌ as str_eq}
use text.Mathlib.TextEquality.{eq_iff}
use wispurr.Base.{ℕ, ◌≡◌, refl, ◌⊎◌, Option, none, some, arith, if◌then◌else◌, String}
use wispurr.Base.Int.{pos, ◌≤ℤ◌, ◌<ℤ◌, ◌+ℤ◌}
use wispurr.Reputation.{
  Reputation, source_score, add_source_on, evict_on, force_decay_on, clamp_score, weight,
  SourceEntry, source_or_new,
}
use wispurr.Reputation.Scores.{InRange}

from_new :
    (o : Option SourceEntry) (now : ℕ)
    → (source_or_new o now).score ≡ (elim o [ none ↦ pos 0 | some e ↦ e.score ])
unfolding source_or_new
from_new none now = refl
from_new (some e) now = refl

-- A report moves the score of its source by the weight of its reason, within 0 and 100, from 0 for a
-- source that is new, and no other source's.
pub source_score-add_source :
    (r : Reputation) (key reason other : String) (now : ℕ)
    → source_score (some (add_source_on r key reason now)) other ≡ (
        if str_eq other key
        then clamp_score (source_score (some r) key +ℤ weight r.cfg.weights reason)
        else source_score (some r) other)
unfolding source_score add_source_on
source_score-add_source r key reason other now =
    ground (arith, eq_iff other key, from_new (r.sources key) now)

-- Eviction takes a source's score back to 0 only from below 5, and leaves any other.
pub source_score-evict :
    (r : Reputation) (key : String) (now : ℕ)
    → (source_score (some (evict_on r now)) key ≡ source_score (some r) key)
      ⊎ ((source_score (some (evict_on r now)) key ≡ pos 0) × (source_score (some r) key <ℤ pos 5))
unfolding source_score evict_on
source_score-evict r key now = ground arith

-- Decay raises no score that is in range.
pub source_score-force_decay :
    (r : Reputation) (key : String) (elapsed now : ℕ)
    → InRange (source_score (some r) key)
    → source_score (some (force_decay_on r elapsed now)) key ≤ℤ source_score (some r) key
unfolding source_score force_decay_on clamp_score
source_score-force_decay r key elapsed now h = ground arith

-- ===== src/Terminals/Orphan.antt =====
-- A terminal whose id is used again.
use wispurr.Base.{ℕ, ◌≡◌, ◌≢◌, List, [], ◌∷◌, true, false, some, get_elem?}
use wispurr.Base.Map.{nat_key}
use wispurr.Protocol.CloseReason
use wispurr.Terminals.{TwispStream, Terminals, adds, Event, starts, exits, closes, ends}

-- An open terminal at an address that the registry does not name.
pub record Orphaned (a : ℕ) (t : Terminals) : Type 0 where
  pub alive :
      (s : TwispStream) × (get_elem? t.store a ≡ some s) × (s.is_open ≡ true) × (s.killed ≡ false)
  pub unnamed : (id : ℕ) → t.streams id ≡ some a → ⊥

-- The terminal does not end by itself.
abbrev pub Lives : ℕ → List Event → Type 0
Lives a [] = Unit {0}
Lives a (exits b reason ∷ rest) = (a ≢ b) × Lives a rest
Lives a (starts id command started ∷ rest) = Lives a rest
Lives a (adds n ∷ rest) = Lives a rest
Lives a (closes id ∷ rest) = Lives a rest
Lives a (ends ∷ rest) = Lives a rest

-- ===== src/Base/Expiring.antt =====
-- Maps whose values lose their meaning with time: what throwing out dead values leaves alone.
use Prim.Native.Nat.{ℕ, ◌≤◌}
use native.Mathlib.Omega.{arith}
use mathlib.Core.Path.{◌≡◌, refl, ◌∙◌}
use mathlib.Core.Bool.{Bool, false}
use mathlib.Core.Option.{Option, none, some}
use mathlib.Core.Logic.{inl, inr}
use wispurr.Base.Tests.{Bool-cases}
use wispurr.Base.Map.{Map, Key, insert, filter, retain}

module _ {κ} {V : Type κ} (live : V → ℕ → Bool) where
  filter_dead :
      (keep : V → Bool) (o : Option V) (t : ℕ)
      → ((v : V) → keep v ≡ false → live v t ≡ false)
      → filter (λ v. live v t) (filter keep o) ≡ filter (λ v. live v t) o
  filter_dead keep none t h = refl
  filter_dead keep (some v) t h = elim (Bool-cases (keep v)) [
    | inl e ↦ rw e refl
    | inr e ↦ let d = h v e in rw (e, d) refl
  ]

module _ {ℓ κ} {K : Type ℓ} {V : Type κ} ⦃key : Key K⦄ (live : V → ℕ → Bool) where
  -- The value of a key, if it counts at that time.
  abbrev pub view : Map K V → K → ℕ → Option V
  view m k t = filter (λ v. live v t) (m k)

  -- Between the maps no look from now on can tell.
  abbrev pub Alike : ℕ → Map K V → Map K V → Type (ℓ ⊔ κ)
  Alike now m n = (k : K) (t : ℕ) → now ≤ t → view m k t ≡ view n k t

  pub Alike-later : (now later : ℕ) (m n : Map K V) → now ≤ later → Alike now m n → Alike later m n
  Alike-later now later m n h a k t g = a k t (omega (arith, h, g))

  pub Alike-insert :
      (now : ℕ) (m n : Map K V) (k : K) (v : V)
      → Alike now m n
      → Alike now (insert k v m) (insert k v n)
  Alike-insert now m n k v a j t g = elim (Bool-cases (key.same j k)) [
    | inl e ↦ rw e refl
    | inr e ↦ rw e (a j t g)
  ]

  pub Alike-retain :
      (now : ℕ) (m n : Map K V) (keep : V → Bool)
      → ((v : V) (t : ℕ) → now ≤ t → keep v ≡ false → live v t ≡ false)
      → Alike now m n
      → Alike now (retain keep m) n
  Alike-retain now m n keep h a k t g = filter_dead live keep (m k) t (λ v e. h v t g e) ∙ a k t g

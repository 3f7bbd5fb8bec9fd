-- ===== src/Base/Map.antt =====
-- Go maps that are only read, written, deleted from and filtered: functions from keys.
use Prim.Native.String.{String}
use text.Mathlib.Text.{◌==◌ as str_eq}
use text.Mathlib.TextEquality.{eq_iff}
use mathlib.Core.Option
use wispurr.Base.{
  ℕ, ◌≡◌, refl, ◌↔◌, Bool, true, false, ◌||◌, ◌&&◌, arith, Option, none, some, List, [], ◌∷◌,
  ◌==◌ as nat_eq, ==_iff, if◌then◌else◌, Bool-cases, inl, inr,
}

-- A type of keys that Go compares by ==.
pub record Key {ℓ} (K : Type ℓ) : Type ℓ where
  pub same : K → K → Bool
  pub same_iff : (a b : K) → (same a b ≡ true) ↔ (a ≡ b)

instance abbrev pub nat_key : Key ℕ
nat_key = record { same = nat_eq; same_iff = ==_iff }

instance abbrev pub string_key : Key String
string_key = record { same = str_eq; same_iff = eq_iff }

-- Byte strings, compared as Go compares strings.
abbrev pub same_list : List ℕ → List ℕ → Bool
same_list [] [] = true
same_list [] (y ∷ ys) = false
same_list (x ∷ xs) [] = false
same_list (x ∷ xs) (y ∷ ys) = nat_eq x y && same_list xs ys

pub same_list_iff : (xs ys : List ℕ) → (same_list xs ys ≡ true) ↔ (xs ≡ ys)
same_list_iff [] [] = (λ e. refl, λ e. refl)
same_list_iff [] (y ∷ ys) = (λ e. cc, λ e. cc)
same_list_iff (x ∷ xs) [] = (λ e. cc, λ e. cc)
same_list_iff (x ∷ xs) (y ∷ ys) =
    (λ e. ground (arith, same_list_iff xs ys), λ e. ground (arith, same_list_iff xs ys))

instance abbrev pub bytes_key : Key (List ℕ)
bytes_key = record { same = same_list; same_iff = same_list_iff }

abbrev pub Map {ℓ κ} : Type ℓ → Type κ → Type (ℓ ⊔ κ)
Map K V = K → Option V

abbrev pub empty {ℓ κ} : {K : Type ℓ} {V : Type κ} → Map K V
empty k = none

-- delete(m, k) for each k whose value fails the test; and an update of every value.
abbrev pub filter {κ} : {V : Type κ} → (V → Bool) → Option V → Option V
filter keep none = none
filter keep (some v) = if keep v then some v else none

abbrev pub retain {ℓ κ} : {K : Type ℓ} {V : Type κ} → (V → Bool) → Map K V → Map K V
retain keep m k = filter keep (m k)

abbrev pub map_values {ℓ κ} : {K : Type ℓ} {V : Type κ} → (V → V) → Map K V → Map K V
map_values f m k = Option.map f (m k)

module _ {ℓ κ} {K : Type ℓ} {V : Type κ} ⦃key : Key K⦄ where
  -- m[k] = v
  abbrev pub insert : K → V → Map K V → Map K V
  insert k v m j = if key.same j k then some v else m j

  -- delete(m, k)
  abbrev pub delete : K → Map K V → Map K V
  delete k m j = if key.same j k then none else m j

module _ {ℓ} {K : Type ℓ} ⦃key : Key K⦄ where
  -- Membership in a set, which Go writes as a map to struct{}.
  abbrev pub contains : K → List K → Bool
  contains k [] = false
  contains k (j ∷ js) = key.same k j || contains k js

  pub same_refl : (k : K) → key.same k k ≡ true
  same_refl k = (key.same_iff k k).1 refl

-- A property of the value, if there is one; and of all values of a map.
abbrev pub Holds {ℓ κ} : {V : Type ℓ} → (V → Type κ) → Option V → Type κ
Holds P none = Unit
Holds P (some v) = P v

abbrev pub AllValues {ℓ κ μ} : {K : Type ℓ} {V : Type κ} → (V → Type μ) → Map K V → Type (ℓ ⊔ μ)
AllValues {K} P m = (k : K) → Holds P (m k)

module _ {ℓ κ μ} {K : Type ℓ} {V : Type κ} (P : V → Type μ) where
  pub AllValues-insert :
      ⦃key : Key K⦄ (k : K) (v : V) (m : Map K V) → P v → AllValues P m → AllValues P (insert k v m)
  AllValues-insert ⦃key⦄ k v m h hm j = elim (Bool-cases (key.same j k)) [
    | inl e ↦ rw e h
    | inr e ↦ rw e (hm j)
  ]

module _ {κ μ} {V : Type κ} (P : V → Type μ) where
  pub Holds-retain : (keep : V → Bool) (o : Option V) → Holds P o → Holds P (filter keep o)
  Holds-retain keep none h = h
  Holds-retain keep (some v) h = elim (Bool-cases (keep v)) [ inl e ↦ rw e h | inr e ↦ rw e tt ]

  pub Holds-map :
      (f : V → V) (o : Option V) → ((v : V) → P v → P (f v)) → Holds P o → Holds P (Option.map f o)
  Holds-map f none hf h = h
  Holds-map f (some v) hf h = hf v h

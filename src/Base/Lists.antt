-- ===== src/Base/Lists.antt =====
-- Slices as lists measured by native numbers.
use Prim.Native.Nat.{ℕ, zero, suc, ◌+◌, ◌-◌, ◌≤◌, min}
use mathlib.Core.Path.{◌≡◌, refl, ap, sym, ◌∙◌}
use mathlib.Core.Option.{Option, none, some}
use mathlib.Core.Logic.{◌⊎◌, inl, inr}
use mathlib.Core.List.{List, [], ◌∷◌, ◌++◌}
use native.Mathlib.Omega.{arith}
use wispurr.Base.Tests.{nat_cases}

module _ {ℓ} {A : Type ℓ} where
  abbrev pub length : List A → ℕ
  length [] = 0
  length (x ∷ xs) = suc (length xs)

  abbrev pub take : ℕ → List A → List A
  take zero xs = []
  take (suc n) [] = []
  take (suc n) (x ∷ xs) = x ∷ take n xs

  abbrev pub drop : ℕ → List A → List A
  drop zero xs = xs
  drop (suc n) [] = []
  drop (suc n) (x ∷ xs) = drop n xs

  abbrev pub get_or : List A → ℕ → A → A
  get_or [] i d = d
  get_or (x ∷ xs) zero d = x
  get_or (x ∷ xs) (suc i) d = get_or xs i d

  abbrev pub get_elem? : List A → ℕ → Option A
  get_elem? [] i = none
  get_elem? (x ∷ xs) zero = some x
  get_elem? (x ∷ xs) (suc i) = get_elem? xs i

  abbrev pub replicate : ℕ → A → List A
  replicate zero a = []
  replicate (suc n) a = a ∷ replicate n a

  -- A write out of bounds changes nothing.
  abbrev pub set : List A → ℕ → A → List A
  set [] i v = []
  set (x ∷ xs) zero v = v ∷ xs
  set (x ∷ xs) (suc i) v = x ∷ set xs i v

  abbrev pub All {κ} : (A → Type κ) → List A → Type κ
  All P [] = Unit {κ}
  All P (x ∷ xs) = P x × All P xs

  pub length-append : (xs ys : List A) → length (xs ++ ys) ≡ length xs + length ys
  length-append [] ys = omega arith
  length-append (x ∷ xs) ys = omega (arith, length-append xs ys)

  pub length-drop : (n : ℕ) (xs : List A) → length (drop n xs) ≡ length xs - n
  length-drop zero xs = omega arith
  length-drop (suc n) [] = omega arith
  length-drop (suc n) (x ∷ xs) = omega (arith, length-drop n xs)

  pub length-take : (n : ℕ) (xs : List A) → length (take n xs) ≡ min n (length xs)
  length-take zero xs = omega arith
  length-take (suc n) [] = omega arith
  length-take (suc n) (x ∷ xs) = omega (arith, length-take n xs)

  -- A prefix and what follows it come apart at the prefix's length.
  pub take-append : (xs ys : List A) → take (length xs) (xs ++ ys) ≡ xs
  take-append [] ys = refl
  take-append (x ∷ xs) ys = ap (◌∷◌ x) (take-append xs ys)

  pub drop-append : (xs ys : List A) → drop (length xs) (xs ++ ys) ≡ ys
  drop-append [] ys = refl
  drop-append (x ∷ xs) ys = drop-append xs ys

  pub All-append {κ} : (P : A → Type κ) (xs ys : List A) → All P xs → All P ys → All P (xs ++ ys)
  All-append P [] ys hx hy = hy
  All-append P (x ∷ xs) ys hx hy = (hx.0, All-append P xs ys hx.1 hy)

  pub take-append_eq : (n : ℕ) (xs ys : List A) → n ≡ length xs → take n (xs ++ ys) ≡ xs
  take-append_eq n xs ys h = rw h (take-append xs ys)

  pub take-append-drop : (n : ℕ) (xs : List A) → take n xs ++ drop n xs ≡ xs
  take-append-drop zero xs = refl
  take-append-drop (suc n) [] = refl
  take-append-drop (suc n) (x ∷ xs) = ap (◌∷◌ x) (take-append-drop n xs)

  pub All-drop {κ} : (P : A → Type κ) (n : ℕ) (xs : List A) → All P xs → All P (drop n xs)
  All-drop P zero xs h = h
  All-drop P (suc n) [] h = h
  All-drop P (suc n) (x ∷ xs) h = All-drop P n xs h.1

  pub All-take {κ} : (P : A → Type κ) (n : ℕ) (xs : List A) → All P xs → All P (take n xs)
  All-take P zero xs h = tt
  All-take P (suc n) [] h = h
  All-take P (suc n) (x ∷ xs) h = (h.0, All-take P n xs h.1)

  pub take-take : (m n : ℕ) (xs : List A) → m ≤ n → take m (take n xs) ≡ take m xs
  take-take zero n xs h = refl
  take-take (suc m) zero xs h = absurd (omega arith)
  take-take (suc m) (suc n) [] h = refl
  take-take (suc m) (suc n) (x ∷ xs) h = ap (◌∷◌ x) (take-take m n xs (omega arith))

  pub drop-take : (m n k : ℕ) (xs : List A) → m + k ≡ n → drop m (take n xs) ≡ take k (drop m xs)
  drop-take zero n k xs h = let e : n ≡ k = omega arith in rw e
  drop-take (suc m) zero k xs h = absurd (omega arith)
  drop-take (suc m) (suc n) zero [] h = refl
  drop-take (suc m) (suc n) (suc k) [] h = refl
  drop-take (suc m) (suc n) k (x ∷ xs) h = drop-take m n k xs (omega arith)

  pub drop-drop : (m n k : ℕ) (xs : List A) → m + n ≡ k → drop n (drop m xs) ≡ drop k xs
  drop-drop zero n k xs h = let e : n ≡ k = omega arith in rw e
  drop-drop (suc m) n zero xs h = absurd (omega arith)
  drop-drop (suc m) zero (suc k) [] h = refl
  drop-drop (suc m) (suc n) (suc k) [] h = refl
  drop-drop (suc m) n (suc k) (x ∷ xs) h = drop-drop m n k xs (omega arith)

  pub take-append_le : (n : ℕ) (xs ys : List A) → n ≤ length xs → take n (xs ++ ys) ≡ take n xs
  take-append_le zero xs ys h = refl
  take-append_le (suc n) [] ys h = absurd (omega arith)
  take-append_le (suc n) (x ∷ xs) ys h = ap (◌∷◌ x) (take-append_le n xs ys (omega arith))

  pub drop-append_le :
      (n : ℕ) (xs ys : List A) → n ≤ length xs → drop n (xs ++ ys) ≡ drop n xs ++ ys
  drop-append_le zero xs ys h = refl
  drop-append_le (suc n) [] ys h = absurd (omega arith)
  drop-append_le (suc n) (x ∷ xs) ys h = drop-append_le n xs ys (omega arith)

  pub take-append_ge :
      (n k : ℕ) (xs ys : List A) → length xs + k ≡ n → take n (xs ++ ys) ≡ xs ++ take k ys
  take-append_ge n k [] ys h = let e : n ≡ k = omega arith in rw e
  take-append_ge zero k (x ∷ xs) ys h = absurd (omega arith)
  take-append_ge (suc n) k (x ∷ xs) ys h = ap (◌∷◌ x) (take-append_ge n k xs ys (omega arith))

  pub drop-append_ge :
      (n k : ℕ) (xs ys : List A) → length xs + k ≡ n → drop n (xs ++ ys) ≡ drop k ys
  drop-append_ge n k [] ys h = let e : n ≡ k = omega arith in rw e
  drop-append_ge zero k (x ∷ xs) ys h = absurd (omega arith)
  drop-append_ge (suc n) k (x ∷ xs) ys h = drop-append_ge n k xs ys (omega arith)

  -- A list with one element changed, or one more.
  pub get_elem?-set_same :
      (xs : List A) (i : ℕ) (s t : A) → get_elem? xs i ≡ some s → get_elem? (set xs i t) i ≡ some t
  get_elem?-set_same [] i s t e = cc
  get_elem?-set_same (x ∷ xs) zero s t e = refl
  get_elem?-set_same (x ∷ xs) (suc i) s t e = get_elem?-set_same xs i s t e

  pub get_elem?-set_other :
      (xs : List A) (i j : ℕ) (t : A) → (j ≡ i → ⊥) → get_elem? (set xs i t) j ≡ get_elem? xs j
  get_elem?-set_other [] i j t n = refl
  get_elem?-set_other (x ∷ xs) zero zero t n = absurd (n refl)
  get_elem?-set_other (x ∷ xs) zero (suc j) t n = refl
  get_elem?-set_other (x ∷ xs) (suc i) zero t n = refl
  get_elem?-set_other (x ∷ xs) (suc i) (suc j) t n =
      get_elem?-set_other xs i j t (λ e. n (ap suc e))

  pub get_elem?-append :
      (xs : List A) (i : ℕ) (s t : A)
      → get_elem? xs i ≡ some s
      → get_elem? (xs ++ (t ∷ [])) i ≡ some s
  get_elem?-append [] i s t e = cc
  get_elem?-append (x ∷ xs) zero s t e = e
  get_elem?-append (x ∷ xs) (suc i) s t e = get_elem?-append xs i s t e

  pub get_elem?-last : (xs : List A) (t : A) → get_elem? (xs ++ (t ∷ [])) (length xs) ≡ some t
  get_elem?-last [] t = refl
  get_elem?-last (x ∷ xs) t = get_elem?-last xs t

  pub last-cases :
      (xs : List A) (i : ℕ) (s t : A)
      → get_elem? (xs ++ (t ∷ [])) i ≡ some s
      → (get_elem? xs i ≡ some s) ⊎ ((i ≡ length xs) × (t ≡ s))
  last-cases [] zero s t e = inr (refl, cc)
  last-cases [] (suc i) s t e = cc
  last-cases (x ∷ xs) zero s t e = inl e
  last-cases (x ∷ xs) (suc i) s t e = elim (last-cases xs i s t e) [
    | inl h ↦ inl h
    | inr (h, k) ↦ inr (ap suc h, k)
  ]

  -- Two reads of one place.
  pub one_some : (o : Option A) (s t : A) → o ≡ some s → o ≡ some t → s ≡ t
  one_some o s t e f = cc

  pub set-cases :
      (store : List A) (s t u : A) (a b : ℕ)
      → get_elem? store a ≡ some s
      → get_elem? (set store a t) b ≡ some u
      → ((b ≡ a) × (t ≡ u)) ⊎ ((b ≡ a → ⊥) × (get_elem? store b ≡ some u))
  set-cases store s t u a b e f = elim (nat_cases b a) [
    | inl k ↦ inl (
      k,
      one_some _ t u (get_elem?-set_same store a s t e)
          (sym (ap (get_elem? (set store a t)) k) ∙ f),
    )
    | inr n ↦ inr (n, sym (get_elem?-set_other store a b t n) ∙ f)
  ]

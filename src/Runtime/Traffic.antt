-- ===== src/Runtime/Traffic.antt =====
-- The connections of the map `active` (wisp/runtime.go): their ids, and sums over them.
use mathlib.Core.Path.{subst}
use wispurr.Base.{
  ==_iff, if_then, if_else, ℕ, suc, ◌+◌, ◌≡◌, refl, sym, ap, ◌∙◌, List, [], ◌∷◌, Bool, true, false,
  ◌||◌, none, some, arith, length, ◌==◌, if◌then◌else◌, Bool-cases, inl, inr,
}
use wispurr.Runtime.{ActiveConnection, word, count_in, find_connection, without}

unfoldable pub has : ℕ → List ℕ → Bool
has id [] = false
has id (x ∷ xs) = (x == id) || has id xs

unfoldable pub remove : ℕ → List ℕ → List ℕ
remove id [] = []
remove id (x ∷ xs) = let others = remove id xs in if x == id then others else x ∷ others

abbrev pub ids : List ActiveConnection → List ℕ
ids [] = []
ids (c ∷ rest) = c.conn_id ∷ ids rest

abbrev pub sum : (ActiveConnection → ℕ) → List ActiveConnection → ℕ
sum f [] = 0
sum f (c ∷ rest) = f c + sum f rest

abbrev pub Distinct : List ℕ → Type 0
Distinct [] = Unit {0}
Distinct (x ∷ xs) = (has x xs ≡ false) × Distinct xs

pub length-ids : (cs : List ActiveConnection) → length (ids cs) ≡ length cs
length-ids [] = refl
length-ids (c ∷ rest) = ap suc (length-ids rest)

pub ids-without : (id : ℕ) (cs : List ActiveConnection) → ids (without id cs) ≡ remove id (ids cs)
unfolding without remove
ids-without id [] = refl
ids-without id (c ∷ rest) = elim (Bool-cases (c.conn_id == id)) [
  | inl e ↦ rw e (ids-without id rest)
  | inr e ↦ rw e (ap (◌∷◌ c.conn_id) (ids-without id rest))
]

pub ids-count_in : (id n m : ℕ) (cs : List ActiveConnection) → ids (count_in id n m cs) ≡ ids cs
unfolding count_in
ids-count_in id n m [] = refl
ids-count_in id n m (c ∷ rest) = elim (Bool-cases (c.conn_id == id)) [
  | inl e ↦ rw e (ap (◌∷◌ c.conn_id) (ids-count_in id n m rest))
  | inr e ↦ rw e (ap (◌∷◌ c.conn_id) (ids-count_in id n m rest))
]

both_false : (a b : Bool) → (a || b) ≡ false → (a ≡ false) × (b ≡ false)
both_false true b h = cc
both_false false b h = (refl, h)

neither : (a b : Bool) → a ≡ false → b ≡ false → (a || b) ≡ false
neither true b h k = cc
neither false b h k = k

pub has-remove : (id x : ℕ) (xs : List ℕ) → has x xs ≡ false → has x (remove id xs) ≡ false
unfolding has remove
has-remove id x [] h = refl
has-remove id x (y ∷ ys) h = elim (Bool-cases (y == id)) [
  | inl e ↦ rw e (has-remove id x ys (both_false _ _ h).1)
  | inr e ↦ rw e (neither _ _ (both_false _ _ h).0 (has-remove id x ys (both_false _ _ h).1))
]

pub remove-Distinct : (id : ℕ) (xs : List ℕ) → Distinct xs → Distinct (remove id xs)
unfolding remove
remove-Distinct id [] d = tt
remove-Distinct id (x ∷ xs) d = elim (Bool-cases (x == id)) [
  | inl e ↦ rw e (remove-Distinct id xs d.1)
  | inr e ↦ rw e (has-remove id x xs d.0, remove-Distinct id xs d.1)
]

-- An id that is nowhere.
pub without_absent :
    (id : ℕ) (cs : List ActiveConnection) → has id (ids cs) ≡ false → without id cs ≡ cs
unfolding without has
without_absent id [] h = refl
without_absent id (c ∷ rest) h = elim (Bool-cases (c.conn_id == id)) [
  | inl e ↦ absurd (ground (arith, e, (both_false (c.conn_id == id) (has id (ids rest)) h).0))
  | inr e ↦ rw e (ap (◌∷◌ c) (without_absent id rest (both_false _ _ h).1))
]

pub count_in_absent :
    (id n m : ℕ) (cs : List ActiveConnection) → has id (ids cs) ≡ false → count_in id n m cs ≡ cs
unfolding count_in has
count_in_absent id n m [] h = refl
count_in_absent id n m (c ∷ rest) h = elim (Bool-cases (c.conn_id == id)) [
  | inl e ↦ absurd (ground (arith, e, (both_false (c.conn_id == id) (has id (ids rest)) h).0))
  | inr e ↦ rw e (ap (◌∷◌ c) (count_in_absent id n m rest (both_false _ _ h).1))
]

module _ (f : ActiveConnection → ℕ) (n m k : ℕ)
    (counted : (c : ActiveConnection)
      → f (record c {
        ingress_bytes = word (c.ingress_bytes + n);
        egress_bytes = word (c.egress_bytes + m);
      })
        ≡ word (f c + k)) where
  pub sum-count_in :
      (id : ℕ) (cs : List ActiveConnection)
      → Distinct (ids cs)
      → has id (ids cs) ≡ true
      → word (sum f (count_in id n m cs)) ≡ word (sum f cs + k)
  unfolding count_in has
  sum-count_in id [] d h = cc
  sum-count_in id (c ∷ rest) d h = elim (Bool-cases (c.conn_id == id)) [
    | inl e ↦
        let same : c.conn_id ≡ id = (==_iff c.conn_id id).0 e in
        let absent : has id (ids rest) ≡ false = subst (λ x. has x (ids rest) ≡ false) same d.0 in
        rw (e, count_in_absent id n m rest absent) (omega (arith, counted c))
    | inr e ↦
        let others : has id (ids rest) ≡ true = ap (λ b. b || has id (ids rest)) (sym e) ∙ h in
        rw e (omega (arith, sum-count_in id rest d.1 others))
  ]

pub sum-without :
    (f : ActiveConnection → ℕ) (id : ℕ) (cs : List ActiveConnection) (c : ActiveConnection)
    → Distinct (ids cs)
    → find_connection id cs ≡ some c
    → sum f (without id cs) + f c ≡ sum f cs
unfolding without find_connection
sum-without f id [] c d h = cc
sum-without f id (x ∷ rest) c d h = elim (Bool-cases (x.conn_id == id)) [
  | inl e ↦
      let same : x.conn_id ≡ id = (==_iff x.conn_id id).0 e in
      let absent : has id (ids rest) ≡ false = subst (λ i. has i (ids rest) ≡ false) same d.0 in
      let found : some x ≡ some c = sym (if_then _ (some x) (find_connection id rest) e) ∙ h in
      let it : x ≡ c = cc in rw (e, without_absent id rest absent, sym it) (omega arith)
  | inr e ↦ rw e (
      omega (
        arith,
        sum-without f id rest c d.1 (sym (if_else _ (some x) (find_connection id rest) e) ∙ h),
      ))
]

-- A connection that is not found is not there.
pub find_connection-none :
    (id : ℕ) (cs : List ActiveConnection) → find_connection id cs ≡ none → has id (ids cs) ≡ false
unfolding find_connection has
find_connection-none id [] h = refl
find_connection-none id (c ∷ rest) h = elim (Bool-cases (c.conn_id == id)) [
  | inl e ↦ (let k : some c ≡ none = sym (if_then _ (some c) (find_connection id rest) e) ∙ h in cc)
  | inr e ↦
      neither _ _ e
        (find_connection-none id rest (sym (if_else _ (some c) (find_connection id rest) e) ∙ h))
]

pub find_connection-id :
    (id : ℕ) (cs : List ActiveConnection) (c : ActiveConnection)
    → find_connection id cs ≡ some c
    → c.conn_id ≡ id
unfolding find_connection
find_connection-id id [] c h = cc
find_connection-id id (x ∷ rest) c h = elim (Bool-cases (x.conn_id == id)) [
  | inl e ↦
      let found : some x ≡ some c = sym (if_then _ (some x) (find_connection id rest) e) ∙ h in
      let it : x ≡ c = cc in ap (λ y. y.conn_id) (sym it) ∙ (==_iff x.conn_id id).0 e
  | inr e ↦ find_connection-id id rest c (sym (if_else _ (some x) (find_connection id rest) e) ∙ h)
]

pub remove_absent : (id : ℕ) (xs : List ℕ) → has id xs ≡ false → remove id xs ≡ xs
unfolding remove has
remove_absent id [] h = refl
remove_absent id (x ∷ xs) h =
    let (here, later) = both_false (x == id) (has id xs) h in
    rw here (ap (◌∷◌ x) (remove_absent id xs later))

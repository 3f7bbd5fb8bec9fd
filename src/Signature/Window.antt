-- ===== src/Signature/Window.antt =====
-- The ring of a detector and the window of time that it covers.
use wispurr.Base.{
  ℕ, suc, ◌+◌, ◌≤◌, ◌≡◌, refl, sym, ap, ◌∙◌, List, [], ◌∷◌, ◌++◌, append_assoc, ltb, arith,
  if_intro, if◌then◌else◌, Bool-cases, inl, inr,
}
use wispurr.Signature.{Sample, drop_stale, record_sample, record_all}

-- The samples of the window that ends at `now`, in their order.
abbrev pub fresh : ℕ → ℕ → List Sample → List Sample
fresh window now [] = []
fresh window now (s ∷ rest) =
    let later = fresh window now rest in if ltb (s.time + window) now then later else s ∷ later

abbrev pub last_time : ℕ → List Sample → ℕ
last_time t [] = t
last_time t (s ∷ rest) = last_time s.time rest

-- Times that do not go back, from `lo` on.
abbrev pub Ordered : ℕ → List Sample → Type 0
Ordered lo [] = Unit {0}
Ordered lo (s ∷ rest) = (lo ≤ s.time) × Ordered s.time rest

Ordered-weaken : (lo hi : ℕ) (xs : List Sample) → lo ≤ hi → Ordered hi xs → Ordered lo xs
Ordered-weaken lo hi [] h o = tt
Ordered-weaken lo hi (s ∷ rest) h o = (omega (arith, o.0), o.1)

all_fresh :
    (window now lo : ℕ) (xs : List Sample)
    → now ≤ lo + window
    → Ordered lo xs
    → fresh window now xs ≡ xs
all_fresh window now lo [] h o = refl
all_fresh window now lo (s ∷ rest) h o =
    let e : now ≤ s.time + window = omega (arith, o.0) in
    ground (arith, e, all_fresh window now s.time rest e o.1)

drop_stale-fresh :
    (window now lo : ℕ) (xs : List Sample)
    → Ordered lo xs
    → drop_stale window now xs ≡ fresh window now xs
unfolding drop_stale
drop_stale-fresh window now lo [] o = refl
drop_stale-fresh window now lo (s ∷ rest) o =
    let h = drop_stale-fresh window now s.time rest o.1 in
    elim (Bool-cases (ltb (s.time + window) now)) [
      | inl e ↦ ground (arith, e, h)
      | inr e ↦
          let k : now ≤ s.time + window = ground (arith, e) in
          ground (arith, e, all_fresh window now s.time rest k o.1)
    ]

fresh-append :
    (window now : ℕ) (xs ys : List Sample)
    → fresh window now (xs ++ ys) ≡ fresh window now xs ++ fresh window now ys
fresh-append window now [] ys = refl
fresh-append window now (s ∷ rest) ys = ground (arith, fresh-append window now rest ys)

fresh-fresh :
    (window now later : ℕ) (xs : List Sample)
    → now ≤ later
    → fresh window later (fresh window now xs) ≡ fresh window later xs
fresh-fresh window now later [] h = refl
fresh-fresh window now later (s ∷ rest) h = ground (arith, h, fresh-fresh window now later rest h)

fresh-Ordered :
    (window now lo : ℕ) (xs ys : List Sample)
    → Ordered lo (xs ++ ys)
    → Ordered lo (fresh window now xs ++ ys)
fresh-Ordered window now lo [] ys o = o
fresh-Ordered window now lo (s ∷ rest) ys o =
    let h = fresh-Ordered window now s.time rest ys o.1 in
    if_intro (λ xs. Ordered lo (xs ++ ys)) (ltb (s.time + window) now) _ _
      (λ e. Ordered-weaken lo s.time (fresh window now rest ++ ys) o.0 h) (λ e. (o.0, h))

Ordered-prefix : (lo : ℕ) (xs ys : List Sample) → Ordered lo (xs ++ ys) → Ordered lo xs
Ordered-prefix lo [] ys o = tt
Ordered-prefix lo (s ∷ rest) ys o = (o.0, Ordered-prefix s.time rest ys o.1)

last_time-le : (t : ℕ) (xs : List Sample) → Ordered t xs → t ≤ last_time t xs
last_time-le t [] o = omega arith
last_time-le t (s ∷ rest) o = omega (arith, o.0, last_time-le s.time rest o.1)

Ordered-tail :
    (lo : ℕ) (xs : List Sample) (s : Sample) (rest : List Sample)
    → Ordered lo (xs ++ (s ∷ rest))
    → Ordered s.time rest
Ordered-tail lo [] s rest o = o.1
Ordered-tail lo (x ∷ xs) s rest o = Ordered-tail x.time xs s rest o.1

recorded :
    (w lo : ℕ) (ring : List Sample) (s : Sample)
    → Ordered lo (ring ++ (s ∷ []))
    → record_sample (suc w) ring s ≡ fresh (suc w) s.time (ring ++ (s ∷ []))
unfolding record_sample
recorded w lo ring s o = drop_stale-fresh (suc w) s.time lo (ring ++ (s ∷ [])) o

fresh_again :
    (w now later : ℕ) (xs ys : List Sample)
    → now ≤ later
    → fresh (suc w) later (fresh (suc w) now xs ++ ys) ≡ fresh (suc w) later (xs ++ ys)
fresh_again w now later xs ys h =
    fresh-append (suc w) later (fresh (suc w) now xs) ys
    ∙ ap (λ zs. zs ++ fresh (suc w) later ys) (fresh-fresh (suc w) now later xs h)
    ∙ sym (fresh-append (suc w) later xs ys)

record_all-ring :
    (w lo : ℕ) (ring : List Sample) (s : Sample) (rest : List Sample)
    → Ordered lo (ring ++ (s ∷ rest))
    → record_all (suc w) ring (s ∷ rest)
      ≡ fresh (suc w) (last_time s.time rest) (ring ++ (s ∷ rest))
unfolding record_all
record_all-ring w lo ring s [] o = recorded w lo ring s o
record_all-ring w lo ring s (t ∷ rest) o =
    let split : (ring ++ (s ∷ [])) ++ (t ∷ rest) ≡ ring ++ (s ∷ t ∷ rest) =
      append_assoc ring (s ∷ []) (t ∷ rest) in
    let p : Ordered lo ((ring ++ (s ∷ [])) ++ (t ∷ rest)) = rw split o in
    let kept = recorded w lo ring s (Ordered-prefix lo (ring ++ (s ∷ [])) (t ∷ rest) p) in
    let later : s.time ≤ last_time t.time rest =
      last_time-le s.time (t ∷ rest) (Ordered-tail lo ring s (t ∷ rest) o) in
    ap (λ r. record_all (suc w) r (t ∷ rest)) kept
    ∙ record_all-ring w lo (fresh (suc w) s.time (ring ++ (s ∷ []))) t rest
        (fresh-Ordered (suc w) s.time lo (ring ++ (s ∷ [])) (t ∷ rest) p)
    ∙ fresh_again w s.time (last_time t.time rest) (ring ++ (s ∷ [])) (t ∷ rest) later
    ∙ ap (fresh (suc w) (last_time t.time rest)) split

-- With a window that is not zero and a clock that does not go back, the ring of a detector holds, after
-- any number of records, the samples of the window that ends with the last of them, all of them and in
-- their order.
pub record_all-fresh :
    (w : ℕ) (s : Sample) (rest : List Sample)
    → Ordered s.time rest
    → record_all (suc w) [] (s ∷ rest) ≡ fresh (suc w) (last_time s.time rest) (s ∷ rest)
record_all-fresh w s rest o = record_all-ring w 0 [] s rest (omega arith, o)

-- ===== src/Signature/Verdict.antt =====
-- The detector of one connection and target among the dials of all.
use wispurr.Base.{
  ℕ, suc, ◌≡◌, refl, sym, ap, ◌∙◌, List, [], ◌∷◌, ◌++◌, Bool, true, ◌&&◌, none, String, ◌==◌,
  ==_iff, arith, if_then, if◌then◌else◌, Bool-cases, inl, inr,
}
use wispurr.Base.Map.{string_key}
use wispurr.Signature.{
  Sample, SignatureConfig, Rings, ring_of, record_sample, record_all, record_for, forget, matches,
}
use wispurr.Signature.Window.{fresh, last_time, Ordered, record_all-fresh}

-- A dial that is recorded, and the end of a connection.
pub data Event : Type 0 where
  tries : ℕ → String → Sample → Event
  forgets : ℕ → Event

unfoldable pub run : SignatureConfig → Rings → List Event → Rings
run cfg rings [] = rings
run cfg rings (tries conn_id target s ∷ rest) = run cfg (record_for cfg rings conn_id target s) rest
run cfg rings (forgets conn_id ∷ rest) = run cfg (forget rings conn_id) rest

-- The samples of a connection and a target, since the connection was last forgotten.
abbrev pub own : ℕ → String → List Sample → List Event → List Sample
own c k acc [] = acc
own c k acc (tries conn_id target s ∷ rest) =
    own c k (if (c == conn_id) && string_key.same k target then acc ++ (s ∷ []) else acc) rest
own c k acc (forgets conn_id ∷ rest) = own c k (if c == conn_id then [] else acc) rest

record_all-last :
    (w : ℕ) (ring xs : List Sample) (s : Sample)
    → record_all w ring (xs ++ (s ∷ [])) ≡ record_sample w (record_all w ring xs) s
unfolding record_all
record_all-last w ring [] s = refl
record_all-last w ring (x ∷ xs) s = record_all-last w (record_sample w ring x) xs s

record_for-own :
    (cfg : SignatureConfig) (rings : Rings) (conn_id : ℕ) (target : String) (s : Sample) (c : ℕ)
    (k : String)
    → cfg.enabled ≡ true
    → ring_of (record_for cfg rings conn_id target s c k) ≡ (
        if (c == conn_id) && string_key.same k target
        then record_sample cfg.window (ring_of (rings c k)) s
        else ring_of (rings c k))
unfolding record_for ring_of
record_for-own cfg rings conn_id target s c k e = elim (Bool-cases (c == conn_id)) [
  | inl p ↦ elim (Bool-cases (string_key.same k target)) [
    | inl q ↦
        let same_conn : c ≡ conn_id = (==_iff c conn_id).0 p in
        let same_key : k ≡ target = (string_key.same_iff k target).0 q in
        let r : ring_of (rings conn_id target) ≡ ring_of (rings c k) =
          ap (λ x. ring_of (rings x target)) (sym same_conn)
          ∙ ap (λ x. ring_of (rings c x)) (sym same_key) in
        rw (e, p, q) (ap (λ x. record_sample cfg.window x s) r)
    | inr q ↦
        let same_conn : c ≡ conn_id = (==_iff c conn_id).0 p in
        rw (e, p, q) (ap (λ x. ring_of (rings x k)) (sym same_conn))
  ]
  | inr p ↦ rw (e, p) refl
]

module _ (cfg : SignatureConfig) (enabled : cfg.enabled ≡ true) (c : ℕ) (k : String) where
  tried :
      (rings : Rings) (acc : List Sample) (conn_id : ℕ) (target : String) (s : Sample)
      → ring_of (rings c k) ≡ record_all cfg.window [] acc
      → ring_of (record_for cfg rings conn_id target s c k)
        ≡ record_all cfg.window []
            (if (c == conn_id) && string_key.same k target then acc ++ (s ∷ []) else acc)
  tried rings acc conn_id target s h =
      record_for-own cfg rings conn_id target s c k enabled
      ∙ (elim (Bool-cases ((c == conn_id) && string_key.same k target)) [
        | inl p ↦
            rw p
              (ap (λ x. record_sample cfg.window x s) h ∙ sym (record_all-last cfg.window [] acc s))
        | inr p ↦ rw p h
      ])

  forgotten :
      (rings : Rings) (acc : List Sample) (conn_id : ℕ)
      → ring_of (rings c k) ≡ record_all cfg.window [] acc
      → ring_of (forget rings conn_id c k)
        ≡ record_all cfg.window [] (if c == conn_id then [] else acc)
  unfolding forget ring_of record_all
  forgotten rings acc conn_id h = elim (Bool-cases (c == conn_id)) [
    | inl p ↦ rw p refl
    | inr p ↦ rw p h
  ]

  run-own :
      (rings : Rings) (acc : List Sample) (rest : List Event)
      → ring_of (rings c k) ≡ record_all cfg.window [] acc
      → ring_of (run cfg rings rest c k) ≡ record_all cfg.window [] (own c k acc rest)
  unfolding run
  run-own rings acc [] h = h
  run-own rings acc (tries conn_id target s ∷ rest) h =
      run-own (record_for cfg rings conn_id target s) _ rest (tried rings acc conn_id target s h)
  run-own rings acc (forgets conn_id ∷ rest) h =
      run-own (forget rings conn_id) _ rest (forgotten rings acc conn_id h)

last_time-last : (t : ℕ) (xs : List Sample) (s : Sample) → last_time t (xs ++ (s ∷ [])) ≡ s.time
last_time-last t [] s = refl
last_time-last t (x ∷ xs) s = last_time-last x.time xs s

record_all-own :
    (w : ℕ) (xs : List Sample) (s : Sample)
    → Ordered 0 (xs ++ (s ∷ []))
    → record_all (suc w) [] (xs ++ (s ∷ [])) ≡ fresh (suc w) s.time (xs ++ (s ∷ []))
record_all-own w [] s o = record_all-fresh w s [] tt
record_all-own w (x ∷ xs) s o =
    record_all-fresh w x (xs ++ (s ∷ [])) o.1
    ∙ ap (λ t. fresh (suc w) t (x ∷ (xs ++ (s ∷ [])))) (last_time-last x.time xs s)

abbrev pub no_rings : Rings
no_rings conn_id target = none

-- With detectors that are enabled, a window that is not zero, and a clock that does not go back: after
-- any dials of any connections and targets, and ends of connections, the verdict on a dial is the one on
-- the samples of its own connection and target, since that connection was last forgotten, in the window
-- that ends with the dial; no other dial has a part in it.
pub matches-own :
    (reaches : ℕ → ℕ → Bool) (cfg : SignatureConfig) (w : ℕ) (rest : List Event) (c : ℕ)
    (k : String) (s : Sample)
    → cfg.enabled ≡ true
    → cfg.window ≡ suc w
    → Ordered 0 (own c k [] rest ++ (s ∷ []))
    → matches reaches cfg (ring_of (record_for cfg (run cfg no_rings rest) c k s c k))
      ≡ matches reaches cfg (fresh cfg.window s.time (own c k [] rest ++ (s ∷ [])))
unfolding ring_of record_all
matches-own reaches cfg w rest c k s e h o =
    let mine = own c k [] rest in
    let here : ((c == c) && string_key.same k k) ≡ true =
      ground (arith, (==_iff c c).1 refl, (string_key.same_iff k k).1 refl) in
    let r = run-own cfg e c k no_rings [] rest refl in
    let t = tried cfg e c k (run cfg no_rings rest) mine c k s r in
    let all : record_all cfg.window [] (mine ++ (s ∷ []))
        ≡ fresh cfg.window s.time (mine ++ (s ∷ [])) =
      rw h (record_all-own w mine s o) in
    ap (matches reaches cfg)
      (t ∙ ap (record_all cfg.window []) (if_then _ (mine ++ (s ∷ [])) mine here) ∙ all)

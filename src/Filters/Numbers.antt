-- ===== src/Filters/Numbers.antt =====
-- The ports that the decoding of a filter set adds.
use wispurr.Base.{
  ℕ, zero, suc, ◌+◌, ◌-◌, ◌%◌, ◌^◌, ◌<◌, ◌≤◌, ◌≡◌, refl, ◌∙◌, List, [], ◌∷◌, Bool, false, ◌&&◌,
  ◌||◌, Option, none, some, leb, ltb, ◌==◌, arith, if_intro, Bool-cases, inl, inr,
}
use wispurr.Base.Map.{contains, nat_key, bytes_key}
use wispurr.Filters.{
  FilterSet, Number, PortEntry, number, range, other_entry, Ports, no_ports, entries, port_keys,
  other_ports, Outcome, go_on, valid_port_number, add_port, add_from, add_bounds, add_valid,
  add_range, add_one, add_entry, add_entries, add_parsed, add_keys, add_ports,
}

-- Whether a field names a port.
abbrev pub between : ℕ → Option ℕ → Option ℕ → Bool
between port (some a) (some b) = (leb a port && leb port b) || (leb b port && leb port a)
between port (some a) none = false
between port none b = false

abbrev pub is_port : ℕ → Option ℕ → Bool
is_port port none = false
is_port port (some n) = port == n

abbrev pub covers : ℕ → PortEntry → Bool
covers port (number v) = is_port port (valid_port_number v)
covers port (range (some a ∷ some b ∷ [])) =
    between port (valid_port_number a) (valid_port_number b)
covers port (range vs) = false
covers port other_entry = false

abbrev pub covered : ℕ → List PortEntry → Bool
covered port [] = false
covered port (e ∷ rest) = covers port e || covered port rest

abbrev pub is_key : (List ℕ → Option ℕ) → ℕ → List (List ℕ) → Bool
is_key parse_uint port [] = false
is_key parse_uint port (key ∷ rest) = is_port port (parse_uint key) || is_key parse_uint port rest

abbrev pub names_port : (List ℕ → Option ℕ) → ℕ → Ports → Bool
names_port parse_uint port no_ports = false
names_port parse_uint port (entries es) = covered port es
names_port parse_uint port (port_keys ks) = is_key parse_uint port ks
names_port parse_uint port other_ports = false

abbrev nothing {ℓ} : {A : Type ℓ} → A → Bool
nothing x = false

valid_bound : (v : Number) (n : ℕ) → valid_port_number v ≡ some n → (1 ≤ n) × (n ≤ 65535)
unfolding valid_port_number
valid_bound v n e = ground (arith, e)

-- Ports only.
pub record Ported (f g : FilterSet) (port : ℕ → Bool) : Type 0 where
  pub kept : g.hostnames ≡ f.hostnames
  pub numbers : (p : ℕ) → contains p g.ports ≡ (port p || contains p f.ports)

add_from-Ported :
    (f : FilterSet) (i n : ℕ)
    → i + n ≤ 2 ^ 16
    → Ported f (add_from f i n) (λ p. leb i p && ltb p (i + n))
unfolding add_from add_port
add_from-Ported f i zero h = record { kept = refl; numbers = λ p. ground arith }
add_from-Ported f i (suc n) h =
    let ih = add_from-Ported (add_port f (i % 2 ^ 16)) (i + 1) n (omega (arith, h)) in
    record { kept = ih.kept; numbers = λ p. ground (arith, ih.numbers p, h) }

add_bounds-Ported :
    (f : FilterSet) (a b : ℕ)
    → a ≤ 65535
    → b ≤ 65535
    → Ported f (add_bounds f a b) (λ p. (leb a p && leb p b) || (leb b p && leb p a))
unfolding add_bounds
add_bounds-Ported f a b h k = elim (Bool-cases (ltb b a)) [
  | inl e ↦
      let l = add_from-Ported f b (suc a - b) (omega (arith, h)) in
      rw e (record { kept = l.kept; numbers = λ p. ground (arith, l.numbers p, e) })
  | inr e ↦
      let l = add_from-Ported f a (suc b - a) (omega (arith, k)) in
      rw e (record { kept = l.kept; numbers = λ p. ground (arith, l.numbers p, e) })
]

-- If it succeeds, it adds the ports of the test.
abbrev pub Adds : FilterSet → Outcome → (ℕ → Bool) → Type 0
Adds f q port = q.1 ≡ none → Ported f q.0 port

stays : (f : FilterSet) → Ported f f nothing
stays f = record { kept = refl; numbers = λ p. refl }

add_valid-Adds :
    (f : FilterSet) (a b : Option ℕ)
    → ((n : ℕ) → a ≡ some n → n ≤ 65535)
    → ((n : ℕ) → b ≡ some n → n ≤ 65535)
    → Adds f (add_valid f a b) (λ p. between p a b)
unfolding add_valid
add_valid-Adds f (some a) (some b) h k e = add_bounds-Ported f a b (h a refl) (k b refl)
add_valid-Adds f (some a) none h k e = absurd (ground (arith, e))
add_valid-Adds f none b h k e = absurd (ground (arith, e))

add_range-Adds :
    (f : FilterSet) (vs : List (Option Number)) → Adds f (add_range f vs) (λ p. covers p (range vs))
unfolding add_range
add_range-Adds f (some a ∷ some b ∷ []) e =
    add_valid-Adds f (valid_port_number a) (valid_port_number b) (λ n h. (valid_bound a n h).1)
      (λ n h. (valid_bound b n h).1) e
add_range-Adds f (none ∷ b ∷ []) e = absurd (ground (arith, e))
add_range-Adds f (some a ∷ none ∷ []) e = absurd (ground (arith, e))
add_range-Adds f [] e = absurd (ground (arith, e))
add_range-Adds f (a ∷ []) e = absurd (ground (arith, e))
add_range-Adds f (a ∷ b ∷ c ∷ rest) e = absurd (ground (arith, e))

add_port-Ported : (f : FilterSet) (n : ℕ) → Ported f (add_port f n) (λ p. p == n)
unfolding add_port
add_port-Ported f n = record { kept = refl; numbers = λ p. refl }

add_one-Adds : (f : FilterSet) (o : Option ℕ) → Adds f (add_one f o) (λ p. is_port p o)
unfolding add_one
add_one-Adds f none e = absurd (ground (arith, e))
add_one-Adds f (some n) e = add_port-Ported f n

add_entry-Adds : (f : FilterSet) (x : PortEntry) → Adds f (add_entry f x) (λ p. covers p x)
unfolding add_entry
add_entry-Adds f (number v) e = add_one-Adds f (valid_port_number v) e
add_entry-Adds f (range vs) e = add_range-Adds f vs e
add_entry-Adds f other_entry e = absurd (ground (arith, e))

both-Ported :
    (f g k : FilterSet) (a b : ℕ → Bool)
    → Ported f g a
    → Ported g k b
    → Ported f k (λ p. a p || b p)
both-Ported f g k a b u v = record {
  kept = v.kept ∙ u.kept;
  numbers = λ p. ground (arith, u.numbers p, v.numbers p);
}

go_on-Adds :
    (f : FilterSet) (q : Outcome) (next : FilterSet → Outcome) (a b : ℕ → Bool)
    → Adds f q a
    → Adds q.0 (next q.0) b
    → Adds f (go_on q next) (λ p. a p || b p)
unfolding go_on
go_on-Adds f (g, none) next a b u v e = both-Ported f g (next g).0 a b (u refl) (v e)
go_on-Adds f (g, some x) next a b u v e = absurd (ground (arith, e))

add_entries-Adds :
    (f : FilterSet) (es : List PortEntry) → Adds f (add_entries f es) (λ p. covered p es)
unfolding add_entries
add_entries-Adds f [] e = stays f
add_entries-Adds f (x ∷ rest) e =
    go_on-Adds f (add_entry f x) (λ g. add_entries g rest) (λ p. covers p x) (λ p. covered p rest)
      (add_entry-Adds f x) (add_entries-Adds (add_entry f x).0 rest) e

module _ (parse_uint : List ℕ → Option ℕ)
    (bounded : (key : List ℕ) (n : ℕ) → parse_uint key ≡ some n → n < 2 ^ 16) where
  add_parsed-Adds :
      (f : FilterSet) (o : Option ℕ)
      → ((n : ℕ) → o ≡ some n → n < 2 ^ 16)
      → Adds f (add_parsed f o) (λ p. is_port p o)
  unfolding add_parsed
  add_parsed-Adds f none h = λ e. absurd (ground (arith, e))
  add_parsed-Adds f (some n) h =
      let same_word : n % 2 ^ 16 ≡ n = omega (arith, h n refl) in
      if_intro (λ (q : Outcome). Adds f q (λ p. p == n)) (n == 0) _ _
        (λ z k. absurd (ground (arith, k))) (λ z k. rw same_word (add_port-Ported f n))

  add_keys-Adds :
      (f : FilterSet) (ks : List (List ℕ))
      → Adds f (add_keys parse_uint f ks) (λ p. is_key parse_uint p ks)
  unfolding add_keys
  add_keys-Adds f [] e = stays f
  add_keys-Adds f (key ∷ rest) e =
      go_on-Adds f (add_parsed f (parse_uint key)) (λ g. add_keys parse_uint g rest)
        (λ p. is_port p (parse_uint key)) (λ p. is_key parse_uint p rest)
        (add_parsed-Adds f (parse_uint key) (bounded key))
        (add_keys-Adds (add_parsed f (parse_uint key)).0 rest) e

  pub add_ports-Adds :
      (f : FilterSet) (ps : Ports)
      → Adds f (add_ports parse_uint f ps) (λ p. names_port parse_uint p ps)
  unfolding add_ports
  add_ports-Adds f no_ports e = stays f
  add_ports-Adds f (entries es) e = add_entries-Adds f es e
  add_ports-Adds f (port_keys ks) e = add_keys-Adds f ks e
  add_ports-Adds f other_ports e = absurd (ground (arith, e))

-- ===== src/Filters/Listed.antt =====
-- What a filter set lists once it has been decoded.
use wispurr.Base.{
  ℕ, ◌^◌, ◌<◌, ◌≡◌, refl, ap, ◌∙◌, List, [], ◌∷◌, Bool, false, ◌||◌, Option, none, some, arith,
  if_intro,
}
use wispurr.Base.Map.{same_list, contains, nat_key, bytes_key}
use wispurr.Config.Text.{empty_text}
use wispurr.Hostname.{normalize_target_hostname}
use wispurr.Filters.{
  FilterSet, Hostnames, no_hostnames, names, name_keys, other_hostnames, FilterJson, Outcome, go_on,
  add_hostname, add_names, add_hostnames, add_ports, unmarshal_json, has_unknown,
}
use wispurr.Filters.Numbers.{names_port, Adds, add_ports-Adds}

-- Whether a field names a hostname.
abbrev pub among : List ℕ → List (List ℕ) → Bool
among host [] = false
among host (name ∷ rest) = same_list host (normalize_target_hostname name) || among host rest

abbrev pub names_host : List ℕ → Hostnames → Bool
names_host host no_hostnames = false
names_host host (names hs) = among host hs
names_host host (name_keys hs) = among host hs
names_host host other_hostnames = false

-- Hostnames only.
record Named (f g : FilterSet) (host : List ℕ → Bool) : Type 0 where
  kept : g.ports ≡ f.ports
  named : (h : List ℕ) → contains h g.hostnames ≡ (host h || contains h f.hostnames)

abbrev Names : FilterSet → Outcome → (List ℕ → Bool) → Type 0
Names f q host = q.1 ≡ none → Named f q.0 host

unnamed : (f : FilterSet) → Named f f (λ h. false)
unnamed f = record { kept = refl; named = λ h. refl }

add_hostname-Names :
    (f : FilterSet) (name : List ℕ)
    → Names f (add_hostname f name) (λ h. same_list h (normalize_target_hostname name))
unfolding add_hostname
add_hostname-Names f name =
    let host = normalize_target_hostname name in
    if_intro (λ (q : Outcome). Names f q (λ h. same_list h host)) (empty_text host) _ _
      (λ z k. absurd (ground (arith, k))) (λ z k. record { kept = refl; named = λ h. refl })

go_on-Names :
    (f : FilterSet) (q : Outcome) (next : FilterSet → Outcome) (a b : List ℕ → Bool)
    → Names f q a
    → Names q.0 (next q.0) b
    → Names f (go_on q next) (λ h. a h || b h)
unfolding go_on
go_on-Names f (g, none) next a b u v e =
    let m = u refl in
    let n = v e in
    record { kept = n.kept ∙ m.kept; named = λ h. ground (arith, m.named h, n.named h) }
go_on-Names f (g, some x) next a b u v e = absurd (ground (arith, e))

add_names-Names : (f : FilterSet) (hs : List (List ℕ)) → Names f (add_names f hs) (λ h. among h hs)
unfolding add_names
add_names-Names f [] e = unnamed f
add_names-Names f (name ∷ rest) e =
    go_on-Names f (add_hostname f name) (λ g. add_names g rest)
      (λ h. same_list h (normalize_target_hostname name)) (λ h. among h rest)
      (add_hostname-Names f name) (add_names-Names (add_hostname f name).0 rest) e

add_hostnames-Names :
    (f : FilterSet) (hs : Hostnames) → Names f (add_hostnames f hs) (λ h. names_host h hs)
unfolding add_hostnames
add_hostnames-Names f no_hostnames e = unnamed f
add_hostnames-Names f (names hs) e = add_names-Names f hs e
add_hostnames-Names f (name_keys hs) e = add_names-Names f hs e
add_hostnames-Names f other_hostnames e = absurd (ground (arith, e))

-- A decoding that succeeds has set both.
pub record Listed (parse_uint : List ℕ → Option ℕ) (f g : FilterSet) (j : FilterJson) : Type 0 where
  pub hosts :
      (h : List ℕ) → contains h g.hostnames ≡ (names_host h j.hostnames || contains h f.hostnames)
  pub ports : (p : ℕ) → contains p g.ports ≡ (names_port parse_uint p j.ports || contains p f.ports)

go_on-Listed :
    (parse_uint : List ℕ → Option ℕ) (f : FilterSet) (q : Outcome) (j : FilterJson)
    → Names f q (λ h. names_host h j.hostnames)
    → Adds q.0 (add_ports parse_uint q.0 j.ports) (λ p. names_port parse_uint p j.ports)
    → (go_on q (λ g. add_ports parse_uint g j.ports)).1 ≡ none
    → Listed parse_uint f (go_on q (λ g. add_ports parse_uint g j.ports)).0 j
unfolding go_on
go_on-Listed parse_uint f (g, none) j u v e =
    let m = u refl in
    let n = v e in
    record {
      hosts = λ h. ap (contains h) n.kept ∙ m.named h;
      ports = λ p. n.numbers p ∙ ap (λ ps. names_port parse_uint p j.ports || contains p ps) m.kept;
    }
go_on-Listed parse_uint f (g, some x) j u v e = absurd (ground (arith, e))

-- When the decoding of a filter set succeeds, the set lists what it listed before, the hostnames of the
-- field after they are normalised, and the ports of the other field: the numbers between 1 and 65535,
-- all ports between the ends of a range, whichever of them comes first, and the keys that are numbers;
-- and nothing else. ParseUint with 16 bits returns numbers below 2^16.
pub unmarshal_json-Listed :
    (parse_uint : List ℕ → Option ℕ) (f : FilterSet) (j : FilterJson)
    → ((key : List ℕ) (n : ℕ) → parse_uint key ≡ some n → n < 2 ^ 16)
    → (unmarshal_json parse_uint f (some j)).1 ≡ none
    → Listed parse_uint f (unmarshal_json parse_uint f (some j)).0 j
unfolding unmarshal_json
unmarshal_json-Listed parse_uint f j bounded =
    if_intro (λ (q : Outcome). q.1 ≡ none → Listed parse_uint f q.0 j) (has_unknown j.fields) _ _
      (λ z e. absurd (ground (arith, e)))
      (λ z e.
        go_on-Listed parse_uint f (add_hostnames f j.hostnames) j
          (add_hostnames-Names f j.hostnames)
          (add_ports-Adds parse_uint bounded (add_hostnames f j.hostnames).0 j.ports) e)

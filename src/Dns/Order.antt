-- ===== src/Dns/Order.antt =====
-- The order of the addresses of a name.
use wispurr.Base.{
  ℕ, ◌≡◌, refl, ap, ◌∙◌, List, [], ◌∷◌, ◌++◌, append-nil, Bool, true, false, not, ◌||◌, if_intro,
  arith, leb, length,
}
use wispurr.IpAddress.{Ip}
use wispurr.Config.Text.{trim_space, to_lower, empty_text}
use wispurr.Base.Map.{same_list}
use wispurr.Dns.{select, reorder_by, reorder_ips, verbatim, ipv4_first, ipv6_first}

module _ (family : Bool) where
  select-append :
      (xs ys : List Ip) → select family (xs ++ ys) ≡ select family xs ++ select family ys
  unfolding select
  select-append [] ys = refl
  select-append (x ∷ xs) ys = ground (arith, select-append xs ys)

  select_same : (xs : List Ip) → select family (select family xs) ≡ select family xs
  unfolding select
  select_same [] = refl
  select_same (x ∷ xs) = ground (arith, select_same xs)

  select_other : (xs : List Ip) → select family (select (not family) xs) ≡ []
  unfolding select
  select_other [] = refl
  select_other (x ∷ xs) = ground (arith, select_other xs)

both_ways :
    (family : Bool) (xs : List Ip)
    → (select family (select true xs ++ select false xs) ≡ select family xs)
      × (select family (select false xs ++ select true xs) ≡ select family xs)
both_ways true xs = (
  select-append true (select true xs) (select false xs)
      ∙ ap (λ ys. select true (select true xs) ++ ys) (select_other true xs)
      ∙ append-nil (select true (select true xs))
      ∙ select_same true xs,
  select-append true (select false xs) (select true xs)
      ∙ ap (λ ys. ys ++ select true (select true xs)) (select_other true xs)
      ∙ select_same true xs,
)
both_ways false xs = (
  select-append false (select true xs) (select false xs)
      ∙ ap (λ ys. ys ++ select false (select false xs)) (select_other false xs)
      ∙ select_same false xs,
  select-append false (select false xs) (select true xs)
      ∙ ap (λ ys. select false (select false xs) ++ ys) (select_other false xs)
      ∙ append-nil (select false (select false xs))
      ∙ select_same false xs,
)

-- Whatever the configured order says, the IPv4 addresses of an answer stay what they were and in the
-- order of the resolver, and so do the others.
pub select-reorder_ips :
    (family : Bool) (ips : List Ip) (order : List ℕ)
    → select family (reorder_ips ips order) ≡ select family ips
unfolding reorder_ips reorder_by
select-reorder_ips family ips order =
    let P : List Ip → Type 0 = λ xs. select family xs ≡ select family ips in
    let word = to_lower (trim_space order) in
    if_intro P (leb (length ips) 1) _ _ (λ e. refl)
      (λ e.
        if_intro P (same_list word verbatim || empty_text word) _ _ (λ e. refl)
          (λ e.
            if_intro P (same_list word ipv4_first) _ _ (λ e. (both_ways family ips).0)
              (λ e.
                if_intro P (same_list word ipv6_first) _ _ (λ e. (both_ways family ips).1)
                  (λ e. refl))))

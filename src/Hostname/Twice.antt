-- ===== src/Hostname/Twice.antt =====
-- A name that is normalised twice.
use wispurr.Base.{
  ℕ, ◌≡◌, refl, sym, ap, ◌∙◌, List, [], ◌∷◌, ◌++◌, false, ◌&&◌, ◌||◌, leb, All, All-append,
  append_assoc, arith,
}
use wispurr.Base.Map.{bytes_key, same_list}
use wispurr.Config.Text.{is_space, trim_left, trim_right, trim_space, to_lower}
use wispurr.Hostname.{trim_dot, normalize_target_hostname}

-- An ASCII byte that is neither a space nor a capital.
abbrev pub IsPlain : ℕ → Type 0
IsPlain c = (is_space c || (leb 65 c && leb c 90) || leb 128 c) ≡ false

to_lower_plain : (h : List ℕ) → All IsPlain h → to_lower h ≡ h
to_lower_plain [] p = refl
to_lower_plain (c ∷ cs) p = ground (arith, p.0, to_lower_plain cs p.1)

trim_left_plain : (h : List ℕ) → All IsPlain h → trim_left h ≡ h
trim_left_plain [] p = refl
trim_left_plain (c ∷ cs) p = ground (arith, p.0)

trim_right_plain : (h : List ℕ) → All IsPlain h → trim_right h ≡ h
trim_right_plain [] p = refl
trim_right_plain (c ∷ []) p = ground (arith, p.0)
trim_right_plain (c ∷ d ∷ ds) p = ground (arith, p.0, trim_right_plain (d ∷ ds) p.1)

normalize_plain : (h : List ℕ) → All IsPlain h → normalize_target_hostname h ≡ trim_dot h
unfolding normalize_target_hostname
normalize_plain h p = ap trim_dot (
    ap trim_space (to_lower_plain h p) ∙ ap trim_right (trim_left_plain h p) ∙ trim_right_plain h p)

trim_dot-dot : (h : List ℕ) → trim_dot (h ++ (b'.' ∷ [])) ≡ h
unfolding trim_dot
trim_dot-dot [] = refl
trim_dot-dot (c ∷ []) = refl
trim_dot-dot (c ∷ d ∷ ds) = ap (◌∷◌ c) (trim_dot-dot (d ∷ ds))

pub dotted_other : (h : List ℕ) → same_list (h ++ (b'.' ∷ [])) h ≡ false
dotted_other [] = refl
dotted_other (c ∷ cs) = ground (arith, dotted_other cs)

-- A plain name with two dots behind it loses one of them at a time.
pub normalize_dotted :
    (h : List ℕ)
    → All IsPlain h
    → normalize_target_hostname (h ++ (b'.' ∷ b'.' ∷ [])) ≡ h ++ (b'.' ∷ [])
normalize_dotted h p =
    let split : (h ++ (b'.' ∷ [])) ++ (b'.' ∷ []) ≡ h ++ (b'.' ∷ b'.' ∷ []) =
      append_assoc h (b'.' ∷ []) (b'.' ∷ []) in
    normalize_plain (h ++ (b'.' ∷ b'.' ∷ []))
      (All-append IsPlain h (b'.' ∷ b'.' ∷ []) p (refl, (refl, tt)))
    ∙ ap trim_dot (sym split)
    ∙ trim_dot-dot (h ++ (b'.' ∷ []))

pub normalize_again :
    (h : List ℕ) → All IsPlain h → normalize_target_hostname (h ++ (b'.' ∷ [])) ≡ h
normalize_again h p =
    normalize_plain (h ++ (b'.' ∷ [])) (All-append IsPlain h (b'.' ∷ []) p (refl, tt))
    ∙ trim_dot-dot h

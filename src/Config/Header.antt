-- ===== src/Config/Header.antt =====
-- The names that validHTTPHeaderName lets through.
use wispurr.Base.{
  ℕ, ◌≤◌, ◌≡◌, ◌≢◌, ◌↔◌, refl, List, [], ◌∷◌, Bool, true, false, ◌||◌, arith, All, Bool-cases, inl,
  inr,
}
use wispurr.Config.Text.{valid_http_header_name, name_bytes, alphanumeric, mark}

-- RFC 7230, section 3.2.6: a token holds any visible ASCII byte but a delimiter.
pub record IsTokenByte (c : ℕ) : Type 0 where
  pub visible : 33 ≤ c
  pub ascii : c ≤ 126
  pub no_quote : c ≢ b'"'
  pub no_brackets : (c ≢ b'(') × (c ≢ b')') × (c ≢ b'[') × (c ≢ b']') × (c ≢ b'{') × (c ≢ b'}')
  pub no_signs : (c ≢ b'<') × (c ≢ b'=') × (c ≢ b'>') × (c ≢ b'?') × (c ≢ b'@')
  pub no_marks : (c ≢ b',') × (c ≢ b'/') × (c ≢ b':') × (c ≢ b';') × (c ≢ b'\\')

mark-IsTokenByte : (c : ℕ) → mark c ≡ true → IsTokenByte c
mark-IsTokenByte c h = ground arith

alphanumeric-IsTokenByte : (c : ℕ) → alphanumeric c ≡ true → IsTokenByte c
alphanumeric-IsTokenByte c h = ground arith

token_byte-accepted : (c : ℕ) → IsTokenByte c → (alphanumeric c || mark c) ≡ true
token_byte-accepted c h = ground arith

or_right : (a b : Bool) → (a || b) ≡ true → a ≡ false → b ≡ true
or_right true b h e = cc
or_right false b h e = h

byte-IsTokenByte : (c : ℕ) → (alphanumeric c || mark c) ≡ true → IsTokenByte c
byte-IsTokenByte c h = elim (Bool-cases (alphanumeric c)) [
  | inl e ↦ alphanumeric-IsTokenByte c e
  | inr e ↦ mark-IsTokenByte c (or_right _ _ h e)
]

name_bytes-All : (cs : List ℕ) → (name_bytes cs ≡ true) ↔ All IsTokenByte cs
unfolding name_bytes
name_bytes-All [] = (λ e. tt, λ e. refl)
name_bytes-All (c ∷ cs) = (
  λ e. ground (arith, name_bytes-All cs, byte-IsTokenByte c),
  λ e. ground (arith, name_bytes-All cs, token_byte-accepted c),
)

-- A header name is accepted exactly if it is a token: not empty, and every byte of it visible ASCII and
-- none of the delimiters.
pub valid_http_header_name_lem :
    (name : List ℕ) → (valid_http_header_name name ≡ true) ↔ ((name ≢ []) × All IsTokenByte name)
unfolding valid_http_header_name
valid_http_header_name_lem [] = (λ e. cc, λ (n, a). absurd (n refl))
valid_http_header_name_lem (c ∷ cs) =
    (λ e. ((λ p. cc), (name_bytes-All (c ∷ cs)).0 e), λ (n, a). (name_bytes-All (c ∷ cs)).1 a)

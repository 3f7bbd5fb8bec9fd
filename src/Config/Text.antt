-- ===== src/Config/Text.antt =====
-- The text that Validate reads: strings.TrimSpace and strings.ToLower, the words that it accepts, and
-- validHTTPHeaderName of wisp/config.go.
use wispurr.Base.{ℕ, ◌+◌, List, [], ◌∷◌, Bool, true, false, ◌&&◌, ◌||◌, leb, ◌==◌, if◌then◌else◌}
use wispurr.Base.Map.{same_list}

-- strings.TrimSpace and strings.ToLower, of ASCII text
abbrev pub is_space : ℕ → Bool
is_space c = c == 32 || (leb 9 c && leb c 13)

abbrev pub trim_left : List ℕ → List ℕ
trim_left [] = []
trim_left (c ∷ cs) = let rest = trim_left cs in if is_space c then rest else c ∷ cs

abbrev pub trim_right : List ℕ → List ℕ
trim_right [] = []
trim_right (c ∷ cs) = elim (trim_right cs) [
  | [] ↦ (if is_space c then [] else c ∷ [])
  | d ∷ ds ↦ c ∷ d ∷ ds
]

abbrev pub trim_space : List ℕ → List ℕ
trim_space s = trim_right (trim_left s)

abbrev pub to_lower : List ℕ → List ℕ
to_lower [] = []
to_lower (c ∷ cs) = (if leb 65 c && leb c 90 then c + 32 else c) ∷ to_lower cs

abbrev pub one_of : List (List ℕ) → List ℕ → Bool
one_of [] s = false
one_of (w ∷ ws) s = same_list s w || one_of ws s

abbrev pub empty_text : List ℕ → Bool
empty_text [] = true
empty_text (c ∷ cs) = false

abbrev pub methods : List (List ℕ)
methods =
    (b'l' ∷ b'o' ∷ b'o' ∷ b'k' ∷ b'u' ∷ b'p' ∷ [])
    ∷ (b'r' ∷ b'e' ∷ b's' ∷ b'o' ∷ b'l' ∷ b'v' ∷ b'e' ∷ [])
    ∷ []

abbrev pub orders : List (List ℕ)
orders =
    (b'i' ∷ b'p' ∷ b'v' ∷ b'4' ∷ b'f' ∷ b'i' ∷ b'r' ∷ b's' ∷ b't' ∷ [])
    ∷ (b'i' ∷ b'p' ∷ b'v' ∷ b'6' ∷ b'f' ∷ b'i' ∷ b'r' ∷ b's' ∷ b't' ∷ [])
    ∷ (b'v' ∷ b'e' ∷ b'r' ∷ b'b' ∷ b'a' ∷ b't' ∷ b'i' ∷ b'm' ∷ [])
    ∷ []

abbrev pub levels : List (List ℕ)
levels =
    (b'd' ∷ b'e' ∷ b'b' ∷ b'u' ∷ b'g' ∷ [])
    ∷ (b'i' ∷ b'n' ∷ b'f' ∷ b'o' ∷ [])
    ∷ (b'w' ∷ b'a' ∷ b'r' ∷ b'n' ∷ [])
    ∷ (b'e' ∷ b'r' ∷ b'r' ∷ b'o' ∷ b'r' ∷ [])
    ∷ (b'n' ∷ b'o' ∷ b'n' ∷ b'e' ∷ [])
    ∷ []

abbrev pub schemes : List (List ℕ)
schemes =
    (b's' ∷ b'o' ∷ b'c' ∷ b'k' ∷ b's' ∷ b'5' ∷ [])
    ∷ (b's' ∷ b'o' ∷ b'c' ∷ b'k' ∷ b's' ∷ b'5' ∷ b'h' ∷ [])
    ∷ (b'h' ∷ b't' ∷ b't' ∷ b'p' ∷ [])
    ∷ (b'h' ∷ b't' ∷ b't' ∷ b'p' ∷ b's' ∷ [])
    ∷ []

-- The tests on validHTTPHeaderName's bytes: a letter or digit, or a mark of its list.
abbrev pub alphanumeric : ℕ → Bool
alphanumeric c =
    (leb b'a' c && leb c b'z') || (leb b'A' c && leb c b'Z') || (leb b'0' c && leb c b'9')

abbrev pub mark : ℕ → Bool
mark c =
    c == b'!'
    || c == b'#'
    || c == b'$'
    || c == b'%'
    || c == b'&'
    || c == 39
    || c == b'*'
    || c == b'+'
    || c == b'-'
    || c == b'.'
    || c == b'^'
    || c == b'_'
    || c == b'`'
    || c == b'|'
    || c == b'~'

unfoldable pub name_bytes : List ℕ → Bool
name_bytes [] = true
name_bytes (c ∷ cs) = if alphanumeric c || mark c then name_bytes cs else false

unfoldable pub valid_http_header_name : List ℕ → Bool
unfolding name_bytes
valid_http_header_name [] = false
valid_http_header_name (c ∷ cs) = name_bytes (c ∷ cs)

abbrev pub every : (List ℕ → Bool) → List (List ℕ) → Bool
every ok [] = true
every ok (x ∷ xs) = if ok x then every ok xs else false

-- ===== src/Handshake/Password.antt =====
-- checkPassword of wisp/v2.go. bcrypt.CompareHashAndPassword is the parameter `bcrypt_matches`, and
-- subtle.ConstantTimeCompare is equality of bytes; the warning that is logged once is left out.
use wispurr.Base.{ℕ, List, [], ◌∷◌, Bool, true, false, ◌&&◌, ◌||◌, ◌==◌, length, if◌then◌else◌}
use wispurr.Base.Map.{same_list}

-- strings.HasPrefix(s, prefix)
abbrev pub has_prefix : List ℕ → List ℕ → Bool
has_prefix s [] = true
has_prefix [] (p ∷ ps) = false
has_prefix (c ∷ s) (p ∷ ps) = c == p && has_prefix s ps

-- "$2a$", "$2b$" or "$2y$"
abbrev pub bcrypt_prefix : ℕ → List ℕ
bcrypt_prefix version = b'$' ∷ b'2' ∷ version ∷ b'$' ∷ []

pub is_bcrypt : List ℕ → Bool
is_bcrypt stored =
    has_prefix stored (bcrypt_prefix b'a')
    || has_prefix stored (bcrypt_prefix b'b')
    || has_prefix stored (bcrypt_prefix b'y')

unfoldable pub check_password : (List ℕ → List ℕ → Bool) → List ℕ → List ℕ → Bool
unfolding is_bcrypt
check_password bcrypt_matches stored provided =
    if is_bcrypt stored
    then bcrypt_matches stored provided
    else length stored == length provided && same_list stored provided

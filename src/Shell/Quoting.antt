-- ===== src/Shell/Quoting.antt =====
-- Argument lists that a command line can carry.
use wispurr.Base.{
  ℕ, ◌≡◌, ◌≢◌, refl, ap, ◌∙◌, List, [], ◌∷◌, ◌++◌, true, false, some, arith, append_assoc,
  append-nil, All,
}
use wispurr.Shell.{Scan, flush, scan_byte, scan_bytes, split_shell}

-- Every byte of an argument behind a backslash; and in single quotes.
abbrev pub escape : List ℕ → List ℕ
escape [] = []
escape (c ∷ cs) = b'\\' ∷ c ∷ escape cs

abbrev pub single_quoted : List ℕ → List ℕ
single_quoted arg = 39 ∷ (arg ++ (39 ∷ []))

-- How one argument is written.
pub data Word : Type 0 where
  escapes quotes : List ℕ → Word

abbrev pub value : Word → List ℕ
value (escapes arg) = arg
value (quotes arg) = arg

abbrev pub text : Word → List ℕ
text (escapes arg) = escape arg
text (quotes arg) = single_quoted arg

-- An argument is not empty, and in single quotes it holds no single quote.
abbrev pub IsWord : Word → Type 0
IsWord (escapes arg) = arg ≢ []
IsWord (quotes arg) = (arg ≢ []) × All (λ c. c ≢ 39) arg

abbrev pub command : List Word → List ℕ
command [] = []
command (w ∷ ws) = text w ++ (b' ' ∷ command ws)

abbrev pub values : List Word → List (List ℕ)
values [] = []
values (w ∷ ws) = value w ∷ values ws

abbrev outside : List (List ℕ) → List ℕ → Scan
outside args current = record {
  args = args;
  current = current;
  in_single = false;
  in_double = false;
  escaped = false;
}

abbrev inside : List (List ℕ) → List ℕ → Scan
inside args current = record {
  args = args;
  current = current;
  in_single = true;
  in_double = false;
  escaped = false;
}

byte_inside :
    (args : List (List ℕ)) (current : List ℕ) (c : ℕ)
    → c ≢ 39
    → scan_byte (inside args current) c ≡ inside args (current ++ (c ∷ []))
unfolding scan_byte
byte_inside args current c h = ground arith

space_outside :
    (args : List (List ℕ)) (arg : List ℕ)
    → arg ≢ []
    → scan_byte (outside args arg) b' ' ≡ outside (args ++ (arg ∷ [])) []
unfolding scan_byte flush
space_outside args [] h = absurd (h refl)
space_outside args (c ∷ arg) h = ground arith

scan_escape :
    (arg rest current : List ℕ) (args : List (List ℕ))
    → scan_bytes (outside args current) (escape arg ++ rest)
      ≡ scan_bytes (outside args (current ++ arg)) rest
unfolding scan_bytes scan_byte
scan_escape [] rest current args = rw append-nil
scan_escape (c ∷ arg) rest current args =
    scan_escape arg rest (current ++ (c ∷ [])) args ∙ rw append_assoc

scan_inside :
    (arg rest current : List ℕ) (args : List (List ℕ))
    → All (λ c. c ≢ 39) arg
    → scan_bytes (inside args current) (arg ++ rest)
      ≡ scan_bytes (inside args (current ++ arg)) rest
unfolding scan_bytes
scan_inside [] rest current args h = rw append-nil
scan_inside (c ∷ arg) rest current args h =
    ap (λ s. scan_bytes s (arg ++ rest)) (byte_inside args current c h.0)
    ∙ scan_inside arg rest (current ++ (c ∷ [])) args h.1
    ∙ rw append_assoc

scan_word :
    (w : Word) (rest : List ℕ) (args : List (List ℕ))
    → IsWord w
    → scan_bytes (outside args []) (text w ++ (b' ' ∷ rest))
      ≡ scan_bytes (outside (args ++ (value w ∷ [])) []) rest
unfolding scan_bytes
scan_word (escapes arg) rest args h =
    scan_escape arg (b' ' ∷ rest) [] args ∙ ap (λ s. scan_bytes s rest) (space_outside args arg h)
scan_word (quotes arg) rest args h =
    ap (λ t. scan_bytes (scan_byte (outside args []) 39) t)
      (append_assoc arg (39 ∷ []) (b' ' ∷ rest))
    ∙ ap (λ s. scan_bytes s (arg ++ (39 ∷ b' ' ∷ rest))) (opens args [])
    ∙ scan_inside arg (39 ∷ b' ' ∷ rest) [] args h.1
    ∙ ap (λ s. scan_bytes (scan_byte s b' ') rest) (closes args arg)
    ∙ ap (λ s. scan_bytes s rest) (space_outside args arg h.0)
  where
    opens :
        (args : List (List ℕ)) (arg : List ℕ) → scan_byte (outside args arg) 39 ≡ inside args arg
    opens args arg = unfold scan_byte in refl

    closes :
        (args : List (List ℕ)) (arg : List ℕ) → scan_byte (inside args arg) 39 ≡ outside args arg
    closes args arg = unfold scan_byte in refl

scan_command :
    (ws : List Word) (args : List (List ℕ))
    → All IsWord ws
    → scan_bytes (outside args []) (command ws) ≡ outside (args ++ values ws) []
scan_command [] args h = rw append-nil (unfold scan_bytes in refl)
scan_command (w ∷ ws) args h =
    scan_word w (command ws) args h.0
    ∙ scan_command ws (args ++ (value w ∷ [])) h.1
    ∙ rw append_assoc

-- Any list of non-empty arguments is read back from a command line that writes each of them with a
-- backslash before every byte, or, if it holds no single quote, between single quotes, and a space
-- behind it.
pub split_shell-command :
    (ws : List Word) → All IsWord ws → split_shell (command ws) ≡ some (values ws)
unfolding split_shell flush
split_shell-command ws h = rw (scan_command ws [] h)

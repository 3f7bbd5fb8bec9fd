-- ===== src/Shell.antt =====
-- splitShell of wisp/twisp.go: a command line into its arguments, byte by byte.
pub mod Quoting
use wispurr.Base.{
  ℕ, List, [], ◌∷◌, ◌++◌, Bool, true, false, ◌&&◌, ◌||◌, not, Option, none, some, ◌==◌, ltb, length,
  if◌then◌else◌,
}

-- The variables of the loop. The strings that it builds are lists of bytes.
pub record Scan : Type 0 where
  pub args : List (List ℕ)
  pub current : List ℕ
  pub in_single : Bool
  pub in_double : Bool
  pub escaped : Bool

abbrev pub start : Scan
start = record { args = []; current = []; in_single = false; in_double = false; escaped = false }

-- if len(current) > 0 { args = append(args, string(current)) }
unfoldable pub flush : Scan → List (List ℕ)
flush s = if ltb 0 (length s.current) then s.args ++ (s.current ∷ []) else s.args

-- The body of the loop on the byte `c`.
unfoldable pub scan_byte : Scan → ℕ → Scan
unfolding flush
scan_byte s c =
    if s.escaped
    then record s { current = s.current ++ (c ∷ []); escaped = false }
    else if c == b'\\' && not s.in_single
    then record s { escaped = true }
    else if c == 39 && not s.in_double
    then record s { in_single = not s.in_single }
    else if c == b'"' && not s.in_single
    then record s { in_double = not s.in_double }
    else if c == b' ' && not s.in_single && not s.in_double
    then record s { args = flush s; current = [] }
    else record s { current = s.current ++ (c ∷ []) }

unfoldable pub scan_bytes : Scan → List ℕ → Scan
scan_bytes s [] = s
scan_bytes s (c ∷ cs) = scan_bytes (scan_byte s c) cs

-- `none` is io.ErrUnexpectedEOF.
unfoldable pub finish : Scan → Option (List (List ℕ))
unfolding flush
finish s = if s.in_single || s.in_double then none else some (flush s)

unfoldable pub split_shell : List ℕ → Option (List (List ℕ))
unfolding scan_bytes finish
split_shell s = finish (scan_bytes start s)

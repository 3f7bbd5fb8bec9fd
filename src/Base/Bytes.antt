-- ===== src/Base/Bytes.antt =====
-- Bytes as numbers below 256, and the fixed-width integers of Go's encoding/binary.
use wispurr.Base.{ℕ, ◌+◌, ◌*◌, ◌/◌, ◌%◌, ◌^◌, ◌<◌, ◌≡◌, arith, List, [], ◌∷◌, All}

abbrev pub IsByte : ℕ → Type 0
IsByte b = b < 256

-- byte(v)
abbrev pub byte : ℕ → ℕ
byte v = v % 256

-- binary.LittleEndian.PutUint32, and its inverse on four bytes.
abbrev pub put_le32 : ℕ → List ℕ
put_le32 v = byte v ∷ byte (v / 2 ^ 8) ∷ byte (v / 2 ^ 16) ∷ byte (v / 2 ^ 24) ∷ []

abbrev pub le32 : ℕ → ℕ → ℕ → ℕ → ℕ
le32 b0 b1 b2 b3 = b0 + b1 * 2 ^ 8 + b2 * 2 ^ 16 + b3 * 2 ^ 24

-- binary.LittleEndian.Uint16
abbrev pub le16 : ℕ → ℕ → ℕ
le16 b0 b1 = b0 + b1 * 2 ^ 8

-- binary.BigEndian.PutUint16, Uint16, PutUint64 and Uint64.
abbrev pub put_be16 : ℕ → List ℕ
put_be16 v = byte (v / 2 ^ 8) ∷ byte v ∷ []

abbrev pub be16 : ℕ → ℕ → ℕ
be16 b0 b1 = b0 * 2 ^ 8 + b1

abbrev pub put_be64 : ℕ → List ℕ
put_be64 v =
    byte (v / 2 ^ 56)
    ∷ byte (v / 2 ^ 48)
    ∷ byte (v / 2 ^ 40)
    ∷ byte (v / 2 ^ 32)
    ∷ byte (v / 2 ^ 24)
    ∷ byte (v / 2 ^ 16)
    ∷ byte (v / 2 ^ 8)
    ∷ byte v
    ∷ []

abbrev pub be64 : ℕ → ℕ → ℕ → ℕ → ℕ → ℕ → ℕ → ℕ → ℕ
be64 b0 b1 b2 b3 b4 b5 b6 b7 =
    b0 * 2 ^ 56
    + b1 * 2 ^ 48
    + b2 * 2 ^ 40
    + b3 * 2 ^ 32
    + b4 * 2 ^ 24
    + b5 * 2 ^ 16
    + b6 * 2 ^ 8
    + b7

-- A 64-bit load from memory and the store back, least significant byte first.
abbrev pub le64 : ℕ → ℕ → ℕ → ℕ → ℕ → ℕ → ℕ → ℕ → ℕ
le64 b0 b1 b2 b3 b4 b5 b6 b7 = be64 b7 b6 b5 b4 b3 b2 b1 b0

abbrev pub put_le64 : ℕ → List ℕ
put_le64 v =
    byte v
    ∷ byte (v / 2 ^ 8)
    ∷ byte (v / 2 ^ 16)
    ∷ byte (v / 2 ^ 24)
    ∷ byte (v / 2 ^ 32)
    ∷ byte (v / 2 ^ 40)
    ∷ byte (v / 2 ^ 48)
    ∷ byte (v / 2 ^ 56)
    ∷ []

pub le32-put_le32 :
    (v : ℕ)
    → v < 2 ^ 32
    → le32 (byte v) (byte (v / 2 ^ 8)) (byte (v / 2 ^ 16)) (byte (v / 2 ^ 24)) ≡ v
le32-put_le32 v h = omega arith

pub be16-put_be16 : (v : ℕ) → v < 2 ^ 16 → be16 (byte (v / 2 ^ 8)) (byte v) ≡ v
be16-put_be16 v h = omega arith

pub be64-put_be64 :
    (v : ℕ)
    → v < 2 ^ 64
    → be64
        (byte (v / 2 ^ 56))
        (byte (v / 2 ^ 48))
        (byte (v / 2 ^ 40))
        (byte (v / 2 ^ 32))
        (byte (v / 2 ^ 24))
        (byte (v / 2 ^ 16))
        (byte (v / 2 ^ 8))
        (byte v)
      ≡ v
be64-put_be64 v h = omega arith

pub put_le32-IsByte : (v : ℕ) → All IsByte (put_le32 v)
put_le32-IsByte v = omega arith

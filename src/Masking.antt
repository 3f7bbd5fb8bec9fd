-- ===== src/Masking.antt =====
-- maskXOR of wisp/wsreader.go: the payload of a client frame is unmasked in place, 64 bytes a round,
-- then 8 bytes a round, then byte by byte. A 64-bit access takes its bytes lowest first.
pub mod Laws
pub mod Length
use Prim.Native.Nat.{bit_and, bit_or, bit_xor}
use wispurr.Base.{
  ℕ, zero, suc, ◌+◌, ◌*◌, ◌%◌, ◌^◌, List, [], ◌∷◌, ◌++◌, length, take, drop, leb, ◌==◌,
  if◌then◌else◌,
}
use wispurr.Base.Bytes.{le32, le64, put_le64}

pub record MaskKey : Type 0 where
  pub k0 : ℕ
  pub k1 : ℕ
  pub k2 : ℕ
  pub k3 : ℕ

-- key64 := uint64(maskKey)<<32 | uint64(maskKey)
key64 : MaskKey → ℕ
key64 k = let mask_key = le32 k.k0 k.k1 k.k2 k.k3 in bit_or (mask_key * 2 ^ 32 % 2 ^ 64) mask_key

-- key[i]
key_at : MaskKey → ℕ → ℕ
key_at k i = if i == 0 then k.k0 else if i == 1 then k.k1 else if i == 2 then k.k2 else k.k3

-- *(*uint64)(p) ^= key64 on `n` words from the front, one after the other.
xor_words : ℕ → ℕ → List ℕ → List ℕ
xor_words key zero b = b
xor_words key (suc n) (b0 ∷ b1 ∷ b2 ∷ b3 ∷ b4 ∷ b5 ∷ b6 ∷ b7 ∷ b) =
    put_le64 (bit_xor (le64 b0 b1 b2 b3 b4 b5 b6 b7) key) ++ xor_words key n b
xor_words key (suc n) b = b

-- for i := range b { b[i] ^= key[i&3] }
xor_bytes : MaskKey → ℕ → List ℕ → List ℕ
unfolding key_at
xor_bytes k i [] = []
xor_bytes k i (x ∷ b) = bit_xor x (key_at k (bit_and i 3)) ∷ xor_bytes k (i + 1) b

-- for len(b) >= 8
loop_8 : MaskKey → List ℕ → List ℕ
unfolding key64 xor_bytes
loop_8 k (b0 ∷ b1 ∷ b2 ∷ b3 ∷ b4 ∷ b5 ∷ b6 ∷ b7 ∷ b) =
    put_le64 (bit_xor (le64 b0 b1 b2 b3 b4 b5 b6 b7) (key64 k)) ++ loop_8 k b
loop_8 k b = xor_bytes k 0 b

-- for len(b) >= 64: a round takes 64 bytes, so the length is fuel enough.
loop_64 : ℕ → MaskKey → List ℕ → List ℕ
unfolding key64 xor_words loop_8
loop_64 zero k b = loop_8 k b
loop_64 (suc fuel) k b =
    let rest = xor_words (key64 k) 8 (take 64 b) ++ loop_64 fuel k (drop 64 b) in
    if leb 64 (length b) then rest else loop_8 k b

pub mask_xor : List ℕ → MaskKey → List ℕ
unfolding loop_64
mask_xor b k = loop_64 (length b) k b

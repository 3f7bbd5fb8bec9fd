-- ===== src/Masking/Laws.antt =====
-- The three loops of `mask_xor` together do what RFC 6455 asks for, byte by byte.
use Prim.Native.Nat.{bit_xor}
use wispurr.Base.{
  ℕ, zero, suc, ◌+◌, ◌*◌, ◌≡◌, refl, ap, ◌∙◌, List, [], ◌∷◌, ◌++◌, length, take, drop, arith, All,
  Bool-cases, leb, inl, inr, length-take, leb→le, take-append-drop, All-take, All-drop,
}
use mathlib.Core.Path.{ap₂}
use wispurr.Base.Bytes.{IsByte, le32, le64, put_le64}
use wispurr.Base.Bits.{bit_xor-Splits, bit_xor_keeps, bit_or_halves}
use wispurr.Masking.{MaskKey, key64, key_at, xor_words, loop_8, loop_64, mask_xor}

pub record IsKey (k : MaskKey) : Type 0 where
  pub byte0 : IsByte k.k0
  pub byte1 : IsByte k.k1
  pub byte2 : IsByte k.k2
  pub byte3 : IsByte k.k3

-- The key after one byte.
abbrev pub rotate : MaskKey → MaskKey
rotate k = record { k0 = k.k1; k1 = k.k2; k2 = k.k3; k3 = k.k0 }

-- The masking of the standard: each byte with the next byte of the key, which is used in turn.
abbrev pub masked : MaskKey → List ℕ → List ℕ
masked k [] = []
masked k (x ∷ xs) = bit_xor x k.k0 ∷ masked (rotate k) xs

-- Eight bytes as digits of base 256.
abbrev word : ℕ → ℕ → ℕ → ℕ → ℕ → ℕ → ℕ → ℕ → ℕ
word b0 b1 b2 b3 b4 b5 b6 b7 =
    b0 + (b1 + (b2 + (b3 + (b4 + (b5 + (b6 + b7 * 256) * 256) * 256) * 256) * 256) * 256) * 256

put_le64-word :
    (x0 x1 x2 x3 x4 x5 x6 x7 : ℕ)
    → All IsByte (x0 ∷ x1 ∷ x2 ∷ x3 ∷ x4 ∷ x5 ∷ x6 ∷ x7 ∷ [])
    → put_le64 (word x0 x1 x2 x3 x4 x5 x6 x7) ≡ x0 ∷ x1 ∷ x2 ∷ x3 ∷ x4 ∷ x5 ∷ x6 ∷ x7 ∷ []
put_le64-word x0 x1 x2 x3 x4 x5 x6 x7 h = ground arith

key64-word : (k : MaskKey) → IsKey k → key64 k ≡ word k.k0 k.k1 k.k2 k.k3 k.k0 k.k1 k.k2 k.k3
unfolding key64
key64-word k h = ground (arith, bit_or_halves (le32 k.k0 k.k1 k.k2 k.k3))

xor_byte :
    (a b c d : ℕ)
    → IsByte a
    → IsByte c
    → bit_xor (a + b * 256) (c + d * 256) ≡ bit_xor a c + bit_xor b d * 256
xor_byte a b c d = bit_xor-Splits 8 a b c d

word-xor :
    (b0 b1 b2 b3 b4 b5 b6 b7 c0 c1 c2 c3 c4 c5 c6 c7 : ℕ)
    → All IsByte (b0 ∷ b1 ∷ b2 ∷ b3 ∷ b4 ∷ b5 ∷ b6 ∷ b7 ∷ [])
    → All IsByte (c0 ∷ c1 ∷ c2 ∷ c3 ∷ c4 ∷ c5 ∷ c6 ∷ c7 ∷ [])
    → bit_xor (word b0 b1 b2 b3 b4 b5 b6 b7) (word c0 c1 c2 c3 c4 c5 c6 c7)
      ≡ word
          (bit_xor b0 c0)
          (bit_xor b1 c1)
          (bit_xor b2 c2)
          (bit_xor b3 c3)
          (bit_xor b4 c4)
          (bit_xor b5 c5)
          (bit_xor b6 c6)
          (bit_xor b7 c7)
word-xor b0 b1 b2 b3 b4 b5 b6 b7 c0 c1 c2 c3 c4 c5 c6 c7
      (hb0, (hb1, (hb2, (hb3, (hb4, (hb5, (hb6, _)))))))
      (hc0, (hc1, (hc2, (hc3, (hc4, (hc5, (hc6, _))))))) =
    rw (
      xor_byte b0 _ c0 _ hb0 hc0,
      xor_byte b1 _ c1 _ hb1 hc1,
      xor_byte b2 _ c2 _ hb2 hc2,
      xor_byte b3 _ c3 _ hb3 hc3,
      xor_byte b4 _ c4 _ hb4 hc4,
      xor_byte b5 _ c5 _ hb5 hc5,
      xor_byte b6 _ c6 _ hb6 hc6,
    )

rotate-IsKey : (k : MaskKey) → IsKey k → IsKey (rotate k)
rotate-IsKey k h = record { byte0 = h.byte1; byte1 = h.byte2; byte2 = h.byte3; byte3 = h.byte0 }

masked-IsByte : (k : MaskKey) (b : List ℕ) → IsKey k → All IsByte b → All IsByte (masked k b)
masked-IsByte k [] hk hb = tt
masked-IsByte k (x ∷ b) hk hb =
    (bit_xor_keeps 8 x k.k0 hb.0 hk.byte0, masked-IsByte (rotate k) b (rotate-IsKey k hk) hb.1)

xor_word :
    (k : MaskKey) (b0 b1 b2 b3 b4 b5 b6 b7 : ℕ)
    → IsKey k
    → All IsByte (b0 ∷ b1 ∷ b2 ∷ b3 ∷ b4 ∷ b5 ∷ b6 ∷ b7 ∷ [])
    → put_le64 (bit_xor (le64 b0 b1 b2 b3 b4 b5 b6 b7) (key64 k))
      ≡ masked k (b0 ∷ b1 ∷ b2 ∷ b3 ∷ b4 ∷ b5 ∷ b6 ∷ b7 ∷ [])
xor_word k b0 b1 b2 b3 b4 b5 b6 b7 hk hb =
    ap (λ w. put_le64 (bit_xor w (key64 k))) (load)
    ∙ ap (λ w. put_le64 (bit_xor (word b0 b1 b2 b3 b4 b5 b6 b7) w)) (key64-word k hk)
    ∙ ap put_le64 (word-xor b0 b1 b2 b3 b4 b5 b6 b7 _ _ _ _ _ _ _ _ hb keys)
    ∙ put_le64-word _ _ _ _ _ _ _ _ masked_bytes
  where
    load : le64 b0 b1 b2 b3 b4 b5 b6 b7 ≡ word b0 b1 b2 b3 b4 b5 b6 b7
    load = omega arith

    keys : All IsByte (k.k0 ∷ k.k1 ∷ k.k2 ∷ k.k3 ∷ k.k0 ∷ k.k1 ∷ k.k2 ∷ k.k3 ∷ [])
    keys = omega arith

    masked_bytes : All IsByte (masked k (b0 ∷ b1 ∷ b2 ∷ b3 ∷ b4 ∷ b5 ∷ b6 ∷ b7 ∷ []))
    masked_bytes = masked-IsByte k (b0 ∷ b1 ∷ b2 ∷ b3 ∷ b4 ∷ b5 ∷ b6 ∷ b7 ∷ []) hk hb

-- One round on the front word, and what follows it.
front_word :
    (k : MaskKey) (b0 b1 b2 b3 b4 b5 b6 b7 : ℕ) (b t rest : List ℕ)
    → IsKey k
    → All IsByte (b0 ∷ b1 ∷ b2 ∷ b3 ∷ b4 ∷ b5 ∷ b6 ∷ b7 ∷ b)
    → t ≡ masked k rest
    → put_le64 (bit_xor (le64 b0 b1 b2 b3 b4 b5 b6 b7) (key64 k)) ++ t
      ≡ masked k (b0 ∷ b1 ∷ b2 ∷ b3 ∷ b4 ∷ b5 ∷ b6 ∷ b7 ∷ rest)
front_word k b0 b1 b2 b3 b4 b5 b6 b7 b t rest hk hb e =
    ap₂ ◌++◌
      (xor_word k b0 b1 b2 b3 b4 b5 b6 b7 hk
        (All-take IsByte 8 (b0 ∷ b1 ∷ b2 ∷ b3 ∷ b4 ∷ b5 ∷ b6 ∷ b7 ∷ b) hb))
      e

xor_words-masked :
    (k : MaskKey) (n : ℕ) (xs ys : List ℕ)
    → IsKey k
    → All IsByte xs
    → length xs ≡ n * 8
    → xor_words (key64 k) n xs ++ masked k ys ≡ masked k (xs ++ ys)
unfolding xor_words
xor_words-masked k zero [] ys hk hb e = refl
xor_words-masked k zero (x ∷ xs) ys hk hb e = absurd (omega arith)
xor_words-masked k (suc n) (b0 ∷ b1 ∷ b2 ∷ b3 ∷ b4 ∷ b5 ∷ b6 ∷ b7 ∷ xs) ys hk hb e =
    front_word k b0 b1 b2 b3 b4 b5 b6 b7 xs _ (xs ++ ys) hk hb (
      xor_words-masked k n xs ys hk
        (All-drop IsByte 8 (b0 ∷ b1 ∷ b2 ∷ b3 ∷ b4 ∷ b5 ∷ b6 ∷ b7 ∷ xs) hb) (omega arith))
xor_words-masked k (suc n) xs ys hk hb e = absurd (omega arith)

loop_8-masked : (k : MaskKey) (b : List ℕ) → IsKey k → All IsByte b → loop_8 k b ≡ masked k b
unfolding loop_8 key_at
loop_8-masked k (b0 ∷ b1 ∷ b2 ∷ b3 ∷ b4 ∷ b5 ∷ b6 ∷ b7 ∷ b) hk hb =
    front_word k b0 b1 b2 b3 b4 b5 b6 b7 b _ b hk hb
      (loop_8-masked k b hk (All-drop IsByte 8 (b0 ∷ b1 ∷ b2 ∷ b3 ∷ b4 ∷ b5 ∷ b6 ∷ b7 ∷ b) hb))
loop_8-masked k b hk hb = refl

loop_64-masked :
    (fuel : ℕ) (k : MaskKey) (b : List ℕ) → IsKey k → All IsByte b → loop_64 fuel k b ≡ masked k b
unfolding loop_64
loop_64-masked zero k b hk hb = loop_8-masked k b hk hb
loop_64-masked (suc fuel) k b hk hb = elim (Bool-cases (leb 64 (length b))) [
  | inl long ↦
      rw (long, loop_64-masked fuel k (drop 64 b) hk (All-drop IsByte 64 b hb))
        (xor_words-masked k 8 (take 64 b) (drop 64 b) hk (All-take IsByte 64 b hb)
            (omega (arith, length-take 64 b, leb→le 64 (length b) long))
          ∙ ap (masked k) (take-append-drop 64 b))
  | inr short ↦ rw short (loop_8-masked k b hk hb)
]

-- Whatever the length of the payload, the loops over 64 bytes, 8 bytes and one byte mask each byte
-- with the byte of the key whose turn it is, for a key and a payload of bytes.
pub mask_xor-masked :
    (b : List ℕ) (k : MaskKey) → IsKey k → All IsByte b → mask_xor b k ≡ masked k b
unfolding mask_xor
mask_xor-masked b k hk hb = loop_64-masked (length b) k b hk hb

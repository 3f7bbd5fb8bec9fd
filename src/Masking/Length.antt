-- ===== src/Masking/Length.antt =====
-- Unmasking keeps the length of a payload, whatever it holds.
use wispurr.Base.{
  if_intro, leb→le, ℕ, zero, suc, ◌+◌, ◌≡◌, refl, List, [], ◌∷◌, ◌++◌, length, take, drop, arith,
  leb, length-take, length-drop, length-append,
}
use wispurr.Masking.{MaskKey, key64, xor_words, xor_bytes, loop_8, loop_64, mask_xor}

length-xor_bytes : (k : MaskKey) (i : ℕ) (b : List ℕ) → length (xor_bytes k i b) ≡ length b
unfolding xor_bytes
length-xor_bytes k i [] = refl
length-xor_bytes k i (x ∷ b) = omega (arith, length-xor_bytes k (i + 1) b)

length-xor_words : (key n : ℕ) (b : List ℕ) → length (xor_words key n b) ≡ length b
unfolding xor_words
length-xor_words key zero b = refl
length-xor_words key (suc n) (b0 ∷ b1 ∷ b2 ∷ b3 ∷ b4 ∷ b5 ∷ b6 ∷ b7 ∷ b) =
    omega (arith, length-xor_words key n b)
length-xor_words key (suc n) b = refl

length-loop_8 : (k : MaskKey) (b : List ℕ) → length (loop_8 k b) ≡ length b
unfolding loop_8
length-loop_8 k (b0 ∷ b1 ∷ b2 ∷ b3 ∷ b4 ∷ b5 ∷ b6 ∷ b7 ∷ b) = omega (arith, length-loop_8 k b)
length-loop_8 k b = length-xor_bytes k 0 b

length-loop_64 : (fuel : ℕ) (k : MaskKey) (b : List ℕ) → length (loop_64 fuel k b) ≡ length b
unfolding loop_64
length-loop_64 zero k b = length-loop_8 k b
length-loop_64 (suc fuel) k b =
    if_intro (λ xs. length xs ≡ length b) (leb 64 (length b))
      (xor_words (key64 k) 8 (take 64 b) ++ loop_64 fuel k (drop 64 b)) (loop_8 k b)
      (λ e. omega (
        arith,
        length-append (xor_words (key64 k) 8 (take 64 b)) (loop_64 fuel k (drop 64 b)),
        length-xor_words (key64 k) 8 (take 64 b),
        length-take 64 b,
        length-drop 64 b,
        length-loop_64 fuel k (drop 64 b),
        leb→le 64 (length b) e,
      ))
      (λ e. length-loop_8 k b)

pub length-mask_xor : (b : List ℕ) (k : MaskKey) → length (mask_xor b k) ≡ length b
unfolding mask_xor
length-mask_xor b k = length-loop_64 (length b) k b

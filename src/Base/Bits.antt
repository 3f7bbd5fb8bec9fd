-- ===== src/Base/Bits.antt =====
-- `bit_xor` and `bit_or` split at any digit, and keep below a power of two that bounds both numbers.
use Prim.Native.Nat.{
  zero, suc, max, bit_and, bit_or, bit_xor, digits, bit_or-bitwise, bit_xor-bitwise, differ,
}
use native.Mathlib.Nat.{pow-succ'}
use wispurr.Base.{ℕ, ◌+◌, ◌*◌, ◌/◌, ◌%◌, ◌^◌, ◌≤◌, ◌<◌, ◌≡◌, refl, arith, Bool, true, ◌&&◌, ◌==◌}

-- An operation on numbers that acts on the binary digits one by one.
record Digitwise (f g : ℕ → ℕ → ℕ) : Type 0 where
  none : f 0 0 ≡ 0
  digit : (x y : ℕ) → x < 2 → y < 2 → g x y < 2
  step : (a b : ℕ) → f a b ≡ f (a / 2) (b / 2) * 2 + g (a % 2) (b % 2)

abbrev pub Splits : (ℕ → ℕ → ℕ) → ℕ → Type 0
Splits f p = (a b c d : ℕ) → a < p → c < p → f (a + b * p) (c + d * p) ≡ f a c + f b d * p

abbrev pub Keeps : (ℕ → ℕ → ℕ) → ℕ → Type 0
Keeps f p = (a c : ℕ) → a < p → c < p → f a c < p

module _ (f g : ℕ → ℕ → ℕ) (w : Digitwise f g) where
  Splits-one : Splits f 1
  Splits-one zero b zero d ha hc = ground (arith, w.none)
  Splits-one zero b (suc c) d ha hc = absurd (omega arith)
  Splits-one (suc a) b c d ha hc = absurd (omega arith)

  Splits-double : (p : ℕ) → Splits f p → Splits f (2 * p)
  Splits-double p h a b c d ha hc =
      ground (arith, w.step a c, w.step (a + b * (2 * p)) (c + d * (2 * p)), h (a / 2) b (c / 2) d)

  keeps_one : Keeps f 1
  keeps_one zero zero ha hc = omega (arith, w.none)
  keeps_one zero (suc c) ha hc = absurd (omega arith)
  keeps_one (suc a) c ha hc = absurd (omega arith)

  keeps_double : (p : ℕ) → Keeps f p → Keeps f (2 * p)
  keeps_double p h a c ha hc = omega (
    arith,
    w.step a c,
    h (a / 2) (c / 2) (omega arith) (omega arith),
    w.digit (a % 2) (c % 2) (omega arith) (omega arith),
  )

  splits : (k : ℕ) → Splits f (2 ^ k)
  splits zero = Splits-one
  splits (suc k) = rw pow-succ' (Splits-double (2 ^ k) (splits k))

  keeps : (k : ℕ) → Keeps f (2 ^ k)
  keeps zero = keeps_one
  keeps (suc k) = rw pow-succ' (keeps_double (2 ^ k) (keeps k))

module _ (g : ℕ → ℕ → ℕ) where
  abbrev by_digits : ℕ → ℕ → ℕ → ℕ
  by_digits n a b = digits (λ b. b) g n a b

  by_digits_fuel : (n m a b : ℕ) → a ≤ n → a ≤ m → by_digits n a b ≡ by_digits m a b
  by_digits_fuel zero zero a b p q = refl
  by_digits_fuel zero (suc m) zero b p q = refl
  by_digits_fuel zero (suc m) (suc a) b p q = absurd (omega arith)
  by_digits_fuel (suc n) zero zero b p q = refl
  by_digits_fuel (suc n) zero (suc a) b p q = absurd (omega arith)
  by_digits_fuel (suc n) (suc m) zero b p q = refl
  by_digits_fuel (suc n) (suc m) (suc a) b p q =
      omega (arith, by_digits_fuel n m (suc a / 2) (b / 2) (omega arith) (omega arith))

pub zero-bit_xor : (b : ℕ) → bit_xor 0 b ≡ b
zero-bit_xor b = bit_xor-bitwise 0 b

zero-bit_or : (b : ℕ) → bit_or 0 b ≡ b
zero-bit_or b = bit_or-bitwise 0 b

zero-differ : (b : ℕ) → differ 0 b ≡ b
zero-differ b = refl

bit_xor_step : (a b : ℕ) → bit_xor a b ≡ bit_xor (a / 2) (b / 2) * 2 + differ (a % 2) (b % 2)
bit_xor_step zero b = ground (arith, zero-bit_xor b, zero-bit_xor (b / 2), zero-differ (b % 2))
bit_xor_step (suc a) b = omega (
  arith,
  bit_xor-bitwise (suc a) b,
  bit_xor-bitwise (suc a / 2) (b / 2),
  by_digits_fuel differ a (suc a / 2) (suc a / 2) (b / 2) (omega arith) (omega arith),
)

bit_or_step : (a b : ℕ) → bit_or a b ≡ bit_or (a / 2) (b / 2) * 2 + max (a % 2) (b % 2)
bit_or_step zero b = omega (arith, zero-bit_or b, zero-bit_or (b / 2))
bit_or_step (suc a) b = omega (
  arith,
  bit_or-bitwise (suc a) b,
  bit_or-bitwise (suc a / 2) (b / 2),
  by_digits_fuel max a (suc a / 2) (suc a / 2) (b / 2) (omega arith) (omega arith),
)

differ-lt-two : (x y : ℕ) → x < 2 → y < 2 → differ x y < 2
differ-lt-two zero y hx hy = hy
differ-lt-two (suc zero) zero hx hy = hx
differ-lt-two (suc zero) (suc y) hx hy = omega arith
differ-lt-two (suc (suc x)) y hx hy = absurd (omega arith)

bit_xor-Digitwise : Digitwise bit_xor differ
bit_xor-Digitwise = record { none = refl; digit = differ-lt-two; step = bit_xor_step }

bit_or-Digitwise : Digitwise bit_or max
bit_or-Digitwise = record { none = refl; digit = λ x y hx hy. omega arith; step = bit_or_step }

pub bit_xor-Splits : (k : ℕ) → Splits bit_xor (2 ^ k)
bit_xor-Splits = splits bit_xor differ bit_xor-Digitwise

pub bit_xor_keeps : (k : ℕ) → Keeps bit_xor (2 ^ k)
bit_xor_keeps = keeps bit_xor differ bit_xor-Digitwise

bit_or-zero : (n m : ℕ) → m ≤ n → bit_or m 0 ≡ m
bit_or-zero n zero h = refl
bit_or-zero zero (suc m) h = absurd (omega arith)
bit_or-zero (suc n) (suc m) h =
    omega (arith, bit_or_step (suc m) 0, bit_or-zero n (suc m / 2) (omega arith))

-- The halves of `m << 32 | m` do not overlap.
pub bit_or_halves : (m : ℕ) → m < 2 ^ 32 → bit_or (m * 2 ^ 32) m ≡ m + m * 2 ^ 32
bit_or_halves m h =
    ground (arith, splits bit_or max bit_or-Digitwise 32 0 m m 0, zero-bit_or m, bit_or-zero m m)

-- A mask on a byte, checked at every value.
agrees_below : ℕ → (ℕ → ℕ) → (ℕ → ℕ) → Bool
agrees_below zero f g = true
agrees_below (suc n) f g = f n == g n && agrees_below n f g

agrees_below_sound : (n : ℕ) (f g : ℕ → ℕ) (x : ℕ) → agrees_below n f g ≡ true → x < n → f x ≡ g x
unfolding agrees_below
agrees_below_sound zero f g x h lt = absurd (omega arith)
agrees_below_sound (suc n) f g x h lt = ground (arith, agrees_below_sound n f g x)

pub high_nibble : (x : ℕ) → x < 256 → bit_and x 0xf0 ≡ x / 16 * 16
unfolding agrees_below
high_nibble x = agrees_below_sound 256 (λ x. bit_and x 0xf0) (λ x. x / 16 * 16) x refl

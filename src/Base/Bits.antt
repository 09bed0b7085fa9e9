-- ===== src/Base/Bits.antt =====
-- `bit_or` of two words that share no bit is their sum.
use Prim.Native.Nat.{
  ℕ, zero, suc, ◌+◌, ◌*◌, ◌/◌, ◌%◌, ◌^◌, ◌≤◌, ◌<◌, max, bit_or, digits, bit_or-bitwise,
}
use mathlib.Core.Path.{◌≡◌, refl, ◌∙◌, ap, sym}
use native.Mathlib.Omega.{arith}
use native.Mathlib.Nat.{pow-suc}

abbrev joined : ℕ → ℕ → ℕ → ℕ
joined fuel a b = digits (λ b. b) max fuel a b

joined-zero : (fuel b : ℕ) → joined fuel 0 b ≡ b
joined-zero zero b = refl
joined-zero (suc fuel) b = refl

-- Any count of digits from the first number on gives the same result.
joined_enough : (i j b a : ℕ) → a ≤ j → a ≤ i → joined i a b ≡ joined j a b
joined_enough i j b zero low high = joined-zero i b ∙ sym (joined-zero j b)
joined_enough zero j b (suc a) low high = absurd (omega arith)
joined_enough (suc i) zero b (suc a) low high = absurd (omega arith)
joined_enough (suc i) (suc j) b (suc a) low high =
    ap (λ d. d * 2 + max (suc a % 2) (b % 2))
      (joined_enough i j (b / 2) (suc a / 2) (omega arith) (omega arith))

zero-bit_or : (b : ℕ) → bit_or 0 b ≡ b
zero-bit_or b = bit_or-bitwise 0 b

-- The lowest digit of the result, and the rest.
bit_or_digit : (x y : ℕ) → bit_or x y ≡ bit_or (x / 2) (y / 2) * 2 + max (x % 2) (y % 2)
bit_or_digit zero y = omega (arith, zero-bit_or y, zero-bit_or (y / 2))
bit_or_digit (suc x) y =
    let h : ℕ = suc x / 2 in
    let shorter = joined_enough x h (y / 2) h (omega arith) (omega arith) in
    omega (arith, bit_or-bitwise (suc x) y, bit_or-bitwise h (y / 2), shorter)

bit_or-zero_below : (bound x : ℕ) → x ≤ bound → bit_or x 0 ≡ x
bit_or-zero_below bound zero h = refl
bit_or-zero_below zero (suc x) h = absurd (omega arith)
bit_or-zero_below (suc bound) (suc x) h =
    omega (arith, bit_or_digit (suc x) 0, bit_or-zero_below bound (suc x / 2) (omega arith))

bit_or-zero : (x : ℕ) → bit_or x 0 ≡ x
bit_or-zero x = bit_or-zero_below x x (omega arith)

double-pow : (k a : ℕ) → a * 2 ^ suc k ≡ a * 2 ^ k * 2
double-pow k a = rw pow-suc (omega arith)

half-pow : (k a : ℕ) → a * 2 ^ suc k / 2 ≡ a * 2 ^ k
half-pow k a = omega (arith, double-pow k a)

even-pow : (k a : ℕ) → a * 2 ^ suc k % 2 ≡ 0
even-pow k a = omega (arith, double-pow k a)

-- The high digits come first.
pub bit_or-high_low : (k a l : ℕ) → l < 2 ^ k → bit_or (a * 2 ^ k) l ≡ a * 2 ^ k + l
bit_or-high_low zero a l h =
    let e : l ≡ 0 = omega arith in
    let m : a * 1 ≡ a = omega arith in rw (e, m) (omega (arith, bit_or-zero a))
bit_or-high_low (suc k) a l h =
    bit_or_digit (a * 2 ^ suc k) l
    ∙ rw (half-pow k a, even-pow k a)
        (omega (arith, double-pow k a, bit_or-high_low k a (l / 2) (omega (arith, pow-suc 2 k))))

-- The low digits come first.
pub bit_or-low_high : (k a l : ℕ) → l < 2 ^ k → bit_or l (a * 2 ^ k) ≡ a * 2 ^ k + l
bit_or-low_high zero a l h =
    let e : l ≡ 0 = omega arith in
    let m : a * 1 ≡ a = omega arith in rw (e, m) (omega (arith, zero-bit_or a))
bit_or-low_high (suc k) a l h =
    bit_or_digit l (a * 2 ^ suc k)
    ∙ rw (half-pow k a, even-pow k a)
        (omega (arith, double-pow k a, bit_or-low_high k a (l / 2) (omega (arith, pow-suc 2 k))))

-- ===== src/Base/Words.antt =====
-- Machine words as native numbers: the wrap-around is written out, and a bit is a digit.
use Prim.Native.Nat.{ℕ, zero, suc, ◌+◌, ◌*◌, ◌/◌, ◌%◌, ◌^◌, ◌-◌, ◌≤◌, ◌<◌, bit_xor}
use mathlib.Core.Path.{◌≡◌, refl, ap}
use mathlib.Core.Bool.{Bool}
use mathlib.Core.List.{List, [], ◌∷◌, ◌++◌}
use native.Mathlib.Omega.{arith}
use native.Mathlib.Nat.{pow-suc}
use openflash_controller_lab.Base.Tests.{◌==◌}
use openflash_controller_lab.Base.Lists.{length, take, drop, replicate}

abbrev pub u16 : ℕ
u16 = 2 ^ 16

abbrev pub u32 : ℕ
u32 = 2 ^ 32

abbrev pub u64 : ℕ
u64 = 2 ^ 64

-- `x & BIT(k)` is not 0.
abbrev pub test_bit : ℕ → ℕ → Bool
test_bit x k = (x / 2 ^ k) % 2 == 1

-- The `n` bytes of `v`, least significant first.
abbrev pub le_bytes : ℕ → ℕ → List ℕ
le_bytes zero v = []
le_bytes (suc n) v = (v % 256) ∷ le_bytes n (v / 256)

abbrev pub of_le_bytes : List ℕ → ℕ
of_le_bytes [] = 0
of_le_bytes (b ∷ bs) = b + 256 * of_le_bytes bs

pub length-le_bytes : (n v : ℕ) → length (le_bytes n v) ≡ n
length-le_bytes zero v = refl
length-le_bytes (suc n) v = ap suc (length-le_bytes n (v / 256))

-- A number that fits in `n` bytes is read back from them.
pub of_le_bytes-le_bytes : (n v : ℕ) → v < 256 ^ n → of_le_bytes (le_bytes n v) ≡ v
of_le_bytes-le_bytes zero v h = omega arith
of_le_bytes-le_bytes (suc n) v h =
    omega (arith, of_le_bytes-le_bytes n (v / 256) (omega (arith, pow-suc 256 n)))

abbrev pub AreBytes : List ℕ → Type 0
AreBytes [] = Unit {0}
AreBytes (b ∷ bs) = (b < 256) × AreBytes bs

pub drop-AreBytes : (i : ℕ) (bs : List ℕ) → AreBytes bs → AreBytes (drop i bs)
drop-AreBytes zero bs h = h
drop-AreBytes (suc i) [] h = tt
drop-AreBytes (suc i) (b ∷ bs) h = drop-AreBytes i bs h.1

-- `n` bytes make a number of `n` bytes.
pub of_le_bytes-take-lt : (n : ℕ) (bs : List ℕ) → AreBytes bs → of_le_bytes (take n bs) < 256 ^ n
of_le_bytes-take-lt zero bs h = omega arith
of_le_bytes-take-lt (suc n) [] h = omega (arith, pow-suc 256 n, of_le_bytes-take-lt n [] tt)
of_le_bytes-take-lt (suc n) (b ∷ bs) h = omega (arith, pow-suc 256 n, of_le_bytes-take-lt n bs h.1)

pub le_bytes-AreBytes : (n v : ℕ) → AreBytes (le_bytes n v)
le_bytes-AreBytes zero v = tt
le_bytes-AreBytes (suc n) v = (omega arith, le_bytes-AreBytes n (v / 256))

pub append-AreBytes : (xs ys : List ℕ) → AreBytes xs → AreBytes ys → AreBytes (xs ++ ys)
append-AreBytes [] ys h k = k
append-AreBytes (x ∷ xs) ys h k = (h.0, append-AreBytes xs ys h.1 k)

pub replicate_zero-AreBytes : (n : ℕ) → AreBytes (replicate n 0)
replicate_zero-AreBytes zero = tt
replicate_zero-AreBytes (suc n) = (omega arith, replicate_zero-AreBytes n)

pub xor_one : (p : ℕ) → p ≤ 1 → bit_xor p 1 ≡ 1 - p
xor_one zero h = refl
xor_one (suc zero) h = refl
xor_one (suc (suc p)) h = absurd (omega arith)

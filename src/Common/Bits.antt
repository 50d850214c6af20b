-- ===== src/Common/Bits.antt =====
-- Binary digits: `bit_or` of numbers with no digit in common, and powers of two.
use Prim.Native.Nat.{
  ℕ, zero, suc, ◌+◌, ◌*◌, ◌/◌, ◌%◌, ◌^◌, ◌≤◌, ◌<◌, max, bit_or, digits, bit_or-bitwise,
}
use mathlib.Core.Path.{◌≡◌, refl, ap}
use native.Mathlib.Omega.{arith}
use native.Mathlib.Nat.{
  pow-suc, mul-add-div_right, mul-add-mod_self_right, mod-eq_of_lt, div-eq_of_lt,
}

abbrev or_digits : ℕ → ℕ → ℕ → ℕ
or_digits n a b = digits (λ b. b) max n a b

or_digits_fuel : (n m a b : ℕ) → a ≤ n → a ≤ m → or_digits n a b ≡ or_digits m a b
or_digits_fuel zero zero a b p q = refl
or_digits_fuel zero (suc m) zero b p q = refl
or_digits_fuel zero (suc m) (suc a) b p q = absurd (omega arith)
or_digits_fuel (suc n) zero zero b p q = refl
or_digits_fuel (suc n) zero (suc a) b p q = absurd (omega arith)
or_digits_fuel (suc n) (suc m) zero b p q = refl
or_digits_fuel (suc n) (suc m) (suc a) b p q =
    omega (arith, or_digits_fuel n m (suc a / 2) (b / 2) (omega arith) (omega arith))

pub zero-bit_or : (b : ℕ) → bit_or 0 b ≡ b
zero-bit_or b = bit_or-bitwise 0 b

bit_or_step : (a b : ℕ) → bit_or a b ≡ bit_or (a / 2) (b / 2) * 2 + max (a % 2) (b % 2)
bit_or_step zero b = omega (arith, zero-bit_or b, zero-bit_or (b / 2))
bit_or_step (suc a) b = omega (
  arith,
  bit_or-bitwise (suc a) b,
  bit_or-bitwise (suc a / 2) (b / 2),
  or_digits_fuel a (suc a / 2) (suc a / 2) (b / 2) (omega arith) (omega arith),
)

bit_or-zero_fuel : (n a : ℕ) → a ≤ n → bit_or a 0 ≡ a
bit_or-zero_fuel n zero h = zero-bit_or 0
bit_or-zero_fuel zero (suc a) h = absurd (omega arith)
bit_or-zero_fuel (suc n) (suc a) h =
    omega (arith, bit_or_step (suc a) 0, bit_or-zero_fuel n (suc a / 2) (omega arith))

-- The digits of `l` stand below those of `h * 2 ^ k`.
pub bit_or-disjoint : (k h l : ℕ) → l < 2 ^ k → bit_or (h * 2 ^ k) l ≡ h * 2 ^ k + l
bit_or-disjoint zero h l lt =
    let l_zero : l ≡ 0 = omega arith in
    let same : h * 2 ^ 0 ≡ h = omega arith in
    rw (l_zero, same) (omega (arith, bit_or-zero_fuel h h (omega arith)))
bit_or-disjoint (suc k) h l lt =
    let half : ℕ = h * 2 ^ k in
    let whole : h * 2 ^ suc k ≡ half * 2 = rw (pow-suc 2 k) (grind arith) in
    let upper : half * 2 / 2 ≡ half = omega arith in
    let rest = bit_or-disjoint k h (l / 2) (omega (arith, pow-suc 2 k)) in
    rw whole (omega (arith, bit_or_step (half * 2) l, ap (λ x. bit_or x (l / 2)) upper, rest))

pub pow_add : (a b : ℕ) → 2 ^ (a + b) ≡ 2 ^ a * 2 ^ b
pow_add zero b = let e : 0 + b ≡ b = omega arith in rw e (omega arith)
pow_add (suc a) b =
    let e : suc a + b ≡ suc (a + b) = omega arith in
    rw (e, pow-suc 2 (a + b), pow-suc 2 a, pow_add a b) (grind arith)

pub pow_pos : (a : ℕ) → 0 < 2 ^ a
pow_pos zero = omega arith
pow_pos (suc a) = omega (arith, pow-suc 2 a, pow_pos a)

-- Taking apart a number below a power of two from the digits above it.
pub digits_above : (h l k : ℕ) → l < 2 ^ k → (h * 2 ^ k + l) / 2 ^ k ≡ h
digits_above h l k lt = omega (arith, mul-add-div_right (pow_pos k) h l, div-eq_of_lt lt)

pub digits_below : (h l k : ℕ) → l < 2 ^ k → (h * 2 ^ k + l) % 2 ^ k ≡ l
digits_below h l k lt = omega (arith, mul-add-mod_self_right h (2 ^ k) l, mod-eq_of_lt lt)

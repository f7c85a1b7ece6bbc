-- ===== src/Base/Bits.antt =====
-- Bytes, words and the bit operations of the code as arithmetic.
use Prim.Native.Nat.{
  ℕ, zero, suc, ◌+◌, ◌*◌, ◌/◌, ◌%◌, ◌≤◌, ◌<◌, ◌^◌, max, bit_or, digits, bit_or-bitwise,
}
use mathlib.Core.Path.{◌≡◌, refl}
use native.Mathlib.Omega.{arith}

abbrev pub IsByte : ℕ → Type 0
IsByte b = b < 256

abbrev pub u32_mod : ℕ
u32_mod = 2 ^ 32

abbrev pub u64_mod : ℕ
u64_mod = 2 ^ 64

abbrev or_digits : ℕ → ℕ → ℕ → ℕ
or_digits n a b = digits (λ b. b) max n a b

or_digits_fuel : (n m a b : ℕ) → a ≤ n → a ≤ m → or_digits n a b ≡ or_digits m a b
or_digits_fuel (suc n) (suc m) (suc a) b le le' =
    omega (arith, or_digits_fuel n m (suc a / 2) (b / 2) (omega arith) (omega arith))
or_digits_fuel (suc n) (suc m) zero b le le' = refl
or_digits_fuel (suc n) zero (suc a) b le le' = absurd (omega arith)
or_digits_fuel (suc n) zero zero b le le' = refl
or_digits_fuel zero (suc m) (suc a) b le le' = absurd (omega arith)
or_digits_fuel zero (suc m) zero b le le' = refl
or_digits_fuel zero zero a b le le' = refl

zero-bit_or : (b : ℕ) → bit_or 0 b ≡ b
zero-bit_or b = bit_or-bitwise 0 b

bit_or_step : (a b : ℕ) → bit_or a b ≡ bit_or (a / 2) (b / 2) * 2 + max (a % 2) (b % 2)
bit_or_step zero b = omega (arith, zero-bit_or b, zero-bit_or (b / 2))
bit_or_step (suc a) b = omega (
  arith,
  bit_or-bitwise (suc a) b,
  bit_or-bitwise (suc a / 2) (b / 2),
  or_digits_fuel a (suc a / 2) (suc a / 2) (b / 2) (omega arith) (omega arith),
)

bit_or-zero_fuel : (n a : ℕ) → a ≤ n → bit_or a 0 ≡ a
bit_or-zero_fuel n zero h = zero-bit_or 0
bit_or-zero_fuel zero (suc a) h = absurd (omega arith)
bit_or-zero_fuel (suc n) (suc a) h =
    omega (arith, bit_or_step (suc a) 0, bit_or-zero_fuel n (suc a / 2) (omega arith))

bit_or-zero : (a : ℕ) → bit_or a 0 ≡ a
bit_or-zero a = bit_or-zero_fuel a a (omega arith)

bit_or_even : (s t b c : ℕ) → s ≡ 2 * t → c ≡ b / 2 → bit_or s b ≡ bit_or t c * 2 + b % 2
bit_or_even s t b c e f =
    let h : s / 2 ≡ t = omega arith in
    let k : bit_or (s / 2) (b / 2) ≡ bit_or t c = cc in omega (arith, bit_or_step s b)

-- `(n << 8) | b` is `n * 256 + b` for a byte `b`.
pub bit_or_shift : (n b : ℕ) → IsByte b → bit_or (n * 256) b ≡ n * 256 + b
bit_or_shift n b h = omega (
  arith,
  bit_or_even (n * 256) (n * 128) b (b / 2) (omega arith) refl,
  bit_or_even (n * 128) (n * 64) (b / 2) (b / 4) (omega arith) (omega arith),
  bit_or_even (n * 64) (n * 32) (b / 4) (b / 8) (omega arith) (omega arith),
  bit_or_even (n * 32) (n * 16) (b / 8) (b / 16) (omega arith) (omega arith),
  bit_or_even (n * 16) (n * 8) (b / 16) (b / 32) (omega arith) (omega arith),
  bit_or_even (n * 8) (n * 4) (b / 32) (b / 64) (omega arith) (omega arith),
  bit_or_even (n * 4) (n * 2) (b / 64) (b / 128) (omega arith) (omega arith),
  bit_or_even (n * 2) n (b / 128) 0 (omega arith) (omega arith),
  bit_or-zero n,
)

-- ===== src/Bytes/Bits.antt =====
-- `|` of a value and a field that lies above it is their sum.
use Prim.Native.Nat.{bit_or, digits, bit_or-bitwise, max}
use native.Mathlib.Nat.{pow-suc}
use hermas.Base.{ℕ, zero, suc, ◌+◌, ◌*◌, ◌/◌, ◌%◌, ◌^◌, ◌≤◌, ◌<◌, ◌≡◌, refl, ap, arith}

-- What the native operation stands for: a recursion on binary digits, with fuel.
abbrev or_digits : ℕ → ℕ → ℕ → ℕ
or_digits fuel a b = digits (λ c. c) max fuel a b

or_digits_fuel : (m n a b : ℕ) → a ≤ m → a ≤ n → or_digits m a b ≡ or_digits n a b
or_digits_fuel zero zero zero b hm hn = refl
or_digits_fuel zero zero (suc a) b hm hn = absurd (omega arith)
or_digits_fuel zero (suc n) zero b hm hn = refl
or_digits_fuel zero (suc n) (suc a) b hm hn = absurd (omega arith)
or_digits_fuel (suc m) zero zero b hm hn = refl
or_digits_fuel (suc m) zero (suc a) b hm hn = absurd (omega arith)
or_digits_fuel (suc m) (suc n) zero b hm hn = refl
or_digits_fuel (suc m) (suc n) (suc a) b hm hn =
    omega (arith, or_digits_fuel m n (suc a / 2) (b / 2) (omega arith) (omega arith))

zero-bit_or : (b : ℕ) → bit_or 0 b ≡ b
zero-bit_or b = bit_or-bitwise 0 b

bit_or_lowest : (a b : ℕ) → bit_or a b ≡ bit_or (a / 2) (b / 2) * 2 + max (a % 2) (b % 2)
bit_or_lowest zero b = omega (arith, zero-bit_or b, zero-bit_or (b / 2))
bit_or_lowest (suc a) b = omega (
  arith,
  bit_or-bitwise (suc a) b,
  bit_or-bitwise (suc a / 2) (b / 2),
  or_digits_fuel a (suc a / 2) (suc a / 2) (b / 2) (omega arith) (omega arith),
)

double_field : (b k : ℕ) → b * 2 ^ suc k ≡ 2 * (b * 2 ^ k)
double_field b k = omega (arith, ap (λ (t : ℕ). b * t) (pow-suc 2 k))

half_field : (b k : ℕ) → b * 2 ^ suc k / 2 ≡ b * 2 ^ k
half_field b k = omega (arith, double_field b k)

pub bit_or_field : (k v b : ℕ) → v < 2 ^ k → bit_or v (b * 2 ^ k) ≡ v + b * 2 ^ k
bit_or_field zero zero b h = omega (arith, zero-bit_or (b * 2 ^ 0))
bit_or_field zero (suc v) b h = absurd (omega arith)
bit_or_field (suc k) v b h = omega (
  arith,
  bit_or_lowest v (b * 2 ^ suc k),
  double_field b k,
  ap (bit_or (v / 2)) (half_field b k),
  bit_or_field k (v / 2) b (omega (arith, pow-suc 2 k)),
)

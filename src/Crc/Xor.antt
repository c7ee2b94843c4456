-- ===== src/Crc/Xor.antt =====
-- The laws of `^` that the checksum rests on, digit by digit.
use Prim.Native.Nat.{bit_and, bit_xor, digits, differ, bit_and-bitwise, bit_xor-bitwise, min}
use native.Mathlib.Nat.{pow-suc, div-div-eq-div-mul, mul_comm}
use hermas.Base.{ℕ, zero, suc, ◌+◌, ◌*◌, ◌/◌, ◌%◌, ◌^◌, ◌≤◌, ◌<◌, ◌≡◌, refl, sym, arith}

-- What the native operations stand for: a recursion on binary digits, with fuel.
module _ (z : ℕ → ℕ) (f : ℕ → ℕ → ℕ) where
  enough_fuel : (m n a b : ℕ) → a ≤ m → a ≤ n → digits z f m a b ≡ digits z f n a b
  enough_fuel zero zero a b hm hn = refl
  enough_fuel zero (suc n) zero b hm hn = refl
  enough_fuel zero (suc n) (suc a) b hm hn = absurd (omega arith)
  enough_fuel (suc m) zero zero b hm hn = refl
  enough_fuel (suc m) zero (suc a) b hm hn = absurd (omega arith)
  enough_fuel (suc m) (suc n) zero b hm hn = refl
  enough_fuel (suc m) (suc n) (suc a) b hm hn =
      omega (arith, enough_fuel m n (suc a / 2) (b / 2) (omega arith) (omega arith))

zero-bit_xor : (b : ℕ) → bit_xor 0 b ≡ b
zero-bit_xor b = bit_xor-bitwise 0 b

differ_digits : (x y : ℕ) → x < 2 → y < 2 → differ x y ≡ (x + y) % 2
differ_digits zero y hx hy = omega arith
differ_digits (suc x) zero hx hy = omega arith
differ_digits (suc zero) (suc zero) hx hy = refl
differ_digits (suc zero) (suc (suc y)) hx hy = absurd (omega arith)
differ_digits (suc (suc x)) (suc y) hx hy = absurd (omega arith)

bit_xor_lowest : (a b : ℕ) → bit_xor a b ≡ bit_xor (a / 2) (b / 2) * 2 + (a + b) % 2
bit_xor_lowest zero b = omega (arith, zero-bit_xor b, zero-bit_xor (b / 2))
bit_xor_lowest (suc a) b = omega (
  arith,
  bit_xor-bitwise (suc a) b,
  bit_xor-bitwise (suc a / 2) (b / 2),
  enough_fuel (λ c. c) differ a (suc a / 2) (suc a / 2) (b / 2) (omega arith) (omega arith),
  differ_digits (suc a % 2) (b % 2) (omega arith) (omega arith),
)

-- `^` stays within the width of its operands.
pub bit_xor-lt : (k a b : ℕ) → a < 2 ^ k → b < 2 ^ k → bit_xor a b < 2 ^ k
bit_xor-lt zero zero zero ha hb = omega arith
bit_xor-lt zero zero (suc b) ha hb = absurd (omega arith)
bit_xor-lt zero (suc a) b ha hb = absurd (omega arith)
bit_xor-lt (suc k) a b ha hb = omega (
  arith,
  pow-suc 2 k,
  bit_xor_lowest a b,
  bit_xor-lt k (a / 2) (b / 2) (omega (arith, pow-suc 2 k)) (omega (arith, pow-suc 2 k)),
)

-- `^` by a word can be undone.
pub bit_xor_cancel :
    (k a b c : ℕ) → a < 2 ^ k → b < 2 ^ k → c < 2 ^ k → bit_xor a c ≡ bit_xor b c → a ≡ b
bit_xor_cancel zero a b c ha hb hc e = omega arith
bit_xor_cancel (suc k) a b c ha hb hc e = omega (
  arith,
  bit_xor_lowest a c,
  bit_xor_lowest b c,
  bit_xor_cancel k (a / 2) (b / 2) (c / 2) (omega (arith, pow-suc 2 k)) (omega (arith, pow-suc 2 k))
      (omega (arith, pow-suc 2 k)) (omega (arith, bit_xor_lowest a c, bit_xor_lowest b c)),
)

pub bit_xor_cancel_left :
    (k a b c : ℕ) → a < 2 ^ k → b < 2 ^ k → c < 2 ^ k → bit_xor c a ≡ bit_xor c b → a ≡ b
bit_xor_cancel_left zero a b c ha hb hc e = omega arith
bit_xor_cancel_left (suc k) a b c ha hb hc e = omega (
  arith,
  bit_xor_lowest c a,
  bit_xor_lowest c b,
  bit_xor_cancel_left k (a / 2) (b / 2) (c / 2) (omega (arith, pow-suc 2 k))
      (omega (arith, pow-suc 2 k)) (omega (arith, pow-suc 2 k))
      (omega (arith, bit_xor_lowest c a, bit_xor_lowest c b)),
)

halve_shift : (k a : ℕ) → a / 2 ^ suc k ≡ a / 2 / 2 ^ k
halve_shift k a = rw (pow-suc, mul_comm (2 ^ k) 2) (sym (div-div-eq-div-mul a 2 (2 ^ k)))

bit_xor_halves : (a b : ℕ) → bit_xor a b / 2 ≡ bit_xor (a / 2) (b / 2)
bit_xor_halves a b = omega (arith, bit_xor_lowest a b)

-- The digits from the k-th on.
pub bit_xor_high : (k a b : ℕ) → bit_xor a b / 2 ^ k ≡ bit_xor (a / 2 ^ k) (b / 2 ^ k)
bit_xor_high zero a b =
    let whole : (n : ℕ) → n / 2 ^ 0 ≡ n = λ n. omega arith in
    rw (whole (bit_xor a b), whole a, whole b)
bit_xor_high (suc k) a b =
    rw (halve_shift k (bit_xor a b), halve_shift k a, halve_shift k b, bit_xor_halves a b)
      (bit_xor_high k (a / 2) (b / 2))

no_digits : (fuel a : ℕ) → digits (λ _. 0) min fuel a 0 ≡ 0
no_digits zero a = refl
no_digits (suc fuel) zero = refl
no_digits (suc fuel) (suc a) = omega (arith, no_digits fuel (suc a / 2))

pub bit_and_lowest : (a : ℕ) → bit_and a 1 ≡ a % 2
bit_and_lowest zero = refl
bit_and_lowest (suc a) = omega (arith, bit_and-bitwise (suc a) 1, no_digits a (suc a / 2))

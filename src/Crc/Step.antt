-- ===== src/Crc/Step.antt =====
-- One bit and one byte of the checksum: it stays on 32 bits, and no step merges two values.
use Prim.Native.Nat.{bit_xor}
use hermas.Base.{ℕ, zero, suc, ◌/◌, ◌%◌, ◌^◌, ◌<◌, ◌≡◌, ◌⊎◌, inl, inr, refl, sym, ap, ◌∙◌, arith}
use hermas.Bytes.{IsByte}
use hermas.Crc.{crc_bit, crc_bits}
use hermas.Crc.Xor.{bit_xor-lt, bit_xor_cancel, bit_xor_cancel_left, bit_xor_high, bit_and_lowest}

abbrev pub polynomial : ℕ
polynomial = 0xedb8_8320

parity : (v : ℕ) → (v % 2 ≡ 0) ⊎ (v % 2 ≡ 1)
parity v = omega arith

crc_bit_even : (v : ℕ) → v % 2 ≡ 0 → crc_bit v ≡ bit_xor (v / 2) 0
unfolding crc_bit
crc_bit_even v e = rw (bit_and_lowest v, e) refl

crc_bit_odd : (v : ℕ) → v % 2 ≡ 1 → crc_bit v ≡ bit_xor (v / 2) polynomial
unfolding crc_bit
crc_bit_odd v e = rw (bit_and_lowest v, e) refl

crc_bit-lt : (v : ℕ) → v < 2 ^ 32 → crc_bit v < 2 ^ 32
crc_bit-lt v h = elim (parity v) [
  | inl e ↦ rw (crc_bit_even v e) (bit_xor-lt 32 (v / 2) 0 (omega arith) (omega arith))
  | inr e ↦ rw (crc_bit_odd v e) (bit_xor-lt 32 (v / 2) polynomial (omega arith) (omega arith))
]

-- The top digit tells which branch was taken.
top_even : (v : ℕ) → v < 2 ^ 32 → v % 2 ≡ 0 → crc_bit v / 2 ^ 31 ≡ 0
top_even v h e =
    rw (crc_bit_even v e) (omega (arith, bit_xor-lt 31 (v / 2) 0 (omega arith) (omega arith)))

top_odd : (v : ℕ) → v < 2 ^ 32 → v % 2 ≡ 1 → crc_bit v / 2 ^ 31 ≡ 1
top_odd v h e =
    let low : v / 2 / 2 ^ 31 ≡ 0 = omega arith in
    rw (crc_bit_odd v e) (bit_xor_high 31 (v / 2) polynomial ∙ rw low refl)

halves : (v w : ℕ) → v / 2 ≡ w / 2 → v % 2 ≡ w % 2 → v ≡ w
halves v w e f = omega arith

crc_bit_injective : (v w : ℕ) → v < 2 ^ 32 → w < 2 ^ 32 → crc_bit v ≡ crc_bit w → v ≡ w
crc_bit_injective v w hv hw e = elim (parity v) [
  | inl ev ↦ elim (parity w) [
    | inl ew ↦
        halves v w
          (bit_xor_cancel 32 (v / 2) (w / 2) 0 (omega arith) (omega arith) (omega arith)
            (sym (crc_bit_even v ev) ∙ e ∙ crc_bit_even w ew))
          (omega arith)
    | inr ow ↦
        absurd (omega (arith, top_even v hv ev, top_odd w hw ow, ap (λ (t : ℕ). t / 2 ^ 31) e))
  ]
  | inr ov ↦ elim (parity w) [
    | inl ew ↦
        absurd (omega (arith, top_odd v hv ov, top_even w hw ew, ap (λ (t : ℕ). t / 2 ^ 31) e))
    | inr ow ↦
        halves v w
          (bit_xor_cancel 32 (v / 2) (w / 2) polynomial (omega arith) (omega arith) (omega arith)
            (sym (crc_bit_odd v ov) ∙ e ∙ crc_bit_odd w ow))
          (omega arith)
  ]
]

crc_bits-lt : (rounds v : ℕ) → v < 2 ^ 32 → crc_bits rounds v < 2 ^ 32
unfolding crc_bits
crc_bits-lt zero v h = h
crc_bits-lt (suc rounds) v h = crc_bits-lt rounds (crc_bit v) (crc_bit-lt v h)

crc_bits_injective :
    (rounds v w : ℕ) → v < 2 ^ 32 → w < 2 ^ 32 → crc_bits rounds v ≡ crc_bits rounds w → v ≡ w
unfolding crc_bits
crc_bits_injective zero v w hv hw e = e
crc_bits_injective (suc rounds) v w hv hw e =
    crc_bit_injective v w hv hw
      (crc_bits_injective rounds (crc_bit v) (crc_bit w) (crc_bit-lt v hv) (crc_bit-lt w hw) e)

byte_word : (b : ℕ) → IsByte b → b < 2 ^ 32
byte_word b h = omega arith

-- The value after a byte.
module _ (v b : ℕ) (hv : v < 2 ^ 32) (hb : IsByte b) where
  pub after_byte-lt : crc_bits 8 (bit_xor v b) < 2 ^ 32
  after_byte-lt = crc_bits-lt 8 (bit_xor v b) (bit_xor-lt 32 v b hv (byte_word b hb))

-- Different values stay different under the same byte, and different bytes part equal values.
pub same_byte_parts :
    (v w b : ℕ)
    → v < 2 ^ 32
    → w < 2 ^ 32
    → IsByte b
    → crc_bits 8 (bit_xor v b) ≡ crc_bits 8 (bit_xor w b)
    → v ≡ w
same_byte_parts v w b hv hw hb e =
    let b' = byte_word b hb in
    bit_xor_cancel 32 v w b hv hw b' (
      crc_bits_injective 8 (bit_xor v b) (bit_xor w b) (bit_xor-lt 32 v b hv b')
        (bit_xor-lt 32 w b hw b') e)

pub same_value_parts :
    (v b c : ℕ)
    → v < 2 ^ 32
    → IsByte b
    → IsByte c
    → crc_bits 8 (bit_xor v b) ≡ crc_bits 8 (bit_xor v c)
    → b ≡ c
same_value_parts v b c hv hb hc e =
    let b' = byte_word b hb in
    let c' = byte_word c hc in
    bit_xor_cancel_left 32 b c v b' c' hv (
      crc_bits_injective 8 (bit_xor v b) (bit_xor v c) (bit_xor-lt 32 v b hv b')
        (bit_xor-lt 32 v c hv c') e)

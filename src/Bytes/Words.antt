-- ===== src/Bytes/Words.antt =====
-- The readers on a buffer of bytes, as one plain recursion over the bytes of a word.
use native.Mathlib.Numerals.{towards_suc}
use hermas.Base.{ℕ, zero, suc, ◌+◌, ◌*◌, ◌/◌, ◌^◌, ◌<◌, ◌≡◌, ap, arith, List, [], ◌∷◌, All}
use hermas.Bytes.{IsByte, byte_at, read_loop, read_u16, read_u32, read_u64, write_loop, write_u16}
use hermas.Bytes.Bits.{bit_or_field}

-- The word of `width` bytes at `offset`, lowest byte first.
abbrev pub read_le : ℕ → List ℕ → ℕ → ℕ
read_le zero bytes offset = 0
read_le (suc width) bytes offset = byte_at bytes offset + 256 * read_le width bytes (suc offset)

pub byte_at-IsByte : (bytes : List ℕ) (i : ℕ) → All IsByte bytes → IsByte (byte_at bytes i)
byte_at-IsByte [] i h = omega arith
byte_at-IsByte (b ∷ bytes) zero h = h.0
byte_at-IsByte (b ∷ bytes) (suc i) h = byte_at-IsByte bytes i h.1

pow_eight_more : (s : ℕ) → 2 ^ (s + 8) ≡ 256 * 2 ^ s
pow_eight_more s = simp towards_suc (omega arith)

pow_word : (width : ℕ) → 2 ^ (suc width * 8) ≡ 256 * 2 ^ (width * 8)
pow_word width =
    let e : suc width * 8 ≡ width * 8 + 8 = omega arith in rw e (pow_eight_more (width * 8))

read_le-lt :
    (width : ℕ) (bytes : List ℕ) (offset : ℕ)
    → All IsByte bytes
    → read_le width bytes offset < 2 ^ (width * 8)
read_le-lt zero bytes offset h = omega arith
read_le-lt (suc width) bytes offset h =
    omega
      (arith, pow_word width, byte_at-IsByte bytes offset h, read_le-lt width bytes (suc offset) h)

pub pow_byte : (i : ℕ) → 2 ^ ((i + 1) * 8) ≡ 256 * 2 ^ (i * 8)
pow_byte i = let e : (i + 1) * 8 ≡ i * 8 + 8 = omega arith in rw e (pow_eight_more (i * 8))

next_field : (v b i : ℕ) → b < 256 → v < 2 ^ (i * 8) → v + b * 2 ^ (i * 8) < 2 ^ ((i + 1) * 8)
next_field v b i hb hv = rw pow_byte (grind arith)

read_loop-read_le :
    (bytes : List ℕ) (offset rounds index value : ℕ)
    → All IsByte bytes
    → value < 2 ^ (index * 8)
    → read_loop bytes offset rounds index value
      ≡ value + read_le rounds bytes (offset + index) * 2 ^ (index * 8)
unfolding read_loop
read_loop-read_le bytes offset zero index value hb hv = omega arith
read_loop-read_le bytes offset (suc rounds) index value hb hv =
    let b = byte_at bytes (offset + index) in
    let e : offset + (index + 1) ≡ suc (offset + index) = omega arith in
    rw (bit_or_field (index * 8) value b hv) (
      omega (
        arith,
        read_loop-read_le bytes offset rounds (index + 1) (value + b * 2 ^ (index * 8)) hb
            (next_field value b index (byte_at-IsByte bytes (offset + index) hb) hv),
        ap (λ (t : ℕ). read_le rounds bytes t * 2 ^ ((index + 1) * 8)) e,
        ap (λ (t : ℕ). read_le rounds bytes (suc (offset + index)) * t) (pow_byte index),
      ))

loop-read_le :
    (bytes : List ℕ) (offset rounds : ℕ)
    → All IsByte bytes
    → read_loop bytes offset rounds 0 0 ≡ read_le rounds bytes offset
loop-read_le bytes offset rounds h = omega (
  arith,
  read_loop-read_le bytes offset rounds 0 0 h (omega arith),
  ap (read_le rounds bytes) (let e : offset + 0 ≡ offset = omega arith in e),
)

module _ (bytes : List ℕ) (offset : ℕ) (h : All IsByte bytes) where
  pub read_u16-read_le : read_u16 bytes offset ≡ read_le 2 bytes offset
  unfolding read_u16
  read_u16-read_le = omega (
    arith,
    ap (byte_at bytes) (let e : offset + 1 ≡ suc offset = omega arith in e),
    bit_or_field 8 (byte_at bytes offset) (byte_at bytes (offset + 1))
        (byte_at-IsByte bytes offset h),
  )

  pub read_u32-read_le : read_u32 bytes offset ≡ read_le 4 bytes offset
  unfolding read_u32
  read_u32-read_le = loop-read_le bytes offset 4 h

  pub read_u64-read_le : read_u64 bytes offset ≡ read_le 8 bytes offset
  unfolding read_u64
  read_u64-read_le = loop-read_le bytes offset 8 h

module _ (bytes : List ℕ) (offset : ℕ) (h : All IsByte bytes) where
  pub read_u16-lt : read_u16 bytes offset < 2 ^ 16
  read_u16-lt = rw (read_u16-read_le bytes offset h) (read_le-lt 2 bytes offset h)

  pub read_u32-lt : read_u32 bytes offset < 2 ^ 32
  read_u32-lt = rw (read_u32-read_le bytes offset h) (read_le-lt 4 bytes offset h)

  pub read_u64-lt : read_u64 bytes offset < 2 ^ 64
  read_u64-lt = rw (read_u64-read_le bytes offset h) (read_le-lt 8 bytes offset h)

-- The two writes of a 16-bit word are the loop of two rounds.
pub write_u16-write_loop :
    (bytes : List ℕ) (offset value : ℕ)
    → write_u16 bytes offset value ≡ write_loop bytes offset 2 0 value
unfolding write_u16 write_loop
write_u16-write_loop bytes offset value =
    let low : value / 1 ≡ value = omega arith in
    let at : offset + 0 ≡ offset = omega arith in rw (low, at)

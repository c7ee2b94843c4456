-- ===== src/Crc.antt =====
-- The CRC-32 of src/journal.c, src/saga_log.c, src/result.c and src/compensation.c.
pub mod Xor
pub mod Step
pub mod Detect
pub mod Parts
use Prim.Native.Nat.{bit_and, bit_xor}
use hermas.Base.{ℕ, zero, suc, ◌-◌, ◌/◌, ◌%◌, ◌^◌, List, [], ◌∷◌, ◌++◌, take}

-- `mask = (uint32_t)-(int32_t)(value & 1); value = (value >> 1) ^ (0xedb88320 & mask)`
unfoldable pub crc_bit : ℕ → ℕ
crc_bit value =
    let mask = (2 ^ 32 - bit_and value 1) % 2 ^ 32 in bit_xor (value / 2) (bit_and 0xedb8_8320 mask)

unfoldable pub crc_bits : ℕ → ℕ → ℕ
unfolding crc_bit
crc_bits zero value = value
crc_bits (suc rounds) value = crc_bits rounds (crc_bit value)

unfoldable pub crc_bytes : List ℕ → ℕ → ℕ
unfolding crc_bits
crc_bytes [] value = value
crc_bytes (b ∷ bytes) value = crc_bytes bytes (crc_bits 8 (bit_xor value b))

-- `~value` on 32 bits.
abbrev pub complement : ℕ → ℕ
complement value = 2 ^ 32 - 1 - value

-- The checksum of the first `length` bytes of a buffer.
unfoldable pub checksum : List ℕ → ℕ → ℕ
unfolding crc_bytes
checksum bytes length = complement (crc_bytes (take length bytes) 0xffff_ffff)

-- `checksum_parts`: a header of `header_length` bytes, then `value_length` bytes of a value.
unfoldable pub checksum_parts : ℕ → List ℕ → List ℕ → ℕ → ℕ
unfolding crc_bytes
checksum_parts header_length header value value_length =
    complement
      (crc_bytes (take value_length value) (crc_bytes (take header_length header) 0xffff_ffff))

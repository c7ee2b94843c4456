-- ===== src/Bytes.antt =====
-- Byte buffers: the little-endian readers and writers and the block operations of
-- src/protocol.c, src/journal.c, src/result.c, src/compensation.c and src/saga_log.c.
pub mod Bits
pub mod Words
pub mod Writes
pub mod Fields
pub mod Canonical
use Prim.Native.Nat.{bit_or}
use hermas.Base.{
  ℕ, zero, suc, ◌+◌, ◌*◌, ◌/◌, ◌%◌, ◌^◌, ◌<◌, List, [], ◌∷◌, Bool, true, ◌&&◌, get_or, set,
  replicate, overwrite, All, ◌==◌,
}

abbrev pub IsByte : ℕ → Type 0
IsByte b = b < 256

abbrev pub byte_at : List ℕ → ℕ → ℕ
byte_at bytes i = get_or bytes i 0

-- `value |= (uint64_t)bytes[offset + index] << (index * 8)` for the rounds left.
unfoldable pub read_loop : List ℕ → ℕ → ℕ → ℕ → ℕ → ℕ
read_loop bytes offset zero index value = value
read_loop bytes offset (suc rounds) index value =
    read_loop bytes offset rounds (index + 1)
      (bit_or value (byte_at bytes (offset + index) * 2 ^ (index * 8)))

unfoldable pub read_u16 : List ℕ → ℕ → ℕ
read_u16 bytes offset = bit_or (byte_at bytes offset) (byte_at bytes (offset + 1) * 2 ^ 8)

unfoldable pub read_u32 : List ℕ → ℕ → ℕ
unfolding read_loop
read_u32 bytes offset = read_loop bytes offset 4 0 0

unfoldable pub read_u64 : List ℕ → ℕ → ℕ
unfolding read_loop
read_u64 bytes offset = read_loop bytes offset 8 0 0

-- `bytes[offset + index] = (uint8_t)(value >> (index * 8))` for the rounds left.
unfoldable pub write_loop : List ℕ → ℕ → ℕ → ℕ → ℕ → List ℕ
write_loop bytes offset zero index value = bytes
write_loop bytes offset (suc rounds) index value =
    write_loop (set bytes (offset + index) (value / 2 ^ (index * 8) % 256)) offset rounds
      (index + 1) value

unfoldable pub write_u16 : List ℕ → ℕ → ℕ → List ℕ
write_u16 bytes offset value =
    set (set bytes offset (value % 256)) (offset + 1) (value / 2 ^ 8 % 256)

unfoldable pub write_u32 : List ℕ → ℕ → ℕ → List ℕ
unfolding write_loop
write_u32 bytes offset value = write_loop bytes offset 4 0 value

unfoldable pub write_u64 : List ℕ → ℕ → ℕ → List ℕ
unfolding write_loop
write_u64 bytes offset value = write_loop bytes offset 8 0 value

-- `memset (bytes, 0, size)`
abbrev pub clear : List ℕ → ℕ → List ℕ
clear bytes size = overwrite bytes 0 (replicate size 0)

-- `memcmp (bytes + i, expected, length expected) == 0`
abbrev pub same_bytes : List ℕ → ℕ → List ℕ → Bool
same_bytes bytes i [] = true
same_bytes bytes i (x ∷ xs) = byte_at bytes i == x && same_bytes bytes (i + 1) xs

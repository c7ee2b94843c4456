-- ===== src/Crc/Detect.antt =====
-- A buffer with one byte changed has another checksum.
use Prim.Native.Nat.{bit_xor}
use hermas.Base.{
  ℕ, zero, suc, ◌^◌, ◌≤◌, ◌<◌, ◌≡◌, ◌≢◌, refl, ap, arith, List, [], ◌∷◌, All, set, take, length,
  All-take, All-set, ◌∙◌, ◌++◌, take-append, take-length, take-take,
}
use hermas.Bytes.{IsByte, byte_at}
use hermas.Crc.{crc_bits, crc_bytes, checksum, complement}
use hermas.Crc.Step.{after_byte-lt, same_byte_parts, same_value_parts}

pub crc_bytes-lt :
    (bytes : List ℕ) (v : ℕ) → All IsByte bytes → v < 2 ^ 32 → crc_bytes bytes v < 2 ^ 32
unfolding crc_bytes
crc_bytes-lt [] v hb hv = hv
crc_bytes-lt (b ∷ bytes) v hb hv =
    crc_bytes-lt bytes (crc_bits 8 (bit_xor v b)) hb.1 (after_byte-lt v b hv hb.0)

-- The rest of the buffer carries a difference on.
crc_bytes_injective :
    (bytes : List ℕ) (v w : ℕ)
    → All IsByte bytes
    → v < 2 ^ 32
    → w < 2 ^ 32
    → crc_bytes bytes v ≡ crc_bytes bytes w
    → v ≡ w
unfolding crc_bytes
crc_bytes_injective [] v w hb hv hw e = e
crc_bytes_injective (b ∷ bytes) v w hb hv hw e = same_byte_parts v w b hv hw hb.0 (
    crc_bytes_injective bytes (crc_bits 8 (bit_xor v b)) (crc_bits 8 (bit_xor w b)) hb.1
      (after_byte-lt v b hv hb.0) (after_byte-lt w b hw hb.0) e)

crc_bytes-set :
    (bytes : List ℕ) (i c v : ℕ)
    → All IsByte bytes
    → IsByte c
    → v < 2 ^ 32
    → i < length bytes
    → crc_bytes (set bytes i c) v ≡ crc_bytes bytes v
    → c ≡ byte_at bytes i
unfolding crc_bytes
crc_bytes-set [] i c v hb hc hv hi e = absurd (omega arith)
crc_bytes-set (b ∷ bytes) zero c v hb hc hv hi e = same_value_parts v c b hv hc hb.0 (
    crc_bytes_injective bytes (crc_bits 8 (bit_xor v c)) (crc_bits 8 (bit_xor v b)) hb.1
      (after_byte-lt v c hv hc) (after_byte-lt v b hv hb.0) e)
crc_bytes-set (b ∷ bytes) (suc i) c v hb hc hv hi e =
    crc_bytes-set bytes i c (crc_bits 8 (bit_xor v b)) hb.1 hc (after_byte-lt v b hv hb.0)
      (omega arith) e

take-set : (n i c : ℕ) (bytes : List ℕ) → i < n → take n (set bytes i c) ≡ set (take n bytes) i c
take-set zero i c bytes h = absurd (omega arith)
take-set (suc n) i c [] h = refl
take-set (suc n) zero c (b ∷ bytes) h = refl
take-set (suc n) (suc i) c (b ∷ bytes) h =
    ap (λ (t : List ℕ). b ∷ t) (take-set n i c bytes (omega arith))

byte_at-take : (n i : ℕ) (bytes : List ℕ) → i < n → byte_at (take n bytes) i ≡ byte_at bytes i
byte_at-take zero i bytes h = absurd (omega arith)
byte_at-take (suc n) i [] h = refl
byte_at-take (suc n) zero (b ∷ bytes) h = refl
byte_at-take (suc n) (suc i) (b ∷ bytes) h = byte_at-take n i bytes (omega arith)

length-take_below :
    (n i : ℕ) (bytes : List ℕ) → i < n → i < length bytes → i < length (take n bytes)
length-take_below zero i bytes h k = absurd (omega arith)
length-take_below (suc n) i [] h k = absurd (omega arith)
length-take_below (suc n) zero (b ∷ bytes) h k = omega arith
length-take_below (suc n) (suc i) (b ∷ bytes) h k =
    omega (arith, length-take_below n i bytes (omega arith) (omega arith))

-- Two checksums that agree come from values that agree.
complement_injective : (v w : ℕ) → v < 2 ^ 32 → w < 2 ^ 32 → complement v ≡ complement w → v ≡ w
complement_injective v w hv hw e = omega arith

checksum_lem :
    (bytes : List ℕ) (n : ℕ) → checksum bytes n ≡ complement (crc_bytes (take n bytes) 0xffff_ffff)
unfolding checksum
checksum_lem bytes n = refl

-- What lies behind the summed bytes does not count.
pub checksum-append : (xs ys : List ℕ) → checksum (xs ++ ys) (length xs) ≡ checksum xs (length xs)
checksum-append xs ys = rw (
  checksum_lem (xs ++ ys) (length xs),
  checksum_lem xs (length xs),
  take-append xs ys,
  take-length xs,
)

pub checksum-take : (bytes : List ℕ) (n : ℕ) → checksum (take n bytes) n ≡ checksum bytes n
checksum-take bytes n = rw (checksum_lem (take n bytes) n, checksum_lem bytes n, take-take n bytes)

take-set_behind : (n i c : ℕ) (bytes : List ℕ) → n ≤ i → take n (set bytes i c) ≡ take n bytes
take-set_behind zero i c bytes h = refl
take-set_behind (suc n) i c [] h = refl
take-set_behind (suc n) zero c (b ∷ bytes) h = absurd (omega arith)
take-set_behind (suc n) (suc i) c (b ∷ bytes) h =
    ap (λ (t : List ℕ). b ∷ t) (take-set_behind n i c bytes (omega arith))

pub checksum-set_behind :
    (bytes : List ℕ) (n i c : ℕ) → n ≤ i → checksum (set bytes i c) n ≡ checksum bytes n
checksum-set_behind bytes n i c h =
    rw (checksum_lem (set bytes i c) n, checksum_lem bytes n, take-set_behind n i c bytes h)

-- A checksum fits 32 bits.
pub checksum-lt : (bytes : List ℕ) (n : ℕ) → checksum bytes n < 2 ^ 32
checksum-lt bytes n = rw (checksum_lem bytes n) (omega arith)

-- A change of one byte among those that are summed changes the sum.
pub checksum-set :
    (bytes : List ℕ) (n i c : ℕ)
    → All IsByte bytes
    → IsByte c
    → i < n
    → i < length bytes
    → c ≢ byte_at bytes i
    → checksum (set bytes i c) n ≢ checksum bytes n
checksum-set bytes n i c hb hc hi hl ne e =
    let front = take n bytes in
    let hf : All IsByte front = All-take IsByte n bytes hb in
    let start : 0xffff_ffff < 2 ^ 32 = omega arith in
    let sums : complement (crc_bytes (set front i c) 0xffff_ffff)
        ≡ complement (crc_bytes front 0xffff_ffff) =
      rw (checksum_lem (set bytes i c) n, checksum_lem bytes n, take-set n i c bytes hi) at e in
    let same =
      complement_injective (crc_bytes (set front i c) 0xffff_ffff) (crc_bytes front 0xffff_ffff)
        (crc_bytes-lt (set front i c) 0xffff_ffff (All-set IsByte front i c hc hf) start)
        (crc_bytes-lt front 0xffff_ffff hf start) sums in
    ne (
      crc_bytes-set front i c 0xffff_ffff hf hc start (length-take_below n i bytes hi hl) same
      ∙ byte_at-take n i bytes hi)

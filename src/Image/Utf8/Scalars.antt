-- ===== src/Image/Utf8/Scalars.antt =====
-- The encoding of Unicode scalar values, which `valid_utf8` of src/image.c takes apart.
use hermas.Base.{
  ℕ, suc, ◌+◌, ◌*◌, ◌/◌, ◌%◌, ◌≤◌, ◌<◌, ◌≡◌, ◌⊎◌, refl, arith, true, false, some, List, [], ◌∷◌,
  ltb, leb, ◌==◌, if◌then◌else◌,
}
use hermas.Image.Utf8.{lead, continue, bad_codepoint, codepoint_at}

-- A number of a code point that is no surrogate.
abbrev pub IsScalar : ℕ → Type 0
IsScalar c = (c < 0x110000) × ((c < 0xd800) ⊎ (0xdfff < c))

-- The encoding of a scalar value in one to four bytes.
unfoldable pub encode_scalar : ℕ → List ℕ
encode_scalar c =
    if ltb c 0x80
    then c ∷ []
    else if ltb c 0x800
    then (0xc0 + c / 64) ∷ (0x80 + c % 64) ∷ []
    else if ltb c 0x10000
    then (0xe0 + c / 4096) ∷ (0x80 + c / 64 % 64) ∷ (0x80 + c % 64) ∷ []
    else (0xf0 + c / 262144) ∷ (0x80 + c / 4096 % 64) ∷ (0x80 + c / 64 % 64) ∷ (0x80 + c % 64) ∷ []

lead_two : (x : ℕ) → 2 ≤ x → x < 32 → lead (0xc0 + x) ≡ some (x, 1)
unfolding lead
lead_two x low high = ground arith

lead_three : (x : ℕ) → x < 16 → lead (0xe0 + x) ≡ some (x, 2)
unfolding lead
lead_three x high = ground arith

lead_four : (x : ℕ) → x < 5 → lead (0xf0 + x) ≡ some (x, 3)
unfolding lead
lead_four x high = ground arith

continue_one :
    (n c y : ℕ) (rest : List ℕ)
    → y < 64
    → continue (suc n) c ((0x80 + y) ∷ rest) ≡ continue n (c * 64 + y) rest
unfolding continue
continue_one n c y rest small =
    let high : ((0x80 + y) / 64 % 4 == 2) ≡ true = ground arith in
    let low : (0x80 + y) % 64 ≡ y = omega arith in rw (high, low) refl

continue_zero : (c : ℕ) (rest : List ℕ) → continue 0 c rest ≡ some (c, rest)
unfolding continue
continue_zero c rest = refl

-- A code point of more than one byte, from its parts.
codepoint_at-parts :
    (first bits n c : ℕ) (bytes rest : List ℕ)
    → 0x7f < first
    → lead first ≡ some (bits, n)
    → continue n bits bytes ≡ some (c, rest)
    → bad_codepoint n c ≡ false
    → codepoint_at first bytes ≡ some rest
unfolding codepoint_at
codepoint_at-parts first bits n c bytes rest large front parts good =
    let no : leb first 0x7f ≡ false = ground arith in rw (no, front, parts, good) refl

not_bad_two : (c : ℕ) → c < 0x800 → bad_codepoint 1 c ≡ false
unfolding bad_codepoint
not_bad_two c high = ground arith

pub at_two :
    (c : ℕ) (rest : List ℕ)
    → 0x80 ≤ c
    → c < 0x800
    → codepoint_at (0xc0 + c / 64) ((0x80 + c % 64) ∷ rest) ≡ some rest
at_two c rest low high =
    let whole : c / 64 * 64 + c % 64 ≡ c = omega arith in
    codepoint_at-parts (0xc0 + c / 64) (c / 64) 1 c ((0x80 + c % 64) ∷ rest) rest (omega arith)
      (lead_two (c / 64) (omega arith) (omega arith))
      (rw (continue_one 0 (c / 64) (c % 64) rest (omega arith), continue_zero, whole) refl)
      (not_bad_two c high)

not_bad_three : (c : ℕ) → 0x800 ≤ c → c < 0x10000 → IsScalar c → bad_codepoint 2 c ≡ false
unfolding bad_codepoint
not_bad_three c low high scalar = ground arith

pub at_three :
    (c : ℕ) (rest : List ℕ)
    → 0x800 ≤ c
    → c < 0x10000
    → IsScalar c
    → codepoint_at (0xe0 + c / 4096) ((0x80 + c / 64 % 64) ∷ (0x80 + c % 64) ∷ rest) ≡ some rest
at_three c rest low high scalar =
    let whole : (c / 4096 * 64 + c / 64 % 64) * 64 + c % 64 ≡ c = omega arith in
    codepoint_at-parts (0xe0 + c / 4096) (c / 4096) 2 c
      ((0x80 + c / 64 % 64) ∷ (0x80 + c % 64) ∷ rest) rest (omega arith)
      (lead_three (c / 4096) (omega arith))
      (rw
        (
          continue_one 1 (c / 4096) (c / 64 % 64) ((0x80 + c % 64) ∷ rest) (omega arith),
          continue_one 0 (c / 4096 * 64 + c / 64 % 64) (c % 64) rest (omega arith),
          continue_zero,
          whole,
        )
        refl)
      (not_bad_three c low high scalar)

not_bad_four : (c : ℕ) → 0x10000 ≤ c → c < 0x110000 → bad_codepoint 3 c ≡ false
unfolding bad_codepoint
not_bad_four c low high = ground arith

pub at_four :
    (c : ℕ) (rest : List ℕ)
    → 0x10000 ≤ c
    → c < 0x110000
    → codepoint_at
        (0xf0 + c / 262144)
        ((0x80 + c / 4096 % 64) ∷ (0x80 + c / 64 % 64) ∷ (0x80 + c % 64) ∷ rest)
      ≡ some rest
at_four c rest low high =
    let whole : ((c / 262144 * 64 + c / 4096 % 64) * 64 + c / 64 % 64) * 64 + c % 64 ≡ c =
      omega arith in
    codepoint_at-parts (0xf0 + c / 262144) (c / 262144) 3 c
      ((0x80 + c / 4096 % 64) ∷ (0x80 + c / 64 % 64) ∷ (0x80 + c % 64) ∷ rest) rest (omega arith)
      (lead_four (c / 262144) (omega arith))
      (rw
        (
          continue_one 2 (c / 262144) (c / 4096 % 64)
              ((0x80 + c / 64 % 64) ∷ (0x80 + c % 64) ∷ rest) (omega arith),
          continue_one 1 (c / 262144 * 64 + c / 4096 % 64) (c / 64 % 64) ((0x80 + c % 64) ∷ rest)
              (omega arith),
          continue_one 0 ((c / 262144 * 64 + c / 4096 % 64) * 64 + c / 64 % 64) (c % 64) rest
              (omega arith),
          continue_zero,
          whole,
        )
        refl)
      (not_bad_four c low high)

-- ===== src/Image/Utf8.antt =====
-- `valid_utf8` of src/image.c.
pub mod Scalars
pub mod Inverse
pub mod Exact
use hermas.Base.{
  ℕ, zero, suc, ◌+◌, ◌*◌, ◌/◌, ◌%◌, Bool, true, false, not, ◌&&◌, ◌||◌, Option, none, some, List,
  [], ◌∷◌, length, ltb, leb, ◌==◌, ◌!=◌, if◌then◌else◌,
}

-- The bits of the code point in a first byte, and the number of bytes that continue it. A mask of
-- low bits is a remainder.
unfoldable pub lead : ℕ → Option (ℕ × ℕ)
lead first =
    if leb 0xc2 first && leb first 0xdf
    then some (first % 32, 1)
    else if leb 0xe0 first && leb first 0xef
    then some (first % 16, 2)
    else if leb 0xf0 first && leb first 0xf4
    then some (first % 8, 3)
    else none

-- The bytes that continue a code point, with the bytes after them; `none` is the return of `false`,
-- also where the bytes run out. `(next & 0xc0) != 0x80` looks at the two high bits.
unfoldable pub continue : ℕ → ℕ → List ℕ → Option (ℕ × List ℕ)
continue zero codepoint bytes = some (codepoint, bytes)
continue (suc rounds) codepoint [] = none
continue (suc rounds) codepoint (next ∷ bytes) =
    let rest = continue rounds (codepoint * 64 + next % 64) bytes in
    if next / 64 % 4 != 2 then none else rest

unfoldable pub bad_codepoint : ℕ → ℕ → Bool
bad_codepoint continuation codepoint =
    (continuation == 2 && ltb codepoint 0x800)
    || (continuation == 3 && ltb codepoint 0x10000)
    || (leb 0xd800 codepoint && leb codepoint 0xdfff)
    || ltb 0x10ffff codepoint

-- One code point at the front, `none` is the return of `false`: the bytes after it.
unfoldable pub codepoint_at : ℕ → List ℕ → Option (List ℕ)
unfolding lead continue bad_codepoint
codepoint_at first bytes = if leb first 0x7f then some bytes else elim (lead first) [
  | none ↦ none
  | some (bits, continuation) ↦ elim (continue continuation bits bytes) [
    | none ↦ none
    | some (codepoint, rest) ↦ if bad_codepoint continuation codepoint then none else some rest
  ]
]

-- The loop: each round takes at least a byte, so as many rounds as bytes are enough.
unfoldable pub utf8_rounds : ℕ → List ℕ → Bool
unfolding codepoint_at
utf8_rounds rounds [] = true
utf8_rounds zero (first ∷ bytes) = false
utf8_rounds (suc rounds) (first ∷ bytes) = elim (codepoint_at first bytes) [
  | none ↦ false
  | some rest ↦ utf8_rounds rounds rest
]

unfoldable pub valid_utf8 : List ℕ → Bool
unfolding utf8_rounds
valid_utf8 bytes = utf8_rounds (length bytes) bytes

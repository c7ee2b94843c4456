-- ===== src/Image/Utf8/Inverse.antt =====
-- `codepoint_at` of Image.Utf8, read backwards: the scalar value in front of bytes that it takes.
use hermas.Base.{
  ℕ, suc, ◌+◌, ◌*◌, ◌/◌, ◌%◌, ◌≤◌, ◌<◌, ◌≡◌, ◌⊎◌, refl, ap, sym, ◌∙◌, subst, arith, inl, inr, true,
  false, Option, some, List, [], ◌∷◌, ◌++◌, All, ltb, leb, ◌!=◌, ◌&&◌, Bool-cases, Option-cases,
}
use hermas.Bytes.{IsByte}
use hermas.Image.Utf8.{lead, continue, bad_codepoint, codepoint_at}
use hermas.Image.Utf8.Scalars.{IsScalar, encode_scalar}

-- The bits and the number of bytes that continue the code point, from its first byte.
IsLead : ℕ → ℕ → ℕ → Type 0
IsLead first bits n =
    ((n ≡ 1) × (first ≡ 0xc0 + bits) × (2 ≤ bits) × (bits < 32))
    ⊎ ((n ≡ 2) × (first ≡ 0xe0 + bits) × (bits < 16))
    ⊎ ((n ≡ 3) × (first ≡ 0xf0 + bits) × (bits < 8))

lead-IsLead : (first bits n : ℕ) → lead first ≡ some (bits, n) → IsLead first bits n
unfolding lead IsLead
lead-IsLead first bits n h = elim (Bool-cases (leb 0xc2 first && leb first 0xdf)) [
  | inl two ↦
      let h' : Path (Option (ℕ × ℕ)) (some (first % 32, 1)) (some (bits, n)) = rw two at h in
      let same : first % 32 ≡ bits = cc in
      let same' : 1 ≡ n = cc in inl (sym same', ground arith, ground arith, ground arith)
  | inr not_two ↦ elim (Bool-cases (leb 0xe0 first && leb first 0xef)) [
    | inl three ↦
        let h' : Path (Option (ℕ × ℕ)) (some (first % 16, 2)) (some (bits, n)) =
          rw (not_two, three) at h in
        let same : first % 16 ≡ bits = cc in
        let same' : 2 ≡ n = cc in inr (inl (sym same', ground arith, ground arith))
    | inr not_three ↦ elim (Bool-cases (leb 0xf0 first && leb first 0xf4)) [
      | inl four ↦
          let h' : Path (Option (ℕ × ℕ)) (some (first % 8, 3)) (some (bits, n)) =
            rw (not_two, not_three, four) at h in
          let same : first % 8 ≡ bits = cc in
          let same' : 3 ≡ n = cc in inr (inr (sym same', ground arith, ground arith))
      | inr not_four ↦ absurd (let stuck = rw (not_two, not_three, not_four) at h in cc)
    ]
  ]
]

continue_back :
    (n c : ℕ) (bytes : List ℕ) (found : ℕ × List ℕ)
    → All IsByte bytes
    → continue (suc n) c bytes ≡ some found
    → (y : ℕ) × (tail : List ℕ) × Path (List ℕ) bytes ((0x80 + y) ∷ tail)
      × (y < 64)
      × All IsByte tail
      × (continue n (c * 64 + y) tail ≡ some found)
unfolding continue
continue_back n c [] found byte h = absurd (cc)
continue_back n c (b ∷ bytes) found byte h = elim (Bool-cases (b / 64 % 4 != 2)) [
  | inl bad ↦ absurd (let stuck = rw bad at h in cc)
  | inr fits ↦
      let small = byte.0 in
      let e : b ≡ 0x80 + b % 64 = ground arith in
      (b % 64, bytes, ap (λ (x : ℕ). x ∷ bytes) e, omega arith, byte.1, rw fits at h)
]

continue_end :
    (c c' : ℕ) (bytes rest : List ℕ)
    → continue 0 c bytes ≡ some (c', rest)
    → (c ≡ c') × (bytes ≡ rest)
unfolding continue
continue_end c c' bytes rest h = (cc, cc)

good_two : (c : ℕ) → bad_codepoint 2 c ≡ false → (0x800 ≤ c) × ((c < 0xd800) ⊎ (0xdfff < c))
unfolding bad_codepoint
good_two c h = ground arith

good_three : (c : ℕ) → bad_codepoint 3 c ≡ false → (0x10000 ≤ c) × (c < 0x110000)
unfolding bad_codepoint
good_three c h = ground arith

encode_one : (c : ℕ) → c < 0x80 → encode_scalar c ≡ c ∷ []
unfolding encode_scalar
encode_one c high = ground arith

encode_two :
    (x y : ℕ) → 2 ≤ x → x < 32 → y < 64 → encode_scalar (x * 64 + y) ≡ (0xc0 + x) ∷ (0x80 + y) ∷ []
unfolding encode_scalar
encode_two x y low high fits =
    let c = x * 64 + y in
    let e : c / 64 ≡ x = omega arith in
    let e' : c % 64 ≡ y = omega arith in
    let more : ltb c 0x80 ≡ false = ground arith in
    let less : ltb c 0x800 ≡ true = ground arith in rw (more, less, e, e') refl

encode_three :
    (x y z : ℕ)
    → 0x800 ≤ (x * 64 + y) * 64 + z
    → x < 16
    → y < 64
    → z < 64
    → encode_scalar ((x * 64 + y) * 64 + z) ≡ (0xe0 + x) ∷ (0x80 + y) ∷ (0x80 + z) ∷ []
unfolding encode_scalar
encode_three x y z low high fits fits' =
    let c = (x * 64 + y) * 64 + z in
    let e : c / 4096 ≡ x = omega arith in
    let e' : c / 64 % 64 ≡ y = omega arith in
    let e'' : c % 64 ≡ z = omega arith in
    let more : ltb c 0x80 ≡ false = ground arith in
    let more' : ltb c 0x800 ≡ false = ground arith in
    let less : ltb c 0x10000 ≡ true = ground arith in rw (more, more', less, e, e', e'') refl

encode_four :
    (x y z w : ℕ)
    → 0x10000 ≤ ((x * 64 + y) * 64 + z) * 64 + w
    → y < 64
    → z < 64
    → w < 64
    → encode_scalar (((x * 64 + y) * 64 + z) * 64 + w)
      ≡ (0xf0 + x) ∷ (0x80 + y) ∷ (0x80 + z) ∷ (0x80 + w) ∷ []
unfolding encode_scalar
encode_four x y z w low fits fits' fits'' =
    let c = ((x * 64 + y) * 64 + z) * 64 + w in
    let e : c / 262144 ≡ x = omega arith in
    let e1 : c / 4096 % 64 ≡ y = omega arith in
    let e2 : c / 64 % 64 ≡ z = omega arith in
    let e3 : c % 64 ≡ w = omega arith in
    let more : ltb c 0x80 ≡ false = ground arith in
    let more' : ltb c 0x800 ≡ false = ground arith in
    let more'' : ltb c 0x10000 ≡ false = ground arith in
    rw (more, more', more'', e, e1, e2, e3) refl

-- What the cases below show.
unfoldable pub Front : ℕ → List ℕ → List ℕ → Type 0
Front first bytes rest =
    (c : ℕ) × IsScalar c × Path (List ℕ) (first ∷ bytes) (encode_scalar c ++ rest)

Front-one : (first : ℕ) (bytes : List ℕ) → first < 0x80 → Front first bytes bytes
unfolding Front
Front-one first bytes small =
    (first, (omega arith, inl (omega arith)), rw (encode_one first small) refl)

Front-two :
    (bits c : ℕ) (bytes rest : List ℕ)
    → All IsByte bytes
    → 2 ≤ bits
    → bits < 32
    → continue 1 bits bytes ≡ some (c, rest)
    → Front (0xc0 + bits) bytes rest
unfolding Front
Front-two bits c bytes rest byte low high h =
    let (y, tail, e, fits, byte', h1) = continue_back 0 bits bytes (c, rest) byte h in
    let (same, same') = continue_end (bits * 64 + y) c tail rest h1 in
    (
      bits * 64 + y,
      (omega arith, inl (omega arith)),
      rw (e, encode_two bits y low high fits, same') refl,
    )

Front-three :
    (bits c : ℕ) (bytes rest : List ℕ)
    → All IsByte bytes
    → bits < 16
    → continue 2 bits bytes ≡ some (c, rest)
    → bad_codepoint 2 c ≡ false
    → Front (0xe0 + bits) bytes rest
unfolding Front
Front-three bits c bytes rest byte high h good =
    let (y, tail, e, fits, byte', h1) = continue_back 1 bits bytes (c, rest) byte h in
    let (z, tail', e', fits', _, h2) = continue_back 0 (bits * 64 + y) tail (c, rest) byte' h1 in
    let (same, same') = continue_end ((bits * 64 + y) * 64 + z) c tail' rest h2 in
    let (low, scalar) = good_two c good in
    let low' : 0x800 ≤ (bits * 64 + y) * 64 + z = rw same low in
    (
      (bits * 64 + y) * 64 + z,
      (omega arith, rw same scalar),
      rw (e, e', encode_three bits y z low' high fits fits', same') refl,
    )

Front-four :
    (bits c : ℕ) (bytes rest : List ℕ)
    → All IsByte bytes
    → continue 3 bits bytes ≡ some (c, rest)
    → bad_codepoint 3 c ≡ false
    → Front (0xf0 + bits) bytes rest
unfolding Front
Front-four bits c bytes rest byte h good =
    let (y, tail, e, fits, byte', h1) = continue_back 2 bits bytes (c, rest) byte h in
    let (z, tail', e', fits', byte'', h2) =
      continue_back 1 (bits * 64 + y) tail (c, rest) byte' h1 in
    let (w, tail'', e'', fits'', _, h3) =
      continue_back 0 ((bits * 64 + y) * 64 + z) tail' (c, rest) byte'' h2 in
    let (same, same') = continue_end (((bits * 64 + y) * 64 + z) * 64 + w) c tail'' rest h3 in
    let (low, high) = good_three c good in
    let low' : 0x10000 ≤ ((bits * 64 + y) * 64 + z) * 64 + w = rw same low in
    (
      ((bits * 64 + y) * 64 + z) * 64 + w,
      (rw same high, inr (omega arith)),
      rw (e, e', e'', encode_four bits y z w low' fits fits' fits'', same') refl,
    )

-- A code point from its parts.
Front-parts :
    (first bits n c : ℕ) (bytes rest : List ℕ)
    → All IsByte bytes
    → IsLead first bits n
    → continue n bits bytes ≡ some (c, rest)
    → bad_codepoint n c ≡ false
    → Front first bytes rest
unfolding IsLead
Front-parts first bits n c bytes rest byte (inl (e, e', low, high)) h good =
    rw e' (Front-two bits c bytes rest byte low high (rw e at h))
Front-parts first bits n c bytes rest byte (inr (inl (e, e', high))) h good =
    rw e' (Front-three bits c bytes rest byte high (rw e at h) (rw e at good))
Front-parts first bits n c bytes rest byte (inr (inr (e, e', high))) h good =
    rw e' (Front-four bits c bytes rest byte (rw e at h) (rw e at good))

pub codepoint_at-Front :
    (first : ℕ) (bytes rest : List ℕ)
    → All IsByte bytes
    → codepoint_at first bytes ≡ some rest
    → Front first bytes rest
unfolding codepoint_at
codepoint_at-Front first bytes rest byte h = elim (Bool-cases (leb first 0x7f)) [
  | inl small ↦
      let same : bytes ≡ rest = let h' = rw small at h in cc in
      subst (λ (xs : List ℕ). Front first bytes xs) same (Front-one first bytes (ground arith))
  | inr large ↦ elim (Option-cases (lead first)) [
    | inl absent ↦ absurd (let stuck = rw (large, absent) at h in cc)
    | inr ((bits, n), found) ↦ elim (Option-cases (continue n bits bytes)) [
      | inl absent ↦ absurd (let stuck = rw (large, found, absent) at h in cc)
      | inr ((c, rest'), parts) ↦ elim (Bool-cases (bad_codepoint n c)) [
        | inl bad ↦ absurd (let stuck = rw (large, found, parts, bad) at h in cc)
        | inr good ↦
            let same : rest' ≡ rest = let h' = rw (large, found, parts, good) at h in cc in
            Front-parts first bits n c bytes rest byte (lead-IsLead first bits n found)
              (parts ∙ ap (λ (xs : List ℕ). some (c, xs)) same) good
      ]
    ]
  ]
]

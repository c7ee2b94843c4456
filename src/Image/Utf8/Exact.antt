-- ===== src/Image/Utf8/Exact.antt =====
-- `valid_utf8` of src/image.c against the encoding of Unicode scalar values.
use hermas.Base.{
  ℕ, zero, suc, ◌+◌, ◌/◌, ◌%◌, ◌≤◌, ◌<◌, ◌≡◌, refl, ap, sym, ◌∙◌, arith, inl, inr, true, some, List,
  [], ◌∷◌, ◌++◌, length, All, ltb, leb, Bool-cases, Option-cases, subst, length-append,
}
use hermas.Bytes.{IsByte}
use hermas.Image.Utf8.{codepoint_at, utf8_rounds, valid_utf8}
use hermas.Image.Utf8.Scalars.{IsScalar, encode_scalar, at_two, at_three, at_four}
use hermas.Image.Utf8.Inverse.{Front, codepoint_at-Front}

-- The encoding of a text.
unfoldable pub encode_all : List ℕ → List ℕ
unfolding encode_scalar
encode_all [] = []
encode_all (c ∷ cs) = encode_scalar c ++ encode_all cs

at_one : (first : ℕ) (rest : List ℕ) → first < 0x80 → codepoint_at first rest ≡ some rest
unfolding codepoint_at
at_one first rest small = let low : leb first 0x7f ≡ true = ground arith in rw low refl

utf8_rounds-step :
    (n first : ℕ) (bytes rest : List ℕ)
    → codepoint_at first bytes ≡ some rest
    → utf8_rounds (suc n) (first ∷ bytes) ≡ utf8_rounds n rest
unfolding utf8_rounds
utf8_rounds-step n first bytes rest e = rw (e, utf8_rounds) refl

-- One round on the encoding of a scalar value.
utf8_rounds-encode_scalar :
    (n c : ℕ) (rest : List ℕ)
    → IsScalar c
    → utf8_rounds (suc n) (encode_scalar c ++ rest) ≡ utf8_rounds n rest
unfolding encode_scalar
utf8_rounds-encode_scalar n c rest scalar =
    let over = λ (xs : List ℕ). utf8_rounds (suc n) (xs ++ rest) in
    elim (Bool-cases (ltb c 0x80)) [
      | inl one ↦
          let shape : encode_scalar c ≡ c ∷ [] = rw one refl in
          ap over shape ∙ utf8_rounds-step n c rest rest (at_one c rest (ground arith))
      | inr not_one ↦ elim (Bool-cases (ltb c 0x800)) [
        | inl two ↦
            let shape : encode_scalar c ≡ (0xc0 + c / 64) ∷ (0x80 + c % 64) ∷ [] =
              rw (not_one, two) refl in
            ap over shape
            ∙ utf8_rounds-step n (0xc0 + c / 64) ((0x80 + c % 64) ∷ rest) rest
                (at_two c rest (ground arith) (ground arith))
        | inr not_two ↦ elim (Bool-cases (ltb c 0x10000)) [
          | inl three ↦
              let shape : encode_scalar c
                  ≡ (0xe0 + c / 4096) ∷ (0x80 + c / 64 % 64) ∷ (0x80 + c % 64) ∷ [] =
                rw (not_one, not_two, three) refl in
              ap over shape
              ∙ utf8_rounds-step n (0xe0 + c / 4096) ((0x80 + c / 64 % 64) ∷ (0x80 + c % 64) ∷ rest)
                  rest (at_three c rest (ground arith) (ground arith) scalar)
          | inr not_three ↦
              let shape : encode_scalar c
                  ≡ (0xf0 + c / 262144)
                    ∷ (0x80 + c / 4096 % 64)
                    ∷ (0x80 + c / 64 % 64)
                    ∷ (0x80 + c % 64)
                    ∷ [] =
                rw (not_one, not_two, not_three) refl in
              ap over shape
              ∙ utf8_rounds-step n (0xf0 + c / 262144)
                  ((0x80 + c / 4096 % 64) ∷ (0x80 + c / 64 % 64) ∷ (0x80 + c % 64) ∷ rest) rest
                  (at_four c rest (ground arith) scalar.0)
        ]
      ]
    ]

length-encode_scalar : (c : ℕ) → 1 ≤ length (encode_scalar c)
unfolding encode_scalar
length-encode_scalar c = ground arith

utf8_rounds-nil : (n : ℕ) → utf8_rounds n [] ≡ true
unfolding utf8_rounds
utf8_rounds-nil zero = refl
utf8_rounds-nil (suc n) = refl

utf8_rounds-encode_all :
    (n : ℕ) (cs : List ℕ)
    → All IsScalar cs
    → length (encode_all cs) ≤ n
    → utf8_rounds n (encode_all cs) ≡ true
unfolding encode_all
utf8_rounds-encode_all n [] scalars enough = utf8_rounds-nil n
utf8_rounds-encode_all zero (c ∷ cs) scalars enough =
    absurd (omega (arith, length-append (encode_scalar c) (encode_all cs), length-encode_scalar c))
utf8_rounds-encode_all (suc n) (c ∷ cs) scalars enough =
    utf8_rounds-encode_scalar n c (encode_all cs) scalars.0
    ∙ utf8_rounds-encode_all n cs scalars.1
        (omega (arith, length-append (encode_scalar c) (encode_all cs), length-encode_scalar c))

-- The tail of bytes.
All-tail : (xs ys : List ℕ) → All IsByte (xs ++ ys) → All IsByte ys
All-tail [] ys h = h
All-tail (x ∷ xs) ys h = All-tail xs ys h.1

utf8_rounds-scalars :
    (n : ℕ) (bytes : List ℕ)
    → All IsByte bytes
    → utf8_rounds n bytes ≡ true
    → (cs : List ℕ) × All IsScalar cs × (bytes ≡ encode_all cs)
unfolding utf8_rounds encode_all Front
utf8_rounds-scalars n [] byte h = ([], tt, refl)
utf8_rounds-scalars zero (b ∷ bytes) byte h = absurd (cc)
utf8_rounds-scalars (suc n) (b ∷ bytes) byte h = elim (Option-cases (codepoint_at b bytes)) [
  | inl absent ↦ absurd (let stuck = rw (absent, utf8_rounds) at h in cc)
  | inr (rest, found) ↦
      let (c, scalar, front) = codepoint_at-Front b bytes rest byte.1 found in
      let inside =
        All-tail (encode_scalar c) rest (subst (λ (xs : List ℕ). All IsByte xs) front byte) in
      let (cs, scalars, same) =
        utf8_rounds-scalars n rest inside (sym (utf8_rounds-step n b bytes rest found) ∙ h) in
      (c ∷ cs, (scalar, scalars), front ∙ ap (λ (xs : List ℕ). encode_scalar c ++ xs) same)
]

-- Of bytes, `valid_utf8` accepts exactly the encodings of texts: sequences of Unicode scalar values,
-- numbers up to 0x10ffff that are no surrogates, each written in the one to four bytes of its range.
pub valid_utf8-encode_all :
    (bytes : List ℕ)
    → All IsByte bytes
    → ((valid_utf8 bytes ≡ true) → (cs : List ℕ) × All IsScalar cs × (bytes ≡ encode_all cs))
      × ((cs : List ℕ) → All IsScalar cs → bytes ≡ encode_all cs → valid_utf8 bytes ≡ true)
unfolding valid_utf8
valid_utf8-encode_all bytes byte = (
  utf8_rounds-scalars (length bytes) bytes byte,
  λ cs scalars same.
      rw same (utf8_rounds-encode_all (length (encode_all cs)) cs scalars (omega arith)),
)

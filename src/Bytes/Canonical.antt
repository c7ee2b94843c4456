-- ===== src/Bytes/Canonical.antt =====
-- A buffer that holds the fields of a record is the bytes of these fields, so a record has one
-- encoding only.
use hermas.Base.{
  ℕ, zero, suc, ◌+◌, ◌*◌, ◌/◌, ◌%◌, ◌^◌, ◌≤◌, ◌<◌, ◌≡◌, refl, sym, ap, ◌∙◌, arith, List, [], ◌∷◌,
  ◌++◌, All, length, take, take-append, drop, append_assoc,
}
use hermas.Bytes.{IsByte, byte_at}
use hermas.Bytes.Words.{read_le, byte_at-IsByte}
use hermas.Bytes.Fields.{
  Field, word_bytes, field_bytes, total_width, length-field_bytes, Holds, shift_byte,
}

drop-byte_at :
    (bytes : List ℕ) (offset : ℕ)
    → offset < length bytes
    → drop offset bytes ≡ byte_at bytes offset ∷ drop (suc offset) bytes
drop-byte_at [] offset h = absurd (omega arith)
drop-byte_at (b ∷ bytes) zero h = refl
drop-byte_at (b ∷ bytes) (suc offset) h = drop-byte_at bytes offset (omega arith)

module _ (bytes : List ℕ) (h : All IsByte bytes) where
  word_bytes-read_le :
      (width index value offset : ℕ)
      → value / 2 ^ (index * 8) ≡ read_le width bytes offset
      → offset + width ≤ length bytes
      → word_bytes width index value ++ drop (offset + width) bytes ≡ drop offset bytes
  word_bytes-read_le zero index value offset e fits =
      ap (λ (t : ℕ). drop t bytes) (let z : offset + 0 ≡ offset = omega arith in z)
  word_bytes-read_le (suc width) index value offset e fits =
      let b = byte_at bytes offset in
      let small : b < 256 = byte_at-IsByte bytes offset h in
      let low : value / 2 ^ (index * 8) % 256 ≡ b = omega arith in
      let high : value / 2 ^ ((index + 1) * 8) ≡ read_le width bytes (suc offset) =
        omega (arith, shift_byte value index) in
      let next : offset + suc width ≡ suc offset + width = omega arith in
      rw (low, next, drop-byte_at bytes offset (omega arith))
        (ap (λ (t : List ℕ). b ∷ t)
          (word_bytes-read_le width (index + 1) value (suc offset) high (omega arith)))

  field_bytes-Holds :
      (fields : List Field) (offset : ℕ)
      → Holds fields bytes offset
      → offset + total_width fields ≤ length bytes
      → field_bytes fields ++ drop (offset + total_width fields) bytes ≡ drop offset bytes
  field_bytes-Holds [] offset held fits =
      ap (λ (t : ℕ). drop t bytes) (let z : offset + 0 ≡ offset = omega arith in z)
  field_bytes-Holds ((width, value) ∷ fields) offset held fits =
      let e : offset + (width + total_width fields) ≡ offset + width + total_width fields =
        omega arith in
      rw
        (
          e,
          append_assoc (word_bytes width 0 value) (field_bytes fields) _,
          field_bytes-Holds fields (offset + width) held.1 (omega arith),
        )
        (word_bytes-read_le width 0 value offset (omega (arith, held.0)) (omega arith))

  pub field_bytes-take :
      (fields : List Field)
      → Holds fields bytes 0
      → total_width fields ≤ length bytes
      → field_bytes fields ≡ take (total_width fields) bytes
  field_bytes-take fields held fits =
      let whole : field_bytes fields ++ drop (0 + total_width fields) bytes ≡ bytes =
        field_bytes-Holds fields 0 held (omega arith) in
      let front = take-append (field_bytes fields) (drop (0 + total_width fields) bytes) in
      sym front ∙ rw (whole, length-field_bytes fields) refl

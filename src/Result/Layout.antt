-- ===== src/Result/Layout.antt =====
-- The bytes of a record of the result store: the header fields, then the value.
use hermas.Base.{
  ℕ, ◌+◌, ◌≤◌, ◌≡◌, refl, ap, ◌∙◌, arith, List, [], ◌∷◌, ◌++◌, length, take, drop, length-take,
  length-drop, drop-drop, overwrite, overwrite_front, overwrite_nil, take_zero, ◌!=◌, Bool-cases,
  inl, inr,
}
use hermas.Bytes.{write_u32, write_u64}
use hermas.Bytes.Words.{write_u16-write_loop}
use hermas.Bytes.Fields.{Field, field_bytes, word_bytes}
use hermas.Crc.{checksum_parts}
use hermas.Crc.Parts.{checksum_parts-take, take_value}
use hermas.Result.{
  ResultRecord, version, header_size, summed_size, pointee, write_header, write_value, write_record,
}

-- The 56 bytes of the header that are summed.
abbrev pub body_fields : ResultRecord → List Field
body_fields r =
    (1, b'H')
    ∷ (1, b'R')
    ∷ (1, b'S')
    ∷ (1, b'1')
    ∷ (2, version)
    ∷ (2, header_size)
    ∷ (4, header_size + r.value_length)
    ∷ (4, r.value_length)
    ∷ (8, r.sequence)
    ∷ (8, r.key.execution_id)
    ∷ (4, r.key.workflow_id)
    ∷ (4, 0)
    ∷ (8, r.key.image_fingerprint)
    ∷ (2, r.outcome)
    ∷ (2, r.source_type)
    ∷ (2, r.destination_type)
    ∷ (2, 0)
    ∷ []

unfoldable pub body_bytes : ResultRecord → List ℕ
body_bytes r = field_bytes (body_fields r)

abbrev pub value_bytes : ResultRecord → List ℕ
value_bytes r = take r.value_length (pointee r.value)

abbrev pub checksum_of : ResultRecord → ℕ
checksum_of r = checksum_parts summed_size (body_bytes r) (value_bytes r) r.value_length

unfoldable pub header_bytes : ResultRecord → ℕ → List ℕ
unfolding body_bytes
header_bytes r sum = body_bytes r ++ word_bytes 4 0 sum ++ word_bytes 4 0 0

unfoldable pub record_bytes : ResultRecord → List ℕ
unfolding header_bytes
record_bytes r = header_bytes r (checksum_of r) ++ value_bytes r

write_header-bytes :
    (r : ResultRecord) (d : List ℕ)
    → header_size ≤ length d
    → write_header r (header_size + r.value_length) d ≡ header_bytes r 0 ++ drop header_size d
unfolding write_header write_u64 write_u32 header_bytes
write_header-bytes r d h = rw (overwrite_front d _ h) (simp write_u16-write_loop)

write_value-bytes :
    (r : ResultRecord) (rest : List ℕ)
    → write_value r (header_bytes r 0 ++ rest)
      ≡ header_bytes r 0 ++ overwrite rest 0 (value_bytes r)
unfolding write_value header_bytes
write_value-bytes r rest = elim (Bool-cases (r.value_length != 0)) [
  | inl some_value ↦ rw some_value refl
  | inr no_value ↦
      rw (no_value, take_zero r.value_length (pointee r.value) (ground arith), overwrite_nil rest)
        refl
]

write_checksum :
    (r : ResultRecord) (rest : List ℕ) (sum : ℕ)
    → write_u32 (header_bytes r 0 ++ rest) 56 sum ≡ header_bytes r sum ++ rest
unfolding write_u32 header_bytes
write_checksum r rest sum = refl

summed-header :
    (r : ResultRecord) (sum : ℕ) (rest : List ℕ)
    → take summed_size (header_bytes r sum ++ rest) ≡ take summed_size (body_bytes r)
unfolding header_bytes
summed-header r sum rest = refl

behind-header :
    (r : ResultRecord) (sum : ℕ) (rest : List ℕ)
    → drop header_size (header_bytes r sum ++ rest) ≡ rest
unfolding header_bytes
behind-header r sum rest = refl

-- The checksum of a buffer that starts with the header and the value.
pub checksum_parts-bytes :
    (r : ResultRecord) (sum : ℕ) (rest : List ℕ)
    → r.value_length ≤ length (pointee r.value)
    → checksum_parts summed_size
        (header_bytes r sum ++ (value_bytes r ++ rest))
        (drop header_size (header_bytes r sum ++ (value_bytes r ++ rest)))
        r.value_length
      ≡ checksum_of r
checksum_parts-bytes r sum rest h =
    checksum_parts-take summed_size r.value_length (header_bytes r sum ++ (value_bytes r ++ rest))
      (body_bytes r) (drop header_size (header_bytes r sum ++ (value_bytes r ++ rest)))
      (value_bytes r) (summed-header r sum (value_bytes r ++ rest))
      (ap (take r.value_length) (behind-header r sum (value_bytes r ++ rest))
        ∙ take_value r.value_length (pointee r.value) rest h)

value_front :
    (r : ResultRecord) (d : List ℕ)
    → r.value_length ≤ length (pointee r.value)
    → header_size + r.value_length ≤ length d
    → overwrite (drop header_size d) 0 (value_bytes r)
      ≡ value_bytes r ++ drop (header_size + r.value_length) d
value_front r d readable fits =
    rw
      (
        overwrite_front (drop header_size d) (value_bytes r) (
            omega (
              arith,
              length-drop header_size d,
              length-take r.value_length (pointee r.value) readable,
            )),
        drop-drop (length (value_bytes r)) header_size d,
        length-take r.value_length (pointee r.value) readable,
      )
      refl

pub write_record-bytes :
    (r : ResultRecord) (d : List ℕ)
    → r.value_length ≤ length (pointee r.value)
    → header_size + r.value_length ≤ length d
    → write_record r (header_size + r.value_length) d
      ≡ record_bytes r ++ drop (header_size + r.value_length) d
unfolding write_record record_bytes
write_record-bytes r d readable fits = rw (
  write_header-bytes r d (omega arith),
  write_value-bytes r (drop header_size d),
  value_front r d readable fits,
  checksum_parts-bytes r 0 (drop (header_size + r.value_length) d) readable,
  write_checksum r (value_bytes r ++ drop (header_size + r.value_length) d) (checksum_of r),
)

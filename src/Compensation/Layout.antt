-- ===== src/Compensation/Layout.antt =====
-- The bytes of a record of the compensation store: the header fields, then the token.
use hermas.Base.{
  ℕ, ◌+◌, ◌≤◌, ◌≡◌, refl, ap, ◌∙◌, arith, List, [], ◌∷◌, ◌++◌, length, take, drop, length-take,
  length-drop, drop-drop, overwrite, overwrite_front, overwrite_nil, take_zero, ◌!=◌, Bool-cases,
  inl, inr,
}
use hermas.Bytes.{write_u32, write_u64}
use hermas.Bytes.Words.{write_u16-write_loop}
use hermas.Bytes.Fields.{Field, field_bytes, word_bytes}
use hermas.Crc.{checksum_parts}
use hermas.Crc.Parts.{checksum_parts-take, take_value}
use hermas.Compensation.{
  CompensationRecord, version, header_size, summed_size, pointee, write_header, write_token,
  write_record,
}

-- The 68 bytes of the header that are summed.
abbrev pub body_fields : CompensationRecord → List Field
body_fields r =
    (1, b'H')
    ∷ (1, b'C')
    ∷ (1, b'T')
    ∷ (1, b'1')
    ∷ (2, version)
    ∷ (2, header_size)
    ∷ (4, header_size + r.token_length)
    ∷ (4, r.token_length)
    ∷ (8, r.sequence)
    ∷ (8, r.key.execution_id)
    ∷ (4, r.key.workflow_id)
    ∷ (8, r.key.request_id)
    ∷ (2, r.key.node_id)
    ∷ (2, r.compensation_app_id)
    ∷ (2, r.compensation_action_id)
    ∷ (2, r.source_type)
    ∷ (2, r.destination_type)
    ∷ (2, 0)
    ∷ (8, r.key.image_fingerprint)
    ∷ (4, 0)
    ∷ []

unfoldable pub body_bytes : CompensationRecord → List ℕ
body_bytes r = field_bytes (body_fields r)

abbrev pub token_bytes : CompensationRecord → List ℕ
token_bytes r = take r.token_length (pointee r.token)

abbrev pub checksum_of : CompensationRecord → ℕ
checksum_of r = checksum_parts summed_size (body_bytes r) (token_bytes r) r.token_length

unfoldable pub header_bytes : CompensationRecord → ℕ → List ℕ
unfolding body_bytes
header_bytes r sum = body_bytes r ++ word_bytes 4 0 sum

unfoldable pub record_bytes : CompensationRecord → List ℕ
unfolding header_bytes
record_bytes r = header_bytes r (checksum_of r) ++ token_bytes r

write_header-bytes :
    (r : CompensationRecord) (d : List ℕ)
    → header_size ≤ length d
    → write_header r (header_size + r.token_length) d ≡ header_bytes r 0 ++ drop header_size d
unfolding write_header write_u64 write_u32 header_bytes
write_header-bytes r d h = rw (overwrite_front d _ h) (simp write_u16-write_loop)

write_token-bytes :
    (r : CompensationRecord) (rest : List ℕ)
    → write_token r (header_bytes r 0 ++ rest)
      ≡ header_bytes r 0 ++ overwrite rest 0 (token_bytes r)
unfolding write_token header_bytes
write_token-bytes r rest = elim (Bool-cases (r.token_length != 0)) [
  | inl some_value ↦ rw some_value refl
  | inr no_value ↦
      rw (no_value, take_zero r.token_length (pointee r.token) (ground arith), overwrite_nil rest)
        refl
]

write_checksum :
    (r : CompensationRecord) (rest : List ℕ) (sum : ℕ)
    → write_u32 (header_bytes r 0 ++ rest) 68 sum ≡ header_bytes r sum ++ rest
unfolding write_u32 header_bytes
write_checksum r rest sum = refl

summed-header :
    (r : CompensationRecord) (sum : ℕ) (rest : List ℕ)
    → take summed_size (header_bytes r sum ++ rest) ≡ take summed_size (body_bytes r)
unfolding header_bytes
summed-header r sum rest = refl

behind-header :
    (r : CompensationRecord) (sum : ℕ) (rest : List ℕ)
    → drop header_size (header_bytes r sum ++ rest) ≡ rest
unfolding header_bytes
behind-header r sum rest = refl

-- The checksum of a buffer that starts with the header and the token.
pub checksum_parts-bytes :
    (r : CompensationRecord) (sum : ℕ) (rest : List ℕ)
    → r.token_length ≤ length (pointee r.token)
    → checksum_parts summed_size
        (header_bytes r sum ++ (token_bytes r ++ rest))
        (drop header_size (header_bytes r sum ++ (token_bytes r ++ rest)))
        r.token_length
      ≡ checksum_of r
checksum_parts-bytes r sum rest h =
    checksum_parts-take summed_size r.token_length (header_bytes r sum ++ (token_bytes r ++ rest))
      (body_bytes r) (drop header_size (header_bytes r sum ++ (token_bytes r ++ rest)))
      (token_bytes r) (summed-header r sum (token_bytes r ++ rest))
      (ap (take r.token_length) (behind-header r sum (token_bytes r ++ rest))
        ∙ take_value r.token_length (pointee r.token) rest h)

value_front :
    (r : CompensationRecord) (d : List ℕ)
    → r.token_length ≤ length (pointee r.token)
    → header_size + r.token_length ≤ length d
    → overwrite (drop header_size d) 0 (token_bytes r)
      ≡ token_bytes r ++ drop (header_size + r.token_length) d
value_front r d readable fits =
    rw
      (
        overwrite_front (drop header_size d) (token_bytes r) (
            omega (
              arith,
              length-drop header_size d,
              length-take r.token_length (pointee r.token) readable,
            )),
        drop-drop (length (token_bytes r)) header_size d,
        length-take r.token_length (pointee r.token) readable,
      )
      refl

pub write_record-bytes :
    (r : CompensationRecord) (d : List ℕ)
    → r.token_length ≤ length (pointee r.token)
    → header_size + r.token_length ≤ length d
    → write_record r (header_size + r.token_length) d
      ≡ record_bytes r ++ drop (header_size + r.token_length) d
unfolding write_record record_bytes
write_record-bytes r d readable fits = rw (
  write_header-bytes r d (omega arith),
  write_token-bytes r (drop header_size d),
  value_front r d readable fits,
  checksum_parts-bytes r 0 (drop (header_size + r.token_length) d) readable,
  write_checksum r (token_bytes r ++ drop (header_size + r.token_length) d) (checksum_of r),
)

-- ===== src/Compensation/RoundTrip.antt =====
-- Decoding what `encode` writes for a record of the compensation store.
use hermas.Base.{
  ℕ, ◌+◌, ◌^◌, ◌<◌, ◌≤◌, ◌≡◌, refl, sym, arith, List, [], ◌∷◌, ◌++◌, some, true, false, All,
  All-append, All-take, All-drop, length, drop,
}
use hermas.Base.Check.{pass}
use hermas.Bytes.{IsByte, read_u16, read_u32, same_bytes}
use hermas.Bytes.Words.{read_u16-read_le, read_u32-read_le, read_u64-read_le}
use hermas.Bytes.Fields.{Field, field_bytes, Holds, Fit, Holds-field_bytes, field_bytes-IsByte}
use hermas.Crc.{checksum_parts}
use hermas.Crc.Parts.{checksum_parts-lt}
use hermas.Compensation.{
  CompensationRecord, ok, header_size, summed_size, pointee, record_valid, encode, decode,
  decode_record, decoded_record, header_refused,
}
use hermas.Compensation.Layout.{
  body_fields, body_bytes, token_bytes, checksum_of, header_bytes, record_bytes, write_record-bytes,
  checksum_parts-bytes,
}

-- The fields are what their C types hold, and the token pointer has its bytes behind it.
pub record IsRecord (r : CompensationRecord) : Type 0 where
  pub sequence : r.sequence < 2 ^ 64
  pub execution_id : r.key.execution_id < 2 ^ 64
  pub workflow_id : r.key.workflow_id < 2 ^ 32
  pub image_fingerprint : r.key.image_fingerprint < 2 ^ 64
  pub request_id : r.key.request_id < 2 ^ 64
  pub node_id : r.key.node_id < 2 ^ 16
  pub compensation_app_id : r.compensation_app_id < 2 ^ 16
  pub compensation_action_id : r.compensation_action_id < 2 ^ 16
  pub source_type : r.source_type < 2 ^ 16
  pub destination_type : r.destination_type < 2 ^ 16
  pub readable : r.token_length ≤ length (pointee r.token)

-- The whole header as fields.
abbrev record_fields : CompensationRecord → List Field
record_fields r = body_fields r ++ (4, checksum_of r) ∷ []

record_bytes-fields :
    (r : CompensationRecord) → record_bytes r ≡ field_bytes (record_fields r) ++ token_bytes r
unfolding record_bytes header_bytes
record_bytes-fields r = refl

valid_length : (r : CompensationRecord) → record_valid r ≡ true → r.token_length ≤ 65488
unfolding record_valid
valid_length r valid = ground arith

decode_record-pass :
    (source : List ℕ) (n : ℕ)
    → header_size ≤ n
    → header_refused source n ≡ false
    → read_u32 source 68
      ≡ checksum_parts summed_size source (drop header_size source) (read_u32 source 12)
    → record_valid (decoded_record source) ≡ true
    → decode_record source n ≡ pass (decoded_record source, read_u32 source 8)
unfolding decode_record
decode_record-pass source n long accepted sums valid = ground arith

-- A record stays valid when its token pointer is set.
valid_pointer :
    (r : CompensationRecord) (value : List ℕ)
    → record_valid r ≡ true
    → record_valid (record r { token = some value }) ≡ true
unfolding record_valid
valid_pointer r value valid = ground arith

record_fields-Fit :
    (r : CompensationRecord) → IsRecord r → record_valid r ≡ true → Fit (record_fields r)
record_fields-Fit r typed valid = omega (
  arith,
  valid_length r valid,
  checksum_parts-lt summed_size r.token_length (body_bytes r) (token_bytes r),
)

module _ (source : List ℕ) (bytes : All IsByte source) (r : CompensationRecord)
    (held : Holds (record_fields r) source 0) where
  decoded_record-Holds : decoded_record source ≡ record r { token = some (drop header_size source) }
  unfolding decoded_record
  decoded_record-Holds = ground (
    arith,
    read_u32-read_le source 12 bytes,
    read_u64-read_le source 16 bytes,
    read_u64-read_le source 24 bytes,
    read_u32-read_le source 32 bytes,
    read_u64-read_le source 36 bytes,
    read_u16-read_le source 44 bytes,
    read_u16-read_le source 46 bytes,
    read_u16-read_le source 48 bytes,
    read_u64-read_le source 56 bytes,
    read_u16-read_le source 50 bytes,
    read_u16-read_le source 52 bytes,
  )

  fixed_fields :
      (same_bytes source 0 (b'H' ∷ b'C' ∷ b'T' ∷ b'1' ∷ []) ≡ true)
      × (read_u16 source 4 ≡ 1)
      × (read_u16 source 6 ≡ header_size)
      × (read_u32 source 8 ≡ header_size + r.token_length)
      × (read_u32 source 12 ≡ r.token_length)
      × (read_u16 source 54 ≡ 0)
      × (read_u32 source 64 ≡ 0)
      × (read_u32 source 68 ≡ checksum_of r)
  fixed_fields = ground (
    arith,
    read_u16-read_le source 4 bytes,
    read_u16-read_le source 6 bytes,
    read_u32-read_le source 8 bytes,
    read_u32-read_le source 12 bytes,
    read_u16-read_le source 54 bytes,
    read_u32-read_le source 64 bytes,
    read_u32-read_le source 68 bytes,
  )

  header-accepted :
      (n : ℕ)
      → r.token_length ≤ 65488
      → header_size + r.token_length ≤ n
      → header_refused source n ≡ false
  unfolding header_refused
  header-accepted n small long = let (m, v, s, z, l, p, q, c) = fixed_fields in ground arith

  decode-Holds :
      (old : CompensationRecord) (n size : ℕ)
      → record_valid r ≡ true
      → header_size + r.token_length ≤ n
      → checksum_parts summed_size source (drop header_size source) r.token_length ≡ checksum_of r
      → decode (some source) n (some old) (some size) ≡ (
        ok,
        some (record r { token = some (drop header_size source) }),
        some (header_size + r.token_length),
      )
  unfolding decode
  decode-Holds old n size valid long sums =
      let (m, v, s, z, l, p, q, c) = fixed_fields in
      rw (
        decode_record-pass source n (omega (arith, long))
            (header-accepted n (valid_length r valid) long) (rw (c, l) (sym sums))
            (rw decoded_record-Holds (valid_pointer r (drop header_size source) valid)),
        decoded_record-Holds,
        z,
      )

encode-valid :
    (r : CompensationRecord) (destination : List ℕ) (destination_size encoded_size : ℕ)
    → r.token_length ≤ length (pointee r.token)
    → record_valid r ≡ true
    → header_size + r.token_length ≤ destination_size
    → destination_size ≤ length destination
    → encode (some r) (some destination) destination_size (some encoded_size) ≡ (
      ok,
      some (record_bytes r ++ drop (header_size + r.token_length) destination),
      some (header_size + r.token_length),
    )
unfolding encode
encode-valid r d n s readable valid room space = ground (arith, write_record-bytes r d readable)

module _ (r : CompensationRecord) (rest : List ℕ) (typed : IsRecord r)
    (valid : record_valid r ≡ true) (value : All IsByte (pointee r.token))
    (free : All IsByte rest) where
  record_bytes-IsByte : All IsByte (record_bytes r ++ rest)
  record_bytes-IsByte = rw (record_bytes-fields r) (
      All-append IsByte (field_bytes (record_fields r) ++ token_bytes r) rest
        (All-append IsByte (field_bytes (record_fields r)) (token_bytes r)
          (field_bytes-IsByte (record_fields r))
          (All-take IsByte r.token_length (pointee r.token) value))
        free)

  record_bytes-Holds : Holds (record_fields r) (record_bytes r ++ rest) 0
  record_bytes-Holds = rw (record_bytes-fields r) (
      Holds-field_bytes (record_fields r) (token_bytes r ++ rest) (record_fields-Fit r typed valid))

  record_bytes-checksum :
      checksum_parts summed_size
        (record_bytes r ++ rest)
        (drop header_size (record_bytes r ++ rest))
        r.token_length
      ≡ checksum_of r
  unfolding record_bytes header_bytes
  record_bytes-checksum = checksum_parts-bytes r (checksum_of r) rest typed.readable

  drop-record_bytes : drop header_size (record_bytes r ++ rest) ≡ token_bytes r ++ rest
  unfolding record_bytes header_bytes
  drop-record_bytes = refl

  decode-record_bytes :
      (old : CompensationRecord) (n size : ℕ)
      → header_size + r.token_length ≤ n
      → decode (some (record_bytes r ++ rest)) n (some old) (some size) ≡ (
        ok,
        some (record r { token = some (token_bytes r ++ rest) }),
        some (header_size + r.token_length),
      )
  decode-record_bytes old n size long = rw drop-record_bytes at (
      decode-Holds (record_bytes r ++ rest) record_bytes-IsByte r record_bytes-Holds old n size
        valid long record_bytes-checksum)

-- For a valid record whose fields fit their C types, with a token of bytes behind its pointer and a
-- destination of bytes with room, `hermas_compensation_encode` succeeds, reports 72 bytes and the token,
-- writes no byte behind them, and decoding gives the record back: every field, and the value
-- pointer at the copy in the buffer.
pub decode-encode_token :
    (r old : CompensationRecord) (destination : List ℕ) (destination_size encoded_size size : ℕ)
    → IsRecord r
    → record_valid r ≡ true
    → All IsByte (pointee r.token)
    → All IsByte destination
    → header_size + r.token_length ≤ destination_size
    → destination_size ≤ length destination
    → let rest = drop (header_size + r.token_length) destination in
      let (code, written, total) =
        encode (some r) (some destination) destination_size (some encoded_size) in
      (code ≡ ok)
      × (total ≡ some (header_size + r.token_length))
      × (written ≡ some (record_bytes r ++ rest))
      × (decode written (header_size + r.token_length) (some old) (some size) ≡ (
        ok,
        some (record r { token = some (token_bytes r ++ rest) }),
        some (header_size + r.token_length),
      ))
decode-encode_token r old d n s size typed valid value free room space =
    rw (encode-valid r d n s typed.readable valid room space) (
      refl,
      refl,
      refl,
      decode-record_bytes r (drop (header_size + r.token_length) d) typed valid value
          (All-drop IsByte (header_size + r.token_length) d free) old (header_size + r.token_length)
          size (omega arith),
    )

-- ===== src/Result/RoundTrip.antt =====
-- Decoding what `encode` writes for a record of the result store.
use hermas.Base.{
  ℕ, ◌+◌, ◌^◌, ◌<◌, ◌≤◌, ◌≡◌, refl, arith, List, [], ◌∷◌, ◌++◌, some, true, false, All, All-append,
  All-take, All-drop, length, drop,
}
use hermas.Bytes.{IsByte, read_u16, read_u32, same_bytes}
use hermas.Bytes.Words.{read_u16-read_le, read_u32-read_le, read_u64-read_le}
use hermas.Bytes.Fields.{Field, field_bytes, Holds, Fit, Holds-field_bytes, field_bytes-IsByte}
use hermas.Crc.{checksum_parts}
use hermas.Crc.Parts.{checksum_parts-lt}
use hermas.Result.{
  ResultRecord, ok, header_size, summed_size, pointee, record_valid, encode, decode, decoded_record,
  header_refused,
}
use hermas.Result.Layout.{
  body_fields, body_bytes, value_bytes, checksum_of, header_bytes, record_bytes, write_record-bytes,
  checksum_parts-bytes,
}

-- The fields are what their C types hold, and the value pointer has its bytes behind it.
pub record IsRecord (r : ResultRecord) : Type 0 where
  pub sequence : r.sequence < 2 ^ 64
  pub execution_id : r.key.execution_id < 2 ^ 64
  pub workflow_id : r.key.workflow_id < 2 ^ 32
  pub image_fingerprint : r.key.image_fingerprint < 2 ^ 64
  pub outcome : r.outcome < 2 ^ 16
  pub source_type : r.source_type < 2 ^ 16
  pub destination_type : r.destination_type < 2 ^ 16
  pub readable : r.value_length ≤ length (pointee r.value)

-- The whole header as fields.
abbrev record_fields : ResultRecord → List Field
record_fields r = body_fields r ++ (4, checksum_of r) ∷ (4, 0) ∷ []

record_bytes-fields :
    (r : ResultRecord) → record_bytes r ≡ field_bytes (record_fields r) ++ value_bytes r
unfolding record_bytes header_bytes
record_bytes-fields r = refl

valid_length : (r : ResultRecord) → record_valid r ≡ true → r.value_length ≤ 65488
unfolding record_valid
valid_length r valid = ground arith

-- A record stays valid when its value pointer is set.
valid_pointer :
    (r : ResultRecord) (value : List ℕ)
    → record_valid r ≡ true
    → record_valid (record r { value = some value }) ≡ true
unfolding record_valid
valid_pointer r value valid = ground arith

record_fields-Fit : (r : ResultRecord) → IsRecord r → record_valid r ≡ true → Fit (record_fields r)
record_fields-Fit r typed valid = omega (
  arith,
  valid_length r valid,
  checksum_parts-lt summed_size r.value_length (body_bytes r) (value_bytes r),
)

module _ (source : List ℕ) (bytes : All IsByte source) (r : ResultRecord)
    (held : Holds (record_fields r) source 0) where
  decoded_record-Holds : decoded_record source ≡ record r { value = some (drop header_size source) }
  unfolding decoded_record
  decoded_record-Holds = ground (
    arith,
    read_u32-read_le source 12 bytes,
    read_u64-read_le source 16 bytes,
    read_u64-read_le source 24 bytes,
    read_u32-read_le source 32 bytes,
    read_u64-read_le source 40 bytes,
    read_u16-read_le source 48 bytes,
    read_u16-read_le source 50 bytes,
    read_u16-read_le source 52 bytes,
  )

  fixed_fields :
      (same_bytes source 0 (b'H' ∷ b'R' ∷ b'S' ∷ b'1' ∷ []) ≡ true)
      × (read_u16 source 4 ≡ 1)
      × (read_u16 source 6 ≡ header_size)
      × (read_u32 source 8 ≡ header_size + r.value_length)
      × (read_u32 source 12 ≡ r.value_length)
      × (read_u32 source 36 ≡ 0)
      × (read_u16 source 54 ≡ 0)
      × (read_u32 source 56 ≡ checksum_of r)
      × (read_u32 source 60 ≡ 0)
  fixed_fields = ground (
    arith,
    read_u16-read_le source 4 bytes,
    read_u16-read_le source 6 bytes,
    read_u32-read_le source 8 bytes,
    read_u32-read_le source 12 bytes,
    read_u32-read_le source 36 bytes,
    read_u16-read_le source 54 bytes,
    read_u32-read_le source 56 bytes,
    read_u32-read_le source 60 bytes,
  )

  header-accepted :
      (n : ℕ)
      → r.value_length ≤ 65488
      → header_size + r.value_length ≤ n
      → header_refused source n ≡ false
  unfolding header_refused
  header-accepted n small long = let (m, v, s, z, l, p, q, c, e) = fixed_fields in ground arith

  decode-Holds :
      (old : ResultRecord) (n size : ℕ)
      → record_valid r ≡ true
      → header_size + r.value_length ≤ n
      → checksum_parts summed_size source (drop header_size source) r.value_length ≡ checksum_of r
      → decode (some source) n (some old) (some size) ≡ (
        ok,
        some (record r { value = some (drop header_size source) }),
        some (header_size + r.value_length),
      )
  unfolding decode
  decode-Holds old n size valid long sums =
      let (m, v, s, z, l, p, q, c, e) = fixed_fields in
      let accepted = header-accepted n (valid_length r valid) long in
      let value = decoded_record-Holds in
      let valid' = valid_pointer r (drop header_size source) valid in ground arith

encode-valid :
    (r : ResultRecord) (destination : List ℕ) (destination_size encoded_size : ℕ)
    → r.value_length ≤ length (pointee r.value)
    → record_valid r ≡ true
    → header_size + r.value_length ≤ destination_size
    → destination_size ≤ length destination
    → encode (some r) (some destination) destination_size (some encoded_size) ≡ (
      ok,
      some (record_bytes r ++ drop (header_size + r.value_length) destination),
      some (header_size + r.value_length),
    )
unfolding encode
encode-valid r d n s readable valid room space = ground (arith, write_record-bytes r d readable)

module _ (r : ResultRecord) (rest : List ℕ) (typed : IsRecord r) (valid : record_valid r ≡ true)
    (value : All IsByte (pointee r.value)) (free : All IsByte rest) where
  record_bytes-IsByte : All IsByte (record_bytes r ++ rest)
  record_bytes-IsByte = rw (record_bytes-fields r) (
      All-append IsByte (field_bytes (record_fields r) ++ value_bytes r) rest
        (All-append IsByte (field_bytes (record_fields r)) (value_bytes r)
          (field_bytes-IsByte (record_fields r))
          (All-take IsByte r.value_length (pointee r.value) value))
        free)

  record_bytes-Holds : Holds (record_fields r) (record_bytes r ++ rest) 0
  record_bytes-Holds = rw (record_bytes-fields r) (
      Holds-field_bytes (record_fields r) (value_bytes r ++ rest) (record_fields-Fit r typed valid))

  record_bytes-checksum :
      checksum_parts summed_size
        (record_bytes r ++ rest)
        (drop header_size (record_bytes r ++ rest))
        r.value_length
      ≡ checksum_of r
  unfolding record_bytes header_bytes
  record_bytes-checksum = checksum_parts-bytes r (checksum_of r) rest typed.readable

  drop-record_bytes : drop header_size (record_bytes r ++ rest) ≡ value_bytes r ++ rest
  unfolding record_bytes header_bytes
  drop-record_bytes = refl

  decode-record_bytes :
      (old : ResultRecord) (n size : ℕ)
      → header_size + r.value_length ≤ n
      → decode (some (record_bytes r ++ rest)) n (some old) (some size) ≡ (
        ok,
        some (record r { value = some (value_bytes r ++ rest) }),
        some (header_size + r.value_length),
      )
  decode-record_bytes old n size long = rw drop-record_bytes at (
      decode-Holds (record_bytes r ++ rest) record_bytes-IsByte r record_bytes-Holds old n size
        valid long record_bytes-checksum)

-- For a valid record whose fields fit their C types, with a value of bytes behind its pointer and a
-- destination of bytes with room, `hermas_result_encode` succeeds, reports 64 bytes and the value,
-- writes no byte behind them, and decoding gives the record back: every field, and the value
-- pointer at the copy in the buffer.
pub decode-encode_result :
    (r old : ResultRecord) (destination : List ℕ) (destination_size encoded_size size : ℕ)
    → IsRecord r
    → record_valid r ≡ true
    → All IsByte (pointee r.value)
    → All IsByte destination
    → header_size + r.value_length ≤ destination_size
    → destination_size ≤ length destination
    → let rest = drop (header_size + r.value_length) destination in
      let (code, written, total) =
        encode (some r) (some destination) destination_size (some encoded_size) in
      (code ≡ ok)
      × (total ≡ some (header_size + r.value_length))
      × (written ≡ some (record_bytes r ++ rest))
      × (decode written (header_size + r.value_length) (some old) (some size) ≡ (
        ok,
        some (record r { value = some (value_bytes r ++ rest) }),
        some (header_size + r.value_length),
      ))
decode-encode_result r old d n s size typed valid value free room space =
    rw (encode-valid r d n s typed.readable valid room space) (
      refl,
      refl,
      refl,
      decode-record_bytes r (drop (header_size + r.value_length) d) typed valid value
          (All-drop IsByte (header_size + r.value_length) d free) old (header_size + r.value_length)
          size (omega arith),
    )

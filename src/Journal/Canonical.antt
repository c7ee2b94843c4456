-- ===== src/Journal/Canonical.antt =====
-- What `encode` writes for what `decode` read from the journal.
use hermas.Base.{ℕ, ◌≤◌, ◌≡◌, sym, ◌∙◌, arith, List, [], ◌∷◌, ◌++◌, some, All, length, take, drop}
use hermas.Bytes.{IsByte}
use hermas.Bytes.Words.{
  read_le, read_u16-read_le, read_u32-read_le, read_u64-read_le, read_u16-lt, read_u32-lt,
  read_u64-lt,
}
use hermas.Bytes.Fields.{Holds, Holds-join}
use hermas.Bytes.Canonical.{field_bytes-take}
use hermas.Crc.{checksum}
use hermas.Crc.Detect.{checksum-take}
use hermas.Journal.{JournalRecord, ok, record_size, encode, decode, decoded_record}
use hermas.Journal.Layout.{body_fields, body_bytes, record_bytes}
use hermas.Journal.Decode.{Decoded, decode-Decoded}
use hermas.Journal.RoundTrip.{IsRecord, record_fields, record_bytes-fields, encode-valid}

module _ (source : List ℕ) (size : ℕ) (bytes : All IsByte source) (fits : size ≤ length source)
    (d : Decoded source size (decoded_record source)) where
  pub Decoded-IsRecord : IsRecord (decoded_record source)
  unfolding decoded_record
  Decoded-IsRecord = record {
    kind = read_u16-lt source 8 bytes;
    outcome = read_u16-lt source 10 bytes;
    sequence = read_u64-lt source 16 bytes;
    execution_id = read_u64-lt source 24 bytes;
    workflow_id = read_u32-lt source 32 bytes;
    request_id = read_u64-lt source 36 bytes;
    node_id = read_u16-lt source 44 bytes;
    app_id = read_u16-lt source 46 bytes;
    action_id = read_u16-lt source 48 bytes;
    image_fingerprint = read_u64-lt source 52 bytes;
  }

  body_fields-Holds : Holds (body_fields (decoded_record source)) source 0
  unfolding decoded_record
  body_fields-Holds = ground (
    arith,
    d,
    read_u16-read_le source 4 bytes,
    read_u16-read_le source 6 bytes,
    read_u16-read_le source 8 bytes,
    read_u16-read_le source 10 bytes,
    read_u32-read_le source 12 bytes,
    read_u64-read_le source 16 bytes,
    read_u64-read_le source 24 bytes,
    read_u32-read_le source 32 bytes,
    read_u64-read_le source 36 bytes,
    read_u16-read_le source 44 bytes,
    read_u16-read_le source 46 bytes,
    read_u16-read_le source 48 bytes,
    read_u16-read_le source 50 bytes,
    read_u64-read_le source 52 bytes,
  )

  body_bytes-source : body_bytes (decoded_record source) ≡ take 60 source
  unfolding body_bytes
  body_bytes-source =
      field_bytes-take source bytes (body_fields (decoded_record source)) body_fields-Holds
        (omega (arith, d.long_enough))

  checksum-source : read_le 4 source 60 ≡ checksum (body_bytes (decoded_record source)) 60
  checksum-source =
      rw (body_bytes-source, checksum-take source 60)
        (sym (read_u32-read_le source 60 bytes) ∙ d.checksum_ok)

  record_fields-Holds : Holds (record_fields (decoded_record source)) source 0
  record_fields-Holds =
      Holds-join (body_fields (decoded_record source))
        ((4, checksum (body_bytes (decoded_record source)) 60) ∷ []) source 0 body_fields-Holds
        (checksum-source, tt)

  record_bytes-source : record_bytes (decoded_record source) ≡ take record_size source
  record_bytes-source =
      record_bytes-fields (decoded_record source)
      ∙ field_bytes-take source bytes (record_fields (decoded_record source)) record_fields-Holds
          (omega (arith, d.long_enough))

-- When `hermas_journal_decode` accepts bytes, `hermas_journal_encode` writes the same 64 bytes for
-- the decoded record into any buffer with room for them, and leaves the rest of the buffer.
pub encode-decode_record :
    (source destination : List ℕ) (size destination_size : ℕ) (r old : JournalRecord)
    → decode (some source) size (some old) ≡ (ok, some r)
    → All IsByte source
    → size ≤ length source
    → record_size ≤ destination_size
    → destination_size ≤ length destination
    → encode (some r) (some destination) destination_size
      ≡ (ok, some (take record_size source ++ drop record_size destination))
encode-decode_record source destination size n r old e bytes fits room space =
    let passed = decode-Decoded source size r old e in
    let again : Decoded source size (decoded_record source) = rw passed.value at passed in
    rw (
      passed.value,
      encode-valid (decoded_record source) destination n
          (Decoded-IsRecord source size bytes fits again).kind again.valid_ok room space,
      record_bytes-source source size bytes fits again,
    )

-- ===== src/SagaLog/RoundTrip.antt =====
-- Decoding the 64 bytes that `encode` writes for a record of the saga log.
use hermas.Base.{
  ℕ, ◌^◌, ◌<◌, ◌≤◌, ◌≡◌, refl, sym, ◌∙◌, arith, List, [], ◌∷◌, ◌++◌, some, true, All, All-append,
  All-drop, length, drop,
}
use hermas.Bytes.{IsByte, read_u16, read_u32, same_bytes}
use hermas.Bytes.Words.{read_u16-read_le, read_u32-read_le, read_u64-read_le}
use hermas.Bytes.Fields.{
  Field, field_bytes, word_bytes, Holds, Fit, Holds-field_bytes, field_bytes-IsByte,
}
use hermas.Crc.{checksum}
use hermas.Crc.Detect.{checksum-append, checksum-lt}
use hermas.SagaLog.{
  SagaLogRecord, ok, magic, version, record_size, encode, decode, decoded_record, validate,
}
use hermas.SagaLog.Layout.{body_fields, body_bytes, record_bytes, write_record-bytes}
use hermas.SagaLog.Decode.{Decoded-decode_record}

-- The fields are what their C types hold.
pub record IsRecord (r : SagaLogRecord) : Type 0 where
  pub kind : r.kind < 2 ^ 16
  pub outcome : r.outcome < 2 ^ 16
  pub sequence : r.sequence < 2 ^ 64
  pub execution_id : r.execution_id < 2 ^ 64
  pub workflow_id : r.workflow_id < 2 ^ 32
  pub request_id : r.request_id < 2 ^ 64
  pub forward_node : r.forward_node < 2 ^ 16
  pub app_id : r.app_id < 2 ^ 16
  pub action_id : r.action_id < 2 ^ 16
  pub ordinal : r.ordinal < 2 ^ 16
  pub image_fingerprint : r.image_fingerprint < 2 ^ 64

-- All 64 bytes as fields: the body, then its checksum.
abbrev pub record_fields : SagaLogRecord → List Field
record_fields r = body_fields r ++ (4, checksum (body_bytes r) 60) ∷ []

record_fields-Fit : (r : SagaLogRecord) → IsRecord r → Fit (record_fields r)
record_fields-Fit r typed = omega (arith, checksum-lt (body_bytes r) 60)

pub record_bytes-fields : (r : SagaLogRecord) → record_bytes r ≡ field_bytes (record_fields r)
unfolding record_bytes
record_bytes-fields r = refl

-- A buffer that holds the fields of a valid record decodes to it.
module _ (source : List ℕ) (bytes : All IsByte source) (r : SagaLogRecord)
    (held : Holds (record_fields r) source 0) where
  decoded_record-Holds : decoded_record source ≡ r
  unfolding decoded_record
  decoded_record-Holds = ground (
    arith,
    read_u16-read_le source 8 bytes,
    read_u16-read_le source 10 bytes,
    read_u64-read_le source 16 bytes,
    read_u64-read_le source 24 bytes,
    read_u32-read_le source 32 bytes,
    read_u64-read_le source 36 bytes,
    read_u16-read_le source 44 bytes,
    read_u16-read_le source 46 bytes,
    read_u16-read_le source 48 bytes,
    read_u16-read_le source 50 bytes,
    read_u64-read_le source 52 bytes,
  )

  fixed_fields :
      (same_bytes source 0 magic ≡ true)
      × (read_u16 source 4 ≡ version)
      × (read_u16 source 6 ≡ record_size)
      × (read_u32 source 12 ≡ 0)
      × (read_u32 source 60 ≡ checksum (body_bytes r) 60)
  fixed_fields = ground (
    arith,
    read_u16-read_le source 4 bytes,
    read_u16-read_le source 6 bytes,
    read_u32-read_le source 12 bytes,
    read_u32-read_le source 60 bytes,
  )

  decode-Holds :
      (old : SagaLogRecord) (size : ℕ)
      → record_size ≤ size
      → checksum source 60 ≡ checksum (body_bytes r) 60
      → validate r ≡ ok
      → decode (some source) size (some old) ≡ (ok, some r)
  unfolding decode
  decode-Holds old size long sums valid =
      let (m, v, s, z, c) = fixed_fields in
      rw (
        Decoded-decode_record source size (record {
          value = refl;
          long_enough = long;
          magic_ok = m;
          version_ok = v;
          size_ok = s;
          reserved_ok = z;
          checksum_ok = c ∙ sym sums;
          valid_ok = rw decoded_record-Holds valid;
        }),
        decoded_record-Holds,
      )

pub encode-valid :
    (r : SagaLogRecord) (destination : List ℕ) (destination_size : ℕ)
    → r.kind < 2 ^ 16
    → validate r ≡ ok
    → record_size ≤ destination_size
    → destination_size ≤ length destination
    → encode (some r) (some destination) destination_size
      ≡ (ok, some (record_bytes r ++ drop record_size destination))
unfolding encode
encode-valid r d n typed valid room space = ground (arith, write_record-bytes r d)

record_fields-checksum :
    (r : SagaLogRecord) (rest : List ℕ)
    → checksum (field_bytes (record_fields r) ++ rest) 60 ≡ checksum (body_bytes r) 60
unfolding body_bytes
record_fields-checksum r rest =
    checksum-append (body_bytes r) (word_bytes 4 0 (checksum (body_bytes r) 60) ++ rest)

decode-record_bytes :
    (r old : SagaLogRecord) (rest : List ℕ) (size : ℕ)
    → IsRecord r
    → validate r ≡ ok
    → All IsByte rest
    → record_size ≤ size
    → decode (some (record_bytes r ++ rest)) size (some old) ≡ (ok, some r)
decode-record_bytes r old rest size typed valid free long = rw (record_bytes-fields r) (
    decode-Holds (field_bytes (record_fields r) ++ rest)
      (All-append IsByte (field_bytes (record_fields r)) rest (field_bytes-IsByte (record_fields r))
        free)
      r (Holds-field_bytes (record_fields r) rest (record_fields-Fit r typed)) old size long
      (record_fields-checksum r rest) valid)

-- For a valid record whose fields fit their C types and a destination of bytes with room for 64,
-- `hermas_saga_log_encode` succeeds, writes the 64 bytes of the record and nothing behind them, and
-- decoding them gives the record back.
pub decode-encode_saga :
    (r old : SagaLogRecord) (destination : List ℕ) (destination_size : ℕ)
    → IsRecord r
    → validate r ≡ ok
    → All IsByte destination
    → record_size ≤ destination_size
    → destination_size ≤ length destination
    → let (code, written) = encode (some r) (some destination) destination_size in
      (code ≡ ok)
      × (written ≡ some (record_bytes r ++ drop record_size destination))
      × (decode written record_size (some old) ≡ (ok, some r))
decode-encode_saga r old d n typed valid free room space =
    rw (encode-valid r d n typed.kind valid room space) (
      refl,
      refl,
      decode-record_bytes r old (drop record_size d) record_size typed valid
          (All-drop IsByte record_size d free) (omega arith),
    )

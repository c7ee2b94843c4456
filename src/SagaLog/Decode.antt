-- ===== src/SagaLog/Decode.antt =====
-- What a decoded record has been checked for, and what it takes to be decoded.
use hermas.Base.{ℕ, ◌≡◌, ◌≢◌, ◌≤◌, inl, inr, refl, arith, List, Option, none, some, true}
use hermas.Base.Check.{fail, pass, Check-cases}
use hermas.Bytes.{read_u16, read_u32, same_bytes}
use hermas.Crc.{checksum}
use hermas.SagaLog.{
  SagaLogRecord, ok, magic, version, record_size, decode, decode_record, decoded_record, validate,
}

pub record Decoded (source : List ℕ) (size : ℕ) (r : SagaLogRecord) : Type 0 where
  pub value : r ≡ decoded_record source
  pub long_enough : record_size ≤ size
  pub magic_ok : same_bytes source 0 magic ≡ true
  pub version_ok : read_u16 source 4 ≡ version
  pub size_ok : read_u16 source 6 ≡ record_size
  pub reserved_ok : read_u32 source 12 ≡ 0
  pub checksum_ok : read_u32 source 60 ≡ checksum source 60
  pub valid_ok : validate (decoded_record source) ≡ ok

pub decode_record-Decoded :
    (source : List ℕ) (size : ℕ) (r : SagaLogRecord)
    → decode_record source size ≡ pass r
    → Decoded source size r
unfolding decode_record
decode_record-Decoded source size r e = ground arith

-- A refusal is never reported as a success.
pub decode_record-ne-ok : (source : List ℕ) (size : ℕ) → decode_record source size ≢ fail ok
unfolding decode_record
decode_record-ne-ok source size e = ground arith

pub decode-Decoded :
    (source : List ℕ) (size : ℕ) (r old : SagaLogRecord)
    → decode (some source) size (some old) ≡ (ok, some r)
    → Decoded source size r
unfolding decode
decode-Decoded source size r old e = elim (Check-cases (decode_record source size)) [
  | inl (code, failed) ↦ absurd (ground (arith, decode_record-ne-ok source size))
  | inr (h, passed) ↦ decode_record-Decoded source size r (ground arith)
]

pub Decoded-decode_record :
    (source : List ℕ) (size : ℕ)
    → Decoded source size (decoded_record source)
    → decode_record source size ≡ pass (decoded_record source)
unfolding decode_record
Decoded-decode_record source size d = ground arith

pub decode_ok-Decoded :
    (source : List ℕ) (size : ℕ) (old : SagaLogRecord)
    → (decode (some source) size (some old)).0 ≡ ok
    → Decoded source size (decoded_record source)
unfolding decode
decode_ok-Decoded source size old e = elim (Check-cases (decode_record source size)) [
  | inl (code, failed) ↦ absurd (ground (arith, decode_record-ne-ok source size))
  | inr (r, passed) ↦ let d = decode_record-Decoded source size r passed in rw d.value at d
]

-- A call that fails leaves the record as it was.
decode_failure :
    (source : Option (List ℕ)) (size : ℕ) (old : Option SagaLogRecord)
    → (decode source size old).0 ≢ ok
    → (decode source size old).1 ≡ old
unfolding decode
decode_failure none size old h = refl
decode_failure (some source) size none h = refl
decode_failure (some source) size (some old) h = ground arith

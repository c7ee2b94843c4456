-- ===== src/Journal/Runs.antt =====
-- Concrete records, and the theorems at concrete inputs.
use hermas.Base.{
  ℕ, ◌≡◌, ◌≢◌, ◌↔◌, refl, arith, List, [], ◌∷◌, ◌++◌, some, drop, take, set, replicate,
}
use hermas.Bytes.{read_u16, read_u32, read_u64, write_u16, write_u32, write_u64}
use hermas.Crc.{checksum}
use hermas.Journal.{
  JournalRecord, JournalResult, ok, record_size, encode, decode, decode_record, decoded_record,
  write_record, write_body, validate_record, fingerprint_loop, image_fingerprint,
}
use hermas.Journal.Kind
use hermas.Protocol.Outcome
use hermas.Journal.Layout.{record_bytes}
use hermas.Journal.Valid.{ValidRecord, validate_record_iff}
use hermas.Journal.RoundTrip.{decode-encode_record}
use hermas.Journal.Canonical.{encode-decode_record}
use hermas.Journal.Corruption.{damaged_record_refused}
use hermas.Journal.Writer.{Writer}

abbrev start : JournalRecord
start = record {
  kind = Kind.execution_started;
  outcome = Outcome.none;
  sequence = 1;
  execution_id = 5;
  workflow_id = 2;
  request_id = 0;
  node_id = 0;
  app_id = 0;
  action_id = 0;
  image_fingerprint = 77;
}

start-valid : validate_record start ≡ ok
unfolding validate_record
start-valid = refl

abbrev buffer : List ℕ
buffer = replicate 70 9

abbrev start_bytes : List ℕ
start_bytes =
    b'H' ∷ b'J' ∷ b'R' ∷ b'1' ∷ 2 ∷ 0 ∷ 64 ∷ 0 ∷ 1 ∷ 0 ∷ 0 ∷ 0 ∷ 0 ∷ 0 ∷ 0 ∷ 0 ∷ 1 ∷ 0 ∷ 0 ∷ 0 ∷ 0
    ∷ 0 ∷ 0 ∷ 0 ∷ 5 ∷ 0 ∷ 0 ∷ 0 ∷ 0 ∷ 0 ∷ 0 ∷ 0 ∷ 2 ∷ 0 ∷ 0 ∷ 0 ∷ 0 ∷ 0 ∷ 0 ∷ 0 ∷ 0 ∷ 0 ∷ 0 ∷ 0 ∷ 0
    ∷ 0 ∷ 0 ∷ 0 ∷ 0 ∷ 0 ∷ 0 ∷ 0 ∷ 77 ∷ 0 ∷ 0 ∷ 0 ∷ 0 ∷ 0 ∷ 0 ∷ 0 ∷ 78 ∷ 81 ∷ 48 ∷ 44 ∷ []

-- The checksum is the CRC-32 of zlib.
checksum-start : checksum start_bytes 60 ≡ 741364046
unfolding checksum
checksum-start = refl

encode-start : encode (some start) (some buffer) 70 ≡ (ok, some (start_bytes ++ replicate 6 9))
unfolding encode write_record write_body validate_record write_u16 write_u32 write_u64 checksum
encode-start = refl

decode-start :
    decode (some start_bytes) 64 (some (record start { sequence = 9 })) ≡ (ok, some start)
unfolding decode decode_record decoded_record validate_record read_u16 read_u32 read_u64 checksum
decode-start = refl

validate_record_iff_example : (validate_record start ≡ ok) ↔ ValidRecord start
validate_record_iff_example = validate_record_iff start

decode-encode_record_example :
    ((encode (some start) (some buffer) 70).0 ≡ ok)
    × ((encode (some start) (some buffer) 70).1
        ≡ some (record_bytes start ++ drop record_size buffer))
    × (decode (encode (some start) (some buffer) 70).1 64 (some (record start { sequence = 9 }))
        ≡ (ok, some start))
decode-encode_record_example =
    decode-encode_record start (record start { sequence = 9 }) buffer 70 (omega arith) start-valid
      (omega arith) (omega arith) (omega arith)

encode-decode_record_example :
    encode (some start) (some buffer) 70 ≡ (ok, some (take 64 start_bytes ++ drop 64 buffer))
encode-decode_record_example =
    encode-decode_record start_bytes buffer 64 70 start (record start { sequence = 9 }) decode-start
      (omega arith) (omega arith) (omega arith) (omega arith)

-- The workflow id, at byte 32, turned from 2 into 3.
damaged_record_refused_example :
    (decode (some (set start_bytes 32 3)) 64 (some (record start { sequence = 9 }))).0 ≢ ok
damaged_record_refused_example =
    damaged_record_refused start_bytes 64 32 3 start (record start { sequence = 9 }) decode-start
      (omega arith) (omega arith) (omega arith) (omega arith) (omega arith)

-- A callback that appends to a file in memory.
abbrev file_append : List ℕ → List ℕ → JournalResult × List ℕ
file_append file bytes = (ok, file ++ bytes)

abbrev new_writer : Writer (List ℕ)
new_writer = record { write = some file_append; context = []; next_sequence = 1 }

fingerprint_a : image_fingerprint (some (b'a' ∷ [])) ≡ 0xaf63dc4c8601ec8c
unfolding image_fingerprint fingerprint_loop
fingerprint_a = refl

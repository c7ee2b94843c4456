-- ===== src/Journal/Layout.antt =====
-- What `encode` writes: the fields of a record, the checksum of their bytes, and the rest of the
-- buffer as it was.
use hermas.Base.{
  ℕ, ◌%◌, ◌^◌, ◌<◌, ◌≤◌, ◌≡◌, refl, arith, List, [], ◌∷◌, ◌++◌, length, drop, overwrite_front,
}
use hermas.Bytes.{write_u32, write_u64}
use hermas.Bytes.Words.{write_u16-write_loop}
use hermas.Bytes.Fields.{Field, field_bytes, word_bytes}
use hermas.Crc.{checksum}
use hermas.Crc.Detect.{checksum-append}
use hermas.Journal.{JournalRecord, version, record_size, write_body, write_record}

-- The first 60 bytes of a record.
abbrev pub body_fields : JournalRecord → List Field
body_fields r =
    (1, b'H')
    ∷ (1, b'J')
    ∷ (1, b'R')
    ∷ (1, b'1')
    ∷ (2, version)
    ∷ (2, record_size)
    ∷ (2, r.kind)
    ∷ (2, r.outcome)
    ∷ (4, 0)
    ∷ (8, r.sequence)
    ∷ (8, r.execution_id)
    ∷ (4, r.workflow_id)
    ∷ (8, r.request_id)
    ∷ (2, r.node_id)
    ∷ (2, r.app_id)
    ∷ (2, r.action_id)
    ∷ (2, 0)
    ∷ (8, r.image_fingerprint)
    ∷ []

unfoldable pub body_bytes : JournalRecord → List ℕ
body_bytes r = field_bytes (body_fields r)

unfoldable pub record_bytes : JournalRecord → List ℕ
unfolding body_bytes
record_bytes r = body_bytes r ++ word_bytes 4 0 (checksum (body_bytes r) 60)

write_body-bytes :
    (r : JournalRecord) (d : List ℕ)
    → r.kind < 2 ^ 16
    → record_size ≤ length d
    → write_body r d ≡ body_bytes r ++ 0 ∷ 0 ∷ 0 ∷ 0 ∷ drop record_size d
unfolding write_body write_u64 write_u32 body_bytes
write_body-bytes r d typed h =
    let low : r.kind % 2 ^ 16 ≡ r.kind = omega arith in
    rw (low, overwrite_front d _ h) (simp write_u16-write_loop)

checksum-body :
    (r : JournalRecord) (rest : List ℕ)
    → checksum (body_bytes r ++ rest) 60 ≡ checksum (body_bytes r) 60
unfolding body_bytes
checksum-body r rest = checksum-append (body_bytes r) rest

pub write_record-bytes :
    (r : JournalRecord) (d : List ℕ)
    → r.kind < 2 ^ 16
    → record_size ≤ length d
    → write_record r d ≡ record_bytes r ++ drop record_size d
unfolding write_record write_u32 record_bytes
write_record-bytes r d typed h =
    rw (write_body-bytes r d typed h, checksum-body r (0 ∷ 0 ∷ 0 ∷ 0 ∷ drop record_size d)) refl

-- ===== src/Journal.antt =====
-- src/journal.c and include/hermas/journal.h: the records of the execution journal, their bytes,
-- the writer and the fingerprint of an image. The scan is in the child `Scan`.
pub mod Kind
pub mod Layout
pub mod Valid
pub mod Decode
pub mod RoundTrip
pub mod Canonical
pub mod Corruption
pub mod Writer
pub mod Fingerprint
pub mod Scan
mod Runs
mod ScanRuns
use Prim.Native.Nat.{bit_xor}
use hermas.Base.{
  ℕ, ◌-◌, ◌*◌, ◌%◌, ◌^◌, Bool, true, false, not, ◌&&◌, ◌||◌, Option, none, some, List, [], ◌∷◌, ltb,
  leb, ◌==◌, ◌!=◌, if◌then◌else◌, overwrite, replicate,
}
use hermas.Base.Check.{Check, fail, pass, ◌>>=◌, ◌>>◌, refuse}
use hermas.Bytes.{read_u16, read_u32, read_u64, write_u16, write_u32, write_u64, clear, same_bytes}
use hermas.Crc.{checksum}
use hermas.Protocol.Outcome

abbrev pub version : ℕ
version = 2

abbrev pub record_size : ℕ
record_size = 64

pub data JournalResult : Type 0 where
  ok invalid_argument buffer_too_small invalid_magic invalid_version invalid_size : JournalResult
  invalid_kind invalid_outcome invalid_field nonzero_reserved checksum_mismatch : JournalResult
  invalid_sequence invalid_transition capacity_exhausted write_error : JournalResult

abbrev pub is_ok : JournalResult → Bool
is_ok ok = true
is_ok _ = false

pub record JournalRecord : Type 0 where
  pub kind : ℕ
  pub outcome : ℕ
  pub sequence : ℕ
  pub execution_id : ℕ
  pub workflow_id : ℕ
  pub request_id : ℕ
  pub node_id : ℕ
  pub app_id : ℕ
  pub action_id : ℕ
  pub image_fingerprint : ℕ

unfoldable pub is_action_record : ℕ → Bool
is_action_record kind = leb Kind.delivery_prepared kind && leb kind Kind.action_unknown

-- The `switch` of `validate_record`: the outcomes of a record of some kind.
unfoldable pub outcome_valid : ℕ → ℕ → Bool
outcome_valid kind outcome =
    if kind == Kind.execution_started
      || kind == Kind.delivery_prepared
      || kind == Kind.delivery_sent
    then outcome == Outcome.none
    else if kind == Kind.action_succeeded
    then outcome == Outcome.success
    else if kind == Kind.action_failed
    then outcome == Outcome.app_error || outcome == Outcome.not_sent
    else if kind == Kind.action_unknown
    then outcome == Outcome.unknown
    else if kind == Kind.execution_finished
    then outcome == Outcome.success
      || outcome == Outcome.app_error
      || outcome == Outcome.not_sent
      || outcome == Outcome.unknown
    else false

unfoldable pub validate_record : JournalRecord → JournalResult
unfolding is_action_record outcome_valid
validate_record r =
    let action = is_action_record r.kind in
    if ltb r.kind Kind.execution_started || ltb Kind.execution_finished r.kind
    then invalid_kind
    else if not (outcome_valid r.kind r.outcome)
    then invalid_outcome
    else if r.sequence == 0 || r.execution_id == 0 || r.workflow_id == 0 || r.image_fingerprint == 0
    then invalid_field
    else if action && (r.request_id == 0 || r.node_id == 0 || r.app_id == 0 || r.action_id == 0)
    then invalid_field
    else if not action && (r.request_id != 0 || r.node_id != 0 || r.app_id != 0 || r.action_id != 0)
    then invalid_field
    else ok

-- "HJR1"
abbrev pub magic : List ℕ
magic = b'H' ∷ b'J' ∷ b'R' ∷ b'1' ∷ []

-- The writes of `hermas_journal_encode` before the checksum.
pub write_body : JournalRecord → List ℕ → List ℕ
write_body r destination =
    let d = clear destination record_size in
    let d = overwrite d 0 magic in
    let d = write_u16 d 4 version in
    let d = write_u16 d 6 record_size in
    let d = write_u16 d 8 (r.kind % 2 ^ 16) in
    let d = write_u16 d 10 r.outcome in
    let d = write_u64 d 16 r.sequence in
    let d = write_u64 d 24 r.execution_id in
    let d = write_u32 d 32 r.workflow_id in
    let d = write_u64 d 36 r.request_id in
    let d = write_u16 d 44 r.node_id in
    let d = write_u16 d 46 r.app_id in
    let d = write_u16 d 48 r.action_id in write_u64 d 52 r.image_fingerprint

pub write_record : JournalRecord → List ℕ → List ℕ
write_record r destination =
    let body = write_body r destination in write_u32 body 60 (checksum body 60)

-- Null pointers are `none`. The result code, and `*destination` after the call.
unfoldable pub encode : Option JournalRecord → Option (List ℕ) → ℕ → JournalResult × Option (List ℕ)
encode (some r) (some destination) destination_size =
    if ltb destination_size record_size
    then (buffer_too_small, some destination)
    else if not (is_ok (validate_record r))
    then (validate_record r, some destination)
    else (ok, some (write_record r destination))
encode _ destination destination_size = (invalid_argument, destination)

pub decoded_record : List ℕ → JournalRecord
decoded_record source = record {
  kind = read_u16 source 8;
  outcome = read_u16 source 10;
  sequence = read_u64 source 16;
  execution_id = read_u64 source 24;
  workflow_id = read_u32 source 32;
  request_id = read_u64 source 36;
  node_id = read_u16 source 44;
  app_id = read_u16 source 46;
  action_id = read_u16 source 48;
  image_fingerprint = read_u64 source 52;
}

-- The checks of `hermas_journal_decode` behind the null pointers.
unfoldable pub decode_record : List ℕ → ℕ → Check JournalResult JournalRecord
decode_record source source_size = do
  refuse (ltb source_size record_size) buffer_too_small
  refuse (not (same_bytes source 0 magic)) invalid_magic
  refuse (read_u16 source 4 != version) invalid_version
  refuse (read_u16 source 6 != record_size) invalid_size
  refuse (read_u32 source 12 != 0 || read_u16 source 50 != 0) nonzero_reserved
  refuse (read_u32 source 60 != checksum source 60) checksum_mismatch
  let valid = validate_record (decoded_record source)
  refuse (not (is_ok valid)) valid
  pass (decoded_record source)

abbrev pub decode_outputs :
    Check JournalResult JournalRecord → JournalRecord → JournalResult × Option JournalRecord
decode_outputs (fail code) r = (code, some r)
decode_outputs (pass decoded) r = (ok, some decoded)

-- The result code, and `*record` after the call.
unfoldable pub decode :
    Option (List ℕ) → ℕ → Option JournalRecord → JournalResult × Option JournalRecord
decode (some source) source_size (some r) = decode_outputs (decode_record source source_size) r
decode _ source_size r = (invalid_argument, r)

-- The FNV-1a loop of `hermas_journal_image_fingerprint`.
pub fingerprint_loop : List ℕ → ℕ → ℕ
fingerprint_loop [] value = value
fingerprint_loop (b ∷ image) value =
    fingerprint_loop image (bit_xor value b * 1099511628211 % 2 ^ 64)

-- `image_size` bytes of `image`, here the whole list.
pub image_fingerprint : Option (List ℕ) → ℕ
image_fingerprint none = 0
image_fingerprint (some []) = 0
image_fingerprint (some (b ∷ image)) =
    let value = fingerprint_loop (b ∷ image) 14695981039346656037 in
    if value == 0 then 2 ^ 64 - 1 else value

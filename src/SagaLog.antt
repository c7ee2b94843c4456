-- ===== src/SagaLog.antt =====
-- src/saga_log.c and include/hermas/saga_log.h: the records of the saga log, their bytes, the scan
-- and the writer.
pub mod Kind
pub mod Layout
pub mod Decode
pub mod RoundTrip
pub mod Canonical
pub mod Corruption
pub mod Transition
pub mod Scan
pub mod Writer
mod Runs
use hermas.Base.{
  ℕ, ◌-◌, ◌*◌, ◌%◌, ◌^◌, Bool, true, false, not, ◌&&◌, ◌||◌, Option, none, some, List, [], ◌∷◌, ltb,
  leb, ◌==◌, ◌!=◌, if◌then◌else◌, overwrite, replicate,
}
use hermas.Base.Check.{Check, fail, pass, ◌>>=◌, ◌>>◌, refuse}
use hermas.Bytes.{read_u16, read_u32, read_u64, write_u16, write_u32, write_u64, clear, same_bytes}
use hermas.Crc.{checksum}
use hermas.Protocol.Outcome

abbrev pub version : ℕ
version = 1

abbrev pub record_size : ℕ
record_size = 64

abbrev pub max_steps : ℕ
max_steps = 16

pub data SagaLogResult : Type 0 where
  ok invalid_argument buffer_too_small invalid_record checksum_mismatch : SagaLogResult
  invalid_sequence invalid_transition capacity_exhausted write_error : SagaLogResult

abbrev pub is_ok : SagaLogResult → Bool
is_ok ok = true
is_ok _ = false

pub record SagaLogRecord : Type 0 where
  pub kind : ℕ
  pub outcome : ℕ
  pub sequence : ℕ
  pub execution_id : ℕ
  pub workflow_id : ℕ
  pub request_id : ℕ
  pub forward_node : ℕ
  pub app_id : ℕ
  pub action_id : ℕ
  pub ordinal : ℕ
  pub image_fingerprint : ℕ

unfoldable pub action_kind : ℕ → Bool
action_kind kind = leb Kind.delivery_prepared kind && leb kind Kind.step_unknown

-- The `switch` of `validate`: the outcomes of a record of some kind.
unfoldable pub outcome_valid : ℕ → ℕ → Bool
outcome_valid kind outcome =
    if kind == Kind.started
    then outcome == Outcome.app_error || outcome == Outcome.not_sent
    else if kind == Kind.delivery_prepared || kind == Kind.delivery_sent
    then outcome == Outcome.none
    else if kind == Kind.step_succeeded
    then outcome == Outcome.success
    else if kind == Kind.step_failed
    then outcome == Outcome.app_error || outcome == Outcome.not_sent
    else if kind == Kind.step_unknown
    then outcome == Outcome.unknown
    else if kind == Kind.finished
    then outcome == Outcome.success
      || outcome == Outcome.app_error
      || outcome == Outcome.not_sent
      || outcome == Outcome.unknown
    else false

unfoldable pub route_present : SagaLogRecord → Bool
route_present r =
    r.request_id != 0
    && r.forward_node != 0
    && r.app_id != 0
    && r.action_id != 0
    && r.ordinal != 0
    && leb r.ordinal max_steps

unfoldable pub validate : SagaLogRecord → SagaLogResult
unfolding action_kind outcome_valid route_present
validate r =
    let action = action_kind r.kind in
    if ltb r.kind Kind.started
      || ltb Kind.finished r.kind
      || r.sequence == 0
      || r.execution_id == 0
      || r.workflow_id == 0
      || r.image_fingerprint == 0
    then invalid_record
    else if not (outcome_valid r.kind r.outcome)
    then invalid_record
    else if (action && not (route_present r))
        || (not action
            && r.kind == Kind.finished
            && (r.request_id != 0
                || r.forward_node != 0
                || r.app_id != 0
                || r.action_id != 0
                || r.ordinal != 0))
        || (r.kind == Kind.started
            && (r.request_id != 0
                || r.forward_node != 0
                || r.app_id != 0
                || r.action_id != 0
                || r.ordinal == 0
                || ltb max_steps r.ordinal))
    then invalid_record
    else ok

-- "HSG1"
abbrev pub magic : List ℕ
magic = b'H' ∷ b'S' ∷ b'G' ∷ b'1' ∷ []

-- The writes of `hermas_saga_log_encode` before the checksum.
unfoldable pub write_body : SagaLogRecord → List ℕ → List ℕ
write_body r destination =
    let d = clear destination record_size in
    let d = overwrite d 0 magic in
    let d = write_u16 d 4 version in
    let d = write_u16 d 6 record_size in
    let d = write_u16 d 8 (r.kind % 2 ^ 16) in
    let d = write_u16 d 10 r.outcome in
    let d = write_u64 d 16 r.sequence in
    let d = write_u64 d 24 r.execution_id in
    let d = write_u32 d 32 r.workflow_id in
    let d = write_u64 d 36 r.request_id in
    let d = write_u16 d 44 r.forward_node in
    let d = write_u16 d 46 r.app_id in
    let d = write_u16 d 48 r.action_id in
    let d = write_u16 d 50 r.ordinal in write_u64 d 52 r.image_fingerprint

unfoldable pub write_record : SagaLogRecord → List ℕ → List ℕ
write_record r destination =
    let body = write_body r destination in write_u32 body 60 (checksum body 60)

-- Null pointers are `none`. The result code, and `*destination` after the call.
unfoldable pub encode : Option SagaLogRecord → Option (List ℕ) → ℕ → SagaLogResult × Option (List ℕ)
encode (some r) (some destination) destination_size =
    if ltb destination_size record_size
    then (buffer_too_small, some destination)
    else if not (is_ok (validate r))
    then (validate r, some destination)
    else (ok, some (write_record r destination))
encode _ destination destination_size = (invalid_argument, destination)

pub decoded_record : List ℕ → SagaLogRecord
decoded_record source = record {
  kind = read_u16 source 8;
  outcome = read_u16 source 10;
  sequence = read_u64 source 16;
  execution_id = read_u64 source 24;
  workflow_id = read_u32 source 32;
  request_id = read_u64 source 36;
  forward_node = read_u16 source 44;
  app_id = read_u16 source 46;
  action_id = read_u16 source 48;
  ordinal = read_u16 source 50;
  image_fingerprint = read_u64 source 52;
}

-- The checks of `hermas_saga_log_decode` behind the null pointers.
unfoldable pub decode_record : List ℕ → ℕ → Check SagaLogResult SagaLogRecord
decode_record source source_size = do
  refuse (ltb source_size record_size) buffer_too_small
  refuse
      (not (same_bytes source 0 magic)
        || read_u16 source 4 != version
        || read_u16 source 6 != record_size
        || read_u32 source 12 != 0)
      invalid_record
  refuse (read_u32 source 60 != checksum source 60) checksum_mismatch
  let valid = validate (decoded_record source)
  refuse (not (is_ok valid)) valid
  pass (decoded_record source)

abbrev pub decode_outputs :
    Check SagaLogResult SagaLogRecord → SagaLogRecord → SagaLogResult × Option SagaLogRecord
decode_outputs (fail code) r = (code, some r)
decode_outputs (pass decoded) r = (ok, some decoded)

-- The result code, and `*record` after the call.
unfoldable pub decode :
    Option (List ℕ) → ℕ → Option SagaLogRecord → SagaLogResult × Option SagaLogRecord
decode (some source) source_size (some r) = decode_outputs (decode_record source source_size) r
decode _ source_size r = (invalid_argument, r)

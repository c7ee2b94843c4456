-- ===== src/Protocol.antt =====
-- src/protocol.c and include/hermas/protocol.h: the frames of protocol v1 and their packets.
pub mod Kind
pub mod Outcome
pub mod Layout
pub mod Legal
pub mod Encode
pub mod Decode
pub mod RoundTrip
pub mod Failure
mod Runs
use hermas.Base.{
  ℕ, ◌+◌, ◌-◌, Bool, true, false, not, ◌&&◌, ◌||◌, Option, none, some, List, [], ◌∷◌, ltb, leb,
  ◌==◌, ◌!=◌, if◌then◌else◌, take, drop, overwrite,
}
use hermas.Base.Check.{Check, fail, pass, ◌>>=◌, ◌>>◌, refuse}
use hermas.Bytes.{read_u16, read_u32, read_u64, write_u16, write_u32, write_u64, clear, same_bytes}

abbrev pub version : ℕ
version = 1

abbrev pub header_size : ℕ
header_size = 48

abbrev pub max_packet_size : ℕ
max_packet_size = 65536

abbrev pub max_payload_size : ℕ
max_payload_size = max_packet_size - header_size

pub data ProtocolResult : Type 0 where
  ok buffer_too_small frame_too_large truncated bad_magic unsupported_version : ProtocolResult
  invalid_kind invalid_flags nonzero_reserved length_mismatch invalid_identifier : ProtocolResult
  invalid_outcome invalid_payload : ProtocolResult

abbrev pub is_ok : ProtocolResult → Bool
is_ok ok = true
is_ok _ = false

-- `payload` is the memory from the pointer on, `none` for a null pointer.
pub record Frame : Type 0 where
  pub kind : ℕ
  pub execution_id : ℕ
  pub request_id : ℕ
  pub app_id : ℕ
  pub action_id : ℕ
  pub source_type : ℕ
  pub destination_type : ℕ
  pub outcome : ℕ
  pub payload : Option (List ℕ)
  pub payload_length : ℕ

abbrev pub is_null : Option (List ℕ) → Bool
is_null none = true
is_null (some _) = false

abbrev pub pointee : Option (List ℕ) → List ℕ
pointee none = []
pointee (some bytes) = bytes

pub known_kind : ℕ → Bool
known_kind kind = leb Kind.register_app kind && leb kind Kind.execution_result

pub valid_outcome : ℕ → Bool
valid_outcome outcome = leb outcome Outcome.protocol_error

abbrev ok_if : Bool → ProtocolResult → ProtocolResult
ok_if condition otherwise = if condition then ok else otherwise

unfoldable pub validate_semantics : Frame → ProtocolResult
validate_semantics f =
    let no_execution_ids =
      f.execution_id == 0 && f.request_id == 0 && f.source_type == 0 && f.destination_type == 0 in
    let routed = f.execution_id != 0 && f.request_id != 0 in
    if f.kind == Kind.register_app
    then ok_if
        (no_execution_ids
          && f.app_id != 0
          && f.action_id != 0
          && f.outcome == Outcome.none
          && f.payload_length == 32)
        invalid_payload
    else if f.kind == Kind.register_ok
    then ok_if
        (no_execution_ids
          && f.app_id != 0
          && f.action_id != 0
          && f.outcome == Outcome.none
          && f.payload_length == 0)
        invalid_identifier
    else if f.kind == Kind.invoke
    then ok_if
        (routed
          && f.app_id != 0
          && f.action_id != 0
          && f.source_type != 0
          && f.destination_type != 0
          && f.outcome == Outcome.none)
        invalid_identifier
    else if f.kind == Kind.result
    then ok_if
        (routed
          && f.app_id != 0
          && f.action_id != 0
          && f.source_type != 0
          && f.destination_type != 0
          && (f.outcome == Outcome.success || f.outcome == Outcome.app_error))
        invalid_outcome
    else if f.kind == Kind.protocol_error
    then ok_if (f.outcome == Outcome.protocol_error && f.payload_length == 0) invalid_outcome
    else if f.kind == Kind.execute
    then ok_if
        (f.execution_id != 0
          && f.request_id == 0
          && f.app_id == 0
          && f.action_id == 0
          && f.source_type != 0
          && f.destination_type == 0
          && f.outcome == Outcome.none)
        invalid_identifier
    else if f.kind == Kind.execution_result
    then ok_if
        (f.execution_id != 0
          && f.request_id == 0
          && f.app_id == 0
          && f.action_id == 0
          && (((f.outcome == Outcome.success || f.outcome == Outcome.app_error)
                && f.source_type != 0
                && f.destination_type != 0)
              || ((f.outcome == Outcome.not_sent || f.outcome == Outcome.unknown)
                  && f.source_type == 0
                  && f.destination_type == 0
                  && f.payload_length == 0)))
        invalid_outcome
    else invalid_kind

-- "HRP1"
abbrev pub magic : List ℕ
magic = b'H' ∷ b'R' ∷ b'P' ∷ b'1' ∷ []

-- The writes of `hermas_protocol_encode` once every check has passed.
pub write_frame : Frame → List ℕ → List ℕ
write_frame f destination =
    let d = clear destination header_size in
    let d = overwrite d 0 magic in
    let d = write_u16 d 4 version in
    let d = write_u16 d 6 f.kind in
    let d = write_u32 d 8 0 in
    let d = write_u32 d 12 header_size in
    let d = write_u64 d 16 f.execution_id in
    let d = write_u64 d 24 f.request_id in
    let d = write_u16 d 32 f.app_id in
    let d = write_u16 d 34 f.action_id in
    let d = write_u16 d 36 f.source_type in
    let d = write_u16 d 38 f.destination_type in
    let d = write_u16 d 40 f.outcome in
    let d = write_u16 d 42 0 in
    let d = write_u32 d 44 f.payload_length in
    if f.payload_length != 0
    then overwrite d header_size (take f.payload_length (pointee f.payload))
    else d

-- The checks of `hermas_protocol_encode` behind the null pointers, and its writes.
pub encode_frame : Frame → List ℕ → ℕ → Check ProtocolResult (List ℕ × ℕ)
encode_frame f destination destination_size = do
  refuse (not (known_kind f.kind)) invalid_kind
  refuse (not (valid_outcome f.outcome)) invalid_outcome
  refuse (ltb max_payload_size f.payload_length) frame_too_large
  refuse (f.payload_length != 0 && is_null f.payload) invalid_payload
  refuse (not (is_ok (validate_semantics f))) (validate_semantics f)
  let total = header_size + f.payload_length
  refuse (ltb destination_size total) buffer_too_small
  pass (write_frame f destination, total)

abbrev encode_outputs :
    Check ProtocolResult (List ℕ × ℕ) → List ℕ → ProtocolResult × Option (List ℕ) × Option ℕ
encode_outputs (fail code) destination = (code, some destination, some 0)
encode_outputs (pass (written, total)) destination = (ok, some written, some total)

-- Null pointers are `none`. The result code, `*destination` and `*encoded_size` after the call.
pub encode :
    Option Frame → Option (List ℕ) → ℕ → Option ℕ → ProtocolResult × Option (List ℕ) × Option ℕ
unfolding encode_frame
encode (some f) (some destination) destination_size (some encoded_size) =
    encode_outputs (encode_frame f destination destination_size) destination
encode _ destination destination_size encoded_size = (buffer_too_small, destination, encoded_size)

-- The frame that `hermas_protocol_decode` reads, before the last check.
pub decoded_frame : List ℕ → Frame
decoded_frame packet = record {
  kind = read_u16 packet 6;
  execution_id = read_u64 packet 16;
  request_id = read_u64 packet 24;
  app_id = read_u16 packet 32;
  action_id = read_u16 packet 34;
  source_type = read_u16 packet 36;
  destination_type = read_u16 packet 38;
  outcome = read_u16 packet 40;
  payload = some (drop header_size packet);
  payload_length = read_u32 packet 44;
}

pub decode_packet : List ℕ → ℕ → Check ProtocolResult Frame
decode_packet packet packet_size = do
  refuse (ltb packet_size header_size) truncated
  refuse (ltb max_packet_size packet_size) frame_too_large
  refuse (not (same_bytes packet 0 magic)) bad_magic
  refuse (read_u16 packet 4 != version) unsupported_version
  refuse (not (known_kind (read_u16 packet 6))) invalid_kind
  refuse (read_u32 packet 8 != 0) invalid_flags
  refuse (read_u32 packet 12 != header_size || read_u16 packet 42 != 0) nonzero_reserved
  refuse (read_u32 packet 44 != packet_size - header_size) length_mismatch
  refuse (not (valid_outcome (read_u16 packet 40))) invalid_outcome
  let semantic = validate_semantics (decoded_frame packet)
  refuse (not (is_ok semantic)) semantic
  pass (decoded_frame packet)

abbrev decode_outputs : Check ProtocolResult Frame → Frame → ProtocolResult × Option Frame
decode_outputs (fail code) frame = (code, some frame)
decode_outputs (pass decoded) frame = (ok, some decoded)

-- The result code, and `*frame` after the call.
pub decode : Option (List ℕ) → ℕ → Option Frame → ProtocolResult × Option Frame
decode (some packet) packet_size (some frame) =
    decode_outputs (decode_packet packet packet_size) frame
decode _ packet_size frame = (truncated, frame)

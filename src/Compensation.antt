-- ===== src/Compensation.antt =====
-- src/compensation.c and include/hermas/compensation.h: the records of the compensation store and their bytes. The
-- children `Scan`, `Find` and `Writer` are the operations on a store.
pub mod Layout
pub mod Scan
pub mod Find
pub mod Writer
pub mod RoundTrip
pub mod Contents
pub mod Accepted
pub mod Lookup
mod Runs
use hermas.Base.{
  ℕ, ◌+◌, ◌-◌, ◌*◌, ◌%◌, ◌^◌, Bool, true, false, not, ◌&&◌, ◌||◌, Option, none, some, List, [], ◌∷◌,
  ltb, leb, ◌==◌, ◌!=◌, if◌then◌else◌, overwrite, replicate, take, drop,
}
use hermas.Base.Check.{Check, fail, pass, ◌>>=◌, ◌>>◌, refuse}
use hermas.Bytes.{read_u16, read_u32, read_u64, write_u16, write_u32, write_u64, clear, same_bytes}
use hermas.Crc.{checksum_parts}
use hermas.Protocol.{max_payload_size}

abbrev pub version : ℕ
version = 1

abbrev pub header_size : ℕ
header_size = 72

-- The bytes of the header that are summed.
abbrev pub summed_size : ℕ
summed_size = 68

pub data CompensationResult : Type 0 where
  ok invalid_argument buffer_too_small invalid_record checksum_mismatch : CompensationResult
  invalid_sequence duplicate_token write_error : CompensationResult

abbrev pub is_ok : CompensationResult → Bool
is_ok ok = true
is_ok _ = false

pub record CompensationKey : Type 0 where
  pub execution_id : ℕ
  pub workflow_id : ℕ
  pub request_id : ℕ
  pub node_id : ℕ
  pub image_fingerprint : ℕ

-- `token` is the memory behind the pointer, `none` for a null pointer.
pub record CompensationRecord : Type 0 where
  pub sequence : ℕ
  pub key : CompensationKey
  pub compensation_app_id : ℕ
  pub compensation_action_id : ℕ
  pub source_type : ℕ
  pub destination_type : ℕ
  pub token : Option (List ℕ)
  pub token_length : ℕ

abbrev pub is_null : Option (List ℕ) → Bool
is_null none = true
is_null (some _) = false

abbrev pub pointee : Option (List ℕ) → List ℕ
pointee none = []
pointee (some bytes) = bytes

unfoldable pub key_equal : CompensationKey → CompensationKey → Bool
key_equal left right =
    left.execution_id == right.execution_id
    && left.workflow_id == right.workflow_id
    && left.request_id == right.request_id
    && left.node_id == right.node_id
    && left.image_fingerprint == right.image_fingerprint

unfoldable pub record_valid : CompensationRecord → Bool
record_valid r =
    r.sequence != 0
    && r.key.execution_id != 0
    && r.key.workflow_id != 0
    && r.key.request_id != 0
    && r.key.node_id != 0
    && r.key.image_fingerprint != 0
    && r.compensation_app_id != 0
    && r.compensation_action_id != 0
    && r.source_type != 0
    && r.destination_type != 0
    && leb r.token_length max_payload_size
    && (r.token_length == 0 || not (is_null r.token))

-- "HCT1"
abbrev pub magic : List ℕ
magic = b'H' ∷ b'C' ∷ b'T' ∷ b'1' ∷ []

-- The header of a record of `size` bytes, without its checksum.
unfoldable pub write_header : CompensationRecord → ℕ → List ℕ → List ℕ
write_header r size destination =
    let d = clear destination header_size in
    let d = overwrite d 0 magic in
    let d = write_u16 d 4 version in
    let d = write_u16 d 6 header_size in
    let d = write_u32 d 8 size in
    let d = write_u32 d 12 r.token_length in
    let d = write_u64 d 16 r.sequence in
    let d = write_u64 d 24 r.key.execution_id in
    let d = write_u32 d 32 r.key.workflow_id in
    let d = write_u64 d 36 r.key.request_id in
    let d = write_u16 d 44 r.key.node_id in
    let d = write_u16 d 46 r.compensation_app_id in
    let d = write_u16 d 48 r.compensation_action_id in
    let d = write_u16 d 50 r.source_type in
    let d = write_u16 d 52 r.destination_type in write_u64 d 56 r.key.image_fingerprint

unfoldable pub write_token : CompensationRecord → List ℕ → List ℕ
write_token r d =
    if r.token_length != 0
    then overwrite d header_size (take r.token_length (pointee r.token))
    else d

unfoldable pub write_record : CompensationRecord → ℕ → List ℕ → List ℕ
unfolding write_header write_token
write_record r size destination =
    let d = write_token r (write_header r size destination) in
    write_u32 d 68 (checksum_parts summed_size d (drop header_size d) r.token_length)

-- The size of a record is at most 72 + 65488, since the record is valid.
unfoldable pub encode_record :
    CompensationRecord → List ℕ → ℕ → Check CompensationResult (List ℕ × ℕ)
encode_record r destination destination_size = do
  refuse (not (record_valid r)) invalid_record
  let size = header_size + r.token_length
  refuse (ltb destination_size size) buffer_too_small
  pass (write_record r size destination, size)

abbrev pub encode_outputs :
    Check CompensationResult (List ℕ × ℕ)
    → List ℕ
    → ℕ
    → CompensationResult × Option (List ℕ) × Option ℕ
encode_outputs (fail code) destination encoded_size = (code, some destination, some encoded_size)
encode_outputs (pass (written, size)) destination encoded_size = (ok, some written, some size)

-- Null pointers are `none`. The result code, `*destination` and `*encoded_size` after the call.
unfoldable pub encode :
    Option CompensationRecord
    → Option (List ℕ)
    → ℕ
    → Option ℕ
    → CompensationResult × Option (List ℕ) × Option ℕ
unfolding encode_record
encode (some r) (some destination) destination_size (some encoded_size) =
    encode_outputs (encode_record r destination destination_size) destination encoded_size
encode _ destination destination_size encoded_size = (invalid_argument, destination, encoded_size)

unfoldable pub decoded_record : List ℕ → CompensationRecord
decoded_record source = record {
  sequence = read_u64 source 16;
  key = record {
    execution_id = read_u64 source 24;
    workflow_id = read_u32 source 32;
    request_id = read_u64 source 36;
    node_id = read_u16 source 44;
    image_fingerprint = read_u64 source 56;
  };
  compensation_app_id = read_u16 source 46;
  compensation_action_id = read_u16 source 48;
  source_type = read_u16 source 50;
  destination_type = read_u16 source 52;
  token = some (drop header_size source);
  token_length = read_u32 source 12;
}

-- The tests of the header; `HERMAS_COMPENSATION_HEADER_SIZE + token_length` is on 32 bits.
unfoldable pub header_refused : List ℕ → ℕ → Bool
header_refused source source_size =
    let size = read_u32 source 8 in
    let token_length = read_u32 source 12 in
    not (same_bytes source 0 magic)
    || read_u16 source 4 != version
    || read_u16 source 6 != header_size
    || size != (header_size + token_length) % 2 ^ 32
    || ltb source_size size
    || read_u16 source 54 != 0
    || read_u32 source 64 != 0
    || ltb max_payload_size token_length

-- The checks of `hermas_compensation_decode` behind the null pointers: the record and its size.
unfoldable pub decode_record : List ℕ → ℕ → Check CompensationResult (CompensationRecord × ℕ)
decode_record source source_size = do
  refuse (ltb source_size header_size) buffer_too_small
  refuse (header_refused source source_size) invalid_record
  refuse
      (read_u32 source 68
        != checksum_parts summed_size source (drop header_size source) (read_u32 source 12))
      checksum_mismatch
  refuse (not (record_valid (decoded_record source))) invalid_record
  pass (decoded_record source, read_u32 source 8)

abbrev pub decode_outputs :
    Check CompensationResult (CompensationRecord × ℕ)
    → CompensationRecord
    → ℕ
    → CompensationResult × Option CompensationRecord × Option ℕ
decode_outputs (fail code) r size = (code, some r, some size)
decode_outputs (pass (decoded, decoded_size)) r size = (ok, some decoded, some decoded_size)

-- The result code, `*record` and `*record_size` after the call.
unfoldable pub decode :
    Option (List ℕ)
    → ℕ
    → Option CompensationRecord
    → Option ℕ
    → CompensationResult × Option CompensationRecord × Option ℕ
unfolding decode_record
decode (some source) source_size (some r) (some size) =
    decode_outputs (decode_record source source_size) r size
decode _ source_size r size = (invalid_argument, r, size)

-- ===== src/Protocol/Encode.antt =====
-- What `encode` writes for a legal frame, with the rest of the buffer as it was.
use hermas.Base.{
  ℕ, ◌+◌, ◌^◌, ◌<◌, ◌≤◌, ◌≡◌, refl, ◌∙◌, arith, List, ◌++◌, some, length, length-take, take, drop,
  drop-drop, length-drop, overwrite_front, ◌!=◌, ◌&&◌, true, false, Option-cases, inl, inr,
}
use hermas.Bytes.Fields.{field_bytes}
use hermas.Protocol.{
  Frame, ok, header_size, max_payload_size, pointee, is_null, encode, write_frame, known_kind,
  valid_outcome,
}
use hermas.Protocol.Layout.{header_fields, write_frame-bytes}
use hermas.Protocol.Legal.{
  Legal, registering, registered, invoking, answering, complaining, submitting, reporting,
  reporting_loss, validate_semantics-Legal,
}

-- The fields are what their C types hold, and the payload pointer has its bytes behind it.
pub record IsFrame (f : Frame) : Type 0 where
  pub kind : f.kind < 2 ^ 16
  pub execution_id : f.execution_id < 2 ^ 64
  pub request_id : f.request_id < 2 ^ 64
  pub app_id : f.app_id < 2 ^ 16
  pub action_id : f.action_id < 2 ^ 16
  pub source_type : f.source_type < 2 ^ 16
  pub destination_type : f.destination_type < 2 ^ 16
  pub outcome : f.outcome < 2 ^ 16
  pub payload_length : f.payload_length < 2 ^ 32
  pub readable : f.payload_length ≤ length (pointee f.payload)

abbrev pub payload_bytes : Frame → List ℕ
payload_bytes f = take f.payload_length (pointee f.payload)

-- The packet of a frame: the header fields, then the payload.
unfoldable pub packet_of : Frame → List ℕ
packet_of f = field_bytes (header_fields f) ++ payload_bytes f

pub known-Legal :
    (f : Frame) → Legal f → (known_kind f.kind ≡ true) × (valid_outcome f.outcome ≡ true)
unfolding known_kind valid_outcome
known-Legal f (registering k r n o p) = ground arith
known-Legal f (registered k r n o p) = ground arith
known-Legal f (invoking k r n t o) = ground arith
known-Legal f (answering k r n t o) = ground arith
known-Legal f (complaining k o p) = ground arith
known-Legal f (submitting k c s d o) = ground arith
known-Legal f (reporting k c t o) = ground arith
known-Legal f (reporting_loss k c t o) = ground arith

payload_present :
    (f : Frame)
    → f.payload_length ≤ length (pointee f.payload)
    → (f.payload_length != 0 && is_null f.payload) ≡ false
payload_present f h = elim (Option-cases f.payload) [
  | inl e ↦ ground arith
  | inr (bytes, e) ↦ ground arith
]

write_frame-packet_of :
    (f : Frame) (d : List ℕ)
    → IsFrame f
    → header_size + f.payload_length ≤ length d
    → write_frame f d ≡ packet_of f ++ drop (header_size + f.payload_length) d
unfolding packet_of
write_frame-packet_of f d typed fits =
    write_frame-bytes f d (omega arith)
    ∙ rw
        (
          overwrite_front (drop header_size d) (payload_bytes f) (
              omega (
                arith,
                length-drop header_size d,
                length-take f.payload_length (pointee f.payload) typed.readable,
              )),
          drop-drop (length (payload_bytes f)) header_size d,
          length-take f.payload_length (pointee f.payload) typed.readable,
        )
        refl

pub encode-Legal :
    (f : Frame) (destination : List ℕ) (destination_size encoded_size : ℕ)
    → IsFrame f
    → Legal f
    → f.payload_length ≤ max_payload_size
    → header_size + f.payload_length ≤ destination_size
    → destination_size ≤ length destination
    → encode (some f) (some destination) destination_size (some encoded_size) ≡ (
      ok,
      some (packet_of f ++ drop (header_size + f.payload_length) destination),
      some (header_size + f.payload_length),
    )
unfolding encode
encode-Legal f d size n typed legal small room fits = ground (
  arith,
  known-Legal f legal,
  validate_semantics-Legal f legal,
  payload_present f typed.readable,
  write_frame-packet_of f d typed,
)

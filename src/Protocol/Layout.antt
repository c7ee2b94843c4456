-- ===== src/Protocol/Layout.antt =====
-- What `encode` writes: the header as a list of fields, then the payload.
use hermas.Base.{
  ℕ, ◌≤◌, ◌≡◌, arith, List, [], ◌∷◌, ◌++◌, length, take, drop, overwrite, overwrite_front,
  overwrite_nil, take_zero, ◌!=◌, Bool-cases, inl, inr,
}
use hermas.Bytes.{write_u32, write_u64}
use hermas.Bytes.Fields.{Field, field_bytes}
use hermas.Bytes.Words.{write_u16-write_loop}
use hermas.Protocol.{Frame, write_frame, pointee, header_size, version}

-- The bytes of the header, in the order of docs/PROTOCOL_V1.md.
abbrev pub header_fields : Frame → List Field
header_fields f =
    (1, b'H')
    ∷ (1, b'R')
    ∷ (1, b'P')
    ∷ (1, b'1')
    ∷ (2, version)
    ∷ (2, f.kind)
    ∷ (4, 0)
    ∷ (4, header_size)
    ∷ (8, f.execution_id)
    ∷ (8, f.request_id)
    ∷ (2, f.app_id)
    ∷ (2, f.action_id)
    ∷ (2, f.source_type)
    ∷ (2, f.destination_type)
    ∷ (2, f.outcome)
    ∷ (2, 0)
    ∷ (4, f.payload_length)
    ∷ []

pub write_frame-bytes :
    (f : Frame) (d : List ℕ)
    → header_size ≤ length d
    → write_frame f d
      ≡ field_bytes (header_fields f)
        ++ overwrite (drop header_size d) 0 (take f.payload_length (pointee f.payload))
unfolding write_frame write_u32 write_u64
write_frame-bytes f d h = elim (Bool-cases (f.payload_length != 0)) [
  | inl some_payload ↦ rw (some_payload, overwrite_front d _ h) (simp write_u16-write_loop)
  | inr no_payload ↦
      rw
        (
          no_payload,
          overwrite_front d _ h,
          take_zero f.payload_length (pointee f.payload) (ground arith),
          overwrite_nil (drop 48 d),
        )
        (simp write_u16-write_loop)
]

-- ===== src/Protocol/RoundTrip.antt =====
-- Encoding and decoding of packets and frames.
use hermas.Base.{
  ℕ, ◌+◌, ◌≤◌, ◌≡◌, refl, sym, ap, ◌∙◌, arith, List, ◌++◌, some, All, All-append, All-take,
  All-drop, length, length-drop, take, take_more, drop,
}
use hermas.Bytes.{IsByte}
use hermas.Bytes.Words.{
  read_u16-read_le, read_u32-read_le, read_u64-read_le, read_u16-lt, read_u32-lt, read_u64-lt,
}
use hermas.Bytes.Fields.{field_bytes, Holds, Fit, Holds-field_bytes, field_bytes-IsByte}
use hermas.Bytes.Canonical.{field_bytes-take}
use hermas.Protocol.{
  Frame, ok, header_size, max_payload_size, pointee, encode, decode, decoded_frame,
}
use hermas.Protocol.Layout.{header_fields}
use hermas.Protocol.Legal.{Legal, Legal-validate_semantics}
use hermas.Protocol.Encode.{IsFrame, payload_bytes, packet_of, encode-Legal}
use hermas.Protocol.Decode.{Decoded, decode-Decoded, decode_packet-Holds}

IsFrame-Fit : (f : Frame) → IsFrame f → Fit (header_fields f)
IsFrame-Fit f typed = omega arith

packet_of-IsByte : (f : Frame) → All IsByte (pointee f.payload) → All IsByte (packet_of f)
unfolding packet_of
packet_of-IsByte f h =
    All-append IsByte (field_bytes (header_fields f)) (payload_bytes f)
      (field_bytes-IsByte (header_fields f))
      (All-take IsByte f.payload_length (pointee f.payload) h)

module _ (f : Frame) (rest : List ℕ) (typed : IsFrame f) (legal : Legal f)
    (bytes : All IsByte (pointee f.payload)) (rest_bytes : All IsByte rest)
    (small : f.payload_length ≤ max_payload_size) where
  packet_of-Holds : Holds (header_fields f) (packet_of f ++ rest) 0
  unfolding packet_of
  packet_of-Holds =
      Holds-field_bytes (header_fields f) (payload_bytes f ++ rest) (IsFrame-Fit f typed)

  drop_header : drop header_size (packet_of f ++ rest) ≡ payload_bytes f ++ rest
  unfolding packet_of
  drop_header = refl

  pub decode-packet_of :
      (g : Frame)
      → decode (some (packet_of f ++ rest)) (header_size + f.payload_length) (some g)
        ≡ (ok, some (record f { payload = some (payload_bytes f ++ rest) }))
  unfolding decode
  decode-packet_of g = rw (
    decode_packet-Holds (packet_of f ++ rest)
        (All-append IsByte (packet_of f) rest (packet_of-IsByte f bytes) rest_bytes) f
        packet_of-Holds legal (omega arith),
    drop_header,
  )

-- For a legal frame whose fields fit their C types, with a payload of bytes that is at most 65488
-- long and a destination of bytes with room for the packet, `hermas_protocol_encode` succeeds,
-- reports 48 bytes and the payload, and decoding as many bytes gives the frame back: every field,
-- and the payload pointer at the copy of the payload in the buffer.
pub decode-encode_frame :
    (f g : Frame) (destination : List ℕ) (destination_size encoded_size : ℕ)
    → IsFrame f
    → Legal f
    → All IsByte (pointee f.payload)
    → All IsByte destination
    → f.payload_length ≤ max_payload_size
    → header_size + f.payload_length ≤ destination_size
    → destination_size ≤ length destination
    → let (code, packet, size) =
        encode (some f) (some destination) destination_size (some encoded_size) in
      (code ≡ ok)
      × (size ≡ some (header_size + f.payload_length))
      × (decode packet (header_size + f.payload_length) (some g) ≡ (
        ok,
        some (record f {
          payload = some (payload_bytes f ++ drop (header_size + f.payload_length) destination);
        }),
      ))
decode-encode_frame f g d n s typed legal bytes free small room fits =
    rw (encode-Legal f d n s typed legal small room fits) (
      refl,
      refl,
      decode-packet_of f (drop (header_size + f.payload_length) d) typed legal bytes
          (All-drop IsByte _ d free) small g,
    )

-- A decoded frame fits its C types, and the packet holds its fields and is made of them.
module _ (packet : List ℕ) (size : ℕ) (bytes : All IsByte packet) (fits : size ≤ length packet)
    (d : Decoded packet size (decoded_frame packet)) where
  Decoded-IsFrame : IsFrame (decoded_frame packet)
  unfolding decoded_frame
  Decoded-IsFrame = record {
    kind = read_u16-lt packet 6 bytes;
    execution_id = read_u64-lt packet 16 bytes;
    request_id = read_u64-lt packet 24 bytes;
    app_id = read_u16-lt packet 32 bytes;
    action_id = read_u16-lt packet 34 bytes;
    source_type = read_u16-lt packet 36 bytes;
    destination_type = read_u16-lt packet 38 bytes;
    outcome = read_u16-lt packet 40 bytes;
    payload_length = read_u32-lt packet 44 bytes;
    readable = omega (arith, d.length_ok, d.long_enough, length-drop header_size packet);
  }

  Decoded-Holds : Holds (header_fields (decoded_frame packet)) packet 0
  unfolding decoded_frame
  Decoded-Holds = ground (
    arith,
    d,
    read_u16-read_le packet 4 bytes,
    read_u16-read_le packet 6 bytes,
    read_u32-read_le packet 8 bytes,
    read_u32-read_le packet 12 bytes,
    read_u64-read_le packet 16 bytes,
    read_u64-read_le packet 24 bytes,
    read_u16-read_le packet 32 bytes,
    read_u16-read_le packet 34 bytes,
    read_u16-read_le packet 36 bytes,
    read_u16-read_le packet 38 bytes,
    read_u16-read_le packet 40 bytes,
    read_u16-read_le packet 42 bytes,
    read_u32-read_le packet 44 bytes,
  )

  size-payload_length : header_size + (decoded_frame packet).payload_length ≡ size
  unfolding decoded_frame
  size-payload_length = omega (arith, d.length_ok)

  payload-Decoded :
      payload_bytes (decoded_frame packet)
      ≡ take (decoded_frame packet).payload_length (drop header_size packet)
  unfolding decoded_frame
  payload-Decoded = refl

  packet_of-Decoded : packet_of (decoded_frame packet) ≡ take size packet
  unfolding packet_of
  packet_of-Decoded =
      ap (λ (t : List ℕ). t ++ payload_bytes (decoded_frame packet))
        (field_bytes-take packet bytes (header_fields (decoded_frame packet)) Decoded-Holds
          (omega (arith, d.long_enough)))
      ∙ ap (λ (t : List ℕ). take header_size packet ++ t) payload-Decoded
      ∙ sym (take_more header_size (decoded_frame packet).payload_length packet)
      ∙ ap (λ (t : ℕ). take t packet) size-payload_length

  encode-Decoded :
      (destination : List ℕ) (destination_size encoded_size : ℕ)
      → size ≤ destination_size
      → destination_size ≤ length destination
      → encode (some (decoded_frame packet)) (some destination) destination_size (some encoded_size)
        ≡ (ok, some (take size packet ++ drop size destination), some size)
  encode-Decoded destination n s room space =
      rw (size-payload_length, packet_of-Decoded) at
        (encode-Legal (decoded_frame packet) destination n s Decoded-IsFrame
          (Legal-validate_semantics (decoded_frame packet) d.semantics_ok)
          (omega (arith, size-payload_length, d.not_too_long)) (omega (arith, size-payload_length))
          space)

-- A packet of bytes that `hermas_protocol_decode` accepts is what `hermas_protocol_encode` writes
-- for the decoded frame, into any buffer with room for it: the packet, and behind it the buffer as
-- it was. So a frame has one packet only.
pub encode-decode_frame :
    (packet destination : List ℕ) (size destination_size encoded_size : ℕ) (f g : Frame)
    → decode (some packet) size (some g) ≡ (ok, some f)
    → All IsByte packet
    → size ≤ length packet
    → size ≤ destination_size
    → destination_size ≤ length destination
    → encode (some f) (some destination) destination_size (some encoded_size)
      ≡ (ok, some (take size packet ++ drop size destination), some size)
encode-decode_frame packet destination size n s f g e bytes fits room space =
    let passed = decode-Decoded packet size f g e in
    let again : Decoded packet size (decoded_frame packet) = rw passed.frame at passed in
    rw passed.frame (encode-Decoded packet size bytes fits again destination n s room space)

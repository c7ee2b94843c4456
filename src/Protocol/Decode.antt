-- ===== src/Protocol/Decode.antt =====
-- What `decode` answers on a buffer that holds the fields of a legal frame, and conversely.
use hermas.Base.{ℕ, ◌+◌, ◌≤◌, ◌≡◌, ◌≢◌, inl, inr, refl, ap, ◌∙◌, arith, List, some, All, drop, true}
use hermas.Base.Check.{fail, pass, Check-cases}
use hermas.Bytes.{IsByte, read_u16, read_u32, same_bytes}
use hermas.Bytes.Words.{read_u16-read_le, read_u32-read_le, read_u64-read_le}
use hermas.Bytes.Fields.{Holds}
use hermas.Protocol.{
  Frame, ok, header_size, max_packet_size, version, magic, decode, decode_packet, decoded_frame,
  validate_semantics, known_kind, valid_outcome,
}
use hermas.Protocol.Layout.{header_fields}
use hermas.Protocol.Legal.{Legal, validate_semantics-Legal}
use hermas.Protocol.Encode.{known-Legal}

-- All that a packet has been checked for once it is decoded.
pub record Decoded (packet : List ℕ) (size : ℕ) (f : Frame) : Type 0 where
  pub frame : f ≡ decoded_frame packet
  pub long_enough : header_size ≤ size
  pub not_too_long : size ≤ max_packet_size
  pub kind_ok : known_kind (read_u16 packet 6) ≡ true
  pub outcome_ok : valid_outcome (read_u16 packet 40) ≡ true
  pub magic_ok : same_bytes packet 0 magic ≡ true
  pub version_ok : read_u16 packet 4 ≡ version
  pub flags_ok : read_u32 packet 8 ≡ 0
  pub size_ok : read_u32 packet 12 ≡ header_size
  pub reserved_ok : read_u16 packet 42 ≡ 0
  pub length_ok : read_u32 packet 44 + header_size ≡ size
  pub semantics_ok : validate_semantics (decoded_frame packet) ≡ ok

decode_packet-Decoded :
    (packet : List ℕ) (size : ℕ) (f : Frame)
    → decode_packet packet size ≡ pass f
    → Decoded packet size f
unfolding decode_packet
decode_packet-Decoded packet size f e = ground arith

-- A refusal is never reported as a success.
decode_packet-ne-ok : (packet : List ℕ) (size : ℕ) → decode_packet packet size ≢ fail ok
unfolding decode_packet
decode_packet-ne-ok packet size e = ground arith

pub decode-Decoded :
    (packet : List ℕ) (size : ℕ) (f g : Frame)
    → decode (some packet) size (some g) ≡ (ok, some f)
    → Decoded packet size f
unfolding decode
decode-Decoded packet size f g e = elim (Check-cases (decode_packet packet size)) [
  | inl (code, failed) ↦ absurd (ground (arith, decode_packet-ne-ok packet size))
  | inr (h, passed) ↦ decode_packet-Decoded packet size f (ground arith)
]

decode_packet-pass :
    (packet : List ℕ) (size : ℕ)
    → Decoded packet size (decoded_frame packet)
    → decode_packet packet size ≡ pass (decoded_frame packet)
unfolding decode_packet
decode_packet-pass packet size d = ground arith

module _ (packet : List ℕ) (bytes : All IsByte packet) (f : Frame)
    (held : Holds (header_fields f) packet 0) where
  decoded_frame-Holds : decoded_frame packet ≡ record f { payload = some (drop header_size packet) }
  unfolding decoded_frame
  decoded_frame-Holds = ground (
    arith,
    read_u16-read_le packet 6 bytes,
    read_u64-read_le packet 16 bytes,
    read_u64-read_le packet 24 bytes,
    read_u16-read_le packet 32 bytes,
    read_u16-read_le packet 34 bytes,
    read_u16-read_le packet 36 bytes,
    read_u16-read_le packet 38 bytes,
    read_u16-read_le packet 40 bytes,
    read_u32-read_le packet 44 bytes,
  )

  header-Holds :
      (same_bytes packet 0 magic ≡ true)
      × (read_u16 packet 4 ≡ version)
      × (read_u16 packet 6 ≡ f.kind)
      × (read_u32 packet 8 ≡ 0)
      × (read_u32 packet 12 ≡ header_size)
      × (read_u16 packet 42 ≡ 0)
      × (read_u32 packet 44 ≡ f.payload_length)
      × (read_u16 packet 40 ≡ f.outcome)
  header-Holds = ground (
    arith,
    read_u16-read_le packet 4 bytes,
    read_u16-read_le packet 6 bytes,
    read_u32-read_le packet 8 bytes,
    read_u32-read_le packet 12 bytes,
    read_u16-read_le packet 42 bytes,
    read_u32-read_le packet 44 bytes,
    read_u16-read_le packet 40 bytes,
  )

  payload_ignored :
      validate_semantics f ≡ ok
      → validate_semantics (record f { payload = some (drop header_size packet) }) ≡ ok
  unfolding validate_semantics
  payload_ignored h = h

  pub decode_packet-Holds :
      Legal f
      → header_size + f.payload_length ≤ max_packet_size
      → decode_packet packet (header_size + f.payload_length)
        ≡ pass (record f { payload = some (drop header_size packet) })
  decode_packet-Holds legal small =
      let (m, v, k, fl, si, re, le, out) = header-Holds in
      let (kk, oo) = known-Legal f legal in
      decode_packet-pass packet (header_size + f.payload_length) (record {
        frame = refl;
        long_enough = omega arith;
        not_too_long = small;
        kind_ok = rw k kk;
        outcome_ok = rw out oo;
        magic_ok = m;
        version_ok = v;
        flags_ok = fl;
        size_ok = si;
        reserved_ok = re;
        length_ok = omega arith;
        semantics_ok = rw decoded_frame-Holds (payload_ignored (validate_semantics-Legal f legal));
      })
      ∙ ap pass decoded_frame-Holds

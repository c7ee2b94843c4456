-- ===== src/Protocol/Runs.antt =====
-- Concrete packets, and the theorems at concrete inputs.
use hermas.Base.{ℕ, ◌≡◌, ◌≢◌, ◌↔◌, refl, arith, List, [], ◌∷◌, ◌++◌, some, drop, replicate}
use hermas.Bytes.{read_u16, read_u32, read_u64, write_u16, write_u32, write_u64}
use hermas.Protocol.{
  Frame, ok, truncated, invalid_identifier, encode, encode_frame, decode, decode_packet,
  decoded_frame, write_frame, validate_semantics, known_kind, valid_outcome,
}
use hermas.Protocol.Kind
use hermas.Protocol.Outcome
use hermas.Protocol.Legal.{Legal, invoking}
use hermas.Protocol.Encode.{payload_bytes}
use hermas.Protocol.RoundTrip.{decode-encode_frame, encode-decode_frame}
use hermas.Protocol.Failure.{Accepted, encode_ok_iff}

abbrev order : Frame
order = record {
  kind = Kind.invoke;
  execution_id = 7;
  request_id = 1;
  app_id = 2;
  action_id = 3;
  source_type = 4;
  destination_type = 5;
  outcome = Outcome.none;
  payload = some (10 ∷ 20 ∷ 30 ∷ []);
  payload_length = 3;
}

-- Without a request the same frame is refused.
abbrev unrouted : Frame
unrouted = record order { request_id = 0 }

abbrev buffer : List ℕ
buffer = replicate 60 9

abbrev order_packet : List ℕ
order_packet =
    b'H' ∷ b'R' ∷ b'P' ∷ b'1' ∷ 1 ∷ 0 ∷ 3 ∷ 0 ∷ 0 ∷ 0 ∷ 0 ∷ 0 ∷ 48 ∷ 0 ∷ 0 ∷ 0 ∷ 7 ∷ 0 ∷ 0 ∷ 0 ∷ 0
    ∷ 0 ∷ 0 ∷ 0 ∷ 1 ∷ 0 ∷ 0 ∷ 0 ∷ 0 ∷ 0 ∷ 0 ∷ 0 ∷ 2 ∷ 0 ∷ 3 ∷ 0 ∷ 4 ∷ 0 ∷ 5 ∷ 0 ∷ 0 ∷ 0 ∷ 0 ∷ 0 ∷ 3
    ∷ 0 ∷ 0 ∷ 0 ∷ 10 ∷ 20 ∷ 30 ∷ []

encode-order :
    encode (some order) (some buffer) 60 (some 0)
    ≡ (ok, some (order_packet ++ replicate 9 9), some 51)
unfolding encode encode_frame write_frame validate_semantics known_kind valid_outcome write_u16
    write_u32 write_u64
encode-order = refl

decode-order :
    decode (some order_packet) 51 (some unrouted)
    ≡ (ok, some (record order { payload = some (10 ∷ 20 ∷ 30 ∷ []) }))
unfolding decode decode_packet decoded_frame validate_semantics known_kind valid_outcome read_u16
    read_u32 read_u64
decode-order = refl

decode_short : decode (some order_packet) 47 (some unrouted) ≡ (truncated, some unrouted)
unfolding decode decode_packet
decode_short = refl

encode-unrouted :
    encode (some unrouted) (some buffer) 60 (some 5) ≡ (invalid_identifier, some buffer, some 0)
unfolding encode encode_frame validate_semantics known_kind valid_outcome
encode-unrouted = refl

order-Legal : Legal order
order-Legal = invoking refl (omega arith) (omega arith) (omega arith) refl

decode-encode_frame_example :
    ((encode (some order) (some buffer) 60 (some 0)).0 ≡ ok)
    × ((encode (some order) (some buffer) 60 (some 0)).2 ≡ some 51)
    × (decode (encode (some order) (some buffer) 60 (some 0)).1 51 (some unrouted)
        ≡ (ok, some (record order { payload = some (payload_bytes order ++ drop 51 buffer) })))
decode-encode_frame_example =
    decode-encode_frame order unrouted buffer 60 0 (omega arith) order-Legal (omega arith)
      (omega arith) (omega arith) (omega arith) (omega arith)

encode-decode_frame_example :
    encode (some (record order { payload = some (10 ∷ 20 ∷ 30 ∷ []) })) (some buffer) 60 (some 0)
    ≡ (ok, some (order_packet ++ drop 51 buffer), some 51)
encode-decode_frame_example =
    encode-decode_frame order_packet buffer 51 60 0 _ unrouted decode-order (omega arith)
      (omega arith) (omega arith) (omega arith)

encode_ok_iff_example : ((encode (some order) (some buffer) 60 (some 0)).0 ≡ ok) ↔ Accepted order 60
encode_ok_iff_example = encode_ok_iff order buffer 60 0

encode-unrouted_fails : (encode (some unrouted) (some buffer) 60 (some 5)).0 ≢ ok
encode-unrouted_fails e = cc (encode-unrouted)

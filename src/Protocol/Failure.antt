-- ===== src/Protocol/Failure.antt =====
-- When `encode` succeeds, and what a call that fails leaves behind.
use hermas.Base.{
  ℕ, ◌+◌, ◌≤◌, ◌≡◌, ◌≢◌, ◌↔◌, ◌&&◌, ◌!=◌, refl, arith, List, some, none, Option, false, inl, inr,
}
use hermas.Base.Check.{fail, pass, Check-cases}
use hermas.Protocol.{
  Frame, ok, header_size, max_payload_size, is_null, encode, encode_frame, decode, write_frame,
}
use hermas.Protocol.Legal.{Legal, validate_semantics-Legal, Legal-validate_semantics}
use hermas.Protocol.Encode.{known-Legal}

-- What `encode` accepts.
abbrev pub Accepted : Frame → ℕ → Type 0
Accepted f destination_size =
    Legal f
    × (f.payload_length ≤ max_payload_size)
    × ((f.payload_length != 0 && is_null f.payload) ≡ false)
    × (header_size + f.payload_length ≤ destination_size)

module _ (f : Frame) (destination : List ℕ) (destination_size : ℕ) where
  abbrev Encoded : Type 0
  Encoded =
      encode_frame f destination destination_size
      ≡ pass (write_frame f destination, header_size + f.payload_length)

  encode_frame-Accepted : Accepted f destination_size → Encoded
  unfolding encode_frame
  encode_frame-Accepted (legal, small, present, room) =
      ground (arith, known-Legal f legal, validate_semantics-Legal f legal)

  encode_frame-ne-ok : encode_frame f destination destination_size ≢ fail ok
  unfolding encode_frame
  encode_frame-ne-ok e = ground arith

  Accepted-encode_frame :
      {r : List ℕ × ℕ}
      → encode_frame f destination destination_size ≡ pass r
      → Accepted f destination_size
  unfolding encode_frame
  Accepted-encode_frame e =
      (Legal-validate_semantics f (ground arith), ground arith, ground arith, ground arith)

  -- With no null pointer `hermas_protocol_encode` reports success exactly on a legal frame whose
  -- payload is at most 65488 bytes, is not a null pointer unless it is empty, and fits the given
  -- destination size behind the header.
  pub encode_ok_iff :
      (encoded_size : ℕ)
      → ((encode (some f) (some destination) destination_size (some encoded_size)).0 ≡ ok)
        ↔ Accepted f destination_size
  unfolding encode
  encode_ok_iff n = (forth, λ a. rw (encode_frame-Accepted a))
    where
      forth :
          (encode (some f) (some destination) destination_size (some n)).0 ≡ ok
          → Accepted f destination_size
      forth e = elim (Check-cases (encode_frame f destination destination_size)) [
        | inl (code, failed) ↦ absurd (ground (arith, encode_frame-ne-ok))
        | inr (r, passed) ↦ Accepted-encode_frame passed
      ]

  -- A call of `hermas_protocol_encode` with no null pointer that reports anything but success
  -- leaves the destination as it was and sets the size to 0.
  encode_failure :
      (encoded_size : ℕ)
      → (encode (some f) (some destination) destination_size (some encoded_size)).0 ≢ ok
      → ((encode (some f) (some destination) destination_size (some encoded_size)).1
          ≡ some destination)
        × ((encode (some f) (some destination) destination_size (some encoded_size)).2 ≡ some 0)
  unfolding encode
  encode_failure n = ground arith

-- A failed call leaves the frame as it was.
decode_failure :
    (packet : Option (List ℕ)) (size : ℕ) (g : Option Frame)
    → (decode packet size g).0 ≢ ok
    → (decode packet size g).1 ≡ g
unfolding decode
decode_failure none size g h = refl
decode_failure (some packet) size none h = refl
decode_failure (some packet) size (some g) h = ground arith

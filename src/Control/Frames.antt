-- ===== src/Control/Frames.antt =====
-- The packets of src/control.c and the frames of the loop behind it.
use hermas.Base.{
  ℕ, ◌+◌, ◌≤◌, ◌<◌, ◌≡◌, refl, arith, false, List, ◌++◌, some, All, All-drop, length, drop, ◌==◌,
  ◌!=◌,
}
use hermas.Bytes.{IsByte}
use hermas.Protocol as Protocol
use hermas.Protocol.{Frame, header_size, max_payload_size, pointee, encode, decode}
use hermas.Protocol.Kind as Kind
use hermas.Protocol.Legal.{Legal}
use hermas.Protocol.Encode.{IsFrame, payload_bytes, packet_of, encode-Legal}
use hermas.Protocol.RoundTrip.{decode-packet_of}
use hermas.Control.{ok, submit, collect}
use hermas.Control.Loop as Loop
use hermas.Control.Loop.{DaemonLoop}

-- A frame that a client or the loop may send, with room for its packet.
pub record Sendable (f : Frame) (destination : List ℕ) (size : ℕ) : Type 0 where
  pub typed : IsFrame f
  pub legal : Legal f
  pub bytes : All IsByte (pointee f.payload)
  pub free : All IsByte destination
  pub small : f.payload_length ≤ max_payload_size
  pub room : header_size + f.payload_length ≤ size
  pub fits : size ≤ length destination

-- The frame with its payload in the packet.
abbrev pub delivered : Frame → List ℕ → Frame
delivered f destination = record f {
  payload = some (payload_bytes f ++ drop (header_size + f.payload_length) destination);
}

abbrev packet_in : Frame → List ℕ → List ℕ
packet_in f destination = packet_of f ++ drop (header_size + f.payload_length) destination

module _ (f : Frame) (destination : List ℕ) (size : ℕ)
    (sendable : Sendable f destination size) where
  encode-Sendable :
      (n : ℕ)
      → encode (some f) (some destination) size (some n)
        ≡ (Protocol.ok, some (packet_in f destination), some (header_size + f.payload_length))
  encode-Sendable n =
      encode-Legal f destination size n sendable.typed sendable.legal sendable.small sendable.room
        sendable.fits

  decode-Sendable :
      (g : Frame)
      → decode (some (packet_in f destination)) (header_size + f.payload_length) (some g)
        ≡ (Protocol.ok, some (delivered f destination))
  decode-Sendable g =
      decode-packet_of f (drop (header_size + f.payload_length) destination) sendable.typed
        sendable.legal sendable.bytes (All-drop IsByte _ destination sendable.free) sendable.small g

module _ {S : Type 0} (daemon : DaemonLoop S) where
  submit-encode :
      (f g : Frame) (destination : List ℕ) (size n : ℕ) (s s' : S) (id : ℕ)
      → Sendable f destination size
      → f.kind ≡ Kind.execute
      → daemon.admit s f.execution_id f.source_type
          (delivered f destination).payload
          f.payload_length
        ≡ (Loop.ok, s')
      → submit daemon
          (some s)
          (encode (some f) (some destination) size (some n)).1
          (header_size + f.payload_length)
          (some id)
          g
        ≡ (ok, some s', some f.execution_id)
  unfolding submit
  submit-encode f g destination size n s s' id sendable kind admit =
      let execute : (f.kind != Kind.execute) ≡ false = rw kind refl in
      rw
        (
          encode-Sendable f destination size sendable n,
          decode-Sendable f destination size sendable g,
          execute,
          admit,
        )
        refl

  collect-decode :
      (f g scratch : Frame) (destination : List ℕ) (size n : ℕ) (s : S) (id : ℕ)
      → Sendable f destination size
      → 0 < id
      → daemon.result s id scratch ≡ (Loop.ok, f)
      → let (code, packet, packet_size) =
          collect daemon (some s) id (some destination) size (some n) scratch in
        (code ≡ ok)
        × (packet_size ≡ some (header_size + f.payload_length))
        × (decode packet (header_size + f.payload_length) (some g)
            ≡ (Protocol.ok, some (delivered f destination)))
  unfolding collect
  collect-decode f g scratch destination size n s id sendable named result =
      let nonzero : (id == 0) ≡ false = ground arith in
      rw (nonzero, result, encode-Sendable f destination size sendable 0)
        (refl, refl, decode-Sendable f destination size sendable g)

  -- A client encodes a legal frame of the kind EXECUTE into a buffer and submits the packet to a loop
  -- that admits the frame's execution, type and payload: `hermas_control_submit` succeeds and reports
  -- the frame's execution. When at some later state the loop has a legal frame as the result of that
  -- execution, `hermas_control_collect` with the reported number and room for a packet succeeds, and
  -- the packet of the reported size decodes to that frame, its payload in the packet.
  pub collect-submit :
      (request reply g scratch scratch' : Frame) (destination packet : List ℕ)
      (size capacity n n' : ℕ) (s s' later : S) (id : ℕ)
      → Sendable request destination size
      → Sendable reply packet capacity
      → request.kind ≡ Kind.execute
      → 0 < request.execution_id
      → daemon.admit s request.execution_id request.source_type
          (delivered request destination).payload
          request.payload_length
        ≡ (Loop.ok, s')
      → daemon.result later request.execution_id scratch' ≡ (Loop.ok, reply)
      → (submit daemon
            (some s)
            (encode (some request) (some destination) size (some n)).1
            (header_size + request.payload_length)
            (some id)
            scratch
          ≡ (ok, some s', some request.execution_id))
        × ((collect daemon
              (some later)
              request.execution_id
              (some packet)
              capacity
              (some n')
              scratch').0
            ≡ ok)
        × ((collect daemon
              (some later)
              request.execution_id
              (some packet)
              capacity
              (some n')
              scratch').2
            ≡ some (header_size + reply.payload_length))
        × (decode
              (collect daemon
                (some later)
                request.execution_id
                (some packet)
                capacity
                (some n')
                scratch').1
              (header_size + reply.payload_length)
              (some g)
            ≡ (Protocol.ok, some (delivered reply packet)))
  collect-submit request reply g scratch scratch' destination packet size capacity n n' s s' later
        id sent answered kind named admit result =
      let (code, size', answer) =
        collect-decode reply g scratch' packet capacity n' later request.execution_id answered named
          result in
      (
        submit-encode request scratch destination size n s s' id sent kind admit,
        code,
        size',
        answer,
      )

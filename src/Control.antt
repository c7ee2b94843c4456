-- ===== src/Control.antt =====
-- src/control.c and include/hermas/control.h: what a client of the daemon asks of its loop.
pub mod Loop
pub mod Frames
mod Runs
use hermas.Base.{ℕ, Bool, true, false, Option, none, some, List, ◌==◌, ◌!=◌, if◌then◌else◌}
use hermas.Control.Loop as Loop
use hermas.Control.Loop.{LoopResult, DaemonLoop}
use hermas.Protocol as Protocol
use hermas.Protocol.{Frame, ProtocolResult, decode, encode}
use hermas.Protocol.Kind as Kind

pub data ControlResult : Type 0 where
  ok invalid_argument protocol_error admission_error execution_active encode_error release_error :
      ControlResult

module _ {S : Type 0} where
  abbrev admitted : ℕ → ℕ → LoopResult × S → ControlResult × Option S × Option ℕ
  admitted old execution_id (Loop.ok, loop) = (ok, some loop, some execution_id)
  admitted old execution_id (_, loop) = (admission_error, some loop, some old)

  abbrev released : LoopResult × S → ControlResult × Option S
  released (Loop.ok, loop) = (ok, some loop)
  released (Loop.execution_active, loop) = (execution_active, some loop)
  released (_, loop) = (release_error, some loop)

abbrev encoded :
    ProtocolResult × Option (List ℕ) × Option ℕ → ControlResult × Option (List ℕ) × Option ℕ
encoded (Protocol.ok, packet, packet_size) = (ok, packet, packet_size)
encoded (_, packet, packet_size) = (encode_error, packet, packet_size)

-- What `hermas_control_collect` does with the answer of the loop.
abbrev collected : List ℕ → ℕ → LoopResult × Frame → ControlResult × Option (List ℕ) × Option ℕ
collected packet packet_capacity (Loop.ok, result) =
    encoded (encode (some result) (some packet) packet_capacity (some 0))
collected packet packet_capacity (Loop.execution_active, result) =
    (execution_active, some packet, some 0)
collected packet packet_capacity (_, result) = (admission_error, some packet, some 0)

module _ {S : Type 0} (daemon : DaemonLoop S) where
  -- What `hermas_control_submit` does with the decoded request.
  unfoldable pub submitted :
      S → ℕ → ProtocolResult × Option Frame → ControlResult × Option S × Option ℕ
  submitted loop old (Protocol.ok, some request) =
      if request.kind != Kind.execute
      then (protocol_error, some loop, some old)
      else admitted old request.execution_id (
          daemon.admit loop request.execution_id request.source_type request.payload
            request.payload_length)
  submitted loop old _ = (protocol_error, some loop, some old)

  -- Null pointers are `none`. The loop and `*execution_id` after the call; `request` is the memory of
  -- the frame before it.
  unfoldable pub submit :
      Option S → Option (List ℕ) → ℕ → Option ℕ → Frame → ControlResult × Option S × Option ℕ
  unfolding submitted
  submit (some loop) (some packet) packet_size (some execution_id) request =
      submitted loop execution_id (decode (some packet) packet_size (some request))
  submit loop packet packet_size execution_id request = (invalid_argument, loop, execution_id)

  -- The packet and `*packet_size` after the call; `result` is the memory of the frame before it.
  unfoldable pub collect :
      Option S
      → ℕ
      → Option (List ℕ)
      → ℕ
      → Option ℕ
      → Frame
      → ControlResult × Option (List ℕ) × Option ℕ
  collect (some loop) execution_id (some packet) packet_capacity (some packet_size) result =
      if execution_id == 0
      then (invalid_argument, some packet, some packet_size)
      else collected packet packet_capacity (daemon.result loop execution_id result)
  collect loop execution_id packet packet_capacity packet_size result =
      (invalid_argument, packet, packet_size)

  unfoldable pub release : Option S → ℕ → ControlResult × Option S
  release (some loop) execution_id =
      if execution_id == 0
      then (invalid_argument, some loop)
      else released (daemon.release loop execution_id)
  release none execution_id = (invalid_argument, none)

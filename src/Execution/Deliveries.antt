-- ===== src/Execution/Deliveries.antt =====
-- The deliveries of an execution of src/runtime.c: the operations as steps of a state machine.
use hermas.Base.{
  ℕ, ◌+◌, ◌-◌, ◌^◌, ◌≤◌, ◌≡◌, ◌≢◌, ◌⊎◌, refl, arith, inl, inr, Bool, true, false, ◌&&◌, Option,
  some, Bool-cases, Option-cases, List, ltb, ◌==◌, if◌then◌else◌,
}
use hermas.Bytes.{byte_at, read_u16}
use hermas.Image.{Verifier, is_ok}
use hermas.Protocol.{Frame, max_payload_size}
use hermas.Protocol.Outcome
use hermas.Execution.{
  Execution, ExecutionState, ready, prepared, sent, complete, RuntimeResult, ok, prepare, mark_sent,
  mark_not_sent, mark_unknown, accept_result, finish_delivery_outcome, take_result, enter_edge,
  find_edge, succeeded, has_value, finish_at, follow_edge, enter_with, node_offset, is_ready,
  is_prepared, copy_value, count_request, goes_on, answers, is_sent,
}
use hermas.Execution.Enter.{Entered, arrived, finished, stopped, enter_edge-Entered}

-- An execution as its deliveries see it.
pub record Delivery : Type 0 where
  pub phase : ExecutionState
  pub request : ℕ
  pub outcome : ℕ

abbrev pub view : Execution → Delivery
view e = record { phase = e.state; request = e.request_id; outcome = e.terminal_outcome }

abbrev at : ExecutionState → ℕ → ℕ → Delivery
at phase request outcome = record { phase = phase; request = request; outcome = outcome }

-- `hermas_execution_prepare`, `mark_sent`, `mark_not_sent`, `mark_unknown`, and `accept_result` with
-- the frame of its result.
pub data Call : Type 0 where
  prepares sends fails loses : Call
  accepts : Frame → Call

-- A delivery is prepared, sent and answered once; the answer alone takes the next request.
pub data Move (c : Call) (p q : Delivery) : Type 0 where
  preparing : c ≡ prepares → p.phase ≡ ready → q ≡ record p { phase = prepared } → Move c p q
  sending : c ≡ sends → p.phase ≡ prepared → q ≡ record p { phase = sent } → Move c p q
  handled :
      ((c ≡ fails) × (p.phase ≡ prepared)) ⊎ ((c ≡ loses) × (p.phase ≡ sent))
      → q ≡ record p { phase = ready }
      → Move c p q
  not_sent :
      c ≡ fails
      → p.phase ≡ prepared
      → q ≡ record p { phase = complete; outcome = Outcome.not_sent }
      → Move c p q
  unknown :
      c ≡ loses
      → p.phase ≡ sent
      → q ≡ record p { phase = complete; outcome = Outcome.unknown }
      → Move c p q
  answered_on :
      (r : Frame)
      → c ≡ accepts r
      → p.phase ≡ sent
      → p.request ≢ 2 ^ 64 - 1
      → q ≡ record p { phase = ready; request = p.request + 1 }
      → Move c p q
  answered_end :
      (r : Frame) (request : ℕ)
      → c ≡ accepts r
      → p.phase ≡ sent
      → has_value r.outcome ≡ true
      → (request ≡ p.request) ⊎ ((p.request ≢ 2 ^ 64 - 1) × (request ≡ p.request + 1))
      → q ≡ record { phase = complete; request = request; outcome = r.outcome }
      → Move c p q

-- What no operation changes.
abbrev pub Same : Execution → Execution → Type 0
Same e e' =
    (e'.image ≡ e.image)
    × (e'.image_size ≡ e.image_size)
    × (e'.execution_id ≡ e.execution_id)
    × (e'.value_capacity ≡ e.value_capacity)

-- An operation either moves the delivery or is refused in the phase it found.
pub data Performed (c : Call) (e : Execution) : RuntimeResult × Option Execution → Type 0 where
  moved : {e' : Execution} → Same e e' → Move c (view e) (view e') → Performed c e (ok, some e')
  refused :
      {code : RuntimeResult} {e' : Execution}
      → succeeded code ≡ false
      → Same e e'
      → e'.state ≡ e.state
      → e'.terminal_outcome ≡ e.terminal_outcome
      → e.request_id ≤ e'.request_id
      → Performed c e (code, some e')

is_ready→ready : (s : ExecutionState) → is_ready s ≡ true → s ≡ ready
is_ready→ready ready h = refl
is_ready→ready _ h = cc

is_prepared→prepared : (s : ExecutionState) → is_prepared s ≡ true → s ≡ prepared
is_prepared→prepared prepared h = refl
is_prepared→prepared _ h = cc

is_sent→sent : (s : ExecutionState) → is_sent s ≡ true → s ≡ sent
is_sent→sent sent h = refl
is_sent→sent _ h = cc

-- A call of one of the operations, with the frame it is handed.
pub data Operation : Type 0 where
  to_prepare to_accept : Frame → Operation
  to_send to_fail to_lose : Operation

abbrev pub call_of : Operation → Call
call_of (to_prepare frame) = prepares
call_of (to_accept frame) = accepts frame
call_of to_send = sends
call_of to_fail = fails
call_of to_lose = loses

module _ (v : Verifier) where
  abbrev pub perform : Operation → Execution → RuntimeResult × Option Execution
  perform (to_prepare frame) e = let (code, e', _) = prepare (some e) (some frame) in (code, e')
  perform (to_accept frame) e = accept_result v (some e) (some frame)
  perform to_send e = mark_sent (some e)
  perform to_fail e = mark_not_sent v (some e)
  perform to_lose e = mark_unknown v (some e)

  -- Where `enter_edge` leaves an execution whose delivery it ends.
  enter_edge-Performed :
      (c : Call) (e d : Execution) (edge outcome : ℕ)
      → Same e d
      → d.state ≡ e.state
      → d.terminal_outcome ≡ e.terminal_outcome
      → e.request_id ≤ d.request_id
      → Move c (view e) (at ready d.request_id e.terminal_outcome)
      → Move c (view e) (at complete d.request_id outcome)
      → Performed c e (let (code, e') = enter_edge v d edge outcome in (code, some e'))
  enter_edge-Performed c e d edge outcome same state last grows on end =
      ends (enter_edge v d edge outcome) (enter_edge-Entered v d edge outcome)
    where
      ends :
          (r : RuntimeResult × Execution)
          → Entered d outcome r
          → Performed c e (let (code, e') = r in (code, some e'))
      ends (code, e') (arrived k h l) =
          moved (ground arith)
            (let to : view e' ≡ at ready d.request_id e.terminal_outcome = ground arith in rw to on)
      ends (code, e') (finished k h o) =
          moved (ground arith)
            (let to : view e' ≡ at complete d.request_id outcome = ground arith in rw to end)
      ends (code, e') (stopped bad k h l) =
          refused bad (ground arith) (ground arith) (ground arith) (ground arith)

  prepare-Performed :
      (e : Execution) (frame : Frame) → Performed prepares e (perform (to_prepare frame) e)
  unfolding prepare
  prepare-Performed e frame = elim (Bool-cases (is_ready e.state)) [
    | inr busy ↦ rw busy (refused refl (ground arith) refl refl (omega arith))
    | inl free ↦ elim (Bool-cases (byte_at e.image (node_offset e.image e.current_node) == 1)) [
      | inr other ↦ rw (free, other) (refused refl (ground arith) refl refl (omega arith))
      | inl action ↦
          rw (free, action)
            (moved (ground arith) (preparing refl (is_ready→ready e.state free) refl))
    ]
  ]

  mark_sent-Performed : (e : Execution) → Performed sends e (mark_sent (some e))
  unfolding mark_sent
  mark_sent-Performed e = elim (Bool-cases (is_prepared e.state)) [
    | inr other ↦ rw other (refused refl (ground arith) refl refl (omega arith))
    | inl held ↦
        rw held (moved (ground arith) (sending refl (is_prepared→prepared e.state held) refl))
  ]

  finish_delivery_outcome-Performed :
      (c : Call) (e : Execution) (required : ExecutionState → Bool) (kind outcome : ℕ)
      → (required e.state ≡ true → Move c (view e) (at ready e.request_id e.terminal_outcome))
      → (required e.state ≡ true → Move c (view e) (at complete e.request_id outcome))
      → Performed c e (finish_delivery_outcome v (some e) required kind outcome)
  unfolding finish_delivery_outcome
  finish_delivery_outcome-Performed c e required kind outcome on end =
      elim (Bool-cases (required e.state)) [
        | inr no_delivery ↦ rw no_delivery (refused refl (ground arith) refl refl (omega arith))
        | inl fits ↦ elim (Option-cases (find_edge e.image kind e.current_node)) [
          | inl none_found ↦
              rw (fits, none_found) (refused refl (ground arith) refl refl (omega arith))
          | inr (edge, found) ↦
              rw (fits, found)
                (enter_edge-Performed c e (record e { value_length = 0 }) edge outcome
                  (ground arith) refl refl (omega arith) (on fits) (end fits))
        ]
      ]

  mark_not_sent-Performed : (e : Execution) → Performed fails e (mark_not_sent v (some e))
  unfolding mark_not_sent
  mark_not_sent-Performed e =
      finish_delivery_outcome-Performed fails e is_prepared 3 Outcome.not_sent
        (λ h. handled (inl (refl, is_prepared→prepared e.state h)) refl)
        (λ h. not_sent refl (is_prepared→prepared e.state h) refl)

  mark_unknown-Performed : (e : Execution) → Performed loses e (mark_unknown v (some e))
  unfolding mark_unknown
  mark_unknown-Performed e =
      finish_delivery_outcome-Performed loses e is_sent 4 Outcome.unknown
        (λ h. handled (inr (refl, is_sent→sent e.state h)) refl)
        (λ h. unknown refl (is_sent→sent e.state h) refl)

  copy_value-keeps :
      (e : Execution) (value : Option (List ℕ)) (n : ℕ)
      → Same e (copy_value e value n).1
        × ((copy_value e value n).1.request_id ≡ e.request_id)
        × ((copy_value e value n).1.state ≡ e.state)
        × ((copy_value e value n).1.terminal_outcome ≡ e.terminal_outcome)
  unfolding copy_value
  copy_value-keeps e value n = ground arith

  enter_edge-end :
      (d : Execution) (edge outcome : ℕ)
      → goes_on d.image edge ≡ false
      → enter_edge v d edge outcome ≡ (ok, finish_at (follow_edge d edge) outcome)
  unfolding enter_edge enter_with
  enter_edge-end d edge outcome h = ground arith

  ended_Same :
      (e copied : Execution) (edge outcome : ℕ)
      → Same e copied
      → Same e (finish_at (follow_edge (count_request e edge copied) edge) outcome)
  unfolding follow_edge
  ended_Same e copied edge outcome same = same

  ended_view :
      (e copied : Execution) (edge outcome : ℕ)
      → goes_on e.image edge ≡ false
      → view (finish_at (follow_edge (count_request e edge copied) edge) outcome)
        ≡ at complete e.request_id outcome
  unfolding follow_edge
  ended_view e copied edge outcome off = ground arith

  enters-Performed :
      (e copied : Execution) (r : Frame) (edge : ℕ)
      → e.state ≡ sent
      → has_value r.outcome ≡ true
      → (goes_on e.image edge && e.request_id == 2 ^ 64 - 1) ≡ false
      → Same e copied
        × (copied.request_id ≡ e.request_id)
        × (copied.state ≡ e.state)
        × (copied.terminal_outcome ≡ e.terminal_outcome)
      → Performed (accepts r) e (
          let (code, e') = enter_edge v (count_request e edge copied) edge r.outcome in
          (code, some e'))
  enters-Performed e copied r edge waits valued room (same, requested, state, last) =
      elim (Bool-cases (goes_on e.image edge)) [
        | inl on ↦
            let counted : (count_request e edge copied).request_id ≡ e.request_id + 1 =
              ground arith in
            let low : e.request_id ≢ 2 ^ 64 - 1 = ground arith in
            enter_edge-Performed (accepts r) e (count_request e edge copied) edge r.outcome same
              state last (omega arith) (rw counted (answered_on r refl waits low refl))
              (rw counted
                (answered_end r (e.request_id + 1) refl waits valued (inr (low, refl)) refl))
        | inr off ↦
            let ended =
              enter_edge-end (count_request e edge copied) edge r.outcome (rw same.0 off) in
            rw ended (
              moved (ended_Same e copied edge r.outcome same) (
                answered_end r e.request_id refl waits valued (inl refl)
                  (ended_view e copied edge r.outcome off)))
      ]

  take_result-Performed :
      (e : Execution) (r : Frame) (edge : ℕ)
      → e.state ≡ sent
      → has_value r.outcome ≡ true
      → Performed (accepts r) e (let (code, e') = take_result v e r edge in (code, some e'))
  unfolding take_result
  take_result-Performed e r edge waits valued =
      let same = copy_value-keeps e r.payload r.payload_length in
      elim (Bool-cases (r.source_type == read_u16 e.image (edge + 8))) [
        | inr other ↦ rw other (refused refl (ground arith) refl refl (omega arith))
        | inl typed ↦ elim (Bool-cases (ltb max_payload_size r.payload_length)) [
          | inl large ↦ rw (typed, large) (refused refl (ground arith) refl refl (omega arith))
          | inr small ↦
              elim (Bool-cases (
                is_ok (
                  v.validate_value e.image e.image_size r.source_type r.payload
                    r.payload_length))) [
                      | inr bad ↦
                          rw (typed, small, bad)
                            (refused refl (ground arith) refl refl (omega arith))
                      | inl good ↦
                          elim (Bool-cases (goes_on e.image edge && e.request_id == 2 ^ 64 - 1)) [
                            | inl exhausted ↦
                                rw (typed, small, good, exhausted)
                                  (refused refl (ground arith) refl refl (omega arith))
                            | inr room ↦
                                elim (Bool-cases
                                  (succeeded (copy_value e r.payload r.payload_length).0)) [
                                    | inr stuck ↦
                                        rw (typed, small, good, room, stuck)
                                          (refused stuck (ground arith) (ground arith)
                                            (ground arith) (ground arith))
                                    | inl copied ↦
                                        rw (typed, small, good, room, copied)
                                          (enters-Performed e
                                            (copy_value e r.payload r.payload_length).1 r edge waits
                                            valued room same)
                                  ]
                          ]
                    ]
        ]
      ]

  answers-has_value : (e : Execution) (r : Frame) → answers e r ≡ true → has_value r.outcome ≡ true
  unfolding answers
  answers-has_value e r h = ground arith

  accept_result-Performed :
      (e : Execution) (r : Frame) → Performed (accepts r) e (accept_result v (some e) (some r))
  unfolding accept_result
  accept_result-Performed e r = elim (Bool-cases (is_sent e.state)) [
    | inr other ↦ rw other (refused refl (ground arith) refl refl (omega arith))
    | inl waits ↦ elim (Bool-cases (answers e r)) [
      | inr foreign ↦ rw (waits, foreign) (refused refl (ground arith) refl refl (omega arith))
      | inl own ↦
          elim (Option-cases
            (find_edge e.image (if r.outcome == Outcome.success then 1 else 2) e.current_node)) [
              | inl absent ↦
                  rw (waits, own, absent) (refused refl (ground arith) refl refl (omega arith))
              | inr (edge, found) ↦
                  rw (waits, own, found)
                    (take_result-Performed e r edge (is_sent→sent e.state waits)
                      (answers-has_value e r own))
            ]
    ]
  ]

  -- Each call of an operation on an execution either succeeds and is a move of the delivery
  -- machine: ready to prepared, prepared to sent, a prepared or sent delivery to its handler's
  -- action or to the end with the outcome not sent or unknown, a sent one to the next request or to
  -- the end with the outcome of the result that the call handed in, a success or an error of the
  -- app; or it is refused, and leaves the phase and the terminal
  -- outcome as they are and its request number no smaller. Neither changes the image, the execution's id or the value's capacity.
  pub perform-Performed : (op : Operation) (e : Execution) → Performed (call_of op) e (perform op e)
  perform-Performed (to_prepare frame) e = prepare-Performed e frame
  perform-Performed (to_accept frame) e = accept_result-Performed e frame
  perform-Performed to_send e = mark_sent-Performed e
  perform-Performed to_fail e = mark_not_sent-Performed e
  perform-Performed to_lose e = mark_unknown-Performed e

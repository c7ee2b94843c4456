-- ===== src/Saga/Operations.antt =====
-- `hermas_saga_prepare`, `mark_sent`, `mark_not_sent`, `mark_unknown` and `accept_result` of
-- src/saga.c.
use hermas.Base.{
  ℕ, ◌+◌, ◌-◌, ◌^◌, Bool, not, ◌&&◌, ◌||◌, Option, none, some, List, ◌==◌, ◌!=◌, if◌then◌else◌,
}
use hermas.Image.{Verifier, is_ok}
use hermas.Protocol.{Frame, is_null}
use hermas.Protocol.Kind
use hermas.Protocol.Outcome
use hermas.Saga.{
  SagaExecution, SagaStep, SagaResult, ok, invalid_argument, invalid_state, request_id_exhausted,
  unexpected_result, succeeded, ready, prepared, sent, complete, blocked, is_ready, is_prepared,
  is_sent, step_at, validate_token,
}

-- The step that is undone next: the last one that is not yet compensated.
abbrev pub open_step : SagaExecution → SagaStep
open_step e = step_at e (e.remaining - 1)

-- The frame that `prepare` hands out.
unfoldable pub compensation_of : SagaExecution → Option (List ℕ) → ℕ → Frame
compensation_of e token_buffer token_length =
    let step = open_step e in
    record {
      kind = Kind.invoke;
      execution_id = e.execution_id;
      request_id = e.next_request_id;
      app_id = step.compensation_app_id;
      action_id = step.compensation_action_id;
      source_type = step.source_type;
      destination_type = step.destination_type;
      outcome = Outcome.none;
      payload = token_buffer;
      payload_length = token_length;
    }

-- `*execution` after a successful `prepare`.
abbrev pub with_delivery : SagaExecution → SagaExecution
with_delivery e = record e {
  current_request_id = e.next_request_id;
  next_request_id = e.next_request_id + 1;
  state = prepared;
}

-- The outputs of `prepare`: the code, `*execution`, what is behind `token_buffer`, `*invocation`.
abbrev pub Prepared : Type 0
Prepared = SagaResult × Option SagaExecution × Option (List ℕ) × Option Frame

module _ (v : Verifier) where
  unfoldable pub prepare : Option SagaExecution → Option (List ℕ) → ℕ → Option Frame → Prepared
  unfolding validate_token compensation_of
  prepare none buffer capacity invocation = (invalid_argument, none, buffer, invocation)
  prepare (some e) buffer capacity none = (invalid_argument, some e, buffer, none)
  prepare (some e) buffer capacity (some old) =
      if is_null buffer && capacity != 0
      then (invalid_argument, some e, buffer, some old)
      else if not (is_ready e.state) || e.remaining == 0
      then (invalid_state, some e, buffer, some old)
      else if e.next_request_id == 0 || e.next_request_id == 2 ^ 64 - 1
      then (request_id_exhausted, some e, buffer, some old)
      else (let (valid, token, buffer') = validate_token v e (open_step e) buffer capacity in
          if not (succeeded valid) then (valid, some e, buffer', some old) else (
            ok,
            some (with_delivery e),
            buffer',
            some (compensation_of e buffer' token.token_length),
          ))

  unfoldable pub expected_type : SagaExecution → Frame → ℕ
  expected_type e r =
      if r.outcome == Outcome.success then (open_step e).success_type else (open_step e).error_type

  -- The frame is the answer to the compensation that is open.
  unfoldable pub answers : SagaExecution → Frame → Bool
  unfolding expected_type
  answers e r =
      r.kind == Kind.result
      && r.execution_id == e.execution_id
      && r.request_id == e.current_request_id
      && r.app_id == (open_step e).compensation_app_id
      && r.action_id == (open_step e).compensation_action_id
      && (r.outcome == Outcome.success || r.outcome == Outcome.app_error)
      && r.source_type == expected_type e r
      && r.destination_type == expected_type e r

  -- `*execution` after an accepted result.
  unfoldable pub after_result : SagaExecution → ℕ → SagaExecution
  after_result e outcome =
      if outcome == Outcome.app_error
      then record e { compensation_outcome = outcome; state = blocked }
      else record e {
        compensation_outcome = outcome;
        remaining = e.remaining - 1;
        state = if e.remaining - 1 == 0 then complete else ready;
      }

  -- The code, and `*execution` after the call.
  unfoldable pub accept_result :
      Option SagaExecution → Option Frame → SagaResult × Option SagaExecution
  unfolding answers after_result
  accept_result none result = (invalid_argument, none)
  accept_result (some e) none = (invalid_argument, some e)
  accept_result (some e) (some r) =
      if not (is_sent e.state) || e.remaining == 0
      then (invalid_state, some e)
      else if not (answers e r)
      then (unexpected_result, some e)
      else if not (
          is_ok
            (v.validate_value e.image e.image_size (expected_type e r) r.payload r.payload_length))
      then (unexpected_result, some e)
      else (ok, some (after_result e r.outcome))

unfoldable pub mark_sent : Option SagaExecution → SagaResult × Option SagaExecution
mark_sent none = (invalid_state, none)
mark_sent (some e) =
    if not (is_prepared e.state)
    then (invalid_state, some e)
    else (ok, some (record e { state = sent }))

unfoldable pub mark_not_sent : Option SagaExecution → SagaResult × Option SagaExecution
mark_not_sent none = (invalid_state, none)
mark_not_sent (some e) =
    if not (is_prepared e.state)
    then (invalid_state, some e)
    else (ok, some (record e { compensation_outcome = Outcome.not_sent; state = blocked }))

unfoldable pub mark_unknown : Option SagaExecution → SagaResult × Option SagaExecution
mark_unknown none = (invalid_state, none)
mark_unknown (some e) =
    if not (is_sent e.state)
    then (invalid_state, some e)
    else (ok, some (record e { compensation_outcome = Outcome.unknown; state = blocked }))

-- ===== src/Saga/Live.antt =====
-- `hermas_saga_begin_live` of src/saga.c.
use hermas.Base.{
  ℕ, zero, suc, ◌+◌, ◌^◌, ◌-◌, Bool, true, false, not, ◌&&◌, ◌||◌, Option, none, some, List, get_or,
  set, take, replicate, ltb, leb, ◌==◌, ◌!=◌, if◌then◌else◌,
}
use hermas.Base.Check.{Check, fail, pass, ◌>>=◌, ◌>>◌, refuse}
use hermas.Image.{Verifier, is_ok}
use hermas.Journal.{image_fingerprint}
use hermas.Protocol.{max_payload_size, is_null, pointee}
use hermas.Protocol.Outcome
use hermas.Saga.{
  SagaExecution, SagaResult, ok, invalid_argument, invalid_image, not_saga, inconsistent_history,
  succeeded, Lookup, max_steps, empty, ready, empty_step, step_at, load_steps, validate_token,
}

-- An execution after `memset`, with the image and the ids of its workflow.
unfoldable pub blank_execution : List ℕ → ℕ → ℕ → ℕ → SagaExecution
blank_execution image image_size execution_id workflow_id = record {
  image = image;
  image_size = image_size;
  tokens = none;
  token_bytes = 0;
  token_lookup = none;
  execution_id = execution_id;
  workflow_id = workflow_id;
  image_fingerprint = image_fingerprint (some (take image_size image));
  next_request_id = 0;
  current_request_id = 0;
  original_outcome = 0;
  compensation_outcome = 0;
  step_count = 0;
  completed_steps = 0;
  remaining = 0;
  state = empty;
  steps = replicate max_steps empty_step;
}

-- The early return of a code, with `*execution` as it is then.
abbrev pub Stopped : Type 0
Stopped = SagaResult × SagaExecution

abbrev pub outputs : Check Stopped SagaExecution → SagaResult × Option SagaExecution
outputs (fail (code, e)) = (code, some e)
outputs (pass e) = (ok, some e)

-- `scratch` is what the local buffer holds before it is written.
module _ (v : Verifier) (scratch : List ℕ) where
  -- `validate_token` on the step of an index, for its code.
  unfoldable pub check_token : SagaExecution → ℕ → Check Stopped SagaExecution
  unfolding validate_token
  check_token e index =
      let valid = (validate_token v e (step_at e index) (some scratch) max_payload_size).0 in
      if succeeded valid then pass e else fail (valid, e)

  -- One completed step: its forward request, which is older than the next one, and its token.
  unfoldable pub live_step : SagaExecution → ℕ → ℕ → Check Stopped SagaExecution
  unfolding check_token
  live_step e id index = do
    refuse (id == 0 || leb e.next_request_id id) (inconsistent_history, e)
    check_token
        (record e {
          steps = set e.steps index (record (step_at e index) { forward_request_id = id });
        })
        index

  unfoldable pub live_loop : ℕ → SagaExecution → List ℕ → ℕ → Check Stopped SagaExecution
  unfolding live_step
  live_loop zero e ids index = pass e
  live_loop (suc rounds) e ids index = do
    e' ← live_step e (get_or ids index 0) index
    live_loop rounds e' ids (index + 1)

  -- From the point where the arguments and the image have passed.
  unfoldable pub live_from : SagaExecution → List ℕ → ℕ → Check Stopped SagaExecution
  live_from fresh ids completed_steps = elim (load_steps fresh) [
    | fail e ↦ fail (not_saga, e)
    | pass loaded ↦ do
      refuse (ltb loaded.step_count completed_steps) (not_saga, loaded)
      e ←
          live_loop completed_steps
            (record loaded { remaining = completed_steps; completed_steps = completed_steps }) ids 0
      pass (record e { state = ready })
  ]

  abbrev pub bad_arguments : ℕ → ℕ → ℕ → Option (List ℕ) → ℕ → ℕ → Option Lookup → Bool
  bad_arguments execution_id workflow_id original_outcome ids completed_steps next_request_id
        lookup =
      execution_id == 0
      || workflow_id == 0
      || is_null ids
      || completed_steps == 0
      || ltb max_steps completed_steps
      || next_request_id == 0
      || next_request_id == 2 ^ 64 - 1
      || elim lookup [ none ↦ true | some _ ↦ false ]
      || (original_outcome != Outcome.app_error && original_outcome != Outcome.not_sent)

  -- The code, and `*execution` after the call.
  unfoldable pub begin_live :
      Option SagaExecution
      → Option (List ℕ)
      → ℕ
      → ℕ
      → ℕ
      → ℕ
      → Option (List ℕ)
      → ℕ
      → ℕ
      → Option Lookup
      → SagaResult × Option SagaExecution
  unfolding live_from blank_execution
  begin_live none image image_size execution_id workflow_id original_outcome ids completed_steps
        next_request_id lookup =
      (invalid_argument, none)
  begin_live (some old) none image_size execution_id workflow_id original_outcome ids
        completed_steps next_request_id lookup =
      (invalid_argument, some old)
  begin_live (some old) (some image) image_size execution_id workflow_id original_outcome ids
        completed_steps next_request_id lookup =
      if bad_arguments execution_id workflow_id original_outcome ids completed_steps next_request_id
        lookup
      then (invalid_argument, some old)
      else if not (is_ok (v.validate image image_size).0)
      then (invalid_image, some old)
      else outputs (
          live_from
            (record (blank_execution image image_size execution_id workflow_id) {
              original_outcome = original_outcome;
              next_request_id = next_request_id;
              token_lookup = lookup;
            })
            (pointee ids) completed_steps)

-- ===== src/Saga.antt =====
-- src/saga.c and include/hermas/saga.h: the planner of compensations.
pub mod Operations
pub mod Live
pub mod Recover
pub mod Reconcile
pub mod Driver
pub mod Machine
pub mod Logged
pub mod Steps
pub mod Follows
pub mod Drive
pub mod Progress
pub mod Begun
mod Runs
use hermas.Base.{
  ℕ, zero, suc, ◌+◌, ◌-◌, ◌*◌, ◌%◌, ◌^◌, Bool, true, false, not, ◌&&◌, ◌||◌, Option, none, some,
  List, [], ◌∷◌, get_or, set, replicate, ltb, leb, ◌==◌, ◌!=◌, if◌then◌else◌,
}
use hermas.Base.Check.{Check, fail, pass, ◌>>=◌, ◌>>◌, refuse}
use hermas.Bytes.{byte_at, read_u16, read_u32}
use hermas.Image.{Verifier, is_ok}
use hermas.Compensation
use hermas.Compensation.{CompensationKey, CompensationRecord, CompensationResult}
use hermas.Compensation.Find.{find}
use hermas.Journal.{JournalRecord}

abbrev pub max_steps : ℕ
max_steps = 16

pub data SagaResult : Type 0 where
  ok invalid_argument invalid_image not_saga inconsistent_history unsafe_history : SagaResult
  missing_token duplicate_token invalid_token buffer_too_small invalid_state : SagaResult
  unexpected_result request_id_exhausted log_error : SagaResult

abbrev pub succeeded : SagaResult → Bool
succeeded ok = true
succeeded _ = false

pub data SagaState : Type 0 where
  empty ready prepared sent complete blocked : SagaState

abbrev pub is_ready : SagaState → Bool
is_ready ready = true
is_ready _ = false

abbrev pub is_prepared : SagaState → Bool
is_prepared prepared = true
is_prepared _ = false

abbrev pub is_sent : SagaState → Bool
is_sent sent = true
is_sent _ = false

abbrev pub is_complete : SagaState → Bool
is_complete complete = true
is_complete _ = false

abbrev pub is_blocked : SagaState → Bool
is_blocked blocked = true
is_blocked _ = false

-- `hermas_saga_step`
pub record SagaStep : Type 0 where
  pub forward_request_id : ℕ
  pub forward_node : ℕ
  pub compensation_app_id : ℕ
  pub compensation_action_id : ℕ
  pub source_type : ℕ
  pub destination_type : ℕ
  pub success_type : ℕ
  pub error_type : ℕ
  pub ordinal : ℕ

-- A step cleared by `memset`.
abbrev pub empty_step : SagaStep
empty_step = record {
  forward_request_id = 0;
  forward_node = 0;
  compensation_app_id = 0;
  compensation_action_id = 0;
  source_type = 0;
  destination_type = 0;
  success_type = 0;
  error_type = 0;
  ordinal = 0;
}

-- `hermas_compensation_lookup` over the memory behind its context, which a lookup only reads:
-- the code, and what is behind `record`, `buffer` and `found` after the call.
abbrev pub Lookup : Type 0
Lookup =
    CompensationKey
    → Option CompensationRecord
    → Option (List ℕ)
    → ℕ
    → Option ℕ
    → CompensationResult × Option CompensationRecord × Option (List ℕ) × Option ℕ

-- `hermas_saga_execution`
pub record SagaExecution : Type 0 where
  pub image : List ℕ
  pub image_size : ℕ
  pub tokens : Option (List ℕ)
  pub token_bytes : ℕ
  pub token_lookup : Option Lookup
  pub execution_id : ℕ
  pub workflow_id : ℕ
  pub image_fingerprint : ℕ
  pub next_request_id : ℕ
  pub current_request_id : ℕ
  pub original_outcome : ℕ
  pub compensation_outcome : ℕ
  pub step_count : ℕ
  pub completed_steps : ℕ
  pub remaining : ℕ
  pub state : SagaState
  pub steps : List SagaStep

abbrev pub step_at : SagaExecution → ℕ → SagaStep
step_at e index = get_or e.steps index empty_step

abbrev pub region_record_size : ℕ
region_record_size = 16

-- The step that a region describes, with the region after it for the types of its outcome.
unfoldable pub loaded_step : List ℕ → ℕ → SagaStep
loaded_step image offset =
    let outcome = offset + region_record_size in
    record {
      forward_request_id = 0;
      forward_node = read_u16 image (offset + 2);
      compensation_app_id = read_u16 image (offset + 4);
      compensation_action_id = read_u16 image (offset + 6);
      source_type = read_u16 image (offset + 8);
      destination_type = read_u16 image (offset + 10);
      success_type = read_u16 image (outcome + 4);
      error_type = read_u16 image (outcome + 6);
      ordinal = read_u16 image (offset + 12);
    }

-- One round of `load_steps`, at the region at `offset`, which may be the last; to fail is the return
-- of `false`, with `*execution` as it is then. `step_count` is on 8 bits. The step keeps its
-- `forward_request_id`.
unfoldable pub load_region : SagaExecution → ℕ → Bool → Check SagaExecution SagaExecution
unfolding loaded_step
load_region e offset is_last =
    let ordinal = read_u16 e.image (offset + 12) in
    let outcome = offset + region_record_size in
    if byte_at e.image offset != 3
    then pass e
    else if ordinal == 0 || ltb max_steps ordinal || is_last
    then fail e
    else if byte_at e.image outcome != 4
        || read_u16 e.image (outcome + 2) != read_u16 e.image (offset + 2)
    then fail e
    else pass (record e {
      steps = set e.steps (ordinal - 1) (record (loaded_step e.image offset) {
        forward_request_id = (step_at e (ordinal - 1)).forward_request_id;
      });
      step_count = (e.step_count + 1) % 2 ^ 8;
    })

-- The rounds of `load_steps` that are left, from the region at `offset` on.
unfoldable pub load_loop : ℕ → SagaExecution → ℕ → Check SagaExecution SagaExecution
unfolding load_region
load_loop zero e offset = pass e
load_loop (suc rounds) e offset = do
  e' ← load_region e offset (rounds == 0)
  load_loop rounds e' (offset + region_record_size)

unfoldable pub load_steps : SagaExecution → Check SagaExecution SagaExecution
unfolding load_loop
load_steps e = do
  e' ← load_loop (read_u16 e.image 68) e (read_u32 e.image 72)
  refuse (e'.step_count == 0) e'
  pass e'

-- The index of the step, `none` for the null pointer.
unfoldable pub find_step : SagaExecution → ℕ → ℕ → ℕ → Option ℕ
find_step e node zero index = none
find_step e node (suc rounds) index =
    let rest = find_step e node rounds (index + 1) in
    if (step_at e index).forward_node == node then some index else rest

-- Nodes are numbered from 1; `node - 1` on `size_t` wraps for 0, and so does the sum.
unfoldable pub forward_route_matches : SagaExecution → SagaStep → JournalRecord → Bool
forward_route_matches e step r =
    let node = read_u32 e.image 48 + step.forward_node * 8 - 8 in
    r.app_id == read_u16 e.image (node + 4) && r.action_id == read_u16 e.image (node + 2)

abbrev pub key_of : SagaExecution → SagaStep → CompensationKey
key_of e step = record {
  execution_id = e.execution_id;
  workflow_id = e.workflow_id;
  request_id = step.forward_request_id;
  node_id = step.forward_node;
  image_fingerprint = e.image_fingerprint;
}

abbrev pub token_error : CompensationResult → SagaResult
token_error Compensation.ok = ok
token_error Compensation.duplicate_token = duplicate_token
token_error Compensation.buffer_too_small = buffer_too_small
token_error _ = invalid_token

-- A local record that is not written yet.
abbrev pub blank_token : CompensationRecord
blank_token = record {
  sequence = 0;
  key = record {
    execution_id = 0;
    workflow_id = 0;
    request_id = 0;
    node_id = 0;
    image_fingerprint = 0;
  };
  compensation_app_id = 0;
  compensation_action_id = 0;
  source_type = 0;
  destination_type = 0;
  token = none;
  token_length = 0;
}

abbrev pub or_blank : Option CompensationRecord → CompensationRecord
or_blank none = blank_token
or_blank (some r) = r

abbrev pub or_zero : Option ℕ → ℕ
or_zero none = 0
or_zero (some n) = n

unfoldable pub look_up :
    SagaExecution
    → SagaStep
    → Option (List ℕ)
    → ℕ
    → CompensationResult × Option CompensationRecord × Option (List ℕ) × Option ℕ
look_up e step buffer capacity = elim e.token_lookup [
  | some lookup ↦ lookup (key_of e step) (some blank_token) buffer capacity (some 0)
  | none ↦ find e.tokens e.token_bytes (key_of e step) (some blank_token) buffer capacity (some 0)
]

module _ (v : Verifier) where
  unfoldable pub token_fits : SagaExecution → SagaStep → CompensationRecord → Bool
  token_fits e step r =
      r.compensation_app_id == step.compensation_app_id
      && r.compensation_action_id == step.compensation_action_id
      && r.source_type == step.source_type
      && r.destination_type == step.destination_type
      && is_ok (v.validate_value e.image e.image_size step.destination_type r.token r.token_length)

  -- The code, and what is behind `record` and `buffer` after the call.
  unfoldable pub validate_token :
      SagaExecution
      → SagaStep
      → Option (List ℕ)
      → ℕ
      → SagaResult × CompensationRecord × Option (List ℕ)
  unfolding look_up token_fits
  validate_token e step buffer capacity =
      let (found_result, written, buffer', found) = look_up e step buffer capacity in
      let r = or_blank written in
      if not (succeeded (token_error found_result))
      then (token_error found_result, r, buffer')
      else if or_zero found == 0
      then (missing_token, r, buffer')
      else if not (token_fits e step r)
      then (invalid_token, r, buffer')
      else (ok, r, buffer')

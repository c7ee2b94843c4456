-- ===== src/Saga/Runs.antt =====
-- Runs of the saga planner of src/saga.c on a saga of two steps.
use hermas.Base.{
  ℕ, zero, suc, ◌+◌, ◌<◌, ◌≡◌, refl, arith, true, false, Option, none, some, List, [], ◌∷◌, ◌++◌,
  replicate,
}
use hermas.Bytes.{read_u16, read_u32, write_u16, write_u32, write_u64}
use hermas.Crc.{checksum}
use hermas.Journal.{image_fingerprint}
use hermas.Image as Image
use hermas.Image.{Verifier}
use hermas.Protocol.{Frame}
use hermas.Protocol.Kind as FrameKind
use hermas.Protocol.Outcome
use hermas.Compensation as Compensation
use hermas.SagaLog.{SagaLogRecord, SagaLogResult, validate, encode, write_record, write_body}
use hermas.SagaLog as SagaLog
use hermas.SagaLog.Writer.{Writer, writer_append}
use hermas.SagaLog.Layout.{record_bytes, body_bytes}
use hermas.SagaLog.Kind
use hermas.SagaLog.Transition.Phase.{closed}
use hermas.SagaLog.Transition.History.{Trace, succeeded_ordinals, countdown}
use hermas.Saga as Saga
use hermas.Saga.{
  SagaExecution, SagaStep, SagaResult, Lookup, empty_step, step_at, load_steps, blank_token,
  validate_token,
}
use hermas.Saga.Live.{begin_live, live_loop}
use hermas.Saga.Driver.{
  Driver, writer_log, driver_record, driver_begin, driver_prepare, driver_mark_sent,
  driver_accept_result,
}
use hermas.Saga.Machine as Machine
use hermas.Saga.Machine.{
  Operation, to_prepare, to_send, to_fail, to_lose, to_accept, perform, Called, perform-Called,
}
use hermas.Saga.Logged.{phase, Placed, Wrote}
use hermas.Saga.Drive.{drive_all, drive_all-logged}
use hermas.Saga.Begun.{IsChecked, begin_live-IsChecked}
use hermas.Saga.Progress.{rounds, IsUndoable, IsUndone, rounds_complete}

-- A step with its compensation and the node that it undoes.
abbrev step : ℕ → SagaStep
step ordinal = record {
  forward_request_id = ordinal;
  forward_node = ordinal;
  compensation_app_id = 30 + ordinal;
  compensation_action_id = 40 + ordinal;
  source_type = 5;
  destination_type = 6;
  success_type = 7;
  error_type = 8;
  ordinal = ordinal;
}

-- Two regions of a saga, each followed by the one of its outcome.
abbrev region : ℕ → List ℕ
region ordinal =
    (3
      ∷ 0
      ∷ ordinal
      ∷ 0
      ∷ (30 + ordinal)
      ∷ 0
      ∷ (40 + ordinal)
      ∷ 0
      ∷ 5
      ∷ 0
      ∷ 6
      ∷ 0
      ∷ ordinal
      ∷ 0
      ∷ 0
      ∷ 0
      ∷ [])
    ++ (4 ∷ 0 ∷ ordinal ∷ 0 ∷ 7 ∷ 0 ∷ 8 ∷ 0 ∷ replicate 8 0)

abbrev image : List ℕ
image =
    replicate 68 0 ++ (4 ∷ 0 ∷ 0 ∷ 0 ∷ 80 ∷ 0 ∷ 0 ∷ 0 ∷ []) ++ replicate 4 0 ++ region 1 ++ region 2

-- A verifier to which every image and value is valid.
abbrev accepting : Verifier
accepting = record {
  validate = λ bytes size. (
    Image.ok,
    record {
      workflow_name = none;
      workflow_name_length = 0;
      input_type = 5;
      success_type = 5;
      error_count = 0;
      action_contract_count = 0;
      type_count = 0;
      node_count = 2;
      edge_count = 0;
    },
  );
  validate_value = λ bytes size type payload payload_size. Image.ok;
}

-- A lookup that finds the token of each step.
abbrev all_found : Lookup
all_found key r buffer capacity found = (
  Compensation.ok,
  some (record blank_token {
    key = key;
    compensation_app_id = 30 + key.node_id;
    compensation_action_id = 40 + key.node_id;
    source_type = 5;
    destination_type = 6;
    token = some (9 ∷ []);
    token_length = 1;
  }),
  some (9 ∷ []),
  some 1,
)

-- Two steps are to be undone, after requests 1 and 2.
abbrev two_steps : SagaExecution
two_steps = record {
  image = image;
  image_size = 144;
  tokens = none;
  token_bytes = 0;
  token_lookup = some all_found;
  execution_id = 9;
  workflow_id = 4;
  image_fingerprint = 77;
  next_request_id = 3;
  current_request_id = 0;
  original_outcome = Outcome.app_error;
  compensation_outcome = 0;
  step_count = 2;
  completed_steps = 2;
  remaining = 2;
  state = Saga.ready;
  steps = step 1 ∷ step 2 ∷ replicate 14 empty_step;
}

two_steps-Placed : Placed two_steps
two_steps-Placed zero h = omega arith
two_steps-Placed (suc zero) h = omega arith
two_steps-Placed (suc (suc n)) h = absurd (omega arith)

abbrev no_frame : Frame
no_frame = record {
  kind = 0;
  execution_id = 0;
  request_id = 0;
  app_id = 0;
  action_id = 0;
  source_type = 0;
  destination_type = 0;
  outcome = 0;
  payload = none;
  payload_length = 0;
}

abbrev buffer : Option (List ℕ)
buffer = some (0 ∷ [])

-- The writer of the program over a callback that appends the bytes to those it has.
abbrev writer : List ℕ → ℕ → Writer (List ℕ)
writer bytes next_sequence = record {
  write = some (λ old new. (SagaLog.ok, old ++ new));
  context = bytes;
  next_sequence = next_sequence;
}

-- The bytes of records under their sequence numbers, from the first on.
abbrev bytes_from : ℕ → List SagaLogRecord → List ℕ
bytes_from n [] = []
bytes_from n (r ∷ rs) = record_bytes (record r { sequence = n }) ++ bytes_from (n + 1) rs

abbrev blank_driver : Driver (Writer (List ℕ))
blank_driver = record { execution = two_steps; log = none; started = false }

abbrev begun : Driver (Writer (List ℕ))
begun = record {
  execution = two_steps;
  log =
      some (
        writer (bytes_from 1 (driver_record two_steps Kind.started Outcome.app_error false ∷ []))
          2);
  started = true;
}

begin_run :
    driver_begin writer_log (some blank_driver) (some two_steps) (some (writer [] 1)) false
    ≡ (Saga.ok, some begun)
unfolding driver_begin writer_append encode validate write_record write_body record_bytes body_bytes
    write_u32 write_u64 write_u16 checksum
begin_run = refl

-- The success of the step of an ordinal.
abbrev success : ℕ → ℕ → Frame
success ordinal request = record no_frame {
  kind = FrameKind.result;
  execution_id = 9;
  request_id = request;
  app_id = 30 + ordinal;
  action_id = 40 + ordinal;
  source_type = 7;
  destination_type = 7;
  outcome = Outcome.success;
}

abbrev calls : List Operation
calls =
    to_prepare buffer 1 no_frame
    ∷ to_send
    ∷ to_accept (success 2 3)
    ∷ to_prepare buffer 1 no_frame
    ∷ to_send
    ∷ to_accept (success 1 4)
    ∷ []

-- The driver after these calls, at the end of the saga.
abbrev ended : Driver (Writer (List ℕ))
ended =
    let first = record two_steps {
      current_request_id = 3;
      next_request_id = 4;
      state = Saga.ready;
    } in
    let second : SagaExecution = record first {
      remaining = 1;
      current_request_id = 4;
      next_request_id = 5;
      compensation_outcome = Outcome.success;
    } in
    let last : SagaExecution = record second { remaining = 0; state = Saga.complete } in
    record {
      execution = last;
      log = some (
          writer
            (bytes_from 1 (
              driver_record two_steps Kind.started Outcome.app_error false
              ∷ driver_record first Kind.delivery_prepared Outcome.none true
              ∷ driver_record first Kind.delivery_sent Outcome.none true
              ∷ driver_record first Kind.step_succeeded Outcome.success true
              ∷ driver_record second Kind.delivery_prepared Outcome.none true
              ∷ driver_record second Kind.delivery_sent Outcome.none true
              ∷ driver_record second Kind.step_succeeded Outcome.success true
              ∷ driver_record last Kind.finished Outcome.success false
              ∷ []))
            9);
      started = true;
    }

ended_run : drive_all writer_log accepting calls begun ≡ some ended
unfolding driver_prepare driver_mark_sent driver_accept_result writer_append encode validate
    write_record write_body record_bytes body_bytes write_u32 write_u64 write_u16 checksum
ended_run = refl

drive_all-logged_example :
    (records : List SagaLogRecord) × Wrote writer_log (some (writer [] 1)) records ended.log
    × Trace 9 closed records (phase ended.execution)
    × (succeeded_ordinals 9 records ++ countdown 0 ≡ countdown 2)
drive_all-logged_example =
    drive_all-logged writer_log accepting calls blank_driver begun ended two_steps (writer [] 1)
      refl two_steps-Placed begin_run ended_run

perform-Called_example :
    Machine.Called two_steps
      (to_prepare buffer 1 no_frame)
      (perform accepting (to_prepare buffer 1 no_frame) two_steps)
perform-Called_example = Machine.perform-Called accepting (to_prepare buffer 1 no_frame) two_steps

token_found :
    (i : ℕ)
    → i < 2
    → Saga.succeeded (validate_token accepting two_steps (step_at two_steps i) buffer 1).0 ≡ true
unfolding validate_token
token_found zero h = refl
token_found (suc zero) h = refl
token_found (suc (suc n)) h = absurd (omega arith)

two_steps-IsUndoable : IsUndoable accepting buffer 1 no_frame (λ i. none) (λ i. 0) two_steps 2
two_steps-IsUndoable = record { tokens = λ i h. token_found i h; results = λ i h. refl }

rounds_complete_example :
    IsUndone accepting buffer 1 no_frame
      (λ i. none)
      (λ i. 0)
      2
      two_steps
      (rounds accepting buffer 1 no_frame (λ i. none) (λ i. 0) 2 two_steps)
rounds_complete_example =
    rounds_complete accepting buffer 1 no_frame (λ i. none) (λ i. 0) 1 two_steps refl refl refl
      (omega arith) (omega arith) two_steps-IsUndoable

-- The execution that `begin_live` makes of the image.
abbrev loaded : Saga.SagaExecution
loaded = record two_steps { image_fingerprint = image_fingerprint (some image) }

begin_live_run :
    begin_live accepting []
      (some two_steps)
      (some image)
      144
      9
      4
      Outcome.app_error
      (some (1 ∷ 2 ∷ []))
      2
      3
      (some all_found)
    ≡ (Saga.ok, some loaded)
unfolding begin_live live_loop load_steps read_u16 read_u32
begin_live_run = refl

begin_live_stale_run :
    (begin_live accepting []
      (some two_steps)
      (some image)
      144
      9
      4
      Outcome.app_error
      (some (1 ∷ 3 ∷ []))
      2
      3
      (some all_found)).0
    ≡ Saga.inconsistent_history
unfolding begin_live live_loop load_steps read_u16 read_u32
begin_live_stale_run = refl

begin_live-IsChecked_example :
    (loaded.state ≡ Saga.ready)
    × (loaded.remaining ≡ 2)
    × (loaded.next_request_id ≡ 3)
    × ((i : ℕ) → i < 2 → IsChecked accepting [] (1 ∷ 2 ∷ []) loaded i)
begin_live-IsChecked_example =
    begin_live-IsChecked accepting [] two_steps loaded image 144 9 4 Outcome.app_error
      (some (1 ∷ 2 ∷ [])) 2 3 (some all_found) begin_live_run

-- ===== src/Execution/Runs.antt =====
-- Runs of the sequential runtime of src/runtime.c on a small image.
use hermas.Base.{
  ℕ, ◌*◌, ◌≤◌, ◌≡◌, ◌≢◌, refl, sym, arith, true, Option, none, some, List, [], ◌∷◌, ◌++◌, replicate,
}
use hermas.Image
use hermas.Image.{Verifier}
use hermas.Protocol.{Frame, validate_semantics}
use hermas.Protocol.Kind
use hermas.Protocol.Outcome
use hermas.Execution
use hermas.Execution.{
  Execution, ExecutionState, RuntimeResult, start, prepare, mark_sent, accept_result, get_result,
  fresh_execution, invocation_of, result_of, answers, route_dispatch,
}
use hermas.Protocol
use hermas.Execution.Dispatch.{Routes, route_dispatch-Routes}
use hermas.Execution.Start.{IsStarted, start-IsStarted}
use hermas.Execution.Frames.{get_result-semantics, prepare-semantics, prepare-answers}
use hermas.Execution.Deliveries.{
  Operation, to_prepare, to_send, to_accept, perform, Performed, perform-Performed, sends,
}
use hermas.Execution.Life.{
  after_all, accepted_requests, IsAscendingFrom, accepted_requests-ascend, perform-complete,
}

-- An edge record without its unused bytes.
abbrev edge : ℕ → ℕ → ℕ → ℕ → ℕ → List ℕ
edge source_kind target_kind tag source target =
    source_kind ∷ target_kind ∷ 0 ∷ tag ∷ source ∷ 0 ∷ target ∷ 0 ∷ 5 ∷ 0 ∷ 6 ∷ 0 ∷ replicate 4 0

-- Action 1 is followed by a dispatch, 3: its case 0 leads to action 2, its case 1 to the end.
abbrev image : List ℕ
image =
    replicate 32 0
    ++ (7 ∷ 0 ∷ [])
    ++ replicate 14 0
    ++ (80 ∷ 0 ∷ 0 ∷ 0 ∷ 96 ∷ 0 ∷ 0 ∷ 0 ∷ [])
    ++ replicate 24 0
    ++ (1 ∷ 0 ∷ 21 ∷ 0 ∷ 11 ∷ 0 ∷ 0 ∷ 0 ∷ 1 ∷ 0 ∷ 22 ∷ 0 ∷ 12 ∷ 0 ∷ 0 ∷ 0 ∷ [])
    ++ edge 0 1 0 0 1
    ++ edge 1 3 0 1 3
    ++ edge 5 1 0 3 2
    ++ edge 5 2 1 3 0
    ++ edge 3 2 0 1 0
    ++ edge 4 2 0 1 0
    ++ edge 1 2 0 2 0

-- A verifier to which every image and value is valid, and whose images take input of type 5.
abbrev accepting : Verifier
accepting = record {
  validate = λ bytes size. (
    Image.ok,
    record {
      workflow_name = none;
      workflow_name_length = 0;
      input_type = 5;
      success_type = 5;
      error_count = 0;
      action_contract_count = 0;
      type_count = 0;
      node_count = 2;
      edge_count = 7;
    },
  );
  validate_value = λ bytes size type payload payload_size. Image.ok;
}

abbrev blank : Execution
blank = fresh_execution [] 0 0 none 0

abbrev buffer : Option (List ℕ)
buffer = some (replicate 16 0)

abbrev no_frame : Frame
no_frame = record {
  kind = 0;
  execution_id = 0;
  request_id = 0;
  app_id = 0;
  action_id = 0;
  source_type = 0;
  destination_type = 0;
  outcome = 0;
  payload = none;
  payload_length = 0;
}

-- A started execution: at action 1, with the input as its value.
abbrev started : Execution
started = record {
  image = image;
  image_size = 208;
  value_buffer = some (7 ∷ 8 ∷ replicate 14 0);
  value_capacity = 16;
  value_length = 2;
  execution_id = 9;
  request_id = 1;
  current_node = 1;
  value_source_type = 5;
  value_destination_type = 6;
  terminal_outcome = 0;
  state = Execution.ready;
}

start_runs :
    start accepting (some blank) (some image) 208 9 buffer 16 5 (some (7 ∷ 8 ∷ [])) 2
    ≡ (Execution.ok, some started)
unfolding start Execution.find_edge Execution.first_edge hermas.Bytes.read_u16 hermas.Bytes.read_u32
start_runs = refl

start_refuses :
    start accepting (some blank) (some image) 208 0 buffer 16 5 (some (7 ∷ 8 ∷ [])) 2
    ≡ (Execution.invalid_argument, some blank)
unfolding start
start_refuses = refl

-- The result of action 1: case `tag`, with one byte of payload.
abbrev answer_1 : ℕ → Frame
answer_1 tag = record no_frame {
  kind = Kind.result;
  execution_id = 9;
  request_id = 1;
  app_id = 11;
  action_id = 21;
  source_type = 5;
  destination_type = 5;
  outcome = Outcome.success;
  payload = some (tag ∷ 0 ∷ 0 ∷ 0 ∷ 0 ∷ 0 ∷ 0 ∷ 0 ∷ 42 ∷ []);
  payload_length = 9;
}

abbrev answer_2 : Frame
answer_2 = record (answer_1 0) { request_id = 2; app_id = 12; action_id = 22 }

abbrev calls : ℕ → List Operation
calls tag = to_prepare no_frame ∷ to_send ∷ to_accept (answer_1 tag) ∷ []

abbrev goes_on : Execution
goes_on = record started {
  value_buffer = some (42 ∷ 0 ∷ 0 ∷ 0 ∷ 0 ∷ 0 ∷ 0 ∷ 0 ∷ 42 ∷ replicate 7 0);
  value_length = 1;
  request_id = 2;
  current_node = 2;
}

case_0_goes_on : after_all accepting (calls 0) started ≡ goes_on
unfolding prepare mark_sent accept_result Execution.find_edge Execution.first_edge
    hermas.Bytes.read_u16 hermas.Bytes.read_u32 Execution.route_dispatch Execution.find_case_edge
case_0_goes_on = refl

case_1_ends : (after_all accepting (calls 1) started).state ≡ Execution.complete
unfolding prepare mark_sent accept_result Execution.find_edge Execution.first_edge
    hermas.Bytes.read_u16 hermas.Bytes.read_u32 Execution.route_dispatch Execution.find_case_edge
case_1_ends = refl

case_2_is_stuck : (after_all accepting (calls 2) started).state ≡ Execution.sent
unfolding prepare mark_sent accept_result Execution.find_edge Execution.first_edge
    hermas.Bytes.read_u16 hermas.Bytes.read_u32 Execution.route_dispatch Execution.find_case_edge
case_2_is_stuck = refl

accepted_requests_run :
    accepted_requests accepting (calls 0 ++ calls 0 ++ (to_accept answer_2 ∷ [])) started
    ≡ 1 ∷ 2 ∷ []
unfolding prepare mark_sent accept_result Execution.find_edge Execution.first_edge
    hermas.Bytes.read_u16 hermas.Bytes.read_u32 Execution.route_dispatch Execution.find_case_edge
accepted_requests_run = refl

abbrev twice : List Operation
twice = calls 0 ++ (to_prepare no_frame ∷ to_send ∷ to_accept answer_2 ∷ [])

-- At the dispatch, with the whole result of action 1.
abbrev at_dispatch : Execution
at_dispatch = record goes_on {
  value_length = 9;
  value_buffer = (answer_1 0).payload;
  current_node = 3;
  state = Execution.sent;
}

route_dispatch-Routes_example :
    (n : ℕ) × (n * 8 ≤ at_dispatch.value_length)
    × Routes accepting 1 n at_dispatch (route_dispatch accepting at_dispatch 1)
route_dispatch-Routes_example = route_dispatch-Routes accepting at_dispatch 1

perform-Performed_example :
    Performed sends
      (record started { state = Execution.prepared })
      (mark_sent (some (record started { state = Execution.prepared })))
perform-Performed_example =
    perform-Performed accepting to_send (record started { state = Execution.prepared })

accepted_requests-ascend_example : IsAscendingFrom 1 (accepted_requests accepting twice started)
accepted_requests-ascend_example = accepted_requests-ascend accepting twice started

perform-complete_example :
    perform accepting (to_accept (answer_1 0)) (record started { state = Execution.complete })
    ≡ (Execution.invalid_state, some (record started { state = Execution.complete }))
perform-complete_example =
    perform-complete accepting (to_accept (answer_1 0))
      (record started { state = Execution.complete }) refl

start-IsStarted_example : IsStarted 9 started × ◌≢◌ {A = ℕ} 9 0
start-IsStarted_example =
    start-IsStarted accepting blank image 208 9 buffer 16 5 (some (7 ∷ 8 ∷ [])) 2 started start_runs

got_result :
    get_result (some (after_all accepting (calls 1) started)) (some no_frame)
    ≡ (Execution.ok, some (result_of (after_all accepting (calls 1) started)))
unfolding get_result prepare mark_sent accept_result Execution.find_edge Execution.first_edge
    hermas.Bytes.read_u16 hermas.Bytes.read_u32 Execution.route_dispatch Execution.find_case_edge
got_result = refl

ended_types :
    ((after_all accepting (calls 1) started).value_source_type ≢ 0)
    × ((after_all accepting (calls 1) started).value_destination_type ≢ 0)
unfolding get_result prepare mark_sent accept_result Execution.find_edge Execution.first_edge
    hermas.Bytes.read_u16 hermas.Bytes.read_u32 Execution.route_dispatch Execution.find_case_edge
ended_types = (omega arith, omega arith)

get_result-semantics_example :
    (validate_semantics (result_of (after_all accepting (calls 1) started)) ≡ Protocol.ok)
    × ((result_of (after_all accepting (calls 1) started)).execution_id ≡ 9)
get_result-semantics_example =
    get_result-semantics accepting 9 started (calls 1) no_frame
      (result_of (after_all accepting (calls 1) started)) (refl, refl, refl) (omega arith)
      got_result (λ valued. ended_types)

abbrev waiting_2 : Execution
waiting_2 = after_all accepting (calls 0) started

prepared_2 : prepare (some waiting_2) (some no_frame) ≡ (
  Execution.ok,
  some (record waiting_2 { state = Execution.prepared }),
  some (invocation_of waiting_2),
)
unfolding get_result prepare mark_sent accept_result Execution.find_edge Execution.first_edge
    hermas.Bytes.read_u16 hermas.Bytes.read_u32 Execution.route_dispatch Execution.find_case_edge
prepared_2 = refl

ids_2 :
    ((invocation_of waiting_2).app_id ≢ 0)
    × ((invocation_of waiting_2).action_id ≢ 0)
    × ((invocation_of waiting_2).source_type ≢ 0)
    × ((invocation_of waiting_2).destination_type ≢ 0)
unfolding invocation_of prepare mark_sent accept_result Execution.find_edge Execution.first_edge
    hermas.Bytes.read_u16 hermas.Bytes.read_u32 Execution.route_dispatch Execution.find_case_edge
ids_2 = (omega arith, omega arith, omega arith, omega arith)

prepare-semantics_example :
    (validate_semantics (invocation_of waiting_2) ≡ Protocol.ok)
    × ((invocation_of waiting_2).execution_id ≡ 9)
    × ((invocation_of waiting_2).request_id ≡ waiting_2.request_id)
prepare-semantics_example =
    prepare-semantics accepting 9 started (calls 0)
      (record waiting_2 { state = Execution.prepared }) no_frame (invocation_of waiting_2)
      (refl, refl, refl) (omega arith) prepared_2 ids_2

prepared_1 : prepare (some started) (some no_frame) ≡ (
  Execution.ok,
  some (record started { state = Execution.prepared }),
  some (invocation_of started),
)
unfolding prepare Execution.find_edge Execution.first_edge hermas.Bytes.read_u16
    hermas.Bytes.read_u32 Execution.route_dispatch Execution.find_case_edge
prepared_1 = refl

sent_1 :
    mark_sent (some (record started { state = Execution.prepared }))
    ≡ (Execution.ok, some (record started { state = Execution.sent }))
unfolding mark_sent
sent_1 = refl

ids_1 :
    ((invocation_of started).app_id ≡ 11)
    × ((invocation_of started).action_id ≡ 21)
    × ((invocation_of started).execution_id ≡ 9)
    × ((invocation_of started).request_id ≡ 1)
unfolding invocation_of Execution.find_edge Execution.first_edge hermas.Bytes.read_u16
    hermas.Bytes.read_u32 Execution.route_dispatch Execution.find_case_edge
ids_1 = (refl, refl, refl, refl)

prepare-answers_example : answers (record started { state = Execution.sent }) (answer_1 0) ≡ true
prepare-answers_example =
    prepare-answers started (record started { state = Execution.prepared })
      (record started { state = Execution.sent }) no_frame (invocation_of started) (answer_1 0)
      prepared_1 sent_1 refl (sym ids_1.2) (sym ids_1.3) (sym ids_1.0) (sym ids_1.1) refl refl

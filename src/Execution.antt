-- ===== src/Execution.antt =====
-- `hermas_execution_*` of src/runtime.c: the sequential runtime.
pub mod Cases
pub mod Dispatch
pub mod Enter
pub mod Deliveries
pub mod Life
pub mod Start
pub mod Frames
pub mod Ports
pub mod Lost
mod LostRuns
mod Runs
use hermas.Base.{
  ℕ, zero, suc, ◌+◌, ◌-◌, ◌*◌, ◌/◌, ◌%◌, ◌^◌, Bool, true, false, not, ◌&&◌, ◌||◌, Option, none,
  some, List, [], ◌∷◌, take, drop, overwrite, ltb, leb, ◌==◌, ◌!=◌, if◌then◌else◌,
}
use hermas.Base.Check.{Check, fail, pass, ◌>>=◌, ◌>>◌, refuse}
use hermas.Bytes.{byte_at, read_u16, read_u32}
use hermas.Image.{Verifier, Summary, is_ok}
use hermas.Protocol.{Frame, is_null, pointee, max_payload_size}
use hermas.Protocol.Kind
use hermas.Protocol.Outcome

pub data ExecutionState : Type 0 where
  empty ready prepared sent complete waiting : ExecutionState

abbrev pub is_ready : ExecutionState → Bool
is_ready ready = true
is_ready _ = false

abbrev pub is_prepared : ExecutionState → Bool
is_prepared prepared = true
is_prepared _ = false

abbrev pub is_sent : ExecutionState → Bool
is_sent sent = true
is_sent _ = false

abbrev pub is_complete : ExecutionState → Bool
is_complete complete = true
is_complete _ = false

pub data RuntimeResult : Type 0 where
  ok invalid_argument invalid_image invalid_value buffer_too_small invalid_state : RuntimeResult
  unexpected_result request_id_exhausted : RuntimeResult

abbrev pub succeeded : RuntimeResult → Bool
succeeded ok = true
succeeded _ = false

-- `hermas_execution`: `image` and `value_buffer` are the memory from the pointers on.
pub record Execution : Type 0 where
  pub image : List ℕ
  pub image_size : ℕ
  pub value_buffer : Option (List ℕ)
  pub value_capacity : ℕ
  pub value_length : ℕ
  pub execution_id : ℕ
  pub request_id : ℕ
  pub current_node : ℕ
  pub value_source_type : ℕ
  pub value_destination_type : ℕ
  pub terminal_outcome : ℕ
  pub state : ExecutionState

-- The new `hermas_execution` of `start`.
abbrev pub fresh_execution : List ℕ → ℕ → ℕ → Option (List ℕ) → ℕ → Execution
fresh_execution image image_size execution_id value_buffer value_capacity = record {
  image = image;
  image_size = image_size;
  value_buffer = value_buffer;
  value_capacity = value_capacity;
  value_length = 0;
  execution_id = execution_id;
  request_id = 1;
  current_node = 0;
  value_source_type = 0;
  value_destination_type = 0;
  terminal_outcome = 0;
  state = empty;
}

abbrev pub edge_record_size : ℕ
edge_record_size = 16

abbrev pub edge_count : List ℕ → ℕ
edge_count image = read_u16 image 32

abbrev pub edges_offset : List ℕ → ℕ
edges_offset image = read_u32 image 52

-- Nodes are numbered from 1; `node - 1` on `size_t` wraps for 0, and so does the sum.
unfoldable pub node_offset : List ℕ → ℕ → ℕ
node_offset image node = read_u32 image 48 + node * 8 - 8

-- The first of the edge records left that passes the test.
unfoldable pub first_edge : (ℕ → Bool) → ℕ → ℕ → Option ℕ
first_edge test zero offset = none
first_edge test (suc rounds) offset =
    let rest = first_edge test rounds (offset + edge_record_size) in
    if test offset then some offset else rest

abbrev pub edge_matches : List ℕ → ℕ → ℕ → ℕ → Bool
edge_matches image source_kind source_node offset =
    byte_at image offset == source_kind && read_u16 image (offset + 4) == source_node

unfoldable pub find_edge : List ℕ → ℕ → ℕ → Option ℕ
find_edge image source_kind source_node =
    first_edge (edge_matches image source_kind source_node) (edge_count image) (edges_offset image)

unfoldable pub find_case_edge : List ℕ → ℕ → ℕ → Option ℕ
find_case_edge image source_node case_tag =
    first_edge
      (λ offset. edge_matches image 5 source_node offset && byte_at image (offset + 3) == case_tag)
      (edge_count image) (edges_offset image)

unfoldable pub copy_value : Execution → Option (List ℕ) → ℕ → RuntimeResult × Execution
copy_value e value value_length =
    if not (leb value_length e.value_capacity)
    then (buffer_too_small, e)
    else if value_length == 0
    then (ok, record e { value_length = 0 })
    else if is_null value || is_null e.value_buffer
    then (invalid_argument, e)
    else (
      ok,
      record e {
        value_length = value_length;
        value_buffer =
            some (overwrite (pointee e.value_buffer) 0 (take value_length (pointee value)));
      },
    )

-- The value without the 8 bytes of its tag.
unfoldable pub strip_tag : Execution → Execution
strip_tag e = record e {
  value_length = e.value_length - 8;
  value_buffer =
      if e.value_length - 8 == 0
      then e.value_buffer
      else some (
          overwrite (pointee e.value_buffer) 0
            (take (e.value_length - 8) (drop 8 (pointee e.value_buffer))));
}

-- The fields that `enter_edge` copies from the edge.
unfoldable pub follow_edge : Execution → ℕ → Execution
follow_edge e edge = record e {
  value_source_type = read_u16 e.image (edge + 8);
  value_destination_type = read_u16 e.image (edge + 10);
  current_node = read_u16 e.image (edge + 6);
}

abbrev pub target_kind : List ℕ → ℕ → ℕ
target_kind image edge = byte_at image (edge + 1)

abbrev pub finish_at : Execution → ℕ → Execution
finish_at e outcome = record e { terminal_outcome = outcome; state = complete }

module _ (v : Verifier) where
  -- `route_dispatch` up to its call of `enter_edge`: the edge to enter, or the early return.
  unfoldable pub select_case : Execution → Check (RuntimeResult × Execution) (Execution × ℕ)
  unfolding strip_tag
  select_case e =
      let tag = read_u32 (pointee e.value_buffer) 0 in
      let reserved = read_u32 (pointee e.value_buffer) 4 in
      do
        refuse (ltb e.value_length 8) (invalid_value, e)
        refuse (reserved != 0 || ltb 255 tag) (invalid_value, e)
        elim (find_case_edge e.image e.current_node tag) [
          | none ↦ fail (invalid_image, e)
          | some edge ↦ do
            refuse
                (not (
                  is_ok (
                    v.validate_value e.image e.image_size (read_u16 e.image (edge + 8))
                      (strip_tag e).value_buffer (strip_tag e).value_length)))
                (invalid_value, strip_tag e)
            pass (strip_tag e, edge)
        ]

  -- `enter_edge`, with its call of `route_dispatch` as an argument.
  unfoldable pub enter_with :
      (Execution → RuntimeResult × Execution) → Execution → ℕ → ℕ → RuntimeResult × Execution
  unfolding follow_edge
  enter_with route e edge outcome =
      let e' = follow_edge e edge in
      if target_kind e.image edge == 1
      then (ok, record e' { state = ready })
      else if target_kind e.image edge == 3
      then route e'
      else (ok, finish_at e' outcome)

  -- `route_dispatch` for at most `rounds` tags; after them less than 8 bytes are left.
  unfoldable pub route_rounds : ℕ → Execution → ℕ → RuntimeResult × Execution
  unfolding select_case enter_with
  route_rounds zero e outcome = (invalid_value, e)
  route_rounds (suc rounds) e outcome = elim (select_case e) [
    | fail stopped ↦ stopped
    | pass (e', edge) ↦ enter_with (λ t. route_rounds rounds t outcome) e' edge outcome
  ]

  unfoldable pub route_dispatch : Execution → ℕ → RuntimeResult × Execution
  unfolding route_rounds
  route_dispatch e outcome = route_rounds (e.value_length / 8) e outcome

  unfoldable pub enter_edge : Execution → ℕ → ℕ → RuntimeResult × Execution
  unfolding enter_with
  enter_edge e edge outcome = enter_with (λ t. route_dispatch t outcome) e edge outcome

  -- The code, and `*execution` after the call; `none` is the null pointer.
  unfoldable pub finish_delivery_outcome :
      Option Execution → (ExecutionState → Bool) → ℕ → ℕ → RuntimeResult × Option Execution
  unfolding enter_edge
  finish_delivery_outcome none required source_kind outcome = (invalid_state, none)
  finish_delivery_outcome (some e) required source_kind outcome =
      if not (required e.state)
      then (invalid_state, some e)
      else elim (find_edge e.image source_kind e.current_node) [
        | none ↦ (invalid_image, some e)
        | some edge ↦
            let (code, e') = enter_edge (record e { value_length = 0 }) edge outcome in
            (code, some e')
      ]

  unfoldable pub mark_not_sent : Option Execution → RuntimeResult × Option Execution
  unfolding finish_delivery_outcome
  mark_not_sent e = finish_delivery_outcome e is_prepared 3 Outcome.not_sent

  unfoldable pub mark_unknown : Option Execution → RuntimeResult × Option Execution
  unfolding finish_delivery_outcome
  mark_unknown e = finish_delivery_outcome e is_sent 4 Outcome.unknown

  -- `start` from the point where its arguments have passed. The code of the first
  -- `enter_edge` is not looked at: its target is an action.
  unfoldable pub start_fresh :
      List ℕ → ℕ → ℕ → Option (List ℕ) → ℕ → Option (List ℕ) → ℕ → RuntimeResult × Option Execution
  unfolding copy_value enter_edge
  start_fresh image image_size execution_id value_buffer value_capacity input input_length =
      let copied =
        copy_value (fresh_execution image image_size execution_id value_buffer value_capacity) input
          input_length in
      if not (succeeded copied.0) then (copied.0, none) else elim (find_edge image 0 0) [
        | none ↦ (invalid_image, none)
        | some root ↦
            if target_kind image root != 1
            then (invalid_image, none)
            else (ok, some (enter_edge copied.1 root Outcome.none).1)
      ]

  -- The execution that a call leaves in `*execution`: a started one, or the one before.
  abbrev pub stored :
      Execution → RuntimeResult × Option Execution → RuntimeResult × Option Execution
  stored old (code, none) = (code, some old)
  stored old (code, some fresh) = (code, some fresh)

  unfoldable pub start :
      Option Execution
      → Option (List ℕ)
      → ℕ
      → ℕ
      → Option (List ℕ)
      → ℕ
      → ℕ
      → Option (List ℕ)
      → ℕ
      → RuntimeResult × Option Execution
  unfolding start_fresh
  start none image image_size execution_id buffer capacity input_type input input_length =
      (invalid_argument, none)
  start (some old) none image_size execution_id buffer capacity input_type input input_length =
      (invalid_argument, some old)
  start (some old) (some image) image_size execution_id buffer capacity input_type input
        input_length =
      if execution_id == 0
        || input_type == 0
        || (input_length != 0 && is_null input)
        || (capacity != 0 && is_null buffer)
        || ltb max_payload_size input_length
      then (invalid_argument, some old)
      else if not (is_ok (v.validate image image_size).0)
      then (invalid_image, some old)
      else if input_type != (v.validate image image_size).1.input_type
          || not (is_ok (v.validate_value image image_size input_type input input_length))
      then (invalid_value, some old)
      else stored old (start_fresh image image_size execution_id buffer capacity input input_length)

-- The frame that `prepare` hands out; `payload_length` is on 32 bits.
unfoldable pub invocation_of : Execution → Frame
unfolding node_offset
invocation_of e = record {
  kind = Kind.invoke;
  execution_id = e.execution_id;
  request_id = e.request_id;
  app_id = read_u16 e.image (node_offset e.image e.current_node + 4);
  action_id = read_u16 e.image (node_offset e.image e.current_node + 2);
  source_type = e.value_source_type;
  destination_type = e.value_destination_type;
  outcome = Outcome.none;
  payload = e.value_buffer;
  payload_length = e.value_length % 2 ^ 32;
}

-- The code, `*execution` and `*invocation` after the call.
unfoldable pub prepare :
    Option Execution → Option Frame → RuntimeResult × Option Execution × Option Frame
unfolding node_offset invocation_of
prepare none invocation = (invalid_argument, none, invocation)
prepare (some e) none = (invalid_argument, some e, none)
prepare (some e) (some old) =
    if not (is_ready e.state)
    then (invalid_state, some e, some old)
    else if byte_at e.image (node_offset e.image e.current_node) != 1
    then (invalid_image, some e, some old)
    else (ok, some (record e { state = prepared }), some (invocation_of e))

unfoldable pub mark_sent : Option Execution → RuntimeResult × Option Execution
mark_sent none = (invalid_state, none)
mark_sent (some e) =
    if not (is_prepared e.state)
    then (invalid_state, some e)
    else (ok, some (record e { state = sent }))

-- The frame is the answer to the request that is open.
unfoldable pub answers : Execution → Frame → Bool
unfolding node_offset
answers e r =
    let node = node_offset e.image e.current_node in
    r.kind == Kind.result
    && r.execution_id == e.execution_id
    && r.request_id == e.request_id
    && r.app_id == read_u16 e.image (node + 4)
    && r.action_id == read_u16 e.image (node + 2)
    && r.source_type == r.destination_type
    && (r.outcome == Outcome.success || r.outcome == Outcome.app_error)

-- The edge's target needs another request.
abbrev pub goes_on : List ℕ → ℕ → Bool
goes_on image edge = target_kind image edge == 1 || target_kind image edge == 3

-- `++request_id` when the edge goes on; the counter is not at its maximum there.
abbrev count_request : Execution → ℕ → Execution → Execution
count_request e edge copied = record copied {
  request_id = if goes_on e.image edge then e.request_id + 1 else e.request_id;
}

module _ (v : Verifier) where
  -- `accept_result` from the point where the edge of the outcome is known.
  unfoldable pub take_result : Execution → Frame → ℕ → RuntimeResult × Execution
  unfolding copy_value enter_edge
  take_result e r edge =
      if r.source_type != read_u16 e.image (edge + 8)
      then (unexpected_result, e)
      else if ltb max_payload_size r.payload_length
      then (invalid_value, e)
      else if not
          (is_ok (v.validate_value e.image e.image_size r.source_type r.payload r.payload_length))
      then (invalid_value, e)
      else if goes_on e.image edge && e.request_id == 2 ^ 64 - 1
      then (request_id_exhausted, e)
      else let copied = copy_value e r.payload r.payload_length in
        if not (succeeded copied.0)
        then copied
        else enter_edge v (count_request e edge copied.1) edge r.outcome

  unfoldable pub accept_result : Option Execution → Option Frame → RuntimeResult × Option Execution
  unfolding answers take_result
  accept_result none result = (invalid_argument, none)
  accept_result (some e) none = (invalid_argument, some e)
  accept_result (some e) (some r) =
      if not (is_sent e.state)
      then (invalid_state, some e)
      else if not (answers e r)
      then (unexpected_result, some e)
      else elim (find_edge e.image (if r.outcome == Outcome.success then 1 else 2) e.current_node) [
        | none ↦ (unexpected_result, some e)
        | some edge ↦ let (code, e') = take_result e r edge in (code, some e')
      ]

-- The terminal outcome carries a value.
abbrev pub has_value : ℕ → Bool
has_value outcome = outcome == Outcome.success || outcome == Outcome.app_error

unfoldable pub result_of : Execution → Frame
result_of e =
    let source_type = if has_value e.terminal_outcome then e.value_source_type else 0 in
    let destination_type = if has_value e.terminal_outcome then e.value_destination_type else 0 in
    record {
      kind = Kind.execution_result;
      execution_id = e.execution_id;
      request_id = 0;
      app_id = 0;
      action_id = 0;
      source_type = source_type;
      destination_type = destination_type;
      outcome = e.terminal_outcome;
      payload = if source_type == 0 then none else e.value_buffer;
      payload_length = if source_type == 0 then 0 else e.value_length % 2 ^ 32;
    }

-- The code, and `*result` after the call.
unfoldable pub get_result : Option Execution → Option Frame → RuntimeResult × Option Frame
unfolding result_of
get_result none result = (invalid_argument, result)
get_result (some e) none = (invalid_argument, none)
get_result (some e) (some old) =
    if not (is_complete e.state) then (invalid_state, some old) else (ok, some (result_of e))

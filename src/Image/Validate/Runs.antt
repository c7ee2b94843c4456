-- ===== src/Image/Validate/Runs.antt =====
-- Runs of `hermas_image_validate` of src/image.c.
use hermas.Base.{
  ℕ, ◌/◌, ◌%◌, ◌≤◌, ◌≡◌, ◌⊎◌, refl, arith, none, some, List, [], ◌∷◌, ◌++◌, replicate, set,
}
use hermas.Base.Check.{Check, fail, pass}
use hermas.Bytes.{read_u16, read_u32, read_u64}
use hermas.Image as Image
use hermas.Image.{ImageResult}
use hermas.Image.Utf8.{valid_utf8}
use hermas.Image.Tables.{
  header_of, descriptor_in, check_header, check_counts, checked_table_end, table_end, check_offsets,
  check_name, contains_u16, contains_action_contract, child_loop, representation_child, same_range,
  same_representation, child_matches,
}
use hermas.Image.Records.{
  check_errors, check_contracts, check_type, check_types, add_dispatch, add_node, check_nodes,
}
use hermas.Image.Regions.{
  add_deadline, next_each, source_matches, output_matches, add_each, add_saga_step,
  add_saga_outcome, add_region, check_regions,
}
use hermas.Image.Edges.{valid_dispatch_source, valid_source, valid_terminal, valid_target}
use hermas.Image.Counts.{count_target, count_source, check_edge, add_edge, check_edges}
use hermas.Image.Topology.{
  mark_edge, mark_pass, mark_passes, action_incomplete, saga_incomplete, dispatch_incomplete,
  fork_incomplete, join_incomplete, check_node, check_sagas, check_each, check_topology,
}
use hermas.Base.Loops.{for_range, fold_range, any_range}
use hermas.Image.Items.{type_descriptor}
use hermas.Image.Value.{validate_representation, skip_levels, skip_children, representation_valid}
use hermas.Image.Validate.{Graph, validate, check_image}
use hermas.Image.Records.{no_nodes}
use hermas.Image.Regions.{no_regions}
use hermas.Image.Counts.{no_edges}
use hermas.Image.Value.{Cursors, at, validate_value_inner, check_levels, check_kind}
use hermas.Image.Validate.Tables.{Laid, check_image-Laid}
use hermas.Image.Validate.Reached.{Reaches, check_image-Reaches}
use hermas.Image.Validate.Types.{check_image-Represented}

abbrev pub u16 : ℕ → List ℕ
u16 n = n ∷ 0 ∷ []

abbrev pub u32 : ℕ → List ℕ
u32 n = (n % 256) ∷ (n / 256) ∷ 0 ∷ 0 ∷ []

abbrev pub type_record : ℕ → ℕ → List ℕ
type_record id offset = u16 id ++ u16 0 ++ u32 offset

abbrev pub node_record : ℕ → ℕ → ℕ → ℕ → List ℕ
node_record kind subtype action app = kind ∷ subtype ∷ u16 action ++ u16 app ++ u16 0

abbrev pub edge_record : ℕ → ℕ → ℕ → ℕ → ℕ → ℕ → List ℕ
edge_record source_kind source_node source_type target_kind target_node target_type =
    source_kind ∷ target_kind ∷ 0 ∷ 0 ∷ u16 source_node
    ++ u16 target_node
    ++ u16 source_type
    ++ u16 target_type
    ++ replicate 4 0

abbrev tables : List ℕ
tables =
    u16 2
    ++ u16 0
    ++ u16 11
    ++ u16 21
    ++ replicate 32 6
    ++ type_record 1 256
    ++ type_record 2 264
    ++ node_record 1 0 21 11
    ++ node_record 2 1 0 0
    ++ node_record 2 2 0 0
    ++ node_record 2 3 0 0
    ++ node_record 2 4 0 0
    ++ edge_record 0 0 1 1 1 1
    ++ edge_record 1 1 1 2 2 1
    ++ edge_record 2 1 2 2 3 2
    ++ edge_record 3 1 0 2 4 0
    ++ edge_record 4 1 0 2 5 0
    ++ (2 ∷ 0 ∷ 0 ∷ 0 ∷ 0 ∷ 0 ∷ 0 ∷ 0 ∷ [])
    ++ (4 ∷ 0 ∷ 0 ∷ 0 ∷ 5 ∷ 0 ∷ 0 ∷ 0 ∷ [])
    ++ (119 ∷ [])

abbrev header : List ℕ
header =
    (72 ∷ 71 ∷ 73 ∷ 49 ∷ [])
    ++ u16 1
    ++ u16 80
    ++ u32 273
    ++ u32 0
    ++ u32 272
    ++ u16 1
    ++ u16 1
    ++ u16 1
    ++ u16 1
    ++ u16 1
    ++ u16 5
    ++ u16 5
    ++ u16 2
    ++ u32 80
    ++ u32 84
    ++ u32 120
    ++ u32 136
    ++ u32 176
    ++ u32 256
    ++ u32 272
    ++ u32 16
    ++ u16 0
    ++ u16 0
    ++ u32 256
    ++ u32 0

-- A workflow of one Action, from an integer to an integer or a short string as its error.
abbrev pub workflow : List ℕ
workflow = header ++ tables

abbrev pub blank : Image.Summary
blank = record {
  workflow_name = none;
  workflow_name_length = 0;
  input_type = 0;
  success_type = 0;
  error_count = 0;
  action_contract_count = 0;
  type_count = 0;
  node_count = 0;
  edge_count = 0;
}

validate_run : validate (some workflow) 273 (some blank) ≡ (
  Image.ok,
  some (record {
    workflow_name = some (119 ∷ []);
    workflow_name_length = 1;
    input_type = 1;
    success_type = 1;
    error_count = 1;
    action_contract_count = 1;
    type_count = 2;
    node_count = 5;
    edge_count = 5;
  }),
)
unfolding check_header check_counts checked_table_end table_end check_offsets check_name
    contains_u16 contains_action_contract child_loop representation_child same_range
    same_representation child_matches check_errors check_contracts check_type check_types
    add_dispatch add_node check_nodes add_deadline next_each source_matches output_matches add_each
    add_saga_step add_saga_outcome add_region check_regions valid_dispatch_source valid_source
    valid_terminal valid_target count_target count_source check_edge add_edge check_edges mark_edge
    mark_pass mark_passes action_incomplete saga_incomplete dispatch_incomplete fork_incomplete
    join_incomplete check_node check_sagas check_each check_topology check_image validate for_range
    fold_range any_range type_descriptor validate_representation skip_levels skip_children
    representation_valid read_u16 read_u32 read_u64 valid_utf8
validate_run = refl

-- Without the edge for an unknown outcome the Action is incomplete: here it is one more for a
-- delivery that was not sent, to another terminal.
twice_run : validate (some (set workflow 240 3)) 273 none ≡ (Image.invalid_topology, none)
unfolding check_header check_counts checked_table_end table_end check_offsets check_name
    contains_u16 contains_action_contract child_loop representation_child same_range
    same_representation child_matches check_errors check_contracts check_type check_types
    add_dispatch add_node check_nodes add_deadline next_each source_matches output_matches add_each
    add_saga_step add_saga_outcome add_region check_regions valid_dispatch_source valid_source
    valid_terminal valid_target count_target count_source check_edge add_edge check_edges mark_edge
    mark_pass mark_passes action_incomplete saga_incomplete dispatch_incomplete fork_incomplete
    join_incomplete check_node check_sagas check_each check_topology check_image validate for_range
    fold_range any_range type_descriptor validate_representation skip_levels skip_children
    representation_valid read_u16 read_u32 read_u64 valid_utf8
twice_run = refl

abbrev graph_of : Check ImageResult Graph → Graph
graph_of (fail code) = record { nodes = no_nodes; regions = no_regions; counts = no_edges }
graph_of (pass g) = g

-- What the checks find out about the workflow.
abbrev pub accepted : Graph
accepted = graph_of (check_image workflow 273)

pub workflow_run : check_image workflow 273 ≡ pass accepted
unfolding check_header check_counts checked_table_end table_end check_offsets check_name
    contains_u16 contains_action_contract child_loop representation_child same_range
    same_representation child_matches check_errors check_contracts check_type check_types
    add_dispatch add_node check_nodes add_deadline next_each source_matches output_matches add_each
    add_saga_step add_saga_outcome add_region check_regions valid_dispatch_source valid_source
    valid_terminal valid_target count_target count_source check_edge add_edge check_edges mark_edge
    mark_pass mark_passes action_incomplete saga_incomplete dispatch_incomplete fork_incomplete
    join_incomplete check_node check_sagas check_each check_topology check_image validate for_range
    fold_range any_range type_descriptor validate_representation skip_levels skip_children
    representation_valid read_u16 read_u32 read_u64 valid_utf8
workflow_run = refl

check_image-Laid_example : Laid (header_of workflow) 273
check_image-Laid_example = check_image-Laid workflow 273 accepted workflow_run

node_count_run : 5 ≤ (header_of workflow).node_count
unfolding read_u16
node_count_run = omega arith

check_image-Reaches_example : Reaches workflow (header_of workflow) accepted.regions 5
check_image-Reaches_example =
    check_image-Reaches workflow 273 accepted 5 workflow_run (omega arith) node_count_run

descriptor_run : descriptor_in workflow (header_of workflow) 1 ≡ some (256, 264)
unfolding type_descriptor read_u16 read_u32
descriptor_run = refl

abbrev number : List ℕ
number = replicate 8 7

value_run : validate_value_inner workflow 272 number 8 256 0 0 ≡ pass (at 264 8)
unfolding validate_value_inner check_levels check_kind read_u16 read_u32
value_run = refl

check_image-Represented_example :
    (validate_representation workflow (header_of workflow).strings_offset 256 0 ≡ pass 264)
    × (((code : ImageResult) × (validate_value_inner workflow
              (header_of workflow).strings_offset
              number
              8
              256
              0
              0
            ≡ fail code))
        ⊎ ((c : Cursors) × (validate_value_inner workflow
                (header_of workflow).strings_offset
                number
                8
                256
                0
                0
              ≡ pass c)
            × (c.representation ≡ 264)
            × (c.payload ≤ 8)))
check_image-Represented_example =
    check_image-Represented workflow 273 accepted 1 256 264 number 8 workflow_run descriptor_run

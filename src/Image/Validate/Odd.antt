-- ===== src/Image/Validate/Odd.antt =====
-- Odd graphs that `hermas_image_validate` of src/image.c accepts.
use hermas.Base.{ℕ, ◌≡◌, refl, none, some, List, [], ◌∷◌, ◌++◌, replicate, set}
use hermas.Bytes.{read_u16, read_u32, read_u64}
use hermas.Image as Image
use hermas.Image.{ImageResult}
use hermas.Image.Utf8.{valid_utf8}
use hermas.Image.Tables.{
  check_header, check_counts, checked_table_end, table_end, check_offsets, check_name, contains_u16,
  contains_action_contract, child_loop, representation_child, same_range, same_representation,
  child_matches,
}
use hermas.Image.Records.{
  check_errors, check_contracts, check_type, check_types, add_dispatch, add_node, check_nodes,
}
use hermas.Image.Regions.{
  add_deadline, next_each, source_matches, output_matches, add_each, add_saga_step,
  add_saga_outcome, add_region, check_regions,
}
use hermas.Image.Edges.{valid_dispatch_source, valid_source, valid_terminal, valid_target}
use hermas.Image.Counts.{count_target, count_source, check_edge, add_edge, check_edges}
use hermas.Image.Topology.{
  mark_edge, mark_pass, mark_passes, action_incomplete, saga_incomplete, dispatch_incomplete,
  fork_incomplete, join_incomplete, check_node, check_sagas, check_each, check_topology,
}
use hermas.Base.Loops.{for_range, fold_range, any_range}
use hermas.Image.Items.{type_descriptor}
use hermas.Image.Value.{validate_representation, skip_levels, skip_children, representation_valid}
use hermas.Image.Validate.{validate, check_image}
use hermas.Image.Validate.Runs.{u16, u32, type_record, node_record, edge_record, workflow}

-- The ports of a delivery that was not sent and of an unknown outcome lead to each other's terminal.
swapped_run : validate (some (set (set workflow 230 5) 246 4)) 273 none ≡ (Image.ok, none)
unfolding check_header check_counts checked_table_end table_end check_offsets check_name
    contains_u16 contains_action_contract child_loop representation_child same_range
    same_representation child_matches check_errors check_contracts check_type check_types
    add_dispatch add_node check_nodes add_deadline next_each source_matches output_matches add_each
    add_saga_step add_saga_outcome add_region check_regions valid_dispatch_source valid_source
    valid_terminal valid_target count_target count_source check_edge add_edge check_edges mark_edge
    mark_pass mark_passes action_incomplete saga_incomplete dispatch_incomplete fork_incomplete
    join_incomplete check_node check_sagas check_each check_topology check_image validate for_range
    fold_range any_range type_descriptor validate_representation skip_levels skip_children
    representation_valid read_u16 read_u32 read_u64 valid_utf8
swapped_run = refl

-- The second input of the join comes from the Action behind it, so that the join waits for ever.
abbrev circle : List ℕ
circle =
    (72 ∷ 71 ∷ 73 ∷ 49 ∷ [])
    ++ u16 1
    ++ u16 80
    ++ u32 385
    ++ u32 0
    ++ u32 384
    ++ u16 1
    ++ u16 1
    ++ u16 1
    ++ u16 1
    ++ u16 1
    ++ u16 7
    ++ u16 11
    ++ u16 2
    ++ u32 80
    ++ u32 84
    ++ u32 120
    ++ u32 136
    ++ u32 192
    ++ u32 368
    ++ u32 384
    ++ u32 16
    ++ u16 0
    ++ u16 0
    ++ u32 368
    ++ u32 0
    ++ u16 2
    ++ u16 0
    ++ u16 11
    ++ u16 21
    ++ replicate 32 6
    ++ type_record 1 368
    ++ type_record 2 376
    ++ node_record 1 0 21 11
    ++ node_record 2 1 0 0
    ++ node_record 2 2 0 0
    ++ node_record 2 3 0 0
    ++ node_record 2 4 0 0
    ++ node_record 5 2 0 0
    ++ node_record 1 0 21 11
    ++ edge_record 0 0 1 1 1 1
    ++ edge_record 1 1 1 5 6 1
    ++ edge_record 2 1 2 2 3 2
    ++ edge_record 3 1 0 2 4 0
    ++ edge_record 4 1 0 2 5 0
    ++ edge_record 7 6 1 1 7 1
    ++ (1 ∷ 5 ∷ 0 ∷ 1 ∷ u16 7 ++ u16 6 ++ u16 1 ++ u16 1 ++ replicate 4 0)
    ++ edge_record 2 7 2 2 3 2
    ++ edge_record 3 7 0 2 4 0
    ++ edge_record 4 7 0 2 5 0
    ++ (7 ∷ 2 ∷ 0 ∷ 1 ∷ u16 6 ++ u16 2 ++ u16 1 ++ u16 1 ++ replicate 4 0)
    ++ (2 ∷ 0 ∷ 0 ∷ 0 ∷ 0 ∷ 0 ∷ 0 ∷ 0 ∷ [])
    ++ (4 ∷ 0 ∷ 0 ∷ 0 ∷ 5 ∷ 0 ∷ 0 ∷ 0 ∷ [])
    ++ (119 ∷ [])

circle_run : validate (some circle) 385 none ≡ (Image.ok, none)
unfolding check_header check_counts checked_table_end table_end check_offsets check_name
    contains_u16 contains_action_contract child_loop representation_child same_range
    same_representation child_matches check_errors check_contracts check_type check_types
    add_dispatch add_node check_nodes add_deadline next_each source_matches output_matches add_each
    add_saga_step add_saga_outcome add_region check_regions valid_dispatch_source valid_source
    valid_terminal valid_target count_target count_source check_edge add_edge check_edges mark_edge
    mark_pass mark_passes action_incomplete saga_incomplete dispatch_incomplete fork_incomplete
    join_incomplete check_node check_sagas check_each check_topology check_image validate for_range
    fold_range any_range type_descriptor validate_representation skip_levels skip_children
    representation_valid read_u16 read_u32 read_u64 valid_utf8
circle_run = refl

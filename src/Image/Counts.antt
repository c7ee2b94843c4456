-- ===== src/Image/Counts.antt =====
-- How many edges go in and out of a node of a graph image: the loop over the edges in
-- `hermas_image_validate` of src/image.c.
use hermas.Base.{
  ℕ, ◌+◌, ◌*◌, ◌%◌, ◌^◌, Bool, true, false, not, ◌&&◌, ◌||◌, List, ltb, ◌==◌, ◌!=◌, if◌then◌else◌,
}
use hermas.Base.Check.{Check, pass, ◌>>=◌, ◌>>◌, refuse}
use hermas.Base.Loops.{for_range, any_range}
use hermas.Bytes.{read_u16}
use hermas.Image.{ImageResult, invalid_record, invalid_topology, duplicate_record}
use hermas.Image.Tables.{Header}
use hermas.Image.Records.{Table, put, Nodes}
use hermas.Image.Regions.{Regions}
use hermas.Image.Edges.{Edge, edge_at, valid_source, valid_target, valid_presentation, same_ends}

-- The arrays on the edges: counters of 8 bits by node, by node and tag, or by each-region.
pub record Counts : Type 0 where
  pub input_counts : Table ℕ
  pub success_counts : Table ℕ
  pub error_counts : Table ℕ
  pub not_sent_counts : Table ℕ
  pub unknown_counts : Table ℕ
  pub dispatch_case_counts : Table (Table ℕ)
  pub fork_branch_counts : Table (Table ℕ)
  pub join_input_counts : Table (Table ℕ)
  pub join_output_counts : Table (Table ℕ)
  pub join_input_types : Table (Table ℕ)
  pub join_output_types : Table (Table ℕ)
  pub each_input_counts : Table ℕ
  pub each_collect_counts : Table ℕ
  pub each_item_counts : Table ℕ
  pub each_output_counts : Table ℕ
  pub action_success_type : Table ℕ
  pub reachable : Table Bool
  pub workflow_input_count : ℕ

abbrev no_tags : Table (Table ℕ)
no_tags node tag = 0

abbrev pub no_edges : Counts
no_edges = record {
  input_counts = λ _. 0;
  success_counts = λ _. 0;
  error_counts = λ _. 0;
  not_sent_counts = λ _. 0;
  unknown_counts = λ _. 0;
  dispatch_case_counts = no_tags;
  fork_branch_counts = no_tags;
  join_input_counts = no_tags;
  join_output_counts = no_tags;
  join_input_types = no_tags;
  join_output_types = no_tags;
  each_input_counts = λ _. 0;
  each_collect_counts = λ _. 0;
  each_item_counts = λ _. 0;
  each_output_counts = λ _. 0;
  action_success_type = λ _. 0;
  reachable = λ _. false;
  workflow_input_count = 0;
}

-- `++counts[index]`
abbrev pub bump : Table ℕ → ℕ → Table ℕ
bump counts index = put counts index ((counts index + 1) % 2 ^ 8)

abbrev pub put_tag : Table (Table ℕ) → ℕ → ℕ → ℕ → Table (Table ℕ)
put_tag table node tag value = put table node (put (table node) tag value)

abbrev pub bump_tag : Table (Table ℕ) → ℕ → ℕ → Table (Table ℕ)
bump_tag counts node tag = put counts node (bump (counts node) tag)

-- The counters at the target of an edge.
unfoldable pub count_target : Edge → Counts → Check ImageResult Counts
count_target e s =
    let n = e.target_node in
    let input = bump s.input_counts n in
    let joined = bump_tag s.join_input_counts n e.case_tag in
    let each_input = bump s.each_input_counts n in
    let collected = bump s.each_collect_counts n in
    if e.target_kind == 1 || e.target_kind == 3 || e.target_kind == 4
    then (do refuse (ltb 1 (input n)) invalid_topology; pass (record s { input_counts = input }))
    else if e.target_kind == 5
    then (do
      refuse (ltb 1 (joined n e.case_tag)) invalid_topology
      pass (record s {
        join_input_counts = joined;
        join_input_types = put_tag s.join_input_types n e.case_tag e.target_type;
      }))
    else if e.target_kind == 6
    then (do
      refuse (ltb 1 (each_input n)) invalid_topology
      pass (record s { each_input_counts = each_input }))
    else if e.target_kind == 7
    then (do
      refuse (ltb 1 (collected n)) invalid_topology
      pass (record s { each_collect_counts = collected }))
    else pass s

-- The node that the workflow's input reaches, 0 for none.
abbrev pub input_target : Regions → Edge → ℕ
input_target regions e =
    if e.target_kind == 6
    then regions.each_template e.target_node
    else if e.target_kind == 7
    then 0
    else e.target_node

-- The counters at the source of an edge.
unfoldable pub count_source : Regions → Edge → Counts → Check ImageResult Counts
count_source regions e s =
    let n = e.source_node in
    let target = input_target regions e in
    let cases = bump_tag s.dispatch_case_counts n e.case_tag in
    let branches = bump_tag s.fork_branch_counts n e.case_tag in
    let outputs = bump_tag s.join_output_counts n e.case_tag in
    let items = bump s.each_item_counts n in
    let each_outputs = bump s.each_output_counts n in
    if e.source_kind == 0
    then pass (record s {
      workflow_input_count = s.workflow_input_count + 1;
      reachable = if target != 0 then put s.reachable target true else s.reachable;
    })
    else if e.source_kind == 1
    then pass (record s {
      success_counts = bump s.success_counts n;
      action_success_type = put s.action_success_type n e.source_type;
    })
    else if e.source_kind == 2
    then pass (record s { error_counts = bump s.error_counts n })
    else if e.source_kind == 3
    then pass (record s { not_sent_counts = bump s.not_sent_counts n })
    else if e.source_kind == 4
    then pass (record s { unknown_counts = bump s.unknown_counts n })
    else if e.source_kind == 5
    then (do
      refuse (ltb 1 (cases n e.case_tag)) invalid_topology
      pass (record s { dispatch_case_counts = cases }))
    else if e.source_kind == 6
    then (do
      refuse (ltb 1 (branches n e.case_tag)) invalid_topology
      pass (record s { fork_branch_counts = branches }))
    else if e.source_kind == 7
    then (do
      refuse (ltb 1 (outputs n e.case_tag)) invalid_topology
      pass (record s {
        join_output_counts = outputs;
        join_output_types = put_tag s.join_output_types n e.case_tag e.source_type;
      }))
    else if e.source_kind == 8
    then (do
      refuse (ltb 1 (items n)) invalid_topology
      pass (record s { each_item_counts = items }))
    else (do
      refuse (ltb 1 (each_outputs n)) invalid_topology
      pass (record s { each_output_counts = each_outputs }))

abbrev pub edge_offset : Header → ℕ → ℕ
edge_offset h index = h.edges_offset + index * 16

module _ (bytes : List ℕ) (h : Header) (nodes : Nodes) (regions : Regions) where
  -- The guards on one edge.
  unfoldable pub check_edge : ℕ → Check ImageResult (Unit {0})
  check_edge index =
      let e = edge_at bytes (edge_offset h index) in
      do
        refuse
            (not (valid_source bytes h nodes regions e)
              || not (valid_target bytes h nodes regions e)
              || not (valid_presentation e)
              || (e.source_kind != 5
                  && e.source_kind != 6
                  && e.source_kind != 7
                  && e.source_kind != 8
                  && e.source_kind != 9
                  && e.target_kind != 5
                  && e.case_tag != 0)
              || read_u16 bytes (edge_offset h index + 14) != 0)
            invalid_record
        refuse (any_range (λ prior. same_ends e (edge_at bytes (edge_offset h prior))) index 0)
            duplicate_record

  -- One round of the loop over the edges.
  unfoldable pub add_edge : ℕ → Counts → Check ImageResult Counts
  add_edge index s =
      check_edge index
      >> (count_target (edge_at bytes (edge_offset h index)) s
          >>= count_source regions (edge_at bytes (edge_offset h index)))

  unfoldable pub check_edges : Check ImageResult Counts
  check_edges = do
    s ← for_range add_edge h.edge_count 0 no_edges
    refuse (s.workflow_input_count != 1) invalid_topology
    pass s

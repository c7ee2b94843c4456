-- ===== src/Image/Topology.antt =====
-- The last checks of `hermas_image_validate` of src/image.c: every node has the edges it needs, and
-- the input reaches every node.
use hermas.Base.{
  ℕ, zero, suc, ◌+◌, Bool, true, false, not, ◌&&◌, ◌||◌, List, ltb, ◌==◌, ◌!=◌, if◌then◌else◌,
}
use hermas.Base.Check.{Check, ◌>>◌, refuse}
use hermas.Base.Loops.{for_range, fold_range, any_range}
use hermas.Image.{ImageResult, invalid_topology}
use hermas.Image.Tables.{Header}
use hermas.Image.Records.{Table, put, Nodes}
use hermas.Image.Regions.{Regions}
use hermas.Image.Edges.{Edge, edge_at}
use hermas.Image.Counts.{edge_offset, Counts}

-- The state of one pass of the reachability loop.
pub record Marks : Type 0 where
  pub reachable : Table Bool
  pub changed : Bool

-- The node at which an edge starts or ends in the graph of nodes, 0 for none.
abbrev pub graph_source : Regions → Edge → ℕ
graph_source regions e =
    if e.source_kind == 8
    then 0
    else if e.source_kind == 9
    then regions.each_template e.source_node
    else e.source_node

abbrev pub graph_target : Regions → Edge → ℕ
graph_target regions e =
    if e.target_kind == 6
    then regions.each_template e.target_node
    else if e.target_kind == 7
    then 0
    else e.target_node

-- The edge leads from a marked node to one that is not marked.
abbrev pub spreads : Regions → Table Bool → Edge → Bool
spreads regions reachable e =
    e.source_kind != 0
    && graph_source regions e != 0
    && graph_target regions e != 0
    && reachable (graph_source regions e)
    && not (reachable (graph_target regions e))

unfoldable pub mark_edge : Regions → Edge → Marks → Marks
mark_edge regions e s =
    if spreads regions s.reachable e
    then record { reachable = put s.reachable (graph_target regions e) true; changed = true }
    else s

module _ (bytes : List ℕ) (h : Header) (regions : Regions) where
  unfoldable pub mark_pass : Table Bool → Marks
  mark_pass reachable =
      fold_range (λ index s. mark_edge regions (edge_at bytes (edge_offset h index)) s) h.edge_count
        0 (record { reachable = reachable; changed = false })

  -- The passes that are left.
  unfoldable pub mark_passes : ℕ → Table Bool → Table Bool
  mark_passes zero reachable = reachable
  mark_passes (suc passes) reachable =
      let s = mark_pass reachable in
      let rest = mark_passes passes s.reachable in if s.changed then rest else s.reachable

-- The guards on one node.
module _ (nodes : Nodes) (regions : Regions) (s : Counts) where
  unfoldable pub action_incomplete : ℕ → Bool
  action_incomplete node =
      s.input_counts node != 1
      || s.success_counts node != 1
      || s.error_counts node != 1
      || s.not_sent_counts node != 1
      || s.unknown_counts node != 1

  unfoldable pub saga_incomplete : ℕ → Bool
  saga_incomplete node =
      regions.saga_source_type node == 0
      || regions.saga_success_type node == 0
      || regions.saga_error_type node == 0
      || regions.saga_source_type node != s.action_success_type node

  unfoldable pub dispatch_incomplete : ℕ → Bool
  dispatch_incomplete node =
      s.input_counts node != 1
      || any_range (λ tag. s.dispatch_case_counts node tag != 1) (nodes.dispatch_cases node) 0

  unfoldable pub fork_incomplete : ℕ → Bool
  fork_incomplete node =
      s.input_counts node != 1
      || any_range (λ tag. s.fork_branch_counts node tag != 1) (nodes.fork_branches node) 0

  unfoldable pub join_incomplete : ℕ → Bool
  join_incomplete node =
      any_range
        (λ tag.
          s.join_input_counts node tag != 1
          || ltb 1 (s.join_output_counts node tag)
          || (s.join_output_counts node tag == 1
              && s.join_input_types node tag != s.join_output_types node tag))
        (nodes.join_branches node) 0
      || fold_range (λ tag used. used + s.join_output_counts node tag) (nodes.join_branches node) 0
          0
        == 0

  unfoldable pub check_node : ℕ → Check ImageResult (Unit {0})
  check_node node = do
    refuse (nodes.action_nodes node && action_incomplete node) invalid_topology
    refuse (nodes.action_nodes node && regions.saga_count != 0 && saga_incomplete node)
        invalid_topology
    refuse (nodes.dispatch_types node != 0 && dispatch_incomplete node) invalid_topology
    refuse (nodes.fork_types node != 0 && fork_incomplete node) invalid_topology
    refuse (nodes.join_branches node != 0 && join_incomplete node) invalid_topology

  abbrev count_actions : ℕ → ℕ
  count_actions node_count =
      fold_range (λ node count. if nodes.action_nodes node then count + 1 else count) node_count 1 0

  unfoldable pub check_sagas : ℕ → Check ImageResult (Unit {0})
  check_sagas node_count =
      refuse
        (regions.saga_count != 0
          && (regions.saga_count != count_actions node_count
              || regions.saga_outcome_count != regions.saga_count))
        invalid_topology

  unfoldable pub check_each : Check ImageResult (Unit {0})
  check_each =
      refuse
        (any_range
          (λ region.
            s.each_input_counts region != 1
            || s.each_collect_counts region != 1
            || s.each_item_counts region != 1
            || s.each_output_counts region != 1)
          regions.each_count 1)
        invalid_topology

-- What is checked after the edges.
unfoldable pub check_topology :
    List ℕ → Header → Nodes → Regions → Counts → Check ImageResult (Unit {0})
check_topology bytes h nodes regions s = do
  for_range (λ node _. check_node nodes regions s node) h.node_count 1 tt
  check_sagas nodes regions s h.node_count
  check_each nodes regions s
  refuse
      (any_range (λ node. not (mark_passes bytes h regions h.node_count s.reachable node))
        h.node_count 1)
      invalid_topology

-- ===== src/Image/Edges.antt =====
-- The edges of a graph image and which of them may be, in `hermas_image_validate` of src/image.c.
use hermas.Base.{
  ℕ, ◌+◌, Bool, true, false, not, ◌&&◌, ◌||◌, List, ltb, leb, ◌==◌, ◌!=◌, if◌then◌else◌,
}
use hermas.Bytes.{byte_at, read_u16}
use hermas.Image.Tables.{Header, contains_u16, has_type, child_matches}
use hermas.Image.Records.{Nodes}
use hermas.Image.Regions.{Regions}

pub record Edge : Type 0 where
  pub source_kind : ℕ
  pub target_kind : ℕ
  pub flags : ℕ
  pub case_tag : ℕ
  pub source_node : ℕ
  pub target_node : ℕ
  pub source_type : ℕ
  pub target_type : ℕ
  pub presentation : ℕ

abbrev pub edge_at : List ℕ → ℕ → Edge
edge_at bytes offset = record {
  source_kind = byte_at bytes offset;
  target_kind = byte_at bytes (offset + 1);
  flags = byte_at bytes (offset + 2);
  case_tag = byte_at bytes (offset + 3);
  source_node = read_u16 bytes (offset + 4);
  target_node = read_u16 bytes (offset + 6);
  source_type = read_u16 bytes (offset + 8);
  target_type = read_u16 bytes (offset + 10);
  presentation = read_u16 bytes (offset + 12);
}

module _ (bytes : List ℕ) (h : Header) (nodes : Nodes) (regions : Regions) where
  unfoldable pub valid_dispatch_source : Edge → Bool
  valid_dispatch_source e =
      e.source_kind == 5
      && leb e.source_node h.node_count
      && nodes.dispatch_types e.source_node != 0
      && ltb e.case_tag (nodes.dispatch_cases e.source_node)
      && child_matches bytes h (λ _. true) (nodes.dispatch_types e.source_node) e.case_tag
          e.source_type

  unfoldable pub valid_source : Edge → Bool
  valid_source e =
      (e.source_kind == 0
        && e.source_node == 0
        && e.source_type == h.input_type
        && has_type bytes h e.source_type)
      || ((e.source_kind == 1 || e.source_kind == 2)
          && leb e.source_node h.node_count
          && nodes.action_nodes e.source_node
          && has_type bytes h e.source_type)
      || ((e.source_kind == 3 || e.source_kind == 4)
          && leb e.source_node h.node_count
          && nodes.action_nodes e.source_node
          && e.source_type == 0
          && e.target_type == 0)
      || valid_dispatch_source e
      || (e.source_kind == 6
          && leb e.source_node h.node_count
          && nodes.fork_types e.source_node != 0
          && ltb e.case_tag (nodes.fork_branches e.source_node)
          && e.source_type == nodes.fork_types e.source_node)
      || (e.source_kind == 7
          && leb e.source_node h.node_count
          && nodes.join_branches e.source_node != 0
          && ltb e.case_tag (nodes.join_branches e.source_node)
          && has_type bytes h e.source_type)
      || (e.source_kind == 8
          && ltb 0 e.source_node
          && leb e.source_node regions.each_count
          && e.case_tag == 0
          && e.source_type == regions.each_item_input e.source_node)
      || (e.source_kind == 9
          && ltb 0 e.source_node
          && leb e.source_node regions.each_count
          && e.case_tag == 0
          && e.source_type == regions.each_collected e.source_node)

  unfoldable pub valid_terminal : Edge → Bool
  valid_terminal e =
      let terminal = nodes.terminal_nodes e.target_node in
      (terminal == 1 && e.target_type == h.success_type)
      || (terminal == 2 && contains_u16 bytes h.errors_offset h.error_count 2 e.target_type)
      || ((terminal == 3 || terminal == 4) && e.target_type == 0)

  unfoldable pub valid_target : Edge → Bool
  valid_target e =
      if not (ltb 0 e.target_node && leb e.target_node h.node_count)
      then false
      else if e.target_kind == 1
      then nodes.action_nodes e.target_node && has_type bytes h e.target_type
      else if e.target_kind == 2
      then valid_terminal e
      else if e.target_kind == 3
      then nodes.dispatch_types e.target_node != 0
        && e.target_type == nodes.dispatch_types e.target_node
      else if e.target_kind == 4
      then nodes.fork_types e.target_node != 0 && e.target_type == nodes.fork_types e.target_node
      else if e.target_kind == 5
      then nodes.join_branches e.target_node != 0
        && ltb e.case_tag (nodes.join_branches e.target_node)
        && has_type bytes h e.target_type
      else if e.target_kind == 6
      then leb e.target_node regions.each_count
        && e.target_type == regions.each_source_list e.target_node
        && e.case_tag == 0
      else if e.target_kind == 7
      then leb e.target_node regions.each_count
        && e.target_type == regions.each_item_output e.target_node
        && e.case_tag == 0
      else false

abbrev pub valid_presentation : Edge → Bool
valid_presentation e =
    (e.flags == 0 && e.presentation == 0) || (e.flags == 1 && e.presentation == e.target_type)

abbrev pub same_ends : Edge → Edge → Bool
same_ends e previous =
    e.source_kind == previous.source_kind
    && e.source_node == previous.source_node
    && e.case_tag == previous.case_tag
    && e.target_kind == previous.target_kind
    && e.target_node == previous.target_node

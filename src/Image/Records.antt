-- ===== src/Image/Records.antt =====
-- The errors, the contracts, the types and the nodes of a graph image: loops of
-- `hermas_image_validate` of src/image.c.
use hermas.Base.{
  ℕ, ◌+◌, ◌*◌, Bool, true, false, not, ◌&&◌, ◌||◌, none, some, List, ltb, leb, ◌==◌, ◌!=◌,
  if◌then◌else◌,
}
use hermas.Base.Check.{Check, fail, pass, ◌>>=◌, ◌>>◌, refuse}
use hermas.Base.Loops.{for_range, any_range}
use hermas.Bytes.{byte_at, read_u16, read_u32}
use hermas.Image.{ImageResult, duplicate_record, invalid_record, invalid_topology}
use hermas.Image.Value.{validate_representation}
use hermas.Image.Tables.{
  Header, max_edges, max_all_branches, contains_action_contract, has_type, descriptor_in,
}

-- An array of the stack frame: all its indices are checked before they are used.
abbrev pub Table : Type 0 → Type 0
Table A = ℕ → A

abbrev pub put : {A : Type 0} → Table A → ℕ → A → Table A
put table index value = λ other. if other == index then value else table other

module _ (bytes : List ℕ) (h : Header) where
  abbrev pub error_at : ℕ → ℕ
  error_at index = read_u16 bytes (h.errors_offset + index * 2)

  unfoldable pub check_errors : Check ImageResult (Unit {0})
  check_errors =
      for_range
        (λ left s. do
          refuse (error_at left == 0) duplicate_record
          refuse (any_range (λ right. error_at left == error_at right) left 0) duplicate_record)
        h.error_count 0 tt

  abbrev contract_at : ℕ → ℕ
  contract_at index = h.action_contracts_offset + index * 36

  unfoldable pub check_contracts : Check ImageResult (Unit {0})
  check_contracts =
      for_range
        (λ left s.
          let app = read_u16 bytes (contract_at left) in
          let action = read_u16 bytes (contract_at left + 2) in
          do
            refuse (app == 0 || action == 0) invalid_record
            refuse
                (any_range
                  (λ right.
                    app == read_u16 bytes (contract_at right)
                    && action == read_u16 bytes (contract_at right + 2))
                  left 0)
                invalid_record)
        h.action_contract_count 0 tt

  abbrev pub type_at : ℕ → ℕ
  type_at index = h.types_offset + index * 8

  -- Any failure of a representation is an invalid record here.
  abbrev pub as_record : Check ImageResult ℕ → Check ImageResult ℕ
  as_record (fail code) = fail invalid_record
  as_record (pass cursor) = pass cursor

  -- One round: the cursor of the representations goes past that of the type.
  unfoldable pub check_type : ℕ → ℕ → Check ImageResult ℕ
  check_type left cursor =
      let type_id = read_u16 bytes (type_at left) in
      do
        refuse
            (type_id == 0
              || read_u16 bytes (type_at left + 2) != 0
              || read_u32 bytes (type_at left + 4) != cursor)
            invalid_record
        refuse (any_range (λ right. type_id == read_u16 bytes (type_at right)) left 0)
            invalid_record
        as_record (validate_representation bytes h.strings_offset cursor 0)

  unfoldable pub check_types : Check ImageResult (Unit {0})
  check_types = do
    cursor ← for_range check_type h.type_count 0 h.representations_offset
    refuse
        (cursor != h.strings_offset
          || not (has_type bytes h h.input_type)
          || not (has_type bytes h h.success_type))
        invalid_record
    for_range (λ index s. refuse (not (has_type bytes h (error_at index))) invalid_record)
        h.error_count 0 tt

-- The arrays on the nodes, by the number of a node, from 1.
pub record Nodes : Type 0 where
  pub action_nodes : Table Bool
  pub dispatch_types : Table ℕ
  pub dispatch_cases : Table ℕ
  pub fork_types : Table ℕ
  pub fork_branches : Table ℕ
  pub join_branches : Table ℕ
  pub terminal_nodes : Table ℕ
  pub terminal_kinds : Table Bool

abbrev pub no_nodes : Nodes
no_nodes = record {
  action_nodes = λ _. false;
  dispatch_types = λ _. 0;
  dispatch_cases = λ _. 0;
  fork_types = λ _. 0;
  fork_branches = λ _. 0;
  join_branches = λ _. 0;
  terminal_nodes = λ _. 0;
  terminal_kinds = λ _. false;
}

module _ (bytes : List ℕ) (h : Header) where
  abbrev pub node_at : ℕ → ℕ
  node_at index = h.nodes_offset + index * 8

  -- A dispatch on a type, which must be a variant of a few cases.
  unfoldable pub add_dispatch : Nodes → ℕ → ℕ → Check ImageResult Nodes
  add_dispatch s node type_id = elim (descriptor_in bytes h type_id) [
    | none ↦ fail invalid_record
    | some (start, end) ↦ do
      refuse (byte_at bytes start != 8 || ltb max_edges (read_u16 bytes (start + 2))) invalid_record
      pass (record s {
        dispatch_types = put s.dispatch_types node type_id;
        dispatch_cases = put s.dispatch_cases node (read_u16 bytes (start + 2));
      })
  ]

  -- One round of the loop over the nodes.
  unfoldable pub add_node : ℕ → Nodes → Check ImageResult Nodes
  add_node index s =
      let offset = node_at index in
      let kind = byte_at bytes offset in
      let subtype = byte_at bytes (offset + 1) in
      let action = read_u16 bytes (offset + 2) in
      let app = read_u16 bytes (offset + 4) in
      let reserved = read_u16 bytes (offset + 6) in
      let node = index + 1 in
      if kind == 1
        && subtype == 0
        && action != 0
        && reserved == 0
        && contains_action_contract bytes h.action_contracts_offset h.action_contract_count app
            action
      then pass (record s { action_nodes = put s.action_nodes node true })
      else if kind == 3 && subtype == 0 && action != 0 && app == 0 && reserved == 0
      then add_dispatch s node action
      else if kind == 4
          && leb 2 subtype
          && leb subtype max_all_branches
          && action != 0
          && app == 0
          && reserved == 0
          && has_type bytes h action
      then pass (record s {
        fork_types = put s.fork_types node action;
        fork_branches = put s.fork_branches node subtype;
      })
      else if kind == 5
          && leb 2 subtype
          && leb subtype max_all_branches
          && action == 0
          && app == 0
          && reserved == 0
      then pass (record s { join_branches = put s.join_branches node subtype })
      else if kind == 2
          && leb 1 subtype
          && leb subtype 4
          && action == 0
          && app == 0
          && reserved == 0
          && not (s.terminal_kinds subtype)
      then pass (record s {
        terminal_kinds = put s.terminal_kinds subtype true;
        terminal_nodes = put s.terminal_nodes node subtype;
      })
      else fail invalid_record

  unfoldable pub check_nodes : Check ImageResult Nodes
  check_nodes = do
    s ← for_range add_node h.node_count 0 no_nodes
    refuse
        (not (s.terminal_kinds 1)
          || not (s.terminal_kinds 2)
          || not (s.terminal_kinds 3)
          || not (s.terminal_kinds 4))
        invalid_topology
    pass s

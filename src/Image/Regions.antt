-- ===== src/Image/Regions.antt =====
-- The regions of a graph image: deadlines, each-regions, saga steps and their outcomes, a loop of
-- `hermas_image_validate` of src/image.c.
use hermas.Base.{
  ℕ, ◌+◌, ◌-◌, ◌*◌, ◌%◌, ◌^◌, Bool, not, ◌&&◌, ◌||◌, List, ltb, leb, ◌==◌, ◌!=◌, if◌then◌else◌,
}
use hermas.Base.Check.{Check, fail, pass, ◌>>◌, refuse}
use hermas.Base.Loops.{for_range}
use hermas.Bytes.{byte_at, read_u16, read_u32, read_u64}
use hermas.Image.{ImageResult, invalid_record}
use hermas.Image.Tables.{
  Header, max_all_branches, contains_action_contract, has_type, same_representation, child_matches,
}
use hermas.Image.Records.{Table, put, Nodes}

-- The arrays on the regions, by the number of a deadline from 0, of an each-region from 1, and of a
-- node.
pub record Regions : Type 0 where
  pub deadline_first : Table ℕ
  pub deadline_last : Table ℕ
  pub deadline_count : ℕ
  pub each_count : ℕ
  pub each_template : Table ℕ
  pub each_source_list : Table ℕ
  pub each_item_input : Table ℕ
  pub each_item_output : Table ℕ
  pub each_collected : Table ℕ
  pub each_bound : Table ℕ
  pub each_concurrency : Table ℕ
  pub saga_count : ℕ
  pub saga_outcome_count : ℕ
  pub last_saga_forward : ℕ
  pub saga_source_type : Table ℕ
  pub saga_success_type : Table ℕ
  pub saga_error_type : Table ℕ

abbrev pub no_regions : Regions
no_regions = record {
  deadline_first = λ _. 0;
  deadline_last = λ _. 0;
  deadline_count = 0;
  each_count = 0;
  each_template = λ _. 0;
  each_source_list = λ _. 0;
  each_item_input = λ _. 0;
  each_item_output = λ _. 0;
  each_collected = λ _. 0;
  each_bound = λ _. 0;
  each_concurrency = λ _. 0;
  saga_count = 0;
  saga_outcome_count = 0;
  last_saga_forward = 0;
  saga_source_type = λ _. 0;
  saga_success_type = λ _. 0;
  saga_error_type = λ _. 0;
}

module _ (bytes : List ℕ) (h : Header) (nodes : Nodes) where
  -- `last` is a `size_t`.
  unfoldable pub add_deadline : ℕ → Regions → Check ImageResult Regions
  add_deadline offset s =
      let first = read_u16 bytes (offset + 2) in
      let count = read_u16 bytes (offset + 4) in
      let parent = read_u16 bytes (offset + 6) in
      let last = (first + count + (2 ^ 64 - 1)) % 2 ^ 64 in
      let within_parent =
        parent == 0
        || (leb parent s.deadline_count
            && leb (s.deadline_first (parent - 1)) first
            && leb last (s.deadline_last (parent - 1))) in
      do
        refuse
            (leb 8 s.deadline_count
              || s.each_count != 0
              || s.saga_count != 0
              || byte_at bytes (offset + 1) != 0
              || first == 0
              || count == 0
              || ltb h.node_count last
              || ltb s.deadline_count parent
              || not within_parent
              || (s.deadline_count == 0 && (first != 1 || count != h.node_count || parent != 0))
              || read_u64 bytes (offset + 8) == 0)
            invalid_record
        pass (record s {
          deadline_first = put s.deadline_first s.deadline_count first;
          deadline_last = put s.deadline_last s.deadline_count (last % 2 ^ 16);
          deadline_count = s.deadline_count + 1;
        })

  -- The next each-region with the fields of its record.
  unfoldable pub next_each : ℕ → Regions → Regions
  next_each offset s =
      let id = s.each_count + 1 in
      record s {
        each_count = id;
        each_concurrency = put s.each_concurrency id (byte_at bytes (offset + 1));
        each_template = put s.each_template id (read_u16 bytes (offset + 2));
        each_source_list = put s.each_source_list id (read_u16 bytes (offset + 4));
        each_item_input = put s.each_item_input id (read_u16 bytes (offset + 6));
        each_item_output = put s.each_item_output id (read_u16 bytes (offset + 8));
        each_collected = put s.each_collected id (read_u16 bytes (offset + 10));
        each_bound = put s.each_bound id (read_u16 bytes (offset + 12));
      }

  unfoldable pub source_matches : Regions → ℕ → Bool
  source_matches s id =
      child_matches bytes h
        (λ start. byte_at bytes start == 7 && read_u32 bytes (start + 4) == s.each_bound id)
        (s.each_source_list id) 0 (s.each_item_input id)

  unfoldable pub output_matches : Regions → ℕ → Bool
  output_matches s id =
      child_matches bytes h
        (λ start. byte_at bytes start == 7 && leb (s.each_bound id) (read_u32 bytes (start + 4)))
        (s.each_collected id) 0 (s.each_item_output id)

  unfoldable pub add_each : ℕ → Regions → Check ImageResult Regions
  add_each offset before =
      let s = next_each offset before in
      let id = s.each_count in
      do
        refuse (leb 8 before.each_count || before.saga_count != 0) invalid_record
        refuse
            (s.each_concurrency id == 0
              || ltb max_all_branches (s.each_concurrency id)
              || ltb (s.each_bound id) (s.each_concurrency id)
              || s.each_template id == 0
              || ltb h.node_count (s.each_template id)
              || not (nodes.action_nodes (s.each_template id))
              || not (source_matches s id)
              || not (output_matches s id)
              || read_u16 bytes (offset + 14) != 0)
            invalid_record
        pass s

  unfoldable pub add_saga_step : ℕ → Regions → Check ImageResult Regions
  add_saga_step offset s =
      let forward = read_u16 bytes (offset + 2) in
      let compensation_app = read_u16 bytes (offset + 4) in
      let compensation_action = read_u16 bytes (offset + 6) in
      let source_type = read_u16 bytes (offset + 8) in
      let destination_type = read_u16 bytes (offset + 10) in
      let ordinal = read_u16 bytes (offset + 12) in
      do
        refuse
            (byte_at bytes (offset + 1) != 0
              || forward == 0
              || ltb h.node_count forward
              || not (nodes.action_nodes forward)
              || compensation_app == 0
              || compensation_action == 0
              || not (
                  contains_action_contract bytes h.action_contracts_offset h.action_contract_count
                    compensation_app compensation_action)
              || ordinal != s.saga_count + 1
              || s.saga_source_type forward != 0
              || not (same_representation bytes h source_type destination_type)
              || read_u16 bytes (offset + 14) != 0)
            invalid_record
        pass (record s {
          saga_source_type = put s.saga_source_type forward source_type;
          last_saga_forward = forward;
          saga_count = s.saga_count + 1;
        })

  unfoldable pub add_saga_outcome : ℕ → Regions → Check ImageResult Regions
  add_saga_outcome offset s =
      let forward = read_u16 bytes (offset + 2) in
      let success_type = read_u16 bytes (offset + 4) in
      let error_type = read_u16 bytes (offset + 6) in
      do
        refuse
            (byte_at bytes (offset + 1) != 0
              || forward == 0
              || ltb h.node_count forward
              || s.saga_source_type forward == 0
              || s.saga_count != s.saga_outcome_count + 1
              || forward != s.last_saga_forward
              || s.saga_success_type forward != 0
              || not (has_type bytes h success_type)
              || not (has_type bytes h error_type)
              || read_u64 bytes (offset + 8) != 0)
            invalid_record
        pass (record s {
          saga_success_type = put s.saga_success_type forward success_type;
          saga_error_type = put s.saga_error_type forward error_type;
          saga_outcome_count = s.saga_outcome_count + 1;
        })

  abbrev region_at : ℕ → ℕ
  region_at index = h.regions_offset + index * 16

  -- One round of the loop over the regions.
  unfoldable pub add_region : ℕ → Regions → Check ImageResult Regions
  add_region index s =
      let kind = byte_at bytes (region_at index) in
      if kind == 1
      then add_deadline (region_at index) s
      else if kind == 2
      then add_each (region_at index) s
      else if kind == 3
      then add_saga_step (region_at index) s
      else if kind == 4
      then add_saga_outcome (region_at index) s
      else fail invalid_record

  unfoldable pub check_regions : Check ImageResult Regions
  check_regions = for_range add_region h.region_count 0 no_regions

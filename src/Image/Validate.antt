-- ===== src/Image/Validate.antt =====
-- `hermas_image_validate` of src/image.c.
pub mod Tables
pub mod Steps
pub mod Counted
pub mod Actions
pub mod Reached
pub mod Types
pub mod Runs
mod Odd
use hermas.Base.{ℕ, List, Option, none, some, take, drop, not}
use hermas.Base.Check.{Check, fail, pass, ◌>>=◌, ◌>>◌, refuse}
use hermas.Image.{ImageResult, Summary, Verifier, ok, truncated, is_ok}
use hermas.Image.Value as Value
use hermas.Image.Tables.{Header, header_of, check_header, check_counts, check_offsets, check_name}
use hermas.Image.Records.{Nodes, check_errors, check_contracts, check_types, check_nodes}
use hermas.Image.Regions.{Regions, check_regions}
use hermas.Image.Counts.{Counts, check_edges}
use hermas.Image.Topology.{check_topology}

-- What the checks find out about an accepted image.
pub record Graph : Type 0 where
  pub nodes : Nodes
  pub regions : Regions
  pub counts : Counts

-- The checks in the order of the source, on an image and its size.
unfoldable pub check_image : List ℕ → ℕ → Check ImageResult Graph
check_image bytes size =
    let h = header_of bytes in
    do
      check_header bytes size
      check_counts h
      check_offsets h size
      check_name bytes h
      check_errors bytes h
      check_contracts bytes h
      check_types bytes h
      nodes ← check_nodes bytes h
      regions ← check_regions bytes h nodes
      counts ← check_edges bytes h nodes regions
      check_topology bytes h nodes regions counts
      pass (record { nodes = nodes; regions = regions; counts = counts })

abbrev pub summary_of : List ℕ → Summary
summary_of bytes =
    let h = header_of bytes in
    record {
      workflow_name = some (drop h.name_offset bytes);
      workflow_name_length = h.name_length;
      input_type = h.input_type;
      success_type = h.success_type;
      error_count = h.error_count;
      action_contract_count = h.action_contract_count;
      type_count = h.type_count;
      node_count = h.node_count;
      edge_count = h.edge_count;
    }

abbrev validate_outputs :
    List ℕ → Check ImageResult Graph → Option Summary → ImageResult × Option Summary
validate_outputs bytes (fail code) summary = (code, summary)
validate_outputs bytes (pass graph) none = (ok, none)
validate_outputs bytes (pass graph) (some summary) = (ok, some (summary_of bytes))

-- Null pointers are `none`. The code, and `*summary` after the call.
unfoldable pub validate : Option (List ℕ) → ℕ → Option Summary → ImageResult × Option Summary
validate none size summary = (truncated, summary)
validate (some bytes) size summary = validate_outputs bytes (check_image bytes size) summary

abbrev received : Summary → ImageResult × Option Summary → ImageResult × Summary
received before (code, none) = (code, before)
received before (code, some summary) = (code, summary)

-- The verifier that the clients call; `before` is the memory of their summary before the call.
abbrev pub verifier : Summary → Verifier
verifier before = record {
  validate = λ bytes size. received before (validate (some bytes) size (some before));
  validate_value = Value.validate_value (λ bytes size. is_ok (validate (some bytes) size none).0);
}

-- ===== src/Image.antt =====
-- include/hermas/image.h: what the other components call of the graph-image verifier.
pub mod Utf8
pub mod Value
pub mod Items
pub mod Lookup
pub mod Tables
pub mod Records
pub mod Regions
pub mod Edges
pub mod Counts
pub mod Topology
pub mod Validate
mod Runs
use hermas.Base.{ℕ, Bool, true, false, Option, List}

pub data ImageResult : Type 0 where
  ok truncated bad_magic unsupported_version invalid_header invalid_offset invalid_count :
      ImageResult
  invalid_string invalid_record duplicate_record invalid_topology invalid_value : ImageResult
  action_not_found : ImageResult

abbrev pub is_ok : ImageResult → Bool
is_ok ok = true
is_ok _ = false

-- `hermas_image_summary`; `workflow_name` is the memory from the pointer on.
pub record Summary : Type 0 where
  pub workflow_name : Option (List ℕ)
  pub workflow_name_length : ℕ
  pub input_type : ℕ
  pub success_type : ℕ
  pub error_count : ℕ
  pub action_contract_count : ℕ
  pub type_count : ℕ
  pub node_count : ℕ
  pub edge_count : ℕ

-- The verifier as its clients call it: `hermas_image_validate` on an image and its size, with the
-- summary it writes, and `hermas_image_validate_value` on an image, its size, a type, the payload
-- and the payload's size.
pub record Verifier : Type 0 where
  pub validate : List ℕ → ℕ → ImageResult × Summary
  pub validate_value : List ℕ → ℕ → ℕ → Option (List ℕ) → ℕ → ImageResult

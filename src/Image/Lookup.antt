-- ===== src/Image/Lookup.antt =====
-- `hermas_image_features`, `hermas_image_describe_type`, `hermas_image_action_fingerprint` and
-- `hermas_image_find_action_contract` of src/image.c.
use Prim.Native.Nat.{bit_or}
use hermas.Base.{
  ℕ, zero, suc, ◌+◌, ◌%◌, ◌^◌, Bool, not, ◌&&◌, ◌||◌, Option, none, some, List, take, drop, ◌==◌,
  ◌!=◌, if◌then◌else◌,
}
use hermas.Base.Check.{Check, fail, pass, ◌>>=◌, ◌>>◌, refuse}
use hermas.Bytes.{byte_at, read_u16, read_u32, same_bytes}
use hermas.Image.{
  ImageResult, invalid_value, invalid_record, invalid_topology, action_not_found, is_ok,
}
use hermas.Image.Items.{descriptor_of}

abbrev feature_action : ℕ
feature_action = 1

abbrev feature_match : ℕ
feature_match = 2

abbrev feature_within : ℕ
feature_within = 4

abbrev feature_saga : ℕ
feature_saga = 8

abbrev feature_all : ℕ
feature_all = 16

abbrev feature_each : ℕ
feature_each = 32

-- The feature that a node of a kind requires, 0 for none.
unfoldable pub node_feature : ℕ → ℕ
node_feature kind =
    if kind == 1
    then feature_action
    else if kind == 3
    then feature_match
    else if kind == 4 || kind == 5
    then feature_all
    else 0

unfoldable pub region_feature : ℕ → ℕ
region_feature kind =
    if kind == 1
    then feature_within
    else if kind == 2
    then feature_each
    else if kind == 3 || kind == 4
    then feature_saga
    else 0

-- The features of the records that are left, of a size, from an offset on.
unfoldable pub required_loop : (ℕ → ℕ) → List ℕ → ℕ → ℕ → ℕ → ℕ → ℕ
required_loop feature image size zero offset required = required
required_loop feature image size (suc rounds) offset required =
    required_loop feature image size rounds (offset + size)
      (bit_or required (feature (byte_at image offset)))

unfoldable pub required_features : List ℕ → ℕ
unfolding required_loop
required_features image =
    required_loop region_feature image 16 (read_u16 image 68) (read_u32 image 72)
      (required_loop node_feature image 8 (read_u16 image 30) (read_u32 image 48) 0)

-- `validate` is the code of `hermas_image_validate`.
abbrev validated : ImageResult → Check ImageResult (Unit {0})
validated code = if is_ok code then pass tt else fail code

module _ (validate : List ℕ → ℕ → ImageResult) where
  -- What is written to `*features`; `present` says that the pointer is not null.
  unfoldable pub features : List ℕ → ℕ → Bool → Check ImageResult ℕ
  unfolding required_features
  features image image_size present = do
    refuse (not present) invalid_value
    validated (validate image image_size)
    pass (required_features image)

  -- The kind and the bound that are written to `*summary`.
  unfoldable pub describe_type : List ℕ → ℕ → ℕ → Bool → Check ImageResult (ℕ × ℕ)
  describe_type image image_size type_id present = do
    refuse (not present) invalid_value
    validated (validate image image_size)
    elim (descriptor_of image type_id) [
      | none ↦ fail invalid_value
      | some (descriptor, _) ↦ pass (byte_at image descriptor, read_u32 image (descriptor + 4))
    ]

-- The record of an Action's contract, among those that are left.
unfoldable pub find_contract : List ℕ → ℕ → ℕ → ℕ → ℕ → Option ℕ
find_contract image app_id action_id zero offset = none
find_contract image app_id action_id (suc rounds) offset =
    let rest = find_contract image app_id action_id rounds (offset + 36) in
    if read_u16 image offset == app_id && read_u16 image (offset + 2) == action_id
    then some offset
    else rest

module _ (validate : List ℕ → ℕ → ImageResult) where
  -- The 32 bytes that are written to `fingerprint`; `present` says that the pointer is not null.
  unfoldable pub action_fingerprint : List ℕ → ℕ → ℕ → ℕ → Bool → Check ImageResult (List ℕ)
  unfolding find_contract
  action_fingerprint image image_size app_id action_id present = do
    refuse (app_id == 0 || action_id == 0 || not present) invalid_value
    validated (validate image image_size)
    elim (find_contract image app_id action_id (read_u16 image 28) (read_u32 image 40)) [
      | none ↦ fail action_not_found
      | some r ↦ pass (take 32 (drop (r + 4) image))
    ]

-- `hermas_image_action_contract`
pub record Contract : Type 0 where
  pub app_id : ℕ
  pub action_id : ℕ
  pub input_type : ℕ
  pub success_type : ℕ
  pub error_type : ℕ
  pub fingerprint : List ℕ

-- The one contract with the fingerprint, among the records that are left after those that did or
-- did not match.
unfoldable pub match_contract :
    List ℕ → List ℕ → ℕ → ℕ → Option Contract → Check ImageResult (Option Contract)
match_contract image fingerprint zero offset found = pass found
match_contract image fingerprint (suc rounds) offset found =
    let next =
      if same_bytes image (offset + 4) fingerprint
      then elim found [
        | some _ ↦ fail invalid_record
        | none ↦ pass (
            some (record {
              app_id = read_u16 image offset;
              action_id = read_u16 image (offset + 2);
              input_type = 0;
              success_type = 0;
              error_type = 0;
              fingerprint = fingerprint;
            }))
      ]
      else pass found in
    do found' ← next; match_contract image fingerprint rounds (offset + 36) found'

-- `assign_contract_type`: the slot after the call, to fail is the return of `false`.
unfoldable pub assign_contract_type : ℕ → ℕ → Check ImageResult ℕ
assign_contract_type slot value =
    if value == 0
    then fail invalid_topology
    else if slot == 0
    then pass value
    else if slot == value
    then pass slot
    else fail invalid_topology

-- The types of one place where the Action stands.
pub record Ports : Type 0 where
  pub input : ℕ
  pub success : ℕ
  pub error : ℕ

unfoldable pub assign_ports : Contract → Ports → Check ImageResult Contract
unfolding assign_contract_type
assign_ports c p = do
  input_type ← assign_contract_type c.input_type p.input
  success_type ← assign_contract_type c.success_type p.success
  error_type ← assign_contract_type c.error_type p.error
  pass (record c { input_type = input_type; success_type = success_type; error_type = error_type })

-- The types at the edges of a node, from the edges that are left; later edges overwrite.
unfoldable pub node_ports : List ℕ → ℕ → ℕ → ℕ → Ports → Ports
node_ports image node zero edge p = p
node_ports image node (suc rounds) edge p =
    let p1 =
      if byte_at image (edge + 1) == 1 && read_u16 image (edge + 6) == node
      then record p { input = read_u16 image (edge + 10) }
      else p in
    let p2 =
      if read_u16 image (edge + 4) == node
      then (if byte_at image edge == 1
          then record p1 { success = read_u16 image (edge + 8) }
          else if byte_at image edge == 2
          then record p1 { error = read_u16 image (edge + 8) }
          else p1)
      else p1 in
    node_ports image node rounds (edge + 16) p2

abbrev no_ports : Ports
no_ports = record { input = 0; success = 0; error = 0 }

-- The nodes that are left, the first of them with a number, on 16 bits.
unfoldable pub assign_nodes : List ℕ → ℕ → ℕ → ℕ → Contract → Check ImageResult Contract
unfolding node_ports assign_ports
assign_nodes image zero node offset c = pass c
assign_nodes image (suc rounds) node offset c =
    let next =
      if byte_at image offset != 1
        || read_u16 image (offset + 2) != c.action_id
        || read_u16 image (offset + 4) != c.app_id
      then pass c
      else assign_ports c
          (node_ports image (node % 2 ^ 16) (read_u16 image 32) (read_u32 image 52) no_ports) in
    do c' ← next; assign_nodes image rounds (node + 1) (offset + 8) c'

-- The types of the outcome region of a forward node, among the regions that are left.
unfoldable pub outcome_ports : List ℕ → ℕ → ℕ → ℕ → ℕ → Ports
outcome_ports image forward input zero offset = record { input = input; success = 0; error = 0 }
outcome_ports image forward input (suc rounds) offset =
    let rest = outcome_ports image forward input rounds (offset + 16) in
    if byte_at image offset == 4 && read_u16 image (offset + 2) == forward
    then record {
      input = input;
      success = read_u16 image (offset + 4);
      error = read_u16 image (offset + 6);
    }
    else rest

-- The regions that are left: the Action as the compensation of a step.
unfoldable pub assign_regions : List ℕ → ℕ → ℕ → Contract → Check ImageResult Contract
unfolding outcome_ports assign_ports
assign_regions image zero offset c = pass c
assign_regions image (suc rounds) offset c =
    let next =
      if byte_at image offset != 3
        || read_u16 image (offset + 4) != c.app_id
        || read_u16 image (offset + 6) != c.action_id
      then pass c
      else assign_ports c (
          outcome_ports image (read_u16 image (offset + 2)) (read_u16 image (offset + 10))
            (read_u16 image 68) (read_u32 image 72)) in
    do c' ← next; assign_regions image rounds (offset + 16) c'

module _ (validate : List ℕ → ℕ → ImageResult) where
  -- The contract that is written to `*contract`; `present` says that the pointers are not null.
  unfoldable pub find_action_contract : List ℕ → ℕ → List ℕ → Bool → Check ImageResult Contract
  unfolding match_contract assign_nodes assign_regions
  find_action_contract image image_size fingerprint present = do
    refuse (not present) invalid_value
    validated (validate image image_size)
    matched ← match_contract image fingerprint (read_u16 image 28) (read_u32 image 40) none
    found ← elim matched [ none ↦ fail action_not_found | some c ↦ pass c ]
    at_nodes ← assign_nodes image (read_u16 image 30) 1 (read_u32 image 48) found
    c ← assign_regions image (read_u16 image 68) (read_u32 image 72) at_nodes
    refuse (c.input_type == 0 || c.success_type == 0 || c.error_type == 0) invalid_topology
    pass c

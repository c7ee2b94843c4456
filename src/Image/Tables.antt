-- ===== src/Image/Tables.antt =====
-- The header of a graph image and the tables behind it: the helpers and the first checks of
-- `hermas_image_validate` of src/image.c.
use hermas.Base.{
  ℕ, ◌+◌, ◌-◌, ◌*◌, ◌/◌, ◌%◌, ◌^◌, Bool, false, not, ◌&&◌, ◌||◌, Option, none, some, List, [], ◌∷◌,
  take, drop, ltb, leb, ◌==◌, ◌!=◌, if◌then◌else◌, zero, suc,
}
use hermas.Base.Check.{Check, fail, pass, ◌>>=◌, ◌>>◌, refuse}
use hermas.Base.Loops.{any_range}
use hermas.Bytes.{read_u16, read_u32, same_bytes}
use hermas.Image.{
  ImageResult, truncated, invalid_header, bad_magic, unsupported_version, invalid_count,
  invalid_offset, invalid_string,
}
use hermas.Image.Utf8.{valid_utf8}
use hermas.Image.Value.{validate_representation}
use hermas.Image.Items.{type_descriptor}

abbrev pub image_header_size : ℕ
image_header_size = 80

abbrev pub max_image_size : ℕ
max_image_size = 1024 * 1024

abbrev pub max_nodes : ℕ
max_nodes = 64

abbrev pub max_action_contracts : ℕ
max_action_contracts = 80

abbrev pub max_edges : ℕ
max_edges = 192

abbrev pub max_errors : ℕ
max_errors = 256

abbrev pub max_all_branches : ℕ
max_all_branches = 8

-- The local variables of `hermas_image_validate` that it reads from the header.
pub record Header : Type 0 where
  pub name_offset : ℕ
  pub name_length : ℕ
  pub input_type : ℕ
  pub success_type : ℕ
  pub error_count : ℕ
  pub action_contract_count : ℕ
  pub node_count : ℕ
  pub edge_count : ℕ
  pub type_count : ℕ
  pub region_count : ℕ
  pub errors_offset : ℕ
  pub action_contracts_offset : ℕ
  pub types_offset : ℕ
  pub nodes_offset : ℕ
  pub edges_offset : ℕ
  pub representations_offset : ℕ
  pub strings_offset : ℕ
  pub representations_length : ℕ
  pub regions_offset : ℕ

abbrev pub header_of : List ℕ → Header
header_of bytes = record {
  name_offset = read_u32 bytes 16;
  name_length = read_u16 bytes 20;
  input_type = read_u16 bytes 22;
  success_type = read_u16 bytes 24;
  error_count = read_u16 bytes 26;
  action_contract_count = read_u16 bytes 28;
  node_count = read_u16 bytes 30;
  edge_count = read_u16 bytes 32;
  type_count = read_u16 bytes 34;
  region_count = read_u16 bytes 68;
  errors_offset = read_u32 bytes 36;
  action_contracts_offset = read_u32 bytes 40;
  types_offset = read_u32 bytes 44;
  nodes_offset = read_u32 bytes 48;
  edges_offset = read_u32 bytes 52;
  representations_offset = read_u32 bytes 56;
  strings_offset = read_u32 bytes 60;
  representations_length = read_u32 bytes 64;
  regions_offset = read_u32 bytes 72;
}

-- The guards on the first 80 bytes.
unfoldable pub check_header : List ℕ → ℕ → Check ImageResult (Unit {0})
check_header bytes size = do
  refuse (ltb size image_header_size) truncated
  refuse (ltb max_image_size size) invalid_header
  refuse (not (same_bytes bytes 0 (0x48 ∷ 0x47 ∷ 0x49 ∷ 0x31 ∷ []))) bad_magic
  refuse (read_u16 bytes 4 != 1) unsupported_version
  refuse
      (read_u16 bytes 6 != image_header_size
        || ltb (2 ^ 32 - 1) size
        || read_u32 bytes 8 != size % 2 ^ 32
        || read_u32 bytes 12 != 0
        || read_u16 bytes 70 != 0
        || read_u32 bytes 76 != 0)
      invalid_header

unfoldable pub check_counts : Header → Check ImageResult (Unit {0})
check_counts h =
    refuse
      (h.input_type == 0
        || h.success_type == 0
        || h.error_count == 0
        || ltb max_errors h.error_count
        || h.action_contract_count == 0
        || ltb max_action_contracts h.action_contract_count
        || h.type_count == 0
        || ltb max_errors h.type_count
        || ltb max_nodes h.node_count
        || ltb max_edges h.edge_count
        || ltb 40 h.region_count)
      invalid_count

unfoldable pub checked_table_end : ℕ → ℕ → ℕ → Option ℕ
checked_table_end offset count record_size =
    if ltb ((2 ^ 64 - 1 - offset) / record_size) count
    then none
    else some (offset + count * record_size)

-- To fail is the return of the one code for the offsets.
unfoldable pub table_end : ℕ → ℕ → ℕ → Check ImageResult ℕ
table_end offset count record_size = elim (checked_table_end offset count record_size) [
  | none ↦ fail invalid_offset
  | some end ↦ pass end
]

-- The offset of the contracts: the end of the errors, up to a multiple of 4.
abbrev pub contracts_start : Header → ℕ
contracts_start h = (image_header_size + h.error_count * 2 + 3) / 4 * 4

unfoldable pub check_offsets : Header → ℕ → Check ImageResult (Unit {0})
check_offsets h size = do
  expected_types ← table_end (contracts_start h) h.action_contract_count 36
  expected_nodes ← table_end expected_types h.type_count 8
  expected_edges ← table_end expected_nodes h.node_count 8
  expected_regions ← table_end expected_edges h.edge_count 16
  expected_strings ← table_end expected_regions h.region_count 16
  refuse
      (ltb (2 ^ 64 - 1 - expected_strings) h.representations_length
        || h.errors_offset != image_header_size
        || h.action_contracts_offset != contracts_start h
        || h.types_offset != expected_types
        || h.nodes_offset != expected_nodes
        || h.edges_offset != expected_edges
        || h.regions_offset != expected_regions
        || h.representations_offset != expected_strings
        || h.strings_offset != expected_strings + h.representations_length
        || h.name_offset != h.strings_offset
        || ltb size h.name_offset
        || h.name_length != size - h.name_offset)
      invalid_offset

unfoldable pub check_name : List ℕ → Header → Check ImageResult (Unit {0})
check_name bytes h =
    refuse (h.name_length == 0 || not (valid_utf8 (take h.name_length (drop h.name_offset bytes))))
      invalid_string

unfoldable pub contains_u16 : List ℕ → ℕ → ℕ → ℕ → ℕ → Bool
contains_u16 bytes offset count stride value =
    any_range (λ index. read_u16 bytes (offset + index * stride) == value) count 0

unfoldable pub contains_action_contract : List ℕ → ℕ → ℕ → ℕ → ℕ → Bool
contains_action_contract bytes offset count app action =
    any_range
      (λ index.
        read_u16 bytes (offset + index * 36) == app
        && read_u16 bytes (offset + index * 36 + 2) == action)
      count 0

-- The start and the end of a child, among the children that are left.
unfoldable pub child_loop : List ℕ → ℕ → ℕ → ℕ → ℕ → ℕ → Option (ℕ × ℕ)
child_loop bytes descriptor_end child_index zero index cursor = none
child_loop bytes descriptor_end child_index (suc rounds) index cursor =
    elim (validate_representation bytes descriptor_end cursor 1) [
      | fail code ↦ none
      | pass next ↦
          let rest = child_loop bytes descriptor_end child_index rounds (index + 1) next in
          if index == child_index then some (cursor, next) else rest
    ]

unfoldable pub representation_child : List ℕ → ℕ → ℕ → ℕ → Option (ℕ × ℕ)
representation_child bytes descriptor descriptor_end child_index =
    if leb (read_u16 bytes (descriptor + 2)) child_index
    then none
    else child_loop bytes descriptor_end child_index (read_u16 bytes (descriptor + 2)) 0
        (descriptor + 8)

-- The number of bytes of a range, a `size_t`.
abbrev span : ℕ × ℕ → ℕ
span (start, end) = (end + 2 ^ 64 - start) % 2 ^ 64

-- Two ranges hold the same bytes.
unfoldable pub same_range : List ℕ → ℕ × ℕ → ℕ × ℕ → Bool
same_range bytes (start, end) (start', end') =
    span (start, end) == span (start', end')
    && same_bytes bytes start (take (span (start, end)) (drop start' bytes))

-- A type of the table.
abbrev pub has_type : List ℕ → Header → ℕ → Bool
has_type bytes h type_id = contains_u16 bytes h.types_offset h.type_count 8 type_id

abbrev pub descriptor_in : List ℕ → Header → ℕ → Option (ℕ × ℕ)
descriptor_in bytes h type_id =
    type_descriptor bytes h.strings_offset type_id h.type_count h.types_offset

-- Two types have the same representation.
unfoldable pub same_representation : List ℕ → Header → ℕ → ℕ → Bool
same_representation bytes h source destination = elim (descriptor_in bytes h source) [
  | none ↦ false
  | some range ↦ elim (descriptor_in bytes h destination) [
    | none ↦ false
    | some range' ↦ same_range bytes range range'
  ]
]

-- A child of one type has the representation of another; `holds` is the test of the parent's
-- representation.
unfoldable pub child_matches : List ℕ → Header → (ℕ → Bool) → ℕ → ℕ → ℕ → Bool
child_matches bytes h holds parent child_index item = elim (descriptor_in bytes h parent) [
  | none ↦ false
  | some (start, end) ↦ elim (descriptor_in bytes h item) [
    | none ↦ false
    | some range ↦ holds start && elim (representation_child bytes start end child_index) [
      | none ↦ false
      | some child ↦ same_range bytes child range
    ]
  ]
]

-- ===== src/Image/Validate/Tables.antt =====
-- Where the tables lie in an image that `hermas_image_validate` of src/image.c accepts.
use hermas.Base.{
  ℕ, ◌+◌, ◌-◌, ◌*◌, ◌/◌, ◌^◌, ◌≤◌, ◌≡◌, sym, ◌∙◌, inl, inr, arith, Bool, false, ◌||◌, Option, some,
  List, ltb, ◌!=◌, Bool-cases, Option-cases,
}
use hermas.Base.Check.{Check, pass}
use hermas.Image.{ImageResult, truncated, invalid_header}
use hermas.Image.Value.Skips.{bind-pass, guard-pass, refuse-pass}
use hermas.Image.Tables.{
  Header, header_of, check_header, check_counts, check_offsets, checked_table_end, table_end,
  contracts_start, max_image_size, max_nodes, max_edges,
}
use hermas.Image.Validate.{Graph, check_image}
use hermas.Image.Validate.Steps.{check_image-Accepted}

-- The tables follow each other without a gap, from the header to the workflow's name, which ends
-- where the image does; the errors are padded to a multiple of 4.
pub record Laid (h : Header) (size : ℕ) : Type 0 where
  pub errors : h.errors_offset ≡ 80
  pub contracts : h.action_contracts_offset ≡ (80 + h.error_count * 2 + 3) / 4 * 4
  pub types : h.types_offset ≡ h.action_contracts_offset + h.action_contract_count * 36
  pub nodes : h.nodes_offset ≡ h.types_offset + h.type_count * 8
  pub edges : h.edges_offset ≡ h.nodes_offset + h.node_count * 8
  pub regions : h.regions_offset ≡ h.edges_offset + h.edge_count * 16
  pub representations : h.representations_offset ≡ h.regions_offset + h.region_count * 16
  pub strings : h.strings_offset ≡ h.representations_offset + h.representations_length
  pub name : h.name_offset ≡ h.strings_offset
  pub end : h.name_offset + h.name_length ≡ size
  pub small : size ≤ max_image_size
  pub few_nodes : h.node_count ≤ max_nodes
  pub few_edges : h.edge_count ≤ max_edges

checked_table_end-some :
    (offset count record_size end : ℕ)
    → checked_table_end offset count record_size ≡ some end
    → end ≡ offset + count * record_size
unfolding checked_table_end
checked_table_end-some offset count record_size end h =
    elim (Bool-cases (ltb ((2 ^ 64 - 1 - offset) / record_size) count)) [
      | inl large ↦ absurd (let stuck = rw large at h in cc)
      | inr fits ↦
          let e : Path (Option ℕ) (some (offset + count * record_size)) (some end) = rw fits at h in
          cc
    ]

table_end-pass :
    (offset count record_size end : ℕ)
    → table_end offset count record_size ≡ pass end
    → end ≡ offset + count * record_size
unfolding table_end
table_end-pass offset count record_size end h =
    elim (Option-cases (checked_table_end offset count record_size)) [
      | inl none_left ↦ absurd (let stuck = rw (none_left, table_end) at h in cc)
      | inr (found, e) ↦
          let same : Path (Check ImageResult ℕ) (pass found) (pass end) = rw (e, table_end) at h in
          let same' : found ≡ end = cc in
          sym same' ∙ checked_table_end-some offset count record_size found e
    ]

-- The guards of `check_offsets`, with the ends that it expects.
module _ (h : Header) (size : ℕ) (types nodes edges regions strings : ℕ) where
  abbrev misplaced : Bool
  misplaced =
      ltb (2 ^ 64 - 1 - strings) h.representations_length
      || h.errors_offset != 80
      || h.action_contracts_offset != contracts_start h
      || h.types_offset != types
      || h.nodes_offset != nodes
      || h.edges_offset != edges
      || h.regions_offset != regions
      || h.representations_offset != strings
      || h.strings_offset != strings + h.representations_length
      || h.name_offset != h.strings_offset
      || ltb size h.name_offset
      || h.name_length != size - h.name_offset

  placed :
      misplaced ≡ false
      → (h.errors_offset ≡ 80)
        × (h.action_contracts_offset ≡ contracts_start h)
        × (h.types_offset ≡ types)
        × (h.nodes_offset ≡ nodes)
        × (h.edges_offset ≡ edges)
        × (h.regions_offset ≡ regions)
        × (h.representations_offset ≡ strings)
        × (h.strings_offset ≡ strings + h.representations_length)
        × (h.name_offset ≡ h.strings_offset)
        × (h.name_offset + h.name_length ≡ size)
  placed e = ground arith

counts-few :
    (h : Header)
    → check_counts h ≡ pass tt
    → (h.node_count ≤ max_nodes) × (h.edge_count ≤ max_edges)
unfolding check_counts
counts-few h e = let few = refuse-pass _ _ e in ground arith

header-small :
    (bytes : List ℕ) (size : ℕ) → check_header bytes size ≡ pass tt → size ≤ max_image_size
unfolding check_header
header-small bytes size e =
    let (_, e1) = guard-pass (ltb size 80) truncated _ tt e in
    let (small, _) = guard-pass (ltb max_image_size size) invalid_header _ tt e1 in ground arith

offsets-Laid :
    (h : Header) (size : ℕ)
    → check_offsets h size ≡ pass tt
    → size ≤ max_image_size
    → (h.node_count ≤ max_nodes) × (h.edge_count ≤ max_edges)
    → Laid h size
unfolding check_offsets
offsets-Laid h size e small few =
    let (types, found1, e1) =
      bind-pass (table_end (contracts_start h) h.action_contract_count 36) _ tt e in
    let (nodes, found2, e2) = bind-pass (table_end types h.type_count 8) _ tt e1 in
    let (edges, found3, e3) = bind-pass (table_end nodes h.node_count 8) _ tt e2 in
    let (regions, found4, e4) = bind-pass (table_end edges h.edge_count 16) _ tt e3 in
    let (strings, found5, e5) = bind-pass (table_end regions h.region_count 16) _ tt e4 in
    let (p0, p1, p2, p3, p4, p5, p6, p7, p8, p9) =
      placed h size types nodes edges regions strings (refuse-pass _ _ e5) in
    let s1 = table_end-pass (contracts_start h) h.action_contract_count 36 types found1 in
    let s2 = table_end-pass types h.type_count 8 nodes found2 in
    let s3 = table_end-pass nodes h.node_count 8 edges found3 in
    let s4 = table_end-pass edges h.edge_count 16 regions found4 in
    let s5 = table_end-pass regions h.region_count 16 strings found5 in
    record {
      errors = p0;
      contracts = p1;
      types = omega (arith, p1, p2, s1);
      nodes = omega (arith, p2, p3, s2);
      edges = omega (arith, p3, p4, s3);
      regions = omega (arith, p4, p5, s4);
      representations = omega (arith, p5, p6, s5);
      strings = omega (arith, p6, p7);
      name = p8;
      end = p9;
      small = small;
      few_nodes = few.0;
      few_edges = few.1;
    }

-- In an image that `hermas_image_validate` accepts the tables follow each other without a gap, from
-- the header's 80 bytes to the workflow's name, which ends where the image does: every record lies
-- inside the image. It has at most 1 MiB, 64 nodes and 192 edges.
pub check_image-Laid :
    (bytes : List ℕ) (size : ℕ) (g : Graph)
    → check_image bytes size ≡ pass g
    → Laid (header_of bytes) size
check_image-Laid bytes size g e =
    let a = check_image-Accepted bytes size g e in
    offsets-Laid (header_of bytes) size a.offsets (header-small bytes size a.header)
      (counts-few (header_of bytes) a.counts)

-- ===== src/Image/Validate/Steps.antt =====
-- An image that `hermas_image_validate` of src/image.c accepts has passed each of its checks.
use hermas.Base.{ℕ, ◌≡◌, List, subst}
use hermas.Base.Check.{pass}
use hermas.Image.Value.Skips.{bind-pass}
use hermas.Image.Tables.{header_of, check_header, check_counts, check_offsets, check_name}
use hermas.Image.Records.{check_errors, check_contracts, check_types, check_nodes}
use hermas.Image.Regions.{check_regions}
use hermas.Image.Counts.{check_edges}
use hermas.Image.Topology.{check_topology}
use hermas.Image.Validate.{Graph, check_image}

pub record Accepted (bytes : List ℕ) (size : ℕ) (g : Graph) : Type 0 where
  pub header : check_header bytes size ≡ pass tt
  pub counts : check_counts (header_of bytes) ≡ pass tt
  pub offsets : check_offsets (header_of bytes) size ≡ pass tt
  pub types : check_types bytes (header_of bytes) ≡ pass tt
  pub nodes : check_nodes bytes (header_of bytes) ≡ pass g.nodes
  pub regions : check_regions bytes (header_of bytes) g.nodes ≡ pass g.regions
  pub edges : check_edges bytes (header_of bytes) g.nodes g.regions ≡ pass g.counts
  pub topology : check_topology bytes (header_of bytes) g.nodes g.regions g.counts ≡ pass tt

pub check_image-Accepted :
    (bytes : List ℕ) (size : ℕ) (g : Graph)
    → check_image bytes size ≡ pass g
    → Accepted bytes size g
unfolding check_image
check_image-Accepted bytes size g h =
    let t = header_of bytes in
    let (_, header, h1) = bind-pass (check_header bytes size) _ g h in
    let (_, counts, h2) = bind-pass (check_counts t) _ g h1 in
    let (_, offsets, h3) = bind-pass (check_offsets t size) _ g h2 in
    let (_, name, h4) = bind-pass (check_name bytes t) _ g h3 in
    let (_, errors, h5) = bind-pass (check_errors bytes t) _ g h4 in
    let (_, contracts, h6) = bind-pass (check_contracts bytes t) _ g h5 in
    let (_, types, h7) = bind-pass (check_types bytes t) _ g h6 in
    let (nodes, found, h8) = bind-pass (check_nodes bytes t) _ g h7 in
    let (regions, found', h9) = bind-pass (check_regions bytes t nodes) _ g h8 in
    let (edges, found'', h10) = bind-pass (check_edges bytes t nodes regions) _ g h9 in
    let (_, topology, h11) = bind-pass (check_topology bytes t nodes regions edges) _ g h10 in
    let same : record { nodes = nodes; regions = regions; counts = edges } ≡ g = cc in
    subst (λ (x : Graph). Accepted bytes size x) same
      (record {
        header = header;
        counts = counts;
        offsets = offsets;
        types = types;
        nodes = found;
        regions = found';
        edges = found'';
        topology = topology;
      })

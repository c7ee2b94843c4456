-- ===== src/Execution/Ports.antt =====
-- The edges that src/runtime.c looks for in an image that src/image.c accepts.
use hermas.Base.{
  ℕ, zero, suc, ◌+◌, ◌*◌, ◌<◌, ◌≡◌, refl, inl, inr, arith, Bool, true, some, List, Bool-cases,
}
use hermas.Base.Check.{pass}
use hermas.Bytes.{byte_at}
use hermas.Image.Tables.{header_of}
use hermas.Image.Records.{node_at}
use hermas.Image.Edges.{valid_source, valid_target, edge_at}
use hermas.Image.Counts.{edge_offset}
use hermas.Image.Topology.{check_node}
use hermas.Image.Validate.{Graph, check_image}
use hermas.Image.Validate.Steps.{check_image-Accepted}
use hermas.Image.Validate.Counted.{Port, kind_of, Leaves, check_edges-Seen}
use hermas.Image.Validate.Actions.{
  for_range-each, check_node_complete, check_nodes-action, check_edge-valid, topology-nodes,
}
use hermas.Execution.{first_edge, find_edge, edge_matches}

-- The search of the runtime finds an edge that is there.
first_edge-found :
    (test : ℕ → Bool) (rounds offset j : ℕ)
    → j < rounds
    → test (offset + j * 16) ≡ true
    → (i : ℕ) × (i < rounds)
      × (first_edge test rounds offset ≡ some (offset + i * 16))
      × (test (offset + i * 16) ≡ true)
unfolding first_edge
first_edge-found test zero offset j low found = absurd (omega arith)
first_edge-found test (suc rounds) offset zero low found =
    let e : offset + 0 * 16 ≡ offset = omega arith in
    let here : test offset ≡ true = rw e at found in (0, omega arith, rw (here, e) refl, found)
first_edge-found test (suc rounds) offset (suc j) low found = elim (Bool-cases (test offset)) [
  | inl here ↦
      let e : offset + 0 * 16 ≡ offset = omega arith in
      (0, omega arith, rw (here, e) refl, rw e here)
  | inr passed ↦
      let e : offset + suc j * 16 ≡ offset + 16 + j * 16 = omega arith in
      let (i, low', first, holds) =
        first_edge-found test rounds (offset + 16) j (omega arith) (rw e at found) in
      let e' : offset + suc i * 16 ≡ offset + 16 + i * 16 = omega arith in
      (suc i, omega arith, rw (passed, first, e') refl, rw e' holds)
]

pub find_edge-Port :
    (bytes : List ℕ) (size : ℕ) (g : Graph) (i : ℕ) (port : Port)
    → check_image bytes size ≡ pass g
    → i < (header_of bytes).node_count
    → byte_at bytes (node_at bytes (header_of bytes) i) ≡ 1
    → (edge : ℕ) × (find_edge bytes (kind_of port) (i + 1) ≡ some edge)
      × ((edge_at bytes edge).source_kind ≡ kind_of port)
      × (valid_source bytes (header_of bytes) g.nodes g.regions (edge_at bytes edge) ≡ true)
      × (valid_target bytes (header_of bytes) g.nodes g.regions (edge_at bytes edge) ≡ true)
unfolding find_edge Leaves
find_edge-Port bytes size g i port e low kind =
    let h = header_of bytes in
    let a = check_image-Accepted bytes size g e in
    let seen = check_edges-Seen bytes h g.nodes g.regions g.counts a.edges in
    let noded = topology-nodes bytes h g.nodes g.regions g.counts a.topology in
    let passed =
      for_range-each (check_node g.nodes g.regions g.counts) 1 h.node_count (i + 1) noded
        (omega arith) (omega arith) in
    let once =
      check_node_complete g.nodes g.regions g.counts (i + 1) passed
        (check_nodes-action bytes h g.nodes i a.nodes low kind) port in
    let (j, among, kind', node) = seen.counted port (i + 1) (λ z. omega (arith, once, z)) in
    let (k, among', found, holds) =
      first_edge-found (edge_matches bytes (kind_of port) (i + 1)) h.edge_count h.edges_offset j
        among (ground (arith, kind', node)) in
    let (valid, valid') = check_edge-valid bytes h g.nodes g.regions k (seen.checked k among') in
    (edge_offset h k, found, ground (arith, holds), valid, valid')

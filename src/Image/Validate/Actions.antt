-- ===== src/Image/Validate/Actions.antt =====
-- The Action nodes of an image that src/image.c accepts: each is marked, and has all its edges.
use hermas.Base.{
  ℕ, ◌+◌, ◌≤◌, ◌<◌, ◌≡◌, refl, subst, subst⁻¹, inl, inr, arith, true, false, not, ◌&&◌, ◌||◌, List,
  ◌==◌, Bool-cases, Option-cases,
}
use hermas.Base.Check.{Check, pass, ◌>>◌, refuse}
use hermas.Base.Loops.{for_range, for_range-inv}
use hermas.Bytes.{byte_at, read_u16}
use hermas.Image.{invalid_topology}
use hermas.Image.Value.Skips.{bind-pass, guard-pass}
use hermas.Image.Tables.{Header, descriptor_in}
use hermas.Image.Records.{Nodes, no_nodes, node_at, add_dispatch, add_node, check_nodes}
use hermas.Image.Regions.{Regions}
use hermas.Image.Edges.{valid_source, valid_target, edge_at}
use hermas.Image.Counts.{edge_offset, Counts, check_edge}
use hermas.Image.Topology.{action_incomplete, check_node, check_topology}
use hermas.Image.Validate.Counted.{Port, success, app_error, not_sent, unknown, counts_of}

-- A loop that only checks has passed in each round.
pub for_range-each :
    {E : Type 0} (body : ℕ → Check E (Unit {0})) (first rounds j : ℕ)
    → for_range (λ i _. body i) rounds first tt ≡ pass tt
    → first ≤ j
    → j < first + rounds
    → body j ≡ pass tt
for_range-each body first rounds j h low high =
    for_range-inv (λ (i : ℕ) (_ : Unit {0}). (k : ℕ) → first ≤ k → k < i → body k ≡ pass tt)
      (λ i _. body i) (first + rounds)
      (λ i s s' end before passed k low' high'. elim (Bool-cases (k == i)) [
        | inl same ↦
            let k≡i : k ≡ i = ground arith in subst⁻¹ (λ (x : ℕ). body x ≡ pass tt) k≡i passed
        | inr other ↦ before k low' (ground arith)
      ])
      rounds first tt tt refl (λ k low' high'. absurd (omega arith)) h j low high

action_complete :
    (nodes : Nodes) (regions : Regions) (s : Counts) (node : ℕ) (port : Port)
    → action_incomplete nodes regions s node ≡ false
    → counts_of port s node ≡ 1
unfolding action_incomplete
action_complete nodes regions s node success h = ground arith
action_complete nodes regions s node app_error h = ground arith
action_complete nodes regions s node not_sent h = ground arith
action_complete nodes regions s node unknown h = ground arith

pub check_node_complete :
    (nodes : Nodes) (regions : Regions) (s : Counts) (node : ℕ)
    → check_node nodes regions s node ≡ pass tt
    → nodes.action_nodes node ≡ true
    → (port : Port) → counts_of port s node ≡ 1
unfolding check_node
check_node_complete nodes regions s node h action port =
    let (complete, _) =
      guard-pass (nodes.action_nodes node && action_incomplete nodes regions s node)
        invalid_topology _ tt h in
    action_complete nodes regions s node port (rw action at complete)

add_dispatch-same :
    (bytes : List ℕ) (h : Header) (s s' : Nodes) (node type_id : ℕ)
    → add_dispatch bytes h s node type_id ≡ pass s'
    → s'.action_nodes ≡ s.action_nodes
unfolding add_dispatch
add_dispatch-same bytes h s s' node type_id e =
    elim (Option-cases (descriptor_in bytes h type_id)) [
      | inl absent ↦ absurd (let stuck = rw (absent, add_dispatch) at e in cc)
      | inr ((start, end), found) ↦ let e' = rw (found, add_dispatch) at e in ground arith
    ]

-- A node of kind 1 is marked as an Action, and marks stay.
add_node-action :
    (bytes : List ℕ) (h : Header) (i : ℕ) (s s' : Nodes)
    → add_node bytes h i s ≡ pass s'
    → byte_at bytes (node_at bytes h i) ≡ 1
    → s'.action_nodes (i + 1) ≡ true
unfolding add_node
add_node-action bytes h i s s' e kind = ground arith

add_node-keeps :
    (bytes : List ℕ) (h : Header) (i n : ℕ) (s s' : Nodes)
    → add_node bytes h i s ≡ pass s'
    → s.action_nodes n ≡ true
    → s'.action_nodes n ≡ true
unfolding add_node
add_node-keeps bytes h i n s s' e marked =
    ground (arith, add_dispatch-same bytes h s s' (i + 1) (read_u16 bytes (node_at bytes h i + 2)))

pub check_nodes-action :
    (bytes : List ℕ) (h : Header) (nodes : Nodes) (i : ℕ)
    → check_nodes bytes h ≡ pass nodes
    → i < h.node_count
    → byte_at bytes (node_at bytes h i) ≡ 1
    → nodes.action_nodes (i + 1) ≡ true
unfolding check_nodes
check_nodes-action bytes h nodes i e low kind =
    let body = add_node bytes h in
    let missing = λ (s : Nodes).
      not (s.terminal_kinds 1)
      || not (s.terminal_kinds 2)
      || not (s.terminal_kinds 3)
      || not (s.terminal_kinds 4) in
    let (s, looped, e1) =
      bind-pass (for_range body h.node_count 0 no_nodes)
        (λ s. refuse (missing s) invalid_topology >> pass s) nodes e in
    let (_, e2) = guard-pass (missing s) invalid_topology (pass s) nodes e1 in
    let same : s ≡ nodes = cc in
    let marked =
      for_range-inv
        (λ (j : ℕ) (t : Nodes).
          (k : ℕ) → k < j → byte_at bytes (node_at bytes h k) ≡ 1 → t.action_nodes (k + 1) ≡ true)
        body h.node_count
        (λ j t t' end before passed k low' kind'. elim (Bool-cases (k == j)) [
          | inl now ↦
              let k≡j : k ≡ j = ground arith in
              subst⁻¹ (λ (x : ℕ). t'.action_nodes (x + 1) ≡ true) k≡j
                (add_node-action bytes h j t t' passed
                  (subst (λ (x : ℕ). byte_at bytes (node_at bytes h x) ≡ 1) k≡j kind'))
          | inr earlier ↦
              add_node-keeps bytes h j (k + 1) t t' passed (before k (ground arith) kind')
        ])
        h.node_count 0 no_nodes s (omega arith) (λ k none_yet _. absurd (omega arith)) looped in
    subst (λ (t : Nodes). t.action_nodes (i + 1) ≡ true) same (marked i low kind)

pub check_edge-valid :
    (bytes : List ℕ) (h : Header) (nodes : Nodes) (regions : Regions) (i : ℕ)
    → check_edge bytes h nodes regions i ≡ pass tt
    → (valid_source bytes h nodes regions (edge_at bytes (edge_offset h i)) ≡ true)
      × (valid_target bytes h nodes regions (edge_at bytes (edge_offset h i)) ≡ true)
unfolding check_edge
check_edge-valid bytes h nodes regions i e =
    elim (Bool-cases (valid_source bytes h nodes regions (edge_at bytes (edge_offset h i)))) [
      | inr bad ↦ absurd (let stuck = rw (bad, check_edge) at e in cc)
      | inl good ↦
          elim (Bool-cases (valid_target bytes h nodes regions (edge_at bytes (edge_offset h i)))) [
            | inr bad ↦ absurd (let stuck = rw (good, bad, check_edge) at e in cc)
            | inl good' ↦ (good, good')
          ]
    ]

-- Each node has passed.
pub topology-nodes :
    (bytes : List ℕ) (h : Header) (nodes : Nodes) (regions : Regions) (s : Counts)
    → check_topology bytes h nodes regions s ≡ pass tt
    → for_range (λ node _. check_node nodes regions s node) h.node_count 1 tt ≡ pass tt
unfolding check_topology
topology-nodes bytes h nodes regions s e =
    let (_, passed, _) =
      bind-pass (for_range (λ node _. check_node nodes regions s node) h.node_count 1 tt) _ tt e in
    passed

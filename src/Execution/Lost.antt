-- ===== src/Execution/Lost.antt =====
-- A delivery that src/runtime.c marks as not sent or unknown, in an image that src/image.c accepts.
use hermas.Base.{
  ℕ, ◌+◌, ◌<◌, ◌≡◌, ◌≢◌, ◌⊎◌, refl, ap, ◌∙◌, subst, inl, inr, arith, Bool, true, false, some, List,
  ◌==◌, Bool-cases,
}
use hermas.Base.Check.{pass}
use hermas.Base.Loops.{for_range, for_range-inv, any_range-true}
use hermas.Bytes.{byte_at, read_u16}
use hermas.Image.{Verifier}
use hermas.Image.Value.Skips.{bind-pass}
use hermas.Image.Tables.{Header, header_of, contains_u16, has_type}
use hermas.Image.Records.{type_at, node_at, check_type, check_types}
use hermas.Image.Records.{Nodes}
use hermas.Image.Regions.{Regions}
use hermas.Image.Edges.{Edge, edge_at, valid_source, valid_dispatch_source, valid_target}
use hermas.Image.Validate.{Graph, check_image}
use hermas.Image.Validate.Steps.{check_image-Accepted}
use hermas.Image.Validate.Counted.{Port, not_sent, unknown, kind_of}
use hermas.Execution.{
  Execution, ExecutionState, complete, ok, find_edge, target_kind, finish_at, follow_edge,
  enter_with, enter_edge, finish_delivery_outcome,
}
use hermas.Execution.Ports.{find_edge-Port}

check_type-named :
    (bytes : List ℕ) (h : Header) (i c c' : ℕ)
    → check_type bytes h i c ≡ pass c'
    → read_u16 bytes (type_at bytes h i) ≢ 0
unfolding check_type
check_type-named bytes h i c c' e z = absurd (let stuck = rw (z, check_type) at e in cc)

-- No type has the number 0.
check_types-named :
    (bytes : List ℕ) (h : Header) → check_types bytes h ≡ pass tt → has_type bytes h 0 ≡ false
unfolding check_types contains_u16
check_types-named bytes h e = elim (Bool-cases (has_type bytes h 0)) [
  | inr absent ↦ absent
  | inl found ↦
      let (cursor, looped, _) =
        bind-pass (for_range (check_type bytes h) h.type_count 0 h.representations_offset) _ tt e in
      let (j, _, low, zero_id) =
        any_range-true (λ index. read_u16 bytes (type_at bytes h index) == 0) h.type_count 0
          found in
      let named =
        for_range-inv (λ (i _ : ℕ). (k : ℕ) → k < i → read_u16 bytes (type_at bytes h k) ≢ 0)
          (check_type bytes h) h.type_count
          (λ i c c' _ before passed k k<. elim (Bool-cases (k == i)) [
            | inl same ↦
                let i≡k : i ≡ k = ground arith in
                subst (λ (x : ℕ). read_u16 bytes (type_at bytes h x) ≢ 0) i≡k
                  (check_type-named bytes h i c c' passed)
            | inr other ↦ before k (ground arith)
          ])
          h.type_count 0 h.representations_offset cursor (omega arith)
          (λ k early. absurd (omega (arith, early))) looped j (omega (arith, low)) in
      absurd (named (ground (arith, zero_id)))
]

-- An edge for a delivery that failed carries no type.
valid_source-untyped :
    (bytes : List ℕ) (h : Header) (nodes : Nodes) (regions : Regions) (e : Edge)
    → (e.source_kind ≡ 3) ⊎ (e.source_kind ≡ 4)
    → valid_source bytes h nodes regions e ≡ true
    → e.target_type ≡ 0
unfolding valid_source valid_dispatch_source
valid_source-untyped bytes h nodes regions e kind valid = ground arith

-- So it leads to no Action and to no dispatch.
valid_target-untyped :
    (bytes : List ℕ) (h : Header) (nodes : Nodes) (regions : Regions) (e : Edge)
    → has_type bytes h 0 ≡ false
    → e.target_type ≡ 0
    → valid_target bytes h nodes regions e ≡ true
    → (e.target_kind ≢ 1) × (e.target_kind ≢ 3)
unfolding valid_target
valid_target-untyped bytes h nodes regions e named untyped valid =
    let absent : has_type bytes h e.target_type ≡ false = rw untyped named in
    (λ kind. ground (arith, absent), λ kind. ground arith)

finish_at-lost :
    (v : Verifier) (e : Execution) (edge outcome : ℕ)
    → target_kind e.image edge ≢ 1
    → target_kind e.image edge ≢ 3
    → enter_edge v e edge outcome ≡ (ok, finish_at (follow_edge e edge) outcome)
unfolding enter_edge enter_with
finish_at-lost v e edge outcome not_action not_dispatch =
    let n1 : (target_kind e.image edge == 1) ≡ false = ground (arith, not_action) in
    let n3 : (target_kind e.image edge == 3) ≡ false = ground (arith, not_dispatch) in
    rw (n1, n3) refl

-- In an image that `hermas_image_validate` accepts, an execution at an Action node, in the state that
-- the call requires, always ends with the call: `finish_delivery_outcome` with the port of a delivery
-- that was not sent, or whose outcome is unknown, returns OK, and the execution is complete with the
-- call's outcome and no value. So an edge is found, and no app and no dispatch comes after it.
pub finish_delivery_outcome-complete :
    (v : Verifier) (size : ℕ) (g : Graph) (i : ℕ) (port : Port) (e : Execution)
    (required : ExecutionState → Bool) (outcome : ℕ)
    → check_image e.image size ≡ pass g
    → i < (header_of e.image).node_count
    → byte_at e.image (node_at e.image (header_of e.image) i) ≡ 1
    → e.current_node ≡ i + 1
    → (port ≡ not_sent) ⊎ (port ≡ unknown)
    → required e.state ≡ true
    → (e' : Execution) × (finish_delivery_outcome v (some e) required (kind_of port) outcome
        ≡ (ok, some e'))
      × (e'.state ≡ complete)
      × (e'.terminal_outcome ≡ outcome)
      × (e'.value_length ≡ 0)
unfolding finish_delivery_outcome follow_edge
finish_delivery_outcome-complete v size g i port e required outcome image low action node lost
      state =
    let h = header_of e.image in
    let a = check_image-Accepted e.image size g image in
    let (edge, found, kind, source, target) =
      find_edge-Port e.image size g i port image low action in
    let kinds : ((edge_at e.image edge).source_kind ≡ 3)
        ⊎ ((edge_at e.image edge).source_kind ≡ 4) =
      elim lost [ inl p ↦ inl (kind ∙ ap kind_of p) | inr p ↦ inr (kind ∙ ap kind_of p) ] in
    let untyped =
      valid_source-untyped e.image h g.nodes g.regions (edge_at e.image edge) kinds source in
    let (not_action, not_dispatch) =
      valid_target-untyped e.image h g.nodes g.regions (edge_at e.image edge)
        (check_types-named e.image h a.types) untyped target in
    let found' : find_edge e.image (kind_of port) e.current_node ≡ some edge = rw node found in
    let entered =
      finish_at-lost v (record e { value_length = 0 }) edge outcome not_action not_dispatch in
    (
      finish_at (follow_edge (record e { value_length = 0 }) edge) outcome,
      rw (state, found', entered) refl,
      refl,
      refl,
      refl,
    )

-- ===== src/Image/Validate/Reached.antt =====
-- The reachability marks of `hermas_image_validate` of src/image.c against paths in the graph.
use hermas.Base.{
  ℕ, zero, suc, ◌≤◌, ◌<◌, ◌≡◌, ◌≢◌, refl, sym, subst, inl, inr, arith, Bool, true, false, not, List,
  ◌==◌, ◌!=◌, Bool-cases,
}
use hermas.Base.Check.{pass, ◌>>=◌, ◌>>◌, refuse}
use hermas.Base.Loops.{for_range, for_range-inv, fold_range-inv, any_range, any_range-false}
use hermas.Image.{invalid_topology}
use hermas.Image.Value.Skips.{bind-pass, guard-pass, refuse-pass}
use hermas.Image.Tables.{Header, header_of}
use hermas.Image.Records.{Table, put, Nodes}
use hermas.Image.Regions.{Regions}
use hermas.Image.Edges.{Edge, edge_at}
use hermas.Image.Counts.{
  edge_offset, Counts, no_edges, input_target, count_target, count_source, check_edge, add_edge,
  check_edges,
}
use hermas.Image.Topology.{
  Marks, graph_source, graph_target, spreads, mark_edge, mark_pass, mark_passes, check_node,
  check_sagas, check_each, check_topology,
}
use hermas.Image.Validate.{Graph, check_image}
use hermas.Image.Validate.Steps.{check_image-Accepted}

module _ (bytes : List ℕ) (h : Header) (regions : Regions) where
  -- A node to which the workflow's input leads, along edges of the table whose nodes have numbers
  -- other than 0; an each-region stands for its template node.
  pub data Reaches : ℕ → Type 0 where
    by_input :
        (j : ℕ)
        → j < h.edge_count
        → (edge_at bytes (edge_offset h j)).source_kind ≡ 0
        → input_target regions (edge_at bytes (edge_offset h j)) ≢ 0
        → Reaches (input_target regions (edge_at bytes (edge_offset h j)))
    by_edge :
        (j : ℕ)
        → j < h.edge_count
        → (edge_at bytes (edge_offset h j)).source_kind ≢ 0
        → graph_source regions (edge_at bytes (edge_offset h j)) ≢ 0
        → graph_target regions (edge_at bytes (edge_offset h j)) ≢ 0
        → Reaches (graph_source regions (edge_at bytes (edge_offset h j)))
        → Reaches (graph_target regions (edge_at bytes (edge_offset h j)))

  abbrev Sound : Table Bool → Type 0
  Sound marks = (n : ℕ) → marks n ≡ true → Reaches n

  Sound-put : (marks : Table Bool) (k : ℕ) → Sound marks → Reaches k → Sound (put marks k true)
  Sound-put marks k sound reached n marked = elim (Bool-cases (n == k)) [
    | inl same ↦ let k≡n : k ≡ n = ground arith in subst Reaches k≡n reached
    | inr other ↦ sound n (rw other at marked)
  ]

  count_target-reachable :
      (e : Edge) (s s' : Counts) → count_target e s ≡ pass s' → s'.reachable ≡ s.reachable
  unfolding count_target
  count_target-reachable e s s' passed = ground arith

  count_source-Sound :
      (j : ℕ) (s s' : Counts)
      → j < h.edge_count
      → Sound s.reachable
      → count_source regions (edge_at bytes (edge_offset h j)) s ≡ pass s'
      → Sound s'.reachable
  unfolding count_source
  count_source-Sound j s s' low sound passed =
      let e = edge_at bytes (edge_offset h j) in
      elim (Bool-cases (e.source_kind == 0)) [
        | inr other ↦
            let same : s'.reachable ≡ s.reachable = ground arith in subst Sound (sym same) sound
        | inl input ↦
            let kind : e.source_kind ≡ 0 = ground arith in
            elim (Bool-cases (input_target regions e != 0)) [
              | inl some_node ↦
                  let reached = by_input j low kind (ground (arith, some_node)) in
                  let same : put s.reachable (input_target regions e) true ≡ s'.reachable =
                    let p = rw (input, some_node, count_source) at passed in cc in
                  subst Sound same (Sound-put s.reachable (input_target regions e) sound reached)
              | inr no_node ↦
                  let same : s.reachable ≡ s'.reachable =
                    let p = rw (input, no_node, count_source) at passed in cc in
                  subst Sound same sound
            ]
      ]

  mark_edge-Sound :
      (j : ℕ) (m : Marks)
      → j < h.edge_count
      → Sound m.reachable
      → Sound (mark_edge regions (edge_at bytes (edge_offset h j)) m).reachable
  unfolding mark_edge
  mark_edge-Sound j m low sound =
      let e = edge_at bytes (edge_offset h j) in
      elim (Bool-cases (spreads regions m.reachable e)) [
        | inl taken ↦
            let inner : e.source_kind ≢ 0 = ground arith in
            let from_node : graph_source regions e ≢ 0 = ground arith in
            let to_node : graph_target regions e ≢ 0 = ground arith in
            let source = sound (graph_source regions e) (ground arith) in
            rw taken (
              Sound-put m.reachable (graph_target regions e) sound
                (by_edge j low inner from_node to_node source))
        | inr left ↦ rw left sound
      ]

  add_edge-Sound :
      (nodes : Nodes) (j : ℕ) (s s' : Counts)
      → j < h.edge_count
      → Sound s.reachable
      → add_edge bytes h nodes regions j s ≡ pass s'
      → Sound s'.reachable
  unfolding add_edge
  add_edge-Sound nodes j s s' low sound passed =
      let e = edge_at bytes (edge_offset h j) in
      let (_, checked, p1) =
        bind-pass (check_edge bytes h nodes regions j)
          (λ _. count_target e s >>= count_source regions e) s' passed in
      let (t, target, source) = bind-pass (count_target e s) (count_source regions e) s' p1 in
      count_source-Sound j t s' low (subst Sound (sym (count_target-reachable e s t target)) sound)
        source

  check_edges-Sound :
      (nodes : Nodes) (s : Counts) → check_edges bytes h nodes regions ≡ pass s → Sound s.reachable
  unfolding check_edges
  check_edges-Sound nodes s passed =
      let body = add_edge bytes h nodes regions in
      let (t, looped, p1) =
        bind-pass (for_range body h.edge_count 0 no_edges)
          (λ t. refuse (t.workflow_input_count != 1) invalid_topology >> pass t) s passed in
      let (_, p2) = guard-pass (t.workflow_input_count != 1) invalid_topology (pass t) s p1 in
      let same : t ≡ s = cc in
      subst (λ (x : Counts). Sound x.reachable) same
        (for_range-inv (λ _ (u : Counts). Sound u.reachable) body h.edge_count
          (λ i u u' low. add_edge-Sound nodes i u u' low) h.edge_count 0 no_edges t (omega arith)
          (λ n marked. absurd cc) looped)

  mark_pass-Sound :
      (marks : Table Bool) → Sound marks → Sound (mark_pass bytes h regions marks).reachable
  unfolding mark_pass
  mark_pass-Sound marks sound =
      fold_range-inv (λ (m : Marks). Sound m.reachable)
        (λ index m. mark_edge regions (edge_at bytes (edge_offset h index)) m) h.edge_count
        (λ i m low. mark_edge-Sound i m low) h.edge_count 0 _ (omega arith) sound

  mark_passes-Sound :
      (passes : ℕ) (marks : Table Bool)
      → Sound marks
      → Sound (mark_passes bytes h regions passes marks)
  unfolding mark_passes
  mark_passes-Sound zero marks sound = sound
  mark_passes-Sound (suc passes) marks sound =
      let next = mark_pass-Sound marks sound in
      elim (Bool-cases (mark_pass bytes h regions marks).changed) [
        | inl again ↦
            rw again (mark_passes-Sound passes (mark_pass bytes h regions marks).reachable next)
        | inr done ↦ rw done next
      ]

not-not : (b : Bool) → not b ≡ false → b ≡ true
not-not true e = refl
not-not false e = absurd cc

-- The last guard of the topology.
check_topology-marked :
    (bytes : List ℕ) (h : Header) (nodes : Nodes) (regions : Regions) (s : Counts)
    → check_topology bytes h nodes regions s ≡ pass tt
    → any_range
        (λ node. not (mark_passes bytes h regions h.node_count s.reachable node))
        h.node_count
        1
      ≡ false
unfolding check_topology
check_topology-marked bytes h nodes regions s passed =
    let (_, checked, p1) =
      bind-pass (for_range (λ node _. check_node nodes regions s node) h.node_count 1 tt) _ tt
        passed in
    let (_, sagas, p2) = bind-pass (check_sagas nodes regions s h.node_count) _ tt p1 in
    let (_, each, p3) = bind-pass (check_each nodes regions s) _ tt p2 in refuse-pass _ _ p3

-- In an image that `hermas_image_validate` accepts, the workflow's input leads along edges of the
-- image to every node, an each-region standing for its template node; no edge on the way starts or
-- ends at the number 0, which stands for no node.
pub check_image-Reaches :
    (bytes : List ℕ) (size : ℕ) (g : Graph) (n : ℕ)
    → check_image bytes size ≡ pass g
    → 1 ≤ n
    → n ≤ (header_of bytes).node_count
    → Reaches bytes (header_of bytes) g.regions n
check_image-Reaches bytes size g n e low high =
    let h = header_of bytes in
    let a = check_image-Accepted bytes size g e in
    let marked = mark_passes bytes h g.regions h.node_count g.counts.reachable in
    let sound =
      mark_passes-Sound bytes h g.regions h.node_count g.counts.reachable
        (check_edges-Sound bytes h g.regions g.nodes g.counts a.edges) in
    let all =
      any_range-false (λ node. not (marked node)) h.node_count 1 n
        (check_topology-marked bytes h g.nodes g.regions g.counts a.topology) low (omega arith) in
    sound n (not-not (marked n) all)

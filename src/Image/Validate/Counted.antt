-- ===== src/Image/Validate/Counted.antt =====
-- The counters of src/image.c on the four ports of an Action, and the edges that they count.
use hermas.Base.{
  ℕ, ◌+◌, ◌<◌, ◌≡◌, ◌≢◌, ◌⊎◌, refl, ap, ◌∙◌, subst, subst⁻¹, inl, inr, arith, List, ◌==◌, ◌!=◌,
  Bool-cases,
}
use hermas.Base.Check.{pass, ◌>>=◌, ◌>>◌, refuse}
use hermas.Base.Loops.{for_range, for_range-inv}
use hermas.Image.{invalid_topology}
use hermas.Image.Value.Skips.{bind-pass, guard-pass}
use hermas.Image.Tables.{Header}
use hermas.Image.Records.{Table, Nodes}
use hermas.Image.Regions.{Regions}
use hermas.Image.Edges.{Edge, edge_at}
use hermas.Image.Counts.{
  edge_offset, Counts, count_target, count_source, check_edge, add_edge, check_edges, no_edges,
}

-- The ways out of an Action.
pub data Port : Type 0 where
  success app_error not_sent unknown : Port

abbrev pub kind_of : Port → ℕ
kind_of success = 1
kind_of app_error = 2
kind_of not_sent = 3
kind_of unknown = 4

abbrev pub counts_of : Port → Counts → Table ℕ
counts_of success s = s.success_counts
counts_of app_error s = s.error_counts
counts_of not_sent s = s.not_sent_counts
counts_of unknown s = s.unknown_counts

-- The counters of the ports do not change at an edge's target.
target_port :
    (port : Port) (e : Edge) (s s' : Counts)
    → count_target e s ≡ pass s'
    → counts_of port s' ≡ counts_of port s
unfolding count_target
target_port success e s s' h = ground arith
target_port app_error e s s' h = ground arith
target_port not_sent e s s' h = ground arith
target_port unknown e s s' h = ground arith

-- At its source they change for the edge's own port and node.
source_port :
    (port : Port) (r : Regions) (e : Edge) (s s' : Counts) (n : ℕ)
    → count_source r e s ≡ pass s'
    → counts_of port s' n ≢ 0
    → (counts_of port s n ≢ 0) ⊎ ((e.source_kind ≡ kind_of port) × (e.source_node ≡ n))
unfolding count_source
source_port success r e s s' n h counted = ground arith
source_port app_error r e s s' n h counted = ground arith
source_port not_sent r e s s' n h counted = ground arith
source_port unknown r e s s' n h counted = ground arith

module _ (bytes : List ℕ) (h : Header) (nodes : Nodes) (regions : Regions) where
  -- Among the first edges of the table one leaves a node by a port.
  unfoldable pub Leaves : Port → ℕ → ℕ → Type 0
  Leaves port n i =
      (j : ℕ) × (j < i)
      × ((edge_at bytes (edge_offset h j)).source_kind ≡ kind_of port)
      × ((edge_at bytes (edge_offset h j)).source_node ≡ n)

  -- What holds before the round `i` of the loop over the edges.
  pub record Seen (i : ℕ) (s : Counts) : Type 0 where
    pub counted : (port : Port) (n : ℕ) → counts_of port s n ≢ 0 → Leaves port n i
    pub checked : (j : ℕ) → j < i → check_edge bytes h nodes regions j ≡ pass tt

  Leaves-suc : (port : Port) (n i : ℕ) → Leaves port n i → Leaves port n (i + 1)
  unfolding Leaves
  Leaves-suc port n i (j, low, kind, node) = (j, omega arith, kind, node)

  Seen-zero : Seen 0 no_edges
  Seen-zero = record {
    counted = λ port n c. absurd (none_counted port n c);
    checked = λ j low. absurd (omega arith);
  }
    where
      none_counted : (port : Port) (n : ℕ) → counts_of port no_edges n ≢ 0 → ⊥
      none_counted success n c = c refl
      none_counted app_error n c = c refl
      none_counted not_sent n c = c refl
      none_counted unknown n c = c refl

  Seen-add_edge :
      (i : ℕ) (s s' : Counts)
      → Seen i s
      → add_edge bytes h nodes regions i s ≡ pass s'
      → Seen (i + 1) s'
  unfolding add_edge Leaves
  Seen-add_edge i s s' seen h' =
      let e = edge_at bytes (edge_offset h i) in
      let (_, passed, h1) =
        bind-pass (check_edge bytes h nodes regions i)
          (λ _. count_target e s >>= count_source regions e) s' h' in
      let (t, target, source) = bind-pass (count_target e s) (count_source regions e) s' h1 in
      record {
        counted = λ port n c. elim (source_port port regions e t s' n source c) [
          | inl before ↦ Leaves-suc port n i (
              seen.counted port n
                (λ z. before (ap (λ (f : Table ℕ). f n) (target_port port e s t target) ∙ z)))
          | inr (kind, node) ↦ (i, omega arith, kind, node)
        ];
        checked = λ j low. elim (Bool-cases (j == i)) [
          | inl same ↦
              let j≡i : j ≡ i = ground arith in
              subst⁻¹ (λ (k : ℕ). check_edge bytes h nodes regions k ≡ pass tt) j≡i passed
          | inr other ↦ seen.checked j (ground arith)
        ];
      }

  pub check_edges-Seen :
      (s : Counts) → check_edges bytes h nodes regions ≡ pass s → Seen h.edge_count s
  unfolding check_edges
  check_edges-Seen s h' =
      let body = add_edge bytes h nodes regions in
      let (t, looped, h1) =
        bind-pass (for_range body h.edge_count 0 no_edges)
          (λ t. refuse (t.workflow_input_count != 1) invalid_topology >> pass t) s h' in
      let (_, h2) = guard-pass (t.workflow_input_count != 1) invalid_topology (pass t) s h1 in
      let same : t ≡ s = cc in
      subst (λ (x : Counts). Seen h.edge_count x) same
        (for_range-inv Seen body h.edge_count (λ i u u' low. Seen-add_edge i u u') h.edge_count 0
          no_edges t (omega arith) Seen-zero looped)

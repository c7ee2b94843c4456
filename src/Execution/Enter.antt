-- ===== src/Execution/Enter.antt =====
-- Where `enter_edge` of src/runtime.c leaves an execution.
use hermas.Base.{ℕ, zero, suc, ◌/◌, ◌≤◌, ◌≡◌, refl, arith, inl, inr, false, Bool-cases, ◌==◌}
use hermas.Base.Check.{fail, pass, Check-cases}
use hermas.Image.{Verifier}
use hermas.Execution.{
  Execution, ready, complete, RuntimeResult, ok, strip_tag, follow_edge, select_case, enter_with,
  route_rounds, route_dispatch, enter_edge, succeeded, target_kind,
}
use hermas.Execution.Dispatch.{route_rounds-suc}

-- What no dispatch changes, and that the value only gets shorter.
abbrev pub Kept : Execution → Execution → Type 0
Kept e e' =
    (e'.image ≡ e.image)
    × (e'.image_size ≡ e.image_size)
    × (e'.execution_id ≡ e.execution_id)
    × (e'.request_id ≡ e.request_id)
    × (e'.value_capacity ≡ e.value_capacity)
    × (e'.value_length ≤ e.value_length)

-- An edge leads to an action, to the end, or is refused with the delivery's state as it was.
pub data Entered (e : Execution) (outcome : ℕ) : RuntimeResult × Execution → Type 0 where
  arrived :
      {e' : Execution}
      → Kept e e'
      → e'.state ≡ ready
      → e'.terminal_outcome ≡ e.terminal_outcome
      → Entered e outcome (ok, e')
  finished :
      {e' : Execution}
      → Kept e e'
      → e'.state ≡ complete
      → e'.terminal_outcome ≡ outcome
      → Entered e outcome (ok, e')
  stopped :
      {code : RuntimeResult} {e' : Execution}
      → succeeded code ≡ false
      → Kept e e'
      → e'.state ≡ e.state
      → e'.terminal_outcome ≡ e.terminal_outcome
      → Entered e outcome (code, e')

Entered-after :
    (e d : Execution) (outcome : ℕ) (r : RuntimeResult × Execution)
    → Kept e d
    → d.state ≡ e.state
    → d.terminal_outcome ≡ e.terminal_outcome
    → Entered d outcome r
    → Entered e outcome r
Entered-after e d outcome r k same last (arrived k' h l) = arrived (ground arith) h (ground arith)
Entered-after e d outcome r k same last (finished k' h o) = finished (ground arith) h o
Entered-after e d outcome r k same last (stopped c k' h l) =
    stopped c (ground arith) (ground arith) (ground arith)

module _ (v : Verifier) where
  select_case-fails :
      (e : Execution) (outcome : ℕ) (r : RuntimeResult × Execution)
      → select_case v e ≡ fail r
      → Entered e outcome r
  unfolding select_case strip_tag
  select_case-fails e outcome (code, e') h =
      stopped (ground arith) (ground arith) (ground arith) (ground arith)

  select_case-passes :
      (e e' : Execution) (edge : ℕ)
      → select_case v e ≡ pass (e', edge)
      → Kept e e' × (e'.state ≡ e.state) × (e'.terminal_outcome ≡ e.terminal_outcome)
  unfolding select_case strip_tag
  select_case-passes e e' edge h = ground arith

  enter_with-Entered :
      (route : Execution → RuntimeResult × Execution) (e : Execution) (edge outcome : ℕ)
      → Entered (follow_edge e edge) outcome (route (follow_edge e edge))
      → Entered e outcome (enter_with v route e edge outcome)
  unfolding enter_with
  enter_with-Entered route e edge outcome h = elim (Bool-cases (target_kind e.image edge == 1)) [
    | inl hit ↦ rw (hit, enter_with) (arrived (ground arith) refl refl)
    | inr missed ↦ elim (Bool-cases (target_kind e.image edge == 3)) [
      | inl hit ↦
          rw (missed, hit, enter_with)
            (Entered-after e (follow_edge e edge) outcome (route (follow_edge e edge))
              (ground arith) refl refl h)
      | inr not_case ↦ rw (missed, not_case, enter_with) (finished (ground arith) refl refl)
    ]
  ]

  route_rounds-Entered :
      (rounds : ℕ) (e : Execution) (outcome : ℕ)
      → Entered e outcome (route_rounds v rounds e outcome)
  unfolding route_rounds
  route_rounds-Entered zero e outcome = stopped refl (ground arith) refl refl
  route_rounds-Entered (suc n) e outcome = elim (Check-cases (select_case v e)) [
    | inl (r, h) ↦ rw (route_rounds-suc v n e outcome, h) (select_case-fails e outcome r h)
    | inr ((e', edge), h) ↦
        let (kept, same, last) = select_case-passes e e' edge h in
        rw (route_rounds-suc v n e outcome, h)
          (Entered-after e e' outcome
            (enter_with v (λ t. route_rounds v n t outcome) e' edge outcome) kept same last
            (enter_with-Entered (λ t. route_rounds v n t outcome) e' edge outcome
              (route_rounds-Entered n (follow_edge e' edge) outcome)))
  ]

  pub enter_edge-Entered :
      (e : Execution) (edge outcome : ℕ) → Entered e outcome (enter_edge v e edge outcome)
  unfolding enter_edge route_dispatch
  enter_edge-Entered e edge outcome =
      enter_with-Entered (λ t. route_dispatch v t outcome) e edge outcome
        (route_rounds-Entered ((follow_edge e edge).value_length / 8) (follow_edge e edge) outcome)

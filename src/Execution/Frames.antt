-- ===== src/Execution/Frames.antt =====
-- The frames that an execution of src/runtime.c hands to protocol v1.
use hermas.Base.{ℕ, ◌≡◌, ◌≢◌, refl, sym, ◌∙◌, arith, inl, inr, true, some, Bool-cases, List}
use hermas.Image.{Verifier}
use hermas.Protocol.{Frame, validate_semantics, ok}
use hermas.Protocol.Kind
use hermas.Execution
use hermas.Execution.{
  Execution, ExecutionState, ready, prepared, sent, complete, RuntimeResult, start, start_fresh,
  prepare, get_result, invocation_of, result_of, enter_edge, enter_with, find_edge, follow_edge,
  target_kind, copy_value, fresh_execution, succeeded, has_value, stored, is_complete, mark_sent,
  answers,
}
use hermas.Execution.Deliveries.{Operation, view}
use hermas.Execution.Start.{IsStarted}
use hermas.Execution.Life.{IsAlive, after_all, after_all-IsAlive}

prepare-holds :
    (e e' : Execution) (old f : Frame)
    → prepare (some e) (some old) ≡ (Execution.ok, some e', some f)
    → (e' ≡ record e { state = prepared }) × (f ≡ invocation_of e)
unfolding prepare
prepare-holds e e' old f h = ground arith

module _ (v : Verifier) where
  is_complete→complete : (s : ExecutionState) → is_complete s ≡ true → s ≡ complete
  is_complete→complete complete h = refl
  is_complete→complete _ h = cc

  result_of-semantics :
      (e : Execution)
      → IsAlive (view e)
      → e.state ≡ complete
      → e.execution_id ≢ 0
      → (has_value e.terminal_outcome ≡ true
          → (e.value_source_type ≢ 0) × (e.value_destination_type ≢ 0))
      → validate_semantics (result_of e) ≡ ok
  unfolding result_of validate_semantics
  result_of-semantics e alive end own typed = elim alive [
    | inl a ↦ absurd cc
    | inr (inl a) ↦ absurd cc
    | inr (inr (inl a)) ↦ absurd cc
    | inr (inr (inr (a, inl valued))) ↦ ground arith
    | inr (inr (inr (a, inr (inl o)))) ↦ ground arith
    | inr (inr (inr (a, inr (inr o)))) ↦ ground arith
  ]

  get_result-complete :
      (e : Execution) (old f : Frame)
      → get_result (some e) (some old) ≡ (Execution.ok, some f)
      → (e.state ≡ complete) × (f ≡ result_of e)
  unfolding get_result
  get_result-complete e old f h = elim (Bool-cases (is_complete e.state)) [
    | inr other ↦ absurd (let bad = rw other at h in cc)
    | inl end ↦ (is_complete→complete e.state end, let good = rw end at h in cc)
  ]

  -- After any sequence of calls on a started execution, a frame that `get_result` returns with OK
  -- has the execution's id and is a legal frame of protocol v1, if the types of the edge that ended
  -- the execution are not 0 when the outcome carries a value.
  pub get_result-semantics :
      (execution_id : ℕ) (started : Execution) (ops : List Operation) (old f : Frame)
      → IsStarted execution_id started
      → execution_id ≢ 0
      → get_result (some (after_all v ops started)) (some old) ≡ (Execution.ok, some f)
      → (let e = after_all v ops started in
          has_value e.terminal_outcome ≡ true
          → (e.value_source_type ≢ 0) × (e.value_destination_type ≢ 0))
      → (validate_semantics f ≡ ok) × (f.execution_id ≡ execution_id)
  unfolding result_of
  get_result-semantics execution_id started ops old f (state, first, own) fresh h typed =
      let e = after_all v ops started in
      let (alive, same, more) = after_all-IsAlive v ops started (inl state) in
      let (end, frame) = get_result-complete e old f h in
      (
        rw frame (result_of-semantics e alive end (λ z. fresh (sym own ∙ sym same ∙ z)) typed),
        rw frame (same ∙ own),
      )

  invocation_of-semantics :
      (e : Execution)
      → e.execution_id ≢ 0
      → e.request_id ≢ 0
      → (let f = invocation_of e in
          (f.app_id ≢ 0) × (f.action_id ≢ 0) × (f.source_type ≢ 0) × (f.destination_type ≢ 0))
      → validate_semantics (invocation_of e) ≡ ok
  unfolding invocation_of validate_semantics
  invocation_of-semantics e own request ids = ground arith

  -- After any sequence of calls on a started execution, a frame that `prepare` hands out is a legal
  -- INVOKE frame of protocol v1 under the execution's id and the open request number, if the
  -- image's ids and types in it are not 0.
  pub prepare-semantics :
      (execution_id : ℕ) (started : Execution) (ops : List Operation) (e' : Execution)
      (old f : Frame)
      → IsStarted execution_id started
      → execution_id ≢ 0
      → prepare (some (after_all v ops started)) (some old) ≡ (Execution.ok, some e', some f)
      → (f.app_id ≢ 0) × (f.action_id ≢ 0) × (f.source_type ≢ 0) × (f.destination_type ≢ 0)
      → (validate_semantics f ≡ ok)
        × (f.execution_id ≡ execution_id)
        × (f.request_id ≡ (after_all v ops started).request_id)
  unfolding invocation_of
  prepare-semantics execution_id started ops e' old f (state, first, own) fresh h ids =
      let e = after_all v ops started in
      let (alive, same, more) = after_all-IsAlive v ops started (inl state) in
      let frame = (prepare-holds e e' old f h).1 in
      let ids' = rw frame at ids in
      (
        rw frame (
            invocation_of-semantics e (λ z. fresh (sym own ∙ sym same ∙ z))
              (omega (arith, more, first)) ids'),
        rw frame (same ∙ own),
        rw frame refl,
      )

mark_sent-sends :
    (e e' : Execution)
    → mark_sent (some e) ≡ (Execution.ok, some e')
    → e' ≡ record e { state = sent }
unfolding mark_sent
mark_sent-sends e e' h = ground arith

answers-echo :
    (e : Execution) (r : Frame)
    → r.kind ≡ Kind.result
    → r.execution_id ≡ (invocation_of e).execution_id
    → r.request_id ≡ (invocation_of e).request_id
    → r.app_id ≡ (invocation_of e).app_id
    → r.action_id ≡ (invocation_of e).action_id
    → r.source_type ≡ r.destination_type
    → has_value r.outcome ≡ true
    → answers (record e { state = sent }) r ≡ true
unfolding invocation_of answers
answers-echo e r k x q a n t o = ground arith

-- A RESULT frame that repeats the ids of the invocation, with one type and an outcome of the
-- application, is taken for the answer to the invocation once this is sent.
pub prepare-answers :
    (e e' e'' : Execution) (old f r : Frame)
    → prepare (some e) (some old) ≡ (Execution.ok, some e', some f)
    → mark_sent (some e') ≡ (Execution.ok, some e'')
    → r.kind ≡ Kind.result
    → r.execution_id ≡ f.execution_id
    → r.request_id ≡ f.request_id
    → r.app_id ≡ f.app_id
    → r.action_id ≡ f.action_id
    → r.source_type ≡ r.destination_type
    → has_value r.outcome ≡ true
    → answers e'' r ≡ true
prepare-answers e e' e'' old f r p m k x q a n t o =
    let (held, frame) = prepare-holds e e' old f p in
    rw (mark_sent-sends e' e'' m, held)
      (answers-echo e r k (rw frame at x) (rw frame at q) (rw frame at a) (rw frame at n) t o)

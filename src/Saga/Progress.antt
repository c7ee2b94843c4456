-- ===== src/Saga/Progress.antt =====
-- The rounds of a saga of src/saga.c that undo one step each: prepare, mark sent, accept the result.
use hermas.Base.{
  ℕ, zero, suc, ◌+◌, ◌-◌, ◌^◌, ◌<◌, ◌≡◌, ◌≢◌, refl, subst⁻¹, arith, true, false, not, ◌&&◌, ◌||◌,
  Option, none, some, List, ◌==◌, ◌!=◌, if◌then◌else◌,
}
use hermas.Image.{Verifier, is_ok}
use hermas.Protocol.{Frame, is_null}
use hermas.Protocol.Kind
use hermas.Protocol.Outcome
use hermas.Saga.{
  SagaExecution, succeeded, ready, prepared, sent, complete, is_ready, is_sent, step_at,
  validate_token,
}
use hermas.Saga.Operations.{
  open_step, with_delivery, prepare, mark_sent, accept_result, answers, after_result,
}
use hermas.Saga.Machine.{Operation, to_prepare, to_send, to_accept, perform}

-- The result that reports the success of the compensation of a request.
abbrev pub success_of : SagaExecution → ℕ → Option (List ℕ) → ℕ → Frame
success_of e request payload payload_length = record {
  kind = Kind.result;
  execution_id = e.execution_id;
  request_id = request;
  app_id = (open_step e).compensation_app_id;
  action_id = (open_step e).compensation_action_id;
  source_type = (open_step e).success_type;
  destination_type = (open_step e).success_type;
  outcome = Outcome.success;
  payload = payload;
  payload_length = payload_length;
}

-- `*execution` after a round.
abbrev pub undone : SagaExecution → SagaExecution
undone e = record e {
  current_request_id = e.next_request_id;
  next_request_id = e.next_request_id + 1;
  compensation_outcome = Outcome.success;
  remaining = e.remaining - 1;
  state = if e.remaining - 1 == 0 then complete else ready;
}

abbrev or_same : SagaExecution → Option SagaExecution → SagaExecution
or_same e none = e
or_same e (some e') = e'

-- The token buffer, a frame to write to, and the payloads of the results by the index of the step.
module _ (v : Verifier) (buffer : Option (List ℕ)) (capacity : ℕ) (frame : Frame)
    (payload : ℕ → Option (List ℕ)) (size : ℕ → ℕ) where
  abbrev after : Operation → SagaExecution → SagaExecution
  after op e = or_same e (perform v op e).1

  abbrev pub round : SagaExecution → SagaExecution
  round e =
      let i = e.remaining - 1 in
      after (to_accept (success_of e e.next_request_id (payload i) (size i)))
        (after to_send (after (to_prepare buffer capacity frame) e))

  abbrev pub rounds : ℕ → SagaExecution → SagaExecution
  rounds zero e = e
  rounds (suc n) e = rounds n (round e)

  -- Each of the first steps has its token, and the payload of its success is of the step's type.
  pub record IsUndoable (e : SagaExecution) (n : ℕ) : Type 0 where
    pub tokens :
        (i : ℕ) → i < n → succeeded (validate_token v e (step_at e i) buffer capacity).0 ≡ true
    pub results :
        (i : ℕ)
        → i < n
        → is_ok
            (v.validate_value e.image e.image_size (step_at e i).success_type (payload i) (size i))
          ≡ true

  prepare-round :
      (e : SagaExecution)
      → (is_null buffer && capacity != 0) ≡ false
      → e.state ≡ ready
      → e.remaining ≢ 0
      → e.next_request_id ≢ 0
      → e.next_request_id ≢ 2 ^ 64 - 1
      → succeeded (validate_token v e (open_step e) buffer capacity).0 ≡ true
      → (prepare v (some e) buffer capacity (some frame)).1 ≡ some (with_delivery e)
  unfolding prepare
  prepare-round e room free left first last valid =
      let busy : (not (is_ready e.state) || e.remaining == 0) ≡ false = ground arith in
      let numbered : (e.next_request_id == 0 || e.next_request_id == 2 ^ 64 - 1) ≡ false =
        ground arith in
      rw (room, busy, numbered, valid) refl

  mark_sent-round :
      (e : SagaExecution)
      → e.state ≡ prepared
      → (mark_sent (some e)).1 ≡ some (record e { state = sent })
  unfolding mark_sent
  mark_sent-round e held = rw held refl

  answers-success :
      (e : SagaExecution) (p : Option (List ℕ)) (n : ℕ)
      → answers v e (success_of e e.current_request_id p n) ≡ true
  unfolding answers
  answers-success e p n = ground arith

  accept-round :
      (e : SagaExecution) (p : Option (List ℕ)) (n : ℕ)
      → e.state ≡ sent
      → e.remaining ≢ 0
      → is_ok (v.validate_value e.image e.image_size (open_step e).success_type p n) ≡ true
      → (accept_result v (some e) (some (success_of e e.current_request_id p n))).1
        ≡ some (after_result v e Outcome.success)
  unfolding accept_result
  accept-round e p n waits left valid =
      let open_request : (not (is_sent e.state) || e.remaining == 0) ≡ false = ground arith in
      let own = answers-success e p n in rw (open_request, own, valid) refl

  -- A round on a saga that is ready undoes one step.
  round-undone :
      (e : SagaExecution) (n : ℕ)
      → (is_null buffer && capacity != 0) ≡ false
      → e.state ≡ ready
      → e.remaining ≡ suc n
      → e.next_request_id ≢ 0
      → e.next_request_id ≢ 2 ^ 64 - 1
      → IsUndoable e (suc n)
      → round e ≡ undone e
  unfolding after_result
  round-undone e n room free left first last u =
      let i = e.remaining - 1 in
      let e1 = with_delivery e in
      let e2 : SagaExecution = record e1 { state = sent } in
      let here : i < suc n = omega (arith, left) in
      let prepares = prepare-round e room free (omega (arith, left)) first last (u.tokens i here) in
      let sends = mark_sent-round e1 refl in
      let accepts =
        accept-round e2 (payload i) (size i) refl (omega (arith, left)) (u.results i here) in
      rw (prepares, sends, accepts) refl

  undone-IsUndoable :
      (e : SagaExecution) (m n : ℕ) → m < n + 1 → IsUndoable e n → IsUndoable (undone e) m
  unfolding validate_token
  undone-IsUndoable e m n h u = record {
    tokens = λ i below. u.tokens i (omega arith);
    results = λ i below. u.results i (omega arith);
  }

  -- What a saga is in the end, after the rounds for its steps.
  abbrev pub IsUndone : ℕ → SagaExecution → SagaExecution → Type 0
  IsUndone n e e' =
      (e'.state ≡ complete)
      × (e'.remaining ≡ 0)
      × (e'.compensation_outcome ≡ Outcome.success)
      × (e'.next_request_id ≡ e.next_request_id + n)

  last_round : (e : SagaExecution) → e.remaining ≡ 1 → IsUndone 1 e (undone e)
  last_round e left =
      let none_left : (e.remaining - 1 == 0) ≡ true = ground arith in
      (rw none_left refl, omega (arith, left), refl, refl)

  undone-ready : (e : SagaExecution) (n : ℕ) → e.remaining ≡ suc (suc n) → (undone e).state ≡ ready
  undone-ready e n left = let more : (e.remaining - 1 == 0) ≡ false = ground arith in rw more refl

  later_rounds :
      (n : ℕ) (e e' : SagaExecution) → IsUndone (suc n) (undone e) e' → IsUndone (suc (suc n)) e e'
  later_rounds n e e' (state, left, outcome, next) = (state, left, outcome, omega (arith, next))

  -- A saga that is ready, with request numbers left for its steps, is undone after as many rounds as
  -- steps remain, if the buffer is there, each of these steps has its token, and each round brings
  -- the success of its compensation, with a payload of the step's type: it is complete, no step
  -- remains, and each round has taken one request number.
  pub rounds_complete :
      (n : ℕ) (e : SagaExecution)
      → (is_null buffer && capacity != 0) ≡ false
      → e.state ≡ ready
      → e.remaining ≡ suc n
      → e.next_request_id ≢ 0
      → e.next_request_id + suc n < 2 ^ 64
      → IsUndoable e (suc n)
      → IsUndone (suc n) e (rounds (suc n) e)
  rounds_complete zero e room free left first last u =
      subst⁻¹ (IsUndone 1 e) (round-undone e zero room free left first (omega arith) u)
        (last_round e left)
  rounds_complete (suc n) e room free left first last u =
      subst⁻¹ (λ (x : SagaExecution). IsUndone (suc (suc n)) e (rounds (suc n) x))
        (round-undone e (suc n) room free left first (omega arith) u)
        (later_rounds n e (rounds (suc n) (undone e)) (
          rounds_complete n (undone e) room (undone-ready e n left) (omega (arith, left))
            (omega arith) (omega arith)
            (undone-IsUndoable e (suc n) (suc (suc n)) (omega arith) u)))

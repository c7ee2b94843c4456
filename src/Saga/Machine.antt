-- ===== src/Saga/Machine.antt =====
-- The operations on a saga's execution of src/saga.c as steps of a state machine.
use hermas.Base.{
  ℕ, ◌-◌, ◌^◌, ◌≡◌, ◌≢◌, ◌⊎◌, refl, arith, inl, inr, true, false, not, ◌&&◌, ◌||◌, Option, some,
  List, Bool-cases, ◌==◌, ◌!=◌, if◌then◌else◌,
}
use hermas.Image.{Verifier, is_ok}
use hermas.Protocol.{Frame, is_null}
use hermas.Protocol.Outcome
use hermas.Saga.{
  SagaExecution, SagaResult, ok, succeeded, SagaState, ready, prepared, sent, complete, blocked,
  is_ready, is_prepared, is_sent, validate_token,
}
use hermas.Saga.Operations.{
  open_step, with_delivery, prepare, mark_sent, mark_not_sent, mark_unknown, accept_result, answers,
  after_result, expected_type,
}

-- The call of an operation, with what it is handed.
pub data Operation : Type 0 where
  to_prepare : Option (List ℕ) → ℕ → Frame → Operation
  to_send to_fail to_lose : Operation
  to_accept : Frame → Operation

-- A compensation is prepared under the next request number, sent, and answered; only a success takes
-- a step off what remains, and whatever else ends a delivery blocks the saga.
pub data Move (e e' : SagaExecution) : Operation → Type 0 where
  prepares :
      {buffer : Option (List ℕ)} {capacity : ℕ} {old : Frame}
      → e.state ≡ ready
      → e.remaining ≢ 0
      → e.next_request_id ≢ 0
      → e.next_request_id ≢ 2 ^ 64 - 1
      → e' ≡ with_delivery e
      → Move e e' (to_prepare buffer capacity old)
  sends : e.state ≡ prepared → e' ≡ record e { state = sent } → Move e e' to_send
  fails :
      e.state ≡ prepared
      → e' ≡ record e { compensation_outcome = Outcome.not_sent; state = blocked }
      → Move e e' to_fail
  loses :
      e.state ≡ sent
      → e' ≡ record e { compensation_outcome = Outcome.unknown; state = blocked }
      → Move e e' to_lose
  rejects :
      {r : Frame}
      → e.state ≡ sent
      → e.remaining ≢ 0
      → r.request_id ≡ e.current_request_id
      → r.outcome ≡ Outcome.app_error
      → e' ≡ record e { compensation_outcome = Outcome.app_error; state = blocked }
      → Move e e' (to_accept r)
  compensates :
      {r : Frame}
      → e.state ≡ sent
      → e.remaining ≢ 0
      → r.request_id ≡ e.current_request_id
      → r.outcome ≡ Outcome.success
      → e' ≡ record e {
        compensation_outcome = Outcome.success;
        remaining = e.remaining - 1;
        state = if e.remaining - 1 == 0 then complete else ready;
      }
      → Move e e' (to_accept r)

-- A call moves the saga, or it is refused and the execution is not changed.
pub data Called (e : SagaExecution) (op : Operation)
    : SagaResult × Option SagaExecution → Type 0 where
  moved : {e' : SagaExecution} → Move e e' op → Called e op (ok, some e')
  refused : {code : SagaResult} → succeeded code ≡ false → Called e op (code, some e)

is_ready→ready : (s : SagaState) → is_ready s ≡ true → s ≡ ready
is_ready→ready ready h = refl
is_ready→ready _ h = cc

is_prepared→prepared : (s : SagaState) → is_prepared s ≡ true → s ≡ prepared
is_prepared→prepared prepared h = refl
is_prepared→prepared _ h = cc

is_sent→sent : (s : SagaState) → is_sent s ≡ true → s ≡ sent
is_sent→sent sent h = refl
is_sent→sent _ h = cc

pub mark_sent-Called : (e : SagaExecution) → Called e to_send (mark_sent (some e))
unfolding mark_sent
mark_sent-Called e = elim (Bool-cases (is_prepared e.state)) [
  | inr other ↦ rw other (refused refl)
  | inl held ↦ rw held (moved (sends (is_prepared→prepared e.state held) refl))
]

pub mark_not_sent-Called : (e : SagaExecution) → Called e to_fail (mark_not_sent (some e))
unfolding mark_not_sent
mark_not_sent-Called e = elim (Bool-cases (is_prepared e.state)) [
  | inr other ↦ rw other (refused refl)
  | inl held ↦ rw held (moved (fails (is_prepared→prepared e.state held) refl))
]

pub mark_unknown-Called : (e : SagaExecution) → Called e to_lose (mark_unknown (some e))
unfolding mark_unknown
mark_unknown-Called e = elim (Bool-cases (is_sent e.state)) [
  | inr other ↦ rw other (refused refl)
  | inl waits ↦ rw waits (moved (loses (is_sent→sent e.state waits) refl))
]

module _ (v : Verifier) where
  abbrev pub perform : Operation → SagaExecution → SagaResult × Option SagaExecution
  perform (to_prepare buffer capacity old) e =
      let (code, e', _, _) = prepare v (some e) buffer capacity (some old) in (code, e')
  perform to_send e = mark_sent (some e)
  perform to_fail e = mark_not_sent (some e)
  perform to_lose e = mark_unknown (some e)
  perform (to_accept r) e = accept_result v (some e) (some r)

  pub prepare-Called :
      (buffer : Option (List ℕ)) (capacity : ℕ) (old : Frame) (e : SagaExecution)
      → Called e (to_prepare buffer capacity old) (perform (to_prepare buffer capacity old) e)
  unfolding prepare
  prepare-Called buffer capacity old e = elim (Bool-cases (is_null buffer && capacity != 0)) [
    | inl bad ↦ rw bad (refused refl)
    | inr fine ↦ elim (Bool-cases (not (is_ready e.state) || e.remaining == 0)) [
      | inl busy ↦ rw (fine, busy) (refused refl)
      | inr free ↦ elim (Bool-cases (e.next_request_id == 0 || e.next_request_id == 2 ^ 64 - 1)) [
        | inl exhausted ↦ rw (fine, free, exhausted) (refused refl)
        | inr room ↦
            elim (Bool-cases (succeeded (validate_token v e (open_step e) buffer capacity).0)) [
              | inr invalid ↦ rw (fine, free, room, invalid) (refused invalid)
              | inl valid ↦
                  rw (fine, free, room, valid)
                    (moved (
                      prepares (is_ready→ready e.state (ground arith)) (ground arith) (ground arith)
                        (ground arith) refl))
            ]
      ]
    ]
  ]

  after_result-failed :
      (e : SagaExecution) (outcome : ℕ)
      → outcome ≡ Outcome.app_error
      → after_result v e outcome
        ≡ record e { compensation_outcome = Outcome.app_error; state = blocked }
  unfolding after_result
  after_result-failed e outcome h = rw h refl

  after_result-succeeded :
      (e : SagaExecution) (outcome : ℕ)
      → outcome ≡ Outcome.success
      → after_result v e outcome ≡ record e {
        compensation_outcome = Outcome.success;
        remaining = e.remaining - 1;
        state = if e.remaining - 1 == 0 then complete else ready;
      }
  unfolding after_result
  after_result-succeeded e outcome h = rw h refl

  answers-request :
      (e : SagaExecution) (r : Frame) → answers v e r ≡ true → r.request_id ≡ e.current_request_id
  unfolding answers
  answers-request e r h = ground arith

  answers-outcome :
      (e : SagaExecution) (r : Frame)
      → answers v e r ≡ true
      → (r.outcome ≡ Outcome.app_error) ⊎ (r.outcome ≡ Outcome.success)
  unfolding answers
  answers-outcome e r h = ground arith

  after_result-Move :
      (e : SagaExecution) (r : Frame)
      → e.state ≡ sent
      → e.remaining ≢ 0
      → answers v e r ≡ true
      → Move e (after_result v e r.outcome) (to_accept r)
  after_result-Move e r waits left own =
      let request = answers-request e r own in
      elim (answers-outcome e r own) [
        | inl failed ↦ rejects waits left request failed (after_result-failed e r.outcome failed)
        | inr good ↦ compensates waits left request good (after_result-succeeded e r.outcome good)
      ]

  pub accept_result-Called :
      (r : Frame) (e : SagaExecution) → Called e (to_accept r) (accept_result v (some e) (some r))
  unfolding accept_result
  accept_result-Called r e = elim (Bool-cases (not (is_sent e.state) || e.remaining == 0)) [
    | inl closed ↦ rw closed (refused refl)
    | inr waits ↦ elim (Bool-cases (answers v e r)) [
      | inr foreign ↦ rw (waits, foreign) (refused refl)
      | inl own ↦
          elim (Bool-cases (
            is_ok (
              v.validate_value e.image e.image_size (expected_type v e r) r.payload
                r.payload_length))) [
                  | inr bad ↦ rw (waits, own, bad) (refused refl)
                  | inl good ↦
                      rw (waits, own, good)
                        (moved (
                          after_result-Move e r (is_sent→sent e.state (ground arith)) (ground arith)
                            own))
                ]
    ]
  ]

  -- Each call of an operation on a saga's execution either succeeds and moves it: from ready to a
  -- delivery under the next request number, which is then taken, from prepared to sent, from a
  -- delivery that was not sent, is unknown or failed to blocked, and from a sent one that succeeded
  -- to the step before, or to complete when none remains; or it is refused, and the execution is not
  -- changed. A result is accepted only for the request that is open.
  pub perform-Called : (op : Operation) (e : SagaExecution) → Called e op (perform op e)
  perform-Called (to_prepare buffer capacity old) e = prepare-Called buffer capacity old e
  perform-Called to_send e = mark_sent-Called e
  perform-Called to_fail e = mark_not_sent-Called e
  perform-Called to_lose e = mark_unknown-Called e
  perform-Called (to_accept r) e = accept_result-Called r e

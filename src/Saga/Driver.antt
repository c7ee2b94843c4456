-- ===== src/Saga/Driver.antt =====
-- `hermas_saga_driver_*` of src/saga.c: the planner together with the saga log.
use hermas.Base.{
  ℕ, Bool, true, false, not, ◌&&◌, ◌||◌, Option, none, some, List, ◌==◌, if◌then◌else◌,
}
use hermas.Image.{Verifier}
use hermas.Protocol.{Frame}
use hermas.Protocol.Outcome
use hermas.SagaLog.{SagaLogRecord, is_ok}
use hermas.SagaLog.Writer.{Writer, writer_append}
use hermas.SagaLog.Kind
use hermas.Saga.{
  SagaExecution, SagaResult, ok, invalid_argument, invalid_state, log_error, succeeded, is_ready,
  is_complete, is_blocked,
}
use hermas.Saga.Operations.{
  open_step, prepare, mark_sent, mark_not_sent, mark_unknown, accept_result,
}

-- The saga log as the driver uses it, behind the pointer `log`: `append` is
-- `hermas_saga_log_writer_append`, with whether it returned OK, and `can_write` says that the
-- writer has a callback.
pub record Log (W : Type 0) : Type 0 where
  pub append : W → SagaLogRecord → Bool × W
  pub can_write : W → Bool

-- `hermas_saga_driver`, with what is behind `log`.
pub record Driver (W : Type 0) : Type 0 where
  pub execution : SagaExecution
  pub log : Option W
  pub started : Bool

unfoldable pub driver_record : SagaExecution → ℕ → ℕ → Bool → SagaLogRecord
driver_record e kind outcome action =
    let step = open_step e in
    record {
      kind = kind;
      outcome = outcome;
      sequence = 0;
      execution_id = e.execution_id;
      workflow_id = e.workflow_id;
      request_id = if action then e.current_request_id else 0;
      forward_node = if action then step.forward_node else 0;
      app_id = if action then step.compensation_app_id else 0;
      action_id = if action then step.compensation_action_id else 0;
      ordinal = if action then step.ordinal else if kind == Kind.started then e.remaining else 0;
      image_fingerprint = e.image_fingerprint;
    }

module _ {W : Type 0} (log : Log W) where
  -- `hermas_saga_log_writer_append`, which refuses a null pointer.
  unfoldable pub append_record : Driver W → SagaLogRecord → SagaResult × Driver W
  append_record d r = elim d.log [
    | none ↦ (log_error, d)
    | some w ↦
        let (written, w') = log.append w r in
        (if written then ok else log_error, record d { log = some w' })
  ]

  unfoldable pub append_driver_record : Driver W → ℕ → ℕ → Bool → SagaResult × Driver W
  unfolding append_record driver_record
  append_driver_record d kind outcome action =
      append_record d (driver_record d.execution kind outcome action)

  -- The code, and `*driver` after the call.
  unfoldable pub driver_begin :
      Option (Driver W) → Option SagaExecution → Option W → Bool → SagaResult × Option (Driver W)
  unfolding append_driver_record
  driver_begin none execution writer resume_existing = (invalid_argument, none)
  driver_begin (some old) none writer resume_existing = (invalid_argument, some old)
  driver_begin (some old) (some e) none resume_existing = (invalid_argument, some old)
  driver_begin (some old) (some e) (some w) resume_existing =
      let d : Driver W = record { execution = e; log = some w; started = resume_existing } in
      if not (log.can_write w) || (not (is_ready e.state) && not (is_complete e.state))
      then (invalid_argument, some old)
      else if is_complete e.state || resume_existing
      then (ok, some d)
      else (let (appended, d') = append_driver_record d Kind.started e.original_outcome false in
          if succeeded appended
          then (ok, some (record d' { started = true }))
          else (appended, some d'))

  unfoldable pub finish_driver : Driver W → ℕ → ℕ → SagaResult × Driver W
  unfolding append_driver_record
  finish_driver d kind outcome =
      let (step, d') = append_driver_record d kind outcome true in
      if not (succeeded step)
      then (step, d')
      else append_driver_record d' Kind.finished outcome false

  -- `*execution` after a call of an operation on it.
  abbrev or_old : SagaExecution → Option SagaExecution → SagaExecution
  or_old old none = old
  or_old old (some e) = e

  abbrev with_execution : Driver W → Option SagaExecution → Driver W
  with_execution d e = record d { execution = or_old d.execution e }

  abbrev pub some_driver : SagaResult × Driver W → SagaResult × Option (Driver W)
  some_driver (code, d) = (code, some d)

  unfoldable pub driver_mark_sent : Option (Driver W) → SagaResult × Option (Driver W)
  unfolding append_driver_record mark_sent
  driver_mark_sent none = (invalid_argument, none)
  driver_mark_sent (some d) =
      let (changed, e) = mark_sent (some d.execution) in
      if not (succeeded changed)
      then (changed, some (with_execution d e))
      else some_driver
          (append_driver_record (with_execution d e) Kind.delivery_sent Outcome.none true)

  unfoldable pub driver_mark_not_sent : Option (Driver W) → SagaResult × Option (Driver W)
  unfolding finish_driver mark_not_sent
  driver_mark_not_sent none = (invalid_argument, none)
  driver_mark_not_sent (some d) =
      let (changed, e) = mark_not_sent (some d.execution) in
      if not (succeeded changed)
      then (changed, some (with_execution d e))
      else some_driver (finish_driver (with_execution d e) Kind.step_failed Outcome.not_sent)

  unfoldable pub driver_mark_unknown : Option (Driver W) → SagaResult × Option (Driver W)
  unfolding finish_driver mark_unknown
  driver_mark_unknown none = (invalid_argument, none)
  driver_mark_unknown (some d) =
      let (changed, e) = mark_unknown (some d.execution) in
      if not (succeeded changed)
      then (changed, some (with_execution d e))
      else some_driver (finish_driver (with_execution d e) Kind.step_unknown Outcome.unknown)

  -- The outputs of `prepare` with the driver in place of its execution.
  abbrev pub DriverPrepared : Type 0
  DriverPrepared = SagaResult × Option (Driver W) × Option (List ℕ) × Option Frame

  module _ (v : Verifier) where
    unfoldable pub driver_prepare :
        Option (Driver W) → Option (List ℕ) → ℕ → Option Frame → DriverPrepared
    unfolding append_driver_record prepare
    driver_prepare none buffer capacity invocation = (invalid_state, none, buffer, invocation)
    driver_prepare (some d) buffer capacity invocation =
        let (prepared, e, buffer', invocation') =
          prepare v (some d.execution) buffer capacity invocation in
        let appended =
          append_driver_record (with_execution d e) Kind.delivery_prepared Outcome.none true in
        if elim d.log [ none ↦ true | some _ ↦ false ] || not d.started
        then (invalid_state, some d, buffer, invocation)
        else if not (succeeded prepared)
        then (prepared, some (with_execution d e), buffer', invocation')
        else (appended.0, some appended.1, buffer', invocation')

    -- From the accepted result on: the record of the step, and the last one if the saga ends.
    unfoldable pub record_result : Driver W → SagaLogRecord → ℕ → SagaResult × Driver W
    unfolding append_record append_driver_record
    record_result d durable outcome =
        let (written, d') = append_record d durable in
        if not (succeeded written)
        then (log_error, d')
        else if is_complete d.execution.state || is_blocked d.execution.state
        then append_driver_record d' Kind.finished outcome false
        else (ok, d')

    unfoldable pub driver_accept_result :
        Option (Driver W) → Option Frame → SagaResult × Option (Driver W)
    unfolding record_result accept_result
    driver_accept_result none result = (invalid_argument, none)
    driver_accept_result (some d) none = (invalid_argument, some d)
    driver_accept_result (some d) (some r) =
        let kind = if r.outcome == Outcome.success then Kind.step_succeeded else Kind.step_failed in
        let durable = driver_record d.execution kind r.outcome true in
        let (accepted, e) = accept_result v (some d.execution) (some r) in
        if not (succeeded accepted)
        then (accepted, some (with_execution d e))
        else some_driver (record_result (with_execution d e) durable r.outcome)

abbrev has_callback : {C : Type 0} → Writer C → Bool
has_callback w = elim w.write [ none ↦ false | some _ ↦ true ]

-- The writer of the saga log, as the driver uses it.
abbrev pub writer_log : {C : Type 0} → Log (Writer C)
writer_log = record {
  append = λ w r.
      (let (code, w') = writer_append (some w) r in
        (is_ok code, elim w' [ none ↦ w | some written ↦ written ]));
  can_write = has_callback;
}

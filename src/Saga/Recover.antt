-- ===== src/Saga/Recover.antt =====
-- `hermas_saga_recover` of src/saga.c.
use hermas.Base.{
  ℕ, zero, suc, ◌+◌, ◌-◌, ◌/◌, ◌^◌, Bool, true, false, not, ◌&&◌, ◌||◌, Option, none, some, List,
  [], drop, set, ltb, ◌==◌, ◌!=◌, if◌then◌else◌,
}
use hermas.Base.Check.{Check, fail, pass, ◌>>=◌}
use hermas.Image.{Verifier, is_ok}
use hermas.Journal
use hermas.Journal.{JournalRecord, JournalResult, record_size, decode_record}
use hermas.Journal.Kind
use hermas.Journal.Scan as JournalScan
use hermas.Compensation
use hermas.Compensation.Scan as TokenScan
use hermas.Protocol.{is_null, pointee}
use hermas.Protocol.Outcome
use hermas.Saga.{
  SagaExecution, SagaResult, invalid_argument, invalid_image, not_saga, inconsistent_history,
  unsafe_history, invalid_token, ready, complete, blocked, step_at, find_step,
  forward_route_matches, load_steps,
}
use hermas.Saga.Live.{Stopped, outputs, blank_execution, check_token}

-- The execution and the locals of the loop over the journal.
pub record Recovery : Type 0 where
  pub execution : SagaExecution
  pub started : Bool
  pub finished : Bool
  pub terminal_action : Bool
  pub largest_request : ℕ

abbrev inconsistent : {A : Type 0} → Recovery → Check Stopped A
inconsistent s = fail (inconsistent_history, s.execution)

-- The step of an action's outcome: the next one of the workflow, along its route.
unfoldable pub next_step : SagaExecution → JournalRecord → Option ℕ
unfolding find_step forward_route_matches
next_step e r = elim (find_step e r.node_id e.step_count 0) [
  | none ↦ none
  | some i ↦
      if (step_at e i).ordinal == e.remaining + 1 && forward_route_matches e (step_at e i) r
      then some i
      else none
]

unfoldable pub recover_success : Recovery → JournalRecord → Check Stopped Recovery
unfolding next_step
recover_success s r = elim (next_step s.execution r) [
  | none ↦ inconsistent s
  | some i ↦
      let e = s.execution in
      if s.terminal_action || (step_at e i).forward_request_id != 0
      then inconsistent s
      else pass (record s {
        execution = record e {
          steps = set e.steps i (record (step_at e i) { forward_request_id = r.request_id });
          remaining = e.remaining + 1;
        };
      })
]

unfoldable pub recover_failure : Recovery → JournalRecord → Check Stopped Recovery
unfolding next_step
recover_failure s r = elim (next_step s.execution r) [
  | none ↦ inconsistent s
  | some i ↦
      if s.terminal_action
      then inconsistent s
      else pass (record s {
        terminal_action = true;
        execution = record s.execution { original_outcome = r.outcome };
      })
]

unfoldable pub recover_finish : Recovery → JournalRecord → Check Stopped Recovery
recover_finish s r =
    let e = s.execution in
    let successful =
      not s.terminal_action && r.outcome == Outcome.success && e.remaining == e.step_count in
    if not successful && (not s.terminal_action || e.original_outcome != r.outcome)
    then inconsistent s
    else pass (record s { finished = true; execution = record e { original_outcome = r.outcome } })

abbrev note_request : Recovery → JournalRecord → Recovery
note_request s r = record s {
  largest_request = if ltb s.largest_request r.request_id then r.request_id else s.largest_request;
}

-- A record of the execution.
unfoldable pub recover_own : Recovery → JournalRecord → Check Stopped Recovery
unfolding recover_success recover_failure recover_finish
recover_own s r =
    if r.workflow_id != s.execution.workflow_id
      || r.image_fingerprint != s.execution.image_fingerprint
    then inconsistent s
    else if r.kind == Kind.execution_started
    then (if s.started then inconsistent s else pass (record s { started = true }))
    else if not s.started || s.finished
    then inconsistent s
    else if r.kind == Kind.action_succeeded
    then recover_success (note_request s r) r
    else if r.kind == Kind.action_failed || r.kind == Kind.action_unknown
    then recover_failure (note_request s r) r
    else if r.kind == Kind.execution_finished
    then recover_finish (note_request s r) r
    else pass (note_request s r)

-- One record of the journal; one that does not decode is skipped.
unfoldable pub recover_record :
    Recovery → Check JournalResult JournalRecord → Check Stopped Recovery
unfolding recover_own
recover_record s (fail code) = pass s
recover_record s (pass r) =
    if r.execution_id != s.execution.execution_id then pass s else recover_own s r

unfoldable pub recover_loop : ℕ → Recovery → List ℕ → Check Stopped Recovery
unfolding recover_record
recover_loop zero s bytes = pass s
recover_loop (suc rounds) s bytes = do
  s' ← recover_record s (decode_record bytes record_size)
  recover_loop rounds s' (drop record_size bytes)

abbrev journal_is_ok : JournalResult → Bool
journal_is_ok Journal.ok = true
journal_is_ok _ = false

abbrev blank_summary : JournalScan.Summary
blank_summary = record {
  record_count = 0;
  next_sequence = 0;
  next_execution_id = 0;
  interrupted = [];
}

abbrev blank_tokens : TokenScan.Summary
blank_tokens = record { record_count = 0; next_sequence = 0 }

module _ (v : Verifier) (scratch : List ℕ) where
  unfoldable pub token_loop : ℕ → SagaExecution → ℕ → Check Stopped SagaExecution
  unfolding check_token
  token_loop zero e index = pass e
  token_loop (suc rounds) e index = do
    e' ← check_token v scratch e index
    token_loop rounds e' (index + 1)

  -- What follows the loop over the journal.
  unfoldable pub recover_plan : Recovery → Check Stopped SagaExecution
  unfolding token_loop
  recover_plan s =
      let e = record s.execution { completed_steps = s.execution.remaining } in
      if not s.started || not s.finished || s.largest_request == 2 ^ 64 - 1
      then inconsistent s
      else if e.original_outcome == Outcome.unknown
      then fail (unsafe_history, record e { state = blocked })
      else if e.original_outcome == Outcome.success
      then pass (record e { remaining = 0; state = complete })
      else if e.original_outcome != Outcome.app_error && e.original_outcome != Outcome.not_sent
      then fail (inconsistent_history, e)
      else (do
        e' ← token_loop e.remaining (record e { next_request_id = s.largest_request + 1 }) 0
        pass (record e' { state = if e'.remaining == 0 then complete else ready }))

  -- From the point where the arguments, the image and the two logs have passed.
  unfoldable pub recover_from : SagaExecution → List ℕ → ℕ → Check Stopped SagaExecution
  unfolding load_steps recover_loop recover_plan
  recover_from fresh journal journal_bytes = elim (load_steps fresh) [
    | fail e ↦ fail (not_saga, e)
    | pass loaded ↦ do
      s ←
          recover_loop (journal_bytes / record_size)
            (record {
              execution = loaded;
              started = false;
              finished = false;
              terminal_action = false;
              largest_request = 0;
            })
            journal
      recover_plan s
  ]

  -- The code, and `*execution` after the call.
  unfoldable pub recover :
      Option SagaExecution
      → Option (List ℕ)
      → ℕ
      → Option (List ℕ)
      → ℕ
      → Option (List ℕ)
      → ℕ
      → ℕ
      → ℕ
      → SagaResult × Option SagaExecution
  unfolding recover_from blank_execution
  recover none image image_size journal journal_bytes tokens token_bytes execution_id workflow_id =
      (invalid_argument, none)
  recover (some old) none image_size journal journal_bytes tokens token_bytes execution_id
        workflow_id =
      (invalid_argument, some old)
  recover (some old) (some image) image_size journal journal_bytes tokens token_bytes execution_id
        workflow_id =
      if (is_null journal && journal_bytes != 0)
        || (is_null tokens && token_bytes != 0)
        || execution_id == 0
        || workflow_id == 0
      then (invalid_argument, some old)
      else if not (is_ok (v.validate image image_size).0)
      then (invalid_image, some old)
      else if not (
          journal_is_ok
            (JournalScan.scan {C = Unit} journal journal_bytes none tt (some blank_summary)).0)
      then (inconsistent_history, some old)
      else if not (
          Compensation.is_ok
            (TokenScan.scan {C = Unit} tokens token_bytes none tt (some blank_tokens)).0)
      then (invalid_token, some old)
      else outputs (
          recover_from
            (record (blank_execution image image_size execution_id workflow_id) {
              tokens = tokens;
              token_bytes = token_bytes;
            })
            (pointee journal) journal_bytes)

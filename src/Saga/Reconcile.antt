-- ===== src/Saga/Reconcile.antt =====
-- `hermas_saga_reconcile` of src/saga.c.
use hermas.Base.{
  ℕ, zero, suc, ◌+◌, ◌-◌, ◌/◌, ◌^◌, Bool, true, false, not, ◌&&◌, ◌||◌, Option, none, some, List,
  [], ◌∷◌, drop, ltb, ◌==◌, ◌!=◌, if◌then◌else◌,
}
use hermas.Base.Check.{Check, fail, pass, ◌>>=◌, ◌>>◌, refuse}
use hermas.Protocol.{is_null, pointee}
use hermas.Protocol.Outcome
use hermas.SagaLog
use hermas.SagaLog.{SagaLogRecord, SagaLogResult, record_size, decode_record}
use hermas.SagaLog.Kind
use hermas.SagaLog.Scan.{Summary, scan}
use hermas.SagaLog.Transition.{Active}
use hermas.Saga.{
  SagaExecution, SagaResult, invalid_argument, inconsistent_history, unsafe_history, invalid_state,
  ready, complete, blocked, is_ready, is_complete,
}
use hermas.Saga.Live.{Stopped, outputs}

-- The locals of the loop over the log.
pub record Found : Type 0 where
  pub started : Bool
  pub finished : Bool
  pub finished_outcome : ℕ
  pub initial_ordinal : ℕ
  pub largest_request : ℕ

abbrev note_start : Found → SagaLogRecord → Found
note_start s r =
    if r.kind == Kind.started then record s { started = true; initial_ordinal = r.ordinal } else s

abbrev note_request : Found → SagaLogRecord → Found
note_request s r = record s {
  largest_request = if ltb s.largest_request r.request_id then r.request_id else s.largest_request;
}

abbrev note_finish : Found → SagaLogRecord → Found
note_finish s r =
    if r.kind == Kind.finished
    then record s { finished = true; finished_outcome = r.outcome }
    else s

-- A record of the execution.
unfoldable pub reconcile_own : SagaExecution → Found → SagaLogRecord → Check SagaResult Found
reconcile_own e s r = do
  refuse (r.workflow_id != e.workflow_id || r.image_fingerprint != e.image_fingerprint)
      inconsistent_history
  refuse
      (if r.kind == Kind.started
        then s.started || r.outcome != e.original_outcome
        else not s.started || s.finished)
      inconsistent_history
  pass (note_finish (note_request (note_start s r) r) r)

unfoldable pub reconcile_record : SagaExecution → Found → SagaLogRecord → Check SagaResult Found
unfolding reconcile_own
reconcile_record e s r = if r.execution_id != e.execution_id then pass s else reconcile_own e s r

abbrev decoded : Check SagaLogResult SagaLogRecord → Check SagaResult SagaLogRecord
decoded (fail code) = fail inconsistent_history
decoded (pass r) = pass r

unfoldable pub reconcile_loop : ℕ → SagaExecution → Found → List ℕ → Check SagaResult Found
unfolding reconcile_record
reconcile_loop zero e s bytes = pass s
reconcile_loop (suc rounds) e s bytes = do
  r ← decoded (decode_record bytes record_size)
  s' ← reconcile_record e s r
  reconcile_loop rounds e s' (drop record_size bytes)

-- The first active saga of the execution, `none` for the null pointer.
unfoldable pub find_own : ℕ → List Active → Option Active
find_own id [] = none
find_own id (a ∷ active) =
    let rest = find_own id active in if a.execution_id == id then some a else rest

-- What follows for a saga that is still active. `remaining` is on 8 bits, and no larger before.
unfoldable pub reconcile_active : SagaExecution → Active → Check Stopped SagaExecution
reconcile_active e a =
    let e' = record e { remaining = a.next_ordinal } in
    if ltb e.remaining a.next_ordinal
    then fail (inconsistent_history, e)
    else if a.has_open_delivery != 0
    then fail
        (unsafe_history, record e' { compensation_outcome = Outcome.unknown; state = blocked })
    else if a.terminal_outcome != Outcome.none
    then pass (record e' { compensation_outcome = a.terminal_outcome; state = blocked })
    else pass (record e' { state = if e'.remaining == 0 then complete else ready })

-- What follows for a saga that the log finished.
unfoldable pub reconcile_finished : SagaExecution → ℕ → SagaExecution
reconcile_finished e outcome =
    let e' = record e { compensation_outcome = outcome } in
    if outcome == Outcome.success
    then record e' { remaining = 0; state = complete }
    else record e' { state = blocked }

-- What follows the loop over the log.
unfoldable pub reconcile_plan : SagaExecution → Found → List Active → Check Stopped SagaExecution
unfolding find_own reconcile_active reconcile_finished
reconcile_plan e s active =
    let e' = record e { next_request_id = s.largest_request + 1 } in
    if not s.started
    then pass e
    else if s.initial_ordinal != e.remaining || s.largest_request == 2 ^ 64 - 1
    then fail (inconsistent_history, e)
    else if s.finished
    then pass (reconcile_finished e' s.finished_outcome)
    else elim (find_own e.execution_id active) [
      | none ↦ fail (inconsistent_history, e')
      | some a ↦ reconcile_active e' a
    ]

abbrev keeping : {A : Type 0} → SagaExecution → Check SagaResult A → Check Stopped A
keeping e (fail code) = fail (code, e)
keeping e (pass a) = pass a

-- `next_request_id - 1` on 64 bits.
abbrev previous_request : SagaExecution → ℕ
previous_request e = if e.next_request_id == 0 then 2 ^ 64 - 1 else e.next_request_id - 1

abbrev blank_summary : Summary
blank_summary = record { record_count = 0; next_sequence = 0; active = [] }

abbrev active_of : Option Summary → List Active
active_of none = []
active_of (some s) = s.active

-- The code, and `*execution` after the call.
unfoldable pub reconcile :
    Option SagaExecution → Option (List ℕ) → ℕ → SagaResult × Option SagaExecution
unfolding reconcile_loop reconcile_plan
reconcile none saga_log saga_log_bytes = (invalid_argument, none)
reconcile (some e) saga_log saga_log_bytes =
    let (scanned, summary) = scan saga_log saga_log_bytes (some blank_summary) in
    if is_null saga_log && saga_log_bytes != 0
    then (invalid_argument, some e)
    else if not (is_ready e.state) && not (is_complete e.state)
    then (invalid_state, some e)
    else if not (SagaLog.is_ok scanned)
    then (inconsistent_history, some e)
    else outputs (do
      s ← keeping e (
          reconcile_loop (saga_log_bytes / record_size) e
            (record {
              started = false;
              finished = false;
              finished_outcome = Outcome.none;
              initial_ordinal = 0;
              largest_request = previous_request e;
            })
            (pointee saga_log))
      reconcile_plan e s (active_of summary))

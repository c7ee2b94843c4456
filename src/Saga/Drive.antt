-- ===== src/Saga/Drive.antt =====
-- Sequences of calls of the driver of src/saga.c, from `hermas_saga_driver_begin` on.
use hermas.Base.{
  ℕ, ◌≡◌, ◌≢◌, ◌∙◌, sym, ap, subst, subst⁻¹, refl, arith, inl, inr, true, false, ◌&&◌, Option, none,
  some, List, [], ◌∷◌, ◌++◌, append_assoc, Bool-cases, Option-cases, if◌then◌else◌, ◌==◌,
}
use hermas.Image.{Verifier}
use hermas.SagaLog.{SagaLogRecord}
use hermas.SagaLog.Kind
use hermas.SagaLog.Transition.Phase.{Phase, closed}
use hermas.SagaLog.Transition.History.{Trace, done, mine, other, succeeded_ordinals, countdown}
use hermas.Saga.{SagaExecution, SagaResult, ok, succeeded, ready}
use hermas.Saga.Driver.{
  Log, Driver, driver_record, append_driver_record, driver_begin, driver_prepare, driver_mark_sent,
  driver_mark_not_sent, driver_mark_unknown, driver_accept_result, DriverPrepared,
}
use hermas.Saga.Machine.{Operation, to_prepare, to_send, to_fail, to_lose, to_accept}
use hermas.Saga.Logged.{phase, Placed, Logs, Wrote, nothing, Wrote-append, Undone}
use hermas.Saga.Steps.{start-logged, driver_record-id, Undone-record}
use hermas.Saga.Follows.{
  driver_mark_sent-Logs, driver_mark_not_sent-Logs, driver_mark_unknown-Logs, driver_prepare-Logs,
  driver_accept_result-Logs, appended, succeeded→ok,
}

module _ {W : Type 0} (log : Log W) (v : Verifier) where
  -- A call of the driver.
  abbrev pub drive : Operation → Driver W → SagaResult × Option (Driver W)
  drive (to_prepare buffer capacity old) d =
      let (code, d', _, _) = driver_prepare log v (some d) buffer capacity (some old) in (code, d')
  drive to_send d = driver_mark_sent log (some d)
  drive to_fail d = driver_mark_not_sent log (some d)
  drive to_lose d = driver_mark_unknown log (some d)
  drive (to_accept r) d = driver_accept_result log v (some d) (some r)

  -- The driver after a call that returned OK.
  abbrev pub if_ok : SagaResult × Option (Driver W) → Option (Driver W)
  if_ok (code, d) = if succeeded code then d else none

  -- Calls that all return OK, `none` if one does not.
  abbrev pub drive_all : List Operation → Driver W → Option (Driver W)
  drive_all [] d = some d
  drive_all (op ∷ ops) d = elim (if_ok (drive op d)) [ none ↦ none | some d' ↦ drive_all ops d' ]

  abbrev then_all : List Operation → Option (Driver W) → Option (Driver W)
  then_all ops none = none
  then_all ops (some d) = drive_all ops d

  next_driver :
      (ops : List Operation) {o o' : Option (Driver W)} → o ≡ o' → then_all ops o ≡ then_all ops o'
  next_driver ops e = ap (then_all ops) e

abbrev with_buffers :
    {W : Type 0} (log : Log W)
    → SagaResult × Option (Driver W)
    → DriverPrepared log
    → DriverPrepared log
with_buffers log (code, d) (_, _, buffer, invocation) = (code, d, buffer, invocation)

succeeded_ordinals-append :
    (id : ℕ) (rs ss : List SagaLogRecord)
    → succeeded_ordinals id (rs ++ ss) ≡ succeeded_ordinals id rs ++ succeeded_ordinals id ss
succeeded_ordinals-append id [] ss = refl
succeeded_ordinals-append id (r ∷ rs) ss =
    let rest = succeeded_ordinals-append id rs ss in
    elim (Bool-cases (r.execution_id == id && r.kind == Kind.step_succeeded)) [
      | inl counts ↦ rw (counts, rest) refl
      | inr skips ↦ rw (skips, rest) refl
    ]

Trace-id :
    {id id' : ℕ} {p q : Phase} {rs : List SagaLogRecord}
    → id ≡ id'
    → Trace id p rs q
    → Trace id' p rs q
Trace-id same t = rw same at t

Undone-append :
    (e d c : SagaExecution) (rs ss : List SagaLogRecord)
    → d.execution_id ≡ e.execution_id
    → Undone e d rs
    → Undone d c ss
    → Undone e c (rs ++ ss)
Undone-append e d c rs ss same first rest =
    rw
      (
        succeeded_ordinals-append e.execution_id rs ss,
        append_assoc (succeeded_ordinals e.execution_id rs) (succeeded_ordinals e.execution_id ss)
            (countdown c.remaining),
        rw same at rest,
      )
      first

Trace-append :
    {id : ℕ} {p q s : Phase} {rs ss : List SagaLogRecord}
    → Trace id p rs q
    → Trace id q ss s
    → Trace id p (rs ++ ss) s
Trace-append done u = u
Trace-append (mine own step t) u = mine own step (Trace-append t u)
Trace-append (other foreign t) u = other foreign (Trace-append t u)

if_ok-ok :
    {W : Type 0} (log : Log W) (v : Verifier) (r : SagaResult × Option (Driver W)) (d : Driver W)
    → if_ok log v r ≡ some d
    → r ≡ (ok, some d)
if_ok-ok {W = W} log v (ok, x) d h = ap (λ (y : Option (Driver W)). (ok, y)) h
if_ok-ok log v (code, x) d h = absurd cc

module _ {W : Type 0} (log : Log W) (v : Verifier) where
  drive-Logs :
      (op : Operation) (d d' : Driver W)
      → Placed d.execution
      → drive log v op d ≡ (ok, some d')
      → Logs log d d'
  drive-Logs (to_prepare buffer capacity old) d d' at h =
      let r = driver_prepare log v (some d) buffer capacity (some old) in
      driver_prepare-Logs log v d d' buffer r.2 capacity old r.3 at
        (ap (λ (x : SagaResult × Option (Driver W)). with_buffers log x r) h)
  drive-Logs to_send d d' at h = driver_mark_sent-Logs log d d' h
  drive-Logs to_fail d d' at h = driver_mark_not_sent-Logs log d d' h
  drive-Logs to_lose d d' at h = driver_mark_unknown-Logs log d d' h
  drive-Logs (to_accept r) d d' at h = driver_accept_result-Logs log v d d' r at h

  no_calls : (d : Driver W) → Logs log d d
  no_calls d = record {
    records = [];
    wrote = nothing;
    trace = done;
    placed = λ at. at;
    undone = refl;
    same_id = refl;
  }

  then_Logs : (d d1 d' : Driver W) → Logs log d d1 → Logs log d1 d' → Logs log d d'
  then_Logs d d1 d' first rest = record {
    records = first.records ++ rest.records;
    wrote = Wrote-append log first.wrote rest.wrote;
    trace = Trace-append first.trace (Trace-id first.same_id rest.trace);
    placed = λ at. rest.placed (first.placed at);
    undone =
        Undone-append d.execution d1.execution d'.execution first.records rest.records first.same_id
          first.undone rest.undone;
    same_id = rest.same_id ∙ first.same_id;
  }

  drive_all-next :
      (op : Operation) (ops : List Operation) (d d1 d' : Driver W)
      → if_ok log v (drive log v op d) ≡ some d1
      → drive_all log v (op ∷ ops) d ≡ some d'
      → drive_all log v ops d1 ≡ some d'
  drive_all-next op ops d d1 d' good h = sym (next_driver log v ops good) ∙ h

  drive_all-stops :
      (op : Operation) (ops : List Operation) (d d' : Driver W)
      → if_ok log v (drive log v op d) ≡ none
      → drive_all log v (op ∷ ops) d ≢ some d'
  drive_all-stops op ops d d' failed h =
      let no : Path (Option (Driver W)) none (some d') = sym (next_driver log v ops failed) ∙ h in
      cc

  drive_all-Logs :
      (ops : List Operation) (d d' : Driver W)
      → Placed d.execution
      → drive_all log v ops d ≡ some d'
      → Logs log d d'
  drive_all-Logs [] d d' at h =
      let same : d ≡ d' = cc in subst (λ x. Logs log d x) same (no_calls d)
  drive_all-Logs (op ∷ ops) d d' at h = elim (Option-cases (if_ok log v (drive log v op d))) [
    | inl failed ↦ absurd (drive_all-stops op ops d d' failed h)
    | inr (d1, good) ↦
        let first = drive-Logs op d d1 at (if_ok-ok log v (drive log v op d) d1 good) in
        let rest =
          drive_all-Logs ops d1 d' (first.placed at) (drive_all-next op ops d d1 d' good h) in
        then_Logs d d1 d' first rest
  ]

  begin-Logs :
      (old d : Driver W) (e : SagaExecution) (w : W)
      → e.state ≡ ready
      → driver_begin log (some old) (some e) (some w) false ≡ (ok, some d)
      → (d.execution ≡ e)
        × Wrote log (some w) (driver_record e Kind.started e.original_outcome false ∷ []) d.log
  unfolding driver_begin
  begin-Logs old d e w free h = elim (Bool-cases (log.can_write w)) [
    | inr mute ↦ absurd (let no = rw mute at h in cc)
    | inl able ↦
        let fresh : Driver W = record { execution = e; log = some w; started = false } in
        let r = append_driver_record log fresh Kind.started e.original_outcome false in
        elim (Bool-cases (succeeded r.0)) [
          | inr failed ↦ absurd (let no = rw (able, free, failed) at h in cc)
          | inl good ↦
              let first =
                appended log fresh r.1 Kind.started e.original_outcome false
                  (ap (λ (c : SagaResult). (c, r.1)) (succeeded→ok r.0 good)) in
              let opened = rw (able, free, good) at h in
              let same : d ≡ record r.1 { started = true } = cc in
              (rw same (first.0), rw same (first.2))
        ]
  ]

  begun-Trace :
      (d d' : Driver W) (e : SagaExecution) (rs : List SagaLogRecord)
      → d.execution ≡ e
      → Trace d.execution.execution_id (phase d.execution) rs (phase d'.execution)
      → Trace e.execution_id (phase e) rs (phase d'.execution)
  begun-Trace d d' e rs same t =
      subst (λ (x : SagaExecution). Trace x.execution_id (phase x) rs (phase d'.execution)) same t

  begun-Undone :
      (d d' : Driver W) (e : SagaExecution) (rs : List SagaLogRecord)
      → d.execution ≡ e
      → Undone d.execution d'.execution rs
      → Undone e d'.execution rs
  begun-Undone d d' e rs same u = subst (λ (x : SagaExecution). Undone x d'.execution rs) same u

  -- Whatever the driver is called on, after it began a saga that is ready and whose steps stand at
  -- their ordinals, and as long as its calls return OK: from the log's state at the begin to its
  -- state now, the log has taken records in order, each by an append that returned OK; they are one
  -- life of the execution's saga as the log's scan knows it, from closed to the phase that the
  -- driver's execution is in; and the steps that these records say are undone, followed by the steps
  -- that remain, are all steps from the last to the first. This holds of every log, that of
  -- `hermas_saga_log_writer_append` among them.
  pub drive_all-logged :
      (ops : List Operation) (old d d' : Driver W) (e : SagaExecution) (w : W)
      → e.state ≡ ready
      → Placed e
      → driver_begin log (some old) (some e) (some w) false ≡ (ok, some d)
      → drive_all log v ops d ≡ some d'
      → (records : List SagaLogRecord) × Wrote log (some w) records d'.log
        × Trace e.execution_id closed records (phase d'.execution)
        × (succeeded_ordinals e.execution_id records ++ countdown d'.execution.remaining
            ≡ countdown e.remaining)
  drive_all-logged ops old d d' e w free placed begun driven =
      let (same, began) = begin-Logs old d e w free begun in
      let logs = drive_all-Logs ops d d' (subst⁻¹ Placed same placed) driven in
      let first = driver_record e Kind.started e.original_outcome false in
      (
        first ∷ logs.records,
        Wrote-append log began logs.wrote,
        mine (driver_record-id e Kind.started e.original_outcome false)
            (start-logged e e.original_outcome free)
            (begun-Trace d d' e logs.records same logs.trace),
        Undone-record e d'.execution e Kind.started e.original_outcome false logs.records
            (omega arith) (begun-Undone d d' e logs.records same logs.undone),
      )

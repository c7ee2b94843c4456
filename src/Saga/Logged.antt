-- ===== src/Saga/Logged.antt =====
-- What the driver of src/saga.c writes to the saga log, against the phases of the log's own scan.
use hermas.Base.{
  ℕ, ◌+◌, ◌-◌, ◌<◌, ◌≡◌, ◌≢◌, ap, refl, arith, inl, inr, Bool, true, Option, some, List, [], ◌∷◌,
  ◌++◌, Bool-cases, Option-cases,
}
use hermas.SagaLog.{SagaLogRecord}
use hermas.SagaLog.Kind
use hermas.SagaLog.Transition.Phase.{Phase, Route, closed, waiting, holding, sending, Step}
use hermas.SagaLog.Transition.History.{
  Trace, done, mine, succeeded_ordinals, countdown, skipped, counted, countdown-step,
}
use hermas.Saga.{SagaExecution, ok, empty, ready, prepared, sent, complete, blocked, step_at}
use hermas.Saga.Operations.{open_step}
use hermas.Saga.Driver.{Log, Driver, append_record}

-- The route of the compensation that is open.
unfoldable pub route : SagaExecution → Route
route e = record {
  request_id = e.current_request_id;
  forward_node = (open_step e).forward_node;
  app_id = (open_step e).compensation_app_id;
  action_id = (open_step e).compensation_action_id;
  ordinal = (open_step e).ordinal;
}

-- The phase in which the log has the saga of a driver that has begun.
unfoldable pub phase : SagaExecution → Phase
unfolding route
phase e = elim e.state [
  | empty ↦ closed
  | ready ↦ waiting e.remaining
  | prepared ↦ holding (route e)
  | sent ↦ sending (route e)
  | complete ↦ closed
  | blocked ↦ closed
]

-- Each step that remains stands at its ordinal.
abbrev pub Placed : SagaExecution → Type 0
Placed e = (i : ℕ) → i < e.remaining → (step_at e i).ordinal ≡ i + 1

pub open_step-ordinal :
    (e : SagaExecution) → Placed e → e.remaining ≢ 0 → (open_step e).ordinal ≡ e.remaining
open_step-ordinal e placed left =
    let at = placed (e.remaining - 1) (omega arith) in omega (arith, at)

-- The compensations that the records tell of are the last steps that remained, in reverse order.
abbrev pub Undone : SagaExecution → SagaExecution → List SagaLogRecord → Type 0
Undone e e' rs =
    succeeded_ordinals e.execution_id rs ++ countdown e'.remaining ≡ countdown e.remaining

module _ (e e' : SagaExecution) (r : SagaLogRecord) (rs : List SagaLogRecord) where
  pub Undone-none : r.kind ≢ Kind.step_succeeded → Undone e e' rs → Undone e e' (r ∷ rs)
  Undone-none k h = rw (skipped e.execution_id r rs (inr k)) h

  pub Undone-one :
      r.kind ≡ Kind.step_succeeded
      → r.execution_id ≡ e.execution_id
      → r.ordinal ≡ e.remaining
      → e.remaining ≢ 0
      → e'.remaining ≡ e.remaining - 1
      → succeeded_ordinals e.execution_id rs ≡ []
      → Undone e e' (r ∷ rs)
  Undone-one k own at left less no_more =
      rw (counted e.execution_id r rs own k, no_more, at, less, countdown-step e.remaining left)
        refl

pub Undone-same : (e e' : SagaExecution) → e'.remaining ≡ e.remaining → Undone e e' []
Undone-same e e' h = rw h refl

module _ {W : Type 0} (log : Log W) where
  -- The records that the log has taken, in their order, each by an append that returned OK, from one
  -- state of the log to another.
  pub data Wrote : Option W → List SagaLogRecord → Option W → Type 0 where
    nothing : {o : Option W} → Wrote o [] o
    next :
        {w w' : W} {r : SagaLogRecord} {rs : List SagaLogRecord} {o : Option W}
        → log.append w r ≡ (true, w')
        → Wrote (some w') rs o
        → Wrote (some w) (r ∷ rs) o

  pub Wrote-append :
      {o o' o'' : Option W} {rs ss : List SagaLogRecord}
      → Wrote o rs o'
      → Wrote o' ss o''
      → Wrote o (rs ++ ss) o''
  Wrote-append nothing more = more
  Wrote-append (next taken rest) more = next taken (Wrote-append rest more)

  -- What an append that returns OK does.
  abbrev pub Appended : Driver W → SagaLogRecord → Driver W → Type 0
  Appended d r d' =
      (d'.execution ≡ d.execution) × (d'.started ≡ d.started) × Wrote d.log (r ∷ []) d'.log

  pub append_record-Appended :
      (d d' : Driver W) (r : SagaLogRecord) → append_record log d r ≡ (ok, d') → Appended d r d'
  unfolding append_record
  append_record-Appended d d' r h = elim (Option-cases d.log) [
    | inl absent ↦ absurd (let bad = rw absent at h in cc)
    | inr (w, present) ↦ elim (Bool-cases (log.append w r).0) [
      | inr refused ↦ absurd (let bad = rw (present, refused) at h in cc)
      | inl written ↦
          let w' = (log.append w r).1 in
          let stored : log.append w r ≡ (true, w') = ap (λ (b : Bool). (b, w')) written in
          let good = rw (present, written) at h in
          let result : d' ≡ record d { log = some w' } = cc in
          rw (result, present) (refl, refl, next stored nothing)
    ]
  ]

  -- What a call of the driver adds to the log: records that are steps of the execution's saga.
  pub record Logs (d d' : Driver W) : Type 0 where
    pub records : List SagaLogRecord
    pub wrote : Wrote d.log records d'.log
    pub trace : Trace d.execution.execution_id (phase d.execution) records (phase d'.execution)
    pub placed : Placed d.execution → Placed d'.execution
    pub undone : Undone d.execution d'.execution records
    pub same_id : d'.execution.execution_id ≡ d.execution.execution_id

  -- A call that changes the execution and then appends one record, or two.
  pub one_record :
      (d d' : Driver W) (e : SagaExecution) (r : SagaLogRecord)
      → Appended (record d { execution = e }) r d'
      → r.execution_id ≡ d.execution.execution_id
      → e.execution_id ≡ d.execution.execution_id
      → (Placed d.execution → Placed e)
      → Step (phase d.execution) r (phase e)
      → Undone d.execution e (r ∷ [])
      → Logs d d'
  one_record d d' e r (same, _, added) own own' placed step undone = record {
    records = r ∷ [];
    wrote = added;
    trace = rw same (mine own step done);
    placed = rw same placed;
    undone = rw same undone;
    same_id = rw same own';
  }

  pub two_records :
      (d d' d'' : Driver W) (e : SagaExecution) (r r' : SagaLogRecord) (p : Phase)
      → Appended (record d { execution = e }) r d'
      → Appended d' r' d''
      → r.execution_id ≡ d.execution.execution_id
      → r'.execution_id ≡ d.execution.execution_id
      → e.execution_id ≡ d.execution.execution_id
      → (Placed d.execution → Placed e)
      → Step (phase d.execution) r p
      → Step p r' (phase e)
      → Undone d.execution e (r ∷ r' ∷ [])
      → Logs d d''
  two_records d d' d'' e r r' p (same, _, added) (same', _, added') own own' own'' placed step step'
        undone =
      record {
        records = r ∷ r' ∷ [];
        wrote = Wrote-append added added';
        trace = rw (same', same) (mine own step (mine own' step' done));
        placed = rw (same', same) placed;
        undone = rw (same', same) undone;
        same_id = rw (same', same) own'';
      }

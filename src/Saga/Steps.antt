-- ===== src/Saga/Steps.antt =====
-- The records of the driver of src/saga.c, one by one, as steps of the saga that the log tells of.
use hermas.Base.{
  ℕ, ◌-◌, ◌≡◌, ◌≢◌, ◌⊎◌, sym, ap, ◌∙◌, refl, arith, inl, inr, Bool, true, false, Option, some, List,
  [], ◌∷◌, Bool-cases, ◌==◌,
}
use hermas.Protocol.{Frame}
use hermas.Protocol.Outcome
use hermas.SagaLog.{SagaLogRecord}
use hermas.SagaLog.Kind
use hermas.SagaLog.Transition.Phase as LogPhase
use hermas.SagaLog.Transition.Phase.{
  Phase, route_of, closed, waiting, holding, sending, failed, Step,
}
use hermas.SagaLog.Transition.History.{succeeded_ordinals, skipped}
use hermas.Saga.{SagaExecution, SagaResult, ok, succeeded, ready, prepared, sent, complete, blocked}
use hermas.Saga.Operations.{open_step, with_delivery}
use hermas.Saga.Driver.{driver_record}
use hermas.Saga.Machine as Machine
use hermas.Saga.Machine.{
  Operation, to_prepare, to_send, to_fail, to_lose, to_accept, Move, Called, moved, refused,
}
use hermas.Saga.Logged.{phase, route, Placed, open_step-ordinal, Undone, Undone-none, Undone-one}

-- A call either fails or moves the execution.
pub accepted :
    {e : SagaExecution} {op : Operation} {r : SagaResult × Option SagaExecution}
    → Called e op r
    → (succeeded r.0 ≡ false) ⊎ ((e' : SagaExecution) × (r ≡ (ok, some e')) × Move e e' op)
accepted (moved {e' = e'} m) = inr (e', refl, m)
accepted (refused bad) = inl bad

module _ (e : SagaExecution) where
  pub phase-ready : e.state ≡ ready → phase e ≡ waiting e.remaining
  unfolding phase
  phase-ready h = rw h refl

  phase-prepared : e.state ≡ prepared → phase e ≡ holding (route e)
  unfolding phase
  phase-prepared h = rw h refl

  phase-sent : e.state ≡ sent → phase e ≡ sending (route e)
  unfolding phase
  phase-sent h = rw h refl

-- A move keeps the steps, the ids, and does not add to what remains.
pub Move-keeps :
    {e e' : SagaExecution} {op : Operation}
    → Move e e' op
    → (e'.execution_id ≡ e.execution_id) × (Placed e → Placed e')
Move-keeps (Machine.prepares s l f g h) = rw h (refl, λ p. p)
Move-keeps (Machine.sends s h) = rw h (refl, λ p. p)
Move-keeps (Machine.fails s h) = rw h (refl, λ p. p)
Move-keeps (Machine.loses s h) = rw h (refl, λ p. p)
Move-keeps (Machine.rejects s l f g h) = rw h (refl, λ p. p)
Move-keeps (Machine.compensates s l f g h) = rw h (refl, λ p i below. p i (omega arith))

pub driver_record-id :
    (e : SagaExecution) (kind outcome : ℕ) (action : Bool)
    → (driver_record e kind outcome action).execution_id ≡ e.execution_id
unfolding driver_record
driver_record-id e kind outcome action = refl

prepared_at :
    (p q : Phase) (r : SagaLogRecord)
    → r.kind ≡ Kind.delivery_prepared
    → p ≡ waiting r.ordinal
    → q ≡ holding (route_of r)
    → Step p r q
prepared_at p q r k before after = rw (before, after) (LogPhase.prepared k)

succeeded_at :
    (p q : Phase) (r : SagaLogRecord)
    → r.kind ≡ Kind.step_succeeded
    → p ≡ sending (route_of r)
    → q ≡ waiting (r.ordinal - 1)
    → Step p r q
succeeded_at p q r k before after = rw (before, after) (LogPhase.succeeded k)

pub prepare-logged :
    {e e' : SagaExecution} {buffer : Option (List ℕ)} {capacity : ℕ} {old : Frame}
    → Placed e
    → Move e e' (to_prepare buffer capacity old)
    → Step (phase e) (driver_record e' Kind.delivery_prepared Outcome.none true) (phase e')
unfolding driver_record phase route
prepare-logged {e = e} placed (Machine.prepares s l f g h) = rw h (
    prepared_at (phase e) (phase (with_delivery e))
      (driver_record (with_delivery e) Kind.delivery_prepared Outcome.none true) refl
      (phase-ready e s ∙ ap waiting (sym (open_step-ordinal e placed l))) refl)

pub send-logged :
    {e e' : SagaExecution}
    → Move e e' to_send
    → Step (phase e) (driver_record e' Kind.delivery_sent Outcome.none true) (phase e')
unfolding driver_record phase route
send-logged {e = e} (Machine.sends s h) = rw (h, phase-prepared e s) (LogPhase.sent refl)

pub fail-logged :
    {e e' : SagaExecution}
    → Move e e' to_fail
    → Step
        (phase e)
        (driver_record e' Kind.step_failed Outcome.not_sent true)
        (failed Outcome.not_sent)
unfolding driver_record phase route
fail-logged {e = e} (Machine.fails s h) = rw (h, phase-prepared e s) (LogPhase.not_sent refl refl)

pub lose-logged :
    {e e' : SagaExecution}
    → Move e e' to_lose
    → Step
        (phase e)
        (driver_record e' Kind.step_unknown Outcome.unknown true)
        (failed Outcome.unknown)
unfolding driver_record phase route
lose-logged {e = e} (Machine.loses s h) = rw (h, phase-sent e s) (LogPhase.sent_unknown refl)

-- The last record of a saga that has failed, from a blocked execution.
pub abandon-logged :
    (e e' : SagaExecution) (outcome : ℕ)
    → e'.state ≡ blocked
    → Step (failed outcome) (driver_record e Kind.finished outcome false) (phase e')
unfolding driver_record phase
abandon-logged e e' outcome h = rw h (LogPhase.abandoned refl)

pub start-logged :
    (e : SagaExecution) (outcome : ℕ)
    → e.state ≡ ready
    → Step closed (driver_record e Kind.started outcome false) (phase e)
unfolding driver_record phase
start-logged e outcome h = rw (phase-ready e h) (LogPhase.started refl)

pub reject-logged :
    {e e' : SagaExecution} {r : Frame}
    → Move e e' (to_accept r)
    → r.outcome ≡ Outcome.app_error
    → Step (phase e) (driver_record e Kind.step_failed r.outcome true) (failed r.outcome)
      × (e'.state ≡ blocked)
unfolding driver_record phase route
reject-logged {e = e} (Machine.rejects s l f g h) o =
    (rw (phase-sent e s) (LogPhase.app_failed refl g), rw h refl)
reject-logged (Machine.compensates s l f g h) o = absurd (omega (arith, g, o))

pub compensate-logged :
    {e e' : SagaExecution} {r : Frame}
    → Placed e
    → Move e e' (to_accept r)
    → r.outcome ≡ Outcome.success
    → Step (phase e) (driver_record e Kind.step_succeeded r.outcome true) (waiting e'.remaining)
      × (((e'.state ≡ ready) × (e'.remaining ≢ 0)) ⊎ ((e'.state ≡ complete) × (e'.remaining ≡ 0)))
unfolding driver_record phase route
compensate-logged {e = e} {r = r} placed (Machine.rejects s l f g h) o =
    absurd (omega (arith, g, o))
compensate-logged {e = e} {r = r} placed (Machine.compensates s l f g h) o = (
  rw h (
      succeeded_at (phase e) (waiting (e.remaining - 1))
        (driver_record e Kind.step_succeeded r.outcome true) refl (phase-sent e s)
        (ap (λ (n : ℕ). waiting (n - 1)) (sym (open_step-ordinal e placed l)))),
  elim (Bool-cases (e.remaining - 1 == 0)) [
    | inl last ↦ inr (rw (h, last) refl, rw h (ground arith))
    | inr more ↦ inl (rw (h, more) refl, rw h (ground arith))
  ],
)

-- The last record of a saga that is undone.
pub complete-logged :
    (e e' : SagaExecution) (outcome : ℕ)
    → outcome ≡ Outcome.success
    → e'.state ≡ complete
    → Step (waiting 0) (driver_record e Kind.finished outcome false) (phase e')
unfolding driver_record phase
complete-logged e e' outcome o h = rw h (LogPhase.compensated refl o)

pub Move-blocks :
    {e e' : SagaExecution} {op : Operation}
    → (op ≡ to_fail) ⊎ (op ≡ to_lose)
    → Move e e' op
    → e'.state ≡ blocked
Move-blocks (inl o) (Machine.prepares s l f g h) = absurd cc
Move-blocks (inr o) (Machine.prepares s l f g h) = absurd cc
Move-blocks (inl o) (Machine.sends s h) = absurd cc
Move-blocks (inr o) (Machine.sends s h) = absurd cc
Move-blocks o (Machine.fails s h) = rw h refl
Move-blocks o (Machine.loses s h) = rw h refl
Move-blocks o (Machine.rejects s l f g h) = rw h refl
Move-blocks (inl o) (Machine.compensates s l f g h) = absurd cc
Move-blocks (inr o) (Machine.compensates s l f g h) = absurd cc

pub accepted-outcome :
    {e e' : SagaExecution} {r : Frame}
    → Move e e' (to_accept r)
    → (r.outcome ≡ Outcome.app_error) ⊎ (r.outcome ≡ Outcome.success)
accepted-outcome (Machine.rejects s l f g h) = inl g
accepted-outcome (Machine.compensates s l f g h) = inr g

pub Move-remaining :
    {e e' : SagaExecution} {op : Operation}
    → ((r : Frame) → op ≢ to_accept r)
    → Move e e' op
    → e'.remaining ≡ e.remaining
Move-remaining other (Machine.prepares s l f g h) = rw h refl
Move-remaining other (Machine.sends s h) = rw h refl
Move-remaining other (Machine.fails s h) = rw h refl
Move-remaining other (Machine.loses s h) = rw h refl
Move-remaining other (Machine.rejects {r = r} s l f g h) = absurd (other r refl)
Move-remaining other (Machine.compensates {r = r} s l f g h) = absurd (other r refl)

pub reject-remaining :
    {e e' : SagaExecution} {r : Frame}
    → Move e e' (to_accept r)
    → r.outcome ≡ Outcome.app_error
    → e'.remaining ≡ e.remaining
reject-remaining (Machine.rejects s l f g h) o = rw h refl
reject-remaining (Machine.compensates s l f g h) o = absurd (omega (arith, g, o))

pub compensate-remaining :
    {e e' : SagaExecution} {r : Frame}
    → Move e e' (to_accept r)
    → r.outcome ≡ Outcome.success
    → (e'.remaining ≡ e.remaining - 1) × (e.remaining ≢ 0)
compensate-remaining (Machine.rejects s l f g h) o = absurd (omega (arith, g, o))
compensate-remaining (Machine.compensates s l f g h) o = (rw h refl, l)

-- The records that are no success of a step.
pub driver_record-kind :
    (e : SagaExecution) (kind outcome : ℕ) (action : Bool)
    → (driver_record e kind outcome action).kind ≡ kind
unfolding driver_record
driver_record-kind e kind outcome action = refl

pub driver_record-ordinal :
    (e : SagaExecution) (kind outcome : ℕ)
    → (driver_record e kind outcome true).ordinal ≡ (open_step e).ordinal
unfolding driver_record
driver_record-ordinal e kind outcome = refl

module _ (d e : SagaExecution) where
  pub Undone-record :
      (x : SagaExecution) (kind outcome : ℕ) (action : Bool) (rs : List SagaLogRecord)
      → kind ≢ Kind.step_succeeded
      → Undone d e rs
      → Undone d e (driver_record x kind outcome action ∷ rs)
  unfolding driver_record
  Undone-record x kind outcome action rs k h =
      Undone-none d e (driver_record x kind outcome action) rs k h

  -- A compensation, with a record after it that is none or with no record.
  pub Undone-success :
      (outcome : ℕ) (rs : List SagaLogRecord)
      → Placed d
      → (e.remaining ≡ d.remaining - 1) × (d.remaining ≢ 0)
      → succeeded_ordinals d.execution_id rs ≡ []
      → Undone d e (driver_record d Kind.step_succeeded outcome true ∷ rs)
  unfolding driver_record
  Undone-success outcome rs placed (less, left) no_more =
      Undone-one d e (driver_record d Kind.step_succeeded outcome true) rs refl refl
        (open_step-ordinal d placed left) left less no_more

  pub no_success :
      (x : SagaExecution) (outcome : ℕ)
      → succeeded_ordinals d.execution_id (driver_record x Kind.finished outcome false ∷ []) ≡ []
  unfolding driver_record
  no_success x outcome =
      skipped d.execution_id (driver_record x Kind.finished outcome false) [] (inr (omega arith))

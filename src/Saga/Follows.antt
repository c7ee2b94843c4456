-- ===== src/Saga/Follows.antt =====
-- The calls of the driver of src/saga.c that return OK, and the steps that they log.
use hermas.Base.{
  ℕ, ◌≡◌, ◌≢◌, ◌⊎◌, ap, ◌∙◌, refl, arith, inl, inr, Bool, true, false, not, ◌||◌, Option, none,
  some, List, [], ◌∷◌, Bool-cases, ◌==◌, if◌then◌else◌,
}
use hermas.Image.{Verifier}
use hermas.Protocol.{Frame}
use hermas.Protocol.Outcome
use hermas.SagaLog.{SagaLogRecord}
use hermas.SagaLog.Kind
use hermas.SagaLog.Transition.Phase.{waiting, failed, Step}
use hermas.Saga.{SagaExecution, SagaResult, ok, succeeded, blocked, is_complete, is_blocked}
use hermas.Saga.Operations.{prepare}
use hermas.Saga.Driver.{
  Log, Driver, driver_record, append_record, append_driver_record, finish_driver, record_result,
  driver_prepare, driver_mark_sent, driver_mark_not_sent, driver_mark_unknown, driver_accept_result,
  some_driver, DriverPrepared,
}
use hermas.Saga.Machine.{
  Move, to_accept, mark_sent-Called, mark_not_sent-Called, mark_unknown-Called, prepare-Called,
  accept_result-Called,
}
use hermas.Saga.Logged.{
  phase, Placed, Appended, append_record-Appended, Logs, one_record, two_records, Undone-same,
}
use hermas.Saga.Steps.{
  accepted, Move-keeps, Move-blocks, phase-ready, Move-remaining, reject-remaining,
  compensate-remaining, Undone-record, Undone-success, no_success, accepted-outcome,
  driver_record-id, prepare-logged, send-logged, fail-logged, lose-logged, abandon-logged,
  reject-logged, compensate-logged, complete-logged,
}

some_ok :
    {W : Type 0} (log : Log W) (r : SagaResult × Driver W) (d : Driver W)
    → some_driver log r ≡ (ok, some d)
    → r ≡ (ok, d)
some_ok log (code, d') d h = cc

pub succeeded→ok : (code : SagaResult) → succeeded code ≡ true → code ≡ ok
succeeded→ok ok h = refl
succeeded→ok _ h = cc

module _ {W : Type 0} (log : Log W) where
  pub appended :
      (d d' : Driver W) (kind outcome : ℕ) (action : Bool)
      → append_driver_record log d kind outcome action ≡ (ok, d')
      → Appended log d (driver_record d.execution kind outcome action) d'
  unfolding append_driver_record
  appended d d' kind outcome action h =
      append_record-Appended log d d' (driver_record d.execution kind outcome action) h

  finish_driver-Appended :
      (d d'' : Driver W) (kind outcome : ℕ)
      → finish_driver log d kind outcome ≡ (ok, d'')
      → (d' : Driver W) × Appended log d (driver_record d.execution kind outcome true) d'
        × Appended log d' (driver_record d'.execution Kind.finished outcome false) d''
  unfolding finish_driver
  finish_driver-Appended d d'' kind outcome h =
      let r = append_driver_record log d kind outcome true in
      elim (Bool-cases (succeeded r.0)) [
        | inr bad ↦ absurd (let failed = rw bad at h in cc)
        | inl good ↦ (
          r.1,
          appended d r.1 kind outcome true
              (ap (λ (c : SagaResult). (c, r.1)) (succeeded→ok r.0 good)),
          appended r.1 d'' Kind.finished outcome false (rw good at h),
        )
      ]

  pub driver_mark_sent-Logs :
      (d d' : Driver W) → driver_mark_sent log (some d) ≡ (ok, some d') → Logs log d d'
  unfolding driver_mark_sent
  driver_mark_sent-Logs d d' h = elim (accepted (mark_sent-Called d.execution)) [
    | inl bad ↦ absurd (let failed = rw bad at h in cc)
    | inr (e, made, move) ↦
        let (own, placed) = Move-keeps move in
        let written =
          some_ok log
            (append_driver_record log (record d { execution = e }) Kind.delivery_sent Outcome.none
              true)
            d' (rw made at h) in
        one_record log d d' e (driver_record e Kind.delivery_sent Outcome.none true)
          (appended (record d { execution = e }) d' Kind.delivery_sent Outcome.none true written)
          (driver_record-id e Kind.delivery_sent Outcome.none true ∙ own) own placed
          (send-logged move)
          (Undone-record d.execution e e Kind.delivery_sent Outcome.none true [] (omega arith)
            (Undone-same d.execution e (Move-remaining (λ r same. cc) move)))
  ]

  -- Two records for a delivery that failed: the step, and the end of the saga.
  finished-Logs :
      (d d'' : Driver W) (e : SagaExecution) (kind outcome : ℕ)
      → finish_driver log (record d { execution = e }) kind outcome ≡ (ok, d'')
      → e.execution_id ≡ d.execution.execution_id
      → (Placed d.execution → Placed e)
      → e.state ≡ blocked
      → kind ≢ Kind.step_succeeded
      → e.remaining ≡ d.execution.remaining
      → Step (phase d.execution) (driver_record e kind outcome true) (failed outcome)
      → Logs log d d''
  finished-Logs d d'' e kind outcome h own placed shut other same step =
      let (d', first, second) =
        finish_driver-Appended (record d { execution = e }) d'' kind outcome h in
      let last = driver_record-id d'.execution Kind.finished outcome false in
      two_records log d d' d'' e (driver_record e kind outcome true)
        (driver_record d'.execution Kind.finished outcome false) (failed outcome) first second
        (driver_record-id e kind outcome true ∙ own) (last ∙ rw first.0 own) own placed step
        (abandon-logged d'.execution e outcome shut)
        (Undone-record d.execution e e kind outcome true
          (driver_record d'.execution Kind.finished outcome false ∷ []) other
          (Undone-record d.execution e d'.execution Kind.finished outcome false [] (omega arith)
            (Undone-same d.execution e same)))

  pub driver_mark_not_sent-Logs :
      (d d' : Driver W) → driver_mark_not_sent log (some d) ≡ (ok, some d') → Logs log d d'
  unfolding driver_mark_not_sent
  driver_mark_not_sent-Logs d d' h = elim (accepted (mark_not_sent-Called d.execution)) [
    | inl bad ↦ absurd (let failed = rw bad at h in cc)
    | inr (e, made, move) ↦
        let (own, placed) = Move-keeps move in
        let written =
          some_ok log
            (finish_driver log (record d { execution = e }) Kind.step_failed Outcome.not_sent) d'
            (rw made at h) in
        finished-Logs d d' e Kind.step_failed Outcome.not_sent written own placed
          (Move-blocks (inl refl) move) (omega arith) (Move-remaining (λ r same. cc) move)
          (fail-logged move)
  ]

  pub driver_mark_unknown-Logs :
      (d d' : Driver W) → driver_mark_unknown log (some d) ≡ (ok, some d') → Logs log d d'
  unfolding driver_mark_unknown
  driver_mark_unknown-Logs d d' h = elim (accepted (mark_unknown-Called d.execution)) [
    | inl bad ↦ absurd (let failed = rw bad at h in cc)
    | inr (e, made, move) ↦
        let (own, placed) = Move-keeps move in
        let written =
          some_ok log
            (finish_driver log (record d { execution = e }) Kind.step_unknown Outcome.unknown) d'
            (rw made at h) in
        finished-Logs d d' e Kind.step_unknown Outcome.unknown written own placed
          (Move-blocks (inr refl) move) (omega arith) (Move-remaining (λ r same. cc) move)
          (lose-logged move)
  ]

  module _ (v : Verifier) where
    abbrev code_and_driver : DriverPrepared log → SagaResult × Option (Driver W)
    code_and_driver (code, d, buffer, invocation) = (code, d)

    pub driver_prepare-Logs :
        (d d' : Driver W) (buffer buffer' : Option (List ℕ)) (capacity : ℕ) (old : Frame)
        (invocation : Option Frame)
        → Placed d.execution
        → driver_prepare log v (some d) buffer capacity (some old)
          ≡ (ok, some d', buffer', invocation)
        → Logs log d d'
    unfolding driver_prepare
    driver_prepare-Logs d d' buffer buffer' capacity old invocation at h =
        let unready = elim d.log [ none ↦ true | some _ ↦ false ] || not d.started in
        elim (Bool-cases unready) [
          | inl off ↦ absurd (let failed = rw off at h in cc)
          | inr on ↦ elim (accepted (prepare-Called v buffer capacity old d.execution)) [
            | inl bad ↦
                let failed = rw (on, bad) at h in
                let fine : (prepare v (some d.execution) buffer capacity (some old)).0 ≡ ok =
                  ap (λ (r : DriverPrepared log). r.0) failed in
                absurd (let no : succeeded ok ≡ false = rw fine at bad in cc)
            | inr (e, made, move) ↦
                let (own, placed) = Move-keeps move in
                let code = ap (λ (r : SagaResult × Option SagaExecution). r.0) made in
                let after = ap (λ (r : SagaResult × Option SagaExecution). r.1) made in
                let opened = rw (on, code, after) at h in
                let prepared_record = driver_record e Kind.delivery_prepared Outcome.none true in
                let written : append_driver_record log (record d { execution = e })
                      Kind.delivery_prepared Outcome.none true
                    ≡ (ok, d') =
                  some_ok log
                    (append_driver_record log (record d { execution = e }) Kind.delivery_prepared
                      Outcome.none true)
                    d' (ap (λ (r : DriverPrepared log). code_and_driver r) opened) in
                one_record log d d' e prepared_record
                  (appended (record d { execution = e }) d' Kind.delivery_prepared Outcome.none true
                    written)
                  (driver_record-id e Kind.delivery_prepared Outcome.none true ∙ own) own placed
                  (prepare-logged at move)
                  (Undone-record d.execution e e Kind.delivery_prepared Outcome.none true []
                    (omega arith) (Undone-same d.execution e (Move-remaining (λ r same. cc) move)))
          ]
        ]

    record_result-Appended :
        (d d'' : Driver W) (durable : SagaLogRecord) (outcome : ℕ)
        → record_result log v d durable outcome ≡ (ok, d'')
        → (d' : Driver W) × Appended log d durable d'
          × ((((is_complete d.execution.state || is_blocked d.execution.state) ≡ true)
                × Appended log d' (driver_record d'.execution Kind.finished outcome false) d'')
              ⊎ (((is_complete d.execution.state || is_blocked d.execution.state) ≡ false)
                  × (d'' ≡ d')))
    unfolding record_result
    record_result-Appended d d'' durable outcome h =
        let r = append_record log d durable in
        elim (Bool-cases (succeeded r.0)) [
          | inr bad ↦ absurd (let failed = rw bad at h in cc)
          | inl good ↦
              let first =
                append_record-Appended log d r.1 durable
                  (ap (λ (c : SagaResult). (c, r.1)) (succeeded→ok r.0 good)) in
              elim (Bool-cases (is_complete d.execution.state || is_blocked d.execution.state)) [
                | inl ends ↦ (
                  r.1,
                  first,
                  inl (ends, appended r.1 d'' Kind.finished outcome false (rw (good, ends) at h)),
                )
                | inr goes ↦ (r.1, first, inr (goes, let same = rw (good, goes) at h in cc))
              ]
        ]

    -- The record of an accepted result.
    abbrev durable : SagaExecution → Frame → SagaLogRecord
    durable e r =
        driver_record e
          (if r.outcome == Outcome.success then Kind.step_succeeded else Kind.step_failed) r.outcome
          true

    -- How `record_result` ends: after one record, or after the last one too.
    abbrev Ended : Driver W → Driver W → SagaExecution → ℕ → Type 0
    Ended d' d'' e outcome =
        (((is_complete e.state || is_blocked e.state) ≡ true)
          × Appended log d' (driver_record d'.execution Kind.finished outcome false) d'')
        ⊎ (((is_complete e.state || is_blocked e.state) ≡ false) × (d'' ≡ d'))

    failure-Logs :
        (d d' d'' : Driver W) (e : SagaExecution) (r : Frame)
        → Move d.execution e (to_accept r)
        → r.outcome ≡ Outcome.app_error
        → Appended log (record d { execution = e }) (durable d.execution r) d'
        → Ended d' d'' e r.outcome
        → Logs log d d''
    failure-Logs d d' d'' e r move failure first ended =
        let (own, placed) = Move-keeps move in
        let (step, shut) = reject-logged move failure in
        let kind : durable d.execution r
            ≡ driver_record d.execution Kind.step_failed r.outcome true =
          rw failure refl in
        elim ended [
          | inr (goes, same) ↦ absurd (let no = rw shut at goes in cc)
          | inl (ends, second) ↦
              two_records log d d' d'' e (driver_record d.execution Kind.step_failed r.outcome true)
                (driver_record d'.execution Kind.finished r.outcome false) (failed r.outcome)
                (rw kind at first) second
                (driver_record-id d.execution Kind.step_failed r.outcome true)
                (driver_record-id d'.execution Kind.finished r.outcome false ∙ rw first.0 own) own
                placed step (abandon-logged d'.execution e r.outcome shut)
                (Undone-record d.execution e d.execution Kind.step_failed r.outcome true
                  (driver_record d'.execution Kind.finished r.outcome false ∷ []) (omega arith)
                  (Undone-record d.execution e d'.execution Kind.finished r.outcome false []
                    (omega arith) (Undone-same d.execution e (reject-remaining move failure))))
        ]

    success-Logs :
        (d d' d'' : Driver W) (e : SagaExecution) (r : Frame)
        → Placed d.execution
        → Move d.execution e (to_accept r)
        → r.outcome ≡ Outcome.success
        → Appended log (record d { execution = e }) (durable d.execution r) d'
        → Ended d' d'' e r.outcome
        → Logs log d d''
    success-Logs d d' d'' e r at move good first ended =
        let (own, placed) = Move-keeps move in
        let (step, after) = compensate-logged at move good in
        let kind : durable d.execution r
            ≡ driver_record d.execution Kind.step_succeeded r.outcome true =
          rw good refl in
        elim ended [
          | inr (goes, same) ↦ elim after [
            | inr (end, none_left) ↦ absurd (let no = rw end at goes in cc)
            | inl (more, left) ↦ rw same (
                one_record log d d' e (driver_record d.execution Kind.step_succeeded r.outcome true)
                  (rw kind at first)
                  (driver_record-id d.execution Kind.step_succeeded r.outcome true) own placed
                  (rw (phase-ready e more) step)
                  (Undone-success d.execution e r.outcome [] at (compensate-remaining move good)
                    refl))
          ]
          | inl (ends, second) ↦ elim after [
            | inl (more, left) ↦ absurd (let no = rw more at ends in cc)
            | inr (end, none_left) ↦
                two_records log d d' d'' e
                  (driver_record d.execution Kind.step_succeeded r.outcome true)
                  (driver_record d'.execution Kind.finished r.outcome false) (waiting 0)
                  (rw kind at first) second
                  (driver_record-id d.execution Kind.step_succeeded r.outcome true)
                  (driver_record-id d'.execution Kind.finished r.outcome false ∙ rw first.0 own) own
                  placed (rw none_left at step) (complete-logged d'.execution e r.outcome good end)
                  (Undone-success d.execution e r.outcome
                    (driver_record d'.execution Kind.finished r.outcome false ∷ []) at
                    (compensate-remaining move good)
                    (no_success d.execution e d'.execution r.outcome))
          ]
        ]

    pub driver_accept_result-Logs :
        (d d' : Driver W) (r : Frame)
        → Placed d.execution
        → driver_accept_result log v (some d) (some r) ≡ (ok, some d')
        → Logs log d d'
    unfolding driver_accept_result
    driver_accept_result-Logs d d' r at h = elim (accepted (accept_result-Called v r d.execution)) [
      | inl bad ↦ absurd (let failed = rw bad at h in cc)
      | inr (e, made, move) ↦
          let (d1, first, ended) =
            record_result-Appended (record d { execution = e }) d' (durable d.execution r) r.outcome
              (some_ok log
                (record_result log v (record d { execution = e }) (durable d.execution r) r.outcome)
                d' (rw made at h)) in
          elim (accepted-outcome move) [
            | inl failure ↦ failure-Logs d d1 d' e r move failure first ended
            | inr good ↦ success-Logs d d1 d' e r at move good first ended
          ]
    ]

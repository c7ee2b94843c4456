-- ===== src/SagaLog/Transition/Phase.antt =====
-- The life of a saga as its log tells it, and the one record that each step of it takes.
use hermas.Base.{
  ℕ, ◌-◌, ◌≤◌, ◌≡◌, ◌⊎◌, inl, inr, arith, true, false, ◌==◌, if◌then◌else◌, Bool-cases,
}
use hermas.Base.Check.{pass}
use hermas.SagaLog.{SagaLogRecord}
use hermas.SagaLog.Kind
use hermas.SagaLog.Transition.{
  delivery_none, delivery_prepared, delivery_sent, Active, ScanActive, empty_entry, is_sent,
  prepare, send, step_finished, finish_step, finish, entry_transition,
}
use hermas.Protocol.Outcome

pub record Route : Type 0 where
  pub request_id : ℕ
  pub forward_node : ℕ
  pub app_id : ℕ
  pub action_id : ℕ
  pub ordinal : ℕ

abbrev pub route_of : SagaLogRecord → Route
route_of r = record {
  request_id = r.request_id;
  forward_node = r.forward_node;
  app_id = r.app_id;
  action_id = r.action_id;
  ordinal = r.ordinal;
}

abbrev pub open_route : Active → Route
open_route v = record {
  request_id = v.request_id;
  forward_node = v.forward_node;
  app_id = v.app_id;
  action_id = v.action_id;
  ordinal = v.next_ordinal;
}

-- A saga is closed, waits before the step of an ordinal, has a delivery that was prepared or sent,
-- or has failed with an outcome.
pub data Phase : Type 0 where
  closed : Phase
  waiting : ℕ → Phase
  holding : Route → Phase
  sending : Route → Phase
  failed : ℕ → Phase

pub data Step : Phase → SagaLogRecord → Phase → Type 0 where
  started : {r : SagaLogRecord} → r.kind ≡ Kind.started → Step closed r (waiting r.ordinal)
  prepared :
      {r : SagaLogRecord}
      → r.kind ≡ Kind.delivery_prepared
      → Step (waiting r.ordinal) r (holding (route_of r))
  sent :
      {r : SagaLogRecord}
      → r.kind ≡ Kind.delivery_sent
      → Step (holding (route_of r)) r (sending (route_of r))
  succeeded :
      {r : SagaLogRecord}
      → r.kind ≡ Kind.step_succeeded
      → Step (sending (route_of r)) r (waiting (r.ordinal - 1))
  app_failed :
      {r : SagaLogRecord}
      → r.kind ≡ Kind.step_failed
      → r.outcome ≡ Outcome.app_error
      → Step (sending (route_of r)) r (failed r.outcome)
  not_sent :
      {r : SagaLogRecord}
      → r.kind ≡ Kind.step_failed
      → r.outcome ≡ Outcome.not_sent
      → Step (holding (route_of r)) r (failed r.outcome)
  held_unknown :
      {r : SagaLogRecord}
      → r.kind ≡ Kind.step_unknown
      → Step (holding (route_of r)) r (failed r.outcome)
  sent_unknown :
      {r : SagaLogRecord}
      → r.kind ≡ Kind.step_unknown
      → Step (sending (route_of r)) r (failed r.outcome)
  compensated :
      {r : SagaLogRecord}
      → r.kind ≡ Kind.finished
      → r.outcome ≡ Outcome.success
      → Step (waiting 0) r closed
  abandoned : {r : SagaLogRecord} → r.kind ≡ Kind.finished → Step (failed r.outcome) r closed

unfoldable pub phase_of : ScanActive → Phase
phase_of e =
    if e.active
    then elim e.delivery [
      | delivery_none ↦
          if e.terminal then failed e.value.terminal_outcome else waiting e.value.next_ordinal
      | delivery_prepared ↦ holding (open_route e.value)
      | delivery_sent ↦ sending (open_route e.value)
    ]
    else closed

-- What the flags of a summary say, and that nothing is open once a step has failed.
abbrev pub Flags : ScanActive → Type 0
Flags e =
    ((e.delivery ≡ delivery_none)
      × (e.value.has_open_delivery ≡ 0)
      × (e.value.delivery_was_sent ≡ 0))
    ⊎ ((e.delivery ≡ delivery_prepared)
        × (e.terminal ≡ false)
        × (e.value.has_open_delivery ≡ 1)
        × (e.value.delivery_was_sent ≡ 0))
    ⊎ ((e.delivery ≡ delivery_sent)
        × (e.terminal ≡ false)
        × (e.value.has_open_delivery ≡ 1)
        × (e.value.delivery_was_sent ≡ 1))

module _ (e e' : ScanActive) (r : SagaLogRecord) (active : e.active ≡ true) where
  prepare-Step :
      r.kind ≡ Kind.delivery_prepared → prepare e r ≡ pass e' → Step (phase_of e) r (phase_of e')
  unfolding prepare phase_of
  prepare-Step k h =
      let before : phase_of e ≡ waiting r.ordinal = ground arith in
      let after : phase_of e' ≡ holding (route_of r) = ground arith in
      rw (before, after) (prepared k)

  send-Step : r.kind ≡ Kind.delivery_sent → send e r ≡ pass e' → Step (phase_of e) r (phase_of e')
  unfolding send phase_of
  send-Step k h =
      let before : phase_of e ≡ holding (route_of r) = ground arith in
      let after : phase_of e' ≡ sending (route_of r) = ground arith in rw (before, after) (sent k)

  finish_step-Step :
      Flags e
      → Kind.step_succeeded ≤ r.kind
      → r.kind ≤ Kind.step_unknown
      → finish_step e r ≡ pass e'
      → Step (phase_of e) r (phase_of e')
  unfolding finish_step step_finished phase_of
  finish_step-Step flags lo hi h = elim (Bool-cases (r.kind == Kind.step_succeeded)) [
    | inl k ↦
        let before : phase_of e ≡ sending (route_of r) = ground arith in
        let after : phase_of e' ≡ waiting (r.ordinal - 1) = ground arith in
        rw (before, after) (succeeded (ground arith))
    | inr not_success ↦
        let after : phase_of e' ≡ failed r.outcome = ground arith in
        elim (Bool-cases (r.kind == Kind.step_unknown)) [
          | inl k ↦ elim (Bool-cases (is_sent e.delivery)) [
            | inl s ↦
                let before : phase_of e ≡ sending (route_of r) = ground arith in
                rw (before, after) (sent_unknown (ground arith))
            | inr s ↦
                let before : phase_of e ≡ holding (route_of r) = ground arith in
                rw (before, after) (held_unknown (ground arith))
          ]
          | inr k ↦ elim (Bool-cases (is_sent e.delivery)) [
            | inl s ↦
                let before : phase_of e ≡ sending (route_of r) = ground arith in
                rw (before, after) (app_failed (ground arith) (ground arith))
            | inr s ↦
                let before : phase_of e ≡ holding (route_of r) = ground arith in
                rw (before, after) (not_sent (ground arith) (ground arith))
          ]
        ]
  ]

  finish-Step : r.kind ≡ Kind.finished → finish e r ≡ pass e' → Step (phase_of e) r (phase_of e')
  unfolding finish phase_of
  finish-Step k h =
      let after : phase_of e' ≡ closed = ground arith in
      elim (Bool-cases e.terminal) [
        | inl t ↦
            let before : phase_of e ≡ failed r.outcome = ground arith in
            rw (before, after) (abandoned k)
        | inr t ↦
            let before : phase_of e ≡ waiting 0 = ground arith in
            rw (before, after) (compensated k (ground arith))
      ]

  pub entry_transition-Step :
      Flags e → entry_transition e r ≡ pass e' → Step (phase_of e) r (phase_of e')
  unfolding entry_transition step_finished
  entry_transition-Step flags h = elim (Bool-cases (r.kind == Kind.delivery_prepared)) [
    | inl k ↦ prepare-Step (ground arith) (ground arith)
    | inr k1 ↦ elim (Bool-cases (r.kind == Kind.delivery_sent)) [
      | inl k ↦ send-Step (ground arith) (ground arith)
      | inr k2 ↦ elim (Bool-cases (r.kind == Kind.finished)) [
        | inl k ↦ finish-Step (ground arith) (ground arith)
        | inr k3 ↦ finish_step-Step flags (ground arith) (ground arith) (ground arith)
      ]
    ]
  ]

  pub entry_transition-Flags : Flags e → entry_transition e r ≡ pass e' → Flags e'
  unfolding entry_transition step_finished
  entry_transition-Flags f h = ground arith

  -- The entry keeps its execution, or is cleared.
  pub entry_transition-active :
      entry_transition e r ≡ pass e'
      → ((e'.active ≡ true) × (e'.value.execution_id ≡ e.value.execution_id)) ⊎ (e' ≡ empty_entry)
  unfolding entry_transition step_finished
  entry_transition-active h = ground arith

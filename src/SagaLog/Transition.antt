-- ===== src/SagaLog/Transition.antt =====
-- `transition` of src/saga_log.c: one record against the sagas that are active.
pub mod Phase
pub mod Table
pub mod Change
pub mod Refine
pub mod Accept
pub mod History
use mathlib.Core.Option
use hermas.Base.{
  ℕ, zero, suc, ◌-◌, Bool, true, false, not, ◌&&◌, ◌||◌, Option, none, some, List, [], ◌∷◌, get_or,
  set, leb, ◌==◌, ◌!=◌, if◌then◌else◌,
}
use hermas.Base.Check.{Check, fail, pass, ◌>>=◌, ◌>>◌, refuse}
use hermas.SagaLog.{SagaLogResult, invalid_transition, capacity_exhausted, SagaLogRecord}
use hermas.SagaLog.Kind
use hermas.Protocol.Outcome

abbrev pub max_active : ℕ
max_active = 16

-- `delivery_state`
pub data DeliveryState : Type 0 where
  delivery_none delivery_prepared delivery_sent : DeliveryState

-- `hermas_saga_log_active`
pub record Active : Type 0 where
  pub execution_id : ℕ
  pub workflow_id : ℕ
  pub image_fingerprint : ℕ
  pub request_id : ℕ
  pub forward_node : ℕ
  pub app_id : ℕ
  pub action_id : ℕ
  pub next_ordinal : ℕ
  pub terminal_outcome : ℕ
  pub has_open_delivery : ℕ
  pub delivery_was_sent : ℕ

pub record ScanActive : Type 0 where
  pub value : Active
  pub delivery : DeliveryState
  pub terminal : Bool
  pub active : Bool

-- An entry cleared by `memset`.
abbrev pub empty_entry : ScanActive
empty_entry = record {
  value = record {
    execution_id = 0;
    workflow_id = 0;
    image_fingerprint = 0;
    request_id = 0;
    forward_node = 0;
    app_id = 0;
    action_id = 0;
    next_ordinal = 0;
    terminal_outcome = 0;
    has_open_delivery = 0;
    delivery_was_sent = 0;
  };
  delivery = delivery_none;
  terminal = false;
  active = false;
}

abbrev pub is_none : DeliveryState → Bool
is_none delivery_none = true
is_none _ = false

abbrev pub is_prepared : DeliveryState → Bool
is_prepared delivery_prepared = true
is_prepared _ = false

abbrev pub is_sent : DeliveryState → Bool
is_sent delivery_sent = true
is_sent _ = false

-- The index of the entry, `none` for the null pointer.
unfoldable pub find_active : List ScanActive → ℕ → Option ℕ
find_active [] id = none
find_active (e ∷ entries) id =
    if e.active && e.value.execution_id == id
    then some 0
    else Option.map suc (find_active entries id)

unfoldable pub route_matches : Active → SagaLogRecord → Bool
route_matches v r =
    v.request_id == r.request_id
    && v.forward_node == r.forward_node
    && v.app_id == r.app_id
    && v.action_id == r.action_id
    && v.next_ordinal == r.ordinal

unfoldable pub prepare : ScanActive → SagaLogRecord → Check SagaLogResult ScanActive
prepare e r = do
  refuse (not (is_none e.delivery) || e.terminal || r.ordinal != e.value.next_ordinal)
      invalid_transition
  pass (record e {
    delivery = delivery_prepared;
    value = record e.value {
      has_open_delivery = 1;
      delivery_was_sent = 0;
      request_id = r.request_id;
      forward_node = r.forward_node;
      app_id = r.app_id;
      action_id = r.action_id;
    };
  })

unfoldable pub send : ScanActive → SagaLogRecord → Check SagaLogResult ScanActive
unfolding route_matches
send e r = do
  refuse (not (is_prepared e.delivery) || not (route_matches e.value r)) invalid_transition
  pass (record e { delivery = delivery_sent; value = record e.value { delivery_was_sent = 1 } })

-- The test of the delivery's state against the outcome of the step.
unfoldable pub delivery_fits : DeliveryState → SagaLogRecord → Bool
delivery_fits delivery r =
    (r.kind == Kind.step_succeeded && is_sent delivery)
    || (r.kind == Kind.step_failed
        && ((r.outcome == Outcome.app_error && is_sent delivery)
            || (r.outcome == Outcome.not_sent && is_prepared delivery)))
    || (r.kind == Kind.step_unknown && not (is_none delivery))

-- The entry after a step. `--next_ordinal` is on 16 bits; the ordinal of a step is not 0.
unfoldable pub step_finished : ScanActive → SagaLogRecord → ScanActive
step_finished e r =
    let v = record e.value { has_open_delivery = 0; delivery_was_sent = 0 } in
    if r.kind == Kind.step_succeeded
    then record e {
      delivery = delivery_none;
      value = record v {
        next_ordinal = v.next_ordinal - 1;
        request_id = 0;
        forward_node = 0;
        app_id = 0;
        action_id = 0;
      };
    }
    else record e {
      delivery = delivery_none;
      terminal = true;
      value = record v { terminal_outcome = r.outcome };
    }

unfoldable pub finish_step : ScanActive → SagaLogRecord → Check SagaLogResult ScanActive
unfolding route_matches delivery_fits step_finished
finish_step e r = do
  refuse (not (route_matches e.value r) || not (delivery_fits e.delivery r)) invalid_transition
  pass (step_finished e r)

unfoldable pub finish : ScanActive → SagaLogRecord → Check SagaLogResult ScanActive
finish e r =
    let success = not e.terminal && e.value.next_ordinal == 0 && r.outcome == Outcome.success in
    let failed = e.terminal && e.value.terminal_outcome == r.outcome in
    do
      refuse (not (is_none e.delivery) || (not success && not failed)) invalid_transition
      pass empty_entry

-- A record other than a start, against the entry of its execution.
unfoldable pub entry_transition : ScanActive → SagaLogRecord → Check SagaLogResult ScanActive
unfolding prepare send finish_step finish
entry_transition e r =
    if e.value.workflow_id != r.workflow_id || e.value.image_fingerprint != r.image_fingerprint
    then fail invalid_transition
    else if r.kind == Kind.delivery_prepared
    then prepare e r
    else if r.kind == Kind.delivery_sent
    then send e r
    else if leb Kind.step_succeeded r.kind && leb r.kind Kind.step_unknown
    then finish_step e r
    else if r.kind == Kind.finished
    then finish e r
    else fail invalid_transition

unfoldable pub first_inactive : List ScanActive → Option ℕ
first_inactive [] = none
first_inactive (e ∷ entries) =
    if not e.active then some 0 else Option.map suc (first_inactive entries)

unfoldable pub activate : ScanActive → SagaLogRecord → ScanActive
activate e r = record e {
  active = true;
  value = record e.value {
    execution_id = r.execution_id;
    workflow_id = r.workflow_id;
    image_fingerprint = r.image_fingerprint;
    next_ordinal = r.ordinal;
  };
}

unfoldable pub start : List ScanActive → SagaLogRecord → Check SagaLogResult (List ScanActive)
start entries r = elim (first_inactive entries) [
  | none ↦ fail capacity_exhausted
  | some i ↦ pass (set entries i (activate (get_or entries i empty_entry) r))
]

unfoldable pub transition : List ScanActive → SagaLogRecord → Check SagaLogResult (List ScanActive)
unfolding start
transition entries r = elim (find_active entries r.execution_id) [
  | none ↦ if r.kind == Kind.started then start entries r else fail invalid_transition
  | some i ↦
      if r.kind == Kind.started
      then fail invalid_transition
      else (do e ← entry_transition (get_or entries i empty_entry) r; pass (set entries i e))
]

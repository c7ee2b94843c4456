-- ===== src/Journal/Scan/Transition.antt =====
-- `scan_transition` of src/journal.c: one record against the executions that are open.
use mathlib.Core.Option
use hermas.Base.{
  ℕ, zero, suc, ◌+◌, ◌-◌, Bool, true, false, not, ◌&&◌, ◌||◌, Option, none, some, List, [], ◌∷◌,
  get_or, set, replicate, ltb, leb, ◌==◌, ◌!=◌, if◌then◌else◌,
}
use hermas.Base.Check.{Check, fail, pass, ◌>>=◌, ◌>>◌, refuse}
use hermas.Journal.{JournalResult, invalid_transition, capacity_exhausted, JournalRecord}
use hermas.Journal.Kind
use hermas.Protocol.Outcome

abbrev pub max_interrupted : ℕ
max_interrupted = 16

abbrev pub max_open_deliveries : ℕ
max_open_deliveries = 8

-- `scan_delivery_state`
pub data DeliveryState : Type 0 where
  delivery_none delivery_prepared delivery_sent : DeliveryState

pub record OpenDelivery : Type 0 where
  pub delivery_was_sent : ℕ
  pub request_id : ℕ
  pub node_id : ℕ
  pub app_id : ℕ
  pub action_id : ℕ

-- `open_deliveries` is an array of 8, of which the first `open_delivery_count` are open.
pub record Interrupted : Type 0 where
  pub execution_id : ℕ
  pub workflow_id : ℕ
  pub image_fingerprint : ℕ
  pub open_delivery_count : ℕ
  pub open_deliveries : List OpenDelivery

-- `scan_execution`
pub record ScanExecution : Type 0 where
  pub value : Interrupted
  pub deliveries : List DeliveryState
  pub largest_request_id : ℕ
  pub terminal_outcome : ℕ
  pub has_action_outcome : Bool
  pub active : Bool

abbrev pub empty_delivery : OpenDelivery
empty_delivery = record {
  delivery_was_sent = 0;
  request_id = 0;
  node_id = 0;
  app_id = 0;
  action_id = 0;
}

-- An entry cleared by `memset`.
abbrev pub empty_execution : ScanExecution
empty_execution = record {
  value = record {
    execution_id = 0;
    workflow_id = 0;
    image_fingerprint = 0;
    open_delivery_count = 0;
    open_deliveries = replicate max_open_deliveries empty_delivery;
  };
  deliveries = replicate max_open_deliveries delivery_none;
  largest_request_id = 0;
  terminal_outcome = 0;
  has_action_outcome = false;
  active = false;
}

-- The index of the entry, `none` for the null pointer.
unfoldable pub find_scan_execution : List ScanExecution → ℕ → Option ℕ
find_scan_execution [] id = none
find_scan_execution (e ∷ executions) id =
    if e.active && e.value.execution_id == id
    then some 0
    else Option.map suc (find_scan_execution executions id)

unfoldable pub route_matches : OpenDelivery → JournalRecord → Bool
route_matches d r =
    d.request_id == r.request_id
    && d.node_id == r.node_id
    && d.app_id == r.app_id
    && d.action_id == r.action_id

-- Over the first `count` deliveries; `none` for HERMAS_JOURNAL_MAX_OPEN_DELIVERIES.
unfoldable pub find_delivery : List OpenDelivery → ℕ → JournalRecord → Option ℕ
unfolding route_matches
find_delivery [] count r = none
find_delivery (d ∷ ds) zero r = none
find_delivery (d ∷ ds) (suc count) r =
    if route_matches d r then some 0 else Option.map suc (find_delivery ds count r)

unfoldable pub outcome_precedence : ℕ → ℕ
outcome_precedence outcome =
    if outcome == Outcome.unknown
    then 4
    else if outcome == Outcome.app_error
    then 3
    else if outcome == Outcome.not_sent
    then 2
    else if outcome == Outcome.success
    then 1
    else 0

-- `for (; rounds != 0; --rounds, ++index) { xs[index] = xs[index + 1]; }`
unfoldable pub shift_down {ℓ} : {A : Type ℓ} → A → List A → ℕ → ℕ → List A
shift_down d xs index zero = xs
shift_down d xs index (suc rounds) =
    shift_down d (set xs index (get_or xs (index + 1) d)) (index + 1) rounds

abbrev pub is_prepared : DeliveryState → Bool
is_prepared delivery_prepared = true
is_prepared _ = false

abbrev pub is_sent : DeliveryState → Bool
is_sent delivery_sent = true
is_sent _ = false

abbrev pub is_found : Option ℕ → Bool
is_found none = false
is_found (some _) = true

unfoldable pub prepare_delivery : ScanExecution → JournalRecord → Check JournalResult ScanExecution
prepare_delivery e r =
    let v = e.value in
    let count = v.open_delivery_count in
    do
      refuse
          (leb max_open_deliveries count
            || leb r.request_id e.largest_request_id
            || is_found (find_delivery v.open_deliveries count r))
          invalid_transition
      pass (record e {
        deliveries = set e.deliveries count delivery_prepared;
        largest_request_id = r.request_id;
        value = record v {
          open_delivery_count = count + 1;
          open_deliveries = set v.open_deliveries count (record {
            delivery_was_sent = 0;
            request_id = r.request_id;
            node_id = r.node_id;
            app_id = r.app_id;
            action_id = r.action_id;
          });
        };
      })

unfoldable pub mark_sent : ScanExecution → ℕ → ScanExecution
mark_sent e i =
    let v = e.value in
    record e {
      deliveries = set e.deliveries i delivery_sent;
      value = record v {
        open_deliveries =
            set v.open_deliveries i
              (record (get_or v.open_deliveries i empty_delivery) { delivery_was_sent = 1 });
      };
    }

unfoldable pub send_delivery : ScanExecution → JournalRecord → Check JournalResult ScanExecution
unfolding mark_sent
send_delivery e r = elim (find_delivery e.value.open_deliveries e.value.open_delivery_count r) [
  | none ↦ fail invalid_transition
  | some i ↦ do
    refuse (not (is_prepared (get_or e.deliveries i delivery_none))) invalid_transition
    pass (mark_sent e i)
]

-- The outcomes that contradict the state of the delivery.
unfoldable pub outcome_refused : DeliveryState → JournalRecord → Bool
outcome_refused state r =
    (r.kind == Kind.action_succeeded && not (is_sent state))
    || (r.kind == Kind.action_failed && r.outcome == Outcome.app_error && not (is_sent state))
    || (r.kind == Kind.action_failed && r.outcome == Outcome.not_sent && not (is_prepared state))

unfoldable pub close_delivery : ScanExecution → ℕ → JournalRecord → ScanExecution
close_delivery e i r =
    let v = e.value in
    let count = v.open_delivery_count - 1 in
    record e {
      value = record v {
        open_delivery_count = count;
        open_deliveries = shift_down empty_delivery v.open_deliveries i (count - i);
      };
      deliveries = shift_down delivery_none e.deliveries i (count - i);
      terminal_outcome =
          if not e.has_action_outcome
            || ltb (outcome_precedence e.terminal_outcome) (outcome_precedence r.outcome)
          then r.outcome
          else e.terminal_outcome;
      has_action_outcome = true;
    }

unfoldable pub finish_action : ScanExecution → JournalRecord → Check JournalResult ScanExecution
finish_action e r = elim (find_delivery e.value.open_deliveries e.value.open_delivery_count r) [
  | none ↦ fail invalid_transition
  | some i ↦ do
    refuse (outcome_refused (get_or e.deliveries i delivery_none) r) invalid_transition
    pass (close_delivery e i r)
]

unfoldable pub finish_execution : ScanExecution → JournalRecord → Check JournalResult ScanExecution
finish_execution e r = do
  refuse
      (e.value.open_delivery_count != 0
        || (e.has_action_outcome && e.terminal_outcome != r.outcome)
        || (not e.has_action_outcome && r.outcome != Outcome.unknown))
      invalid_transition
  pass empty_execution

-- The tests on the kind, at the end of `scan_transition`.
unfoldable pub kind_transition : ScanExecution → JournalRecord → Check JournalResult ScanExecution
kind_transition e r =
    if r.kind == Kind.delivery_prepared
    then prepare_delivery e r
    else if r.kind == Kind.delivery_sent
    then send_delivery e r
    else if leb Kind.action_succeeded r.kind && leb r.kind Kind.action_unknown
    then finish_action e r
    else if r.kind == Kind.execution_finished
    then finish_execution e r
    else fail invalid_transition

-- A record other than a start, against the entry of its execution.
unfoldable pub execution_transition :
    ScanExecution → JournalRecord → Check JournalResult ScanExecution
execution_transition e r = do
  refuse (e.value.workflow_id != r.workflow_id || e.value.image_fingerprint != r.image_fingerprint)
      invalid_transition
  kind_transition e r

unfoldable pub first_inactive : List ScanExecution → Option ℕ
first_inactive [] = none
first_inactive (e ∷ executions) =
    if not e.active then some 0 else Option.map suc (first_inactive executions)

unfoldable pub activate : ScanExecution → JournalRecord → ScanExecution
activate e r = record e {
  active = true;
  value = record e.value {
    execution_id = r.execution_id;
    workflow_id = r.workflow_id;
    image_fingerprint = r.image_fingerprint;
  };
}

unfoldable pub start_execution :
    List ScanExecution → JournalRecord → Check JournalResult (List ScanExecution)
unfolding activate
start_execution executions r = elim (first_inactive executions) [
  | none ↦ fail capacity_exhausted
  | some i ↦ pass (set executions i (activate (get_or executions i empty_execution) r))
]

unfoldable pub scan_transition :
    List ScanExecution → JournalRecord → Check JournalResult (List ScanExecution)
scan_transition executions r =
    if r.kind == Kind.execution_started
    then (do
      refuse (is_found (find_scan_execution executions r.execution_id)) invalid_transition
      start_execution executions r)
    else elim (find_scan_execution executions r.execution_id) [
      | none ↦ fail invalid_transition
      | some i ↦ do
        e ← execution_transition (get_or executions i empty_execution) r
        pass (set executions i e)
    ]

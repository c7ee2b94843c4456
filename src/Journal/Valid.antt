-- ===== src/Journal/Valid.antt =====
-- The records that `validate_record` admits, kind by kind.
use hermas.Base.{◌≡◌, ◌≢◌, ◌⊎◌, ◌↔◌, ◌≤◌, inl, inr, arith, ◌==◌, ◌||◌, Bool-cases}
use hermas.Journal.{JournalRecord, ok, validate_record}
use hermas.Journal.Kind
use hermas.Protocol.Outcome

-- What every record carries.
abbrev Stamped : JournalRecord → Type 0
Stamped r =
    (r.sequence ≢ 0) × (r.execution_id ≢ 0) × (r.workflow_id ≢ 0) × (r.image_fingerprint ≢ 0)

-- A record of a delivery names its request, node, app and Action.
abbrev Routed : JournalRecord → Type 0
Routed r = (r.request_id ≢ 0) × (r.node_id ≢ 0) × (r.app_id ≢ 0) × (r.action_id ≢ 0)

-- A record of an execution names none.
abbrev Unrouted : JournalRecord → Type 0
Unrouted r = (r.request_id ≡ 0) × (r.node_id ≡ 0) × (r.app_id ≡ 0) × (r.action_id ≡ 0)

pub data ValidRecord (r : JournalRecord) : Type 0 where
  starting :
      Stamped r
      → r.kind ≡ Kind.execution_started
      → r.outcome ≡ Outcome.none
      → Unrouted r
      → ValidRecord r
  delivering :
      Stamped r
      → (r.kind ≡ Kind.delivery_prepared) ⊎ (r.kind ≡ Kind.delivery_sent)
      → r.outcome ≡ Outcome.none
      → Routed r
      → ValidRecord r
  succeeding :
      Stamped r
      → r.kind ≡ Kind.action_succeeded
      → r.outcome ≡ Outcome.success
      → Routed r
      → ValidRecord r
  failing :
      Stamped r
      → r.kind ≡ Kind.action_failed
      → (r.outcome ≡ Outcome.app_error) ⊎ (r.outcome ≡ Outcome.not_sent)
      → Routed r
      → ValidRecord r
  losing :
      Stamped r
      → r.kind ≡ Kind.action_unknown
      → r.outcome ≡ Outcome.unknown
      → Routed r
      → ValidRecord r
  finishing :
      Stamped r
      → r.kind ≡ Kind.execution_finished
      → (Outcome.success ≤ r.outcome) × (r.outcome ≤ Outcome.unknown)
      → Unrouted r
      → ValidRecord r

validate_record-ValidRecord : (r : JournalRecord) → ValidRecord r → validate_record r ≡ ok
unfolding validate_record
validate_record-ValidRecord r (starting s k o u) = ground arith
validate_record-ValidRecord r (delivering s k o u) = ground arith
validate_record-ValidRecord r (succeeding s k o u) = ground arith
validate_record-ValidRecord r (failing s k o u) = ground arith
validate_record-ValidRecord r (losing s k o u) = ground arith
validate_record-ValidRecord r (finishing s k o u) = ground arith

stamped : (r : JournalRecord) → validate_record r ≡ ok → Stamped r
unfolding validate_record
stamped r e = ground arith

ValidRecord-validate_record : (r : JournalRecord) → validate_record r ≡ ok → ValidRecord r
unfolding validate_record
ValidRecord-validate_record r e = elim (Bool-cases (r.kind == Kind.execution_started)) [
  | inl k ↦ starting (stamped r e) (ground arith) (ground arith) (ground arith)
  | inr k1 ↦ elim (Bool-cases (r.kind == Kind.delivery_prepared || r.kind == Kind.delivery_sent)) [
    | inl k ↦ delivering (stamped r e) (ground arith) (ground arith) (ground arith)
    | inr k2 ↦ elim (Bool-cases (r.kind == Kind.action_succeeded)) [
      | inl k ↦ succeeding (stamped r e) (ground arith) (ground arith) (ground arith)
      | inr k3 ↦ elim (Bool-cases (r.kind == Kind.action_failed)) [
        | inl k ↦ failing (stamped r e) (ground arith) (ground arith) (ground arith)
        | inr k4 ↦ elim (Bool-cases (r.kind == Kind.action_unknown)) [
          | inl k ↦ losing (stamped r e) (ground arith) (ground arith) (ground arith)
          | inr k5 ↦ finishing (stamped r e) (ground arith) (ground arith) (ground arith)
        ]
      ]
    ]
  ]
]

-- `validate_record` answers ok exactly on the records that are valid for their kind.
pub validate_record_iff : (r : JournalRecord) → (validate_record r ≡ ok) ↔ ValidRecord r
validate_record_iff r = (ValidRecord-validate_record r, validate_record-ValidRecord r)

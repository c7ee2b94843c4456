-- ===== src/Journal/Scan/Deliveries.antt =====
-- What `scan_transition` of src/journal.c demands of a record about a running execution, against the
-- records of that execution before it.
use hermas.Base.{ℕ, ◌<◌, ◌≡◌, ◌≢◌, true, some, List, [], get_or, length}
use hermas.Protocol.Outcome
use hermas.Journal.{JournalRecord}
use hermas.Journal.Kind
use hermas.Journal.Scan.Transition.{
  delivery_prepared, delivery_sent, OpenDelivery, empty_delivery, ScanExecution,
}
use hermas.Journal.Scan.Opens.{is_closing, IsAbout, first_for, opens, closings, Below, verdict}
use hermas.Journal.Scan.Lived.{Lived, Holds}

-- The record is about an open delivery that is sent, or not, as its kind and outcome demand.
abbrev pub Fits : OpenDelivery → JournalRecord → Type 0
Fits d r =
    (r.kind ≡ Kind.action_succeeded → d.delivery_was_sent ≢ 0)
    × (r.kind ≡ Kind.action_failed → r.outcome ≡ Outcome.app_error → d.delivery_was_sent ≢ 0)
    × (r.kind ≡ Kind.action_failed → r.outcome ≡ Outcome.not_sent → d.delivery_was_sent ≡ 0)

-- What a record may do after others, last first.
pub data Accepted (rs : List JournalRecord) (r : JournalRecord) : Type 0 where
  preparing :
      r.kind ≡ Kind.delivery_prepared
      → length (opens rs) < 8
      → Below r.request_id rs
      → Accepted rs r
  sending :
      (d : OpenDelivery)
      → r.kind ≡ Kind.delivery_sent
      → first_for r (opens rs) ≡ some d
      → IsAbout r d
      → d.delivery_was_sent ≡ 0
      → Accepted rs r
  closing :
      (d : OpenDelivery)
      → is_closing r ≡ true
      → first_for r (opens rs) ≡ some d
      → IsAbout r d
      → Fits d r
      → Accepted rs r
  finishing :
      r.kind ≡ Kind.execution_finished
      → opens rs ≡ []
      → r.outcome ≡ verdict (closings rs)
      → Accepted rs r

module _ (start : JournalRecord) (rs : List JournalRecord) (e : ScanExecution)
    (holds : Holds start rs e) (r : JournalRecord) where
  abbrev count_of : ℕ
  count_of = e.value.open_delivery_count

  abbrev delivery : ℕ → OpenDelivery
  delivery i = get_or e.value.open_deliveries i empty_delivery

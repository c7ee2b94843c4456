-- ===== src/Journal/Scan/Accepted.antt =====
-- A scan that answers ok has come to the end of the log.
use hermas.Base.{
  ℕ, zero, suc, ◌+◌, ◌/◌, ◌<◌, ◌≡◌, ◌≢◌, inl, inr, arith, some, List, All, drop, get_or,
  Option-cases,
}
use hermas.Base.Check.{pass, fail, Check-cases}
use hermas.Journal.{JournalRecord, ok, record_size, decode_record}
use hermas.Journal.Decode.{decode_record-ne-ok}
use hermas.Journal.Scan.Transition.{
  ScanExecution, empty_execution, find_scan_execution, find_delivery, prepare_delivery,
  send_delivery, finish_action, finish_execution, kind_transition, execution_transition,
  first_inactive, start_execution, scan_transition,
}
use hermas.Journal.Scan.{
  Visitor, ScanState, Summary, start_state, scan_record, visit, count_record, scan_step, scan_loop,
  scan, summary_of,
}
use hermas.Journal.Scan.Numbers.{Records, Numbered, Increasing, scan_loop-Found}

prepare_delivery-ne-ok : (e : ScanExecution) (r : JournalRecord) → prepare_delivery e r ≢ fail ok
unfolding prepare_delivery
prepare_delivery-ne-ok e r h = ground arith

send_delivery-ne-ok : (e : ScanExecution) (r : JournalRecord) → send_delivery e r ≢ fail ok
unfolding send_delivery
send_delivery-ne-ok e r h =
    elim (Option-cases (find_delivery e.value.open_deliveries e.value.open_delivery_count r)) [
      | inl absent ↦ ground arith
      | inr (i, found) ↦ ground arith
    ]

finish_action-ne-ok : (e : ScanExecution) (r : JournalRecord) → finish_action e r ≢ fail ok
unfolding finish_action
finish_action-ne-ok e r h =
    elim (Option-cases (find_delivery e.value.open_deliveries e.value.open_delivery_count r)) [
      | inl absent ↦ ground arith
      | inr (i, found) ↦ ground arith
    ]

finish_execution-ne-ok : (e : ScanExecution) (r : JournalRecord) → finish_execution e r ≢ fail ok
unfolding finish_execution
finish_execution-ne-ok e r h = ground arith

execution_transition-ne-ok :
    (e : ScanExecution) (r : JournalRecord) → execution_transition e r ≢ fail ok
unfolding execution_transition kind_transition
execution_transition-ne-ok e r h = ground (
  arith,
  prepare_delivery-ne-ok e r,
  send_delivery-ne-ok e r,
  finish_action-ne-ok e r,
  finish_execution-ne-ok e r,
)

scan_transition-ne-ok :
    (executions : List ScanExecution) (r : JournalRecord) → scan_transition executions r ≢ fail ok
unfolding scan_transition start_execution
scan_transition-ne-ok executions r h =
    elim (Option-cases (find_scan_execution executions r.execution_id)) [
      | inl absent ↦ elim (Option-cases (first_inactive executions)) [
        | inl full ↦ ground arith
        | inr (i, free) ↦ ground arith
      ]
      | inr (i, found) ↦
          elim (Check-cases (execution_transition (get_or executions i empty_execution) r)) [
            | inl (code, failed) ↦
                ground (arith, execution_transition-ne-ok (get_or executions i empty_execution) r)
            | inr (e', passed) ↦ ground arith
          ]
    ]

module _ {C : Type 0} where
  scan_record-ne-ok : (s : ScanState C) (r : JournalRecord) → scan_record s r ≢ fail ok
  unfolding scan_record
  scan_record-ne-ok s r h = elim (Check-cases (scan_transition s.executions r)) [
    | inl (code, failed) ↦ ground (arith, scan_transition-ne-ok s.executions r)
    | inr (executions, passed) ↦ ground arith
  ]

  count_record-ne-ok : (s : ScanState C) (r : JournalRecord) → count_record s r ≢ fail ok
  unfolding count_record
  count_record-ne-ok s r h = ground arith

  scan_step-ne-ok :
      (visitor : Visitor C) (s : ScanState C) (bytes : List ℕ) (context : C)
      → scan_step visitor s bytes ≢ fail (ok, context)
  unfolding scan_step
  scan_step-ne-ok visitor s bytes context h = elim (Check-cases (decode_record bytes record_size)) [
    | inl (code, failed) ↦ ground (arith, decode_record-ne-ok bytes record_size)
    | inr (r, decoded) ↦ elim (Check-cases (scan_record s r)) [
      | inl (code, failed) ↦ ground (arith, scan_record-ne-ok s r)
      | inr (t, passed) ↦ ground (arith, count_record-ne-ok (visit visitor t r).1 r)
    ]
  ]

  scan_loop-ne-ok :
      (n : ℕ) (visitor : Visitor C) (s : ScanState C) (bytes : List ℕ) (context : C)
      → scan_loop n visitor s bytes ≢ fail (ok, context)
  unfolding scan_loop
  scan_loop-ne-ok zero visitor s bytes context h = cc
  scan_loop-ne-ok (suc n) visitor s bytes context h =
      elim (Check-cases (scan_step visitor s bytes)) [
        | inl ((code, c), failed) ↦ ground (arith, scan_step-ne-ok visitor s bytes context)
        | inr (t, passed) ↦
            ground (arith, scan_loop-ne-ok n visitor t (drop record_size bytes) context)
      ]

-- What the summary of an accepted log says of its records.
pub record Numbers (n : ℕ) (bytes : List ℕ) (summary : Summary) : Type 0 where
  pub records : List JournalRecord
  pub held : Records n bytes records
  pub numbered : Numbered 1 records
  pub increasing : Increasing 0 records
  pub fresh : All (λ r. r.execution_id < summary.next_execution_id) records
  pub counted : summary.record_count ≡ n
  pub following : summary.next_sequence ≡ n + 1

module _ {C : Type 0} where
  scan-passed :
      (bytes : List ℕ) (n : ℕ) (visitor : Visitor C) (context context' : C) (old summary : Summary)
      → scan (some bytes) n visitor context (some old) ≡ (ok, some summary, context')
      → (s' : ScanState C) × (scan_loop (n / record_size) visitor (start_state context) bytes
          ≡ pass s')
        × (summary ≡ summary_of s')
  unfolding scan
  scan-passed bytes n visitor context context' old summary h =
      elim (Check-cases (scan_loop (n / record_size) visitor (start_state context) bytes)) [
        | inl ((code, c), failed) ↦ absurd (
            ground (
              arith,
              scan_loop-ne-ok (n / record_size) visitor (start_state context) bytes context',
            ))
        | inr (s', passed) ↦ (s', passed, ground arith)
      ]

  -- When `hermas_journal_scan` accepts a log, each 64 bytes of it decode to a record, the records are
  -- numbered from 1 on and counted, executions start under increasing ids, and the execution id
  -- that the summary gives out next is above the id of every record of the log.
  pub scan-Numbers :
      (bytes : List ℕ) (n : ℕ) (visitor : Visitor C) (context context' : C) (old summary : Summary)
      → scan (some bytes) n visitor context (some old) ≡ (ok, some summary, context')
      → Numbers (n / record_size) bytes summary
  unfolding start_state
  scan-Numbers bytes n visitor context context' old summary h =
      let (s', passed, result) = scan-passed bytes n visitor context context' old summary h in
      let found = scan_loop-Found (n / record_size) visitor (start_state context) s' bytes passed in
      record {
        records = found.records;
        held = found.held;
        numbered = found.numbered;
        increasing = found.increasing;
        fresh = rw result found.below;
        counted = rw result (omega (arith, found.counted));
        following = rw result (omega (arith, found.next));
      }

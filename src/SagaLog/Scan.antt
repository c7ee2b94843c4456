-- ===== src/SagaLog/Scan.antt =====
-- `hermas_saga_log_scan` of src/saga_log.c: what a log leaves active.
pub mod Follow
pub mod Compensated
use hermas.Base.{
  ℕ, zero, suc, ◌+◌, ◌/◌, ◌%◌, Bool, true, false, ◌&&◌, ◌||◌, Option, none, some, List, [], ◌∷◌,
  drop, replicate, ◌!=◌, if◌then◌else◌,
}
use hermas.Base.Check.{Check, fail, pass, ◌>>=◌, ◌>>◌, refuse}
use hermas.SagaLog.{
  SagaLogResult, ok, invalid_argument, invalid_sequence, SagaLogRecord, record_size, decode_record,
}
use hermas.SagaLog.Transition.{Active, ScanActive, empty_entry, max_active, transition}

-- `hermas_saga_log_summary`; `active_count` is the length of `active`.
pub record Summary : Type 0 where
  pub record_count : ℕ
  pub next_sequence : ℕ
  pub active : List Active

-- The locals of `hermas_saga_log_scan`.
pub record ScanState : Type 0 where
  pub entries : List ScanActive
  pub record_count : ℕ
  pub next_sequence : ℕ

abbrev pub start_state : ScanState
start_state = record {
  entries = replicate max_active empty_entry;
  record_count = 0;
  next_sequence = 1;
}

-- One decoded record. The log holds fewer than 2^64 records, so the counts do not wrap.
unfoldable pub scan_record : ScanState → SagaLogRecord → Check SagaLogResult ScanState
scan_record s r = do
  refuse (r.sequence != s.next_sequence) invalid_sequence
  entries ← transition s.entries r
  pass (record {
    entries = entries;
    record_count = s.record_count + 1;
    next_sequence = s.next_sequence + 1;
  })

unfoldable pub scan_loop : ℕ → ScanState → List ℕ → Check SagaLogResult ScanState
scan_loop zero s bytes = pass s
scan_loop (suc rounds) s bytes = do
  r ← decode_record bytes record_size
  s' ← scan_record s r
  scan_loop rounds s' (drop record_size bytes)

-- The values of the active entries, in order.
unfoldable pub active_of : List ScanActive → List Active
active_of [] = []
active_of (e ∷ entries) = let rest = active_of entries in if e.active then e.value ∷ rest else rest

unfoldable pub summary_of : ScanState → Summary
unfolding active_of
summary_of s = record {
  record_count = s.record_count;
  next_sequence = s.next_sequence;
  active = active_of s.entries;
}

abbrev pub scan_outputs : Check SagaLogResult ScanState → Summary → SagaLogResult × Option Summary
scan_outputs (fail code) old = (code, some old)
scan_outputs (pass s) old = (ok, some (summary_of s))

abbrev pub missing : Option (List ℕ) → Bool
missing none = true
missing (some _) = false

abbrev pub bytes_of : Option (List ℕ) → List ℕ
bytes_of none = []
bytes_of (some bytes) = bytes

-- The result code, and `*summary` after the call.
unfoldable pub scan : Option (List ℕ) → ℕ → Option Summary → SagaLogResult × Option Summary
unfolding scan_loop summary_of
scan bytes byte_count none = (invalid_argument, none)
scan bytes byte_count (some old) =
    if (missing bytes && byte_count != 0) || byte_count % record_size != 0
    then (invalid_argument, some old)
    else scan_outputs (scan_loop (byte_count / record_size) start_state (bytes_of bytes)) old

-- ===== src/SagaLog/Runs.antt =====
-- Concrete logs, and the theorems at concrete inputs.
use hermas.Base.{
  ◌↔◌, ℕ, ◌≡◌, ◌≢◌, refl, arith, List, [], ◌∷◌, ◌++◌, some, true, inl, drop, take, set, replicate,
}
use hermas.Base.Check.{pass}
use hermas.Bytes.{read_u16, read_u32, read_u64, write_u16, write_u32, write_u64}
use hermas.Crc.{checksum}
use hermas.SagaLog.{
  SagaLogRecord, SagaLogResult, ok, record_size, encode, decode, decode_record, decoded_record,
  write_record, write_body, validate,
}
use hermas.SagaLog.Kind
use hermas.Protocol.Outcome
use hermas.SagaLog.Layout.{record_bytes}
use hermas.SagaLog.RoundTrip.{decode-encode_saga}
use hermas.SagaLog.Canonical.{encode-decode_saga}
use hermas.SagaLog.Corruption.{damaged_saga_refused}
use hermas.SagaLog.Writer.{Writer}
use hermas.SagaLog.Transition.{
  ScanActive, empty_entry, find_active, entry_transition, activate, first_inactive, start,
  transition,
}
use hermas.SagaLog.Transition.Phase.{Phase, Step, phase_of}
use hermas.SagaLog.Transition.Accept.{entry_transition_iff}
use hermas.SagaLog.Transition.Refine.{Follows, transition-Follows}
use hermas.SagaLog.Transition.History.{succeeded_ordinals, countdown}
use hermas.SagaLog.Scan.{Summary, scan, scan_loop, scan_record, summary_of}
use hermas.SagaLog.Scan.Follow.{Records, LogHistory, scan-LogHistory}
use hermas.SagaLog.Scan.Compensated.{scan-compensated}

abbrev begun : SagaLogRecord
begun = record {
  kind = Kind.started;
  outcome = Outcome.app_error;
  sequence = 1;
  execution_id = 7;
  workflow_id = 2;
  request_id = 0;
  forward_node = 0;
  app_id = 0;
  action_id = 0;
  ordinal = 1;
  image_fingerprint = 77;
}

abbrev begun_bytes : List ℕ
begun_bytes =
    72 ∷ 83 ∷ 71 ∷ 49 ∷ 1 ∷ 0 ∷ 64 ∷ 0 ∷ 1 ∷ 0 ∷ 2 ∷ 0 ∷ 0 ∷ 0 ∷ 0 ∷ 0 ∷ 1 ∷ 0 ∷ 0 ∷ 0 ∷ 0 ∷ 0 ∷ 0
    ∷ 0 ∷ 7 ∷ 0 ∷ 0 ∷ 0 ∷ 0 ∷ 0 ∷ 0 ∷ 0 ∷ 2 ∷ 0 ∷ 0 ∷ 0 ∷ 0 ∷ 0 ∷ 0 ∷ 0 ∷ 0 ∷ 0 ∷ 0 ∷ 0 ∷ 0 ∷ 0 ∷ 0
    ∷ 0 ∷ 0 ∷ 0 ∷ 1 ∷ 0 ∷ 77 ∷ 0 ∷ 0 ∷ 0 ∷ 0 ∷ 0 ∷ 0 ∷ 0 ∷ 71 ∷ 41 ∷ 137 ∷ 189 ∷ []

abbrev prepared : SagaLogRecord
prepared = record {
  kind = Kind.delivery_prepared;
  outcome = Outcome.none;
  sequence = 2;
  execution_id = 7;
  workflow_id = 2;
  request_id = 9;
  forward_node = 3;
  app_id = 4;
  action_id = 5;
  ordinal = 1;
  image_fingerprint = 77;
}

abbrev prepared_bytes : List ℕ
prepared_bytes =
    72 ∷ 83 ∷ 71 ∷ 49 ∷ 1 ∷ 0 ∷ 64 ∷ 0 ∷ 2 ∷ 0 ∷ 0 ∷ 0 ∷ 0 ∷ 0 ∷ 0 ∷ 0 ∷ 2 ∷ 0 ∷ 0 ∷ 0 ∷ 0 ∷ 0 ∷ 0
    ∷ 0 ∷ 7 ∷ 0 ∷ 0 ∷ 0 ∷ 0 ∷ 0 ∷ 0 ∷ 0 ∷ 2 ∷ 0 ∷ 0 ∷ 0 ∷ 9 ∷ 0 ∷ 0 ∷ 0 ∷ 0 ∷ 0 ∷ 0 ∷ 0 ∷ 3 ∷ 0 ∷ 4
    ∷ 0 ∷ 5 ∷ 0 ∷ 1 ∷ 0 ∷ 77 ∷ 0 ∷ 0 ∷ 0 ∷ 0 ∷ 0 ∷ 0 ∷ 0 ∷ 53 ∷ 69 ∷ 88 ∷ 81 ∷ []

abbrev sent : SagaLogRecord
sent = record {
  kind = Kind.delivery_sent;
  outcome = Outcome.none;
  sequence = 3;
  execution_id = 7;
  workflow_id = 2;
  request_id = 9;
  forward_node = 3;
  app_id = 4;
  action_id = 5;
  ordinal = 1;
  image_fingerprint = 77;
}

abbrev sent_bytes : List ℕ
sent_bytes =
    72 ∷ 83 ∷ 71 ∷ 49 ∷ 1 ∷ 0 ∷ 64 ∷ 0 ∷ 3 ∷ 0 ∷ 0 ∷ 0 ∷ 0 ∷ 0 ∷ 0 ∷ 0 ∷ 3 ∷ 0 ∷ 0 ∷ 0 ∷ 0 ∷ 0 ∷ 0
    ∷ 0 ∷ 7 ∷ 0 ∷ 0 ∷ 0 ∷ 0 ∷ 0 ∷ 0 ∷ 0 ∷ 2 ∷ 0 ∷ 0 ∷ 0 ∷ 9 ∷ 0 ∷ 0 ∷ 0 ∷ 0 ∷ 0 ∷ 0 ∷ 0 ∷ 3 ∷ 0 ∷ 4
    ∷ 0 ∷ 5 ∷ 0 ∷ 1 ∷ 0 ∷ 77 ∷ 0 ∷ 0 ∷ 0 ∷ 0 ∷ 0 ∷ 0 ∷ 0 ∷ 90 ∷ 129 ∷ 188 ∷ 18 ∷ []

abbrev undone : SagaLogRecord
undone = record {
  kind = Kind.step_succeeded;
  outcome = Outcome.success;
  sequence = 4;
  execution_id = 7;
  workflow_id = 2;
  request_id = 9;
  forward_node = 3;
  app_id = 4;
  action_id = 5;
  ordinal = 1;
  image_fingerprint = 77;
}

abbrev undone_bytes : List ℕ
undone_bytes =
    72 ∷ 83 ∷ 71 ∷ 49 ∷ 1 ∷ 0 ∷ 64 ∷ 0 ∷ 4 ∷ 0 ∷ 1 ∷ 0 ∷ 0 ∷ 0 ∷ 0 ∷ 0 ∷ 4 ∷ 0 ∷ 0 ∷ 0 ∷ 0 ∷ 0 ∷ 0
    ∷ 0 ∷ 7 ∷ 0 ∷ 0 ∷ 0 ∷ 0 ∷ 0 ∷ 0 ∷ 0 ∷ 2 ∷ 0 ∷ 0 ∷ 0 ∷ 9 ∷ 0 ∷ 0 ∷ 0 ∷ 0 ∷ 0 ∷ 0 ∷ 0 ∷ 3 ∷ 0 ∷ 4
    ∷ 0 ∷ 5 ∷ 0 ∷ 1 ∷ 0 ∷ 77 ∷ 0 ∷ 0 ∷ 0 ∷ 0 ∷ 0 ∷ 0 ∷ 0 ∷ 231 ∷ 195 ∷ 66 ∷ 134 ∷ []

abbrev ended : SagaLogRecord
ended = record {
  kind = Kind.finished;
  outcome = Outcome.success;
  sequence = 5;
  execution_id = 7;
  workflow_id = 2;
  request_id = 0;
  forward_node = 0;
  app_id = 0;
  action_id = 0;
  ordinal = 0;
  image_fingerprint = 77;
}

abbrev ended_bytes : List ℕ
ended_bytes =
    72 ∷ 83 ∷ 71 ∷ 49 ∷ 1 ∷ 0 ∷ 64 ∷ 0 ∷ 7 ∷ 0 ∷ 1 ∷ 0 ∷ 0 ∷ 0 ∷ 0 ∷ 0 ∷ 5 ∷ 0 ∷ 0 ∷ 0 ∷ 0 ∷ 0 ∷ 0
    ∷ 0 ∷ 7 ∷ 0 ∷ 0 ∷ 0 ∷ 0 ∷ 0 ∷ 0 ∷ 0 ∷ 2 ∷ 0 ∷ 0 ∷ 0 ∷ 0 ∷ 0 ∷ 0 ∷ 0 ∷ 0 ∷ 0 ∷ 0 ∷ 0 ∷ 0 ∷ 0 ∷ 0
    ∷ 0 ∷ 0 ∷ 0 ∷ 0 ∷ 0 ∷ 77 ∷ 0 ∷ 0 ∷ 0 ∷ 0 ∷ 0 ∷ 0 ∷ 0 ∷ 204 ∷ 129 ∷ 18 ∷ 2 ∷ []

abbrev log : List ℕ
log = begun_bytes ++ prepared_bytes ++ sent_bytes ++ undone_bytes ++ ended_bytes

abbrev buffer : List ℕ
buffer = replicate 70 9

begun-valid : validate begun ≡ ok
unfolding validate
begun-valid = refl

encode-begun : encode (some begun) (some buffer) 70 ≡ (ok, some (begun_bytes ++ replicate 6 9))
unfolding encode write_record write_body validate write_u16 write_u32 write_u64 checksum
encode-begun = refl

decode-begun : decode (some begun_bytes) 64 (some ended) ≡ (ok, some begun)
unfolding decode decode_record decoded_record validate read_u16 read_u32 read_u64 checksum
decode-begun = refl

abbrev nothing : Summary
nothing = record { record_count = 0; next_sequence = 0; active = [] }

abbrev all_done : Summary
all_done = record { record_count = 5; next_sequence = 6; active = [] }

scan-log : scan (some log) 320 (some nothing) ≡ (ok, some all_done)
unfolding scan scan_loop scan_record decode_record decoded_record validate read_u16 read_u32
    read_u64 checksum transition start find_active first_inactive activate entry_transition
    summary_of
scan-log = refl

log-Records : Records 5 log (begun ∷ prepared ∷ sent ∷ undone ∷ ended ∷ [])
unfolding decode_record decoded_record validate read_u16 read_u32 read_u64 checksum
log-Records = (refl, (refl, (refl, (refl, (refl, tt)))))

scan-LogHistory_example : LogHistory 5 log all_done
scan-LogHistory_example = scan-LogHistory log 320 nothing all_done scan-log

scan-compensated_example : succeeded_ordinals 7 (prepared ∷ sent ∷ undone ∷ []) ≡ countdown 1
scan-compensated_example =
    scan-compensated log 320 7 nothing all_done [] (prepared ∷ sent ∷ undone ∷ []) [] begun ended
      scan-log log-Records refl refl (omega arith) refl refl refl

abbrev opened : ScanActive
opened = record empty_entry {
  active = true;
  value = record empty_entry.value {
    execution_id = 7;
    workflow_id = 2;
    image_fingerprint = 77;
    next_ordinal = 1;
  };
}

start-opened : transition (empty_entry ∷ []) begun ≡ pass (opened ∷ [])
unfolding transition start find_active first_inactive activate
start-opened = refl

transition-Follows_example : Follows (empty_entry ∷ []) begun (opened ∷ [])
transition-Follows_example =
    transition-Follows (empty_entry ∷ []) (opened ∷ []) begun (inl refl, (λ a. absurd cc), tt)
      start-opened

decode-encode_saga_example :
    ((encode (some begun) (some buffer) 70).0 ≡ ok)
    × ((encode (some begun) (some buffer) 70).1
        ≡ some (record_bytes begun ++ drop record_size buffer))
    × (decode (encode (some begun) (some buffer) 70).1 64 (some ended) ≡ (ok, some begun))
decode-encode_saga_example =
    decode-encode_saga begun ended buffer 70 (omega arith) begun-valid (omega arith) (omega arith)
      (omega arith)

encode-decode_saga_example :
    encode (some begun) (some buffer) 70 ≡ (ok, some (take 64 begun_bytes ++ drop 64 buffer))
encode-decode_saga_example =
    encode-decode_saga begun_bytes buffer 64 70 begun ended decode-begun (omega arith) (omega arith)
      (omega arith) (omega arith)

-- The ordinal, at byte 50, turned from 1 into 2.
damaged_saga_refused_example : (decode (some (set begun_bytes 50 2)) 64 (some ended)).0 ≢ ok
damaged_saga_refused_example =
    damaged_saga_refused begun_bytes 64 50 2 begun ended decode-begun (omega arith) (omega arith)
      (omega arith) (omega arith) (omega arith)

-- A callback that appends to a file in memory.
abbrev file_append : List ℕ → List ℕ → SagaLogResult × List ℕ
file_append file bytes = (ok, file ++ bytes)

abbrev new_writer : Writer (List ℕ)
new_writer = record { write = some file_append; context = []; next_sequence = 1 }

-- The step of the entry before its first delivery.
entry_transition_iff_example :
    ((e' : ScanActive) × (entry_transition opened prepared ≡ pass e'))
    ↔ ((p : Phase) × Step (phase_of opened) prepared p)
entry_transition_iff_example =
    entry_transition_iff opened refl (inl (refl, refl, refl)) prepared refl refl

-- ===== src/Journal/ScanRuns.antt =====
-- Scans of concrete logs.
use hermas.Base.{true, ℕ, ◌≡◌, refl, List, [], ◌∷◌, ◌++◌, some, none, set, replicate}
use hermas.Bytes.{read_u16, read_u32, read_u64}
use hermas.Crc.{checksum}
use hermas.Journal.{
  JournalRecord, ok, checksum_mismatch, decode_record, decoded_record, validate_record,
}
use hermas.Journal.Scan.Transition.{
  ScanExecution, empty_execution, delivery_prepared, Interrupted, OpenDelivery, empty_delivery,
  max_open_deliveries, find_scan_execution, route_matches, find_delivery, outcome_precedence,
  shift_down, prepare_delivery, mark_sent, send_delivery, outcome_refused, close_delivery,
  finish_action, finish_execution, kind_transition, execution_transition, first_inactive, activate,
  start_execution, scan_transition,
}
use hermas.Journal.Scan.Lived.{Lived}
use hermas.Journal.Scan.Deliveries.{Accepted}
use hermas.Journal.Scan.Accepted.{Numbers, scan-Numbers}
use hermas.Journal.Scan.{
  Summary, start_state, scan_record, visit, count_record, scan_step, scan_loop, interrupted_of,
  scan,
}

abbrev log : List ℕ
log =
    72 ∷ 74 ∷ 82 ∷ 49 ∷ 2 ∷ 0 ∷ 64 ∷ 0 ∷ 1 ∷ 0 ∷ 0 ∷ 0 ∷ 0 ∷ 0 ∷ 0 ∷ 0 ∷ 1 ∷ 0 ∷ 0 ∷ 0 ∷ 0 ∷ 0 ∷ 0
    ∷ 0 ∷ 5 ∷ 0 ∷ 0 ∷ 0 ∷ 0 ∷ 0 ∷ 0 ∷ 0 ∷ 2 ∷ 0 ∷ 0 ∷ 0 ∷ 0 ∷ 0 ∷ 0 ∷ 0 ∷ 0 ∷ 0 ∷ 0 ∷ 0 ∷ 0 ∷ 0 ∷ 0
    ∷ 0 ∷ 0 ∷ 0 ∷ 0 ∷ 0 ∷ 77 ∷ 0 ∷ 0 ∷ 0 ∷ 0 ∷ 0 ∷ 0 ∷ 0 ∷ 78 ∷ 81 ∷ 48 ∷ 44 ∷ 72 ∷ 74 ∷ 82 ∷ 49 ∷ 2
    ∷ 0 ∷ 64 ∷ 0 ∷ 2 ∷ 0 ∷ 0 ∷ 0 ∷ 0 ∷ 0 ∷ 0 ∷ 0 ∷ 2 ∷ 0 ∷ 0 ∷ 0 ∷ 0 ∷ 0 ∷ 0 ∷ 0 ∷ 5 ∷ 0 ∷ 0 ∷ 0 ∷ 0
    ∷ 0 ∷ 0 ∷ 0 ∷ 2 ∷ 0 ∷ 0 ∷ 0 ∷ 9 ∷ 0 ∷ 0 ∷ 0 ∷ 0 ∷ 0 ∷ 0 ∷ 0 ∷ 3 ∷ 0 ∷ 4 ∷ 0 ∷ 6 ∷ 0 ∷ 0 ∷ 0 ∷ 77
    ∷ 0 ∷ 0 ∷ 0 ∷ 0 ∷ 0 ∷ 0 ∷ 0 ∷ 111 ∷ 218 ∷ 108 ∷ 100 ∷ 72 ∷ 74 ∷ 82 ∷ 49 ∷ 2 ∷ 0 ∷ 64 ∷ 0 ∷ 2 ∷ 0
    ∷ 0 ∷ 0 ∷ 0 ∷ 0 ∷ 0 ∷ 0 ∷ 3 ∷ 0 ∷ 0 ∷ 0 ∷ 0 ∷ 0 ∷ 0 ∷ 0 ∷ 5 ∷ 0 ∷ 0 ∷ 0 ∷ 0 ∷ 0 ∷ 0 ∷ 0 ∷ 2 ∷ 0
    ∷ 0 ∷ 0 ∷ 10 ∷ 0 ∷ 0 ∷ 0 ∷ 0 ∷ 0 ∷ 0 ∷ 0 ∷ 3 ∷ 0 ∷ 4 ∷ 0 ∷ 7 ∷ 0 ∷ 0 ∷ 0 ∷ 77 ∷ 0 ∷ 0 ∷ 0 ∷ 0
    ∷ 0 ∷ 0 ∷ 0 ∷ 74 ∷ 7 ∷ 255 ∷ 141 ∷ 72 ∷ 74 ∷ 82 ∷ 49 ∷ 2 ∷ 0 ∷ 64 ∷ 0 ∷ 3 ∷ 0 ∷ 0 ∷ 0 ∷ 0 ∷ 0
    ∷ 0 ∷ 0 ∷ 4 ∷ 0 ∷ 0 ∷ 0 ∷ 0 ∷ 0 ∷ 0 ∷ 0 ∷ 5 ∷ 0 ∷ 0 ∷ 0 ∷ 0 ∷ 0 ∷ 0 ∷ 0 ∷ 2 ∷ 0 ∷ 0 ∷ 0 ∷ 9 ∷ 0
    ∷ 0 ∷ 0 ∷ 0 ∷ 0 ∷ 0 ∷ 0 ∷ 3 ∷ 0 ∷ 4 ∷ 0 ∷ 6 ∷ 0 ∷ 0 ∷ 0 ∷ 77 ∷ 0 ∷ 0 ∷ 0 ∷ 0 ∷ 0 ∷ 0 ∷ 0 ∷ 46
    ∷ 183 ∷ 80 ∷ 241 ∷ 72 ∷ 74 ∷ 82 ∷ 49 ∷ 2 ∷ 0 ∷ 64 ∷ 0 ∷ 1 ∷ 0 ∷ 0 ∷ 0 ∷ 0 ∷ 0 ∷ 0 ∷ 0 ∷ 5 ∷ 0
    ∷ 0 ∷ 0 ∷ 0 ∷ 0 ∷ 0 ∷ 0 ∷ 6 ∷ 0 ∷ 0 ∷ 0 ∷ 0 ∷ 0 ∷ 0 ∷ 0 ∷ 2 ∷ 0 ∷ 0 ∷ 0 ∷ 0 ∷ 0 ∷ 0 ∷ 0 ∷ 0 ∷ 0
    ∷ 0 ∷ 0 ∷ 0 ∷ 0 ∷ 0 ∷ 0 ∷ 0 ∷ 0 ∷ 0 ∷ 0 ∷ 77 ∷ 0 ∷ 0 ∷ 0 ∷ 0 ∷ 0 ∷ 0 ∷ 0 ∷ 56 ∷ 203 ∷ 112 ∷ 224
    ∷ 72 ∷ 74 ∷ 82 ∷ 49 ∷ 2 ∷ 0 ∷ 64 ∷ 0 ∷ 4 ∷ 0 ∷ 1 ∷ 0 ∷ 0 ∷ 0 ∷ 0 ∷ 0 ∷ 6 ∷ 0 ∷ 0 ∷ 0 ∷ 0 ∷ 0 ∷ 0
    ∷ 0 ∷ 5 ∷ 0 ∷ 0 ∷ 0 ∷ 0 ∷ 0 ∷ 0 ∷ 0 ∷ 2 ∷ 0 ∷ 0 ∷ 0 ∷ 9 ∷ 0 ∷ 0 ∷ 0 ∷ 0 ∷ 0 ∷ 0 ∷ 0 ∷ 3 ∷ 0 ∷ 4
    ∷ 0 ∷ 6 ∷ 0 ∷ 0 ∷ 0 ∷ 77 ∷ 0 ∷ 0 ∷ 0 ∷ 0 ∷ 0 ∷ 0 ∷ 0 ∷ 121 ∷ 44 ∷ 38 ∷ 231 ∷ []

abbrev ending : List ℕ
ending =
    72 ∷ 74 ∷ 82 ∷ 49 ∷ 2 ∷ 0 ∷ 64 ∷ 0 ∷ 6 ∷ 0 ∷ 4 ∷ 0 ∷ 0 ∷ 0 ∷ 0 ∷ 0 ∷ 7 ∷ 0 ∷ 0 ∷ 0 ∷ 0 ∷ 0 ∷ 0
    ∷ 0 ∷ 5 ∷ 0 ∷ 0 ∷ 0 ∷ 0 ∷ 0 ∷ 0 ∷ 0 ∷ 2 ∷ 0 ∷ 0 ∷ 0 ∷ 10 ∷ 0 ∷ 0 ∷ 0 ∷ 0 ∷ 0 ∷ 0 ∷ 0 ∷ 3 ∷ 0 ∷ 4
    ∷ 0 ∷ 7 ∷ 0 ∷ 0 ∷ 0 ∷ 77 ∷ 0 ∷ 0 ∷ 0 ∷ 0 ∷ 0 ∷ 0 ∷ 0 ∷ 176 ∷ 125 ∷ 74 ∷ 36 ∷ 72 ∷ 74 ∷ 82 ∷ 49
    ∷ 2 ∷ 0 ∷ 64 ∷ 0 ∷ 7 ∷ 0 ∷ 4 ∷ 0 ∷ 0 ∷ 0 ∷ 0 ∷ 0 ∷ 8 ∷ 0 ∷ 0 ∷ 0 ∷ 0 ∷ 0 ∷ 0 ∷ 0 ∷ 5 ∷ 0 ∷ 0 ∷ 0
    ∷ 0 ∷ 0 ∷ 0 ∷ 0 ∷ 2 ∷ 0 ∷ 0 ∷ 0 ∷ 0 ∷ 0 ∷ 0 ∷ 0 ∷ 0 ∷ 0 ∷ 0 ∷ 0 ∷ 0 ∷ 0 ∷ 0 ∷ 0 ∷ 0 ∷ 0 ∷ 0 ∷ 0
    ∷ 77 ∷ 0 ∷ 0 ∷ 0 ∷ 0 ∷ 0 ∷ 0 ∷ 0 ∷ 21 ∷ 207 ∷ 164 ∷ 94 ∷ []

abbrev nothing : Summary
nothing = record { record_count = 0; next_sequence = 0; next_execution_id = 0; interrupted = [] }

abbrev open_delivery : OpenDelivery
open_delivery = record {
  delivery_was_sent = 0;
  request_id = 10;
  node_id = 3;
  app_id = 4;
  action_id = 7;
}

abbrev fresh : Interrupted
fresh = record {
  execution_id = 6;
  workflow_id = 2;
  image_fingerprint = 77;
  open_delivery_count = 0;
  open_deliveries = replicate max_open_deliveries empty_delivery;
}

abbrev log_summary : Summary
log_summary = record {
  record_count = 6;
  next_sequence = 7;
  next_execution_id = 7;
  interrupted =
      record fresh {
        execution_id = 5;
        open_delivery_count = 1;
        open_deliveries = set (set fresh.open_deliveries 0 open_delivery) 1 open_delivery;
      }
      ∷ fresh
      ∷ [];
}

-- Execution 5 holds a prepared delivery; of the two that it prepared, one was sent and succeeded.
scan-log : scan {C = Unit {0}} (some log) 384 none tt (some nothing) ≡ (ok, some log_summary, tt)
unfolding scan scan_loop scan_step count_record visit scan_record interrupted_of start_state
    decode_record decoded_record validate_record read_u16 read_u32 read_u64 checksum scan_transition
    start_execution activate first_inactive execution_transition kind_transition finish_execution
    finish_action close_delivery outcome_refused send_delivery mark_sent prepare_delivery shift_down
    outcome_precedence find_delivery route_matches find_scan_execution
scan-log = refl

-- After the second delivery was lost and the execution finished, only execution 6 is open.
scan-ended : scan {C = Unit {0}} (some (log ++ ending)) 512 none tt (some nothing) ≡ (
  ok,
  some (record {
    record_count = 8;
    next_sequence = 9;
    next_execution_id = 7;
    interrupted = fresh ∷ [];
  }),
  tt,
)
unfolding scan scan_loop scan_step count_record visit scan_record interrupted_of start_state
    decode_record decoded_record validate_record read_u16 read_u32 read_u64 checksum scan_transition
    start_execution activate first_inactive execution_transition kind_transition finish_execution
    finish_action close_delivery outcome_refused send_delivery mark_sent prepare_delivery shift_down
    outcome_precedence find_delivery route_matches find_scan_execution
scan-ended = refl

scan-damaged :
    scan {C = Unit {0}} (some (set log 100 1)) 384 none tt (some nothing)
    ≡ (checksum_mismatch, some nothing, tt)
unfolding scan scan_loop scan_step count_record visit scan_record interrupted_of start_state
    decode_record decoded_record validate_record read_u16 read_u32 read_u64 checksum scan_transition
    start_execution activate first_inactive execution_transition kind_transition finish_execution
    finish_action close_delivery outcome_refused send_delivery mark_sent prepare_delivery shift_down
    outcome_precedence find_delivery route_matches find_scan_execution
scan-damaged = refl

scan-Numbers_example : Numbers 6 log log_summary
scan-Numbers_example = scan-Numbers log 384 none tt tt nothing log_summary scan-log

abbrev start_record : JournalRecord
start_record = record {
  kind = 1;
  outcome = 0;
  sequence = 1;
  execution_id = 6;
  workflow_id = 2;
  request_id = 0;
  node_id = 0;
  app_id = 0;
  action_id = 0;
  image_fingerprint = 77;
}

abbrev preparing_record : JournalRecord
preparing_record = record start_record {
  kind = 2;
  sequence = 2;
  request_id = 10;
  node_id = 3;
  app_id = 4;
  action_id = 7;
}

abbrev closing_record : JournalRecord
closing_record = record preparing_record { kind = 6; outcome = 4; sequence = 3 }

abbrev finishing_record : JournalRecord
finishing_record = record start_record { kind = 7; outcome = 4; sequence = 4 }

abbrev running : ScanExecution
running = record empty_execution { active = true; value = fresh }

abbrev prepared_execution : ScanExecution
prepared_execution = record running {
  deliveries = set running.deliveries 0 delivery_prepared;
  largest_request_id = 10;
  value = record fresh {
    open_delivery_count = 1;
    open_deliveries = set fresh.open_deliveries 0 open_delivery;
  };
}

abbrev closed_execution : ScanExecution
closed_execution = record prepared_execution {
  terminal_outcome = 4;
  has_action_outcome = true;
  value = record fresh { open_deliveries = set fresh.open_deliveries 0 open_delivery };
}

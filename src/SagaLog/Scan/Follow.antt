-- ===== src/SagaLog/Scan/Follow.antt =====
-- The lives of the sagas in a scanned log.
use hermas.Base.{
  ℕ, zero, suc, ◌+◌, ◌/◌, ◌≡◌, ◌≢◌, inl, inr, refl, sym, arith, ◌==◌, some, List, [], ◌∷◌, All,
  drop, replicate, Bool-cases, Option-cases, get_or,
}
use hermas.Base.Check.{pass, fail, Check-cases}
use hermas.SagaLog.{SagaLogRecord, ok, record_size, decode_record}
use hermas.SagaLog.Decode.{decode_record-Decoded, decode_record-ne-ok}
use hermas.SagaLog.Transition.{
  ScanActive, empty_entry, max_active, find_active, first_inactive, entry_transition, start,
  transition,
}
use hermas.SagaLog.Transition.Phase.{Phase, closed}
use hermas.SagaLog.Transition.Table.{phase_at, Sound}
use hermas.SagaLog.Transition.Refine.{Follows, transition-Follows}
use hermas.SagaLog.Transition.History.{Trace, done, mine, other, IsValid}
use hermas.SagaLog.Scan.{
  ScanState, Summary, start_state, scan_record, scan_loop, active_of, summary_of, scan,
}

-- The records that the bytes of a log hold, 64 bytes each.
abbrev pub Records : ℕ → List ℕ → List SagaLogRecord → Type 0
Records zero bytes [] = Unit
Records zero bytes (r ∷ rs) = ⊥
Records (suc n) bytes [] = ⊥
Records (suc n) bytes (r ∷ rs) =
    (decode_record bytes record_size ≡ pass r) × Records n (drop record_size bytes) rs

-- The records are numbered from some number on.
abbrev pub Numbered : ℕ → List SagaLogRecord → Type 0
Numbered n [] = Unit
Numbered n (r ∷ rs) = (r.sequence ≡ n) × Numbered (n + 1) rs

-- What a scan has found from one state to another.
pub record Found (n : ℕ) (s : ScanState) (bytes : List ℕ) (s' : ScanState) : Type 0 where
  pub records : List SagaLogRecord
  pub held : Records n bytes records
  pub valid : All IsValid records
  pub numbered : Numbered s.next_sequence records
  pub traces : (id : ℕ) → Trace id (phase_at s.entries id) records (phase_at s'.entries id)
  pub sound : Sound s'.entries
  pub counted : s'.record_count ≡ s.record_count + n
  pub next : s'.next_sequence ≡ s.next_sequence + n

scan_record-cases :
    (s s' : ScanState) (r : SagaLogRecord)
    → scan_record s r ≡ pass s'
    → (r.sequence ≡ s.next_sequence)
      × (transition s.entries r ≡ pass s'.entries)
      × (s'.record_count ≡ s.record_count + 1)
      × (s'.next_sequence ≡ s.next_sequence + 1)
unfolding scan_record
scan_record-cases s s' r h = elim (Check-cases (transition s.entries r)) [
  | inl (code, failed) ↦ absurd (ground arith)
  | inr (entries, passed) ↦ ground arith
]

scan_loop-zero : (s s' : ScanState) (bytes : List ℕ) → scan_loop 0 s bytes ≡ pass s' → s ≡ s'
unfolding scan_loop
scan_loop-zero s s' bytes h = cc

scan_loop-cases :
    (n : ℕ) (s s' : ScanState) (bytes : List ℕ)
    → scan_loop (suc n) s bytes ≡ pass s'
    → (r : SagaLogRecord) × (t : ScanState) × (decode_record bytes record_size ≡ pass r)
      × (scan_record s r ≡ pass t)
      × (scan_loop n t (drop record_size bytes) ≡ pass s')
unfolding scan_loop
scan_loop-cases n s s' bytes h = elim (Check-cases (decode_record bytes record_size)) [
  | inl (code, failed) ↦ absurd (ground arith)
  | inr (r, decoded) ↦ elim (Check-cases (scan_record s r)) [
    | inl (code, failed) ↦ absurd (ground arith)
    | inr (t, passed) ↦ (r, t, decoded, passed, ground arith)
  ]
]

decoded-IsValid :
    (bytes : List ℕ) (r : SagaLogRecord) → decode_record bytes record_size ≡ pass r → IsValid r
decoded-IsValid bytes r decoded =
    let d = decode_record-Decoded bytes record_size r decoded in rw d.value d.valid_ok

Trace-cons :
    (id : ℕ) (entries entries' : List ScanActive) (r : SagaLogRecord) (rs : List SagaLogRecord)
    (p : Phase)
    → Follows entries r entries'
    → Trace id (phase_at entries' id) rs p
    → Trace id (phase_at entries id) (r ∷ rs) p
Trace-cons id entries entries' r rs p follows trace = elim (Bool-cases (r.execution_id == id)) [
  | inl own ↦
      let same : r.execution_id ≡ id = ground arith in
      rw (← same) (mine refl follows.step (rw same trace))
  | inr foreign ↦
      let differs : id ≢ r.execution_id = ground arith in
      let keep = follows.others id differs in other (λ e. differs (sym e)) (rw (← keep) trace)
]

scan_loop-Found :
    (n : ℕ) (s s' : ScanState) (bytes : List ℕ)
    → Sound s.entries
    → scan_loop n s bytes ≡ pass s'
    → Found n s bytes s'
scan_loop-Found zero s s' bytes sound h = rw (← scan_loop-zero s s' bytes h) (record {
  records = [];
  held = tt;
  valid = tt;
  numbered = tt;
  traces = λ id. done;
  sound = sound;
  counted = omega arith;
  next = omega arith;
})
scan_loop-Found (suc n) s s' bytes sound h =
    let (r, t, decoded, passed, rest) = scan_loop-cases n s s' bytes h in
    let (number, moved, count, next) = scan_record-cases s t r passed in
    let follows = transition-Follows s.entries t.entries r sound moved in
    let tail = scan_loop-Found n t s' (drop record_size bytes) follows.sound rest in
    record {
      records = r ∷ tail.records;
      held = (decoded, tail.held);
      valid = (decoded-IsValid bytes r decoded, tail.valid);
      numbered = (number, rw (← next) tail.numbered);
      traces = λ id.
          Trace-cons id s.entries t.entries r tail.records (phase_at s'.entries id) follows
            (tail.traces id);
      sound = tail.sound;
      counted = omega (arith, tail.counted, count);
      next = omega (arith, tail.next, next);
    }

-- What a log says of every saga, and the summary of it.
pub record LogHistory (n : ℕ) (bytes : List ℕ) (summary : Summary) : Type 0 where
  pub records : List SagaLogRecord
  pub held : Records n bytes records
  pub valid : All IsValid records
  pub numbered : Numbered 1 records
  pub entries : List ScanActive
  pub sound : Sound entries
  pub traces : (id : ℕ) → Trace id closed records (phase_at entries id)
  pub active : summary.active ≡ active_of entries
  pub counted : summary.record_count ≡ n
  pub next : summary.next_sequence ≡ n + 1

clear_table :
    (n id : ℕ) → Sound (replicate n empty_entry) × (phase_at (replicate n empty_entry) id ≡ closed)
unfolding phase_at find_active
clear_table zero id = (tt, refl)
clear_table (suc n) id =
    let (sound, absent) = clear_table n id in ((inl refl, (λ a. absurd cc), sound), absent)

entry_transition-ne-ok : (e : ScanActive) (r : SagaLogRecord) → entry_transition e r ≢ fail ok
unfolding entry_transition
entry_transition-ne-ok e r h = ground arith

transition-ne-ok : (entries : List ScanActive) (r : SagaLogRecord) → transition entries r ≢ fail ok
unfolding transition start
transition-ne-ok entries r h = elim (Option-cases (find_active entries r.execution_id)) [
  | inl absent ↦ elim (Option-cases (first_inactive entries)) [
    | inl full ↦ ground arith
    | inr (i, free) ↦ ground arith
  ]
  | inr (i, found) ↦ elim (Check-cases (entry_transition (get_or entries i empty_entry) r)) [
    | inl (code, failed) ↦ ground (arith, entry_transition-ne-ok (get_or entries i empty_entry) r)
    | inr (e', passed) ↦ ground arith
  ]
]

scan_record-ne-ok : (s : ScanState) (r : SagaLogRecord) → scan_record s r ≢ fail ok
unfolding scan_record
scan_record-ne-ok s r h = elim (Check-cases (transition s.entries r)) [
  | inl (code, failed) ↦ ground (arith, transition-ne-ok s.entries r)
  | inr (entries, passed) ↦ ground arith
]

scan_loop-ne-ok : (n : ℕ) (s : ScanState) (bytes : List ℕ) → scan_loop n s bytes ≢ fail ok
unfolding scan_loop
scan_loop-ne-ok zero s bytes h = cc
scan_loop-ne-ok (suc n) s bytes h = elim (Check-cases (decode_record bytes record_size)) [
  | inl (code, failed) ↦ ground (arith, decode_record-ne-ok bytes record_size)
  | inr (r, decoded) ↦ elim (Check-cases (scan_record s r)) [
    | inl (code, failed) ↦ ground (arith, scan_record-ne-ok s r)
    | inr (t, passed) ↦ ground (arith, scan_loop-ne-ok n t (drop record_size bytes))
  ]
]

scan-cases :
    (bytes : List ℕ) (n : ℕ) (old summary : Summary)
    → scan (some bytes) n (some old) ≡ (ok, some summary)
    → (s' : ScanState) × (scan_loop (n / record_size) start_state bytes ≡ pass s')
      × (summary ≡ summary_of s')
unfolding scan
scan-cases bytes n old summary h =
    elim (Check-cases (scan_loop (n / record_size) start_state bytes)) [
      | inl (code, failed) ↦
          absurd (ground (arith, scan_loop-ne-ok (n / record_size) start_state bytes))
      | inr (s', passed) ↦ (s', passed, ground arith)
    ]

-- When `hermas_saga_log_scan` accepts a log, every 64 bytes of it hold a valid record, numbered from
-- 1 on, and the log tells for each execution a life of its saga that starts closed: each of its
-- records is a step of that life. The entries behind the summary stand at the end of these lives,
-- and their flags tell the open delivery; the summary lists the active ones.
pub scan-LogHistory :
    (bytes : List ℕ) (n : ℕ) (old summary : Summary)
    → scan (some bytes) n (some old) ≡ (ok, some summary)
    → LogHistory (n / record_size) bytes summary
unfolding summary_of
scan-LogHistory bytes n old summary h =
    let (s', passed, result) = scan-cases bytes n old summary h in
    let sound = λ (id : ℕ). clear_table max_active id in
    let found = scan_loop-Found (n / record_size) start_state s' bytes (sound 0).0 passed in
    record {
      records = found.records;
      held = found.held;
      valid = found.valid;
      numbered = found.numbered;
      entries = s'.entries;
      sound = found.sound;
      traces = λ id. rw (← (sound id).1) (found.traces id);
      active = rw result;
      counted = rw result (omega (arith, found.counted));
      next = rw result (omega (arith, found.next));
    }

-- ===== src/Journal/Scan.antt =====
-- `hermas_journal_scan` of src/journal.c: what a log says of every execution, and which executions
-- it leaves interrupted.
pub mod Transition
pub mod Numbers
pub mod Prefix
pub mod Opens
pub mod Lived
pub mod Deliveries
pub mod Accepted
use mathlib.Core.Option
use hermas.Base.{
  ℕ, zero, suc, ◌+◌, ◌-◌, ◌/◌, ◌%◌, ◌^◌, Bool, true, false, not, ◌&&◌, ◌||◌, Option, none, some,
  List, [], ◌∷◌, ◌++◌, length, drop, replicate, ltb, leb, ◌==◌, ◌!=◌, if◌then◌else◌,
}
use hermas.Base.Check.{Check, fail, pass, ◌>>=◌, ◌>>◌, refuse}
use hermas.Journal.{
  JournalResult, ok, invalid_argument, invalid_sequence, invalid_transition, invalid_field, is_ok,
  JournalRecord, record_size, decode_record,
}
use hermas.Journal.Kind
use hermas.Journal.Scan.Transition.{
  ScanExecution, Interrupted, empty_execution, max_interrupted, scan_transition,
}

pub record Summary : Type 0 where
  pub record_count : ℕ
  pub next_sequence : ℕ
  pub next_execution_id : ℕ
  pub interrupted : List Interrupted

-- The locals of `hermas_journal_scan`, and the memory behind the visitor's context.
pub record ScanState (C : Type 0) : Type 0 where
  pub executions : List ScanExecution
  pub record_count : ℕ
  pub next_sequence : ℕ
  pub next_execution_id : ℕ
  pub largest_started_id : ℕ
  pub context : C

abbrev pub Visitor : Type 0 → Type 0
Visitor C = Option (C → JournalRecord → JournalResult × C)

-- The values of the active entries, in order.
unfoldable pub interrupted_of : List ScanExecution → List Interrupted
interrupted_of [] = []
interrupted_of (e ∷ executions) =
    let rest = interrupted_of executions in if e.active then e.value ∷ rest else rest

abbrev pub bytes_of : Option (List ℕ) → List ℕ
bytes_of none = []
bytes_of (some bytes) = bytes

abbrev pub missing : Option (List ℕ) → Bool
missing none = true
missing (some _) = false

module _ {C : Type 0} where
  unfoldable pub start_state : C → ScanState C
  start_state context = record {
    executions = replicate max_interrupted empty_execution;
    record_count = 0;
    next_sequence = 1;
    next_execution_id = 1;
    largest_started_id = 0;
    context = context;
  }

  -- The checks and the transition of one decoded record.
  unfoldable pub scan_record : ScanState C → JournalRecord → Check JournalResult (ScanState C)
  scan_record s r =
      let started = r.kind == Kind.execution_started in
      do
        refuse (r.sequence != s.next_sequence) invalid_sequence
        refuse (started && leb r.execution_id s.largest_started_id) invalid_transition
        executions ← scan_transition s.executions r
        pass (record s {
          executions = executions;
          largest_started_id = if started then r.execution_id else s.largest_started_id;
        })

  unfoldable pub visit : Visitor C → ScanState C → JournalRecord → JournalResult × ScanState C
  visit none s r = (ok, s)
  visit (some visitor) s r =
      let (code, context) = visitor s.context r in (code, record s { context = context })

  -- The counts after the visitor. The log holds fewer than 2^64 records, so they do not wrap.
  unfoldable pub count_record : ScanState C → JournalRecord → Check JournalResult (ScanState C)
  count_record s r =
      let counted = record s {
        record_count = s.record_count + 1;
        next_sequence = s.next_sequence + 1;
      } in
      if leb s.next_execution_id r.execution_id
      then if r.execution_id == 2 ^ 64 - 1
        then fail invalid_field
        else pass (record counted { next_execution_id = r.execution_id + 1 })
      else pass counted

  -- A failure carries the memory behind the context, which the visitor may have changed.
  abbrev pub keeping : {A : Type 0} → C → Check JournalResult A → Check (JournalResult × C) A
  keeping context (fail code) = fail (code, context)
  keeping context (pass a) = pass a

  abbrev pub visited : JournalResult × ScanState C → Check (JournalResult × C) (ScanState C)
  visited (code, s) = if is_ok code then pass s else fail (code, s.context)

  -- The body of the loop over the records.
  unfoldable pub scan_step :
      Visitor C → ScanState C → List ℕ → Check (JournalResult × C) (ScanState C)
  scan_step visitor s bytes = do
    r ← keeping s.context (decode_record bytes record_size)
    moved ← keeping s.context (scan_record s r)
    seen ← visited (visit visitor moved r)
    keeping seen.context (count_record seen r)

  unfoldable pub scan_loop :
      ℕ → Visitor C → ScanState C → List ℕ → Check (JournalResult × C) (ScanState C)
  scan_loop zero visitor s bytes = pass s
  scan_loop (suc rounds) visitor s bytes = do
    s' ← scan_step visitor s bytes
    scan_loop rounds visitor s' (drop record_size bytes)

  abbrev pub summary_of : ScanState C → Summary
  summary_of s = record {
    record_count = s.record_count;
    next_sequence = s.next_sequence;
    next_execution_id = s.next_execution_id;
    interrupted = interrupted_of s.executions;
  }

  abbrev pub scan_outputs :
      Check (JournalResult × C) (ScanState C) → Summary → JournalResult × Option Summary × C
  scan_outputs (fail (code, context)) old = (code, some old, context)
  scan_outputs (pass s) old = (ok, some (summary_of s), s.context)

  -- The result code, `*summary` and the memory behind the context after the call.
  unfoldable pub scan :
      Option (List ℕ) → ℕ → Visitor C → C → Option Summary → JournalResult × Option Summary × C
  scan bytes byte_count visitor context none = (invalid_argument, none, context)
  scan bytes byte_count visitor context (some old) =
      if (missing bytes && byte_count != 0) || byte_count % record_size != 0
      then (invalid_argument, some old, context)
      else scan_outputs
          (scan_loop (byte_count / record_size) visitor (start_state context) (bytes_of bytes)) old

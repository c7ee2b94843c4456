-- ===== src/Compensation/Scan.antt =====
-- `hermas_compensation_scan` of src/compensation.c.
use hermas.Base.{
  ℕ, zero, suc, ◌+◌, ◌-◌, true, false, ◌&&◌, Option, none, some, List, drop, ltb, ◌!=◌,
  if◌then◌else◌,
}
use hermas.Base.Check.{Check, fail, pass, ◌>>=◌, ◌>>◌, refuse}
use hermas.Compensation.{
  CompensationResult, ok, invalid_argument, invalid_sequence, is_ok, CompensationRecord, is_null,
  pointee, decode_record,
}

pub record Summary : Type 0 where
  pub record_count : ℕ
  pub next_sequence : ℕ

abbrev pub Visitor : Type 0 → Type 0
Visitor C = Option (C → CompensationRecord → CompensationResult × C)

-- The locals of `hermas_compensation_scan`, and the memory behind the visitor's context.
pub record ScanState (C : Type 0) : Type 0 where
  pub record_count : ℕ
  pub next_sequence : ℕ
  pub offset : ℕ
  pub context : C

module _ {C : Type 0} where
  -- A failure carries the memory behind the context, which the visitor may have changed.
  abbrev pub keeping :
      {A : Type 0} → C → Check CompensationResult A → Check (CompensationResult × C) A
  keeping context (fail code) = fail (code, context)
  keeping context (pass a) = pass a

  abbrev pub visit : Visitor C → C → CompensationRecord → CompensationResult × C
  visit none context r = (ok, context)
  visit (some visitor) context r = visitor context r

  abbrev pub visited : CompensationResult × C → Check (CompensationResult × C) C
  visited (code, context) = if is_ok code then pass context else fail (code, context)

  -- The body of the loop over the records. The store holds fewer than 2^64, so the counts do not
  -- wrap.
  unfoldable pub scan_step :
      Visitor C → List ℕ → ℕ → ScanState C → Check (CompensationResult × C) (ScanState C)
  scan_step visitor bytes byte_count s = do
    (r, size) ← keeping s.context (decode_record (drop s.offset bytes) (byte_count - s.offset))
    keeping s.context (refuse (r.sequence != s.next_sequence) invalid_sequence)
    context ← visited (visit visitor s.context r)
    pass (record {
      record_count = s.record_count + 1;
      next_sequence = s.next_sequence + 1;
      offset = s.offset + size;
      context = context;
    })

  unfoldable pub scan_loop :
      ℕ → Visitor C → List ℕ → ℕ → ScanState C → Check (CompensationResult × C) (ScanState C)
  unfolding scan_step
  scan_loop zero visitor bytes byte_count s = pass s
  scan_loop (suc rounds) visitor bytes byte_count s = elim (ltb s.offset byte_count) [
    | false ↦ pass s
    | true ↦ do
      s' ← scan_step visitor bytes byte_count s
      scan_loop rounds visitor bytes byte_count s'
  ]

  abbrev pub start_state : C → ScanState C
  start_state context = record {
    record_count = 0;
    next_sequence = 1;
    offset = 0;
    context = context;
  }

  abbrev pub scan_outputs :
      Check (CompensationResult × C) (ScanState C)
      → Summary
      → CompensationResult × Option Summary × C
  scan_outputs (fail (code, context)) old = (code, some old, context)
  scan_outputs (pass s) old = (
    ok,
    some (record { record_count = s.record_count; next_sequence = s.next_sequence }),
    s.context,
  )

  -- The result code, `*summary` and the memory behind the context after the call. As many rounds as
  -- bytes are enough.
  unfoldable pub scan :
      Option (List ℕ) → ℕ → Visitor C → C → Option Summary → CompensationResult × Option Summary × C
  unfolding scan_loop
  scan bytes byte_count visitor context none = (invalid_argument, none, context)
  scan bytes byte_count visitor context (some old) =
      if is_null bytes && byte_count != 0
      then (invalid_argument, some old, context)
      else scan_outputs
          (scan_loop byte_count visitor (pointee bytes) byte_count (start_state context)) old

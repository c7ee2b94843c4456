-- ===== src/Compensation/Accepted.antt =====
-- A scan that answers ok has come to the end of the store.
use hermas.Base.{ℕ, zero, suc, ◌-◌, ◌≡◌, ◌≢◌, inl, inr, arith, some, List, drop}
use hermas.Base.Check.{pass, fail, Check-cases}
use hermas.Compensation.{ok, decode_record}
use hermas.Compensation.Scan.{Visitor, Summary, ScanState, start_state, scan_step, scan_loop, scan}

decode_record-ne-ok : (source : List ℕ) (n : ℕ) → decode_record source n ≢ fail ok
unfolding decode_record
decode_record-ne-ok source n h = ground arith

module _ {C : Type 0} where
  scan_step-ne-ok :
      (visitor : Visitor C) (bytes : List ℕ) (count : ℕ) (s : ScanState C) (context : C)
      → scan_step visitor bytes count s ≢ fail (ok, context)
  unfolding scan_step
  scan_step-ne-ok visitor bytes count s context h =
      elim (Check-cases (decode_record (drop s.offset bytes) (count - s.offset))) [
        | inl (code, failed) ↦
            ground (arith, decode_record-ne-ok (drop s.offset bytes) (count - s.offset))
        | inr ((r, size), passed) ↦ ground arith
      ]

  scan_loop-ne-ok :
      (rounds : ℕ) (visitor : Visitor C) (bytes : List ℕ) (count : ℕ) (s : ScanState C)
      (context : C)
      → scan_loop rounds visitor bytes count s ≢ fail (ok, context)
  unfolding scan_loop
  scan_loop-ne-ok zero visitor bytes count s context h = cc
  scan_loop-ne-ok (suc rounds) visitor bytes count s context h =
      elim (Check-cases (scan_step visitor bytes count s)) [
        | inl ((code, c), failed) ↦ ground (arith, scan_step-ne-ok visitor bytes count s context)
        | inr (t, passed) ↦ ground (arith, scan_loop-ne-ok rounds visitor bytes count t context)
      ]

  pub scan-passed :
      (bytes : List ℕ) (count : ℕ) (visitor : Visitor C) (context context' : C)
      (old summary : Summary)
      → scan (some bytes) count visitor context (some old) ≡ (ok, some summary, context')
      → (s' : ScanState C) × (scan_loop count visitor bytes count (start_state context) ≡ pass s')
        × (summary.record_count ≡ s'.record_count)
        × (summary.next_sequence ≡ s'.next_sequence)
  unfolding scan
  scan-passed bytes count visitor context context' old summary h =
      elim (Check-cases (scan_loop count visitor bytes count (start_state context))) [
        | inl ((code, c), failed) ↦ absurd (
            ground
              (arith, scan_loop-ne-ok count visitor bytes count (start_state context) context'))
        | inr (s', passed) ↦ (s', passed, ground arith, ground arith)
      ]

-- ===== src/Journal/Scan/Numbers.antt =====
-- The numbers of a scanned log: its sequence, its counts and its execution ids.
use hermas.Base.{
  ℕ, zero, suc, ◌+◌, ◌<◌, ◌≤◌, ◌≡◌, inl, inr, refl, ◌∙◌, arith, none, some, List, [], ◌∷◌, All,
  drop, ◌==◌, if◌then◌else◌,
}
use hermas.Base.Check.{pass, Check-cases}
use hermas.Journal.{JournalRecord, record_size, decode_record}
use hermas.Journal.Kind
use hermas.Journal.Scan.Transition.{scan_transition}
use hermas.Journal.Scan.{Visitor, ScanState, scan_record, visit, count_record, scan_step, scan_loop}

-- The records that the bytes of a log hold, 64 bytes each.
abbrev pub Records : ℕ → List ℕ → List JournalRecord → Type 0
Records zero bytes [] = Unit
Records zero bytes (r ∷ rs) = ⊥
Records (suc n) bytes [] = ⊥
Records (suc n) bytes (r ∷ rs) =
    (decode_record bytes record_size ≡ pass r) × Records n (drop record_size bytes) rs

abbrev pub Numbered : ℕ → List JournalRecord → Type 0
Numbered n [] = Unit
Numbered n (r ∷ rs) = (r.sequence ≡ n) × Numbered (n + 1) rs

abbrev pub started_after : ℕ → JournalRecord → ℕ
started_after id r = if r.kind == Kind.execution_started then r.execution_id else id

-- Each execution starts under an id above all that started before.
abbrev pub Increasing : ℕ → List JournalRecord → Type 0
Increasing id [] = Unit
Increasing id (r ∷ rs) =
    (r.kind ≡ Kind.execution_started → id < r.execution_id) × Increasing (started_after id r) rs

module _ {C : Type 0} where
  scan_record-cases :
      (s s' : ScanState C) (r : JournalRecord)
      → scan_record s r ≡ pass s'
      → (r.sequence ≡ s.next_sequence)
        × (r.kind ≡ Kind.execution_started → s.largest_started_id < r.execution_id)
        × (s'.largest_started_id ≡ started_after s.largest_started_id r)
        × (s'.record_count ≡ s.record_count)
        × (s'.next_sequence ≡ s.next_sequence)
        × (s'.next_execution_id ≡ s.next_execution_id)
  unfolding scan_record
  scan_record-cases s s' r h = elim (Check-cases (scan_transition s.executions r)) [
    | inl (code, failed) ↦ absurd (ground arith)
    | inr (executions, passed) ↦
        (ground arith, λ k. ground arith, ground arith, ground arith, ground arith, ground arith)
  ]

  count_record-cases :
      (s s' : ScanState C) (r : JournalRecord)
      → count_record s r ≡ pass s'
      → (s'.largest_started_id ≡ s.largest_started_id)
        × (s'.record_count ≡ s.record_count + 1)
        × (s'.next_sequence ≡ s.next_sequence + 1)
        × (s.next_execution_id ≤ s'.next_execution_id)
        × (r.execution_id < s'.next_execution_id)
  unfolding count_record
  count_record-cases s s' r h =
      (ground arith, ground arith, ground arith, ground arith, ground arith)

  visit-keeps :
      (visitor : Visitor C) (s : ScanState C) (r : JournalRecord)
      → let s' = (visit visitor s r).1 in
        (s'.largest_started_id ≡ s.largest_started_id)
        × (s'.record_count ≡ s.record_count)
        × (s'.next_sequence ≡ s.next_sequence)
        × (s'.next_execution_id ≡ s.next_execution_id)
  unfolding visit
  visit-keeps none s r = (refl, refl, refl, refl)
  visit-keeps (some visitor) s r = (refl, refl, refl, refl)

  scan_step-cases :
      (visitor : Visitor C) (s s' : ScanState C) (bytes : List ℕ)
      → scan_step visitor s bytes ≡ pass s'
      → (r : JournalRecord) × (t : ScanState C) × (decode_record bytes record_size ≡ pass r)
        × (scan_record s r ≡ pass t)
        × (count_record (visit visitor t r).1 r ≡ pass s')
  unfolding scan_step
  scan_step-cases visitor s s' bytes h = elim (Check-cases (decode_record bytes record_size)) [
    | inl (code, failed) ↦ absurd (ground arith)
    | inr (r, decoded) ↦ elim (Check-cases (scan_record s r)) [
      | inl (code, failed) ↦ absurd (ground arith)
      | inr (t, passed) ↦ elim (Check-cases (count_record (visit visitor t r).1 r)) [
        | inl (code, failed) ↦ absurd (ground arith)
        | inr (u, counted) ↦ (r, t, decoded, passed, ground arith)
      ]
    ]
  ]

  -- What a scan has found from one state to another.
  pub record Found (n : ℕ) (s : ScanState C) (bytes : List ℕ) (s' : ScanState C) : Type 0 where
    pub records : List JournalRecord
    pub held : Records n bytes records
    pub numbered : Numbered s.next_sequence records
    pub increasing : Increasing s.largest_started_id records
    pub below : All (λ r. r.execution_id < s'.next_execution_id) records
    pub grows : s.next_execution_id ≤ s'.next_execution_id
    pub counted : s'.record_count ≡ s.record_count + n
    pub next : s'.next_sequence ≡ s.next_sequence + n

  scan_loop-zero :
      (visitor : Visitor C) (s s' : ScanState C) (bytes : List ℕ)
      → scan_loop 0 visitor s bytes ≡ pass s'
      → s ≡ s'
  unfolding scan_loop
  scan_loop-zero visitor s s' bytes h = cc

  scan_loop-suc :
      (n : ℕ) (visitor : Visitor C) (s s' : ScanState C) (bytes : List ℕ)
      → scan_loop (suc n) visitor s bytes ≡ pass s'
      → (t : ScanState C) × (scan_step visitor s bytes ≡ pass t)
        × (scan_loop n visitor t (drop record_size bytes) ≡ pass s')
  unfolding scan_loop
  scan_loop-suc n visitor s s' bytes h = elim (Check-cases (scan_step visitor s bytes)) [
    | inl (code, failed) ↦ absurd (ground arith)
    | inr (t, passed) ↦ (t, passed, ground arith)
  ]

  pub scan_loop-Found :
      (n : ℕ) (visitor : Visitor C) (s s' : ScanState C) (bytes : List ℕ)
      → scan_loop n visitor s bytes ≡ pass s'
      → Found n s bytes s'
  scan_loop-Found zero visitor s s' bytes h = rw (← scan_loop-zero visitor s s' bytes h) (record {
    records = [];
    held = tt;
    numbered = tt;
    increasing = tt;
    below = tt;
    grows = omega arith;
    counted = omega arith;
    next = omega arith;
  })
  scan_loop-Found (suc n) visitor s s' bytes h =
      let (u, stepped, rest) = scan_loop-suc n visitor s s' bytes h in
      let (r, t, decoded, recorded, count) = scan_step-cases visitor s u bytes stepped in
      let (number, rising, largest, c, q, e) = scan_record-cases s t r recorded in
      let (largest', c', q', e') = visit-keeps visitor t r in
      let (largest'', c'', q'', grow, under) = count_record-cases (visit visitor t r).1 u r count in
      let tail = scan_loop-Found n visitor u s' (drop record_size bytes) rest in
      let next : u.next_sequence ≡ s.next_sequence + 1 = omega (arith, q, q', q'') in
      let started : u.largest_started_id ≡ started_after s.largest_started_id r =
        largest'' ∙ largest' ∙ largest in
      record {
        records = r ∷ tail.records;
        held = (decoded, tail.held);
        numbered = (number, rw (← next) tail.numbered);
        increasing = (rising, rw (← started) tail.increasing);
        below = (omega (arith, under, tail.grows), tail.below);
        grows = omega (arith, grow, e, e', tail.grows);
        counted = omega (arith, tail.counted, c, c', c'');
        next = omega (arith, tail.next, next);
      }

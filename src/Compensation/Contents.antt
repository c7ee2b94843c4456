-- ===== src/Compensation/Contents.antt =====
-- What a compensation store holds, as a list of records.
use hermas.Base.{
  ℕ, zero, suc, ◌+◌, ◌-◌, ◌<◌, ◌≤◌, ◌≡◌, inl, inr, arith, false, List, [], ◌∷◌, length, drop, ltb,
  Bool-cases,
}
use hermas.Base.Check.{pass, Check-cases}
use hermas.Bytes.{read_u32}
use hermas.Compensation.{
  CompensationRecord, CompensationKey, header_size, key_equal, decoded_record, header_refused,
  decode_record,
}
use hermas.Compensation.Scan.{Visitor, ScanState, scan_step, scan_loop}

-- What a decoded record has been read from, and its size.
pub record Stored (source : List ℕ) (n : ℕ) (r : CompensationRecord) (size : ℕ) : Type 0 where
  pub value : r ≡ decoded_record source
  pub size_read : size ≡ read_u32 source 8
  pub long_enough : header_size ≤ size
  pub inside : size ≤ n
  pub value_size : size ≡ header_size + r.token_length

pub decode_record-Stored :
    (source : List ℕ) (n : ℕ) (r : CompensationRecord) (size : ℕ)
    → decode_record source n ≡ pass (r, size)
    → Stored source n r size
unfolding decode_record decoded_record header_refused
decode_record-Stored source n r size h = ground arith

-- The records of a store from an offset on.
pub data Contents (bytes : List ℕ) (count : ℕ) : ℕ → List CompensationRecord → Type 0 where
  ends : {offset : ℕ} → count ≤ offset → Contents bytes count offset []
  next :
      {offset size : ℕ} {r : CompensationRecord} {rs : List CompensationRecord}
      → offset < count
      → decode_record (drop offset bytes) (count - offset) ≡ pass (r, size)
      → Contents bytes count (offset + size) rs
      → Contents bytes count offset (r ∷ rs)

abbrev pub Apart : CompensationKey → CompensationRecord → Type 0
Apart key r = key_equal r.key key ≡ false

abbrev pub Numbered : ℕ → List CompensationRecord → Type 0
Numbered n [] = Unit
Numbered n (r ∷ rs) = (r.sequence ≡ n) × Numbered (n + 1) rs

module _ {C : Type 0} where
  scan_step-cases :
      (visitor : Visitor C) (bytes : List ℕ) (count : ℕ) (s s' : ScanState C)
      → scan_step visitor bytes count s ≡ pass s'
      → (r : CompensationRecord) × (size : ℕ) × (decode_record
            (drop s.offset bytes)
            (count - s.offset)
          ≡ pass (r, size))
        × (r.sequence ≡ s.next_sequence)
        × (s'.record_count ≡ s.record_count + 1)
        × (s'.next_sequence ≡ s.next_sequence + 1)
        × (s'.offset ≡ s.offset + size)
  unfolding scan_step
  scan_step-cases visitor bytes count s s' h =
      elim (Check-cases (decode_record (drop s.offset bytes) (count - s.offset))) [
        | inl (code, failed) ↦ absurd (ground arith)
        | inr ((r, size), passed) ↦
            (r, size, passed, ground arith, ground arith, ground arith, ground arith)
      ]

  scan_loop-cases :
      (rounds : ℕ) (visitor : Visitor C) (bytes : List ℕ) (count : ℕ) (s s' : ScanState C)
      → s.offset < count
      → scan_loop (suc rounds) visitor bytes count s ≡ pass s'
      → (t : ScanState C) × (scan_step visitor bytes count s ≡ pass t)
        × (scan_loop rounds visitor bytes count t ≡ pass s')
  unfolding scan_loop
  scan_loop-cases rounds visitor bytes count s s' lt h =
      elim (Check-cases (scan_step visitor bytes count s)) [
        | inl (code, failed) ↦ absurd (ground arith)
        | inr (t, passed) ↦ (t, passed, ground arith)
      ]

  scan_loop-end :
      (rounds : ℕ) (visitor : Visitor C) (bytes : List ℕ) (count : ℕ) (s s' : ScanState C)
      → count ≤ s.offset
      → scan_loop rounds visitor bytes count s ≡ pass s'
      → s ≡ s'
  unfolding scan_loop
  scan_loop-end zero visitor bytes count s s' le h = cc
  scan_loop-end (suc rounds) visitor bytes count s s' le h = ground arith

  -- What a scan has read from one state to another.
  pub record Read (bytes : List ℕ) (count : ℕ) (s s' : ScanState C) : Type 0 where
    pub records : List CompensationRecord
    pub contents : Contents bytes count s.offset records
    pub numbered : Numbered s.next_sequence records
    pub counted : s'.record_count ≡ s.record_count + length records
    pub following : s'.next_sequence ≡ s.next_sequence + length records

  Read-end :
      (bytes : List ℕ) (count : ℕ) (s s' : ScanState C)
      → count ≤ s.offset
      → s ≡ s'
      → Read bytes count s s'
  Read-end bytes count s s' le e = rw (← e) (record {
    records = [];
    contents = ends le;
    numbered = tt;
    counted = omega arith;
    following = omega arith;
  })

  pub scan_loop-Read :
      (rounds : ℕ) (visitor : Visitor C) (bytes : List ℕ) (count : ℕ) (s s' : ScanState C)
      → count ≤ s.offset + rounds
      → scan_loop rounds visitor bytes count s ≡ pass s'
      → Read bytes count s s'
  scan_loop-Read zero visitor bytes count s s' enough h =
      let le : count ≤ s.offset = omega arith in
      Read-end bytes count s s' le (scan_loop-end zero visitor bytes count s s' le h)
  scan_loop-Read (suc rounds) visitor bytes count s s' enough h =
      elim (Bool-cases (ltb s.offset count)) [
        | inl lt ↦
            let (t, passed, rest) =
              scan_loop-cases rounds visitor bytes count s s' (ground arith) h in
            let (r, size, decoded, number, count', next', offset') =
              scan_step-cases visitor bytes count s t passed in
            let stored =
              decode_record-Stored (drop s.offset bytes) (count - s.offset) r size decoded in
            let tail =
              scan_loop-Read rounds visitor bytes count t s'
                (omega (arith, stored.long_enough, offset')) rest in
            record {
              records = r ∷ tail.records;
              contents = next (ground arith) decoded (rw (← offset') tail.contents);
              numbered = (number, rw (← next') tail.numbered);
              counted = omega (arith, tail.counted, count');
              following = omega (arith, tail.following, next');
            }
        | inr ge ↦
            let le : count ≤ s.offset = ground arith in
            Read-end bytes count s s' le (scan_loop-end (suc rounds) visitor bytes count s s' le h)
      ]

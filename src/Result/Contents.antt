-- ===== src/Result/Contents.antt =====
-- What a result store holds, as a list of records.
use hermas.Base.{
  ℕ, zero, suc, ◌+◌, ◌-◌, ◌<◌, ◌≤◌, ◌≡◌, inl, inr, sym, ◌∙◌, arith, false, List, [], ◌∷◌, ◌++◌, All,
  All-append, length, drop, ltb, Bool-cases, append-nil, append_assoc,
}
use hermas.Base.Check.{pass, Check-cases}
use hermas.Bytes.{read_u32}
use hermas.Result.{
  ResultRecord, ResultKey, header_size, key_equal, decoded_record, header_refused, decode_record,
}
use hermas.Result.Scan.{Visitor, ScanState, prior_loop, scan_step, scan_loop}

-- What a decoded record has been read from, and its size.
pub record Stored (source : List ℕ) (n : ℕ) (r : ResultRecord) (size : ℕ) : Type 0 where
  pub value : r ≡ decoded_record source
  pub size_read : size ≡ read_u32 source 8
  pub long_enough : header_size ≤ size
  pub inside : size ≤ n
  pub value_size : size ≡ header_size + r.value_length

pub decode_record-Stored :
    (source : List ℕ) (n : ℕ) (r : ResultRecord) (size : ℕ)
    → decode_record source n ≡ pass (r, size)
    → Stored source n r size
unfolding decode_record decoded_record header_refused
decode_record-Stored source n r size h = ground arith

-- The records of a store from an offset on.
pub data Contents (bytes : List ℕ) (count : ℕ) : ℕ → List ResultRecord → Type 0 where
  ends : {offset : ℕ} → count ≤ offset → Contents bytes count offset []
  next :
      {offset size : ℕ} {r : ResultRecord} {rs : List ResultRecord}
      → offset < count
      → decode_record (drop offset bytes) (count - offset) ≡ pass (r, size)
      → Contents bytes count (offset + size) rs
      → Contents bytes count offset (r ∷ rs)

-- The records between two offsets.
pub data Before (bytes : List ℕ) (offset : ℕ) : ℕ → List ResultRecord → Type 0 where
  here : Before bytes offset offset []
  there :
      {o size : ℕ} {r : ResultRecord} {rs : List ResultRecord}
      → r ≡ decoded_record (drop o bytes)
      → size ≡ read_u32 (drop o bytes) 8
      → header_size ≤ size
      → Before bytes offset (o + size) rs
      → Before bytes offset o (r ∷ rs)

abbrev pub Apart : ResultKey → ResultRecord → Type 0
Apart key r = key_equal r.key key ≡ false

-- No two records have the same key.
abbrev pub Distinct : List ResultRecord → Type 0
Distinct [] = Unit
Distinct (r ∷ rs) = All (λ s. Apart s.key r) rs × Distinct rs

abbrev pub Numbered : ℕ → List ResultRecord → Type 0
Numbered n [] = Unit
Numbered n (r ∷ rs) = (r.sequence ≡ n) × Numbered (n + 1) rs

Before-le :
    {bytes : List ℕ} {offset o : ℕ} {rs : List ResultRecord} → Before bytes offset o rs → o ≤ offset
Before-le here = omega arith
Before-le (there v s l rest) = omega (arith, Before-le rest, l)

Before-snoc :
    (bytes : List ℕ) (n size offset : ℕ) (r : ResultRecord) (rs : List ResultRecord) {o : ℕ}
    → Before bytes offset o rs
    → Stored (drop offset bytes) n r size
    → Before bytes (offset + size) o (rs ++ r ∷ [])
Before-snoc bytes n size offset r [] here d = there d.value d.size_read d.long_enough here
Before-snoc bytes n size offset r (x ∷ rs) (there v s l rest) d =
    there v s l (Before-snoc bytes n size offset r rs rest d)

Distinct-snoc :
    (rs : List ResultRecord) (r : ResultRecord)
    → Distinct rs
    → All (Apart r.key) rs
    → Distinct (rs ++ r ∷ [])
Distinct-snoc [] r h k = (tt, tt)
Distinct-snoc (x ∷ rs) r h k =
    (All-append (λ s. Apart s.key x) rs (r ∷ []) h.0 (k.0, tt), Distinct-snoc rs r h.1 k.1)

prior_loop-cases :
    (rounds : ℕ) (bytes : List ℕ) (offset o : ℕ) (key : ResultKey)
    → o < offset
    → prior_loop (suc rounds) bytes offset key o ≡ pass tt
    → (r : ResultRecord) × (size : ℕ) × Stored (drop o bytes) (offset - o) r size
      × Apart key r
      × (prior_loop rounds bytes offset key (o + size) ≡ pass tt)
unfolding prior_loop
prior_loop-cases rounds bytes offset o key lt h =
    elim (Check-cases (decode_record (drop o bytes) (offset - o))) [
      | inl (code, failed) ↦ absurd (ground arith)
      | inr ((r, size), passed) ↦ (
        r,
        size,
        decode_record-Stored (drop o bytes) (offset - o) r size passed,
        ground arith,
        ground arith,
      )
    ]

prior_loop-Apart :
    (rounds : ℕ) (bytes : List ℕ) (offset o : ℕ) (key : ResultKey) (rs : List ResultRecord)
    → Before bytes offset o rs
    → offset ≤ o + rounds
    → prior_loop rounds bytes offset key o ≡ pass tt
    → All (Apart key) rs
prior_loop-Apart rounds bytes offset o key [] before enough h = tt
prior_loop-Apart zero bytes offset o key (r ∷ rs) (there v s l rest) enough h =
    absurd (omega (arith, Before-le rest, l))
prior_loop-Apart (suc rounds) bytes offset o key (r ∷ rs) (there {size = size} v s l rest) enough
      h =
    let lt : o < offset = omega (arith, Before-le rest, l) in
    let (r', size', stored, apart, more) = prior_loop-cases rounds bytes offset o key lt h in
    let same : r' ≡ r = stored.value ∙ sym v in
    let step : size' ≡ size = stored.size_read ∙ sym s in
    (
      rw same at apart,
      prior_loop-Apart rounds bytes offset (o + size) key rs rest (omega (arith, l))
          (rw step at more),
    )

module _ {C : Type 0} where
  scan_step-cases :
      (visitor : Visitor C) (bytes : List ℕ) (count : ℕ) (s s' : ScanState C)
      → scan_step visitor bytes count s ≡ pass s'
      → (r : ResultRecord) × (size : ℕ) × (decode_record (drop s.offset bytes) (count - s.offset)
          ≡ pass (r, size))
        × (r.sequence ≡ s.next_sequence)
        × (prior_loop s.offset bytes s.offset r.key 0 ≡ pass tt)
        × (s'.record_count ≡ s.record_count + 1)
        × (s'.next_sequence ≡ s.next_sequence + 1)
        × (s'.offset ≡ s.offset + size)
  unfolding scan_step
  scan_step-cases visitor bytes count s s' h =
      elim (Check-cases (decode_record (drop s.offset bytes) (count - s.offset))) [
        | inl (code, failed) ↦ absurd (ground arith)
        | inr ((r, size), passed) ↦
            elim (Check-cases (prior_loop s.offset bytes s.offset r.key 0)) [
              | inl (code, failed) ↦ absurd (ground arith)
              | inr (done, fresh) ↦
                  (r, size, passed, ground arith, fresh, ground arith, ground arith, ground arith)
            ]
      ]

  scan_loop-cases :
      (rounds : ℕ) (visitor : Visitor C) (bytes : List ℕ) (count : ℕ) (s s' : ScanState C)
      → s.offset < count
      → scan_loop (suc rounds) visitor bytes count s ≡ pass s'
      → (t : ScanState C) × (scan_step visitor bytes count s ≡ pass t)
        × (scan_loop rounds visitor bytes count t ≡ pass s')
  unfolding scan_loop
  scan_loop-cases rounds visitor bytes count s s' lt h =
      elim (Check-cases (scan_step visitor bytes count s)) [
        | inl (code, failed) ↦ absurd (ground arith)
        | inr (t, passed) ↦ (t, passed, ground arith)
      ]

  scan_loop-end :
      (rounds : ℕ) (visitor : Visitor C) (bytes : List ℕ) (count : ℕ) (s s' : ScanState C)
      → count ≤ s.offset
      → scan_loop rounds visitor bytes count s ≡ pass s'
      → s ≡ s'
  unfolding scan_loop
  scan_loop-end zero visitor bytes count s s' le h = cc
  scan_loop-end (suc rounds) visitor bytes count s s' le h = ground arith

  -- What a scan has read from one state to another.
  pub record Read (bytes : List ℕ) (count : ℕ) (seen : List ResultRecord) (s s' : ScanState C)
      : Type 0 where
    pub records : List ResultRecord
    pub contents : Contents bytes count s.offset records
    pub distinct : Distinct (seen ++ records)
    pub numbered : Numbered s.next_sequence records
    pub counted : s'.record_count ≡ s.record_count + length records
    pub following : s'.next_sequence ≡ s.next_sequence + length records

  Read-end :
      (bytes : List ℕ) (count : ℕ) (seen : List ResultRecord) (s s' : ScanState C)
      → Distinct seen
      → count ≤ s.offset
      → s ≡ s'
      → Read bytes count seen s s'
  Read-end bytes count seen s s' distinct le e = rw (← e) (record {
    records = [];
    contents = ends le;
    distinct = rw (append-nil seen) distinct;
    numbered = tt;
    counted = omega arith;
    following = omega arith;
  })

  pub scan_loop-Read :
      (rounds : ℕ) (visitor : Visitor C) (bytes : List ℕ) (count : ℕ) (seen : List ResultRecord)
      (s s' : ScanState C)
      → Before bytes s.offset 0 seen
      → Distinct seen
      → count ≤ s.offset + rounds
      → scan_loop rounds visitor bytes count s ≡ pass s'
      → Read bytes count seen s s'
  scan_loop-Read zero visitor bytes count seen s s' before distinct enough h =
      let le : count ≤ s.offset = omega arith in
      Read-end bytes count seen s s' distinct le (scan_loop-end zero visitor bytes count s s' le h)
  scan_loop-Read (suc rounds) visitor bytes count seen s s' before distinct enough h =
      elim (Bool-cases (ltb s.offset count)) [
        | inl lt ↦
            let (t, passed, rest) =
              scan_loop-cases rounds visitor bytes count s s' (ground arith) h in
            let (r, size, decoded, number, fresh, count', next', offset') =
              scan_step-cases visitor bytes count s t passed in
            let stored =
              decode_record-Stored (drop s.offset bytes) (count - s.offset) r size decoded in
            let apart =
              prior_loop-Apart s.offset bytes s.offset 0 r.key seen before (omega arith) fresh in
            let before' : Before bytes t.offset 0 (seen ++ r ∷ []) =
              rw offset'
                (Before-snoc bytes (count - s.offset) size s.offset r seen before stored) in
            let tail =
              scan_loop-Read rounds visitor bytes count (seen ++ r ∷ []) t s' before'
                (Distinct-snoc seen r distinct apart) (omega (arith, stored.long_enough, offset'))
                rest in
            record {
              records = r ∷ tail.records;
              contents = next (ground arith) decoded (rw (← offset') tail.contents);
              distinct = rw (← append_assoc seen (r ∷ []) tail.records) tail.distinct;
              numbered = (number, rw (← next') tail.numbered);
              counted = omega (arith, tail.counted, count');
              following = omega (arith, tail.following, next');
            }
        | inr ge ↦
            let le : count ≤ s.offset = ground arith in
            Read-end bytes count seen s s' distinct le
              (scan_loop-end (suc rounds) visitor bytes count s s' le h)
      ]

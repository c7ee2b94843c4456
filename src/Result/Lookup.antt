-- ===== src/Result/Lookup.antt =====
-- `hermas_result_find` and what the store holds.
use hermas.Base.{
  ℕ, zero, suc, ◌+◌, ◌-◌, ◌<◌, ◌≤◌, ◌≡◌, inl, inr, refl, ◌∙◌, arith, true, Option, none, some, List,
  [], ◌∷◌, All, length, drop, take, overwrite, Bool-cases, if◌then◌else◌,
}
use hermas.Base.Check.{pass}
use hermas.Result.{ResultRecord, ResultKey, ok, pointee, key_equal, decode_record}
use hermas.Result.Scan.{Visitor, Summary, start_state, scan}
use hermas.Result.Accepted.{scan-passed}
use hermas.Result.Find.{Outputs, take_candidate, consider, find_loop, find}
use hermas.Result.Contents.{
  decode_record-Stored, Contents, ends, next, here, Apart, Distinct, Numbered, scan_loop-Read,
}

-- The first record with a key.
abbrev pub lookup : ResultKey → List ResultRecord → Option ResultRecord
lookup key [] = none
lookup key (r ∷ rs) = let rest = lookup key rs in if key_equal r.key key then some r else rest

-- What a record leaves behind the caller's pointers: its fields, with the value in the buffer.
abbrev pub copied : ResultRecord → List ℕ → List ℕ
copied r value = overwrite value 0 (take r.value_length (pointee r.value))

abbrev pub taken : ResultRecord → Outputs → Outputs
taken r o = record {
  record_out = record r { value = some (copied r o.value) };
  value = copied r o.value;
  found = 1;
}

abbrev pub outputs : Option ResultRecord → Outputs → Outputs
outputs none o = o
outputs (some r) o = taken r o

later-Apart :
    (key : ResultKey) (r s : ResultRecord)
    → key_equal r.key key ≡ true
    → Apart s.key r
    → Apart key s
unfolding key_equal
later-Apart key r s same apart = ground arith

others-Apart :
    (key : ResultKey) (r : ResultRecord) (rs : List ResultRecord)
    → key_equal r.key key ≡ true
    → All (λ s. Apart s.key r) rs
    → All (Apart key) rs
others-Apart key r [] same h = tt
others-Apart key r (s ∷ rs) same h = (later-Apart key r s same h.0, others-Apart key r rs same h.1)

module _ (bytes : List ℕ) (count : ℕ) (key : ResultKey) (capacity : ℕ) where
  find_loop-skip :
      (rounds offset size : ℕ) (r : ResultRecord) (o : Outputs)
      → offset < count
      → decode_record (drop offset bytes) (count - offset) ≡ pass (r, size)
      → Apart key r
      → find_loop (suc rounds) bytes count key capacity offset o
        ≡ find_loop rounds bytes count key capacity (offset + size) o
  unfolding find_loop consider
  find_loop-skip rounds offset size r o lt decoded apart = ground arith

  find_loop-take :
      (rounds offset size : ℕ) (r : ResultRecord) (o : Outputs)
      → offset < count
      → decode_record (drop offset bytes) (count - offset) ≡ pass (r, size)
      → key_equal r.key key ≡ true
      → o.found ≡ 0
      → r.value_length ≤ capacity
      → find_loop (suc rounds) bytes count key capacity offset o
        ≡ find_loop rounds bytes count key capacity (offset + size) (taken r o)
  unfolding find_loop consider take_candidate
  find_loop-take rounds offset size r o lt decoded same fresh fits = ground arith

  find_loop-end :
      (rounds offset : ℕ) (o : Outputs)
      → count ≤ offset
      → find_loop rounds bytes count key capacity offset o ≡ (ok, o)
  unfolding find_loop
  find_loop-end zero offset o le = refl
  find_loop-end (suc rounds) offset o le = ground arith

  find_loop-none :
      (rounds offset : ℕ) (rs : List ResultRecord) (o : Outputs)
      → Contents bytes count offset rs
      → All (Apart key) rs
      → count ≤ offset + rounds
      → find_loop rounds bytes count key capacity offset o ≡ (ok, o)
  find_loop-none rounds offset [] o (ends le) apart enough = find_loop-end rounds offset o le
  find_loop-none zero offset (r ∷ rs) o (next lt decoded more) apart enough = absurd (omega arith)
  find_loop-none (suc rounds) offset (r ∷ rs) o (next {size = size} lt decoded more) apart enough =
      let stored = decode_record-Stored (drop offset bytes) (count - offset) r size decoded in
      find_loop-skip rounds offset size r o lt decoded apart.0
      ∙ find_loop-none rounds (offset + size) rs o more apart.1 (omega (arith, stored.long_enough))

  pub find_loop-lookup :
      (rounds offset : ℕ) (rs : List ResultRecord) (o : Outputs)
      → Contents bytes count offset rs
      → Distinct rs
      → All (λ r. r.value_length ≤ capacity) rs
      → count ≤ offset + rounds
      → o.found ≡ 0
      → find_loop rounds bytes count key capacity offset o ≡ (ok, outputs (lookup key rs) o)
  find_loop-lookup rounds offset [] o (ends le) distinct fit enough fresh =
      find_loop-end rounds offset o le
  find_loop-lookup zero offset (r ∷ rs) o (next lt decoded more) distinct fit enough fresh =
      absurd (omega arith)
  find_loop-lookup (suc rounds) offset (r ∷ rs) o (next {size = size} lt decoded more) distinct fit
        enough fresh =
      let stored = decode_record-Stored (drop offset bytes) (count - offset) r size decoded in
      let enough' : count ≤ offset + size + rounds = omega (arith, stored.long_enough) in
      elim (Bool-cases (key_equal r.key key)) [
        | inl same ↦ rw same (
            find_loop-take rounds offset size r o lt decoded same fresh fit.0
            ∙ find_loop-none rounds (offset + size) rs (taken r o) more
                (others-Apart key r rs same distinct.0) enough')
        | inr apart ↦ rw apart (
            find_loop-skip rounds offset size r o lt decoded apart
            ∙ find_loop-lookup rounds (offset + size) rs o more distinct.1 fit.1 enough' fresh)
      ]

-- What a scan and a search say of a store.
pub record Store (bytes : List ℕ) (count : ℕ) (summary : Summary) : Type 0 where
  pub records : List ResultRecord
  pub contents : Contents bytes count 0 records
  pub distinct : Distinct records
  pub numbered : Numbered 1 records
  pub counted : summary.record_count ≡ length records
  pub following : summary.next_sequence ≡ length records + 1
  pub found :
      (key : ResultKey) (old : ResultRecord) (value : List ℕ) (capacity flag : ℕ)
      → All (λ r. r.value_length ≤ capacity) records
      → let o =
          outputs (lookup key records) (record { record_out = old; value = value; found = 0 }) in
        find (some bytes) count key (some old) (some value) capacity (some flag)
        ≡ (ok, some o.record_out, some o.value, some o.found)

find-loop :
    (bytes value : List ℕ) (count capacity flag : ℕ) (key : ResultKey) (old : ResultRecord)
    (o : Outputs)
    → find_loop count bytes count key capacity 0
        (record { record_out = old; value = value; found = 0 })
      ≡ (ok, o)
    → find (some bytes) count key (some old) (some value) capacity (some flag)
      ≡ (ok, some o.record_out, some o.value, some o.found)
unfolding find
find-loop bytes value count capacity flag key old o h = rw h

-- When `hermas_result_scan` accepts a store, its bytes are records numbered from 1 on with different
-- keys, the summary counts them, and `hermas_result_find` answers for every key, with a buffer
-- that has room for each value: with the record of the key and a copy of its value if the store has
-- one, and else with `found` 0 and the other outputs as they were.
pub scan-Store :
    {C : Type 0} (bytes : List ℕ) (count : ℕ) (visitor : Visitor C) (context context' : C)
    (old summary : Summary)
    → scan (some bytes) count visitor context (some old) ≡ (ok, some summary, context')
    → Store bytes count summary
scan-Store bytes count visitor context context' old summary h =
    let (s', passed, counted, following) =
      scan-passed bytes count visitor context context' old summary h in
    let all =
      scan_loop-Read count visitor bytes count [] (start_state context) s' here tt (omega arith)
        passed in
    record {
      records = all.records;
      contents = all.contents;
      distinct = all.distinct;
      numbered = all.numbered;
      counted = omega (arith, counted, all.counted);
      following = omega (arith, following, all.following);
      found = λ key old value capacity flag fit.
          find-loop bytes value count capacity flag key old _ (
            find_loop-lookup bytes count key capacity count 0 all.records _ all.contents
              all.distinct fit (omega arith) refl);
    }

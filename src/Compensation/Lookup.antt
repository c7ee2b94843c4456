-- ===== src/Compensation/Lookup.antt =====
-- `hermas_compensation_find` and what the store holds.
use hermas.Base.{
  ℕ, zero, suc, ◌+◌, ◌-◌, ◌<◌, ◌≤◌, ◌≡◌, inl, inr, refl, ◌∙◌, arith, true, some, List, [], ◌∷◌, All,
  length, drop, take, overwrite, Bool-cases, if◌then◌else◌,
}
use hermas.Base.Check.{pass}
use hermas.Compensation.{
  CompensationRecord, CompensationKey, CompensationResult, ok, duplicate_token, pointee, key_equal,
  decode_record,
}
use hermas.Compensation.Scan.{Visitor, Summary, start_state, scan}
use hermas.Compensation.Accepted.{scan-passed}
use hermas.Compensation.Find.{Outputs, take_candidate, consider, find_loop, find}
use hermas.Compensation.Contents.{
  decode_record-Stored, Contents, ends, next, Apart, Numbered, scan_loop-Read,
}

-- The records with a key, in order.
abbrev pub matching : CompensationKey → List CompensationRecord → List CompensationRecord
matching key [] = []
matching key (r ∷ rs) = let rest = matching key rs in if key_equal r.key key then r ∷ rest else rest

-- What a record leaves behind the caller's pointers: its fields, with the value in the buffer.
abbrev pub copied : CompensationRecord → List ℕ → List ℕ
copied r value = overwrite value 0 (take r.token_length (pointee r.token))

abbrev pub taken : CompensationRecord → Outputs → Outputs
taken r o = record {
  record_out = record r { token = some (copied r o.token) };
  token = copied r o.token;
  found = 1;
}

-- The answer to a search that finds these records: a second one is a failure.
abbrev pub answer : List CompensationRecord → Outputs → CompensationResult × Outputs
answer [] o = (ok, o)
answer (r ∷ []) o = (ok, taken r o)
answer (r ∷ _ ∷ _) o = (duplicate_token, taken r o)

-- The answer after one record was found.
abbrev pub answer_again : List CompensationRecord → Outputs → CompensationResult × Outputs
answer_again [] o = (ok, o)
answer_again (_ ∷ _) o = (duplicate_token, o)

answer-cons :
    (r : CompensationRecord) (rs : List CompensationRecord) (o : Outputs)
    → answer (r ∷ rs) o ≡ answer_again rs (taken r o)
answer-cons r [] o = refl
answer-cons r (x ∷ rs) o = refl

module _ (bytes : List ℕ) (count : ℕ) (key : CompensationKey) (capacity : ℕ) where
  find_loop-skip :
      (rounds offset size : ℕ) (r : CompensationRecord) (o : Outputs)
      → offset < count
      → decode_record (drop offset bytes) (count - offset) ≡ pass (r, size)
      → Apart key r
      → find_loop (suc rounds) bytes count key capacity offset o
        ≡ find_loop rounds bytes count key capacity (offset + size) o
  unfolding find_loop consider
  find_loop-skip rounds offset size r o lt decoded apart = ground arith

  find_loop-take :
      (rounds offset size : ℕ) (r : CompensationRecord) (o : Outputs)
      → offset < count
      → decode_record (drop offset bytes) (count - offset) ≡ pass (r, size)
      → key_equal r.key key ≡ true
      → o.found ≡ 0
      → r.token_length ≤ capacity
      → find_loop (suc rounds) bytes count key capacity offset o
        ≡ find_loop rounds bytes count key capacity (offset + size) (taken r o)
  unfolding find_loop consider take_candidate
  find_loop-take rounds offset size r o lt decoded same fresh fits = ground arith

  find_loop-end :
      (rounds offset : ℕ) (o : Outputs)
      → count ≤ offset
      → find_loop rounds bytes count key capacity offset o ≡ (ok, o)
  unfolding find_loop
  find_loop-end zero offset o le = refl
  find_loop-end (suc rounds) offset o le = ground arith

  find_loop-second :
      (rounds offset size : ℕ) (r : CompensationRecord) (o : Outputs)
      → offset < count
      → decode_record (drop offset bytes) (count - offset) ≡ pass (r, size)
      → key_equal r.key key ≡ true
      → o.found ≡ 1
      → find_loop (suc rounds) bytes count key capacity offset o ≡ (duplicate_token, o)
  unfolding find_loop consider take_candidate
  find_loop-second rounds offset size r o lt decoded same set = ground arith

  find_loop-again :
      (rounds offset : ℕ) (rs : List CompensationRecord) (o : Outputs)
      → Contents bytes count offset rs
      → count ≤ offset + rounds
      → o.found ≡ 1
      → find_loop rounds bytes count key capacity offset o ≡ answer_again (matching key rs) o
  find_loop-again rounds offset [] o (ends le) enough set = find_loop-end rounds offset o le
  find_loop-again zero offset (r ∷ rs) o (next lt decoded more) enough set = absurd (omega arith)
  find_loop-again (suc rounds) offset (r ∷ rs) o (next {size = size} lt decoded more) enough set =
      let stored = decode_record-Stored (drop offset bytes) (count - offset) r size decoded in
      elim (Bool-cases (key_equal r.key key)) [
        | inl same ↦ rw same (find_loop-second rounds offset size r o lt decoded same set)
        | inr apart ↦ rw apart (
            find_loop-skip rounds offset size r o lt decoded apart
            ∙ find_loop-again rounds (offset + size) rs o more (omega (arith, stored.long_enough))
                set)
      ]

  pub find_loop-matching :
      (rounds offset : ℕ) (rs : List CompensationRecord) (o : Outputs)
      → Contents bytes count offset rs
      → All (λ r. r.token_length ≤ capacity) rs
      → count ≤ offset + rounds
      → o.found ≡ 0
      → find_loop rounds bytes count key capacity offset o ≡ answer (matching key rs) o
  find_loop-matching rounds offset [] o (ends le) fit enough fresh =
      find_loop-end rounds offset o le
  find_loop-matching zero offset (r ∷ rs) o (next lt decoded more) fit enough fresh =
      absurd (omega arith)
  find_loop-matching (suc rounds) offset (r ∷ rs) o (next {size = size} lt decoded more) fit enough
        fresh =
      let stored = decode_record-Stored (drop offset bytes) (count - offset) r size decoded in
      let enough' : count ≤ offset + size + rounds = omega (arith, stored.long_enough) in
      elim (Bool-cases (key_equal r.key key)) [
        | inl same ↦
            rw (same, answer-cons r (matching key rs) o)
              (find_loop-take rounds offset size r o lt decoded same fresh fit.0
                ∙ find_loop-again rounds (offset + size) rs (taken r o) more enough' refl)
        | inr apart ↦ rw apart (
            find_loop-skip rounds offset size r o lt decoded apart
            ∙ find_loop-matching rounds (offset + size) rs o more fit.1 enough' fresh)
      ]

-- What a scan and a search say of a store.
pub record Tokens (bytes : List ℕ) (count : ℕ) (summary : Summary) : Type 0 where
  pub records : List CompensationRecord
  pub contents : Contents bytes count 0 records
  pub numbered : Numbered 1 records
  pub counted : summary.record_count ≡ length records
  pub following : summary.next_sequence ≡ length records + 1
  pub found :
      (key : CompensationKey) (old : CompensationRecord) (value : List ℕ) (capacity flag : ℕ)
      → All (λ r. r.token_length ≤ capacity) records
      → let (code, o) =
          answer (matching key records) (record { record_out = old; token = value; found = 0 }) in
        find (some bytes) count key (some old) (some value) capacity (some flag)
        ≡ (code, some o.record_out, some o.token, some o.found)

find-loop :
    (bytes value : List ℕ) (count capacity flag : ℕ) (key : CompensationKey)
    (old : CompensationRecord) (result : CompensationResult × Outputs)
    → find_loop count bytes count key capacity 0
        (record { record_out = old; token = value; found = 0 })
      ≡ result
    → find (some bytes) count key (some old) (some value) capacity (some flag)
      ≡ (result.0, some result.1.record_out, some result.1.token, some result.1.found)
unfolding find
find-loop bytes value count capacity flag key old result h = rw h

-- When `hermas_compensation_scan` accepts a store, its bytes are records numbered from 1 on, the
-- summary counts them, and `hermas_compensation_find` answers for every key, with a buffer that has
-- room for each token: `found` stays 0 without a record of the key; the first such record is
-- copied, token included; and a second one makes it fail as a duplicate.
pub scan-Tokens :
    {C : Type 0} (bytes : List ℕ) (count : ℕ) (visitor : Visitor C) (context context' : C)
    (old summary : Summary)
    → scan (some bytes) count visitor context (some old) ≡ (ok, some summary, context')
    → Tokens bytes count summary
scan-Tokens bytes count visitor context context' old summary h =
    let (s', passed, counted, following) =
      scan-passed bytes count visitor context context' old summary h in
    let all =
      scan_loop-Read count visitor bytes count (start_state context) s' (omega arith) passed in
    record {
      records = all.records;
      contents = all.contents;
      numbered = all.numbered;
      counted = omega (arith, counted, all.counted);
      following = omega (arith, following, all.following);
      found = λ key old value capacity flag fit.
          find-loop bytes value count capacity flag key old _ (
            find_loop-matching bytes count key capacity count 0 all.records _ all.contents fit
              (omega arith) refl);
    }

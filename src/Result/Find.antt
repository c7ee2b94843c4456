-- ===== src/Result/Find.antt =====
-- `hermas_result_find` of src/result.c.
use hermas.Base.{
  ℕ, zero, suc, ◌+◌, ◌-◌, true, false, ◌&&◌, Option, some, List, drop, take, overwrite, ltb, ◌!=◌,
  if◌then◌else◌,
}
use hermas.Base.Check.{Check, fail, pass}
use hermas.Result.{
  ResultStoreResult, ok, invalid_argument, duplicate_result, buffer_too_small, ResultKey,
  ResultRecord, is_null, pointee, key_equal, decode_record,
}

-- What the caller gets through its pointers.
pub record Outputs : Type 0 where
  pub record_out : ResultRecord
  pub value : List ℕ
  pub found : ℕ

-- A candidate with the key.
unfoldable pub take_candidate :
    ResultRecord → ℕ → Outputs → Check (ResultStoreResult × Outputs) Outputs
take_candidate candidate value_capacity o =
    if o.found != 0
    then fail (duplicate_result, o)
    else if ltb value_capacity candidate.value_length
    then fail (buffer_too_small, o)
    else (let copy = overwrite o.value 0 (take candidate.value_length (pointee candidate.value)) in
        pass
          (record { record_out = record candidate { value = some copy }; value = copy; found = 1 }))

-- One record of the store.
unfoldable pub consider :
    ResultKey → ResultRecord → ℕ → Outputs → Check (ResultStoreResult × Outputs) Outputs
unfolding take_candidate key_equal
consider key candidate value_capacity o =
    if key_equal candidate.key key then take_candidate candidate value_capacity o else pass o

-- The size of a record is at least 64, so as many rounds as bytes are enough.
unfoldable pub find_loop :
    ℕ → List ℕ → ℕ → ResultKey → ℕ → ℕ → Outputs → ResultStoreResult × Outputs
find_loop zero bytes byte_count key value_capacity offset o = (ok, o)
find_loop (suc rounds) bytes byte_count key value_capacity offset o = elim (ltb offset byte_count) [
  | false ↦ (ok, o)
  | true ↦ elim (decode_record (drop offset bytes) (byte_count - offset)) [
    | fail code ↦ (code, o)
    | pass (candidate, size) ↦ elim (consider key candidate value_capacity o) [
      | fail failure ↦ failure
      | pass o' ↦ find_loop rounds bytes byte_count key value_capacity (offset + size) o'
    ]
  ]
]

-- The result code, and what is behind `record`, `value` and `found` after the call.
unfoldable pub find :
    Option (List ℕ)
    → ℕ
    → ResultKey
    → Option ResultRecord
    → Option (List ℕ)
    → ℕ
    → Option ℕ
    → ResultStoreResult × Option ResultRecord × Option (List ℕ) × Option ℕ
unfolding find_loop
find bytes byte_count key (some r) (some value) value_capacity (some found) =
    if is_null bytes && byte_count != 0
    then (invalid_argument, some r, some value, some found)
    else (let (code, o) =
          find_loop byte_count (pointee bytes) byte_count key value_capacity 0
            (record { record_out = r; value = value; found = 0 }) in
        (code, some o.record_out, some o.value, some o.found))
find bytes byte_count key r value value_capacity found = (invalid_argument, r, value, found)

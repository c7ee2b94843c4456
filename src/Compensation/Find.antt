-- ===== src/Compensation/Find.antt =====
-- `hermas_compensation_find` of src/compensation.c.
use hermas.Base.{
  ℕ, zero, suc, ◌+◌, ◌-◌, true, false, ◌&&◌, Option, some, List, drop, take, overwrite, ltb, ◌!=◌,
  if◌then◌else◌,
}
use hermas.Base.Check.{Check, fail, pass}
use hermas.Compensation.{
  CompensationResult, ok, invalid_argument, duplicate_token, buffer_too_small, CompensationKey,
  CompensationRecord, is_null, pointee, key_equal, decode_record,
}

-- What the caller gets through its pointers.
pub record Outputs : Type 0 where
  pub record_out : CompensationRecord
  pub token : List ℕ
  pub found : ℕ

-- A candidate with the key.
unfoldable pub take_candidate :
    CompensationRecord → ℕ → Outputs → Check (CompensationResult × Outputs) Outputs
take_candidate candidate token_capacity o =
    if o.found != 0
    then fail (duplicate_token, o)
    else if ltb token_capacity candidate.token_length
    then fail (buffer_too_small, o)
    else (let copy = overwrite o.token 0 (take candidate.token_length (pointee candidate.token)) in
        pass
          (record { record_out = record candidate { token = some copy }; token = copy; found = 1 }))

-- One record of the store.
unfoldable pub consider :
    CompensationKey
    → CompensationRecord
    → ℕ
    → Outputs
    → Check (CompensationResult × Outputs) Outputs
unfolding take_candidate key_equal
consider key candidate token_capacity o =
    if key_equal candidate.key key then take_candidate candidate token_capacity o else pass o

-- The size of a record is at least 64, so as many rounds as bytes are enough.
unfoldable pub find_loop :
    ℕ → List ℕ → ℕ → CompensationKey → ℕ → ℕ → Outputs → CompensationResult × Outputs
find_loop zero bytes byte_count key token_capacity offset o = (ok, o)
find_loop (suc rounds) bytes byte_count key token_capacity offset o = elim (ltb offset byte_count) [
  | false ↦ (ok, o)
  | true ↦ elim (decode_record (drop offset bytes) (byte_count - offset)) [
    | fail code ↦ (code, o)
    | pass (candidate, size) ↦ elim (consider key candidate token_capacity o) [
      | fail failure ↦ failure
      | pass o' ↦ find_loop rounds bytes byte_count key token_capacity (offset + size) o'
    ]
  ]
]

-- The result code, and what is behind `record`, `token` and `found` after the call.
unfoldable pub find :
    Option (List ℕ)
    → ℕ
    → CompensationKey
    → Option CompensationRecord
    → Option (List ℕ)
    → ℕ
    → Option ℕ
    → CompensationResult × Option CompensationRecord × Option (List ℕ) × Option ℕ
unfolding find_loop
find bytes byte_count key (some r) (some token) token_capacity (some found) =
    if is_null bytes && byte_count != 0
    then (invalid_argument, some r, some token, some found)
    else (let (code, o) =
          find_loop byte_count (pointee bytes) byte_count key token_capacity 0
            (record { record_out = r; token = token; found = 0 }) in
        (code, some o.record_out, some o.token, some o.found))
find bytes byte_count key r token token_capacity found = (invalid_argument, r, token, found)

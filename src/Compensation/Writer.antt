-- ===== src/Compensation/Writer.antt =====
-- `hermas_compensation_writer_init` and `hermas_compensation_writer_append` of src/compensation.c.
use hermas.Base.{ℕ, ◌+◌, ◌-◌, ◌^◌, not, ◌||◌, Option, none, some, List, take, ◌==◌, if◌then◌else◌}
use hermas.Base.Check.{Check, fail, pass}
use hermas.Compensation.{
  CompensationResult, ok, invalid_argument, is_ok, CompensationRecord, encode_record,
}

-- `write` is the callback over the memory behind `context`, `none` for a null pointer.
pub record Writer (C : Type 0) : Type 0 where
  pub write : Option (C → List ℕ → CompensationResult × C)
  pub context : C
  pub next_sequence : ℕ

module _ {C : Type 0} where
  -- The result code, and `*writer` after the call.
  unfoldable pub writer_init :
      Option (Writer C)
      → Option (C → List ℕ → CompensationResult × C)
      → C
      → ℕ
      → CompensationResult × Option (Writer C)
  writer_init none write context next_sequence = (invalid_argument, none)
  writer_init (some w) none context next_sequence = (invalid_argument, some w)
  writer_init (some w) (some write) context next_sequence =
      if next_sequence == 0 then (invalid_argument, some w) else (
        ok,
        some (record { write = some write; context = context; next_sequence = next_sequence }),
      )

  -- The callback gets the first `size` bytes of the scratch buffer.
  unfoldable pub hand_over :
      (C → List ℕ → CompensationResult × C)
      → Writer C
      → List ℕ
      → Check CompensationResult (List ℕ × ℕ)
      → CompensationResult × Writer C × List ℕ
  hand_over write w scratch (fail code) = (code, w, scratch)
  hand_over write w scratch (pass (encoded, size)) =
      let (written, context) = write w.context (take size encoded) in
      if not (is_ok written)
      then (written, record w { context = context }, encoded)
      else (ok, record w { context = context; next_sequence = w.next_sequence + 1 }, encoded)

  unfoldable pub append_with :
      Option (C → List ℕ → CompensationResult × C)
      → Writer C
      → CompensationRecord
      → List ℕ
      → ℕ
      → CompensationResult × Writer C × List ℕ
  unfolding hand_over
  append_with none w r scratch scratch_capacity = (invalid_argument, w, scratch)
  append_with (some write) w r scratch scratch_capacity =
      if w.next_sequence == 0 || w.next_sequence == 2 ^ 64 - 1
      then (invalid_argument, w, scratch)
      else hand_over write w scratch
          (encode_record (record r { sequence = w.next_sequence }) scratch scratch_capacity)

  -- The result code, `*writer` and the scratch buffer after the call.
  unfoldable pub writer_append :
      Option (Writer C)
      → CompensationRecord
      → Option (List ℕ)
      → ℕ
      → CompensationResult × Option (Writer C) × Option (List ℕ)
  unfolding append_with
  writer_append (some w) r (some scratch) scratch_capacity =
      let (code, w', scratch') = append_with w.write w r scratch scratch_capacity in
      (code, some w', some scratch')
  writer_append w r scratch scratch_capacity = (invalid_argument, w, scratch)
